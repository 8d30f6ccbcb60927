-- ===== src/Kcp.antt =====
-- 2.2.3-udp-kcp-quic(示例版)/server.c: the echo server over KCP. The functions of ikcp.c, which is another
-- project's library, are a parameter; what recvfrom answers and the clock stand in the waits.
pub mod Order
mod Examples
use voice.Prelude.{
  ℕ, zero, suc, ◌+◌, ◌*◌, ◌/◌, ◌%◌, ◌^◌, Bool, true, false, Option, none, some, List, [], ◌∷◌, ◌++◌,
  length, take, if◌then◌else◌,
}

abbrev pub recv_buf : ℕ
recv_buf = 1500

-- The milliseconds, and their low 32 bits.
unfoldable pub iclock64 : (sec usec : ℕ) → ℕ
iclock64 sec usec = sec * 1000 + usec / 1000

unfoldable pub iclock : (sec usec : ℕ) → ℕ
unfolding iclock64
iclock sec usec = iclock64 sec usec % 2 ^ 32

-- A result of `input` says whether it is not negative; `recv` gives no bytes for a negative one, and gets
-- the size of the buffer.
pub record KcpOps (Kcp : Type 0) : Type 0 where
  pub update : ℕ → Kcp → Kcp
  pub input : List ℕ → Kcp → Bool × Kcp
  pub recv : ℕ → Kcp → Option (List ℕ) × Kcp
  pub send : List ℕ → Kcp → Kcp
  pub flush : Kcp → Kcp

-- `recvfrom`: a datagram with its sender, one without bytes, or nothing.
pub data Datagram : Type 0 where
  packet : ℕ → ℕ → List ℕ → Datagram
  empty : ℕ → Datagram
  nothing : Datagram

abbrev pub goes_on : Datagram → Bool
goes_on (packet from byte bytes) = true
goes_on (empty from) = false
goes_on nothing = true

pub record KcpWait : Type 0 where
  pub clock : ℕ
  pub datagram : Datagram

-- `client_addr` is where udp_output sends to; `replies` are the buffers given to ikcp_send.
pub record KcpServer (Kcp : Type 0) : Type 0 where
  pub kcp : Kcp
  pub client_addr : Option ℕ
  pub recv_count : ℕ
  pub number : ℕ
  pub replies : List (List ℕ)

abbrev pub new_server : {Kcp : Type 0} → Kcp → KcpServer Kcp
new_server kcp = record { kcp = kcp; client_addr = none; recv_count = 0; number = 0; replies = [] }

-- Whether `init` returns; it ends the program when socket or bind fails.
abbrev pub kcp_init : (socket_fails bind_fails : Bool) → Bool
kcp_init true bind_fails = false
kcp_init false true = false
kcp_init false false = true

module _ {Kcp : Type 0} (ops : KcpOps Kcp) where
  abbrev pub reply : Option (List ℕ) × Kcp → KcpServer Kcp → KcpServer Kcp
  reply (none, kcp) s = record s { kcp = kcp }
  reply (some bytes, kcp) s = record s {
    kcp = ops.flush (ops.send bytes kcp);
    number = s.number + 1;
    replies = s.replies ++ bytes ∷ [];
  }

  abbrev pub take_input : ℕ → Bool × Kcp → KcpServer Kcp → KcpServer Kcp
  take_input n (false, kcp) s = record s { kcp = kcp }
  take_input n (true, kcp) s = reply (ops.recv n kcp) (record s { kcp = kcp })

  -- The branch of a datagram with bytes, of which the buffer takes `recv_buf`; one byte at least comes.
  abbrev pub on_packet : ℕ → List ℕ → KcpServer Kcp → KcpServer Kcp
  on_packet from bytes s =
      take_input (length bytes) (ops.input bytes s.kcp)
        (record s { client_addr = some from; recv_count = s.recv_count + 1 })

  abbrev pub updated : ℕ → KcpServer Kcp → KcpServer Kcp
  updated clock s = record s { kcp = ops.update clock s.kcp }

  abbrev pub after_wait : Datagram → KcpServer Kcp → KcpServer Kcp
  after_wait (packet from byte bytes) s = on_packet from (take recv_buf (byte ∷ bytes)) s
  after_wait (empty from) s = record s { client_addr = some from }
  after_wait nothing s = s

  unfoldable pub kcp_turn : KcpWait → KcpServer Kcp → KcpServer Kcp
  kcp_turn w s = after_wait w.datagram (updated w.clock s)

  -- The loop, which a datagram without bytes ends.
  unfoldable pub kcp_loop : List KcpWait → KcpServer Kcp → KcpServer Kcp
  unfolding kcp_turn
  kcp_loop [] s = s
  kcp_loop (w ∷ waits) s =
      let s' = kcp_turn w s in
      let rest = kcp_loop waits s' in if goes_on w.datagram then rest else s'

  pub data KcpExit : Type 0 where
    minus_one exit_one : KcpExit
    looped : KcpServer Kcp → KcpExit

  -- The created object has its window and mode set.
  unfoldable pub kcp_main : ℕ → (socket_fails bind_fails : Bool) → Kcp → ℕ → List KcpWait → KcpExit
  unfolding kcp_loop
  kcp_main zero socket_fails bind_fails kcp clock waits = minus_one
  kcp_main (suc zero) socket_fails bind_fails kcp clock waits = minus_one
  kcp_main (suc (suc n)) socket_fails bind_fails kcp clock waits =
      let s = kcp_loop waits (updated clock (new_server kcp)) in
      if kcp_init socket_fails bind_fails then looped s else exit_one
