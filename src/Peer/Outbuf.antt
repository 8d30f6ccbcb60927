-- ===== src/Peer/Outbuf.antt =====
-- outbuf_t of 2.2.1_tcp_p2p.c and its functions. What `realloc` and `send` answer are arguments; what
-- `send` takes is given back as a list.
pub mod Pending
pub mod Flush
use voice.Prelude.{
  ℕ, zero, suc, ◌+◌, ◌-◌, Bool, true, false, ◌&&◌, List, [], ◌∷◌, ◌++◌, ◌==◌, not, ltb, leb,
  if◌then◌else◌, length, take, drop, replicate,
}
use voice.Prelude.Int.{ℤ, pos, negsuc}
use voice.Prelude.Run.{Run, ok, of_option, ◌>>=◌}
use voice.Prelude.Memory.{read_bytes, write_bytes, realloc}

-- `bytes` is the memory behind `data`, none for NULL.
pub record Outbuf : Type 0 where
  pub bytes : List ℕ
  pub len : ℕ
  pub off : ℕ

unfoldable pub outbuf_init : Outbuf
outbuf_init = record { bytes = []; len = 0; off = 0 }

unfoldable pub outbuf_empty : Outbuf → Bool
outbuf_empty b = leb b.len b.off

unfoldable pub outbuf_compact : Outbuf → Run Outbuf
outbuf_compact b =
    if b.off == 0 then ok b else if leb b.len b.off then ok (record b { len = 0; off = 0 }) else (do
      rest ← of_option (read_bytes b.bytes b.off (b.len - b.off))
      bytes ← of_option (write_bytes b.bytes 0 rest)
      ok (record { bytes = bytes; len = b.len - b.off; off = 0 }))

-- Behind the compaction.
unfoldable pub extend : Bool → Outbuf → List ℕ → Run (ℤ × Outbuf)
extend got_memory b p =
    if got_memory
    then (do
      bytes ← of_option (write_bytes (realloc b.bytes (b.len + length p)) b.len p)
      ok (pos 0, record b { bytes = bytes; len = b.len + length p }))
    else ok (negsuc 0, b)

unfoldable pub outbuf_append : Bool → Outbuf → List ℕ → Run (ℤ × Outbuf)
unfolding extend outbuf_compact
outbuf_append got_memory b [] = ok (pos 0, b)
outbuf_append got_memory b (c ∷ p) =
    let avail = b.len - b.off in
    (if ltb 0 b.off && ltb avail b.len then outbuf_compact b else ok b) >>= λ b'.
    extend got_memory b' (c ∷ p)

-- What `send` answers: it takes `n + 1` bytes, or all if there are fewer, is interrupted, or fails. Where
-- no answer is left it would block.
pub data Sent : Type 0 where
  took : ℕ → Sent
  interrupted broken : Sent

-- All is written.
abbrev pub flushed : Outbuf → Run (ℤ × List ℕ × Outbuf)
flushed b = ok (pos 0, [], record b { len = 0; off = 0 })

-- The code, the bytes that were sent, and the buffer.
unfoldable pub outbuf_flush_fd : List Sent → Outbuf → Run (ℤ × List ℕ × Outbuf)
outbuf_flush_fd [] b = if ltb b.off b.len then ok (pos 1, [], b) else flushed b
outbuf_flush_fd (took n ∷ answers) b = elim (ltb b.off b.len) [
  | false ↦ flushed b
  | true ↦ of_option (read_bytes b.bytes b.off (b.len - b.off)) >>= λ rest.
      let sent = take (suc n) rest in
      outbuf_flush_fd answers (record b { off = b.off + length sent }) >>= λ (code, more, b').
      ok (code, sent ++ more, b')
]
outbuf_flush_fd (interrupted ∷ answers) b = elim (ltb b.off b.len) [
  | false ↦ flushed b
  | true ↦ outbuf_flush_fd answers b
]
outbuf_flush_fd (broken ∷ answers) b = if ltb b.off b.len then ok (negsuc 0, [], b) else flushed b
