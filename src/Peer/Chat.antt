-- ===== src/Peer/Chat.antt =====
-- 2.2.1_tcp_p2p.c, the second phase of main: the chat loop. What `epoll_wait`, `read`, `recv`, `send` and
-- `realloc` answer stands in the events; epoll_ctl is taken to succeed on a descriptor that is registered.
pub mod Accounts
pub mod Loop
pub mod Drains
use voice.Prelude.{ℕ, zero, suc, Bool, true, false, ◌||◌, not, List, [], ◌∷◌, ◌++◌, if◌then◌else◌}
use voice.Prelude.Int.{ℤ, pos, negsuc}
use voice.Prelude.Run.{Run, ok, of_option, ◌>>=◌}
use voice.Prelude.Text.{c_string}
use voice.Peer.Outbuf.{Outbuf, outbuf_init, outbuf_empty, outbuf_append, Sent, outbuf_flush_fd}

-- What the connection is registered for: EPOLLIN | EPOLLRDHUP, and EPOLLOUT.
pub record Interest : Type 0 where
  pub read : Bool
  pub write : Bool

-- `typed`, `sent` and `shown` are what read, send and printf were called with; `lost` is what was read
-- and found no memory.
pub record Chat : Type 0 where
  pub ob : Outbuf
  pub interest : Interest
  pub stop : Bool
  pub typed : List ℕ
  pub sent : List ℕ
  pub lost : List ℕ
  pub shown : List ℕ

-- Of `read` and `recv`: bytes, at least one and at most as many as asked for.
pub data Input : Type 0 where
  got : ℕ → List ℕ → Input
  end_of_input again failed : Input

pub data ChatEvent : Type 0 where
  keyboard : Input → (got_memory : Bool) → ChatEvent
  socket : (readable hup err writable : Bool) → Input → List Sent → ChatEvent

-- Whether the loop over the events goes on or meets `break`.
pub data Flow : Type 0 where
  on leave : Flow

abbrev pub stopped : Chat → Run (Flow × Chat)
stopped c = ok (leave, record c { stop = true })

-- Behind outbuf_append, by its code.
unfoldable pub appended : ℤ → Outbuf → List ℕ → Chat → Run (Flow × Chat)
appended (negsuc n) ob p c =
    stopped (record c { ob = ob; typed = c.typed ++ p; lost = c.lost ++ p })
appended (pos n) ob p c = ok (
  on,
  record c {
    ob = ob;
    typed = c.typed ++ p;
    interest = record { read = true; write = not (outbuf_empty ob) };
  },
)

unfoldable pub on_keyboard : Input → Bool → Chat → Run (Flow × Chat)
unfolding appended
on_keyboard (got x p) got_memory c =
    outbuf_append got_memory c.ob (x ∷ p) >>= λ (ret, ob). appended ret ob (x ∷ p) c
on_keyboard end_of_input got_memory c = ok (on, c)
on_keyboard again got_memory c = ok (on, c)
on_keyboard failed got_memory c = stopped c

unfoldable pub on_receive : Input → Chat → Run (Flow × Chat)
on_receive (got x p) c = of_option (c_string ((x ∷ p) ++ 0 ∷ [])) >>= λ text.
    ok (on, record c { shown = c.shown ++ text })
on_receive end_of_input c = stopped c
on_receive again c = ok (on, c)
on_receive failed c = stopped c

-- The part for input and hang-up.
unfoldable pub on_readable : Bool → Bool → Bool → Input → Chat → Run (Flow × Chat)
unfolding on_receive
on_readable readable hup err input c =
    if readable || (hup || err)
    then if hup then stopped c else if readable then on_receive input c else ok (on, c)
    else ok (on, c)

-- Behind outbuf_flush_fd, by its code.
unfoldable pub flushed_by : ℤ → Chat → Run (Flow × Chat)
flushed_by (negsuc n) c = stopped c
flushed_by (pos n) c = elim n [
  | zero ↦ ok (on, record c { interest = record { read = true; write = false } })
  | suc m ↦ ok (on, c)
]

unfoldable pub on_writable : Bool → List Sent → Chat → Run (Flow × Chat)
unfolding flushed_by
on_writable false answers c = ok (on, c)
on_writable true answers c = outbuf_flush_fd answers c.ob >>= λ (code, sent, ob).
    flushed_by code (record c { ob = ob; sent = c.sent ++ sent })

unfoldable pub chat_event : ChatEvent → Chat → Run (Flow × Chat)
unfolding on_keyboard on_readable on_writable
chat_event (keyboard input got_memory) c = on_keyboard input got_memory c
chat_event (socket readable hup err writable input answers) c =
    on_readable readable hup err input c >>= λ (flow, c'). elim flow [
      | leave ↦ ok (leave, c')
      | on ↦ on_writable writable answers c'
    ]

-- The loop over the events of one epoll_wait.
unfoldable pub chat_batch : List ChatEvent → Chat → Run Chat
unfolding chat_event
chat_batch [] c = ok c
chat_batch (e ∷ events) c =
    chat_event e c >>= λ (flow, c'). elim flow [ leave ↦ ok c' | on ↦ chat_batch events c' ]

-- What epoll_wait answers. A signal may come while it waits, or while the events are handled.
pub data Waited : Type 0 where
  ready : (signal : Bool) → List ChatEvent → Waited
  signalled interrupted_wait failed_wait : Waited

unfoldable pub chat_round : Waited → Chat → Run (Flow × Chat)
unfolding chat_batch
chat_round (ready signal events) c =
    chat_batch events c >>= λ c'. ok (on, record c' { stop = c'.stop || signal })
chat_round signalled c = ok (on, record c { stop = true })
chat_round interrupted_wait c = ok (on, c)
chat_round failed_wait c = ok (leave, c)

-- Whether a loop has ended, or waits on behind the waits that are given.
pub data Progress : Type 0 where
  ended waiting : Progress

-- `while (!g_stop)`.
unfoldable pub chat_loop : List Waited → Chat → Run (Progress × Chat)
unfolding chat_round
chat_loop [] c = if c.stop then ok (ended, c) else ok (waiting, c)
chat_loop (w ∷ waits) c = elim c.stop [
  | true ↦ ok (ended, c)
  | false ↦ chat_round w c >>= λ (flow, c'). elim flow [
    | leave ↦ ok (ended, c')
    | on ↦ chat_loop waits c'
  ]
]

-- The loop starts with what the connection is registered for.
abbrev pub new_chat : Interest → Chat
new_chat interest = record {
  ob = outbuf_init;
  interest = interest;
  stop = false;
  typed = [];
  sent = [];
  lost = [];
  shown = [];
}
