-- ===== src/Peer/Connect.antt =====
-- 2.2.1_tcp_p2p.c, the first phase of main: it listens on one socket and connects with another until one
-- of the two gives a connection, and then chats over it. The sockets' setup stands before.
pub mod Origin
pub mod Main
use voice.Prelude.{
  ℕ, zero, suc, Bool, true, false, ◌||◌, ◌&&◌, not, Option, none, some, List, [], ◌∷◌, ◌==◌,
  if◌then◌else◌,
}
use voice.Prelude.Run.{Run, ok, ◌>>=◌}
use voice.Peer.Chat.{Interest, Chat, Progress, ended, waiting, Waited, chat_loop, new_chat}

-- The interest list of the epoll instance; its newest entry first.
abbrev pub Registered : Type 0
Registered = List (ℕ × Interest)

unfoldable pub interest_of : ℕ → Registered → Option Interest
interest_of fd [] = none
interest_of fd ((fd', i) ∷ r) = if fd == fd' then some i else interest_of fd r

-- EPOLL_CTL_ADD refuses a descriptor that is registered, and main goes on.
unfoldable pub ep_add : ℕ → Interest → Registered → Registered
unfolding interest_of
ep_add fd i r = elim (interest_of fd r) [ none ↦ (fd, i) ∷ r | some j ↦ r ]

unfoldable pub ep_del : ℕ → Registered → Registered
ep_del fd [] = []
ep_del fd ((fd', i) ∷ r) = if fd == fd' then r else (fd', i) ∷ ep_del fd r

-- The active_path of main.
pub data ActivePath : Type 0 where
  no_path accept_path connect_path : ActivePath

-- `none` for the descriptor -1.
pub record Dial : Type 0 where
  pub lfd : ℕ
  pub cfd : Option ℕ
  pub conn_inflight : Bool
  pub established : Option ℕ
  pub active_path : ActivePath
  pub stop : Bool
  pub registered : Registered

-- What `connect` answers at once, and SO_ERROR later.
pub data Connected : Type 0 where
  at_once in_progress refused : Connected

pub data SoError : Type 0 where
  no_error an_error no_option : SoError

abbrev input_only : Interest
input_only = record { read = true; write = false }

abbrev output_only : Interest
output_only = record { read = false; write = true }

-- What the first test of connect's answer leaves in conn_inflight.
abbrev pub in_flight : Connected → Bool
in_flight at_once = false
in_flight in_progress = true
in_flight refused = false

-- From the call of connect to the first wait.
unfoldable pub start_dial : ℕ → ℕ → Connected → Dial
unfolding ep_add
start_dial lfd cfd connected =
    let conn_inflight = in_flight connected in
    let listening = ep_add lfd input_only [] in
    let registered = if conn_inflight then ep_add cfd output_only listening else listening in
    record {
      lfd = lfd;
      cfd = some cfd;
      conn_inflight = conn_inflight;
      established = none;
      active_path = no_path;
      stop = false;
      registered = ep_add 0 input_only registered;
    }

-- An event of a descriptor, with what accept and getsockopt would answer. `out` stands for
-- EPOLLOUT | EPOLLERR | EPOLLHUP.
pub record DialEvent : Type 0 where
  pub fd : ℕ
  pub input : Bool
  pub out : Bool
  pub accepted : Option ℕ
  pub so_error : SoError

unfoldable pub on_listening : DialEvent → Dial → Dial
on_listening e d =
    if e.fd == d.lfd && e.input
    then (elim e.accepted [
      | none ↦ d
      | some afd ↦ record d { established = some afd; active_path = accept_path }
    ])
    else d

abbrev pub is_cfd : ℕ → Option ℕ → Bool
is_cfd fd none = false
is_cfd fd (some cfd) = fd == cfd

unfoldable pub on_connecting : DialEvent → Dial → Dial
unfolding ep_del
on_connecting e d =
    if d.conn_inflight && (is_cfd e.fd d.cfd && e.out)
    then (elim e.so_error [
      | no_option ↦ record d { conn_inflight = false; registered = ep_del e.fd d.registered }
      | no_error ↦ record d { established = some e.fd; cfd = none; active_path = connect_path }
      | an_error ↦ record d { conn_inflight = false; registered = ep_del e.fd d.registered }
    ])
    else d

unfoldable pub dial_batch : List DialEvent → Dial → Dial
unfolding on_listening on_connecting
dial_batch [] d = d
dial_batch (e ∷ events) d = dial_batch events (on_connecting e (on_listening e d))

-- What epoll_wait answers here. A signal may come with it.
pub data DialWait : Type 0 where
  dialled : (signal : Bool) → List DialEvent → DialWait
  dial_interrupted : (signal : Bool) → DialWait
  dial_failed : DialWait

-- `while (!g_stop && established_fd < 0)`.
unfoldable pub dial_loop : List DialWait → Dial → Progress × Dial
unfolding dial_batch
dial_loop [] d = elim d.stop [
  | true ↦ (ended, d)
  | false ↦ elim d.established [ some fd ↦ (ended, d) | none ↦ (waiting, d) ]
]
dial_loop (w ∷ waits) d = elim d.stop [
  | true ↦ (ended, d)
  | false ↦ elim d.established [
    | some fd ↦ (ended, d)
    | none ↦ elim w [
      | dial_failed ↦ (ended, d)
      | dial_interrupted signal ↦ dial_loop waits (record d { stop = signal })
      | dialled signal events ↦
          let d' = dial_batch events d in dial_loop waits (record d' { stop = d'.stop || signal })
    ]
  ]
]

-- The sockets that are not needed any more leave the list.
unfoldable pub dial_cleanup : Dial → Dial
unfolding ep_del
dial_cleanup d = record d {
  registered =
      ep_del d.lfd (elim d.cfd [ none ↦ d.registered | some cfd ↦ ep_del cfd d.registered ]);
}

-- What main comes to: it still waits for a connection, it returns 3, it is in the chat, or the chat is over.
pub data Peer : Type 0 where
  dialling not_established : Peer
  chatting : Chat → Peer
  chatted : Chat → Peer

abbrev pub or_nothing : Option Interest → Interest
or_nothing none = record { read = false; write = false }
or_nothing (some i) = i

unfoldable pub chat_over : List Waited → Dial → ℕ → Run Peer
unfolding interest_of ep_add
chat_over waits d fd =
    let interest = or_nothing (interest_of fd (ep_add fd input_only d.registered)) in
    chat_loop waits (record (new_chat interest) { stop = d.stop }) >>= λ (progress, c).
    ok (elim progress [ ended ↦ chatted c | waiting ↦ chatting c ])

unfoldable pub peer_main : ℕ → ℕ → Connected → List DialWait → List Waited → Run Peer
unfolding start_dial dial_loop dial_cleanup chat_over
peer_main lfd cfd connected dials waits =
    let (progress, dialled_to) = dial_loop dials (start_dial lfd cfd connected) in
    elim progress [
      | waiting ↦ ok dialling
      | ended ↦
          let d = dial_cleanup dialled_to in
          elim d.established [ none ↦ ok not_established | some fd ↦ chat_over waits d fd ]
    ]
