-- ===== src/TcpServer.antt =====
-- Linux入门环境编程's TCP servers: TCP服务器/tcp_epoll.c and tcp_onebyone.c, 百万并发的服务器/tcp_Server.c. The
-- sockets are a parameter, with recv as a function; an event brings its descriptor's socket. A message is
-- what printf is given.
pub mod Drain
pub mod Listeners
pub mod Serves
mod Examples
use voice.Prelude.{
  ℕ, zero, suc, Bool, true, false, Option, none, some, List, [], ◌∷◌, ◌==◌, if◌then◌else◌,
}
use voice.Prelude.Run.{Run, ok, out_of_fuel, ◌>>=◌}

-- `recv`: bytes, 0, and -1 by errno.
pub data RecvOutcome : Type 0 where
  came : List ℕ → RecvOutcome
  peer_closed would_block interrupted failed : RecvOutcome

-- What a turn of a receiving loop does: a message, another turn, or the end, with or without close.
pub data LoopStep : Type 0 where
  prints : List ℕ → LoopStep
  again : LoopStep
  leaves : Bool → LoopStep

unfoldable pub server_step : RecvOutcome → LoopStep
server_step (came bytes) = prints bytes
server_step peer_closed = leaves true
server_step would_block = leaves false
server_step interrupted = again
server_step failed = leaves true

-- Here what is not EAGAIN and not 0 is printed, a length of -1 with a buffer of zeros.
unfoldable pub epoll_step : RecvOutcome → LoopStep
epoll_step (came bytes) = prints bytes
epoll_step peer_closed = leaves true
epoll_step would_block = leaves false
epoll_step interrupted = prints []
epoll_step failed = prints []

unfoldable pub handler_step : RecvOutcome → LoopStep
handler_step (came bytes) = prints bytes
handler_step peer_closed = leaves true
handler_step would_block = leaves true
handler_step interrupted = leaves true
handler_step failed = leaves true

pub record Drained (Socket : Type 0) : Type 0 where
  pub socket : Socket
  pub messages : List (List ℕ)
  pub closes : Bool

-- The three loops over recv.
module _ {Socket : Type 0} (step : RecvOutcome → LoopStep)
    (recv : Socket → RecvOutcome × Socket) where
  abbrev pub drain_turn : LoopStep → Run (Drained Socket) → Socket → Run (Drained Socket)
  drain_turn (prints bytes) rest s = rest >>= λ d. ok (record d { messages = bytes ∷ d.messages })
  drain_turn again rest s = rest
  drain_turn (leaves closes) rest s = ok (record { socket = s; messages = []; closes = closes })

  unfoldable pub drain : ℕ → Socket → Run (Drained Socket)
  drain zero s = out_of_fuel
  drain (suc fuel) s =
      let rest = drain fuel (recv s).1 in drain_turn (step (recv s).0) rest (recv s).1

pub data Watched : Type 0 where
  unwatched level edge : Watched

pub record TcpServer : Type 0 where
  pub watched : ℕ → Watched
  pub printed : List (ℕ × List (List ℕ))

pub record TcpEvent (Socket : Type 0) : Type 0 where
  pub fd : ℕ
  pub accepted : Option ℕ
  pub socket : Socket

abbrev pub watch_fd : ℕ → Watched → TcpServer → TcpServer
watch_fd fd w st = record st { watched = λ k. if k == fd then w else st.watched k }

-- With accept's -1, fcntl and epoll_ctl refuse the descriptor.
unfoldable pub accept_client : Option ℕ → TcpServer → TcpServer
accept_client none st = st
accept_client (some client_fd) st = watch_fd client_fd edge st

unfoldable pub end_client : ℕ → Bool → TcpServer → TcpServer
end_client fd true st = watch_fd fd unwatched st
end_client fd false st = st

abbrev pub print_messages : ℕ → List (List ℕ) → TcpServer → TcpServer
print_messages fd messages st = record st { printed = (fd, messages) ∷ st.printed }

abbrev pub max_port : ℕ
max_port = 100

abbrev pub listeners_size : ℕ
listeners_size = 1024

-- The array has more entries than the loop reads.
unfoldable pub listenfd_scan : ℕ → ℕ → List ℕ → ℕ
listenfd_scan zero fd fds = 0
listenfd_scan (suc n) fd [] = 0
listenfd_scan (suc n) fd (l ∷ fds) =
    let rest = listenfd_scan n fd fds in if fd == l then fd else rest

unfoldable pub islistenfd : ℕ → List ℕ → ℕ
unfolding listenfd_scan
islistenfd fd fds = listenfd_scan max_port fd fds

-- The events of any number of waits, in order, each with the body of the loop.
unfoldable pub events_run :
    {Socket : Type 0}
    → (TcpEvent Socket → TcpServer → Run TcpServer)
    → List (TcpEvent Socket)
    → TcpServer
    → Run TcpServer
events_run turn [] st = ok st
events_run turn (e ∷ events) st = turn e st >>= λ st'. events_run turn events st'

module _ {Socket : Type 0} (recv : Socket → RecvOutcome × Socket) (fuel : ℕ) where
  unfoldable pub serve_client :
      (RecvOutcome → LoopStep) → TcpEvent Socket → TcpServer → Run TcpServer
  unfolding drain end_client
  serve_client step e st = drain step recv fuel e.socket >>= λ d.
      ok (end_client e.fd d.closes (print_messages e.fd d.messages st))

  unfoldable pub serve_as : ℕ → TcpEvent Socket → TcpServer → Run TcpServer
  unfolding serve_client accept_client
  serve_as zero e st = serve_client server_step e st
  serve_as (suc sockfd) e st = ok (accept_client e.accepted st)

  -- tcp_Server's turn for an event.
  unfoldable pub serve_event : List ℕ → TcpEvent Socket → TcpServer → Run TcpServer
  unfolding serve_as islistenfd
  serve_event sockfds e st = serve_as (islistenfd e.fd sockfds) e st

  abbrev pub epoll_as : Bool → TcpEvent Socket → TcpServer → Run TcpServer
  epoll_as true e st = ok (accept_client e.accepted st)
  epoll_as false e st = serve_client epoll_step e st

  -- tcp_epoll's turn, which has one listener.
  unfoldable pub epoll_event : ℕ → TcpEvent Socket → TcpServer → Run TcpServer
  unfolding accept_client serve_client
  epoll_event listen_fd e st = epoll_as (e.fd == listen_fd) e st

  -- A thread of tcp_onebyone: what it prints until it closes the connection.
  unfoldable pub client_handler : Socket → Run (Drained Socket)
  unfolding drain
  client_handler s = drain handler_step recv fuel s

-- What socket, bind and listen answer for a port.
pub record PortAnswers : Type 0 where
  pub socket : Option ℕ
  pub binds : Bool
  pub listens : Bool

-- A program that has started, with its listeners, or what main returns, without the minus.
pub data Started : Type 0 where
  serving : List ℕ → Started
  returned : ℕ → Started

abbrev pub one_more : ℕ → Started → Started
one_more fd (serving fds) = serving (fd ∷ fds)
one_more fd (returned code) = returned code

-- `bind_code` and `listen_code` are what the program returns for those two.
abbrev pub open_by :
    (bind_code listen_code : ℕ) → Option ℕ → (binds listens : Bool) → Started → Started
open_by bind_code listen_code none binds listens rest = returned 2
open_by bind_code listen_code (some fd) false listens rest = returned bind_code
open_by bind_code listen_code (some fd) true false rest = returned listen_code
open_by bind_code listen_code (some fd) true true rest = one_more fd rest

abbrev pub open_port : (bind_code listen_code : ℕ) → PortAnswers → Started → Started
open_port bind_code listen_code a rest =
    open_by bind_code listen_code a.socket a.binds a.listens rest

unfoldable pub open_ports : ℕ → (ℕ → PortAnswers) → ℕ → Started
open_ports zero answers i = serving []
open_ports (suc n) answers i =
    let rest = open_ports n answers (suc i) in open_port 2 3 (answers i) rest

unfoldable pub server_main : ℕ → (ℕ → PortAnswers) → Started
unfolding open_ports
server_main zero answers = returned 1
server_main (suc zero) answers = returned 1
server_main (suc (suc n)) answers = open_ports listeners_size answers 0

unfoldable pub epoll_main : ℕ → PortAnswers → Started
epoll_main zero a = returned 1
epoll_main (suc zero) a = returned 1
epoll_main (suc (suc n)) a = open_port 2 3 a (serving [])

unfoldable pub onebyone_main : ℕ → PortAnswers → Started
onebyone_main zero a = returned 1
onebyone_main (suc zero) a = returned 1
onebyone_main (suc (suc n)) a = open_port 3 4 a (serving [])

-- The descriptors that a thread is started for.
unfoldable pub accept_loop : List (Option ℕ) → List ℕ
accept_loop [] = []
accept_loop (none ∷ answers) = accept_loop answers
accept_loop (some client_fd ∷ answers) = client_fd ∷ accept_loop answers
