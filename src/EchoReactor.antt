-- ===== src/EchoReactor.antt =====
-- 2.1.3_reactor_01.c: the echo server over epoll, a table of connections with their callbacks. What
-- accept, recv and send answer stands in the events; epoll's list is the field `watched`.
pub mod Connections
pub mod Echo
mod Examples
use voice.Prelude.{
  ℕ, zero, suc, Bool, true, false, Option, none, some, List, [], ◌∷◌, ◌++◌, ◌==◌, ltb, leb,
  if◌then◌else◌, length, take, drop, replicate,
}
use voice.Prelude.Text.{has_nul}
use voice.Prelude.Run.{Run, ok, fault, ◌>>=◌}

abbrev pub echo_buffer_length : ℕ
echo_buffer_length = 1024

abbrev pub echo_table_size : ℕ
echo_table_size = 1048576

pub data ReadCallback : Type 0 where
  null_callback accept_callback recv_callback : ReadCallback

pub data WatchedFor : Type 0 where
  unwatched epollin epollout : WatchedFor

-- `came_in` and `gone_out` are what recv gave and send took since the connection was accepted.
pub record EchoConn : Type 0 where
  pub fd : ℕ
  pub rbuffer : List ℕ
  pub rlength : ℕ
  pub wbuffer : List ℕ
  pub wlength : ℕ
  pub send_callback : Bool
  pub r_action : ReadCallback
  pub watched : WatchedFor
  pub came_in : List ℕ
  pub gone_out : List ℕ

abbrev pub ConnTable : Type 0
ConnTable = ℕ → EchoConn

abbrev pub put_conn : ConnTable → ℕ → EchoConn → ConnTable
put_conn t fd c = λ k. if k == fd then c else t k

-- What event_register writes for a descriptor, with its entry in epoll's list.
abbrev pub opened_conn : ℕ → EchoConn
opened_conn fd = record {
  fd = fd;
  rbuffer = replicate echo_buffer_length 0;
  rlength = 0;
  wbuffer = replicate echo_buffer_length 0;
  wlength = 0;
  send_callback = true;
  r_action = recv_callback;
  watched = epollin;
  came_in = [];
  gone_out = [];
}

-- accept gives -1 on an error, which is an index outside the table.
unfoldable pub accept_conn : Option ℕ → ConnTable → Run ConnTable
accept_conn none t = fault
accept_conn (some client_fd) t =
    if ltb client_fd echo_table_size
    then ok (put_conn t client_fd (opened_conn client_fd))
    else fault

-- `recv` gives bytes, none at the end, or -1.
pub data RecvAnswer : Type 0 where
  came : List ℕ → RecvAnswer
  recv_error : RecvAnswer

-- memcpy overwrites the front.
abbrev pub copy_front : List ℕ → List ℕ → List ℕ
copy_front from to = from ++ drop (length from) to

abbrev pub got_bytes : List ℕ → EchoConn → EchoConn
got_bytes got c =
    let rbuffer = copy_front got c.rbuffer in
    record c {
      rbuffer = rbuffer;
      rlength = length got;
      wlength = length got;
      wbuffer = copy_front (take (length got) rbuffer) c.wbuffer;
      watched = epollout;
      came_in = c.came_in ++ got;
    }

unfoldable pub recv_conn : List ℕ → EchoConn → EchoConn
recv_conn [] c = record c { watched = unwatched }
recv_conn (x ∷ bytes) c = got_bytes (take echo_buffer_length (x ∷ bytes)) c

-- rbuffer has a NUL behind recv.
unfoldable pub echo_printable : List ℕ → EchoConn → Bool
unfolding has_nul
echo_printable bytes c = has_nul (copy_front (take echo_buffer_length bytes) c.rbuffer)

-- A count of -1 is also the size that memcpy is called with; what was received is printed up to the
-- first NUL of rbuffer, which may have none.
unfoldable pub echo_recv_cb : RecvAnswer → ℕ → ConnTable → Run ConnTable
unfolding recv_conn echo_printable
echo_recv_cb recv_error fd t = fault
echo_recv_cb (came []) fd t = ok (put_conn t fd (recv_conn [] (t fd)))
echo_recv_cb (came (x ∷ bytes)) fd t =
    if echo_printable (x ∷ bytes) (t fd)
    then ok (put_conn t fd (recv_conn (x ∷ bytes) (t fd)))
    else fault

-- `send` takes the first `taken` bytes, or all if there are fewer.
unfoldable pub send_conn : ℕ → EchoConn → EchoConn
send_conn taken c = record c {
  watched = epollin;
  gone_out = c.gone_out ++ take taken (take c.wlength c.wbuffer);
}

pub record EchoEvent : Type 0 where
  pub fd : ℕ
  pub input : Bool
  pub output : Bool
  pub accepted : Option ℕ
  pub received : RecvAnswer
  pub taken : ℕ

unfoldable pub call_read : ReadCallback → EchoEvent → ConnTable → Run ConnTable
unfolding accept_conn echo_recv_cb
call_read null_callback e t = fault
call_read accept_callback e t = accept_conn e.accepted t
call_read recv_callback e t = echo_recv_cb e.received e.fd t

unfoldable pub call_send : EchoEvent → ConnTable → Run ConnTable
unfolding send_conn
call_send e t =
    if (t e.fd).send_callback then ok (put_conn t e.fd (send_conn e.taken (t e.fd))) else fault

-- The two tests of an event, of EPOLLIN and of EPOLLOUT.
unfoldable pub by_tests : (input output : Bool) → EchoEvent → ConnTable → Run ConnTable
unfolding call_read call_send
by_tests input output e t = (if input then call_read (t e.fd).r_action e t else ok t) >>= λ t'.
    if output then call_send e t' else ok t'

unfoldable pub echo_event : EchoEvent → ConnTable → Run ConnTable
unfolding by_tests
echo_event e t = by_tests e.input e.output e t

-- The events of any number of waits, in order.
unfoldable pub echo_run : List EchoEvent → ConnTable → Run ConnTable
unfolding echo_event
echo_run [] t = ok t
echo_run (e ∷ events) t = echo_event e t >>= λ t'. echo_run events t'

-- A table whose memory is zero, and the listener's entry.
abbrev pub empty_conn : EchoConn
empty_conn = record {
  fd = 0;
  rbuffer = replicate echo_buffer_length 0;
  rlength = 0;
  wbuffer = replicate echo_buffer_length 0;
  wlength = 0;
  send_callback = false;
  r_action = null_callback;
  watched = unwatched;
  came_in = [];
  gone_out = [];
}

unfoldable pub echo_start : ℕ → ConnTable
echo_start listenfd =
    put_conn (λ k. empty_conn) listenfd
      (record empty_conn { fd = listenfd; r_action = accept_callback; watched = epollin })
