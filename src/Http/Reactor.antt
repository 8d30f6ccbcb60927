-- ===== src/Http/Reactor.antt =====
-- reactor.c of the web server: the table of connections, registration, the callbacks and the event loop. What
-- a client sends is only printed, so of recv's answer only the sign of its count enters.
pub mod Responses
use voice.Prelude.{
  ℕ, zero, suc, Bool, true, false, Option, none, some, List, [], ◌∷◌, ◌++◌, ◌==◌, ltb,
  if◌then◌else◌,
}
use voice.Prelude.Run.{Run, ok, fault, ◌>>=◌}
use voice.Http.{
  HttpConn, cleared, HttpCall, send, sendfile, wait_read, wait_write, close_file, close_conn,
  Opened, http_send, http_recv,
}

abbrev pub http_table_size : ℕ
http_table_size = 1048576

pub data HttpAction : Type 0 where
  no_action accept_action recv_action : HttpAction

pub data HttpWatch : Type 0 where
  not_watched for_input for_output : HttpWatch

-- `calls` are those made for the connection since it was accepted.
pub record HttpEntry : Type 0 where
  pub conn : HttpConn
  pub action : HttpAction
  pub sends : Bool
  pub watch : HttpWatch
  pub calls : List HttpCall

abbrev pub HttpTable : Type 0
HttpTable = ℕ → HttpEntry

abbrev pub put_entry : HttpTable → ℕ → HttpEntry → HttpTable
put_entry t fd e = λ k. if k == fd then e else t k

-- What set_event and close leave in epoll's list.
abbrev pub watch_after : HttpWatch → List HttpCall → HttpWatch
watch_after w [] = w
watch_after w (send bytes ∷ calls) = watch_after w calls
watch_after w (sendfile size ∷ calls) = watch_after w calls
watch_after w (close_file ∷ calls) = watch_after w calls
watch_after w (wait_read ∷ calls) = watch_after for_input calls
watch_after w (wait_write ∷ calls) = watch_after for_output calls
watch_after w (close_conn ∷ calls) = watch_after not_watched calls

-- The status of an earlier connection stays.
abbrev pub registered : HttpEntry → HttpEntry
registered e = record {
  conn = record e.conn { wbuffer = cleared; wlength = 0 };
  action = recv_action;
  sends = true;
  watch = for_input;
  calls = [];
}

unfoldable pub http_accept : Option ℕ → HttpTable → Run HttpTable
http_accept none t = ok t
http_accept (some client_fd) t =
    if ltb client_fd http_table_size
    then ok (put_entry t client_fd (registered (t client_fd)))
    else fault

-- A callback's calls, and the connection it leaves.
abbrev pub called : List HttpCall → HttpConn → HttpEntry → HttpEntry
called calls c e = record e {
  conn = c;
  watch = watch_after e.watch calls;
  calls = e.calls ++ calls;
}

unfoldable pub http_read : HttpAction → List ℕ → Option ℕ → ℕ → HttpTable → Run HttpTable
unfolding http_accept
http_read no_action received accepted fd t = fault
http_read accept_action received accepted fd t = http_accept accepted t
http_read recv_action received accepted fd t =
    http_recv received (t fd).conn >>= λ (calls, c). ok (put_entry t fd (called calls c (t fd)))

pub record HttpEvent : Type 0 where
  pub fd : ℕ
  pub input : Bool
  pub output : Bool
  pub accepted : Option ℕ
  pub received : List ℕ
  pub opened : Opened

module _ (decimal : ℕ → List ℕ) where
  unfoldable pub http_write : Bool → Opened → ℕ → HttpTable → Run HttpTable
  http_write false opened fd t = fault
  http_write true opened fd t = http_send decimal opened (t fd).conn >>= λ (calls, c).
      ok (put_entry t fd (called calls c (t fd)))

  unfoldable pub http_tests : (input output : Bool) → HttpEvent → HttpTable → Run HttpTable
  unfolding http_read http_write
  http_tests input output e t =
      (if input then http_read (t e.fd).action e.received e.accepted e.fd t else ok t) >>= λ t'.
      if output then http_write (t' e.fd).sends e.opened e.fd t' else ok t'

  unfoldable pub http_event : HttpEvent → HttpTable → Run HttpTable
  unfolding http_tests
  http_event e t = http_tests e.input e.output e t

  -- The events of any number of waits, in order.
  unfoldable pub http_run : List HttpEvent → HttpTable → Run HttpTable
  unfolding http_event
  http_run [] t = ok t
  http_run (e ∷ events) t = http_event e t >>= λ t'. http_run events t'

abbrev pub empty_entry : HttpEntry
empty_entry = record {
  conn = record { wbuffer = cleared; wlength = 0; status = 0 };
  action = no_action;
  sends = false;
  watch = not_watched;
  calls = [];
}

abbrev pub listener_entry : HttpEntry
listener_entry = record empty_entry { action = accept_action; watch = for_input }

-- The table when the loop starts, with the listeners on the ports.
unfoldable pub http_start : List ℕ → HttpTable
http_start [] = λ k. empty_entry
http_start (listenfd ∷ fds) = put_entry (http_start fds) listenfd listener_entry
