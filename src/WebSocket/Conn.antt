-- ===== src/WebSocket/Conn.antt =====
-- server.h: `struct conn`.
pub use voice.Prelude.Run.{
  Run, ok, fault, out_of_fuel, of_option, ◌>>=◌, Ensures, Ensures-bind, Ensures-then, Ensures-ok,
  Ensures-mono,
}
use voice.Prelude.{ℕ, List, Bool}

-- The callbacks that a connection's `r_action` can hold.
pub data Action : Type 0 where
  none_cb accept_cb recv_cb : Action

-- The fields `payload` and `mask` of the struct are never read or written.
pub record Conn : Type 0 where
  pub fd : ℕ
  pub rbuffer : List ℕ
  pub rlength : ℕ
  pub wbuffer : List ℕ
  pub wlength : ℕ
  pub r_action : Action
  pub can_send : Bool
  pub status : ℕ

abbrev pub buffer_length : ℕ
buffer_length = 1024
