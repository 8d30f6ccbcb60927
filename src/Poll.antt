-- ===== src/Poll.antt =====
-- 2.1.2_poll.c: the echo server over poll, with its array of descriptors. What poll, accept, recv and send
-- answer stands in the rounds.
pub mod Rounds
mod Examples
use voice.Prelude.{
  ℕ, zero, suc, ◌+◌, ◌-◌, Bool, true, false, Option, none, some, List, [], ◌∷◌, ◌++◌, ◌==◌, ltb,
  if◌then◌else◌, take, length, ◌||◌,
}
use voice.Prelude.Int.{ℤ, pos, negsuc}
use voice.Prelude.Text.{has_nul}
use voice.Prelude.Run.{Run, ok, fault, ◌>>=◌}

abbrev pub poll_size : ℕ
poll_size = 1024

abbrev pub poll_buffer_size : ℕ
poll_buffer_size = 1024

-- `polls` is POLLIN in `events`; `came_in` and `gone_out` are what recv gave and send took.
pub record PollSlot : Type 0 where
  pub fd : ℤ
  pub polls : Bool
  pub came_in : List ℕ
  pub gone_out : List ℕ

abbrev pub PollSlots : Type 0
PollSlots = ℕ → PollSlot

abbrev pub put_slot : PollSlots → ℕ → PollSlot → PollSlots
put_slot t i c = λ k. if k == i then c else t k

pub record PollServer : Type 0 where
  pub sockfd : ℕ
  pub slots : PollSlots
  pub maxfd : ℕ

pub data PollRecv : Type 0 where
  came : List ℕ → PollRecv
  recv_error : PollRecv

-- `ready` is POLLIN in `revents`.
pub record PollRound : Type 0 where
  pub ready : ℕ → Bool
  pub accepted : Option ℕ
  pub received : ℕ → PollRecv
  pub taken : ℕ → ℕ

abbrev pub new_slot : ℕ → PollSlot
new_slot clientfd = record { fd = pos clientfd; polls = true; came_in = []; gone_out = [] }

abbrev pub larger : ℕ → ℕ → ℕ
larger a b = if ltb b a then a else b

-- accept's -1 is an index before the array.
unfoldable pub poll_accept : Option ℕ → PollServer → Run PollServer
poll_accept none s = fault
poll_accept (some clientfd) s =
    if ltb clientfd poll_size
    then ok (record s {
      slots = put_slot s.slots clientfd (new_slot clientfd);
      maxfd = larger clientfd s.maxfd;
    })
    else fault

abbrev pub closed_slot : PollSlot → PollSlot
closed_slot c = record c { fd = negsuc 0; polls = false }

abbrev pub echoed_slot : List ℕ → ℕ → PollSlot → PollSlot
echoed_slot bytes taken c = record c {
  came_in = c.came_in ++ bytes;
  gone_out = c.gone_out ++ take taken bytes;
}

unfoldable pub served_slot : List ℕ → ℕ → PollSlot → PollSlot
served_slot [] taken c = closed_slot c
served_slot (x ∷ bytes) taken c = echoed_slot (take poll_buffer_size (x ∷ bytes)) taken c

-- The buffer is zero before recv, so it has a NUL behind fewer bytes than it holds.
unfoldable pub poll_printable : List ℕ → Bool
unfolding has_nul
poll_printable bytes = ltb (length bytes) poll_buffer_size || has_nul (take poll_buffer_size bytes)

-- A count of -1 is also the size that send is called with; bytes are printed up to the first NUL of the
-- buffer, which may have none.
unfoldable pub serve_slot : PollRecv → ℕ → PollSlot → Run PollSlot
unfolding served_slot poll_printable
serve_slot recv_error taken c = fault
serve_slot (came bytes) taken c =
    if poll_printable bytes then ok (served_slot bytes taken c) else fault

unfoldable pub scan_one : Bool → PollRound → ℕ → PollSlots → Run PollSlots
unfolding serve_slot
scan_one false r i slots = ok slots
scan_one true r i slots =
    serve_slot (r.received i) (r.taken i) (slots i) >>= λ c. ok (put_slot slots i c)

-- The loop over the array, for so many entries.
unfoldable pub scan : ℕ → PollRound → ℕ → PollSlots → Run PollSlots
unfolding scan_one
scan zero r i slots = ok slots
scan (suc n) r i slots = scan_one (r.ready i) r i slots >>= λ slots'. scan n r (suc i) slots'

unfoldable pub accept_part : Bool → PollRound → PollServer → Run PollServer
unfolding poll_accept
accept_part true r s = poll_accept r.accepted s
accept_part false r s = ok s

unfoldable pub poll_round : PollRound → PollServer → Run PollServer
unfolding accept_part scan
poll_round r s = accept_part (r.ready s.sockfd) r s >>= λ s'.
    scan (s'.maxfd - s'.sockfd) r (suc s'.sockfd) s'.slots >>= λ slots.
    ok (record s' { slots = slots })

unfoldable pub poll_run : List PollRound → PollServer → Run PollServer
unfolding poll_round
poll_run [] s = ok s
poll_run (r ∷ rounds) s = poll_round r s >>= λ s'. poll_run rounds s'

-- The array when the loop starts.
abbrev pub zero_slot : PollSlot
zero_slot = record { fd = pos 0; polls = false; came_in = []; gone_out = [] }

unfoldable pub poll_start : ℕ → PollServer
poll_start sockfd = record {
  sockfd = sockfd;
  slots = put_slot (λ k. zero_slot) sockfd (new_slot sockfd);
  maxfd = sockfd;
}
