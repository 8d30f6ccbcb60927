-- ===== src/Counters/Mutex.antt =====
-- MutexLock.c: an addition that is a read and a write, under a lock. SpinLock.c has the same loop with the
-- other kind of lock.
pub mod Refines
use voice.Prelude.{
  ℕ, zero, suc, ◌+◌, Bool, true, false, Option, none, some, List, [], ◌∷◌, ltb, if◌then◌else◌,
  get_elem?, set, replicate,
}
use voice.Counters.Atomic.{wrap}

-- Where a thread is in a round: before the lock, behind it, behind the read and the write of
-- `(*pcount)++`, and behind `i++`.
pub data MutexThread : Type 0 where
  outside locked written counted : ℕ → MutexThread
  loaded : (count : ℕ) (value : ℕ) → MutexThread

-- `owner` is the thread that holds the lock.
pub record MutexState : Type 0 where
  pub number : ℕ
  pub owner : Option ℕ
  pub threads : List MutexThread

abbrev pub put_thread : ℕ → MutexThread → MutexState → MutexState
put_thread k t s = record s { threads = set s.threads k t }

-- A thread that finds the lock held waits.
unfoldable pub lock : ℕ → ℕ → Option ℕ → MutexState → MutexState
lock k i none s = put_thread k (locked i) (record s { owner = some k })
lock k i (some holder) s = s

unfoldable pub mutex_thread : ℕ → ℕ → MutexThread → MutexState → MutexState
unfolding lock
mutex_thread limit k (outside i) s = if ltb i limit then lock k i s.owner s else s
mutex_thread limit k (locked i) s = put_thread k (loaded i s.number) s
mutex_thread limit k (loaded i v) s = put_thread k (written i) (record s { number = wrap (v + 1) })
mutex_thread limit k (written i) s = put_thread k (counted (suc i)) s
mutex_thread limit k (counted i) s = put_thread k (outside i) (record s { owner = none })

unfoldable pub mutex_step : ℕ → ℕ → MutexState → MutexState
unfolding mutex_thread
mutex_step limit k s = elim (get_elem? s.threads k) [ none ↦ s | some t ↦ mutex_thread limit k t s ]

abbrev pub mutex_start : ℕ → MutexState
mutex_start threads = record { number = 0; owner = none; threads = replicate threads (outside 0) }
