-- ===== src/Waiter.antt =====
-- base/waiter.c: threads that wait for one signal. Each call is one step, as it holds the lock, except where
-- cond_wait gives it up.
mod Runs
use wee.Base.{ℕ, ◌+◌, Bool, true, false, not, if◌then◌else◌}

-- `struct waiter`; in place of the lock and the condition stand the threads in cond_wait that sleep, and
-- those that were woken and have to get the lock back.
pub record Waiter : Type 0 where
  pub signaled : Bool
  pub asleep : ℕ
  pub woken : ℕ

unfoldable pub waiter_create : Waiter
waiter_create = record { signaled = false; asleep = 0; woken = 0 }

-- cond_broadcast
abbrev pub wake_all : Waiter → Waiter
wake_all w = record w { asleep = 0; woken = w.woken + w.asleep }

unfoldable pub waiter_signal : Waiter → Waiter
waiter_signal w = wake_all (record w { signaled = true })

-- `waiter_wait` from the test of its loop on: whether it returns, or sleeps
unfoldable pub waiter_wait : Waiter → Bool × Waiter
waiter_wait w = if w.signaled then (true, w) else (false, record w { asleep = w.asleep + 1 })
