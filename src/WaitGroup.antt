-- ===== src/WaitGroup.antt =====
-- base/waitgroup.c: threads that wait until others are done. Each call is one step, as it holds the mutex,
-- except where pthread_cond_wait gives it up.
mod Runs
mod Tests
use wee.Base.{ℕ, ◌+◌, ◌-◌, ◌%◌, ◌^◌, Bool, true, false, ◌==◌, if◌then◌else◌}
use wee.Base.Word.{sle32}

-- `struct waitgroup`: `count` is an int. In place of the mutex and the condition stand the threads in
-- pthread_cond_wait that sleep, and those that were woken and have to get the mutex back.
pub record Waitgroup : Type 0 where
  pub count : ℕ
  pub asleep : ℕ
  pub woken : ℕ

unfoldable pub wg_create : ℕ → Waitgroup
wg_create n = record { count = n; asleep = 0; woken = 0 }

-- pthread_cond_broadcast
abbrev pub broadcast : Waitgroup → Waitgroup
broadcast wg = record wg { asleep = 0; woken = wg.woken + wg.asleep }

unfoldable pub wg_done : Waitgroup → Waitgroup
wg_done wg =
    let left = record wg { count = (wg.count + 2 ^ 32 - 1) % 2 ^ 32 } in
    if left.count == 0 then broadcast left else left

-- `wg_wait` from the test of its loop on: whether it returns, or sleeps
unfoldable pub wg_wait : Waitgroup → Bool × Waitgroup
wg_wait wg = if sle32 wg.count 0 then (true, wg) else (false, record wg { asleep = wg.asleep + 1 })
