-- ===== src/WaitGroup/Tests.antt =====
-- The theorem about base/waitgroup.c, where one thread waits for one call.
use wee.Base.{◌≤◌, ◌<◌, ◌≡◌, true, false, arith}
use wee.WaitGroup.{Waitgroup, wg_create, wg_done, wg_wait}
use wee.WaitGroup.Runs.{Run, created, wait_next, done_next, woken_next, Run-wg_wait}

abbrev over : Waitgroup
over = record { count = 0; asleep = 0; woken = 0 }

slept_once : Run 1 1 1 over
unfolding wg_create wg_done wg_wait
slept_once = woken_next (done_next (wait_next created)) (omega arith)

Run-wg_wait_example :
    (0 < 1 → 1 ≤ 1)
    × (1 ≤ 1 → (over.asleep ≡ 0) × ((wg_wait over).0 ≡ true))
    × (1 < 1 → (wg_wait over).0 ≡ false)
Run-wg_wait_example = Run-wg_wait 1 1 1 over (omega arith) (omega arith) slept_once
