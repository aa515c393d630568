-- ===== src/ThreadPool/Tests.antt =====
-- A run of a pool of one thread over lists as queues, and the theorems about base/threadpool.c at it.
use wee.Base.{ℕ, Bool, true, [], ◌∷◌}
use wee.ThreadPool.Nodes.{lists}
use wee.ThreadPool.{Pool}
use wee.ThreadPool.Run.{Run}

abbrev all_set : ℕ → Bool
all_set t = true

-- tasks 7 and 8 were submitted, the worker is at 7, and the pool is being released
abbrev at_seven : Pool lists
at_seven = record {
  wq = 8 ∷ 0 ∷ [];
  idle_threads = 0;
  nthreads = 1;
  ready = 0;
  asleep = 0;
  awake = 0;
  stopped = 0;
  running = 7 ∷ [];
  work = all_set;
}
