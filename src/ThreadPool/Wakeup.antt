-- ===== src/ThreadPool/Wakeup.antt =====
-- No wakeup of a worker of base/threadpool.c is lost.
use wee.Base.{ℕ, ◌+◌, ◌≤◌, ◌<◌, ◌≡◌, length}
use wee.ThreadPool.Nodes.{Queue}
use wee.ThreadPool.{Pool}
use wee.ThreadPool.Run.{Run}

module _ (queue : Queue) where
  open queue use {
    items, is_empty, head, remove, insert_tail, items-empty, is_empty_lem, head_lem,
    items-insert_tail, items-remove,
  }

  -- the workers that are somewhere in `worker`
  abbrev pub workers : Pool queue → ℕ
  workers p = p.ready + p.asleep + p.awake + length p.running + p.stopped

  -- `idle_threads` counts those in cond_wait, no worker is lost, and where one sleeps there are as many
  -- awake as nodes queued.
  pub record Accounted (n : ℕ) (p : Pool queue) : Type 0 where
    pub idle : p.idle_threads ≡ p.asleep + p.awake
    pub all_there : workers p ≡ n
    pub served : 0 < p.asleep → length (items p.wq) ≤ p.awake

  -- while one worker has the mutex
  record Locked (n : ℕ) (p : Pool queue) : Type 0 where
    idle : p.idle_threads ≡ p.asleep + p.awake
    all_there : workers p + 1 ≡ n
    served : 0 < p.asleep → length (items p.wq) ≤ p.awake + 1
