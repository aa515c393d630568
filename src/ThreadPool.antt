-- ===== src/ThreadPool.antt =====
-- The thread pool of base/threadpool.c. Workers are alike, so the state counts those that stand at each
-- point of `worker`; what a thread does between taking the mutex and giving it away is one step. The
-- queue is that of base/queue.h, a copy of another project's: the parameter `Queue` says what the pool
-- relies on. A node is a number; that of the exit message is 0.
pub mod Nodes
pub mod Within
pub mod Run
pub mod Wakeup
pub mod History
pub mod Order
pub mod Cancel
mod Tests
use wee.Base.{
  ℕ, ◌+◌, ◌-◌, ◌<◌, Bool, true, false, not, ◌&&◌, Option, none, some, List, [], ◌∷◌, ◌++◌, ltb, leb,
  ◌==◌, if◌then◌else◌, ◌>>=◌, ◌>>◌, guard,
}
use wee.ThreadPool.Nodes.{Queue, erase}

abbrev pub exit_message : ℕ
exit_message = 0

abbrev pub max_threadpool_size : ℕ
max_threadpool_size = 128

-- The number of threads that `threadpool_create` starts; the size is an int, and one that is
-- negative is 0 here.
unfoldable pub clamped_size : ℕ → ℕ
clamped_size size =
    let size = if ltb size 1 then 1 else size in
    if ltb max_threadpool_size size then max_threadpool_size else size

module _ (queue : Queue) where
  open queue use {Q, empty, is_empty, head, insert_tail, remove}

  -- `struct threadpool`: `asleep` wait in cond_wait with no signal, `awake` have one and have not got
  -- the mutex back, `ready` are before the mutex, and `running` are the tasks at work. `work` says
  -- of each task whether its function is set.
  pub record Pool : Type 0 where
    pub wq : Q
    pub idle_threads : ℕ
    pub nthreads : ℕ
    pub ready : ℕ
    pub asleep : ℕ
    pub awake : ℕ
    pub stopped : ℕ
    pub running : List ℕ
    pub work : ℕ → Bool

  unfoldable pub threadpool_create : ℕ → (ℕ → Bool) → Pool
  threadpool_create size work = record {
    wq = empty;
    idle_threads = 0;
    nthreads = clamped_size size;
    ready = clamped_size size;
    asleep = 0;
    awake = 0;
    stopped = 0;
    running = [];
    work = work;
  }

  -- `cond_signal`
  unfoldable pub cond_signal : Pool → Pool
  cond_signal p =
      if p.asleep == 0 then p else record p { asleep = p.asleep - 1; awake = p.awake + 1 }

  unfoldable pub post : Pool → ℕ → Pool
  post p q =
      let p' = record p { wq = insert_tail p.wq q } in
      if ltb 0 p'.idle_threads then cond_signal p' else p'

  -- the part of `worker` under the mutex once the queue is not empty
  unfoldable pub worker_head : Pool → Pool
  worker_head p =
      if head p.wq == exit_message
      then cond_signal (record p { stopped = p.stopped + 1 })
      else record p { wq = remove p.wq (head p.wq); running = head p.wq ∷ p.running }

  -- the test of the inner loop of `worker`
  unfoldable pub worker_test : Pool → Pool
  worker_test p =
      if is_empty p.wq
      then record p { idle_threads = p.idle_threads + 1; asleep = p.asleep + 1 }
      else worker_head p

  -- a worker that has taken the mutex, and one that comes back from cond_wait
  unfoldable pub worker_locks : Pool → Pool
  worker_locks p = worker_test (record p { ready = p.ready - 1 })

  unfoldable pub worker_wakes : Pool → Pool
  worker_wakes p = worker_test (record p { awake = p.awake - 1; idle_threads = p.idle_threads - 1 })

  -- a worker whose task is done
  unfoldable pub worker_done : Pool → ℕ → Pool
  worker_done p t = record p {
    ready = p.ready + 1;
    running = erase t p.running;
    work = λ u. p.work u && not (u == t);
  }

  -- `threadpool_submit`
  unfoldable pub threadpool_submit : Pool → ℕ → Option Pool
  threadpool_submit p t = guard (p.work t) >> some (post p t)

  -- `threadpool_release`, as far as its wait for the threads
  unfoldable pub threadpool_release : Pool → Pool
  threadpool_release p = post p exit_message

  -- `threadpool_cancel`
  unfoldable pub threadpool_cancel : Pool → ℕ → Bool × Pool
  threadpool_cancel p t =
      if not (is_empty p.wq) && p.work t
      then (true, record p { wq = remove p.wq t })
      else (false, p)
