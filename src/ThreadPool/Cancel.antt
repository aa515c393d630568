-- ===== src/ThreadPool/Cancel.antt =====
-- `threadpool_cancel` of base/threadpool.c on a task that a worker has taken.
use wee.Base.{ℕ, ◌≡◌, refl, ◌∙◌, true, false, arith}
use wee.ThreadPool.Nodes.{Queue, member, erase-nonmember}
use wee.ThreadPool.{Pool, threadpool_cancel}

module _ (queue : Queue) where
  open queue use {items, is_empty, remove, items-remove}

  -- A task that is at work, and so is not queued, is reported as cancelled whenever any other node is
  -- queued: the test looks at the queue of the pool, not at the task's link. Nothing changes in the
  -- queue, and the task goes on.
  pub cancel_at_work :
      (p : Pool queue) (t : ℕ)
      → member t p.running ≡ true
      → p.work t ≡ true
      → member t (items p.wq) ≡ false
      → is_empty p.wq ≡ false
      → (p' : Pool queue) × (threadpool_cancel queue p t ≡ (true, p'))
        × (items p'.wq ≡ items p.wq)
        × (p'.running ≡ p.running)
  unfolding threadpool_cancel
  cancel_at_work p t at_work set out busy = (
    record p { wq = remove p.wq t },
    ground (arith, set, busy),
    items-remove p.wq t ∙ erase-nonmember t (items p.wq) out,
    refl,
  )
