-- ===== src/ThreadPool/Run.antt =====
-- Every interleaving of the calls and the workers of base/threadpool.c.
use wee.Base.{
  ℕ, ◌+◌, ◌-◌, ◌<◌, ◌≡◌, ◌≢◌, ◌⊎◌, Bool, true, false, some, List, [], ◌∷◌, ◌++◌, ◌==◌,
  if◌then◌else◌,
}
use wee.ThreadPool.Nodes.{Queue, member}
use wee.ThreadPool.{
  Pool, exit_message, threadpool_create, worker_locks, worker_wakes, worker_done, threadpool_submit,
  threadpool_release, threadpool_cancel,
}

module _ (queue : Queue) where
  open queue use {items, is_empty, head}

  -- what is taken once a worker with the mutex has looked at the queue
  unfoldable pub now_taken : Pool queue → List ℕ → List ℕ
  now_taken p taken =
      if is_empty p.wq
      then taken
      else if head p.wq == exit_message
      then taken
      else taken ++ (head p.wq ∷ [])

  -- what is cancelled once `threadpool_cancel` of t has returned true
  unfoldable pub now_cancelled : Pool queue → ℕ → List ℕ → List ℕ
  now_cancelled p t cancelled = if member t (items p.wq) then t ∷ cancelled else cancelled

  -- A history of a pool: the tasks that were submitted, those that workers took, those that were
  -- cancelled while they were queued, and whether the pool is being released. A task is submitted
  -- when it is not queued, and not after the release, and cancelled only while it is queued or at
  -- work. Waits may end with no signal.
  pub data Run (size : ℕ) : List ℕ → List ℕ → List ℕ → Bool → Pool queue → Type 0 where
    created : (work : ℕ → Bool) → Run size [] [] [] false (threadpool_create queue size work)
    submitted_next :
        {sent taken cancelled : List ℕ} {p p' : Pool queue} (t : ℕ)
        → Run size sent taken cancelled false p
        → t ≢ exit_message
        → member t (items p.wq) ≡ false
        → threadpool_submit queue p t ≡ some p'
        → Run size (sent ++ (t ∷ [])) taken cancelled false p'
    release_next :
        {sent taken cancelled : List ℕ} {p : Pool queue}
        → Run size sent taken cancelled false p
        → Run size sent taken cancelled true (threadpool_release queue p)
    locked_next :
        {sent taken cancelled : List ℕ} {released : Bool} {p : Pool queue}
        → Run size sent taken cancelled released p
        → 0 < p.ready
        → Run size sent (now_taken p taken) cancelled released (worker_locks queue p)
    woken_next :
        {sent taken cancelled : List ℕ} {released : Bool} {p : Pool queue}
        → Run size sent taken cancelled released p
        → 0 < p.awake
        → Run size sent (now_taken p taken) cancelled released (worker_wakes queue p)
    spurious_next :
        {sent taken cancelled : List ℕ} {released : Bool} {p : Pool queue}
        → Run size sent taken cancelled released p
        → 0 < p.asleep
        → Run size sent taken cancelled released
            (record p { asleep = p.asleep - 1; awake = p.awake + 1 })
    done_next :
        {sent taken cancelled : List ℕ} {released : Bool} {p : Pool queue} (t : ℕ)
        → Run size sent taken cancelled released p
        → member t p.running ≡ true
        → Run size sent taken cancelled released (worker_done queue p t)
    cancelled_next :
        {sent taken cancelled : List ℕ} {released : Bool} {p p' : Pool queue} (t : ℕ)
        → Run size sent taken cancelled released p
        → t ≢ exit_message
        → (member t (items p.wq) ≡ true) ⊎ (member t p.running ≡ true)
        → threadpool_cancel queue p t ≡ (true, p')
        → Run size sent taken (now_cancelled p t cancelled) released p'
