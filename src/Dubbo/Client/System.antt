-- ===== src/Dubbo/Client/System.antt =====
-- What dubbo_client/dubbo_client.c relies on of the system calls, the event loop of 3rd/ae and the making
-- of a request, over a state W of the world.
use Prim.Native.Nat.{◌<◌, ◌≤◌}
use wee.Base.{ℕ, ◌≡◌, Bool, true, Option, [], ◌++◌, take, length}
use wee.Base.Memory.{Bytes}

-- how a call of write on a non-blocking socket ends: with a number of bytes, or with -1 and EINTR, EAGAIN
-- or another errno
pub data Wrote : Type 0 where
  wrote : ℕ → Wrote
  interrupted : Wrote
  again : Wrote
  failed : Wrote

-- how socket_connect ends: with 0, or with EINPROGRESS or another errno
pub data Connecting : Type 0 where
  done : Connecting
  in_progress : Connecting
  refused : Connecting

-- the bytes of d that a write took
abbrev pub taken : Wrote → Bytes → Bytes
taken (wrote n) d = take n d
taken interrupted d = []
taken again d = []
taken failed d = []

-- a write takes at least one byte, and no more than it was given
abbrev pub WithinData : Wrote → Bytes → Type 0
WithinData (wrote n) d = (0 < n) × (n ≤ length d)
WithinData _ d = 0 ≤ 0

-- `m` bounds how often calls are interrupted before, `n` after the call
abbrev pub Patient : Wrote → ℕ → ℕ → Type 0
Patient interrupted m n = n < m
Patient _ m n = n ≤ m

-- `sent` and `watched` are not read by the client: the bytes that a socket took, and whether the loop
-- waits until it is writable.
pub record Os : Type 1 where
  pub W : Type 0
  pub make_request : W → Option Bytes × W
  pub socket_create : W → Option ℕ × W
  pub socket_connect : ℕ → W → Connecting × W
  pub close : ℕ → W → W
  pub write : ℕ → Bytes → W → Wrote × W
  pub readv : ℕ → ℕ → W → Option Bytes × W
  pub watch_read : ℕ → W → Bool × W
  pub watch_connect : ℕ → W → Bool × W
  pub watch_write : ℕ → W → Bool × W
  pub unwatch_write : ℕ → W → W
  pub unwatch : ℕ → W → W
  pub add_timer : W → Option ℕ × W
  pub delete_timer : ℕ → W → W
  pub stop : W → W
  pub sent : W → ℕ → Bytes
  pub watched : W → ℕ → Bool
  pub interruptions : W → ℕ
  pub write_within : (fd : ℕ) (d : Bytes) (w : W) → 0 < length d → WithinData (write fd d w).0 d
  pub write-sent :
      (fd : ℕ) (d : Bytes) (w : W)
      → sent (write fd d w).1 fd ≡ sent w fd ++ taken (write fd d w).0 d
  pub write_patient :
      (fd : ℕ) (d : Bytes) (w : W)
      → Patient (write fd d w).0 (interruptions w) (interruptions (write fd d w).1)
  pub watch_write_sets :
      (fd : ℕ) (w : W) → (watch_write fd w).0 ≡ true → watched (watch_write fd w).1 fd ≡ true
  pub watch_write-sent : (fd : ℕ) (w : W) → sent (watch_write fd w).1 fd ≡ sent w fd
  pub unwatch_write-sent : (fd : ℕ) (w : W) → sent (unwatch_write fd w) fd ≡ sent w fd
