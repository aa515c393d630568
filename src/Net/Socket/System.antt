-- ===== src/Net/Socket/System.antt =====
-- What net/socket.c relies on of the system calls for sockets, over a state W of the world.
use Prim.Native.Nat.{◌<◌, ◌≤◌}
use wee.Base.{ℕ, ◌≡◌, Bool, true, [], ◌++◌, take, length}
use wee.Base.Memory.{Bytes}

-- how a call of send ends: with a number of bytes, or with -1 and EINTR or another errno
pub data Io : Type 0 where
  moved : ℕ → Io
  interrupted : Io
  failed : Io

-- how a call of recv ends; no bytes are the end of the stream
pub data Received : Type 0 where
  got : Bytes → Received
  interrupted : Received
  failed : Received

abbrev pub taken : Io → Bytes → Bytes
taken (moved n) d = take n d
taken _ d = []

abbrev pub handed : Received → Bytes
handed (got d) = d
handed _ = []

abbrev pub WithinData : Io → Bytes → Type 0
WithinData (moved n) d = (0 < n) × (n ≤ length d)
WithinData _ d = 0 ≤ 0

-- a blocking recv gives no more than it is asked for, and nothing only at the end
abbrev pub WithinStream : Received → ℕ → Bytes → Type 0
WithinStream (got d) n stream = (length d ≤ n) × (d ≡ [] → stream ≡ [])
WithinStream _ n stream = 0 ≤ 0

-- `m` bounds how often calls are interrupted before, `n` after the call
abbrev pub SentPatiently : Io → ℕ → ℕ → Type 0
SentPatiently interrupted m n = n < m
SentPatiently _ m n = n ≤ m

abbrev pub ReceivedPatiently : Received → ℕ → ℕ → Type 0
ReceivedPatiently interrupted m n = n < m
ReceivedPatiently _ m n = n ≤ m

abbrev pub SendBreaks : Io → Bool → Type 0
SendBreaks failed b = b ≡ true
SendBreaks _ b = 0 ≤ 0

abbrev pub ReceiveBreaks : Received → Bool → Type 0
ReceiveBreaks failed b = b ≡ true
ReceiveBreaks _ b = 0 ≤ 0

-- `out` is what a socket took, `received` what was read from it, `incoming` what its peer still sends and
-- `broken` whether its last call failed: the code does not read them.
pub record Sockets (W : Type 0) : Type 0 where
  pub send : ℕ → Bytes → W → Io × W
  pub recv : ℕ → ℕ → W → Received × W
  pub out : W → ℕ → Bytes
  pub received : W → ℕ → Bytes
  pub incoming : W → ℕ → Bytes
  pub broken : W → ℕ → Bool
  pub interruptions : W → ℕ
  pub send_within : (fd : ℕ) (d : Bytes) (w : W) → 0 < length d → WithinData (send fd d w).0 d
  pub send-out :
      (fd : ℕ) (d : Bytes) (w : W) → out (send fd d w).1 fd ≡ out w fd ++ taken (send fd d w).0 d
  pub send-received : (fd : ℕ) (d : Bytes) (w : W) → received (send fd d w).1 fd ≡ received w fd
  pub send_patient :
      (fd : ℕ) (d : Bytes) (w : W)
      → SentPatiently (send fd d w).0 (interruptions w) (interruptions (send fd d w).1)
  pub send_breaks :
      (fd : ℕ) (d : Bytes) (w : W) → SendBreaks (send fd d w).0 (broken (send fd d w).1 fd)
  pub recv_within : (fd n : ℕ) (w : W) → 0 < n → WithinStream (recv fd n w).0 n (incoming w fd)
  pub recv-incoming :
      (fd n : ℕ) (w : W) → incoming w fd ≡ handed (recv fd n w).0 ++ incoming (recv fd n w).1 fd
  pub recv-received :
      (fd n : ℕ) (w : W) → received (recv fd n w).1 fd ≡ received w fd ++ handed (recv fd n w).0
  pub recv_patient :
      (fd n : ℕ) (w : W)
      → ReceivedPatiently (recv fd n w).0 (interruptions w) (interruptions (recv fd n w).1)
  pub recv_breaks : (fd n : ℕ) (w : W) → ReceiveBreaks (recv fd n w).0 (broken (recv fd n w).1 fd)
