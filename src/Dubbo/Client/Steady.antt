-- ===== src/Dubbo/Client/Steady.antt =====
-- `cli_write` of dubbo_client/dubbo_client.c on a system whose sockets do not break.
use wee.Base.{
  ℕ, ◌≤◌, ◌≡◌, refl, ap₂, ◌∙◌, Bool, true, Option, some, none, zero, suc, length, ◌==◌, if_ind, ltb,
  is_some, ◌||◌, arith,
}
use wee.Base.Memory.{Bytes, slice}
use wee.Buffer.{Buffer, readable, peek, retrieve, retrieve_all, write_locked}
use wee.Buffer.Valid.{IsValid, retrieve-IsValid}
use wee.Buffer.Chain.{Takes}
use wee.Dubbo.Client.{
  DubboClient, Ending, emptied, blocked, broken, after_write, write_loop, after_loop, cli_write,
}
use wee.Dubbo.Client.Counts.{IfSome, IfSome-bind}
use wee.Dubbo.Client.System.{Os, Wrote, wrote, interrupted, again, failed}

-- A write does not end with an errno other than EINTR and EAGAIN.
abbrev pub Unfailed : Wrote → Type 0
Unfailed failed = ⊥
Unfailed _ = 0 ≤ 0

abbrev pub Unbroken : Ending → Type 0
Unbroken broken = ⊥
Unbroken _ = 0 ≤ 0

-- No socket breaks or can not be watched, no call is interrupted, and each request is made, in at most m
-- bytes.
pub record IsSteady (os : Os) (IsRequest : Bytes → Type 0) (m : ℕ) : Type 0 where
  pub unfailed : (fd : ℕ) (d : Bytes) (w : os.W) → Unfailed (os.write fd d w).0
  pub watches : (fd : ℕ) (w : os.W) → (os.watch_write fd w).0 ≡ true
  pub calm : (w : os.W) → os.interruptions w ≡ 0
  pub request : os.W → Bytes
  pub makes : (w : os.W) → (os.make_request w).0 ≡ some (request w)
  pub is_request : (w : os.W) → IsRequest (request w)
  pub short : (w : os.W) → length (request w) ≤ m
  pub make_request-sent : (fd : ℕ) (w : os.W) → os.sent (os.make_request w).1 fd ≡ os.sent w fd

module _ (b b' : Buffer) (n : ℕ) (e : retrieve b n ≡ some b') where
  retrieve-src : b'.src ≡ b.src
  unfolding retrieve readable retrieve_all
  retrieve-src = ground arith

  retrieve-refcount : b'.refcount ≡ b.refcount
  unfolding retrieve readable retrieve_all
  retrieve-refcount = ground arith

  retrieve-Takes : (m : ℕ) → Takes b m → Takes b' m
  unfolding retrieve readable retrieve_all write_locked
  retrieve-Takes m t = record {
    valid = retrieve-IsValid n t.valid e;
    front = ground (arith, t.front);
    free = ap₂ (λ x y. is_some x || ltb 0 y) retrieve-src retrieve-refcount ∙ t.free;
    space = ground (arith, t.front, t.space, t.valid.ordered);
    block = ground (arith, t.block);
  }

  retrieve-le : IsValid b → b.p_sz ≤ b.read_idx → b'.write_idx ≤ b.write_idx
  unfolding retrieve readable retrieve_all
  retrieve-le v f = ground arith

-- A buffer that takes k more bytes, and that ends at l or before.
pub record Bounded (k l : ℕ) (b : Buffer) : Type 0 where
  pub takes : Takes b k
  pub ends : b.write_idx ≤ l

retrieve-Bounded :
    (b b' : Buffer) (n k l : ℕ) → retrieve b n ≡ some b' → Bounded k l b → Bounded k l b'
retrieve-Bounded b b' n k l e t = record {
  takes = retrieve-Takes b b' n e k t.takes;
  ends = omega (arith, retrieve-le b b' n e t.takes.valid t.takes.front, t.ends);
}

IfSome-self : {A : Type 0} (m : Option A) → IfSome (λ a. m ≡ some a) m
IfSome-self none = tt
IfSome-self (some a) = refl

module _ (os : Os) (IsRequest : Bytes → Type 0) (m : ℕ) (steady : IsSteady os IsRequest m)
    (k l : ℕ) where
  open os use {W, write}

  abbrev pub Flows : Ending × Buffer × W → Type 0
  Flows r = Unbroken r.0 × Bounded k l r.1

  round-Flows :
      (next : Buffer → W → Option (Ending × Buffer × W)) (b : Buffer)
      → ((b : Buffer) (w : W) → Bounded k l b → IfSome Flows (next b w))
      → Bounded k l b
      → (r : Wrote × W) → Unfailed r.0
      → IfSome Flows (after_write os next b r)
  round-Flows next b flows t (wrote n, w) u =
      IfSome-bind (λ b'. retrieve b n ≡ some b') Flows (retrieve b n) (λ b. next b w)
        (IfSome-self (retrieve b n)) (λ b' e. flows b' w (retrieve-Bounded b b' n k l e t))
  round-Flows next b flows t (interrupted, w) u = flows b w t
  round-Flows next b flows t (again, w) u = (omega arith, t)
  round-Flows next b flows t (failed, w) u = absurd u

  pub write_loop-Flows :
      (fuel fd : ℕ) (b : Buffer) (w : W) → Bounded k l b → IfSome Flows (write_loop os fuel fd b w)
  unfolding write_loop
  write_loop-Flows zero fd b w t = tt
  write_loop-Flows (suc fuel) fd b w t =
      if_ind (IfSome Flows) (readable b == 0) (λ _. (omega arith, t))
        (λ _.
          round-Flows (write_loop os fuel fd) b (write_loop-Flows fuel fd) t
            (write fd (slice b.buf (peek b) (readable b)) w) (steady.unfailed fd _ w))

  abbrev pub Carries : DubboClient → Bool × DubboClient × W → Type 0
  Carries c r =
      (r.0 ≡ true) × Bounded k l r.1.snd_buf × (r.1.fd ≡ c.fd) × (r.1.pipe_left ≡ c.pipe_left)

  after_loop-Carries :
      (c : DubboClient) (r : Ending × Buffer × W) → Flows r → Carries c (after_loop os c r)
  after_loop-Carries c (emptied, b, w) f = (refl, f.1, refl, refl)
  after_loop-Carries c (blocked, b, w) f = (steady.watches c.fd w, f.1, refl, refl)
  after_loop-Carries c (broken, b, w) f = absurd f.0

  -- On such a system `cli_write` never returns false.
  pub cli_write-Carries :
      (fuel : ℕ) (c : DubboClient) (w : W)
      → Bounded k l c.snd_buf
      → IfSome (Carries c) (cli_write os fuel c w)
  unfolding cli_write
  cli_write-Carries fuel c w t =
      if_ind (IfSome (Carries c)) (readable c.snd_buf == 0) (λ _. (refl, t, refl, refl))
        (λ _.
          IfSome-bind Flows (Carries c) (write_loop os fuel c.fd c.snd_buf w) _
            (write_loop-Flows fuel c.fd c.snd_buf w t) (λ r f. after_loop-Carries c r f))
