-- ===== src/Dubbo/Client/Write.antt =====
-- `cli_write` of dubbo_client/dubbo_client.c: what becomes of the bytes to be sent.
use wee.Base.{
  ℕ, ◌+◌, ◌<◌, ◌≤◌, ◌≡◌, ◌⊎◌, inl, inr, refl, sym, ap, ◌∙◌, Bool, true, false, Bool-cases, Option,
  some, zero, suc, [], ◌++◌, length, take, drop, take-append-drop, length-take_of_le, length-drop,
  append_assoc, append-nil, Returns, ◌>>=◌, Returns-bind, Returns-then, Returns-else, ◌==◌, ==_iff,
  arith,
}
use wee.Base.Memory.{Bytes, slice}
use wee.Buffer.{Buffer, readable, peek, retrieve}
use wee.Buffer.Valid.{IsValid, readable_lem}
use wee.Buffer.Content.{contents, length-contents}
use wee.Buffer.Front.{retrieve-Left}
use wee.Dubbo.Client.{
  DubboClient, Ending, emptied, blocked, broken, after_write, write_loop, after_loop, cli_write,
}
use wee.Dubbo.Client.System.{
  Os, Wrote, wrote, interrupted, again, failed, taken, WithinData, Patient,
}

nil_of_length : (d : Bytes) → length d ≡ 0 → d ≡ []
nil_of_length d e = ground arith

-- what the end of the loop says of the bytes left
abbrev pub Rest : Ending → Bytes → Type 0
Rest emptied d = d ≡ []
Rest _ d = 0 ≤ 0

module _ (os : Os) (fd : ℕ) (total : Bytes) where
  open os use {W, sent, interruptions, write, write_within, write-sent, write_patient}

  pub record Queued (b : Buffer) (w : W) : Type 0 where
    pub valid : IsValid b
    pub bytes : sent w fd ++ contents b ≡ total

  pub record LoopEnds (r : Ending × Buffer × W) : Type 0 where
    pub queued : Queued r.1 r.2
    pub rest : Rest r.0 (contents r.1)

  module _ (fuel : ℕ) (next : Buffer → W → Option (Ending × Buffer × W))
      (ends : (b : Buffer) (w : W)
        → Queued b w
        → readable b + interruptions w < fuel
        → Returns (next b w) LoopEnds)
      {b : Buffer} {w : W} (q : Queued b w) (room : readable b + interruptions w < suc fuel) where
    round-LoopEnds :
        (r : Wrote × W)
        → WithinData r.0 (contents b)
        → sent r.1 fd ≡ sent w fd ++ taken r.0 (contents b)
        → Patient r.0 (interruptions w) (interruptions r.1)
        → Returns (after_write os next b r) LoopEnds
    round-LoopEnds (wrote n, v) h s p =
        let split : contents b ≡ take n (contents b) ++ drop n (contents b) =
          sym (take-append-drop n (contents b)) in
        let len : length (take n (contents b)) ≡ n = length-take_of_le n (contents b) h.1 in
        let (b', e, l) =
          retrieve-Left {b = b} (take n (contents b)) (drop n (contents b)) q.valid split in
        Returns-bind (λ b''. next b'' v) (ap (retrieve b) (sym len) ∙ e)
          (ends b' v
            (record {
              valid = l.valid;
              bytes =
                  rw (s, l.bytes, append_assoc) (ap (λ d. sent w fd ++ d) (sym split) ∙ q.bytes);
            })
            (omega (
              arith,
              h.0,
              h.1,
              p,
              room,
              length-contents l.valid,
              ap length l.bytes,
              length-drop n (contents b),
              length-contents q.valid,
            )))
    round-LoopEnds (interrupted, v) h s p =
        ends b v (record { valid = q.valid; bytes = rw (s, append-nil) q.bytes })
          (omega (arith, p, room))
    round-LoopEnds (again, v) h s p = record {
      value = (blocked, b, v);
      is_value = refl;
      holds = record {
        queued = record { valid = q.valid; bytes = rw (s, append-nil) q.bytes };
        rest = omega arith;
      };
    }
    round-LoopEnds (failed, v) h s p = record {
      value = (broken, b, v);
      is_value = refl;
      holds = record {
        queued = record { valid = q.valid; bytes = rw (s, append-nil) q.bytes };
        rest = omega arith;
      };
    }

  pub write_loop-LoopEnds :
      (fuel : ℕ) (b : Buffer) (w : W)
      → Queued b w
      → readable b + interruptions w < fuel
      → Returns (write_loop os fuel fd b w) LoopEnds
  unfolding write_loop
  write_loop-LoopEnds zero b w q h = absurd (omega arith)
  write_loop-LoopEnds (suc fuel) b w q h = elim (Bool-cases (readable b == 0)) [
    | inl e ↦ Returns-then (readable b == 0) _ _ e (record {
      value = (emptied, b, w);
      is_value = refl;
      holds = record {
        queued = q;
        rest = nil_of_length (contents b) (length-contents q.valid ∙ (==_iff (readable b) 0).0 e);
      };
    })
    | inr e ↦ Returns-else (readable b == 0) _ _ e (round e (write_loop-LoopEnds fuel))
  ]
    where
      held : slice b.buf (peek b) (readable b) ≡ contents b
      held = unfold peek in (ap (slice b.buf b.read_idx) (readable_lem q.valid))

      pos : (readable b == 0) ≡ false → 0 < length (contents b)
      pos e = ground (arith, length-contents q.valid)

      round :
          (readable b == 0) ≡ false
          → ((b : Buffer) (w : W)
              → Queued b w
              → readable b + interruptions w < fuel
              → Returns (write_loop os fuel fd b w) LoopEnds)
          → Returns
              (after_write os
                (write_loop os fuel fd)
                b
                (write fd (slice b.buf (peek b) (readable b)) w))
              LoopEnds
      round e ends = rw held (
          round-LoopEnds fuel (write_loop os fuel fd) ends q h (write fd (contents b) w)
            (write_within fd (contents b) w (pos e)) (write-sent fd (contents b) w)
            (write_patient fd (contents b) w))

-- what cli_write leaves on a socket to which `total` was sent or queued
pub record WriteEnds (os : Os) (fd : ℕ) (total : Bytes) (r : Bool × DubboClient × os.W)
    : Type 0 where
  pub valid : IsValid r.1.snd_buf
  pub bytes : os.sent r.2 fd ++ contents r.1.snd_buf ≡ total
  pub watched : r.0 ≡ true → (contents r.1.snd_buf ≡ []) ⊎ (os.watched r.2 fd ≡ true)

pub after_loop-WriteEnds :
    (os : Os) (c : DubboClient) (total : Bytes) (r : Ending × Buffer × os.W)
    → LoopEnds os c.fd total r
    → WriteEnds os c.fd total (after_loop os c r)
after_loop-WriteEnds os c total (emptied, b, w) l = record {
  valid = l.queued.valid;
  bytes = rw (os.unwatch_write-sent c.fd w) l.queued.bytes;
  watched = λ _. inl l.rest;
}
after_loop-WriteEnds os c total (blocked, b, w) l = record {
  valid = l.queued.valid;
  bytes = rw (os.watch_write-sent c.fd w) l.queued.bytes;
  watched = λ good. inr (os.watch_write_sets c.fd w good);
}
after_loop-WriteEnds os c total (broken, b, w) l = record {
  valid = l.queued.valid;
  bytes = l.queued.bytes;
  watched = λ good. absurd (cc);
}

-- For a client whose send buffer is valid, and fuel above the bytes in it and the interruptions to come,
-- `cli_write` returns. What the socket took and what the send buffer holds are together, in order,
-- what they were before. Where it returns true, the buffer is empty or the event loop waits until
-- the socket can be written.
pub cli_write-WriteEnds :
    (os : Os) (fuel : ℕ) (c : DubboClient) (w : os.W)
    → IsValid c.snd_buf
    → readable c.snd_buf + os.interruptions w < fuel
    → Returns (cli_write os fuel c w) (WriteEnds os c.fd (os.sent w c.fd ++ contents c.snd_buf))
unfolding cli_write
cli_write-WriteEnds os fuel c w v h = elim (Bool-cases (readable c.snd_buf == 0)) [
  | inl e ↦ Returns-then (readable c.snd_buf == 0) _ _ e (record {
    value = (true, c, os.unwatch_write c.fd w);
    is_value = refl;
    holds = record {
      valid = v;
      bytes = rw (os.unwatch_write-sent c.fd w) refl;
      watched = λ _. inl (
          nil_of_length (contents c.snd_buf)
            (length-contents v ∙ (==_iff (readable c.snd_buf) 0).0 e));
    };
  })
  | inr e ↦ Returns-else (readable c.snd_buf == 0) _ _ e (behind loop)
]
  where
    total : Bytes
    total = os.sent w c.fd ++ contents c.snd_buf

    loop : Returns (write_loop os fuel c.fd c.snd_buf w) (LoopEnds os c.fd total)
    loop = write_loop-LoopEnds os c.fd total fuel c.snd_buf w (record { valid = v; bytes = refl }) h

    behind :
        Returns (write_loop os fuel c.fd c.snd_buf w) (LoopEnds os c.fd total)
        → Returns
            (write_loop os fuel c.fd c.snd_buf w >>= λ r. some (after_loop os c r))
            (WriteEnds os c.fd total)
    behind r =
        Returns-bind (λ r. some (after_loop os c r)) r.is_value
          (record {
            value = after_loop os c r.value;
            is_value = refl;
            holds = after_loop-WriteEnds os c total r.value r.holds;
          })
