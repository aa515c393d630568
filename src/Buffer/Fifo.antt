-- ===== src/Buffer/Fifo.antt =====
-- base/buffer.c as a queue of bytes: append at the end, retrieve at the front, prepend in front.
use wee.Base.{ℕ, ◌+◌, ◌-◌, ◌≤◌, ◌<◌, ◌≡◌, refl, ap, ap₂, ◌∙◌, false, some, length, arith, ◌++◌}
use wee.Base.Memory.{Bytes, slice, blit, length-blit, slice-add, slice-blit_self, slice-blit_before}
use wee.Base.Word.{max_size}
use wee.Buffer.{Buffer, writable, write_locked, has_written, fill, append}
use wee.Buffer.Valid.{IsValid}
use wee.Buffer.Content.{contents, ensure_writable-Room}

-- The buffer that holds `d` behind what `b` holds.
pub record Appended (b : Buffer) (d : Bytes) (b' : Buffer) : Type 0 where
  pub valid : IsValid b'
  pub front : b'.p_sz ≤ b'.read_idx
  pub bytes : contents b' ≡ contents b ++ d
  pub no_further : b'.write_idx ≤ b.write_idx + length d
  pub size : b'.sz ≤ b.sz + length d
  pub kept_src : b'.src ≡ b.src
  pub kept_refcount : b'.refcount ≡ b.refcount

abbrev pub written : Buffer → Bytes → Buffer
written b d = record b { buf = blit b.buf b.write_idx d; write_idx = b.write_idx + length d }

pub contents-written :
    (b : Buffer) (d : Bytes)
    → IsValid b
    → b.write_idx + length d ≤ b.sz
    → contents (written b d) ≡ contents b ++ d
contents-written b d v h =
    ap (slice m b.read_idx) (omega arith)
    ∙ slice-add m b.read_idx n (length d)
    ∙ ap₂ ◌++◌ (slice-blit_before b.buf b.write_idx d b.read_idx n (omega arith)) (
        ap (λ i. slice m i (length d)) (omega arith)
        ∙ slice-blit_self b.buf b.write_idx d (omega arith))
  where
    m : Bytes
    m = blit b.buf b.write_idx d

    n : ℕ
    n = b.write_idx - b.read_idx

pub has_written-fill :
    (b : Buffer) (d : Bytes)
    → IsValid b
    → b.write_idx + length d ≤ b.sz
    → has_written (fill b d) (length d) ≡ some (written b d)
unfolding has_written fill
has_written-fill b d v h = ground arith

pub written-Appended :
    {b : Buffer} (d : Bytes)
    → IsValid b
    → b.p_sz ≤ b.read_idx
    → b.write_idx + length d ≤ b.sz
    → Appended b d (written b d)
written-Appended {b} d v hf h = record {
  valid = record {
    ordered = omega arith;
    within = omega arith;
    whole = length-blit b.buf b.write_idx d ∙ v.whole;
    small = v.small;
    front = v.front;
  };
  front = hf;
  bytes = contents-written b d v h;
  no_further = omega arith;
  size = omega arith;
  kept_src = refl;
  kept_refcount = refl;
}

-- Filling from `buf_beginWrite` and then counting the bytes as written appends them, if they fit.
pub fill-has_written :
    {b : Buffer} (d : Bytes)
    → IsValid b
    → b.p_sz ≤ b.read_idx
    → length d ≤ writable b
    → (b' : Buffer) × (has_written (fill b d) (length d) ≡ some b') × Appended b d b'
unfolding writable
fill-has_written {b} d v hf h =
    (written b d, has_written-fill b d v (omega arith), written-Appended d v hf (omega arith))

-- `buf_append` on an unlocked valid buffer whose front room is unused succeeds, whether or not the
-- block has to grow, and puts exactly `d` behind the bytes held.
pub append-Appended :
    {b : Buffer} (d : Bytes)
    → IsValid b
    → b.p_sz ≤ b.read_idx
    → write_locked b ≡ false
    → b.write_idx + length d < max_size
    → (b' : Buffer) × (append b d ≡ some b') × Appended b d b'
unfolding append
append-Appended {b} d v hf free small =
    let (b', e, r) = ensure_writable-Room {b = b} (length d) v hf free small in
    let w = written-Appended {b = b'} d r.valid r.front r.room in
    (
      written b' d,
      rw (free, e) (has_written-fill b' d r.valid r.room),
      record {
        valid = w.valid;
        front = w.front;
        bytes = w.bytes ∙ ap (λ xs. xs ++ d) r.same;
        no_further = omega (arith, w.no_further, r.no_further);
        size = r.size;
        kept_src = w.kept_src ∙ r.kept_src;
        kept_refcount = w.kept_refcount ∙ r.kept_refcount;
      },
    )
