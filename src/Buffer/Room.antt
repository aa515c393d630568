-- ===== src/Buffer/Room.antt =====
-- Chains of calls on base/buffer.c that count on the room that is there: writing at
-- `buf_beginWrite` without growing, and prepending.
use wee.Base.{
  ℕ, ◌+◌, ◌-◌, ◌^◌, ◌<◌, ◌≤◌, ◌≡◌, refl, false, ap, sym, ◌∙◌, Option, some, length, ◌++◌, arith,
  Returns, Returns-bind, ◌>>=◌, length-append,
}
use wee.Base.Memory.{Bytes, slice, slice-split, length-blit}
use wee.Buffer.{Buffer, has_written, fill, peek, prependable, write_locked}
use wee.Buffer.Valid.{IsValid}
use wee.Buffer.Content.{contents}
use wee.Buffer.Fifo.{written, contents-written, has_written-fill}
use wee.Buffer.Front.{held}
use wee.Buffer.Words.{Kind, width, prepend_as, bytes_as, prepend_as-Prepended, length-bytes_as}
use wee.Buffer.Chain.{Holds, write_locked_of_kept}

-- A valid, unlocked buffer of less than 4 GB that holds `old`, with `behind` bytes of room behind and `ahead` in front.
pub record Roomy (b : Buffer) (behind ahead : ℕ) (old : Bytes) : Type 0 where
  pub valid : IsValid b
  pub behind_fits : b.write_idx + behind ≤ b.sz
  pub ahead_fits : ahead ≤ b.read_idx
  pub bytes : contents b ≡ old
  pub free : write_locked b ≡ false
  pub block : b.sz < 2 ^ 32

pub fill-Roomy :
    {b : Buffer} (d old : Bytes) (behind ahead : ℕ)
    → Roomy b behind ahead old
    → length d ≤ behind
    → (b' : Buffer) × (has_written (fill b d) (length d) ≡ some b')
      × Roomy b' (behind - length d) ahead (old ++ d)
unfolding write_locked
fill-Roomy {b} d old behind ahead r h = (
  written b d,
  has_written-fill b d r.valid (omega (arith, r.behind_fits)),
  record {
    valid = record {
      ordered = omega (arith, r.valid.ordered);
      within = omega (arith, r.behind_fits);
      whole = length-blit b.buf b.write_idx d ∙ r.valid.whole;
      small = r.valid.small;
      front = r.valid.front;
    };
    behind_fits = omega (arith, r.behind_fits);
    ahead_fits = r.ahead_fits;
    bytes =
        contents-written b d r.valid (omega (arith, r.behind_fits)) ∙ ap (λ xs. xs ++ d) r.bytes;
    free = r.free;
    block = r.block;
  },
)

-- One integer that is prepended in a chain.
pub prepend_as_then :
    {A : Type 0} {P : A → Type 0} {b : Buffer} (f : Buffer → Option A) (k : Kind) (x ahead : ℕ)
    (old : Bytes)
    → Roomy b 0 ahead old
    → width k ≤ ahead
    → ((b' : Buffer) → Roomy b' 0 (ahead - width k) (bytes_as k x ++ old) → Returns (f b') P)
    → Returns (prepend_as k b x >>= f) P
prepend_as_then {b = b} f k x ahead old r h rest =
    let (b', e, p) = prepend_as-Prepended {b = b} k x r.valid (room r.ahead_fits) in
    Returns-bind f e (
      rest b' (record {
        valid = p.valid;
        behind_fits = omega (arith, p.valid.within);
        ahead_fits = omega (arith, p.room, length-bytes_as k x, r.ahead_fits);
        bytes = p.bytes ∙ ap (λ xs. bytes_as k x ++ xs) r.bytes;
        free = write_locked_of_kept b b' p.kept_src p.kept_refcount ∙ r.free;
        block = omega (arith, p.kept_sz, r.block);
      }))
  where
    room : ahead ≤ b.read_idx → width k ≤ prependable b
    room q = unfold prependable in (omega (arith, q, h))

-- A field in the middle of what a buffer holds, read at its offset from `buf_peek`.
pub slice-within :
    {b : Buffer} (front d rest : Bytes) (i n : ℕ)
    → Holds b (front ++ (d ++ rest))
    → length front ≡ i
    → length d ≡ n
    → slice b.buf (peek b + i) n ≡ d
slice-within {b} front d rest i n s hi hn =
    ap (slice b.buf (peek b + i)) (sym hn)
    ∙ (slice-split b.buf (peek b + i) (length d) (length rest) d rest
        (omega (arith, at, sum, s.valid.within, s.valid.whole, s.valid.ordered)) refl
        (ap (slice b.buf (peek b + i)) (sym (length-append d rest)) ∙ outer)).0
  where
    at : peek b ≡ b.read_idx
    at = unfold peek in refl

    sum : i + (length d + length rest) ≡ b.write_idx - b.read_idx
    sum = omega (arith, held front (d ++ rest) s.valid s.bytes, length-append d rest, hi)

    outer : slice b.buf (peek b + i) (length (d ++ rest)) ≡ d ++ rest
    outer =
        ap (λ j. slice b.buf j (length (d ++ rest))) (omega (arith, at, hi))
        ∙ (slice-split b.buf b.read_idx (length front) (length (d ++ rest)) front (d ++ rest)
            (omega (
              arith,
              held front (d ++ rest) s.valid s.bytes,
              s.valid.within,
              s.valid.whole,
              s.valid.ordered,
            ))
            refl (ap (slice b.buf b.read_idx) (held front (d ++ rest) s.valid s.bytes) ∙ s.bytes)).1
