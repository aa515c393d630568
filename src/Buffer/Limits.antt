-- ===== src/Buffer/Limits.antt =====
-- base/buffer.c where it shrinks its block, and where it cannot grow.
use wee.Base.{
  ℕ, ◌+◌, ◌-◌, ◌≤◌, ◌<◌, ◌≡◌, refl, ap, ◌∙◌, false, none, some, length, arith, length-replicate,
  replicate,
}
use wee.Base.Memory.{Bytes, slice, blit, length-blit, slice-blit-slice}
use wee.Base.Word.{max_size}
use wee.Buffer.{
  Buffer, readable, writable, write_locked, shrink, ensure_writable, append, make_space, make_room,
}
use wee.Buffer.Valid.{IsValid, readable_lem, writable_lem}
use wee.Buffer.Content.{contents}

-- The buffer with the shrunk block, whose indices are left as they were.
abbrev shrunk : Buffer → ℕ → Buffer
shrunk b n = record b { buf = blit (replicate n 0) b.p_sz (contents b); sz = n }

shrink-eq :
    {b : Buffer} (reserve : ℕ)
    → IsValid b
    → write_locked b ≡ false
    → b.sz + reserve < max_size
    → shrink b reserve ≡ some (shrunk b (b.p_sz + readable b + reserve))
unfolding shrink
shrink-eq {b} reserve v free small = ground arith

-- `buf_shrink` of an unlocked valid buffer from whose front nothing was taken (its read index is
-- where it was created) keeps the bytes held, leaves exactly `reserve` bytes of room behind them,
-- and keeps the invariant.
pub shrink-contents :
    {b : Buffer} (reserve : ℕ)
    → IsValid b
    → write_locked b ≡ false
    → b.read_idx ≡ b.p_sz
    → b.sz + reserve < max_size
    → (b' : Buffer) × (shrink b reserve ≡ some b')
      × IsValid b'
      × (contents b' ≡ contents b)
      × (writable b' ≡ reserve)
shrink-contents {b} reserve v free f small = (
  shrunk b n,
  shrink-eq reserve v free small,
  valid,
  ap (λ i. slice (blit (replicate n 0) b.p_sz (contents b)) i (b.write_idx - b.read_idx)) f
      ∙ slice-blit-slice (replicate n 0) b.buf b.p_sz b.read_idx (b.write_idx - b.read_idx)
          (omega (arith, length-replicate {A = ℕ} n 0, readable_lem v)) (omega arith),
  writable_lem valid ∙ omega (arith, readable_lem v),
)
  where
    n : ℕ
    n = b.p_sz + readable b + reserve

    valid : IsValid (shrunk b n)
    valid = record {
      ordered = v.ordered;
      within = omega (arith, readable_lem v);
      whole = length-blit (replicate n 0) b.p_sz (contents b) ∙ length-replicate n 0;
      small = omega (arith, readable_lem v);
      front = omega arith;
    }

-- `buf_shrink` does not move the indices with the bytes: of an unlocked valid buffer from whose
-- front more than `reserve` bytes were taken it leaves a write index behind the block's end.
pub shrink_out_of_block :
    {b : Buffer} (reserve : ℕ)
    → IsValid b
    → write_locked b ≡ false
    → b.p_sz + reserve < b.read_idx
    → b.sz + reserve < max_size
    → (b' : Buffer) × (shrink b reserve ≡ some b') × (b'.sz < b'.write_idx)
shrink_out_of_block {b} reserve v free far small = (
  shrunk b (b.p_sz + readable b + reserve),
  shrink-eq reserve v free small,
  omega (arith, readable_lem v),
)

stuck_ensure :
    {b : Buffer} (n : ℕ)
    → IsValid b
    → write_locked b ≡ false
    → b.read_idx < b.p_sz
    → b.p_sz ≤ b.read_idx + n
    → writable b < n
    → b.sz + n < max_size
    → ensure_writable b n ≡ none
unfolding ensure_writable make_space make_room
stuck_ensure {b} n v free used enough full small = ground arith

-- Once bytes stand in the room in front (a header that was prepended), an unlocked valid buffer
-- cannot grow: `buf_append` of more bytes than the room behind holds fails an assertion, if they
-- are at least as many as the bytes of front room in use.
pub append_after_prepend :
    {b : Buffer} (d : Bytes)
    → IsValid b
    → write_locked b ≡ false
    → b.read_idx < b.p_sz
    → b.p_sz ≤ b.read_idx + length d
    → writable b < length d
    → b.sz + length d < max_size
    → append b d ≡ none
unfolding append
append_after_prepend {b} d v free used enough full small =
    rw (free, stuck_ensure (length d) v free used enough full small) refl
