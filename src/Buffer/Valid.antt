-- ===== src/Buffer/Valid.antt =====
-- The invariant of base/buffer.c: the indices are ordered and lie in the block.
use wee.Base.{ℕ, ◌+◌, ◌-◌, ◌^◌, ◌%◌, ◌≤◌, ◌<◌, ◌≡◌, true, some, length, arith, length-replicate}
use wee.Base.Memory.{Bytes, length-blit}
use wee.Base.Word.{sub_size, max_size}
use wee.Buffer.{
  Buffer, create_ex, readable, writable, has_written, unwrite, retrieve, prepend, prependable,
  set_write_index,
}

pub record IsValid (b : Buffer) : Type 0 where
  pub ordered : b.read_idx ≤ b.write_idx
  pub within : b.write_idx ≤ b.sz
  pub whole : length b.buf ≡ b.sz
  pub small : b.sz < max_size
  pub front : b.p_sz ≤ b.sz

pub readable_lem : {b : Buffer} → IsValid b → readable b ≡ b.write_idx - b.read_idx
unfolding readable
readable_lem v = omega arith

pub writable_lem : {b : Buffer} → IsValid b → writable b ≡ b.sz - b.write_idx
unfolding writable
writable_lem v = omega arith

-- Room in front, bytes held and room behind make up the block, in every valid buffer.
pub room_sum : {b : Buffer} → IsValid b → prependable b + readable b + writable b ≡ b.sz
unfolding prependable readable writable
room_sum v = omega arith

-- A buffer that is created is valid and empty, with all of `size` writable and `prepend_size`
-- prependable.
pub create_ex-IsValid :
    (size prepend_size : ℕ) {b : Buffer}
    → size + prepend_size < max_size
    → create_ex size prepend_size true true ≡ some (some b)
    → IsValid b × (readable b ≡ 0) × (writable b ≡ size) × (prependable b ≡ prepend_size)
unfolding create_ex readable writable prependable
create_ex-IsValid size prepend_size h e =
    ground (arith, length-replicate {A = ℕ} ((size + prepend_size) % 2 ^ 64) 0)

pub has_written-IsValid :
    {b b' : Buffer} (n : ℕ) → IsValid b → has_written b n ≡ some b' → IsValid b'
unfolding has_written
has_written-IsValid n v e = ground arith

pub unwrite-IsValid : {b b' : Buffer} (n : ℕ) → IsValid b → unwrite b n ≡ some b' → IsValid b'
unfolding unwrite
unwrite-IsValid {b} n v e = ground arith

pub retrieve-IsValid : {b b' : Buffer} (n : ℕ) → IsValid b → retrieve b n ≡ some b' → IsValid b'
unfolding retrieve
retrieve-IsValid n v e = ground arith

pub prepend-IsValid : {b b' : Buffer} (d : Bytes) → IsValid b → prepend b d ≡ some b' → IsValid b'
unfolding prepend
prepend-IsValid {b} d v e = ground (arith, length-blit b.buf (sub_size b.read_idx (length d)) d)

pub set_write_index-IsValid :
    {b b' : Buffer} (i : ℕ) → IsValid b → set_write_index b i ≡ some b' → IsValid b'
unfolding set_write_index
set_write_index-IsValid {b} i v e = ground arith
