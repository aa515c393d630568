-- ===== src/Buffer/Content.antt =====
-- What the operations of base/buffer.c do to the bytes that a buffer holds.
use wee.Base.{
  ℕ, ◌+◌, ◌-◌, ◌≤◌, ◌<◌, ◌≡◌, refl, ap, ◌∙◌, false, some, length, arith, length-replicate,
  replicate,
}
use native.Mathlib.Decide.{dec_lt}
use wee.Base.Memory.{Bytes, slice, blit, length-blit, length-slice, slice-blit-slice}
use wee.Base.Word.{max_size}
use wee.Buffer.{Buffer, readable, write_locked, make_room, make_space, ensure_writable}
use wee.Buffer.Valid.{IsValid, readable_lem}

-- The bytes between the two indices.
abbrev pub contents : Buffer → Bytes
contents b = slice b.buf b.read_idx (b.write_idx - b.read_idx)

pub length-contents : {b : Buffer} → IsValid b → length (contents b) ≡ readable b
unfolding readable
length-contents {b} v =
    length-slice b.buf b.read_idx (b.write_idx - b.read_idx) (omega arith) ∙ omega arith

-- What `buf_makeSpace` and `buf_ensureWritable` leave: room for `len` bytes, and the same bytes.
pub record Room (b : Buffer) (len : ℕ) (b' : Buffer) : Type 0 where
  pub valid : IsValid b'
  pub front : b'.p_sz ≤ b'.read_idx
  pub room : b'.write_idx + len ≤ b'.sz
  pub same : contents b' ≡ contents b
  pub no_further : b'.write_idx ≤ b.write_idx
  pub size : b'.sz ≤ b.sz + len
  pub kept_src : b'.src ≡ b.src
  pub kept_refcount : b'.refcount ≡ b.refcount

-- The buffer over a block `m` to whose `p_sz` the bytes were copied.
abbrev compacted : Buffer → Bytes → ℕ → Buffer
compacted b m n = record b {
  buf = m;
  sz = n;
  read_idx = b.p_sz;
  write_idx = b.p_sz + (b.write_idx - b.read_idx);
}

contents-compacted :
    {b : Buffer} (m : Bytes) (n : ℕ)
    → IsValid b
    → b.p_sz + (b.write_idx - b.read_idx) ≤ length m
    → contents (compacted b (blit m b.p_sz (contents b)) n) ≡ contents b
contents-compacted {b} m n v h =
    ap (slice (blit m b.p_sz (contents b)) b.p_sz) (omega arith)
    ∙ slice-blit-slice m b.buf b.p_sz b.read_idx (b.write_idx - b.read_idx) h (omega arith)

compacted-Room :
    {b : Buffer} (m : Bytes) (n len : ℕ)
    → IsValid b
    → b.p_sz ≤ b.read_idx
    → length m ≡ n
    → n < max_size
    → b.p_sz + (b.write_idx - b.read_idx) + len ≤ n
    → n ≤ b.sz + len
    → Room b len (compacted b (blit m b.p_sz (contents b)) n)
compacted-Room {b} m n len v hf e small h grown = record {
  valid = record {
    ordered = omega arith;
    within = omega arith;
    whole = length-blit m b.p_sz (contents b) ∙ e;
    small = small;
    front = omega arith;
  };
  front = omega arith;
  room = omega arith;
  same = contents-compacted m n v (omega arith);
  no_further = omega arith;
  size = grown;
  kept_src = refl;
  kept_refcount = refl;
}

-- the two ways in which `buf_makeSpace` finds room
make_room-grow :
    {b : Buffer} (len : ℕ)
    → IsValid b
    → b.p_sz ≤ b.read_idx
    → b.sz < b.write_idx + len
    → b.read_idx + (b.sz - b.write_idx) < b.p_sz + len
    → b.write_idx + len < max_size
    → make_room b len
      ≡ some (record b {
        buf = blit (replicate (b.write_idx + len) 0) b.p_sz (contents b);
        sz = b.write_idx + len;
      })
unfolding make_room
make_room-grow {b} len v hf full short small = ground arith

make_room-move :
    {b : Buffer} (len : ℕ)
    → IsValid b
    → b.p_sz ≤ b.read_idx
    → b.sz < b.write_idx + len
    → b.p_sz + len ≤ b.read_idx + (b.sz - b.write_idx)
    → make_room b len ≡ some (record b { buf = blit b.buf b.p_sz (contents b) })
unfolding make_room
make_room-move {b} len v hf full short = ground arith

make_space-Room :
    {b : Buffer} (len : ℕ)
    → IsValid b
    → b.p_sz ≤ b.read_idx
    → b.sz < b.write_idx + len
    → b.write_idx + len < max_size
    → (b' : Buffer) × (make_space b len ≡ some b') × Room b len b'
unfolding make_space
make_space-Room {b} len v hf full small =
    elim (dec_lt (b.read_idx + (b.sz - b.write_idx)) (b.p_sz + len)) [
      | yes short ↦
          let n = b.write_idx + len in
          (
            compacted b (blit (replicate n 0) b.p_sz (contents b)) n,
            rw (make_room-grow len v hf full short small, readable_lem v) (ground arith),
            compacted-Room (replicate n 0) n len v hf (length-replicate n 0) small (omega arith)
                (omega arith),
          )
      | no wide ↦ (
        compacted b (blit b.buf b.p_sz (contents b)) b.sz,
        rw (make_room-move len v hf full (omega arith), readable_lem v) (ground arith),
        compacted-Room b.buf b.sz len v hf v.whole v.small (omega arith) (omega arith),
      )
    ]

-- `buf_ensureWritable` succeeds on an unlocked valid buffer whose prepended room is unused, and
-- leaves room for `len` bytes with the bytes held unchanged.
pub ensure_writable-Room :
    {b : Buffer} (len : ℕ)
    → IsValid b
    → b.p_sz ≤ b.read_idx
    → write_locked b ≡ false
    → b.write_idx + len < max_size
    → (b' : Buffer) × (ensure_writable b len ≡ some b') × Room b len b'
unfolding ensure_writable
ensure_writable-Room {b} len v hf free small = elim (dec_lt (b.sz - b.write_idx) len) [
  | yes short ↦
      let (b', e, r) = make_space-Room {b = b} len v hf (omega arith) small in
      (b', ground (arith, r.valid, r.room), r)
  | no wide ↦ (
    b,
    ground arith,
    record {
      valid = v;
      front = hf;
      room = omega arith;
      same = refl;
      no_further = omega arith;
      size = omega arith;
      kept_src = refl;
      kept_refcount = refl;
    },
  )
]
