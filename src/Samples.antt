-- ===== src/Samples.antt =====
-- Buffers for the examples: one that holds given bytes and nothing else, and some of a few bytes.
use wee.Base.{◌<◌, refl, ap, ◌∙◌, none, [], ◌∷◌, length, arith, take-length}
use wee.Base.Memory.{Bytes, slice}
use wee.Base.Word.{max_size}
use wee.Buffer.{Buffer}
use wee.Buffer.Chain.{Holds}

abbrev pub holding : Bytes → Buffer
holding d = record {
  read_idx = 0;
  write_idx = length d;
  sz = length d;
  p_sz = 0;
  buf = d;
  refcount = 0;
  src = none;
  cache = none;
}

pub holding-Holds : (d : Bytes) → length d < max_size → Holds (holding d) d
unfolding slice
holding-Holds d h = record {
  valid = record {
    ordered = omega arith;
    within = omega arith;
    whole = refl;
    small = h;
    front = omega arith;
  };
  bytes = ap (slice d 0) (omega arith) ∙ take-length d;
}

-- two bytes, 7 and 8, behind one that was taken; two bytes of front room
abbrev pub pair : Buffer
pair = record {
  read_idx = 3;
  write_idx = 5;
  sz = 6;
  p_sz = 2;
  buf = 0 ∷ 0 ∷ 9 ∷ 7 ∷ 8 ∷ 0 ∷ [];
  refcount = 0;
  src = none;
  cache = none;
}

-- nothing, with eight bytes of front room and four behind
abbrev pub fresh : Buffer
fresh = record {
  read_idx = 8;
  write_idx = 8;
  sz = 12;
  p_sz = 8;
  buf = 0 ∷ 0 ∷ 0 ∷ 0 ∷ 0 ∷ 0 ∷ 0 ∷ 0 ∷ 0 ∷ 0 ∷ 0 ∷ 0 ∷ [];
  refcount = 0;
  src = none;
  cache = none;
}
