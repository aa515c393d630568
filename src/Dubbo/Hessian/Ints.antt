-- ===== src/Dubbo/Hessian/Ints.antt =====
-- Integers of dubbo_client/dubbo_hessian.c: written, then read.
use wee.Base.{ℕ, ◌-◌, ◌^◌, ◌≤◌, ◌<◌, ◌≡◌, ◌⊎◌, true, ◌&&◌, some, ◌++◌, length, arith}
use wee.Base.Memory.{Bytes, slice}
use wee.Base.Word.{sle32, neg32}
use wee.Base.Endian.{be_bytes, of_be}
use wee.Dubbo.Hessian.{encode_int, decode_int}

-- An int32_t that is not between -2248 and -2049 is read back as itself, whatever follows it.
pub decode_int-encode_int :
    (val : ℕ) (rest : Bytes)
    → val < 2 ^ 32
    → (val < 2 ^ 32 - 2248) ⊎ (2 ^ 32 - 2048 ≤ val)
    → decode_int (encode_int val ++ rest) (length (encode_int val ++ rest)) ≡ some val
unfolding encode_int decode_int be_bytes of_be slice
decode_int-encode_int val rest h range = ground arith

-- The test for the form of two bytes adds 0xc8 to the number: each number from -2248 to -2049 is
-- written with a first byte that is read as the number 47 alone.
pub encode_int_misread :
    (val : ℕ) (rest : Bytes)
    → 2 ^ 32 - 2248 ≤ val
    → val ≤ 2 ^ 32 - 2049
    → (decode_int (encode_int val ++ rest) (length (encode_int val ++ rest)) ≡ some 47)
      × (length (encode_int val) ≡ 2)
unfolding encode_int decode_int
encode_int_misread val rest lo hi = (ground arith, ground arith)

-- An int32_t takes 1, 2, 3 or 5 bytes: 1 from -16 to 47, and at most 3 from -0x40000 to 0x3ffff.
pub length-encode_int :
    (val : ℕ)
    → val < 2 ^ 32
    → (1 ≤ length (encode_int val))
      × (length (encode_int val) ≤ 5)
      × (sle32 (neg32 0x10) val && sle32 val 0x2f ≡ true → length (encode_int val) ≡ 1)
      × (sle32 (neg32 0x40000) val && sle32 val 0x3ffff ≡ true → length (encode_int val) ≤ 3)
unfolding encode_int be_bytes
length-encode_int val h = (ground arith, ground arith, ground arith, ground arith)
