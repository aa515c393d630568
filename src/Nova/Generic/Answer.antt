-- ===== src/Nova/Generic/Answer.antt =====
-- `thrift_generic_unpack` on the answers of a server.
use wee.Base.{
  false, if◌then◌else◌, ℕ, zero, suc, ◌+◌, ◌^◌, ◌<◌, ◌≡◌, refl, Bool, true, some, length, ◌++◌,
  arith, ◌==◌, Returns,
}
use wee.Base.Memory.{Bytes}
use wee.Base.Endian.{be_bytes, le_bytes}
use wee.Buffer.{Buffer}
use wee.Buffer.Words.{int32, int16, int8}
use wee.Buffer.Chain.{Holds, read_as_then, retrieve_as_string_then}
use wee.Nova.Generic.{
  thrift_unpack, thrift_unpack_result, version_of, strncmp_eq, generic_method, generic_method_len,
  type_string, field_stop, ver1,
}

-- A message of the given type with a string as its result, as a server sends it.
abbrev pub answer_wire : ℕ → ℕ → Bytes → Bytes → Bytes
answer_wire type seq resp tail =
    be_bytes 4 (ver1 + type)
    ++ (be_bytes 4 generic_method_len
        ++ (generic_method
            ++ (be_bytes 4 seq
                ++ (le_bytes 1 type_string
                    ++ (be_bytes 2 0
                        ++ (be_bytes 4 (length resp)
                            ++ (resp ++ (le_bytes 1 field_stop ++ tail))))))))

-- The mask of the version takes the type of the message away: tried on each type below `types`.
masks_below : ℕ → Bool
masks_below zero = true
masks_below (suc type) =
    let smaller = masks_below type in if version_of (ver1 + type) == ver1 then smaller else false

masks_below→version :
    (types type : ℕ) → type < types → masks_below types ≡ true → version_of (ver1 + type) ≡ ver1
unfolding masks_below
masks_below→version zero type below table = absurd (omega arith)
masks_below→version (suc types) type below table = ground (arith, masks_below→version types type)

masks_every_type : masks_below 256 ≡ true
unfolding masks_below version_of
masks_every_type = refl

version_of-type : (type : ℕ) → type < 256 → version_of (ver1 + type) ≡ ver1
version_of-type type below = masks_below→version 256 type below masks_every_type

result-Returns :
    {b : Buffer} (seq : ℕ) (resp tail : Bytes)
    → seq < 2 ^ 32
    → length resp < 2 ^ 32
    → Holds b (
        be_bytes 4 seq
        ++ (le_bytes 1 type_string
            ++ (be_bytes 2 0
                ++ (be_bytes 4 (length resp) ++ (resp ++ (le_bytes 1 field_stop ++ tail))))))
    → Returns (thrift_unpack_result b) (λ r. (r.0 ≡ true) × (r.1 ≡ some resp) × Holds r.2 tail)
unfolding thrift_unpack_result
result-Returns seq resp tail hs hr b0 = read_as_then _ int32 seq _ hs b0 λ b1 s1.
    read_as_then _ int8 type_string _ (omega arith) s1 λ b2 s2.
      read_as_then _ int16 0 _ (omega arith) s2 λ b3 s3.
        read_as_then _ int32 (length resp) _ hr s3 λ b4 s4.
          retrieve_as_string_then _ _ resp _ refl s4 λ b5 s5.
            read_as_then _ int8 field_stop _ (omega arith) s5
              λ b6 s6. record { value = _; is_value = refl; holds = (refl, refl, s6) }

-- `thrift_generic_unpack` accepts a message of the method `invoke` with a string result whatever
-- type the message has, an exception (type 3) included, and hands over the string; it takes exactly
-- the message from the buffer.
pub thrift_unpack-any_type :
    {b : Buffer} (type seq : ℕ) (resp tail : Bytes)
    → type < 256
    → seq < 2 ^ 32
    → length resp < 2 ^ 32
    → Holds b (answer_wire type seq resp tail)
    → Returns (thrift_unpack b) (λ r. (r.0 ≡ true) × (r.1 ≡ some resp) × Holds r.2 tail)
unfolding thrift_unpack strncmp_eq
thrift_unpack-any_type type seq resp tail ht hs hr b0 =
    read_as_then _ int32 (ver1 + type) _ (omega arith) b0 λ b1 s1. rw (version_of-type type ht) (
      read_as_then _ int32 generic_method_len _ (omega arith) s1 λ b2 s2.
        retrieve_as_string_then _ _ generic_method _ refl s2
          λ b3 s3. result-Returns seq resp tail hs hr s3)
