-- ===== src/Dubbo/Hessian.antt =====
-- Hessian values (dubbo_client/dubbo_hessian.c): null, int and string.
-- An int32_t is its bit pattern. A pointer is the memory behind it; what lies behind that reads 0.
pub mod Ints
pub mod Strings
use Prim.Native.Nat.{bit_and}
use wee.Base.{
  ℕ, zero, suc, ◌+◌, ◌-◌, ◌*◌, ◌/◌, ◌%◌, ◌^◌, Bool, true, false, not, ◌&&◌, Option, none, some,
  List, [], ◌∷◌, ◌++◌, length, take, drop, ltb, leb, ◌==◌, get_or, if◌then◌else◌, ◌>>=◌,
}
use wee.Base.Memory.{Bytes, slice}
use wee.Base.Word.{sle32, neg32, sar8, sar16}
use wee.Base.Endian.{be_bytes, of_be}

-- `utf8len`, which tests the first byte in each of its n rounds
unfoldable pub utf8len : Bytes → ℕ → ℕ
utf8len s zero = 0
utf8len s (suc n) =
    let rest = utf8len s n in if bit_and (get_or s 0 0) 0xc0 == 0x80 then rest else rest + 1

-- how far `utf8cpy` moves for a character that begins with c
unfoldable pub utf8_step : ℕ → Option ℕ
utf8_step c =
    if leb c 0x80
    then some 1
    else if bit_and c 0xe0 == 0xc0
    then some 2
    else if bit_and c 0xf0 == 0xe0
    then some 3
    else if bit_and c 0xf8 == 0xf0
    then some 4
    else none

-- the loop of `utf8cpy`: where `i` stands after n more characters
unfoldable pub utf8_end : Bytes → ℕ → ℕ → Option ℕ
utf8_end src zero i = some i
utf8_end src (suc n) i = utf8_step (get_or src i 0) >>= λ k. utf8_end src n (i + k)

-- `utf8cpy`: the bytes copied; none where it returns -1
unfoldable pub utf8cpy : Bytes → ℕ → Option Bytes
unfolding utf8_end
utf8cpy src n = utf8_end src n 0 >>= λ i. some (take i src)

unfoldable pub encode_null : Bytes
encode_null = b'N' ∷ []

unfoldable pub decode_null : Bytes → ℕ → Bool
decode_null buf sz = sz == 1 && get_or buf 0 0 == b'N'

-- `hs_encode_int`; the sum with 0xc8 wraps.
unfoldable pub encode_int : ℕ → Bytes
encode_int val =
    if sle32 (neg32 0x10) val && sle32 val 0x2f
    then ((val + 0x90) % 256) ∷ []
    else if sle32 (neg32 0x800) ((val + 0xc8) % 2 ^ 32) && sle32 val 0x7ff
    then ((sar8 val + 0xc8) % 256) ∷ (val % 256) ∷ []
    else if sle32 (neg32 0x40000) val && sle32 val 0x3ffff
    then ((sar16 val + 0xd4) % 256) ∷ be_bytes 2 (val % 2 ^ 16)
    else b'I' ∷ be_bytes 4 val

-- `hs_decode_int` on `sz` bytes; none where it returns false. Shifts of a negative number multiply.
unfoldable pub decode_int : Bytes → ℕ → Option ℕ
decode_int buf sz =
    let code = get_or buf 0 0 in
    let b1 = get_or buf 1 0 in
    let b2 = get_or buf 2 0 in
    if leb 1 sz && leb 0x80 code && leb code 0xbf
    then some ((code + 2 ^ 32 - 0x90) % 2 ^ 32)
    else if leb 2 sz && leb 0xc0 code && leb code 0xcf
    then some (((code + 2 ^ 32 - 0xc8) * 2 ^ 8 + b1) % 2 ^ 32)
    else if leb 3 sz && leb 0xd0 code && leb code 0xd7
    then some (((code + 2 ^ 32 - 0xd4) * 2 ^ 16 + b1 * 2 ^ 8 + b2) % 2 ^ 32)
    else if leb 5 sz && code == b'I'
    then some (of_be (slice buf 1 4))
    else none

-- `hs_encode_string` of a C string without its final 0; none where it returns -1
unfoldable pub encode_string : Bytes → Option Bytes
encode_string str =
    let n = length str in
    if ltb 0x8000 n
    then none
    else if leb n 31
    then some (n ∷ str)
    else if leb n 1023
    then some (((48 + n / 2 ^ 8) % 256) ∷ (n % 256) ∷ str)
    else some (b'S' ∷ ((n / 2 ^ 8) % 256) ∷ (n % 256) ∷ str)

-- How `internal_decode_string` ends: true with all that was copied out, false, or not at all.
pub data Decoded : Type 0 where
  text : Bytes → Decoded
  refused : Decoded
  looping : Decoded

-- a final chunk whose text begins at `start` and has n characters
unfoldable pub last_chunk : Bytes → ℕ → Bytes → ℕ → ℕ → Decoded
last_chunk buf buf_length out start n =
    if ltb buf_length (start + n)
    then refused
    else elim (utf8cpy (drop start buf) n) [ none ↦ refused | some s ↦ text (out ++ s) ]

-- After a chunk 0x52 the loop calls the function again on the same bytes; true from that call sets
-- `is_last_chunk`, and the switch is left for the false at the end.
unfoldable pub after_chunk : Decoded → Decoded
after_chunk (text s) = refused
after_chunk refused = refused
after_chunk looping = looping

-- `internal_decode_string`, with fuel for its calls of itself.
unfoldable pub decode_chunks : ℕ → Bytes → ℕ → Bytes → Decoded
decode_chunks zero buf buf_length out = looping
decode_chunks (suc fuel) buf buf_length out =
    let code = get_or buf 0 0 in
    let again = λ (s : Bytes). decode_chunks fuel buf buf_length (out ++ s) in
    if leb code 0x1f
    then last_chunk buf buf_length out 1 code
    else if leb 0x30 code && leb code 0x33
    then if ltb buf_length 2
      then refused
      else last_chunk buf buf_length out 2 ((code - 0x30) * 256 + get_or buf 1 0)
    else if code == 0x53
    then if ltb buf_length 3
      then refused
      else last_chunk buf buf_length out 3 (of_be (slice buf 1 2))
    else if code == 0x52
    then if ltb buf_length 3
      then refused
      else if ltb buf_length (3 + of_be (slice buf 1 2))
      then refused
      else elim (utf8cpy (drop 3 buf) (of_be (slice buf 1 2))) [
        | none ↦ refused
        | some s ↦ after_chunk (again s)
      ]
    else refused

-- `hs_decode_string`; memory for the copy is found.
unfoldable pub decode_string : ℕ → Bytes → ℕ → Decoded
decode_string fuel buf sz = decode_chunks fuel buf sz []
