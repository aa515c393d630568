-- ===== src/Dubbo/Hessian/Strings.antt =====
-- Strings of dubbo_client/dubbo_hessian.c: written, then read.
use wee.Base.{
  ℕ, zero, suc, ◌+◌, ◌-◌, ◌*◌, ◌/◌, ◌%◌, ◌^◌, ◌≤◌, ◌<◌, ◌≡◌, refl, ap, ◌∙◌, none, some, [], ◌∷◌,
  ◌++◌, length, get_or, arith, length-append, All, take, drop, append_assoc, take-length-append,
  le→leb,
}
use native.Mathlib.Decide.{dec_le}
use wee.Base.Memory.{Bytes, slice}
use wee.Base.Endian.{of_be}
use wee.Dubbo.Hessian.{
  utf8_step, utf8_end, utf8cpy, encode_string, text, looping, last_chunk, after_chunk,
  decode_chunks, decode_string,
}

abbrev pub IsAscii : Bytes → Type 0
IsAscii = All (λ c. c < 0x80)

get_or-length : (pre : Bytes) (c : ℕ) (rest : Bytes) → get_or (pre ++ (c ∷ rest)) (length pre) 0 ≡ c
get_or-length [] c rest = refl
get_or-length (x ∷ pre) c rest = get_or-length pre c rest

utf8_end-ascii :
    (pre s rest : Bytes)
    → IsAscii s
    → utf8_end (pre ++ (s ++ rest)) (length s) (length pre) ≡ some (length pre + length s)
unfolding utf8_end utf8_step
utf8_end-ascii pre [] rest h = ap some (omega arith)
utf8_end-ascii pre (c ∷ s) rest (hc, hs) =
    rw (get_or-length pre c (s ++ rest), le→leb c 0x80 (omega arith))
      (next (utf8_end-ascii (pre ++ (c ∷ [])) s rest hs))
  where
    next :
        utf8_end ((pre ++ (c ∷ [])) ++ (s ++ rest)) (length s) (length (pre ++ (c ∷ [])))
          ≡ some (length (pre ++ (c ∷ [])) + length s)
        → utf8_end (pre ++ (c ∷ (s ++ rest))) (length s) (length pre + 1)
          ≡ some (length pre + suc (length s))
    next h =
        (rw (append_assoc pre (c ∷ []) (s ++ rest), length-append pre (c ∷ [])) at h)
        ∙ ap some (omega arith)

-- A copy of as many characters as an ASCII text has bytes is that text.
utf8cpy-ascii : (s rest : Bytes) → IsAscii s → utf8cpy (s ++ rest) (length s) ≡ some s
unfolding utf8cpy
utf8cpy-ascii s rest h =
    rw (utf8_end-ascii [] s rest h)
      (ap (λ n. some (take n (s ++ rest))) (omega arith) ∙ ap some (take-length-append s rest))

last_chunk-ascii :
    (buf : Bytes) (buf_length : ℕ) (s rest : Bytes) (start n : ℕ)
    → IsAscii s
    → n ≡ length s
    → drop start buf ≡ s ++ rest
    → start + length s ≤ buf_length
    → last_chunk buf buf_length [] start n ≡ text s
unfolding last_chunk
last_chunk-ascii buf len s rest start n h hn e le =
    rw (hn, e, utf8cpy-ascii s rest h) (ground arith)

-- the three headers that `hs_encode_string` writes
short_text :
    (fuel : ℕ) (s rest : Bytes)
    → IsAscii s
    → length s ≤ 31
    → decode_chunks (suc fuel) (length s ∷ (s ++ rest)) (length (length s ∷ (s ++ rest))) []
      ≡ text s
unfolding decode_chunks
short_text fuel s rest h le = rw (le→leb (length s) 0x1f le) (
    last_chunk-ascii (length s ∷ (s ++ rest)) _ s rest 1 (length s) h refl refl
      (omega (arith, length-append s rest)))

medium_text :
    (fuel hi lo : ℕ) (s rest : Bytes)
    → IsAscii s
    → hi < 4
    → hi * 256 + lo ≡ length s
    → decode_chunks
        (suc fuel)
        ((0x30 + hi) ∷ lo ∷ (s ++ rest))
        (length ((0x30 + hi) ∷ lo ∷ (s ++ rest)))
        []
      ≡ text s
unfolding decode_chunks
medium_text fuel hi lo s rest h small e = ground (
  arith,
  last_chunk-ascii ((0x30 + hi) ∷ lo ∷ (s ++ rest)) (length ((0x30 + hi) ∷ lo ∷ (s ++ rest))) s rest
      2 ((0x30 + hi - 0x30) * 256 + lo) h (omega arith) refl (omega (arith, length-append s rest)),
  length-append s rest,
)

long_text :
    (fuel hi lo : ℕ) (s rest : Bytes)
    → IsAscii s
    → hi * 256 + lo ≡ length s
    → decode_chunks
        (suc fuel)
        (0x53 ∷ hi ∷ lo ∷ (s ++ rest))
        (length (0x53 ∷ hi ∷ lo ∷ (s ++ rest)))
        []
      ≡ text s
unfolding decode_chunks slice
long_text fuel hi lo s rest h e = ground (
  arith,
  last_chunk-ascii (0x53 ∷ hi ∷ lo ∷ (s ++ rest)) (length (0x53 ∷ hi ∷ lo ∷ (s ++ rest))) s rest 3
      (of_be (hi ∷ lo ∷ [])) h (unfold of_be in (omega arith)) refl
      (omega (arith, length-append s rest)),
  length-append s rest,
)

-- An ASCII text of at most 0x8000 bytes that `hs_encode_string` writes is read back as itself,
-- whatever follows it; one call of the decoder is enough.
pub decode_string-encode_string :
    (fuel : ℕ) (s rest : Bytes)
    → IsAscii s
    → length s ≤ 0x8000
    → (e : Bytes) × (encode_string s ≡ some e)
      × (decode_string (suc fuel) (e ++ rest) (length (e ++ rest)) ≡ text s)
unfolding encode_string decode_string
decode_string-encode_string fuel s rest h le = elim (dec_le (length s) 31) [
  | yes short ↦ (length s ∷ s, ground arith, short_text fuel s rest h short)
  | no over ↦ elim (dec_le (length s) 1023) [
    | yes medium ↦
        let hi = length s / 2 ^ 8 in
        let lo = length s % 256 in
        (
          (0x30 + hi) ∷ lo ∷ s,
          ground arith,
          medium_text fuel hi lo s rest h (omega arith) (omega arith),
        )
    | no long ↦
        let hi = length s / 2 ^ 8 in
        let lo = length s % 256 in
        (b'S' ∷ hi ∷ lo ∷ s, ground arith, long_text fuel hi lo s rest h (omega arith))
  ]
]

-- A text of more than 0x8000 bytes is not written.
pub encode_string_too_long : (s : Bytes) → 0x8000 < length s → encode_string s ≡ none
unfolding encode_string
encode_string_too_long s h = ground arith

-- A chunk that is not the last (0x52) with its whole text at hand is never decoded: the decoder
-- calls itself on the same bytes however much fuel it is given.
pub decode_chunks_never_ends :
    (fuel hi lo : ℕ) (s rest out : Bytes)
    → IsAscii s
    → hi * 256 + lo ≡ length s
    → decode_chunks fuel (0x52 ∷ hi ∷ lo ∷ (s ++ rest)) (length (0x52 ∷ hi ∷ lo ∷ (s ++ rest))) out
      ≡ looping
unfolding decode_chunks slice after_chunk
decode_chunks_never_ends zero hi lo s rest out h e = refl
decode_chunks_never_ends (suc fuel) hi lo s rest out h e = ground (
  arith,
  chunk_size,
  copied,
  length-append s rest,
  decode_chunks_never_ends fuel hi lo s rest (out ++ s) h e,
)
  where
    chunk_size : of_be (hi ∷ lo ∷ []) ≡ length s
    chunk_size = unfold of_be in (omega arith)

    copied : utf8cpy (s ++ rest) (of_be (hi ∷ lo ∷ [])) ≡ some s
    copied = rw chunk_size (utf8cpy-ascii s rest h)
