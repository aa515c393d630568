-- ===== src/Buffer/Strings.antt =====
-- The searches for a character and the string functions of base/buffer.c. A `size` that is an int is
-- its pattern; memory for a copy is found, and a copy is given with the 0 that is written behind it.
use wee.Base.{
  ℕ, suc, ◌+◌, ◌-◌, ◌%◌, ◌^◌, ◌<◌, ◌≡◌, ◌≢◌, refl, ap, sym, ◌∙◌, ◌⊎◌, inl, inr, not, Option, none,
  some, [], ◌∷◌, ◌++◌, All, length, length-append, ltb, ◌==◌, if◌then◌else◌, ◌>>=◌, arith,
  append_assoc, append-nil, ap₂,
}
use wee.Base.Memory.{Bytes, slice, slice-add}
use wee.Base.Word.{sle32, size_of_int32}
use wee.Buffer.{Buffer, peek, readable, retrieve}
use wee.Buffer.Valid.{IsValid, readable_lem}
use wee.Buffer.Content.{contents, length-contents}
use wee.Buffer.Front.{Left, held, slice-peek, le-readable, retrieve-Left}

-- memchr: the index of the first c
abbrev pub memchr : ℕ → Bytes → Option ℕ
memchr c [] = none
memchr c (x ∷ xs) = if x == c then some 0 else (memchr c xs >>= λ i. some (suc i))

-- `buf_findChar`, as an offset from `buf_peek`
unfoldable pub find_char : Buffer → ℕ → Option ℕ
find_char b c = memchr c (slice b.buf (peek b) (readable b))

-- `buf_findEOL`
unfoldable pub find_eol : Buffer → Option ℕ
find_eol b = memchr 10 (slice b.buf (peek b) (readable b))

-- the bytes that a C string at `buf_peek` needs, as an int
unfoldable pub c_str_sz : Buffer → Option ℕ → ℕ
c_str_sz b none = (readable b + 1) % 2 ^ 32
c_str_sz b (some i) = (i + 1) % 2 ^ 32

-- the bytes that are taken for it
unfoldable pub c_str_taken : Buffer → Option ℕ → ℕ
c_str_taken b none = (c_str_sz b none + 2 ^ 32 - 1) % 2 ^ 32
c_str_taken b (some i) = c_str_sz b (some i)

-- `buf_readCStr`: what it copies to `str`, or NULL; it copies as many bytes as `str` has.
unfoldable pub read_c_str : Buffer → ℕ → Option (Option Bytes × Buffer)
read_c_str b sz =
    let eos = find_char b 0 in
    if not (sle32 (c_str_sz b eos) sz)
    then some (none, b)
    else (retrieve b (size_of_int32 (c_str_taken b eos)) >>= λ b'.
        some (some (slice b.buf (peek b) (size_of_int32 sz)), b'))

-- `buf_dupCStr`
unfoldable pub dup_c_str : Buffer → Option (Bytes × Buffer)
dup_c_str b =
    let eos = find_char b 0 in
    retrieve b (size_of_int32 (c_str_taken b eos)) >>= λ b'.
    some (slice b.buf (peek b) (size_of_int32 (c_str_sz b eos)), b')

-- the length that `buf_readStr` and `buf_dupStr` cut down to what is held
unfoldable pub str_sz : Buffer → ℕ → ℕ
str_sz b sz = if ltb (readable b) (size_of_int32 sz) then readable b % 2 ^ 32 else sz

-- `buf_readStr`
unfoldable pub read_str : Buffer → ℕ → Option (Bytes × Buffer)
read_str b sz = retrieve b (size_of_int32 (str_sz b sz)) >>= λ b'.
    some (slice b.buf (peek b) (size_of_int32 (str_sz b sz)) ++ (0 ∷ []), b')

-- `buf_dupStr`
unfoldable pub dup_str : Buffer → ℕ → Option (Bytes × Buffer)
dup_str b sz = retrieve b (size_of_int32 (str_sz b sz)) >>= λ b'.
    some (slice b.buf (peek b) (size_of_int32 (str_sz b sz)) ++ (0 ∷ []), b')

abbrev IsText : Bytes → Type 0
IsText d = All (λ x. x ≢ 0) d

memchr-text : (d rest : Bytes) → IsText d → memchr 0 (d ++ (0 ∷ rest)) ≡ some (length d)
memchr-text [] rest t = refl
memchr-text (x ∷ d) rest (nz, t) = ground (arith, nz, memchr-text d rest t)

contents-peek : {b : Buffer} → IsValid b → slice b.buf (peek b) (readable b) ≡ contents b
unfolding peek
contents-peek {b} v = ap (slice b.buf b.read_idx) (readable_lem v)

find_char-text :
    {b : Buffer} (d rest : Bytes)
    → IsValid b
    → IsText d
    → contents b ≡ d ++ (0 ∷ rest)
    → find_char b 0 ≡ some (length d)
unfolding find_char
find_char-text {b} d rest v t e = ap (memchr 0) (contents-peek v ∙ e) ∙ memchr-text d rest t

size_of-small : (n : ℕ) → n < 2 ^ 31 → size_of_int32 (n % 2 ^ 32) ≡ n
size_of-small n h = ground arith

dup-found :
    (b : Buffer) {b' : Buffer} {i n : ℕ}
    → find_char b 0 ≡ some i
    → size_of_int32 ((i + 1) % 2 ^ 32) ≡ n
    → retrieve b n ≡ some b'
    → dup_c_str b ≡ some (slice b.buf (peek b) n, b')
unfolding dup_c_str c_str_sz c_str_taken
dup-found b found size taken = rw found (rw size (rw taken refl))

-- `buf_dupCStr` of a valid buffer that begins with a C string of less than 2 ^ 31 - 1 bytes returns
-- the string with its 0, and leaves exactly the bytes behind the 0.
pub dup_c_str-Left :
    {b : Buffer} (d rest : Bytes)
    → IsValid b
    → IsText d
    → contents b ≡ d ++ (0 ∷ rest)
    → length d + 1 < 2 ^ 31
    → (b' : Buffer) × (dup_c_str b ≡ some (d ++ (0 ∷ []), b')) × Left b rest b'
dup_c_str-Left {b} d rest v t e small =
    let (b', taken, left) = retrieve-Left {b = b} (d ++ (0 ∷ [])) rest v split in
    (
      b',
      dup-found b (find_char-text d rest v t e) (size_of-small (length d + 1) small ∙ sym one_more)
            taken
          ∙ ap (λ r. some (r, b')) (slice-peek (d ++ (0 ∷ [])) rest v split),
      left,
    )
  where
    split : contents b ≡ (d ++ (0 ∷ [])) ++ rest
    split = e ∙ sym (append_assoc d (0 ∷ []) rest)

    one_more : length (d ++ (0 ∷ [])) ≡ length d + 1
    one_more = length-append d (0 ∷ [])

str_sz-part :
    {b : Buffer} (sz : ℕ) (d rest : Bytes)
    → IsValid b
    → contents b ≡ d ++ rest
    → (length d ≡ sz) ⊎ ((length d < sz) × (rest ≡ []))
    → sz < 2 ^ 31
    → size_of_int32 (str_sz b sz) ≡ length d
unfolding str_sz
str_sz-part {b} sz d rest v e (inl same) small = ground (arith, le-readable d rest v e)
str_sz-part {b} sz d rest v e (inr (short, all)) small =
    ground (arith, held d rest v e, ap length all, readable_lem v)

-- `buf_readStr` of a valid buffer, for a size that is not negative, copies that many bytes, or all
-- that are held if they are fewer, puts a 0 behind them, and leaves exactly the bytes behind them.
pub read_str-Left :
    {b : Buffer} (sz : ℕ) (d rest : Bytes)
    → IsValid b
    → contents b ≡ d ++ rest
    → (length d ≡ sz) ⊎ ((length d < sz) × (rest ≡ []))
    → sz < 2 ^ 31
    → (b' : Buffer) × (read_str b sz ≡ some (d ++ (0 ∷ []), b')) × Left b rest b'
unfolding read_str
read_str-Left {b} sz d rest v e part small =
    let (b', taken, left) = retrieve-Left {b = b} d rest v e in
    (
      b',
      rw (str_sz-part sz d rest v e part small)
          (rw taken (ap (λ r. some (r ++ (0 ∷ []), b')) (slice-peek d rest v e))),
      left,
    )

memchr-none : (d : Bytes) → IsText d → memchr 0 d ≡ none
memchr-none [] t = refl
memchr-none (x ∷ d) (nz, t) = ground (arith, nz, memchr-none d t)

taken-open : (n : ℕ) → n + 1 < 2 ^ 31 → size_of_int32 (((n + 1) % 2 ^ 32 + 2 ^ 32 - 1) % 2 ^ 32) ≡ n
taken-open n h = ground arith

dup-open :
    (b : Buffer) {b' : Buffer} {n m : ℕ}
    → find_char b 0 ≡ none
    → size_of_int32 (((readable b + 1) % 2 ^ 32 + 2 ^ 32 - 1) % 2 ^ 32) ≡ n
    → size_of_int32 ((readable b + 1) % 2 ^ 32) ≡ m
    → retrieve b n ≡ some b'
    → dup_c_str b ≡ some (slice b.buf (peek b) m, b')
unfolding dup_c_str c_str_sz c_str_taken
dup-open b found size copied taken = rw found (rw size (rw copied (rw taken refl)))

-- `buf_dupCStr` of a valid buffer that holds no 0, and fewer than 2 ^ 31 - 1 bytes, returns all that
-- is held, not with a 0 behind it but with the byte that stands behind the write index.
pub dup_c_str_open :
    {b : Buffer}
    → IsValid b
    → IsText (contents b)
    → readable b + 1 < 2 ^ 31
    → (b' : Buffer) × (dup_c_str b ≡ some (contents b ++ slice b.buf b.write_idx 1, b'))
      × Left b [] b'
dup_c_str_open {b} v t small =
    let (b', taken, left) =
      retrieve-Left {b = b} (contents b) [] v (sym (append-nil (contents b))) in
    (
      b',
      dup-open b none_found (taken-open (readable b) small ∙ sym (length-contents v))
            (size_of-small (readable b + 1) small) taken
          ∙ ap (λ r. some (r, b')) behind,
      left,
    )
  where
    none_found : find_char b 0 ≡ none
    none_found = unfold find_char in (ap (memchr 0) (contents-peek v) ∙ memchr-none (contents b) t)

    at_end : peek b + readable b ≡ b.write_idx
    at_end = unfold peek in (omega (arith, readable_lem v, v.ordered))

    behind : slice b.buf (peek b) (readable b + 1) ≡ contents b ++ slice b.buf b.write_idx 1
    behind =
        slice-add b.buf (peek b) (readable b) 1
        ∙ ap₂ ◌++◌ (contents-peek v) (ap (λ i. slice b.buf i 1) at_end)
