-- ===== src/Buffer/Words/Laws.antt =====
-- What was appended or prepended as an integer is read back as that integer.
use wee.Base.{
  ℕ, ◌+◌, ◌^◌, ◌≤◌, ◌<◌, ◌≡◌, refl, ap, sym, ◌∙◌, Option, some, false, length, ◌++◌, [], append-nil,
  ◌>>=◌, le→leb,
}
use wee.Base.Memory.{Bytes}
use wee.Base.Word.{max_size}
use wee.Base.Endian.{
  le_bytes, of_le, be_bytes, of_be, of_le-le_bytes, of_be-be_bytes, length-le_bytes,
  length-be_bytes,
}
use wee.Buffer.{Buffer, append, prepend, retrieve, write_locked, prependable}
use wee.Buffer.Valid.{IsValid}
use wee.Buffer.Content.{contents}
use wee.Buffer.Fifo.{Appended, append-Appended}
use wee.Buffer.Front.{Left, retrieve-Left, slice-peek, le-readable, Prepended, prepend-Prepended}
use wee.Buffer.Words.Kinds.{
  append_int64, append_int32, append_int16, append_int8, append_int64_le, append_int32_le,
  append_int16_le, prepend_int64, prepend_int32, prepend_int16, prepend_int8, prepend_int64_le,
  prepend_int32_le, prepend_int16_le, peek_word, read_int64, read_int32, read_int16, read_int8,
  read_int64_le, read_int32_le, read_int16_le,
}

-- The kinds of integer that base/buffer.c both writes and reads.
pub data Kind : Type 0 where
  int64 int32 int16 int8 int64_le int32_le int16_le : Kind

abbrev pub width : Kind → ℕ
width int64 = 8
width int32 = 4
width int16 = 2
width int8 = 1
width int64_le = 8
width int32_le = 4
width int16_le = 2

abbrev pub append_as : Kind → Buffer → ℕ → Option Buffer
append_as int64 = append_int64
append_as int32 = append_int32
append_as int16 = append_int16
append_as int8 = append_int8
append_as int64_le = append_int64_le
append_as int32_le = append_int32_le
append_as int16_le = append_int16_le

abbrev pub prepend_as : Kind → Buffer → ℕ → Option Buffer
prepend_as int64 = prepend_int64
prepend_as int32 = prepend_int32
prepend_as int16 = prepend_int16
prepend_as int8 = prepend_int8
prepend_as int64_le = prepend_int64_le
prepend_as int32_le = prepend_int32_le
prepend_as int16_le = prepend_int16_le

abbrev pub read_as : Kind → Buffer → Option (ℕ × Buffer)
read_as int64 = read_int64
read_as int32 = read_int32
read_as int16 = read_int16
read_as int8 = read_int8
read_as int64_le = read_int64_le
read_as int32_le = read_int32_le
read_as int16_le = read_int16_le

-- The bytes that an integer takes in a buffer.
abbrev pub bytes_as : Kind → ℕ → Bytes
bytes_as int64 = be_bytes 8
bytes_as int32 = be_bytes 4
bytes_as int16 = be_bytes 2
bytes_as int8 = le_bytes 1
bytes_as int64_le = le_bytes 8
bytes_as int32_le = le_bytes 4
bytes_as int16_le = le_bytes 2

pub length-bytes_as : (k : Kind) (x : ℕ) → length (bytes_as k x) ≡ width k
length-bytes_as int64 x = length-be_bytes 8 x
length-bytes_as int32 x = length-be_bytes 4 x
length-bytes_as int16 x = length-be_bytes 2 x
length-bytes_as int8 x = length-le_bytes 1 x
length-bytes_as int64_le x = length-le_bytes 8 x
length-bytes_as int32_le x = length-le_bytes 4 x
length-bytes_as int16_le x = length-le_bytes 2 x

pub peek_word_lem :
    {b : Buffer} (of : Bytes → ℕ) (w : ℕ) (d rest : Bytes)
    → IsValid b
    → length d ≡ w
    → contents b ≡ d ++ rest
    → peek_word of w b ≡ some (of d)
unfolding peek_word
peek_word_lem {b} of w d rest v h e =
    rw (← h, le→leb _ _ (le-readable d rest v e)) (ap (λ s. some (of s)) (slice-peek d rest v e))

-- what every read function does
abbrev peek_then_retrieve : (Bytes → ℕ) → ℕ → Buffer → Option (ℕ × Buffer)
peek_then_retrieve of w b = do y ← peek_word of w b; b'' ← retrieve b w; some (y, b'')

read_word_lem :
    {b : Buffer} (of : Bytes → ℕ) (w x : ℕ) (d rest : Bytes)
    → IsValid b
    → length d ≡ w
    → of d ≡ x
    → contents b ≡ d ++ rest
    → (b' : Buffer) × (peek_then_retrieve of w b ≡ some (x, b')) × Left b rest b'
read_word_lem {b} of w x d rest v h o e =
    let (b', r, l) = retrieve-Left d rest v e in
    (b', rw (peek_word_lem of w d rest v h e, ← h, r, o) refl, l)

-- An integer that stands at the front of a valid buffer is read, in each kind, as itself, and the
-- bytes behind it are left.
pub read_as-Left :
    {b : Buffer} (k : Kind) (x : ℕ) (rest : Bytes)
    → IsValid b
    → x < 256 ^ width k
    → contents b ≡ bytes_as k x ++ rest
    → (b' : Buffer) × (read_as k b ≡ some (x, b')) × Left b rest b'
unfolding read_int64 read_int32 read_int16 read_int8 read_int64_le read_int32_le read_int16_le
read_as-Left int64 x rest v h e =
    read_word_lem of_be 8 x (be_bytes 8 x) rest v (length-be_bytes 8 x) (of_be-be_bytes 8 x h) e
read_as-Left int32 x rest v h e =
    read_word_lem of_be 4 x (be_bytes 4 x) rest v (length-be_bytes 4 x) (of_be-be_bytes 4 x h) e
read_as-Left int16 x rest v h e =
    read_word_lem of_be 2 x (be_bytes 2 x) rest v (length-be_bytes 2 x) (of_be-be_bytes 2 x h) e
read_as-Left int8 x rest v h e =
    read_word_lem of_le 1 x (le_bytes 1 x) rest v (length-le_bytes 1 x) (of_le-le_bytes 1 x h) e
read_as-Left int64_le x rest v h e =
    read_word_lem of_le 8 x (le_bytes 8 x) rest v (length-le_bytes 8 x) (of_le-le_bytes 8 x h) e
read_as-Left int32_le x rest v h e =
    read_word_lem of_le 4 x (le_bytes 4 x) rest v (length-le_bytes 4 x) (of_le-le_bytes 4 x h) e
read_as-Left int16_le x rest v h e =
    read_word_lem of_le 2 x (le_bytes 2 x) rest v (length-le_bytes 2 x) (of_le-le_bytes 2 x h) e

append_as-eq : (k : Kind) (b : Buffer) (x : ℕ) → append_as k b x ≡ append b (bytes_as k x)
unfolding append_int64 append_int32 append_int16 append_int8 append_int64_le append_int32_le
    append_int16_le
append_as-eq int64 b x = refl
append_as-eq _ b x = refl

prepend_as-eq : (k : Kind) (b : Buffer) (x : ℕ) → prepend_as k b x ≡ prepend b (bytes_as k x)
unfolding prepend_int64 prepend_int32 prepend_int16 prepend_int8 prepend_int64_le prepend_int32_le
    prepend_int16_le
prepend_as-eq int64 b x = refl
prepend_as-eq _ b x = refl

-- An integer of each kind is appended to a valid unlocked buffer as its bytes.
pub append_as-Appended :
    {b : Buffer} (k : Kind) (x : ℕ)
    → IsValid b
    → b.p_sz ≤ b.read_idx
    → write_locked b ≡ false
    → b.write_idx + width k < max_size
    → (b' : Buffer) × (append_as k b x ≡ some b') × Appended b (bytes_as k x) b'
append_as-Appended {b} k x v f free h =
    let (b', e, a) = append-Appended {b = b} (bytes_as k x) v f free (rw (length-bytes_as k x) h) in
    (b', append_as-eq k b x ∙ e, a)

-- An integer of each kind is prepended to a valid buffer with room in front as its bytes.
pub prepend_as-Prepended :
    {b : Buffer} (k : Kind) (x : ℕ)
    → IsValid b
    → width k ≤ prependable b
    → (b' : Buffer) × (prepend_as k b x ≡ some b') × Prepended b (bytes_as k x) b'
prepend_as-Prepended {b} k x v h =
    let (b', e, a) = prepend-Prepended {b = b} (bytes_as k x) v (rw (length-bytes_as k x) h) in
    (b', prepend_as-eq k b x ∙ e, a)

-- An integer prepended to a valid buffer with room in front is the next one read, in each kind,
-- and reading it leaves the bytes that were there before.
pub read_as-prepend_as :
    {b : Buffer} (k : Kind) (x : ℕ)
    → IsValid b
    → x < 256 ^ width k
    → width k ≤ prependable b
    → (b' : Buffer) × (b'' : Buffer) × (prepend_as k b x ≡ some b')
      × (read_as k b' ≡ some (x, b''))
      × IsValid b''
      × (contents b'' ≡ contents b)
read_as-prepend_as {b} k x v h room =
    let (b', e, p) = prepend_as-Prepended {b = b} k x v room in
    let (b'', r, l) = read_as-Left {b = b'} k x (contents b) p.valid h p.bytes in
    (b', b'', e, r, l.valid, l.bytes)

-- An integer appended to a valid empty unlocked buffer, in each kind, is read back as itself, and
-- the buffer is empty again, whatever growing or moving the append did.
pub read_as-append_as :
    {b : Buffer} (k : Kind) (x : ℕ)
    → IsValid b
    → b.p_sz ≤ b.read_idx
    → write_locked b ≡ false
    → contents b ≡ []
    → x < 256 ^ width k
    → b.write_idx + width k < max_size
    → (b' : Buffer) × (b'' : Buffer) × (append_as k b x ≡ some b')
      × (read_as k b' ≡ some (x, b''))
      × IsValid b''
      × (contents b'' ≡ [])
read_as-append_as {b} k x v f free empty h small =
    let (b', e, a) = append_as-Appended {b = b} k x v f free small in
    let (b'', r, l) =
      read_as-Left {b = b'} k x [] a.valid h
        (a.bytes ∙ ap (λ xs. xs ++ bytes_as k x) empty ∙ sym (append-nil (bytes_as k x))) in
    (b', b'', e, r, l.valid, l.bytes)
