-- ===== src/Buffer/Words/Kinds.antt =====
-- The functions of base/buffer.c on integers; an integer is its bit pattern.
use wee.Base.{ℕ, Option, some, leb, ◌>>=◌, ◌>>◌, guard}
use wee.Base.Memory.{Bytes, slice}
use wee.Base.Endian.{le_bytes, of_le, be_bytes, of_be}
use wee.Buffer.{Buffer, append, prepend, readable, peek, retrieve}

unfoldable pub append_int64 : Buffer → ℕ → Option Buffer
append_int64 b x = append b (be_bytes 8 x)

unfoldable pub append_int32 : Buffer → ℕ → Option Buffer
append_int32 b x = append b (be_bytes 4 x)

unfoldable pub append_int16 : Buffer → ℕ → Option Buffer
append_int16 b x = append b (be_bytes 2 x)

unfoldable pub append_int8 : Buffer → ℕ → Option Buffer
append_int8 b x = append b (le_bytes 1 x)

unfoldable pub append_int64_le : Buffer → ℕ → Option Buffer
append_int64_le b x = append b (le_bytes 8 x)

unfoldable pub append_int32_le : Buffer → ℕ → Option Buffer
append_int32_le b x = append b (le_bytes 4 x)

unfoldable pub append_int16_le : Buffer → ℕ → Option Buffer
append_int16_le b x = append b (le_bytes 2 x)

unfoldable pub prepend_int64 : Buffer → ℕ → Option Buffer
prepend_int64 b x = prepend b (be_bytes 8 x)

unfoldable pub prepend_int32 : Buffer → ℕ → Option Buffer
prepend_int32 b x = prepend b (be_bytes 4 x)

unfoldable pub prepend_int16 : Buffer → ℕ → Option Buffer
prepend_int16 b x = prepend b (be_bytes 2 x)

unfoldable pub prepend_int8 : Buffer → ℕ → Option Buffer
prepend_int8 b x = prepend b (le_bytes 1 x)

unfoldable pub prepend_int64_le : Buffer → ℕ → Option Buffer
prepend_int64_le b x = prepend b (le_bytes 8 x)

unfoldable pub prepend_int32_le : Buffer → ℕ → Option Buffer
prepend_int32_le b x = prepend b (le_bytes 4 x)

unfoldable pub prepend_int16_le : Buffer → ℕ → Option Buffer
prepend_int16_le b x = prepend b (le_bytes 2 x)

-- The assertion, the memcpy of `w` bytes and the conversion that every peek function has.
unfoldable pub peek_word : (Bytes → ℕ) → ℕ → Buffer → Option ℕ
peek_word of w b = do guard (leb w (readable b)); some (of (slice b.buf (peek b) w))

unfoldable pub peek_int64 : Buffer → Option ℕ
peek_int64 = peek_word of_be 8

unfoldable pub peek_int32 : Buffer → Option ℕ
peek_int32 = peek_word of_be 4

unfoldable pub peek_int16 : Buffer → Option ℕ
peek_int16 = peek_word of_be 2

unfoldable pub peek_int8 : Buffer → Option ℕ
peek_int8 = peek_word of_le 1

unfoldable pub peek_int64_le : Buffer → Option ℕ
peek_int64_le = peek_word of_le 8

unfoldable pub peek_int32_le : Buffer → Option ℕ
peek_int32_le = peek_word of_le 4

-- Three bytes; the highest byte of the result stays 0.
unfoldable pub peek_int32_le24 : Buffer → Option ℕ
peek_int32_le24 = peek_word of_le 3

unfoldable pub peek_int16_le : Buffer → Option ℕ
peek_int16_le = peek_word of_le 2

unfoldable pub retrieve_int64 : Buffer → Option Buffer
retrieve_int64 b = retrieve b 8

unfoldable pub retrieve_int32 : Buffer → Option Buffer
retrieve_int32 b = retrieve b 4

unfoldable pub retrieve_int16 : Buffer → Option Buffer
retrieve_int16 b = retrieve b 2

unfoldable pub retrieve_int8 : Buffer → Option Buffer
retrieve_int8 b = retrieve b 1

unfoldable pub read_int64 : Buffer → Option (ℕ × Buffer)
unfolding peek_int64 retrieve_int64
read_int64 b = do x ← peek_int64 b; b' ← retrieve_int64 b; some (x, b')

unfoldable pub read_int32 : Buffer → Option (ℕ × Buffer)
unfolding peek_int32 retrieve_int32
read_int32 b = do x ← peek_int32 b; b' ← retrieve_int32 b; some (x, b')

unfoldable pub read_int16 : Buffer → Option (ℕ × Buffer)
unfolding peek_int16 retrieve_int16
read_int16 b = do x ← peek_int16 b; b' ← retrieve_int16 b; some (x, b')

unfoldable pub read_int8 : Buffer → Option (ℕ × Buffer)
unfolding peek_int8 retrieve_int8
read_int8 b = do x ← peek_int8 b; b' ← retrieve_int8 b; some (x, b')

unfoldable pub read_int64_le : Buffer → Option (ℕ × Buffer)
unfolding peek_int64_le retrieve_int64
read_int64_le b = do x ← peek_int64_le b; b' ← retrieve_int64 b; some (x, b')

unfoldable pub read_int32_le : Buffer → Option (ℕ × Buffer)
unfolding peek_int32_le retrieve_int32
read_int32_le b = do x ← peek_int32_le b; b' ← retrieve_int32 b; some (x, b')

unfoldable pub read_int32_le24 : Buffer → Option (ℕ × Buffer)
unfolding peek_int32_le24
read_int32_le24 b = do x ← peek_int32_le24 b; b' ← retrieve b 3; some (x, b')

unfoldable pub read_int16_le : Buffer → Option (ℕ × Buffer)
unfolding peek_int16_le retrieve_int16
read_int16_le b = do x ← peek_int16_le b; b' ← retrieve_int16 b; some (x, b')
