-- ===== src/Buffer/ReadFd.antt =====
-- `buf_readFd` of base/buffer.c. What readv brings is an argument: the bytes in order, or none where it
-- returns -1.
use wee.Base.{
  ℕ, ◌-◌, ◌^◌, not, Option, none, some, length, leb, ltb, take, drop, if◌then◌else◌, ◌>>=◌, ◌>>◌,
  guard,
}
use wee.Base.Memory.{Bytes}
use wee.Base.Word.{add_size}
use wee.Buffer.{Buffer, writable, write_locked, fill, append}

-- `sizeof(extrabuf)`
abbrev pub extrabuf_size : ℕ
extrabuf_size = 65535

-- The room that the two parts of `vec` offer to readv.
unfoldable pub offered : Buffer → ℕ
offered b =
    if ltb (writable b) extrabuf_size then add_size (writable b) extrabuf_size else writable b

-- The result is what readv returned, `*errno_` and the buffer.
unfoldable pub read_fd : Option Bytes → ℕ → Buffer → Option (Option ℕ × ℕ × Buffer)
read_fd none errno b = do guard (not (write_locked b)); some (none, 2 ^ 32 - 1, b)
read_fd (some d) errno b = do
  guard (not (write_locked b))
  let room = writable b
  let fits = record (fill b d) { write_idx = add_size b.write_idx (length d) }
  let full = record (fill b (take room d)) { write_idx = b.sz }
  let spilled = append full (drop room d)
  b' ← if leb (length d) room then some fits else spilled
  some (some (length d), errno, b')
