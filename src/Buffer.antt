-- ===== src/Buffer.antt =====
-- The byte buffer of base/buffer.c: a growing block with room in front for headers.
-- A pointer into the block is an offset; what it reads is a `slice` of the block. A function that
-- asserts returns an option (`none` is a failed assertion). Memory for a bigger block is found.
pub mod Words
pub mod Strings
pub mod Search
pub mod Valid
pub mod Content
pub mod Fifo
pub mod Front
pub mod Limits
pub mod Chain
pub mod Room
pub mod ReadFd
pub mod Received
pub mod Views
mod Tests
mod ViewTests
use wee.Base.{
  ℕ, ◌+◌, ◌-◌, ◌^◌, ◌%◌, ◌≤◌, ◌<◌, Bool, ◌&&◌, ◌||◌, not, Option, none, some, length, replicate,
  ltb, leb, ◌==◌, if◌then◌else◌, ◌>>=◌, ◌>>◌, guard, is_some,
}
use wee.Base.Memory.{Bytes, slice, blit}
use wee.Base.Word.{add_size, sub_size}

-- `struct buffer`. `src` and `cache` name other buffers: the one that a view reads from, and a
-- released view that is kept for reuse.
pub record Buffer : Type 0 where
  pub read_idx : ℕ
  pub write_idx : ℕ
  pub sz : ℕ
  pub p_sz : ℕ
  pub buf : Bytes
  pub refcount : ℕ
  pub src : Option ℕ
  pub cache : Option ℕ

-- `buf_create_ex`; the last two arguments say whether the two callocs find memory. The outer
-- option is the assertion, the inner one the NULL that is returned.
unfoldable pub create_ex : ℕ → ℕ → Bool → Bool → Option (Option Buffer)
create_ex size prepend_size got_struct got_block = do
  guard (ltb 0 size)
  let sz = add_size size prepend_size
  some (
      if got_struct && got_block
      then some (record {
        read_idx = prepend_size;
        write_idx = prepend_size;
        sz = sz;
        p_sz = prepend_size;
        buf = replicate sz 0;
        refcount = 0;
        src = none;
        cache = none;
      })
      else none)

unfoldable pub readable : Buffer → ℕ
readable b = sub_size b.write_idx b.read_idx

unfoldable pub writable : Buffer → ℕ
writable b = sub_size b.sz b.write_idx

unfoldable pub internal_capacity : Buffer → ℕ
internal_capacity b = b.sz

unfoldable pub prependable : Buffer → ℕ
prependable b = b.read_idx

-- `buf_peek` and `buf_beginWrite`, as offsets into the block
unfoldable pub peek : Buffer → ℕ
peek b = b.read_idx

unfoldable pub begin_write : Buffer → ℕ
begin_write b = b.write_idx

unfoldable pub is_readonly_view : Buffer → Bool
is_readonly_view b = is_some b.src

unfoldable pub write_locked : Buffer → Bool
unfolding is_readonly_view
write_locked b = is_readonly_view b || ltb 0 b.refcount

unfoldable pub has_written : Buffer → ℕ → Option Buffer
unfolding writable
has_written b len = do
  guard (leb len (writable b))
  some (record b { write_idx = add_size b.write_idx len })

unfoldable pub unwrite : Buffer → ℕ → Option Buffer
unfolding readable
unwrite b len = do
  guard (not (write_locked b))
  guard (leb len (readable b))
  some (record b { write_idx = sub_size b.write_idx len })

unfoldable pub retrieve_all : Buffer → Buffer
retrieve_all b = record b { read_idx = b.p_sz; write_idx = b.p_sz }

unfoldable pub retrieve : Buffer → ℕ → Option Buffer
unfolding readable retrieve_all
retrieve b len = do
  guard (leb len (readable b))
  some (
      if ltb len (readable b)
      then record b { read_idx = add_size b.read_idx len }
      else retrieve_all b)

-- `end` is an offset.
unfoldable pub retrieve_until : Buffer → ℕ → Option Buffer
unfolding retrieve peek begin_write
retrieve_until b end = do
  guard (leb (peek b) end)
  guard (leb end (begin_write b))
  retrieve b (sub_size end (peek b))

-- `buf_retrieveAsString` hands over the bytes, without the final 0 that it writes behind them. The
-- copy is made before the length is tested.
unfoldable pub retrieve_as_string : Buffer → ℕ → Option (Bytes × Buffer)
unfolding retrieve peek
retrieve_as_string b len = do
  let str = slice b.buf (peek b) len
  b' ← retrieve b len
  some (str, b')

unfoldable pub swap : Buffer → ℕ → Option Buffer
unfolding readable peek
swap b nsz = do
  guard (leb (readable b) nsz)
  some (record b {
    buf = blit (replicate nsz 0) b.p_sz (slice b.buf (peek b) (readable b));
    sz = nsz;
  })

-- the two branches of `buf_makeSpace`: a bigger block, or the bytes moved to the front
unfoldable pub make_room : Buffer → ℕ → Option Buffer
unfolding swap readable writable prependable peek
make_room b len =
    if ltb (sub_size (add_size (prependable b) (writable b)) b.p_sz) len
    then swap b (add_size b.write_idx len)
    else do
      guard (ltb b.p_sz b.read_idx)
      some (record b { buf = blit b.buf b.p_sz (slice b.buf (peek b) (readable b)) })

unfoldable pub make_space : Buffer → ℕ → Option Buffer
unfolding readable
make_space b len = do
  let held = readable b
  b' ← make_room b len
  let b'' = record b' { read_idx = b'.p_sz; write_idx = add_size b'.p_sz held }
  guard (held == readable b'')
  some b''

unfoldable pub ensure_writable : Buffer → ℕ → Option Buffer
unfolding writable
ensure_writable b len = do
  guard (not (write_locked b))
  b' ← if ltb (writable b) len then make_space b len else some b
  guard (leb len (writable b'))
  some b'

-- memcpy to `buf_beginWrite`, as callers do it themselves before `buf_has_written`
unfoldable pub fill : Buffer → Bytes → Buffer
unfolding begin_write
fill b d = record b { buf = blit b.buf (begin_write b) d }

unfoldable pub append : Buffer → Bytes → Option Buffer
append b d = do
  guard (not (write_locked b))
  b' ← ensure_writable b (length d)
  has_written (fill b' d) (length d)

unfoldable pub prepend : Buffer → Bytes → Option Buffer
unfolding prependable
prepend b d = do
  guard (leb (length d) (prependable b))
  let r = sub_size b.read_idx (length d)
  some (record b { read_idx = r; buf = blit b.buf r d })

unfoldable pub shrink : Buffer → ℕ → Option Buffer
unfolding swap readable
shrink b reserve = do
  guard (not (write_locked b))
  swap b (add_size (add_size b.p_sz (readable b)) reserve)

abbrev pub get_read_index : Buffer → ℕ
get_read_index b = b.read_idx

abbrev pub get_write_index : Buffer → ℕ
get_write_index b = b.write_idx

unfoldable pub set_read_index : Buffer → ℕ → Buffer
set_read_index b i = record b { read_idx = i }

unfoldable pub set_write_index : Buffer → ℕ → Option Buffer
set_write_index b i = do
  guard (not (write_locked b))
  guard (leb b.read_idx i && ltb i b.sz)
  some (record b { write_idx = i })
