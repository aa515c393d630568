-- ===== src/Buffer/Views.antt =====
-- Read-only views of base/buffer.c: buffers that point to others, one_view_more and kept for reuse. A store holds
-- the objects that were allocated, by their address; what is done to an object that was freed gives none.
-- A view has its part of the block of its source as its own. Operations that check the lock of the source do
-- not change that part (buf_prepend does not check).
pub mod Count
pub mod Sound
pub mod Release
pub mod Change
pub mod Added
pub mod Revive
pub mod Showing
pub mod Viewed
pub mod Runs
pub mod Shown
pub mod Parting
pub mod Root
pub mod Released
use wee.Base.{
  ℕ, ◌+◌, ◌-◌, ◌^◌, ◌%◌, Bool, true, false, ◌&&◌, not, Option, none, some, List, [], ◌∷◌, ◌++◌,
  length, get_or, set, ltb, ◌==◌, if◌then◌else◌, ◌>>=◌, ◌>>◌, guard,
}
use wee.Base.Memory.{Bytes, slice}
use wee.Base.Word.{sle32}
use wee.Buffer.{Buffer, create_ex, readable, peek}

-- whether the caller has an object, or another object keeps it in its cache, or it was freed
pub data Use : Type 0 where
  in_use : Use
  kept : Use
  freed : Use

pub record Cell : Type 0 where
  pub buffer : Buffer
  pub use_of : Use

-- what stands in no object
abbrev pub nothing : Cell
nothing = record {
  buffer = record {
    read_idx = 0;
    write_idx = 0;
    sz = 0;
    p_sz = 0;
    buf = [];
    refcount = 0;
    src = none;
    cache = none;
  };
  use_of = freed;
}

abbrev pub Store : Type 0
Store = List Cell

abbrev pub at : Store → ℕ → Cell
at h a = get_or h a nothing

abbrev pub allocated : Use → Buffer → Option Buffer
allocated in_use b = some b
allocated kept b = some b
allocated freed b = none

abbrev pub object : Store → ℕ → Option Buffer
object h a = allocated (at h a).use_of (at h a).buffer

abbrev pub put : Store → ℕ → Buffer → Use → Store
put h a b u = set h a (record { buffer = b; use_of = u })

-- a change of an object that its owner keeps
abbrev pub update : Store → ℕ → Buffer → Store
update h a b = put h a b (at h a).use_of

abbrev pub free : Store → ℕ → Option Store
free h a = do b ← object h a; some (put h a b freed)

-- a call of calloc for an object; `room` says whether there is memory, of which there is less than 2 ^ 63
abbrev pub alloc : Bool → Store → Buffer → Option ℕ × Store
alloc room h b =
    if room && ltb (length h) (2 ^ 63)
    then (some (length h), h ++ (record { buffer = b; use_of = in_use } ∷ []))
    else (none, h)

-- the end of `buf_release` for a view `a` of s
abbrev pub keep_or_free : Store → ℕ → Buffer → ℕ → Buffer → Option ℕ → Option Store
keep_or_free h a b s source none =
    some (put (update h s (record source { cache = some a })) a b kept)
keep_or_free h a b s source (some k) = free (update h s source) a

-- the cache of a buffer that is freed
abbrev pub free_cache : Store → Option ℕ → Option Store
free_cache h none = some h
free_cache h (some k) = free h k

abbrev pub release_from : Store → ℕ → Buffer → Option ℕ → Option Store
release_from h a b (some s) = do
  source ← object h s
  keep_or_free h a b s (record source { refcount = (source.refcount + 2 ^ 64 - 1) % 2 ^ 64 })
      source.cache
release_from h a b none = do h ← free_cache h b.cache; free h a

-- `buf_release`
unfoldable pub release : Store → ℕ → Option Store
release h a = do b ← object h a; guard (b.refcount == 0); release_from h a b b.src

-- a view of the first n bytes that b, at the address a, holds
abbrev pub view_of : ℕ → Buffer → ℕ → Buffer
view_of a b n = record {
  read_idx = 0;
  write_idx = n;
  sz = n;
  p_sz = 0;
  buf = slice b.buf (peek b) n;
  refcount = 0;
  src = some a;
  cache = none;
}

abbrev pub one_view_more : Buffer → Buffer
one_view_more b = record b { refcount = (b.refcount + 1) % 2 ^ 64; cache = none }

abbrev pub after_alloc : ℕ → Buffer → Option ℕ × Store → Option ℕ × Store
after_alloc a b (none, h) = (none, h)
after_alloc a b (some v, h) = (some v, update h a (one_view_more b))

-- the object in the cache, or a new one
abbrev pub view_object : Bool → Store → ℕ → Buffer → ℕ → Option ℕ → Option (Option ℕ × Store)
view_object room h a b n (some k) = do
  old ← object h k
  some (some k, put (update h a (one_view_more b)) k (view_of a b n) in_use)
view_object room h a b n none = some (after_alloc a b (alloc room h (view_of a b n)))

-- `buf_readonlyView`
unfoldable pub readonly_view : Bool → Store → ℕ → ℕ → Option (Option ℕ × Store)
readonly_view room h a sz = do
  guard (not (sle32 sz 0))
  b ← object h a
  view_object room h a b (if ltb (readable b) sz then readable b else sz) b.cache

-- a buffer that buf_create_ex returned is put into the store
abbrev pub store_created : Store → Option Buffer → Option ℕ × Store
store_created h none = (none, h)
store_created h (some b) = alloc true h b

unfoldable pub create : Store → ℕ → ℕ → Bool → Bool → Option (Option ℕ × Store)
create h size prepend_size got_struct got_block = do
  made ← create_ex size prepend_size got_struct got_block
  some (store_created h made)
