-- ===== src/Buffer/Chain.antt =====
-- Chains of calls on one buffer of base/buffer.c, as the codecs make them: one step each.
use wee.Base.{
  ℕ, ◌+◌, ◌-◌, ◌^◌, ◌≤◌, ◌<◌, ◌≡◌, refl, ap, ap₂, sym, ◌∙◌, Option, some, none, false, true, length,
  ◌++◌, arith, ◌||◌, ltb, is_some, replicate, length-replicate, [], Returns, Returns-bind, ◌>>=◌,
}
use wee.Base.Memory.{Bytes, slice, slice-zero}
use wee.Base.Word.{max_size}
use wee.Buffer.{
  Buffer, create_ex, peek, prependable, writable, append, readable, retrieve, write_locked,
  retrieve_as_string,
}
use wee.Buffer.Valid.{IsValid, readable_lem}
use wee.Buffer.Content.{contents, length-contents}
use wee.Buffer.Fifo.{Appended, append-Appended}
use wee.Buffer.Front.{retrieve-Left, retrieve_as_string-Left}
use wee.Buffer.Words.{
  Kind, width, append_as, read_as, bytes_as, append_as-Appended, read_as-Left, length-bytes_as,
}

-- A buffer that takes n more bytes.
pub record Takes (b : Buffer) (n : ℕ) : Type 0 where
  pub valid : IsValid b
  pub front : b.p_sz ≤ b.read_idx
  pub free : write_locked b ≡ false
  pub space : b.write_idx + n < max_size
  pub block : b.sz + n < max_size

pub Takes-le : {b : Buffer} (m n : ℕ) → n ≤ m → Takes b m → Takes b n
Takes-le m n h t = record {
  valid = t.valid;
  front = t.front;
  free = t.free;
  space = omega (arith, t.space, h);
  block = omega (arith, t.block, h);
}

-- A valid buffer that holds exactly `d`.
pub record Holds (b : Buffer) (d : Bytes) : Type 0 where
  pub valid : IsValid b
  pub bytes : contents b ≡ d

pub write_locked_of_kept :
    (b b' : Buffer) → b'.src ≡ b.src → b'.refcount ≡ b.refcount → write_locked b' ≡ write_locked b
unfolding write_locked
write_locked_of_kept b b' s r = ap₂ (λ x y. is_some x || ltb 0 y) s r

pub Appended-Takes :
    {b b' : Buffer} (d : Bytes) (k m : ℕ)
    → Takes b m
    → k ≤ m
    → length d ≡ k
    → Appended b d b'
    → Takes b' (m - k)
Appended-Takes {b} {b'} d k m t le h a = record {
  valid = a.valid;
  front = a.front;
  free = write_locked_of_kept b b' a.kept_src a.kept_refcount ∙ t.free;
  space = omega (arith, a.no_further, t.space);
  block = omega (arith, a.size, t.block);
}

-- The last `buf_append` of a chain.
pub append_last :
    {b : Buffer} (d old : Bytes) (m : ℕ)
    → Takes b m
    → length d ≤ m
    → contents b ≡ old
    → (b' : Buffer) × (append b d ≡ some b') × Takes b' (m - length d) × (contents b' ≡ old ++ d)
append_last {b} d old m t le h =
    let (b', e, a) = append-Appended {b = b} d t.valid t.front t.free (omega (arith, t.space)) in
    (b', e, Appended-Takes d (length d) m t le refl a, a.bytes ∙ ap (λ xs. xs ++ d) h)

-- The last integer of a chain.
pub append_as_last :
    {b : Buffer} (k : Kind) (x : ℕ) (old : Bytes) (m : ℕ)
    → Takes b m
    → width k ≤ m
    → contents b ≡ old
    → (b' : Buffer) × (append_as k b x ≡ some b')
      × Takes b' (m - width k)
      × (contents b' ≡ old ++ bytes_as k x)
append_as_last {b} k x old m t le h =
    let (b', e, a) =
      append_as-Appended {b = b} k x t.valid t.front t.free (omega (arith, t.space)) in
    (
      b',
      e,
      Appended-Takes (bytes_as k x) (width k) m t le (length-bytes_as k x) a,
      a.bytes ∙ ap (λ xs. xs ++ bytes_as k x) h,
    )

-- Each lemma below makes one call of a chain, and hands the buffer that it leaves to the rest.
module _ {A : Type 0} {P : A → Type 0} {b : Buffer} where
  pub append_then :
      (f : Buffer → Option A) (d old : Bytes) (m : ℕ)
      → Takes b m
      → length d ≤ m
      → contents b ≡ old
      → ((b' : Buffer) → Takes b' (m - length d) → contents b' ≡ old ++ d → Returns (f b') P)
      → Returns (append b d >>= f) P
  append_then f d old m t le h rest =
      let (b', e, a) = append-Appended {b = b} d t.valid t.front t.free (omega (arith, t.space)) in
      Returns-bind f e
        (rest b' (Appended-Takes d (length d) m t le refl a) (a.bytes ∙ ap (λ xs. xs ++ d) h))

  pub append_as_then :
      (f : Buffer → Option A) (k : Kind) (x : ℕ) (old : Bytes) (m : ℕ)
      → Takes b m
      → width k ≤ m
      → contents b ≡ old
      → ((b' : Buffer)
          → Takes b' (m - width k)
          → contents b' ≡ old ++ bytes_as k x
          → Returns (f b') P)
      → Returns (append_as k b x >>= f) P
  append_as_then f k x old m t le h rest =
      let (b', e, a) =
        append_as-Appended {b = b} k x t.valid t.front t.free (omega (arith, t.space)) in
      Returns-bind f e (
        rest b' (Appended-Takes (bytes_as k x) (width k) m t le (length-bytes_as k x) a)
          (a.bytes ∙ ap (λ xs. xs ++ bytes_as k x) h))

  pub read_as_then :
      (f : ℕ × Buffer → Option A) (k : Kind) (x : ℕ) (tail : Bytes)
      → x < 256 ^ width k
      → Holds b (bytes_as k x ++ tail)
      → ((b' : Buffer) → Holds b' tail → Returns (f (x, b')) P)
      → Returns (read_as k b >>= f) P
  read_as_then f k x tail h s rest =
      let (b', e, l) = read_as-Left {b = b} k x tail s.valid h s.bytes in
      Returns-bind f e (rest b' (record { valid = l.valid; bytes = l.bytes }))

  pub retrieve_as_string_then :
      (f : Bytes × Buffer → Option A) (n : ℕ) (d tail : Bytes)
      → n ≡ length d
      → Holds b (d ++ tail)
      → ((b' : Buffer) → Holds b' tail → Returns (f (d, b')) P)
      → Returns (retrieve_as_string b n >>= f) P
  retrieve_as_string_then f n d tail h s rest =
      let (b', e, l) = retrieve_as_string-Left {b = b} d tail s.valid s.bytes in
      Returns-bind f (ap (retrieve_as_string b) h ∙ e)
        (rest b' (record { valid = l.valid; bytes = l.bytes }))

  pub retrieve_then :
      (f : Buffer → Option A) (d tail : Bytes)
      → Holds b (d ++ tail)
      → ((b' : Buffer) → Holds b' tail → Returns (f b') P)
      → Returns (retrieve b (length d) >>= f) P
  retrieve_then f d tail s rest =
      let (b', e, l) = retrieve-Left {b = b} d tail s.valid s.bytes in
      Returns-bind f e (rest b' (record { valid = l.valid; bytes = l.bytes }))

-- What is read at `buf_peek`, for as long as the buffer is readable.
pub slice-Holds : {b : Buffer} (d : Bytes) → Holds b d → slice b.buf (peek b) (readable b) ≡ d
unfolding peek
slice-Holds {b} d s = ap (slice b.buf b.read_idx) (readable_lem s.valid) ∙ s.bytes

-- What a buffer holds is as long as what it can be read for.
pub readable_of_Holds : {b : Buffer} (d : Bytes) → Holds b d → readable b ≡ length d
readable_of_Holds d s = sym (length-contents s.valid) ∙ ap length s.bytes

-- A buffer that is created is empty and unlocked, and takes as many bytes as its addresses allow.
pub create_ex-Takes :
    (size prepend_size n : ℕ)
    → 0 < size
    → size + prepend_size < max_size
    → size + prepend_size + n < max_size
    → (b : Buffer) × (create_ex size prepend_size true true ≡ some (some b))
      × Takes b n
      × Holds b []
      × (prependable b ≡ prepend_size)
      × (writable b ≡ size)
unfolding create_ex write_locked prependable writable
create_ex-Takes size p n pos h room = (
  record {
    read_idx = p;
    write_idx = p;
    sz = size + p;
    p_sz = p;
    buf = replicate (size + p) 0;
    refcount = 0;
    src = none;
    cache = none;
  },
  ground arith,
  record { valid = valid; front = omega arith; free = refl; space = omega arith; block = room },
  record { valid = valid; bytes = ap (slice _ p) (omega arith) ∙ slice-zero _ p },
  refl,
  omega arith,
)
  where
    valid : IsValid (record {
      read_idx = p;
      write_idx = p;
      sz = size + p;
      p_sz = p;
      buf = replicate (size + p) 0;
      refcount = 0;
      src = none;
      cache = none;
    })
    valid = record {
      ordered = omega arith;
      within = omega arith;
      whole = length-replicate (size + p) 0;
      small = h;
      front = omega arith;
    }
