-- ===== src/Buffer/Front.antt =====
-- base/buffer.c at the front: `buf_retrieve` takes bytes away, `buf_prepend` puts bytes in front.
use wee.Base.{
  ℕ, ◌+◌, ◌-◌, ◌≤◌, ◌<◌, ◌≡◌, ◌≢◌, refl, ap, ap₂, sym, ◌∙◌, none, some, length, arith, ◌++◌,
  length-append, [], ◌∷◌,
}
use wee.Base.Memory.{
  Bytes, slice, blit, length-blit, length-slice, slice-add, slice-blit_self, slice-blit_after,
  slice-split, slice-zero,
}
use native.Mathlib.Decide.{dec_lt}
use wee.Buffer.{Buffer, readable, retrieve, prepend, prependable, peek, retrieve_as_string}
use wee.Buffer.Valid.{IsValid, readable_lem}
use wee.Buffer.Content.{contents}

-- The buffer that is left when the bytes in front of `rest` are gone: where nothing is left both
-- indices stand behind the room in front, otherwise the write index stays.
pub record Left (b : Buffer) (rest : Bytes) (b' : Buffer) : Type 0 where
  pub valid : IsValid b'
  pub bytes : contents b' ≡ rest
  pub reset : rest ≡ [] → (b'.read_idx ≡ b'.p_sz) × (b'.write_idx ≡ b'.p_sz)
  pub kept_write_idx : rest ≢ [] → b'.write_idx ≡ b.write_idx
  pub kept_p_sz : b'.p_sz ≡ b.p_sz
  pub front : b.p_sz ≤ b.read_idx → b'.p_sz ≤ b'.read_idx
  pub kept_src : b'.src ≡ b.src
  pub kept_refcount : b'.refcount ≡ b.refcount

module _ {b : Buffer} (d rest : Bytes) (v : IsValid b) (e : contents b ≡ d ++ rest) where
  -- The bytes that a buffer begins with and those behind them, as offsets into its block.
  pub held : length d + length rest ≡ b.write_idx - b.read_idx
  held =
      sym (length-append d rest)
      ∙ ap length (sym e)
      ∙ length-slice b.buf b.read_idx (b.write_idx - b.read_idx) (omega arith)

  parts :
      (slice b.buf b.read_idx (length d) ≡ d)
      × (slice b.buf (b.read_idx + length d) (length rest) ≡ rest)
  parts =
      slice-split b.buf b.read_idx (length d) (length rest) d rest (omega (arith, held)) refl
        (ap (slice b.buf b.read_idx) held ∙ e)

  -- What a read of as many bytes at `buf_peek` sees.
  pub slice-peek : slice b.buf (peek b) (length d) ≡ d
  unfolding peek
  slice-peek = parts.0

  pub le-readable : length d ≤ readable b
  le-readable = rw (readable_lem v) (omega (arith, held))

  advance :
      length d < b.write_idx - b.read_idx
      → (b' : Buffer) × (retrieve b (length d) ≡ some b') × Left b rest b'
  unfolding retrieve
  advance h = (
    record b { read_idx = b.read_idx + length d },
    ground arith,
    record {
      valid = record {
        ordered = omega arith;
        within = v.within;
        whole = v.whole;
        small = v.small;
        front = v.front;
      };
      bytes = ap (slice b.buf (b.read_idx + length d)) (omega (arith, held)) ∙ parts.1;
      reset = λ none_left. absurd (omega (arith, held, h, ap length none_left));
      kept_write_idx = λ some_left. refl;
      kept_p_sz = refl;
      front = λ f. omega arith;
      kept_src = refl;
      kept_refcount = refl;
    },
  )

  reset :
      b.write_idx - b.read_idx ≤ length d
      → (b' : Buffer) × (retrieve b (length d) ≡ some b') × Left b rest b'
  unfolding retrieve
  reset h = (
    record b { read_idx = b.p_sz; write_idx = b.p_sz },
    ground (arith, held),
    record {
      valid = record {
        ordered = omega arith;
        within = v.front;
        whole = v.whole;
        small = v.small;
        front = v.front;
      };
      bytes = ap (slice b.buf b.p_sz) (omega arith) ∙ slice-zero b.buf b.p_sz ∙ sym none_left;
      reset = λ e. (refl, refl);
      kept_write_idx = λ some_left. absurd (some_left none_left);
      kept_p_sz = refl;
      front = λ f. omega arith;
      kept_src = refl;
      kept_refcount = refl;
    },
  )
    where
      empty : (xs : Bytes) → length xs ≡ 0 → xs ≡ []
      empty [] p = refl
      empty (x ∷ xs) p = absurd (omega arith)

      none_left : rest ≡ []
      none_left = empty rest (omega (arith, held))

  -- `buf_retrieve` of bytes that a valid buffer begins with succeeds and leaves the rest: the buffer
  -- stays valid and holds exactly the rest, its source and count are kept, as is the room in front if
  -- it was whole; both indices are set to the size of that room where nothing is left, and the write
  -- index stays where something is.
  pub retrieve-Left : (b' : Buffer) × (retrieve b (length d) ≡ some b') × Left b rest b'
  retrieve-Left = elim (dec_lt (length d) (b.write_idx - b.read_idx)) [
    | yes h ↦ advance h
    | no h ↦ reset (omega arith)
  ]

  -- `buf_retrieveAsString` hands over the bytes that a valid buffer begins with, and leaves the rest.
  pub retrieve_as_string-Left :
      (b' : Buffer) × (retrieve_as_string b (length d) ≡ some (d, b')) × Left b rest b'
  unfolding retrieve_as_string
  retrieve_as_string-Left = let (b', r, l) = retrieve-Left in (b', rw (r, slice-peek) refl, l)

-- `buf_retrieve` of more bytes than are held fails its assertion.
pub retrieve_too_much : (b : Buffer) (n : ℕ) → readable b < n → retrieve b n ≡ none
unfolding retrieve
retrieve_too_much b n h = ground arith

abbrev prepended : Buffer → Bytes → Buffer
prepended b d = record b {
  read_idx = b.read_idx - length d;
  buf = blit b.buf (b.read_idx - length d) d;
}

contents-prepended :
    (b : Buffer) (d : Bytes)
    → IsValid b
    → length d ≤ b.read_idx
    → contents (prepended b d) ≡ d ++ contents b
contents-prepended b d v h =
    ap (slice m i) (omega arith)
    ∙ slice-add m i (length d) n
    ∙ ap₂ ◌++◌ (slice-blit_self b.buf i d (omega arith)) (
        ap (λ j. slice m j n) (omega arith) ∙ slice-blit_after b.buf i d b.read_idx n (omega arith))
  where
    i : ℕ
    i = b.read_idx - length d

    m : Bytes
    m = blit b.buf i d

    n : ℕ
    n = b.write_idx - b.read_idx

-- What `buf_prepend` leaves: `d` in front of the bytes held, and that much less room in front.
pub record Prepended (b : Buffer) (d : Bytes) (b' : Buffer) : Type 0 where
  pub valid : IsValid b'
  pub bytes : contents b' ≡ d ++ contents b
  pub room : b'.read_idx + length d ≡ b.read_idx
  pub kept_p_sz : b'.p_sz ≡ b.p_sz
  pub kept_sz : b'.sz ≡ b.sz
  pub kept_src : b'.src ≡ b.src
  pub kept_refcount : b'.refcount ≡ b.refcount

-- `buf_prepend` into the room in front of a valid buffer succeeds and puts exactly `d` before the
-- bytes held; the room in front shrinks by the length of `d`.
pub prepend-Prepended :
    {b : Buffer} (d : Bytes)
    → IsValid b
    → length d ≤ prependable b
    → (b' : Buffer) × (prepend b d ≡ some b') × Prepended b d b'
unfolding prepend
prepend-Prepended {b} d v h = (
  prepended b d,
  ground arith,
  record {
    valid = record {
      ordered = omega arith;
      within = v.within;
      whole = length-blit b.buf (b.read_idx - length d) d ∙ v.whole;
      small = v.small;
      front = v.front;
    };
    bytes = contents-prepended b d v h;
    room = omega arith;
    kept_p_sz = refl;
    kept_sz = refl;
    kept_src = refl;
    kept_refcount = refl;
  },
)
