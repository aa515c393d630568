-- ===== src/Buffer/Received.antt =====
-- `buf_readFd` of base/buffer.c keeps what readv brings, whether or not it fits the block.
use wee.Base.{
  ℕ, ◌+◌, ◌≤◌, ◌<◌, ◌≡◌, refl, ap, subst, ◌∙◌, true, false, Bool-cases, inl, inr, some, length, leb,
  leb→le, take, drop, take-append-drop, length-take_of_le, length-drop, append_assoc, ◌++◌, arith,
}
use wee.Base.Memory.{Bytes, blit}
use wee.Base.Word.{add_size, max_size}
use wee.Buffer.{Buffer, writable, write_locked, fill, begin_write}
use wee.Buffer.Valid.{IsValid, writable_lem}
use wee.Buffer.Content.{contents}
use wee.Buffer.Fifo.{Appended, written, written-Appended, append-Appended}
use wee.Buffer.ReadFd.{read_fd, offered, extrabuf_size}

module _ {b : Buffer} (d : Bytes) (errno : ℕ) (v : IsValid b) (front : b.p_sz ≤ b.read_idx)
    (free : write_locked b ≡ false) (small : b.sz + extrabuf_size < max_size) where
  fits :
      leb (length d) (writable b) ≡ true
      → (b' : Buffer) × (read_fd (some d) errno b ≡ some (some (length d), errno, b'))
        × Appended b d b'
  unfolding read_fd fill begin_write
  fits e = (written b d, rw (free, e, add) refl, written-Appended {b = b} d v front room)
    where
      room : b.write_idx + length d ≤ b.sz
      room = omega (arith, leb→le (length d) (writable b) e, writable_lem v, v.within)

      add : add_size b.write_idx (length d) ≡ b.write_idx + length d
      add = omega (arith, room, v.small)

  -- the block filled to its end, as `buf_readFd` leaves it before it appends the rest
  full : Buffer
  full = record b { buf = blit b.buf b.write_idx (take (writable b) d); write_idx = b.sz }

  full-eq : writable b ≤ length d → written b (take (writable b) d) ≡ full
  unfolding full
  full-eq h =
      ap (λ i. record b { buf = blit b.buf b.write_idx (take (writable b) d); write_idx = i })
        (omega (arith, length-take_of_le (writable b) d h, writable_lem v, v.within))

  full-Appended : writable b ≤ length d → Appended b (take (writable b) d) full
  full-Appended h = subst (Appended b (take (writable b) d)) (full-eq h) (
      written-Appended {b = b} (take (writable b) d) v front
        (omega (arith, length-take_of_le (writable b) d h, writable_lem v, v.within)))

  spills :
      leb (length d) (writable b) ≡ false
      → length d ≤ writable b + extrabuf_size
      → (b' : Buffer) × (read_fd (some d) errno b ≡ some (some (length d), errno, b'))
        × Appended b d b'
  unfolding read_fd fill begin_write full
  spills e le =
      let h : writable b ≤ length d = ground arith in
      let f = full-Appended h in
      let (b', q, a) =
        append-Appended {b = full} (drop (writable b) d) f.valid f.front
          (unfold write_locked in free) (omega (arith, length-drop (writable b) d, le, small)) in
      (
        b',
        rw (free, e, q) refl,
        record {
          valid = a.valid;
          front = a.front;
          bytes =
              a.bytes
              ∙ ap (λ xs. xs ++ drop (writable b) d) f.bytes
              ∙ append_assoc (contents b) (take (writable b) d) (drop (writable b) d)
              ∙ ap (λ xs. contents b ++ xs) (take-append-drop (writable b) d);
          no_further =
              omega (arith, a.no_further, length-drop (writable b) d, writable_lem v, h, v.within);
          size = omega (arith, a.size, length-drop (writable b) d);
          kept_src = a.kept_src ∙ f.kept_src;
          kept_refcount = a.kept_refcount ∙ f.kept_refcount;
        },
      )

  within : length d ≤ offered b → length d ≤ writable b + extrabuf_size
  unfolding offered
  within h = ground (arith, h, writable_lem v, small)

-- For a valid, unlocked buffer whose front room is unused and whose block ends 65535 bytes below the
-- largest size: `buf_readFd` of no more bytes than it offers room for returns their number, and
-- puts exactly these bytes behind those that are held, whether they fit the block or overflow into the
-- array on the stack.
pub read_fd-Appended :
    {b : Buffer} (d : Bytes) (errno : ℕ)
    → IsValid b
    → b.p_sz ≤ b.read_idx
    → write_locked b ≡ false
    → b.sz + extrabuf_size < max_size
    → length d ≤ offered b
    → (b' : Buffer) × (read_fd (some d) errno b ≡ some (some (length d), errno, b'))
      × Appended b d b'
read_fd-Appended {b} d errno v front free small h =
    elim (Bool-cases (leb (length d) (writable b))) [
      | inl e ↦ fits d errno v front free small e
      | inr e ↦ spills d errno v front free small e (within d errno v front free small h)
    ]
