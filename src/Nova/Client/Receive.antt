-- ===== src/Nova/Client/Receive.antt =====
-- How nova_client/nova.c puts a message together that arrives in any pieces.
use wee.Base.{
  ℕ, ◌+◌, ◌<◌, ◌≤◌, ◌≡◌, refl, sym, ap, ◌∙◌, false, Bool-cases, inl, inr, Option, some, zero, suc,
  [], ◌++◌, length, length-append, append_assoc, append-nil, ltb, ltb→lt, le→ltb_false, Returns,
  Returns-bind, Returns-then, Returns-else, arith,
}
use wee.Base.Memory.{Bytes}
use wee.Base.Word.{max_size}
use wee.Buffer.{Buffer, readable, write_locked}
use wee.Buffer.Valid.{IsValid, writable_lem}
use wee.Buffer.Content.{contents, length-contents}
use wee.Buffer.Chain.{Holds, write_locked_of_kept}
use wee.Buffer.Fifo.{Appended}
use wee.Buffer.ReadFd.{read_fd, offered, extrabuf_size}
use wee.Buffer.Received.{read_fd-Appended}
use wee.Nova.Client.{after_first, first_read, after_rest, rest_read}

-- What a call of readv brings of a stream: some bytes where there are any.
pub record Brings {W : Type 0} (incoming : W → Bytes) (n : ℕ) (w : W) (r : Option Bytes × W)
    : Type 0 where
  pub bytes : Bytes
  pub is_bytes : r.0 ≡ some bytes
  pub within : length bytes ≤ n
  pub stream : incoming w ≡ bytes ++ incoming r.1
  pub progress : 0 < n → 0 < length (incoming w) → 0 < length bytes

pub offered_large : {b : Buffer} → IsValid b → b.sz + extrabuf_size < max_size → 4 ≤ offered b
unfolding offered
offered_large {b} v h = ground (arith, writable_lem v)

module _ {W : Type 0} (readv : ℕ → ℕ → W → Option Bytes × W) (incoming : W → Bytes) (fd : ℕ)
    (brings : (n : ℕ) (w : W) → Brings incoming n w (readv fd n w)) (message : Bytes) where
  -- A buffer and a stream that are together the message.
  pub record Splits (b : Buffer) (w : W) : Type 0 where
    pub valid : IsValid b
    pub front : b.p_sz ≤ b.read_idx
    pub free : write_locked b ≡ false
    pub bytes : contents b ++ incoming w ≡ message
    pub small : b.sz + length (incoming w) + extrabuf_size < max_size

  Splits-length :
      {b : Buffer} {w : W} → Splits b w → readable b + length (incoming w) ≡ length message
  Splits-length {b} {w} s =
      omega
        (arith, length-contents s.valid, ap length s.bytes, length-append (contents b) (incoming w))

  Splits-step :
      {b b' : Buffer} {w : W} (x : Brings incoming (offered b) w (readv fd (offered b) w))
      → Splits b w
      → Appended b x.bytes b'
      → Splits b' (readv fd (offered b) w).1
  Splits-step {b} {b'} {w} x s a = record {
    valid = a.valid;
    front = a.front;
    free = write_locked_of_kept b b' a.kept_src a.kept_refcount ∙ s.free;
    bytes =
        ap (λ c. c ++ incoming (readv fd (offered b) w).1) a.bytes
        ∙ append_assoc (contents b) x.bytes (incoming (readv fd (offered b) w).1)
        ∙ ap (λ c. contents b ++ c) (sym x.stream)
        ∙ s.bytes;
    small = omega (
      arith,
      s.small,
      a.size,
      ap length x.stream,
      length-append x.bytes (incoming (readv fd (offered b) w).1),
    );
  }

  -- One call of buf_readFd: a buffer with some of the stream behind what it held.
  one_read :
      {b : Buffer} {w : W}
      → Splits b w
      → (b' : Buffer) × (read_fd (readv fd (offered b) w).0 0 b
          ≡ some (some (length (brings (offered b) w).bytes), 0, b'))
        × Splits b' (readv fd (offered b) w).1
        × (readable b' ≡ readable b + length (brings (offered b) w).bytes)
  one_read {b} {w} s =
      let x = brings (offered b) w in
      let (b', q, a) =
        read_fd-Appended {b = b} x.bytes 0 s.valid s.front s.free (omega (arith, s.small))
          x.within in
      (
        b',
        ap (λ g. read_fd g 0 b) x.is_bytes ∙ q,
        Splits-step x s a,
        omega (
          arith,
          length-contents s.valid,
          length-contents a.valid,
          ap length a.bytes,
          length-append (contents b) x.bytes,
        ),
      )

  -- The whole message in a buffer.
  pub record Whole (r : Option Buffer × W) : Type 0 where
    pub buffer : Buffer
    pub is_buffer : r.0 ≡ some buffer
    pub holds : Holds buffer message

  done_reading : {b : Buffer} {w : W} → Splits b w → length message ≤ readable b → Whole (some b, w)
  done_reading {b} {w} s h = record {
    buffer = b;
    is_buffer = refl;
    holds = record {
      valid = s.valid;
      bytes =
          sym (append-nil (contents b))
          ∙ ap (λ c. contents b ++ c) (sym (nil (incoming w) (omega (arith, h, Splits-length s))))
          ∙ s.bytes;
    };
  }
    where
      nil : (xs : Bytes) → length xs ≡ 0 → xs ≡ []
      nil xs e = ground arith

  pub rest_read-Whole :
      (fuel : ℕ) (b : Buffer) (w : W)
      → Splits b w
      → length (incoming w) < fuel
      → Returns (rest_read readv fuel fd (length message) b w) Whole
  unfolding rest_read
  rest_read-Whole zero b w s h = absurd (omega arith)
  rest_read-Whole (suc fuel) b w s h = elim (Bool-cases (ltb (readable b) (length message))) [
    | inl more ↦
        let (b', q, s', len) = one_read s in
        Returns-then (ltb (readable b) (length message)) _ _ more (
          Returns-bind (after_rest readv (rest_read readv fuel fd (length message)) b _) q (
            rest_read-Whole fuel b' (readv fd (offered b) w).1 s' (
              omega (
                arith,
                h,
                Splits-length s,
                Splits-length s',
                len,
                (brings (offered b) w).progress,
                offered_large s.valid (omega (arith, s.small)),
                ltb→lt (readable b) (length message) more,
              ))))
    | inr enough ↦
        Returns-else (ltb (readable b) (length message)) _ _ enough
          (record { value = (some b, w); is_value = refl; holds = done_reading s (ground arith) })
  ]

  -- what the first reading leaves, where it brings at least four bytes
  pub record Begun (r : Option Buffer × W) : Type 0 where
    pub buffer : Buffer
    pub is_buffer : r.0 ≡ some buffer
    pub splits : Splits buffer r.1
    pub four : 4 ≤ readable buffer

  pub first_read-Begun :
      (fuel : ℕ) (b : Buffer) (w : W)
      → Splits b w
      → ((n : ℕ) → 4 ≤ n → 4 ≤ length (brings n w).bytes)
      → Returns (first_read readv (suc fuel) fd b w) Begun
  unfolding first_read
  first_read-Begun fuel b w s prompt =
      let x = brings (offered b) w in
      let (b', q, s', len) = one_read s in
      let long : 4 ≤ length x.bytes =
        prompt (offered b) (offered_large s.valid (omega (arith, s.small))) in
      Returns-bind (after_first readv (first_read readv fuel fd) b (readv fd (offered b) w).1) q (
        Returns-else (ltb (length x.bytes) 4) _ _ (le→ltb_false (length x.bytes) 4 long) (record {
          value = (some b', (readv fd (offered b) w).1);
          is_value = refl;
          holds = record {
            buffer = b';
            is_buffer = refl;
            splits = s';
            four = omega (arith, len, long);
          };
        }))
