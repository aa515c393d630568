-- ===== src/Sniff/RoundTrip.antt =====
-- Options that a TCP header can carry, and what `tcp_parse_recv_options` of net/sniff.c reads of them.
use wee.Base.{
  ℕ, zero, suc, ◌+◌, ◌-◌, ◌^◌, ◌<◌, ◌≡◌, ◌≢◌, refl, ap, ap₂, sym, ◌∙◌, true, some, List, [], ◌∷◌,
  ◌++◌, All, drop, take, take-length, take-length-append, drop-length-append, length, length-append,
  append_assoc, arith,
}
use wee.Base.Memory.{Bytes, slice}
use wee.Base.Endian.{of_be, be_bytes, of_be-be_bytes, length-be_bytes}
use wee.Sniff.{
  TcpOpt, finished, again, go_on, option_value, at_ptr, sized_option, scan_round, scan_options,
}

-- an option of RFC 793, 7323 and 2018; `other` is any that the sniffer does not read
pub data Opt : Type 0 where
  nop : Opt
  mss : ℕ → Opt
  window : ℕ → Opt
  sack_perm : Opt
  timestamp : ℕ → ℕ → Opt
  other : ℕ → Bytes → Opt

abbrev pub encode : Opt → Bytes
encode nop = 1 ∷ []
encode (mss v) = 2 ∷ 4 ∷ be_bytes 2 v
encode (window v) = 3 ∷ 3 ∷ be_bytes 1 v
encode sack_perm = 4 ∷ 2 ∷ []
encode (timestamp v e) = 8 ∷ 10 ∷ (be_bytes 4 v ++ be_bytes 4 e)
encode (other kind body) = kind ∷ (length body + 2) ∷ body

abbrev pub IsOpt : Opt → Type 0
IsOpt nop = Unit
IsOpt (mss v) = v < 2 ^ 16
IsOpt (window v) = v < 2 ^ 8
IsOpt sack_perm = Unit
IsOpt (timestamp v e) = (v < 2 ^ 32) × (e < 2 ^ 32)
IsOpt (other kind body) = (1 < kind) × (kind ≢ 2) × (kind ≢ 3) × (kind ≢ 4) × (kind ≢ 8)

abbrev pub encode_all : List Opt → Bytes
encode_all [] = []
encode_all (o ∷ os) = encode o ++ encode_all os

abbrev pub noted : Opt → TcpOpt → TcpOpt
noted (mss v) t = record t { mss_clamp = v }
noted (window v) t = record t { snd_wscale = v }
noted sack_perm t = record t { sack_ok = 1 }
noted (timestamp v e) t = record t { rcv_tsval = v; rcv_tsecr = e }
noted _ t = t

abbrev pub noted_all : List Opt → TcpOpt → TcpOpt
noted_all [] t = t
noted_all (o ∷ os) t = noted_all os (noted o t)

pub length-encode_pos : (o : Opt) → 0 < length (encode o)
length-encode_pos nop = omega arith
length-encode_pos (other kind body) = omega arith
length-encode_pos _ = omega arith

slice-front : (n : ℕ) (d rest : Bytes) → n ≡ length d → slice (d ++ rest) 0 n ≡ d
unfolding slice
slice-front n d rest e = ap (λ k. take k (d ++ rest)) e ∙ take-length-append d rest

at_ptr-front : (n : ℕ) (d rest : Bytes) → n ≡ length d → at_ptr (d ++ rest) n ≡ some d
at_ptr-front n d rest e = ground (arith, length-append d rest, slice-front n d rest e)

at_ptr-be_bytes : (w v : ℕ) (rest : Bytes) → at_ptr (be_bytes w v ++ rest) w ≡ some (be_bytes w v)
at_ptr-be_bytes w v rest = at_ptr-front w (be_bytes w v) rest (sym (length-be_bytes w v))

-- A round over an option with a size, whatever its value.
round-sized :
    (op sz n : ℕ) (body rest : Bytes) (t : TcpOpt) {t' : TcpOpt}
    → 1 < op
    → sz ≡ length body + 2
    → option_value op sz (body ++ rest) t ≡ some t'
    → scan_round (op ∷ sz ∷ (body ++ rest)) (suc (suc (length body)) + n) t ≡ again rest n t'
unfolding scan_round sized_option
round-sized op sz n body rest t big e value = ground (arith, value, behind, left)
  where
    behind : drop (sz - 2) (body ++ rest) ≡ rest
    behind = ap (λ k. drop k (body ++ rest)) (omega arith) ∙ drop-length-append body rest

    left : suc (suc (length body)) + n - sz ≡ n
    left = omega arith

value_mss :
    (v : ℕ) (rest : Bytes) (t : TcpOpt)
    → v < 2 ^ 16
    → option_value 2 4 (be_bytes 2 v ++ rest) t ≡ some (record t { mss_clamp = v })
unfolding option_value
value_mss v rest t h = rw (at_ptr-be_bytes 2 v rest) (rw (of_be-be_bytes 2 v (omega arith)) refl)

value_window :
    (v : ℕ) (rest : Bytes) (t : TcpOpt)
    → v < 2 ^ 8
    → option_value 3 3 (be_bytes 1 v ++ rest) t ≡ some (record t { snd_wscale = v })
unfolding option_value
value_window v rest t h = rw (at_ptr-be_bytes 1 v rest) (rw (of_be-be_bytes 1 v (omega arith)) refl)

-- the two words of a timestamp
both : (v e : ℕ) → length (be_bytes 4 v ++ be_bytes 4 e) ≡ 8
both v e =
    omega
      (arith, length-append (be_bytes 4 v) (be_bytes 4 e), length-be_bytes 4 v, length-be_bytes 4 e)

first_word : (v e : ℕ) → v < 2 ^ 32 → of_be (slice (be_bytes 4 v ++ be_bytes 4 e) 0 4) ≡ v
first_word v e h =
    ap of_be (slice-front 4 (be_bytes 4 v) (be_bytes 4 e) (sym (length-be_bytes 4 v)))
    ∙ of_be-be_bytes 4 v (omega arith)

second_word : (v e : ℕ) → e < 2 ^ 32 → of_be (slice (be_bytes 4 v ++ be_bytes 4 e) 4 4) ≡ e
second_word v e h = ap of_be behind ∙ of_be-be_bytes 4 e (omega arith)
  where
    behind : slice (be_bytes 4 v ++ be_bytes 4 e) 4 4 ≡ be_bytes 4 e
    behind =
        unfold slice in
        (ap (take 4) (
            ap (λ k. drop k (be_bytes 4 v ++ be_bytes 4 e)) (sym (length-be_bytes 4 v))
            ∙ drop-length-append (be_bytes 4 v) (be_bytes 4 e))
          ∙ ap (λ k. take k (be_bytes 4 e)) (sym (length-be_bytes 4 e))
          ∙ take-length (be_bytes 4 e))

value_timestamp :
    (v e : ℕ) (rest : Bytes) (t : TcpOpt)
    → v < 2 ^ 32
    → e < 2 ^ 32
    → option_value 8 10 ((be_bytes 4 v ++ be_bytes 4 e) ++ rest) t
      ≡ some (record t { rcv_tsval = v; rcv_tsecr = e })
unfolding option_value
value_timestamp v e rest t hv he =
    rw (at_ptr-front 8 (be_bytes 4 v ++ be_bytes 4 e) rest (sym (both v e)))
      (rw (first_word v e hv) (rw (second_word v e he) refl))

value_other :
    (kind : ℕ) (body rest : Bytes) (t : TcpOpt)
    → IsOpt (other kind body)
    → option_value kind (length body + 2) (body ++ rest) t ≡ some t
unfolding option_value
value_other kind body rest t h = ground arith

-- One option is one round.
scan_round-encode :
    (o : Opt) (rest : Bytes) (n : ℕ) (t : TcpOpt)
    → IsOpt o
    → scan_round (encode o ++ rest) (length (encode o) + n) t ≡ again rest n (noted o t)
scan_round-encode nop rest n t h = unfold scan_round in (ground arith)
scan_round-encode (mss v) rest n t h =
    round-sized 2 4 n (be_bytes 2 v) rest t (omega arith) (omega (arith, length-be_bytes 2 v))
      (value_mss v rest t h)
scan_round-encode (window v) rest n t h =
    round-sized 3 3 n (be_bytes 1 v) rest t (omega arith) (omega (arith, length-be_bytes 1 v))
      (value_window v rest t h)
scan_round-encode sack_perm rest n t h =
    round-sized 4 2 n [] rest t (omega arith) refl (unfold option_value in refl)
scan_round-encode (timestamp v e) rest n t h =
    round-sized 8 10 n (be_bytes 4 v ++ be_bytes 4 e) rest t (omega arith) (omega (arith, both v e))
      (value_timestamp v e rest t h.0 h.1)
scan_round-encode (other kind body) rest n t h =
    round-sized kind (length body + 2) n body rest t h.0 refl (value_other kind body rest t h)

-- The loop over well-formed options reads each of them, the last of a kind staying, and returns true;
-- as many rounds as bytes, and one, are enough.
pub scan_options-encode_all :
    (os : List Opt) (fuel : ℕ) (rest : Bytes) (t : TcpOpt)
    → All IsOpt os
    → length (encode_all os) < fuel
    → scan_options fuel (encode_all os ++ rest) (length (encode_all os)) t
      ≡ finished true (noted_all os t)
unfolding scan_options
scan_options-encode_all os zero rest t h f = absurd (omega arith)
scan_options-encode_all [] (suc k) rest t h f = nothing_left rest t
  where
    nothing_left :
        (mem : Bytes) (opt : TcpOpt)
        → go_on (scan_options k) (scan_round mem 0 opt) ≡ finished true opt
    nothing_left [] opt = unfold scan_round in refl
    nothing_left (x ∷ mem) opt = unfold scan_round in refl
scan_options-encode_all (o ∷ os) (suc k) rest t h f =
    ap (go_on (scan_options k)) (
      ap₂ (λ mem n. scan_round mem n t) (append_assoc (encode o) (encode_all os) rest)
        (length-append (encode o) (encode_all os))
      ∙ scan_round-encode o (encode_all os ++ rest) (length (encode_all os)) t h.0)
    ∙ scan_options-encode_all os k rest (noted o t) h.1
        (omega (arith, length-append (encode o) (encode_all os), length-encode_pos o))
