-- ===== src/Sniff/Aligned.antt =====
-- The short way of `tcp_parse_recv_options` of net/sniff.c for an aligned timestamp.
use wee.Base.{
  ℕ, suc, ◌+◌, ◌*◌, ◌^◌, ◌≤◌, ◌<◌, ◌≡◌, ◌≢◌, refl, ap, sym, ◌∙◌, true, false, some, [], ◌∷◌, All,
  length, ◌==◌, if◌then◌else◌, arith,
}
use native.Mathlib.Decide.{ℕ_discrete}
use wee.Base.Memory.{Bytes, slice}
use wee.Base.Word.{IsByte}
use wee.Base.Endian.{of_be, of_le}
use wee.Sniff.{
  stop, go_on, at_ptr, TcpOpt, finished, tcp_parse_aligned_timestamp, scan_round, scan_options,
  option_value, sized_option, tcp_parse_recv_options,
}

of_be_word : (a b c d : ℕ) → of_be (a ∷ b ∷ c ∷ d ∷ []) ≡ a * 2 ^ 24 + b * 2 ^ 16 + c * 2 ^ 8 + d
unfolding of_be of_le
of_be_word a b c d = omega arith

scan_round-zero : (mem : Bytes) (t : TcpOpt) → scan_round mem 0 t ≡ stop true t
unfolding scan_round
scan_round-zero [] t = refl
scan_round-zero (b ∷ mem) t = refl

at_ptr-eight :
    (p q r s u v w x : ℕ) (rest : Bytes)
    → at_ptr (p ∷ q ∷ r ∷ s ∷ u ∷ v ∷ w ∷ x ∷ rest) 8 ≡ some (p ∷ q ∷ r ∷ s ∷ u ∷ v ∷ w ∷ x ∷ [])
unfolding slice
at_ptr-eight p q r s u v w x rest = ground arith

loop_timestamp :
    (k p q r s u v w x : ℕ) (rest : Bytes) (t : TcpOpt)
    → scan_options
        (suc (suc (suc (suc k))))
        (1 ∷ 1 ∷ 8 ∷ 10 ∷ p ∷ q ∷ r ∷ s ∷ u ∷ v ∷ w ∷ x ∷ rest)
        12
        t
      ≡ finished true (record t {
        rcv_tsval = of_be (p ∷ q ∷ r ∷ s ∷ []);
        rcv_tsecr = of_be (u ∷ v ∷ w ∷ x ∷ []);
      })
unfolding scan_options scan_round sized_option option_value slice
loop_timestamp k p q r s u v w x rest t = rw (at_ptr-eight p q r s u v w x rest) (
    ap (go_on (scan_options k)) (
      scan_round-zero rest (record t {
        rcv_tsval = of_be (p ∷ q ∷ r ∷ s ∷ []);
        rcv_tsecr = of_be (u ∷ v ∷ w ∷ x ∷ []);
      })))

tsecr_same : (n : ℕ) → (if n == 0 then 0 else n) ≡ n
tsecr_same n = ground arith

abbrev marker : ℕ
marker = 16844810

module _ (a b c d p q r s u v w x : ℕ) (rest : Bytes) (t : TcpOpt) where
  abbrev twelve : Bytes
  twelve = a ∷ b ∷ c ∷ d ∷ p ∷ q ∷ r ∷ s ∷ u ∷ v ∷ w ∷ x ∷ rest

  abbrev stamped : TcpOpt
  stamped = record t {
    rcv_tsval = of_be (p ∷ q ∷ r ∷ s ∷ []);
    rcv_tsecr = of_be (u ∷ v ∷ w ∷ x ∷ []);
  }

  aligned :
      of_be (a ∷ b ∷ c ∷ d ∷ []) ≡ marker
      → tcp_parse_aligned_timestamp twelve t ≡ some (true, stamped)
  unfolding tcp_parse_aligned_timestamp slice
  aligned e = ground (arith, e, tsecr_same (of_be (u ∷ v ∷ w ∷ x ∷ [])))

  not_aligned :
      of_be (a ∷ b ∷ c ∷ d ∷ []) ≢ marker → tcp_parse_aligned_timestamp twelve t ≡ some (false, t)
  unfolding tcp_parse_aligned_timestamp slice
  not_aligned ne = ground (arith, ne)

  -- The loop comes to the same as the short way.
  same_as_loop :
      (k : ℕ)
      → IsByte a
      → IsByte b
      → IsByte c
      → IsByte d
      → of_be (a ∷ b ∷ c ∷ d ∷ []) ≡ marker
      → scan_options (suc (suc (suc (suc k)))) twelve 12 t ≡ finished true stamped
  same_as_loop k ha hb hc hd e =
      ap (λ m. scan_options (suc (suc (suc (suc k)))) m 12 t) (ground (arith, of_be_word a b c d))
      ∙ loop_timestamp k p q r s u v w x rest t

-- For a header of eight words, the short way for an aligned timestamp gives what the loop over the
-- options gives, on any bytes, with the 12 of the options in memory and 13 rounds of fuel.
pub aligned-eq-loop :
    (fuel : ℕ) (mem : Bytes) (t : TcpOpt)
    → All IsByte mem
    → 12 ≤ length mem
    → 12 < fuel
    → tcp_parse_recv_options fuel 8 mem t ≡ scan_options fuel mem 12 t
unfolding tcp_parse_recv_options
aligned-eq-loop (suc (suc (suc (suc k)))) (a ∷ b ∷ c ∷ d ∷ p ∷ q ∷ r ∷ s ∷ u ∷ v ∷ w ∷ x ∷ rest) t
      (ha, (hb, (hc, (hd, more)))) h f =
    elim (ℕ_discrete (of_be (a ∷ b ∷ c ∷ d ∷ [])) marker) [
      | yes e ↦
          rw (aligned a b c d p q r s u v w x rest t e)
            (sym (same_as_loop a b c d p q r s u v w x rest t k ha hb hc hd e))
      | no ne ↦ rw (not_aligned a b c d p q r s u v w x rest t ne)
    ]
aligned-eq-loop fuel mem t bytes h f = absurd (omega arith)
