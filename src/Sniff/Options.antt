-- ===== src/Sniff/Options.antt =====
-- The loop of `tcp_parse_recv_options` of net/sniff.c over any bytes.
use wee.Base.{
  ℕ, zero, suc, ◌+◌, ◌-◌, ◌≤◌, ◌<◌, ◌≡◌, refl, Bool, true, Option, none, some, [], ◌∷◌, drop,
  length, length-drop, is_some, if_ind, ltb, ◌==◌, arith,
}
use wee.Base.Memory.{Bytes}
use wee.Sniff.{
  TcpOpt, Scan, finished, Round, stop, overread, again, next_round, go_on, option_value,
  sized_option, scan_round, scan_options,
}

-- A round reads inside the memory, and one that goes on has less to read.
abbrev Progress : ℕ → Round → Type 0
Progress n (stop b opt) = Unit {0}
Progress n overread = ⊥
Progress n (again mem m opt) = (m < n) × (m < length mem)

option_value-some :
    (op sz : ℕ) (ptr : Bytes) (opt : TcpOpt)
    → sz ≤ length ptr + 2
    → is_some (option_value op sz ptr opt) ≡ true
unfolding option_value
option_value-some op sz ptr opt h = ground arith

next_round-Progress :
    {n m : ℕ} (o : Option TcpOpt) (mem : Bytes)
    → is_some o ≡ true
    → m < n
    → m < length mem
    → Progress n (next_round o mem m)
next_round-Progress none mem e lt room = absurd (cc)
next_round-Progress (some opt) mem e lt room = (lt, room)

sized_option-Progress :
    (op n : ℕ) (ptr : Bytes) (opt : TcpOpt)
    → 0 < n
    → n ≤ length ptr
    → Progress n (sized_option op ptr n opt)
unfolding sized_option
sized_option-Progress op n [] opt pos h = absurd (omega arith)
sized_option-Progress op n (sz ∷ ptr) opt pos h =
    if_ind (Progress n) (ltb sz 2) (λ _. tt)
      (λ two.
        if_ind (Progress n) (ltb n sz) (λ _. tt)
          (λ fits.
            next_round-Progress (option_value op sz ptr opt) (drop (sz - 2) ptr)
              (option_value-some op sz ptr opt (ground arith)) (ground arith)
              (ground (arith, length-drop (sz - 2) ptr))))

scan_round-Progress :
    (n : ℕ) (mem : Bytes) (opt : TcpOpt) → n < length mem → Progress n (scan_round mem n opt)
unfolding scan_round
scan_round-Progress n [] opt h = absurd (omega arith)
scan_round-Progress n (op ∷ ptr) opt h =
    if_ind (Progress n) (n == 0) (λ _. tt)
      (λ more.
        if_ind (Progress n) (op == 0) (λ _. tt)
          (λ _.
            if_ind (Progress n) (op == 1) (λ _. (ground arith, ground arith))
              (λ _. sized_option-Progress op n ptr opt (ground arith) (omega arith))))

after_round :
    {n : ℕ} (rest : Bytes → ℕ → TcpOpt → Scan) (r : Round)
    → Progress n r
    → ((mem : Bytes) (m : ℕ) (o : TcpOpt)
        → m < n
        → m < length mem
        → (done : Bool) × (opt' : TcpOpt) × (rest mem m o ≡ finished done opt'))
    → (done : Bool) × (opt' : TcpOpt) × (go_on rest r ≡ finished done opt')
after_round rest (stop b o) p f = (b, o, refl)
after_round rest overread p f = absurd p
after_round rest (again mem m o) p f = f mem m o p.0 p.1

-- The loop over n bytes of options, with one byte more in memory, ends within n + 1 rounds
-- (the last finds nothing left) and never reads outside.
pub scan_options-finished :
    (fuel n : ℕ) (mem : Bytes) (opt : TcpOpt)
    → n < fuel
    → n < length mem
    → (done : Bool) × (opt' : TcpOpt) × (scan_options fuel mem n opt ≡ finished done opt')
unfolding scan_options
scan_options-finished zero n mem opt f h = absurd (omega arith)
scan_options-finished (suc k) n mem opt f h =
    after_round (scan_options k) (scan_round mem n opt) (scan_round-Progress n mem opt h)
      (λ mem' m o lt room. scan_options-finished k m mem' o (omega arith) room)
