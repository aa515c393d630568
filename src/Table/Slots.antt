-- ===== src/Table/Slots.antt =====
-- Slots in use, for base/table.c.
use wee.Base.{
  ℕ, zero, suc, ◌<◌, ◌≡◌, ◌≢◌, refl, List, [], ◌∷◌, ◌++◌, get_or, set, replicate, length, arith,
}
use wee.Table.{Slot, free_slot, handles}

abbrev pub live : List Slot → ℕ
live ss = length (handles ss)

-- Cleared slots behind the others look like no slots.
pub get_or-append-free :
    (ss : List Slot) (n i : ℕ)
    → get_or (ss ++ replicate n free_slot) i free_slot ≡ get_or ss i free_slot
get_or-append-free [] zero i = refl
get_or-append-free [] (suc n) zero = refl
get_or-append-free [] (suc n) (suc i) = get_or-append-free [] n i
get_or-append-free (s ∷ ss) n zero = refl
get_or-append-free (s ∷ ss) n (suc i) = get_or-append-free ss n i

pub get_or-lt : (ss : List Slot) (i : ℕ) → (get_or ss i free_slot).id ≢ 0 → i < length ss
get_or-lt [] i h = absurd (h refl)
get_or-lt (s ∷ ss) zero h = omega arith
get_or-lt (s ∷ ss) (suc i) h = omega (arith, get_or-lt ss i h)

pub live-pos : (ss : List Slot) (i : ℕ) → (get_or ss i free_slot).id ≢ 0 → 0 < live ss
live-pos [] i h = absurd (h refl)
live-pos (s ∷ ss) zero h = ground arith
live-pos (s ∷ ss) (suc i) h = ground (arith, live-pos ss i h)

pub live-set-free :
    (ss : List Slot) (i : ℕ)
    → (get_or ss i free_slot).id ≢ 0
    → live ss ≡ suc (live (set ss i free_slot))
live-set-free [] i h = absurd (h refl)
live-set-free (s ∷ ss) zero h = ground arith
live-set-free (s ∷ ss) (suc i) h = ground (arith, live-set-free ss i h)

pub live-set-used :
    (ss : List Slot) (i : ℕ) (s : Slot)
    → i < length ss
    → (get_or ss i free_slot).id ≡ 0
    → s.id ≢ 0
    → live (set ss i s) ≡ suc (live ss)
live-set-used [] i u h e p = absurd (omega arith)
live-set-used (s ∷ ss) zero u h e p = ground (arith, e, p)
live-set-used (s ∷ ss) (suc i) u h e p = ground (arith, live-set-used ss i u (omega arith) e p)

pub live-append-free : (ss : List Slot) (n : ℕ) → live (ss ++ replicate n free_slot) ≡ live ss
live-append-free [] zero = refl
live-append-free [] (suc n) = live-append-free [] n
live-append-free (s ∷ ss) n = ground (arith, live-append-free ss n)
