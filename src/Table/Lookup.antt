-- ===== src/Table/Lookup.antt =====
-- What the calls of base/table.c do to lookups.
use wee.Base.{
  ℕ, zero, suc, ◌-◌, ◌*◌, ◌%◌, ◌^◌, ◌++◌, Bool, true, some, ◌<◌, ◌≡◌, ◌≢◌, refl, ap, sym, ◌∙◌,
  get_or, length, length-replicate, replicate, arith, ◌==◌, if◌then◌else◌,
}
use wee.Base.Bits.{bit_and_le_right}
use native.Mathlib.Decide.{ℕ_discrete}
use native.Mathlib.Nat.{mod-eq_of_lt}
use wee.Table.{Slot, Table, free_slot, hash, slot_of, table_expand, table_get}
use wee.Table.Slots.{live, get_or-append-free, live-pos}

-- Each handle in use stands at its index, and `sz` counts them.
pub record IsValid (t : Table) : Type 0 where
  pub whole : length t.slots ≡ t.cap
  pub placed :
      (i : ℕ) → (get_or t.slots i free_slot).id ≢ 0 → hash t (get_or t.slots i free_slot).id ≡ i
  pub count : t.sz ≡ live t.slots
  pub not_empty : 0 < t.cap

pub hash-lt : {t : Table} → IsValid t → (id : ℕ) → hash t id < t.cap
unfolding hash
hash-lt {t} v id = omega (arith, bit_and_le_right id (t.cap - 1), v.not_empty)

-- what a slot says about a handle
abbrev pub ud_for : Slot → ℕ → ℕ
ud_for s id = if id == 0 then 0 else (if s.id == id then s.ud else 0)

pub table_get-slot_of :
    {t : Table} → IsValid t → (id : ℕ) → table_get t id ≡ ud_for (slot_of t id) id
unfolding table_get slot_of
table_get-slot_of {t} v id = elim (ℕ_discrete (get_or t.slots (hash t id) free_slot).id 0) [
  | yes none_there ↦ ground (arith, none_there)
  | no used ↦ ground (arith, live-pos t.slots (hash t id) used, v.count)
]

-- the table with twice the slots
abbrev doubled : Table → Table
doubled t = record t { cap = t.cap * 2; slots = t.slots ++ replicate t.cap free_slot }

table_expand-doubled :
    (gives : ℕ → Bool) (t : Table)
    → t.cap < 2 ^ 30
    → gives (t.cap * 2) ≡ true
    → table_expand gives t ≡ some (doubled t)
unfolding table_expand
table_expand-doubled gives t small given =
    let whole : (t.cap * 2) % 2 ^ 32 ≡ t.cap * 2 = mod-eq_of_lt (omega arith) in
    rw whole (
      rw given (
        ap (λ n. some (record t { cap = t.cap * 2; slots = t.slots ++ replicate n free_slot }))
          (omega arith)))

slot_of-expand :
    (t : Table) (id : ℕ) → slot_of (doubled t) id ≡ get_or t.slots (hash (doubled t) id) free_slot
unfolding slot_of
slot_of-expand t id = get_or-append-free t.slots t.cap (hash (doubled t) id)

get-expand_slot :
    (t : Table) (id : ℕ)
    → table_get (doubled t) id
      ≡ (if t.sz == 0 then 0 else ud_for (get_or t.slots (hash (doubled t) id) free_slot) id)
unfolding table_get
get-expand_slot t id = ground (arith, slot_of-expand t id)

-- A slot at an index that is not the handle's own holds another handle.
not_there :
    {t : Table}
    → IsValid t
    → (id i : ℕ) → hash t id ≢ i
    → ud_for (get_or t.slots i free_slot) id ≡ 0
not_there {t} v id i other = elim (ℕ_discrete (get_or t.slots i free_slot).id id) [
  | no ne ↦ ground (arith, ne)
  | yes there ↦ elim (ℕ_discrete id 0) [
    | yes z ↦ ground (arith, z)
    | no nz ↦ absurd (other (ap (hash t) (sym there) ∙ v.placed i (omega (arith, nz, there))))
  ]
]

table_get-doubled :
    {t : Table}
    → IsValid t
    → (id : ℕ)
    → table_get (doubled t) id ≡ (if hash (doubled t) id == hash t id then table_get t id else 0)
table_get-doubled {t} v id = elim (ℕ_discrete (hash (doubled t) id) (hash t id)) [
  | yes same ↦ get-expand_slot t id ∙ kept same
  | no moved ↦
      get-expand_slot t id
      ∙ ground (arith, moved, not_there v id (hash (doubled t) id) (λ e. moved (sym e)))
]
  where
    kept :
        hash (doubled t) id ≡ hash t id
        → (if t.sz == 0 then 0 else ud_for (get_or t.slots (hash (doubled t) id) free_slot) id)
          ≡ (if hash (doubled t) id == hash t id then table_get t id else 0)
    kept same =
        unfold table_get slot_of in
        (ground (arith, same, ap (λ i. get_or t.slots i free_slot) same))

-- `table_expand` of a valid table of less than 2 ^ 30 slots, so that the doubled int does not
-- overflow, succeeds where calloc finds the array, and doubles the capacity. It copies each slot to
-- its old index: a lookup in the table that has grown finds a handle where its index is the same under
-- both capacities, and NULL for every other.
pub table_get-table_expand :
    {t : Table} (gives : ℕ → Bool)
    → IsValid t
    → t.cap < 2 ^ 30
    → gives (t.cap * 2) ≡ true
    → (t' : Table) × (table_expand gives t ≡ some t')
      × (t'.cap ≡ t.cap * 2)
      × ((id : ℕ) → table_get t' id ≡ (if hash t' id == hash t id then table_get t id else 0))
table_get-table_expand {t} gives v small given =
    (doubled t, table_expand-doubled gives t small given, refl, table_get-doubled v)

get_or-free : (n i : ℕ) → get_or (replicate n free_slot) i free_slot ≡ free_slot
get_or-free zero i = refl
get_or-free (suc n) zero = refl
get_or-free (suc n) (suc i) = get_or-free n i

live-free : (n : ℕ) → live (replicate n free_slot) ≡ 0
live-free zero = refl
live-free (suc n) = live-free n

-- A table without handles is valid, whatever handle it gave out last.
pub cleared-IsValid :
    (last cap : ℕ)
    → 0 < cap
    → IsValid (record { last = last; cap = cap; sz = 0; slots = replicate cap free_slot })
cleared-IsValid last cap pos = record {
  whole = length-replicate cap free_slot;
  placed = λ i there. absurd (there (ap (λ s. s.id) (get_or-free cap i)));
  count = sym (live-free cap);
  not_empty = pos;
}
