-- ===== src/Table/Insert.antt =====
-- `table_set` of base/table.c.
use wee.Base.{
  ℕ, zero, suc, Bool, ◌+◌, ◌*◌, ◌^◌, ◌<◌, ◌≡◌, ◌≢◌, refl, ap, sym, ◌∙◌, some, get_or, get_or-set,
  length-set, arith, ◌==◌, if◌then◌else◌,
}
use native.Mathlib.Decide.{ℕ_discrete}
use native.Mathlib.Nat.{mod-eq_of_lt}
use wee.Table.{Table, free_slot, hash, slot_of, next_handle, store, set_loop, table_set, table_get}
use wee.Table.Slots.{live-set-used}
use wee.Table.Lookup.{IsValid, hash-lt, ud_for, table_get-slot_of}

-- What `table_set` leaves: a lookup of the new handle finds the address, every other lookup what it
-- found before.
pub record Inserted (t : Table) (id ud : ℕ) (t' : Table) : Type 0 where
  pub valid : IsValid t'
  pub lookups : (j : ℕ) → table_get t' j ≡ (if j == id then ud else table_get t j)

module _ {t : Table} (id ud : ℕ) (v : IsValid t) (nz : id ≢ 0) (free : (slot_of t id).id ≡ 0) where
  slot-store :
      (i : ℕ)
      → get_or (store t id ud).slots i free_slot
        ≡ (if hash t id == i then record { id = id; ud = ud } else get_or t.slots i free_slot)
  unfolding store
  slot-store i =
      get_or-set t.slots (hash t id) i (record { id = id; ud = ud }) free_slot
        (omega (arith, hash-lt v id, v.whole))

  slot-other :
      (i : ℕ)
      → hash t id ≢ i
      → get_or (store t id ud).slots i free_slot ≡ get_or t.slots i free_slot
  slot-other i other = ground (arith, slot-store i)

  slot-new :
      (i : ℕ)
      → hash t id ≡ i
      → get_or (store t id ud).slots i free_slot ≡ record { id = id; ud = ud }
  slot-new i same = ground (arith, slot-store i)

  store-placed :
      (i : ℕ)
      → (get_or (store t id ud).slots i free_slot).id ≢ 0
      → hash t (get_or (store t id ud).slots i free_slot).id ≡ i
  store-placed i there = elim (ℕ_discrete (hash t id) i) [
    | yes same ↦ ap (λ s. hash t s.id) (slot-new i same) ∙ same
    | no other ↦
        let e = ap (λ s. s.id) (slot-other i other) in
        ap (hash t) e ∙ v.placed i (λ z. there (e ∙ z))
  ]

  store-IsValid : IsValid (store t id ud)
  unfolding store slot_of hash
  store-IsValid = record {
    whole = length-set t.slots (hash t id) (record { id = id; ud = ud }) ∙ v.whole;
    placed = store-placed;
    count = omega (
      arith,
      v.count,
      live-set-used t.slots (hash t id) (record { id = id; ud = ud })
          (omega (arith, hash-lt v id, v.whole)) free nz,
    );
    not_empty = v.not_empty;
  }

  lookup-store : (j : ℕ) → table_get (store t id ud) j ≡ (if j == id then ud else table_get t j)
  unfolding store slot_of hash
  lookup-store j = elim (ℕ_discrete (hash t id) (hash t j)) [
    | yes same ↦
        table_get-slot_of store-IsValid j
        ∙ ap (λ s. ud_for s j) (slot-new (hash t j) same)
        ∙ found same
    | no other ↦
        table_get-slot_of store-IsValid j
        ∙ ap (λ s. ud_for s j) (slot-other (hash t j) other)
        ∙ sym (table_get-slot_of v j)
        ∙ ground (arith, λ (e : j ≡ id). other (ap (hash t) (sym e)))
  ]
    where
      found :
          hash t id ≡ hash t j
          → ud_for (record { id = id; ud = ud }) j ≡ (if j == id then ud else table_get t j)
      found same =
          ground
            (arith, table_get-slot_of v j, ap (λ i. (get_or t.slots i free_slot).id) same, free, nz)

  pub store-Inserted : Inserted t id ud (store t id ud)
  store-Inserted = record { valid = store-IsValid; lookups = lookup-store }

next_handle-small : (last : ℕ) → last + 1 < 2 ^ 32 → next_handle last ≡ last + 1
unfolding next_handle
next_handle-small last small = ground (arith, mod-eq_of_lt small)

module _ (t : Table) (n id ud : ℕ) (next : next_handle t.last ≡ id) where
  set_loop-free : (slot_of t id).id ≡ 0 → set_loop (suc n) t ud ≡ some (id, store t id ud)
  unfolding set_loop
  set_loop-free free = rw next (ground (arith, free))

  set_loop-used :
      (slot_of t id).id ≢ 0 → set_loop (suc n) t ud ≡ set_loop n (record t { last = id }) ud
  unfolding set_loop
  set_loop-used used = rw next (ground (arith, used))

-- the table with the handles up to `l` passed over
abbrev passed : Table → ℕ → Table
passed t l = record t { last = l }

slot_of-passed : (t : Table) (l id : ℕ) → slot_of (passed t l) id ≡ slot_of t id
unfolding slot_of hash
slot_of-passed t l id = refl

id_at : (t : Table) (i j : ℕ) → i ≡ j → (slot_of t i).id ≡ (slot_of t j).id
id_at t i j e = ap (λ n. (slot_of t n).id) e

store-passed : (t : Table) (l id ud : ℕ) → store (passed t l) id ud ≡ store t id ud
unfolding store hash
store-passed t l id ud = refl

set_loop-first :
    (fuel k : ℕ) (t : Table) (ud l : ℕ)
    → ((i : ℕ) → i < k → (slot_of t (l + 1 + i)).id ≢ 0)
    → (slot_of t (l + 1 + k)).id ≡ 0
    → l + 1 + k < 2 ^ 32
    → k < fuel
    → set_loop fuel (passed t l) ud ≡ some (l + 1 + k, store t (l + 1 + k) ud)
set_loop-first zero k t ud l used free small h = absurd (omega arith)
set_loop-first (suc n) zero t ud l used free small h =
    set_loop-free (passed t l) n (l + 1 + 0) ud (next_handle-small l (omega arith) ∙ omega arith)
      (ap (λ s. s.id) (slot_of-passed t l (l + 1 + 0)) ∙ free)
    ∙ ap (λ t'. some (l + 1 + 0, t')) (store-passed t l (l + 1 + 0) ud)
set_loop-first (suc n) (suc k) t ud l used free small h =
    set_loop-used (passed t l) n (l + 1) ud (next_handle-small l (omega arith)) (λ z.
      used 0 (omega arith) (
        id_at t (l + 1 + 0) (l + 1) (omega arith)
        ∙ ap (λ s. s.id) (sym (slot_of-passed t l (l + 1)))
        ∙ z))
    ∙ set_loop-first n k t ud (l + 1)
        (λ i lt z.
          used (suc i) (omega arith) (id_at t (l + 1 + suc i) (l + 1 + 1 + i) (omega arith) ∙ z))
        (id_at t (l + 1 + 1 + k) (l + 1 + suc k) (omega arith) ∙ free) (omega arith) (omega arith)
    ∙ ap (λ j. some (j, store t j ud)) (omega arith)

-- `table_set` of an address on a valid table that is less than three quarters full: if the slots of
-- the k handles after the last one are in use and that of the next is free, and handles do not wrap,
-- more than k rounds of the loop return that next handle. Then a lookup of it finds the address, and
-- every other lookup what it found before; the table stays valid.
pub table_set-Inserted :
    {t : Table} (gives : ℕ → Bool) (fuel k ud : ℕ)
    → IsValid t
    → ud ≢ 0
    → t.sz * 4 < t.cap * 3
    → ((i : ℕ) → i < k → (slot_of t (t.last + 1 + i)).id ≢ 0)
    → (slot_of t (t.last + 1 + k)).id ≡ 0
    → t.last + 1 + k < 2 ^ 32
    → k < fuel
    → (t' : Table) × (table_set gives fuel t ud ≡ some (t.last + 1 + k, t'))
      × Inserted t (t.last + 1 + k) ud t'
unfolding table_set
table_set-Inserted {t} gives fuel k ud v nz room used free small h = (
  store t (t.last + 1 + k) ud,
  ground (arith, nz, room, set_loop-first fuel k t ud t.last used free small h),
  store-Inserted (t.last + 1 + k) ud v (omega arith) free,
)
