-- ===== src/Table/Delete.antt =====
-- `table_del` of base/table.c.
use wee.Base.{
  ℕ, ◌-◌, ◌<◌, ◌≡◌, ◌≢◌, ap, sym, ◌∙◌, get_or, get_or-set, set, length-set, arith, ◌==◌,
  if◌then◌else◌,
}
use native.Mathlib.Decide.{ℕ_discrete}
use wee.Table.{Table, free_slot, hash, slot_of, table_get, table_del}
use wee.Table.Slots.{live, live-pos, live-set-free}
use wee.Table.Lookup.{IsValid, hash-lt, ud_for, table_get-slot_of}

-- the table without the handle
abbrev without : Table → ℕ → Table
without t id = record t { sz = t.sz - 1; slots = set t.slots (hash t id) free_slot }

-- What `table_del` leaves: every lookup as before but for the handle that is gone.
pub record Deleted (t : Table) (id : ℕ) (t' : Table) : Type 0 where
  pub valid : IsValid t'
  pub lookups : (j : ℕ) → table_get t' j ≡ (if j == id then 0 else table_get t j)

slot-without :
    {t : Table} (id i : ℕ)
    → IsValid t
    → get_or (without t id).slots i free_slot
      ≡ (if hash t id == i then free_slot else get_or t.slots i free_slot)
slot-without {t} id i v =
    get_or-set t.slots (hash t id) i free_slot free_slot (omega (arith, hash-lt v id, v.whole))

slot-other :
    {t : Table} (id i : ℕ)
    → IsValid t
    → hash t id ≢ i
    → get_or (without t id).slots i free_slot ≡ get_or t.slots i free_slot
slot-other id i v other = ground (arith, slot-without id i v)

slot-gone :
    {t : Table} (id i : ℕ)
    → IsValid t
    → hash t id ≡ i
    → get_or (without t id).slots i free_slot ≡ free_slot
slot-gone id i v same = ground (arith, slot-without id i v)

without-placed :
    {t : Table} (id i : ℕ)
    → IsValid t
    → (get_or (without t id).slots i free_slot).id ≢ 0
    → hash (without t id) (get_or (without t id).slots i free_slot).id ≡ i
unfolding hash
without-placed {t} id i v there = elim (ℕ_discrete (hash t id) i) [
  | yes same ↦ absurd (there (ap (λ s. s.id) (slot-gone id i v same)))
  | no other ↦
      let e = ap (λ s. s.id) (slot-other id i v other) in
      ap (hash t) e ∙ v.placed i (λ z. there (e ∙ z))
]

without-IsValid : {t : Table} (id : ℕ) → IsValid t → (slot_of t id).id ≢ 0 → IsValid (without t id)
unfolding slot_of
without-IsValid {t} id v used = record {
  whole = length-set t.slots (hash t id) free_slot ∙ v.whole;
  placed = λ i there. without-placed id i v there;
  count = omega (arith, v.count, live-set-free t.slots (hash t id) used);
  not_empty = v.not_empty;
}

lookup-without :
    {t : Table} (id : ℕ)
    → IsValid t
    → id ≢ 0
    → (slot_of t id).id ≡ id
    → (j : ℕ) → table_get (without t id) j ≡ (if j == id then 0 else table_get t j)
unfolding slot_of hash
lookup-without {t} id v nz there j = elim (ℕ_discrete (hash t id) (hash t j)) [
  | yes same ↦
      table_get-slot_of (without-IsValid id v (λ z. nz (sym there ∙ z))) j
      ∙ ap (λ s. ud_for s j) (slot-gone id (hash t j) v same)
      ∙ gone same
  | no other ↦
      table_get-slot_of (without-IsValid id v (λ z. nz (sym there ∙ z))) j
      ∙ ap (λ s. ud_for s j) (slot-other id (hash t j) v other)
      ∙ sym (table_get-slot_of v j)
      ∙ ground (arith, λ (e : j ≡ id). other (ap (hash t) (sym e)))
]
  where
    gone : hash t id ≡ hash t j → ud_for free_slot j ≡ (if j == id then 0 else table_get t j)
    gone same =
        ground (arith, table_get-slot_of v j, ap (λ i. (get_or t.slots i free_slot).id) same, there)

get-there :
    {t : Table} (id : ℕ)
    → IsValid t
    → id ≢ 0
    → (slot_of t id).id ≡ id
    → table_get t id ≡ (slot_of t id).ud
get-there id v nz there = ground (arith, table_get-slot_of v id)

get-missing :
    {t : Table} (id : ℕ) → IsValid t → (id ≢ 0 → (slot_of t id).id ≢ id) → table_get t id ≡ 0
get-missing {t} id v ne = elim (ℕ_discrete id 0) [
  | yes z ↦ ground (arith, table_get-slot_of v id)
  | no nz ↦ ground (arith, table_get-slot_of v id, ne nz)
]

del-there :
    {t : Table} (id : ℕ)
    → IsValid t
    → id ≢ 0
    → (slot_of t id).id ≡ id
    → table_del t id ≡ ((slot_of t id).ud, without t id)
unfolding table_del
del-there {t} id v nz there = ground (arith, v.count, some_live)
  where
    some_live : 0 < live t.slots
    some_live = unfold slot_of in (live-pos t.slots (hash t id) (λ z. nz (sym there ∙ z)))

del-missing :
    {t : Table} (id : ℕ) → IsValid t → (id ≢ 0 → (slot_of t id).id ≢ id) → table_del t id ≡ (0, t)
unfolding table_del
del-missing {t} id v ne = elim (ℕ_discrete id 0) [
  | yes z ↦ ground arith
  | no nz ↦ ground (arith, ne nz)
]

-- `table_del` of a valid table returns what `table_get` finds for the handle, NULL where it is not
-- in use. Afterwards the handle finds NULL and every other handle what it found before; the table
-- stays valid.
pub table_del-Deleted :
    {t : Table} (id : ℕ)
    → IsValid t
    → ((table_del t id).0 ≡ table_get t id) × Deleted t id (table_del t id).1
table_del-Deleted {t} id v = elim (ℕ_discrete id 0) [
  | yes z ↦
      rw (del-missing id v (λ nz. absurd (nz z)))
        (sym (get-missing id v (λ nz. absurd (nz z))), kept (λ nz. absurd (nz z)))
  | no nz ↦ elim (ℕ_discrete (slot_of t id).id id) [
    | yes there ↦ rw (del-there id v nz there) (
      sym (get-there id v nz there),
      record {
        valid = without-IsValid id v (λ z. nz (sym there ∙ z));
        lookups = lookup-without id v nz there;
      },
    )
    | no ne ↦ rw (del-missing id v (λ _. ne)) (sym (get-missing id v (λ _. ne)), kept (λ _. ne))
  ]
]
  where
    kept : (id ≢ 0 → (slot_of t id).id ≢ id) → Deleted t id t
    kept ne = record {
      valid = v;
      lookups = λ j. ground (arith, get-missing id v ne, λ (e : j ≡ id). ap (table_get t) e);
    }
