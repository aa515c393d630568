-- ===== src/Table.antt =====
-- The handle table of base/table.c: an array of slots, indexed by the low bits of a handle.
-- An address is a number, and 0 is NULL; the slots that the table allocates are found.
pub mod Slots
pub mod Lookup
pub mod Delete
pub mod Insert
mod Tests
use wee.Base.{
  ℕ, zero, suc, ◌+◌, ◌-◌, ◌*◌, ◌%◌, ◌^◌, Bool, ◌||◌, Option, none, some, List, [], ◌∷◌, ◌++◌,
  get_or, set, replicate, take, ltb, leb, ◌==◌, if◌then◌else◌,
}
use Prim.Native.Nat.{bit_and}

-- `struct slot`
pub record Slot : Type 0 where
  pub id : ℕ
  pub ud : ℕ

-- a slot that calloc has cleared
abbrev pub free_slot : Slot
free_slot = record { id = 0; ud = 0 }

-- `struct table`
pub record Table : Type 0 where
  pub last : ℕ
  pub cap : ℕ
  pub sz : ℕ
  pub slots : List Slot

-- the index of a handle
unfoldable pub hash : Table → ℕ → ℕ
hash t id = bit_and id (t.cap - 1)

abbrev pub init_sz : ℕ
init_sz = 16

unfoldable pub table_create : Table
table_create = record { last = 0; cap = init_sz; sz = 0; slots = replicate init_sz free_slot }

-- `table_expand`, where `gives` says for how many slots calloc finds an array; none is NULL. The
-- doubled capacity is an int, as its bit pattern.
unfoldable pub table_expand : (ℕ → Bool) → Table → Option Table
table_expand gives t =
    let ncap = (t.cap * 2) % 2 ^ 32 in
    if gives ncap
    then some (record t { cap = ncap; slots = t.slots ++ replicate (ncap - t.cap) free_slot })
    else none

-- the slot of a handle
unfoldable pub slot_of : Table → ℕ → Slot
slot_of t id = get_or t.slots (hash t id) free_slot

-- `++t->last` of an unsigned int, and once more where that is 0
unfoldable pub next_handle : ℕ → ℕ
next_handle last = if (last + 1) % 2 ^ 32 == 0 then 1 else (last + 1) % 2 ^ 32

-- the slot of `id` is filled
unfoldable pub store : Table → ℕ → ℕ → Table
store t id ud = record t {
  last = id;
  sz = t.sz + 1;
  slots = set t.slots (hash t id) (record { id = id; ud = ud });
}

-- the loop of `table_set`, with fuel: the next handle whose slot is free
unfoldable pub set_loop : ℕ → Table → ℕ → Option (ℕ × Table)
set_loop zero t ud = none
set_loop (suc n) t ud =
    let id = next_handle t.last in
    let rest = set_loop n (record t { last = id }) ud in
    if (slot_of t id).id == 0 then some (id, store t id ud) else rest

-- `table_set` behind its call of `table_expand`: 0 where that returns NULL
unfoldable pub set_expanded : ℕ → Table → ℕ → Option Table → Option (ℕ × Table)
set_expanded fuel t ud none = some (0, t)
set_expanded fuel t ud (some t') = set_loop fuel t' ud

-- `table_set`; the table grows at three quarters.
unfoldable pub table_set : (ℕ → Bool) → ℕ → Table → ℕ → Option (ℕ × Table)
table_set gives fuel t ud =
    if ud == 0
    then some (0, t)
    else if leb (t.cap * 3) (t.sz * 4)
    then set_expanded fuel t ud (table_expand gives t)
    else set_loop fuel t ud

unfoldable pub table_get : Table → ℕ → ℕ
table_get t id =
    if id == 0 || t.sz == 0 then 0 else (if (slot_of t id).id == id then (slot_of t id).ud else 0)

unfoldable pub table_del : Table → ℕ → ℕ × Table
table_del t id =
    if id == 0 || t.sz == 0
    then (0, t)
    else (if (slot_of t id).id == id
        then (
          (slot_of t id).ud,
          record t { sz = t.sz - 1; slots = set t.slots (hash t id) free_slot },
        )
        else (0, t))

-- the handles of the slots in use, in the order of the slots
abbrev pub handles : List Slot → List ℕ
handles [] = []
handles (s ∷ ss) = if s.id == 0 then handles ss else s.id ∷ handles ss

-- `table_list`, as the part of `ids` that it fills
unfoldable pub table_list : Table → ℕ → List ℕ
table_list t sz = take sz (handles t.slots)
