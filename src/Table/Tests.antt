-- ===== src/Table/Tests.antt =====
-- Runs of base/table.c, and the theorems about it at tables of sixteen slots.
use wee.Base.{
  ℕ, Bool, false, none, leb, ◌>>=◌, ◌≡◌, refl, some, [], ◌∷◌, replicate, arith, ◌==◌, if◌then◌else◌,
}
use wee.Table.{
  Table, free_slot, hash, slot_of, store, table_expand, table_set, table_get, table_del, table_list,
}
use wee.Table.Lookup.{IsValid, cleared-IsValid, table_get-table_expand}
use wee.Table.Delete.{Deleted, table_del-Deleted}
use wee.Table.Insert.{Inserted, store-Inserted, table_set-Inserted}

-- sixteen handles were given out and given back
abbrev cleared : Table
cleared = record { last = 16; cap = 16; sz = 0; slots = replicate 16 free_slot }

-- the handle 17 is in use
abbrev seventeen : Table
seventeen = record {
  last = 17;
  cap = 16;
  sz = 1;
  slots = free_slot ∷ record { id = 17; ud = 5 } ∷ replicate 14 free_slot;
}

seventeen-IsValid : IsValid seventeen
unfolding store hash slot_of
seventeen-IsValid =
    (store-Inserted {t = cleared} 17 5 (cleared-IsValid 16 16 (omega arith)) (omega arith)
      refl).valid

-- calloc finds up to 64 slots
abbrev up_to_64 : ℕ → Bool
up_to_64 n = leb n 64

-- The table takes the index of the handle over, and then looks at index 17.
expand_loses : (table_expand up_to_64 seventeen >>= λ t. some (table_get t 17)) ≡ some 0
unfolding table_get table_expand slot_of hash
expand_loses = refl

no_room : table_expand (λ n. false) seventeen ≡ none
unfolding table_expand
no_room = refl

list_seventeen : table_list seventeen 4 ≡ 17 ∷ []
unfolding table_list
list_seventeen = refl

table_get-table_expand_example :
    (t' : Table) × (table_expand up_to_64 seventeen ≡ some t')
    × (t'.cap ≡ 32)
    × ((id : ℕ)
        → table_get t' id ≡ (if hash t' id == hash seventeen id then table_get seventeen id else 0))
table_get-table_expand_example =
    table_get-table_expand {t = seventeen} up_to_64 seventeen-IsValid (omega arith) refl

table_del-Deleted_example :
    ((table_del seventeen 17).0 ≡ table_get seventeen 17)
    × Deleted seventeen 17 (table_del seventeen 17).1
table_del-Deleted_example = table_del-Deleted {t = seventeen} 17 seventeen-IsValid

table_set-Inserted_example :
    (t' : Table) × (table_set up_to_64 1 seventeen 9 ≡ some (18, t')) × Inserted seventeen 18 9 t'
unfolding slot_of hash
table_set-Inserted_example =
    table_set-Inserted {t = seventeen} up_to_64 1 0 9 seventeen-IsValid (omega arith) (omega arith)
      (λ i lt. absurd (omega arith)) refl (omega arith) (omega arith)
