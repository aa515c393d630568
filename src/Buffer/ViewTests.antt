-- ===== src/Buffer/ViewTests.antt =====
-- The theorems about read-only views at a small store.
use wee.Base.{◌≡◌, ◌<◌, ◌⊎◌, refl, true, false, none, some, [], ◌∷◌, Returns, arith}
use wee.Base.Memory.{slice}
use wee.Buffer.{Buffer, create_ex, readable, peek}
use wee.Buffer.Views.{in_use, kept, Store, create, release, readonly_view}
use wee.Buffer.Views.Count.{views}
use wee.Buffer.Views.Sound.{IsSound}
use wee.Buffer.Views.Parting.{Released}
use wee.Buffer.Views.Runs.{
  Run, start, created, viewed, released, worked_on, Run-IsSound, Run-release,
}
use wee.Buffer.Views.Shown.{Shown, Run-readonly_view}

-- a buffer of four bytes, as it is created
abbrev blank : Buffer
blank = record {
  read_idx = 1;
  write_idx = 1;
  sz = 5;
  p_sz = 1;
  buf = 0 ∷ 0 ∷ 0 ∷ 0 ∷ 0 ∷ [];
  refcount = 0;
  src = none;
  cache = none;
}

-- the same when it holds 7, 8 and 9
abbrev full : Buffer
full = record blank { write_idx = 4; buf = 0 ∷ 7 ∷ 8 ∷ 9 ∷ 0 ∷ [] }

abbrev one : Store
one = record { buffer = full; use_of = in_use } ∷ []

abbrev view : Buffer
view = record {
  read_idx = 0;
  write_idx = 2;
  sz = 2;
  p_sz = 0;
  buf = 7 ∷ 8 ∷ [];
  refcount = 0;
  src = some 0;
  cache = none;
}

abbrev two : Store
two =
    record { buffer = record full { refcount = 1 }; use_of = in_use }
    ∷ record { buffer = view; use_of = in_use }
    ∷ []

-- when the view was released
abbrev cached : Store
cached =
    record { buffer = record full { cache = some 1 }; use_of = in_use }
    ∷ record { buffer = view; use_of = kept }
    ∷ []

creates : create [] 4 1 true true ≡ some (some 0, record { buffer = blank; use_of = in_use } ∷ [])
unfolding create create_ex
creates = refl

one-Run : Run one
one-Run = worked_on 0 full (created 4 1 true true start creates) refl refl refl refl

views_two : readonly_view true one 0 2 ≡ some (some 1, two)
unfolding readonly_view readable peek slice
views_two = refl

two-Run : Run two
two-Run = viewed true 0 2 one-Run refl views_two

releases : release two 1 ≡ some cached
unfolding release
releases = refl

cached-Run : Run cached
cached-Run = released 1 two-Run refl releases

Run-IsSound_example : IsSound cached
Run-IsSound_example = Run-IsSound cached-Run

Run-release_example :
    ((views two 0 ≡ 0) × Returns (release two 0) (Released two 0))
    ⊎ ((0 < views two 0) × (release two 0 ≡ none))
Run-release_example = Run-release 0 two-Run refl

Run-readonly_view_example : Returns (readonly_view false cached 0 9) (Shown cached 0 9)
Run-readonly_view_example =
    Run-readonly_view false 0 9 cached-Run refl
      (record {
        ordered = omega arith;
        within = omega arith;
        whole = refl;
        small = omega arith;
        front = omega arith;
      })
      refl
