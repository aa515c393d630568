-- ===== src/Buffer/Views/Sound.antt =====
-- Stores in which each buffer counts its views.
use wee.Base.{
  ℕ, ◌+◌, ◌^◌, ◌<◌, ◌≤◌, ◌≡◌, ◌⊎◌, inl, inr, refl, sym, ap, ◌∙◌, false, Bool-cases, Option, none,
  some, length, set, length-set, get_or-set, ◌==◌, ==_iff, if◌then◌else◌, arith,
}
use wee.Buffer.Content.{contents}
use wee.Buffer.Views.{Use, in_use, kept, freed, Cell, Store, nothing, at, object, allocated}
use wee.Buffer.Views.Count.{points, points_of, views, views-set, points_le_views, views_none}

-- Each buffer in use counts the views of it, the source of a view in use is in use, and a cache holds a
-- released view of its owner.
pub record IsSound (h : Store) : Type 0 where
  pub counted : (a : ℕ) → (at h a).use_of ≡ in_use → (at h a).buffer.refcount ≡ views h a
  pub sources :
      (a s : ℕ) → (at h a).use_of ≡ in_use → (at h a).buffer.src ≡ some s → (at h s).use_of ≡ in_use
  pub caches :
      (a k : ℕ)
      → (at h a).use_of ≡ in_use
      → (at h a).buffer.cache ≡ some k
      → ((at h k).use_of ≡ kept) × ((at h k).buffer.src ≡ some a)
  pub small : length h ≤ 2 ^ 63

pub some_inj : {A : Type 0} {x y : A} → some x ≡ some y → x ≡ y
some_inj e = cc e

-- where the object j is after one or two changes
pub data Placed (h h' : Store) (i k : ℕ) (ci ck : Cell) (j : ℕ) : Type 0 where
  second : j ≡ k → at h' j ≡ ck → Placed h h' i k ci ck j
  first : j ≡ i → at h' j ≡ ci → Placed h h' i k ci ck j
  other : (k == j) ≡ false → (i == j) ≡ false → at h' j ≡ at h j → Placed h h' i k ci ck j

pub at-set :
    (h : Store) (i : ℕ) (c : Cell) (j : ℕ)
    → i < length h
    → at (set h i c) j ≡ (if i == j then c else at h j)
at-set h i c j l = get_or-set h i j c nothing l

pub placed :
    (h : Store) (i k : ℕ) (ci ck : Cell) (j : ℕ)
    → i < length h
    → k < length h
    → Placed h (set (set h i ci) k ck) i k ci ck j
placed h i k ci ck j li lk = elim (Bool-cases (k == j)) [
  | inl same ↦
      second (sym ((==_iff k j).0 same))
        (outer ∙ ap (λ t. if t then ck else at (set h i ci) j) same)
  | inr differs ↦ elim (Bool-cases (i == j)) [
    | inl same ↦ first (sym ((==_iff i j).0 same)) (
        outer
        ∙ ap (λ t. if t then ck else at (set h i ci) j) differs
        ∙ at-set h i ci j li
        ∙ ap (λ t. if t then ci else at h j) same)
    | inr differs' ↦ other differs differs' (
        outer
        ∙ ap (λ t. if t then ck else at (set h i ci) j) differs
        ∙ at-set h i ci j li
        ∙ ap (λ t. if t then ci else at h j) differs')
  ]
]
  where
    outer : at (set (set h i ci) k ck) j ≡ (if k == j then ck else at (set h i ci) j)
    outer = at-set (set h i ci) k ck j (omega (arith, length-set h i ci))

pub points_at :
    (t : ℕ) (c : Cell) (u : Use) (s : Option ℕ)
    → c.use_of ≡ u
    → c.buffer.src ≡ s
    → points_of t c ≡ points t u s
points_at t c u s e f = ap (λ u. points t u c.buffer.src) e ∙ ap (points t u) f

-- the count of the views when two objects change
pub views-set_two :
    (h : Store) (i k : ℕ) (ci ck : Cell) (t : ℕ)
    → i < length h
    → k < length h
    → (i == k) ≡ false
    → views (set (set h i ci) k ck) t + points_of t (at h i) + points_of t (at h k)
      ≡ views h t + points_of t ci + points_of t ck
views-set_two h i k ci ck t li lk differs = omega (
  arith,
  views-set h i ci t li,
  views-set (set h i ci) k ck t (omega (arith, length-set h i ci, lk)),
  ap (points_of t) (at-set h i ci k li ∙ ap (λ b. if b then ci else at h k) differs),
)

module _ {h : Store} (ok : IsSound h) where
  -- a buffer with no views is the source of no view
  pub no_source :
      (a : ℕ)
      → (at h a).use_of ≡ in_use
      → (at h a).buffer.refcount ≡ 0
      → (v : ℕ) → (at h v).use_of ≡ in_use
      → (at h v).buffer.src ≡ some a
      → ⊥
  no_source a used none_left v view of_a =
      let one : points a in_use (some a) ≡ 1 = ground arith in
      absurd (
        omega (
          arith,
          ok.counted a used,
          none_left,
          points_le_views h v a,
          points_at a (at h v) in_use (some a) view of_a,
          one,
        ))

  -- an object that is not in use has no views
  pub unused-views : (a : ℕ) → ((at h a).use_of ≡ in_use → ⊥) → views h a ≡ 0
  unused-views a unused =
      views_none h a (λ v. by_use v (at h v).use_of (at h v).buffer.src refl refl)
    where
      by_use :
          (v : ℕ) (u : Use) (s : Option ℕ)
          → (at h v).use_of ≡ u
          → (at h v).buffer.src ≡ s
          → points a u s ≡ 0
      by_use v in_use (some s) e f = elim (Bool-cases (s == a)) [
        | inl same ↦ absurd (
            omega (
              arith,
              unused (ap (λ x. (at h x).use_of) (sym ((==_iff s a).0 same)) ∙ ok.sources v s e f),
            ))
        | inr differs ↦ ap (λ b. if b then 1 else 0) differs
      ]
      by_use v in_use none e f = refl
      by_use v kept s e f = refl
      by_use v freed s e f = refl

-- an object that was not freed is found
pub object_of_use :
    (h : Store) (a : ℕ)
    → ((at h a).use_of ≡ in_use) ⊎ ((at h a).use_of ≡ kept)
    → object h a ≡ some (at h a).buffer
object_of_use h a (inl e) = ap (λ u. allocated u (at h a).buffer) e
object_of_use h a (inr e) = ap (λ u. allocated u (at h a).buffer) e

-- A buffer that stays in use and keeps what it holds.
pub record Untouched (h h' : Store) (b : ℕ) : Type 0 where
  pub in_use_still : (at h' b).use_of ≡ in_use
  pub contents_still : contents (at h' b).buffer ≡ contents (at h b).buffer
