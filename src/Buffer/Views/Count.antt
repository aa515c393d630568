-- ===== src/Buffer/Views/Count.antt =====
-- How many views of a buffer a store holds.
use wee.Base.{
  ℕ, ◌+◌, ◌<◌, ◌≤◌, ◌≡◌, refl, Option, none, some, zero, suc, [], ◌∷◌, ◌++◌, length, set, ◌==◌,
  if◌then◌else◌, arith,
}
use wee.Buffer.Views.{Use, in_use, kept, freed, Cell, Store, nothing, at}

-- 1 for a view of t that is in use
abbrev pub points : ℕ → Use → Option ℕ → ℕ
points t in_use (some s) = if s == t then 1 else 0
points t in_use none = 0
points t kept src = 0
points t freed src = 0

abbrev pub points_of : ℕ → Cell → ℕ
points_of t c = points t c.use_of c.buffer.src

abbrev pub views : Store → ℕ → ℕ
views [] t = 0
views (c ∷ h) t = points_of t c + views h t

pub views-set :
    (h : Store) (i : ℕ) (c : Cell) (t : ℕ)
    → i < length h
    → views (set h i c) t + points_of t (at h i) ≡ views h t + points_of t c
views-set [] i c t l = absurd (omega arith)
views-set (x ∷ h) zero c t l = omega arith
views-set (x ∷ h) (suc i) c t l = omega (arith, views-set h i c t (omega arith))

pub views-append :
    (h : Store) (c : Cell) (t : ℕ) → views (h ++ (c ∷ [])) t ≡ views h t + points_of t c
views-append [] c t = omega arith
views-append (x ∷ h) c t = omega (arith, views-append h c t)

pub points_le_views : (h : Store) (i t : ℕ) → points_of t (at h i) ≤ views h t
points_le_views [] i t = omega arith
points_le_views (x ∷ h) zero t = omega arith
points_le_views (x ∷ h) (suc i) t = omega (arith, points_le_views h i t)

pub views_none : (h : Store) (t : ℕ) → ((i : ℕ) → points_of t (at h i) ≡ 0) → views h t ≡ 0
views_none [] t e = refl
views_none (x ∷ h) t e = omega (arith, e 0, views_none h t (λ i. e (suc i)))

pub points_le_one : (t : ℕ) (u : Use) (s : Option ℕ) → points t u s ≤ 1
points_le_one t in_use (some s) = ground arith
points_le_one t in_use none = omega arith
points_le_one t kept s = omega arith
points_le_one t freed s = omega arith

pub views-le : (h : Store) (t : ℕ) → views h t ≤ length h
views-le [] t = omega arith
views-le (x ∷ h) t = omega (arith, views-le h t, points_le_one t x.use_of x.buffer.src)

-- an object that is not nothing
pub at_lt : (h : Store) (i : ℕ) → (at h i).use_of ≡ in_use → i < length h
at_lt [] i e = absurd (cc e)
at_lt (x ∷ h) zero e = omega arith
at_lt (x ∷ h) (suc i) e = omega (arith, at_lt h i e)

pub at_lt_kept : (h : Store) (i : ℕ) → (at h i).use_of ≡ kept → i < length h
at_lt_kept [] i e = absurd (cc e)
at_lt_kept (x ∷ h) zero e = omega arith
at_lt_kept (x ∷ h) (suc i) e = omega (arith, at_lt_kept h i e)

pub at-append_lt : (h : Store) (c : Cell) (i : ℕ) → i < length h → at (h ++ (c ∷ [])) i ≡ at h i
at-append_lt [] c i l = absurd (omega arith)
at-append_lt (x ∷ h) c zero l = refl
at-append_lt (x ∷ h) c (suc i) l = at-append_lt h c i (omega arith)

pub at-append_last : (h : Store) (c : Cell) → at (h ++ (c ∷ [])) (length h) ≡ c
at-append_last [] c = refl
at-append_last (x ∷ h) c = at-append_last h c

pub at-append_beyond :
    (h : Store) (c : Cell) (i : ℕ) → length h < i → at (h ++ (c ∷ [])) i ≡ nothing
at-append_beyond [] c zero l = absurd (omega arith)
at-append_beyond [] c (suc i) l = refl
at-append_beyond (x ∷ h) c zero l = absurd (omega arith)
at-append_beyond (x ∷ h) c (suc i) l = at-append_beyond h c i (omega arith)
