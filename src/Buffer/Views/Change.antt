-- ===== src/Buffer/Views/Change.antt =====
-- One object of a store goes out of use, is worked on, or is added.
use wee.Base.{
  ℕ, ◌<◌, ◌≡◌, inl, inr, refl, sym, ap, ◌∙◌, false, Bool-cases, Option, some, length, set,
  length-set, ◌==◌, ==_iff, if◌then◌else◌, arith,
}
use wee.Buffer.{Buffer}
use wee.Buffer.Views.{Use, in_use, kept, freed, Cell, Store, at}
use wee.Buffer.Views.Count.{points, points_of, views, views-set, at_lt}
use wee.Buffer.Views.Sound.{IsSound, at-set}

-- where the object j is after the change of a
pub data Moved (h : Store) (a : ℕ) (c : Cell) (j : ℕ) : Type 0 where
  this : j ≡ a → at (set h a c) j ≡ c → Moved h a c j
  elsewhere : (a == j) ≡ false → at (set h a c) j ≡ at h j → Moved h a c j

pub moves : (h : Store) (a : ℕ) (c : Cell) (j : ℕ) → a < length h → Moved h a c j
moves h a c j l = elim (Bool-cases (a == j)) [
  | inl same ↦
      this (sym ((==_iff a j).0 same)) (at-set h a c j l ∙ ap (λ t. if t then c else at h j) same)
  | inr differs ↦ elsewhere differs (at-set h a c j l ∙ ap (λ t. if t then c else at h j) differs)
]

-- An object goes out of use that is no view, and is neither the source of a view nor in a cache.
module _ {h : Store} (ok : IsSound h) (a : ℕ) (c : Cell) (l : a < length h)
    (leaves : c.use_of ≡ in_use → ⊥) (no_view : (t : ℕ) → points_of t (at h a) ≡ 0)
    (no_src : (v : ℕ) → (at h v).use_of ≡ in_use → (at h v).buffer.src ≡ some a → ⊥)
    (no_cache : (v : ℕ)
      → (a == v) ≡ false
      → (at h v).use_of ≡ in_use
      → (at h v).buffer.cache ≡ some a
      → ⊥) where
  abbrev pub without : Store
  without = set h a c

  points_out : (t : ℕ) (u : Use) (s : Option ℕ) → (u ≡ in_use → ⊥) → points t u s ≡ 0
  points_out t in_use s away = absurd (away refl)
  points_out t kept s away = refl
  points_out t freed s away = refl

  views_kept : (t : ℕ) → views without t ≡ views h t
  views_kept t =
      omega (arith, views-set h a c t l, no_view t, points_out t c.use_of c.buffer.src leaves)

  counted_at :
      (j : ℕ)
      → Moved h a c j
      → (at without j).use_of ≡ in_use
      → (at without j).buffer.refcount ≡ views without j
  counted_at j (this e p) q = absurd (leaves (sym (ap (λ c. c.use_of) p) ∙ q))
  counted_at j (elsewhere e p) q =
      ap (λ c. c.buffer.refcount) p
      ∙ ok.counted j (sym (ap (λ c. c.use_of) p) ∙ q)
      ∙ sym (views_kept j)

  in_use_still :
      (t : ℕ)
      → Moved h a c t
      → (t ≡ a → ⊥)
      → (at h t).use_of ≡ in_use
      → (at without t).use_of ≡ in_use
  in_use_still t (this e p) away q = absurd (away e)
  in_use_still t (elsewhere e p) away q = ap (λ c. c.use_of) p ∙ q

  sources_at :
      (j t : ℕ)
      → Moved h a c j
      → (at without j).use_of ≡ in_use
      → (at without j).buffer.src ≡ some t
      → (at without t).use_of ≡ in_use
  sources_at j t (this e p) q r = absurd (leaves (sym (ap (λ c. c.use_of) p) ∙ q))
  sources_at j t (elsewhere e p) q r =
      let uses = sym (ap (λ c. c.use_of) p) ∙ q in
      let of_t = sym (ap (λ c. c.buffer.src) p) ∙ r in
      in_use_still t (moves h a c t l) (λ e. no_src j uses (of_t ∙ ap some e))
        (ok.sources j t uses of_t)

  kept_still : (k : ℕ) → Moved h a c k → (k ≡ a → ⊥) → at without k ≡ at h k
  kept_still k (this e p) away = absurd (away e)
  kept_still k (elsewhere e p) away = p

  caches_at :
      (j k : ℕ)
      → Moved h a c j
      → (at without j).use_of ≡ in_use
      → (at without j).buffer.cache ≡ some k
      → ((at without k).use_of ≡ kept) × ((at without k).buffer.src ≡ some j)
  caches_at j k (this e p) q r = absurd (leaves (sym (ap (λ c. c.use_of) p) ∙ q))
  caches_at j k (elsewhere e p) q r =
      let uses = sym (ap (λ c. c.use_of) p) ∙ q in
      let in_cache = sym (ap (λ c. c.buffer.cache) p) ∙ r in
      let before = ok.caches j k uses in_cache in
      let same = kept_still k (moves h a c k l) (λ x. no_cache j e uses (in_cache ∙ ap some x)) in
      (ap (λ c. c.use_of) same ∙ before.0, ap (λ c. c.buffer.src) same ∙ before.1)

  pub without-IsSound : IsSound without
  without-IsSound = record {
    counted = λ j q. counted_at j (moves h a c j l) q;
    sources = λ j t q r. sources_at j t (moves h a c j l) q r;
    caches = λ j k q r. caches_at j k (moves h a c j l) q r;
    small = omega (arith, length-set h a c, ok.small);
  }

-- A buffer in use is changed, but for its links.
module _ {h : Store} (ok : IsSound h) (a : ℕ) (b : Buffer) (used : (at h a).use_of ≡ in_use)
    (same_refcount : b.refcount ≡ (at h a).buffer.refcount) (same_src : b.src ≡ (at h a).buffer.src)
    (same_cache : b.cache ≡ (at h a).buffer.cache) where
  abbrev worked : Cell
  worked = record { buffer = b; use_of = in_use }

  -- what stands in an object other than its bytes
  record SameLinks (j : ℕ) : Type 0 where
    same_use : (at (set h a worked) j).use_of ≡ (at h j).use_of
    refcount : (at (set h a worked) j).buffer.refcount ≡ (at h j).buffer.refcount
    src : (at (set h a worked) j).buffer.src ≡ (at h j).buffer.src
    cache : (at (set h a worked) j).buffer.cache ≡ (at h j).buffer.cache

  links : (j : ℕ) → Moved h a worked j → SameLinks j
  links j (this e p) = record {
    same_use = ap (λ c. c.use_of) p ∙ sym used ∙ ap (λ x. (at h x).use_of) (sym e);
    refcount =
        ap (λ c. c.buffer.refcount) p ∙ same_refcount ∙ ap (λ x. (at h x).buffer.refcount) (sym e);
    src = ap (λ c. c.buffer.src) p ∙ same_src ∙ ap (λ x. (at h x).buffer.src) (sym e);
    cache = ap (λ c. c.buffer.cache) p ∙ same_cache ∙ ap (λ x. (at h x).buffer.cache) (sym e);
  }
  links j (elsewhere e p) = record {
    same_use = ap (λ c. c.use_of) p;
    refcount = ap (λ c. c.buffer.refcount) p;
    src = ap (λ c. c.buffer.src) p;
    cache = ap (λ c. c.buffer.cache) p;
  }

  linked : (j : ℕ) → SameLinks j
  linked j = links j (moves h a worked j (at_lt h a used))

  views-worked : (t : ℕ) → views (set h a worked) t ≡ views h t
  views-worked t =
      let same : points t in_use b.src ≡ points_of t (at h a) =
        ap (points t in_use) same_src ∙ ap (λ u. points t u (at h a).buffer.src) (sym used) in
      omega (arith, views-set h a worked t (at_lt h a used), same)

  pub worked-IsSound : IsSound (set h a worked)
  worked-IsSound = record {
    counted = λ j q.
        (linked j).refcount ∙ ok.counted j (sym (linked j).same_use ∙ q) ∙ sym (views-worked j);
    sources = λ j t q r.
        (linked t).same_use ∙ ok.sources j t (sym (linked j).same_use ∙ q) (sym (linked j).src ∙ r);
    caches = λ j k q r.
        let before = ok.caches j k (sym (linked j).same_use ∙ q) (sym (linked j).cache ∙ r) in
        ((linked k).same_use ∙ before.0, (linked k).src ∙ before.1);
    small = omega (arith, length-set h a worked, ok.small);
  }
