-- ===== src/Buffer/Views/Release.antt =====
-- `buf_release` of base/buffer.c keeps the count of the views.
use wee.Base.{
  ℕ, ◌+◌, ◌-◌, ◌^◌, ◌%◌, ◌≡◌, ◌⊎◌, inl, inr, refl, sym, ap, subst, ◌∙◌, false, Bool-cases, Option,
  some, set, length-set, ◌==◌, ==_iff, if◌then◌else◌, arith,
}
use wee.Buffer.{Buffer}
use wee.Buffer.Views.{Use, in_use, kept, freed, Cell, Store, at}
use wee.Buffer.Views.Count.{points, views, views-le, at_lt}
use wee.Buffer.Views.Sound.{
  IsSound, Placed, first, second, other, placed, points_at, views-set_two, no_source, some_inj,
}

-- the source of a view without its view, and with this cache
abbrev pub lowered : Buffer → Option ℕ → Buffer
lowered b c = record b { refcount = (b.refcount + 2 ^ 64 - 1) % 2 ^ 64; cache = c }

module _ {h : Store} (ok : IsSound h) (a s : ℕ) (u : Use) (c : Option ℕ)
    (used : (at h a).use_of ≡ in_use) (view : (at h a).buffer.src ≡ some s)
    (none_left : (at h a).buffer.refcount ≡ 0) (leaves : u ≡ in_use → ⊥)
    (caching : (c ≡ (at h s).buffer.cache) ⊎ ((c ≡ some a) × (u ≡ kept))) where
  abbrev pub source_left : Cell
  source_left = record { buffer = lowered (at h s).buffer c; use_of = (at h s).use_of }

  abbrev pub view_left : Cell
  view_left = record { buffer = (at h a).buffer; use_of = u }

  abbrev pub after : Store
  after = set (set h s source_left) a view_left

  source_used : (at h s).use_of ≡ in_use
  source_used = ok.sources a s used view

  pub apart : (s == a) ≡ false
  apart = elim (Bool-cases (s == a)) [
    | inl same ↦
        absurd (no_source ok a used none_left a used (view ∙ ap some ((==_iff s a).0 same)))
    | inr differs ↦ differs
  ]

  pub places : (j : ℕ) → Placed h after s a source_left view_left j
  places j = placed h s a source_left view_left j (at_lt h s source_used) (at_lt h a used)

  points_gone : (t : ℕ) (w : Use) → (w ≡ in_use → ⊥) → points t w (at h a).buffer.src ≡ 0
  points_gone t in_use away = absurd (away refl)
  points_gone t kept away = refl
  points_gone t freed away = refl

  views_left : (t : ℕ) → views after t + (if s == t then 1 else 0) ≡ views h t
  views_left t = omega (
    arith,
    views-set_two h s a source_left view_left t (at_lt h s source_used) (at_lt h a used) apart,
    points_gone t u leaves,
    points_at t (at h a) in_use (some s) used view,
  )

  used_after :
      (t : ℕ)
      → Placed h after s a source_left view_left t
      → (t ≡ a → ⊥)
      → (at h t).use_of ≡ in_use
      → (at after t).use_of ≡ in_use
  used_after t (second e p) away q = absurd (away e)
  used_after t (first e p) away q = ap (λ c. c.use_of) p ∙ source_used
  used_after t (other e f p) away q = ap (λ c. c.use_of) p ∙ q

  -- the source of a view that was in use
  source_after :
      (v t : ℕ)
      → (at h v).use_of ≡ in_use
      → (at h v).buffer.src ≡ some t
      → (at after t).use_of ≡ in_use
  source_after v t uses of_t =
      used_after t (places t) (λ e. no_source ok a used none_left v uses (of_t ∙ ap some e))
        (ok.sources v t uses of_t)

  kept_after :
      (k : ℕ)
      → Placed h after s a source_left view_left k
      → (at h k).use_of ≡ kept
      → at after k ≡ at h k
  kept_after k (second e p) q = absurd (cc (ap (λ x. (at h x).use_of) e, used, q))
  kept_after k (first e p) q = absurd (cc (ap (λ x. (at h x).use_of) e, source_used, q))
  kept_after k (other e f p) q = p

  counted_at :
      (j : ℕ)
      → Placed h after s a source_left view_left j
      → (at after j).use_of ≡ in_use
      → (at after j).buffer.refcount ≡ views after j
  counted_at j (second e p) q = absurd (leaves (sym (ap (λ c. c.use_of) p) ∙ q))
  counted_at j (first e p) q =
      let one : points s in_use (some s) ≡ 1 = ground arith in
      omega (
        arith,
        ap (λ c. c.buffer.refcount) p,
        ok.counted s source_used,
        views_left s,
        one,
        views-le h s,
        ok.small,
        ap (views after) e,
      )
  counted_at j (other e f p) q =
      let off : points j in_use (some s) ≡ 0 = ap {B = ℕ} (λ b. if b then 1 else 0) f in
      omega (
        arith,
        ap (λ c. c.buffer.refcount) p,
        ok.counted j (sym (ap (λ c. c.use_of) p) ∙ q),
        views_left j,
        off,
      )

  sources_at :
      (j t : ℕ)
      → Placed h after s a source_left view_left j
      → (at after j).use_of ≡ in_use
      → (at after j).buffer.src ≡ some t
      → (at after t).use_of ≡ in_use
  sources_at j t (second e p) q r = absurd (leaves (sym (ap (λ c. c.use_of) p) ∙ q))
  sources_at j t (first e p) q r = source_after s t source_used (sym (ap (λ c. c.buffer.src) p) ∙ r)
  sources_at j t (other e f p) q r =
      source_after j t (sym (ap (λ c. c.use_of) p) ∙ q) (sym (ap (λ c. c.buffer.src) p) ∙ r)

  abbrev IsKeptFor : Store → ℕ → ℕ → Type 0
  IsKeptFor g j k = ((at g k).use_of ≡ kept) × ((at g k).buffer.src ≡ some j)

  still_kept : (j k : ℕ) → IsKeptFor h j k → IsKeptFor after j k
  still_kept j k (keeps, of_j) =
      let same = kept_after k (places k) keeps in
      (ap (λ c. c.use_of) same ∙ keeps, ap (λ c. c.buffer.src) same ∙ of_j)

  now_kept : Placed h after s a source_left view_left a → u ≡ kept → IsKeptFor after s a
  now_kept (second e p) keeps = (ap (λ c. c.use_of) p ∙ keeps, ap (λ c. c.buffer.src) p ∙ view)
  now_kept (first e p) keeps = absurd (ground (arith, e, apart))
  now_kept (other e f p) keeps = absurd (ground (arith, e))

  caches_at :
      (j k : ℕ)
      → Placed h after s a source_left view_left j
      → (at after j).use_of ≡ in_use
      → (at after j).buffer.cache ≡ some k
      → IsKeptFor after j k
  caches_at j k (second e p) q r = absurd (leaves (sym (ap (λ c. c.use_of) p) ∙ q))
  caches_at j k (first e p) q r =
      subst (λ x. IsKeptFor after x k) (sym e)
        (elim caching [
          | inl same ↦
              still_kept s k
                (ok.caches s k source_used (sym same ∙ sym (ap (λ c. c.buffer.cache) p) ∙ r))
          | inr this ↦
              subst (IsKeptFor after s)
                (some_inj (sym this.0 ∙ sym (ap (λ c. c.buffer.cache) p) ∙ r))
                (now_kept (places a) this.1)
        ])
  caches_at j k (other e f p) q r =
      still_kept j k
        (ok.caches j k (sym (ap (λ c. c.use_of) p) ∙ q) (sym (ap (λ c. c.buffer.cache) p) ∙ r))

  pub after-IsSound : IsSound after
  after-IsSound = record {
    counted = λ j q. counted_at j (places j) q;
    sources = λ j t q r. sources_at j t (places j) q r;
    caches = λ j k q r. caches_at j k (places j) q r;
    small =
        omega (
          arith,
          length-set h s source_left,
          length-set (set h s source_left) a view_left,
          ok.small,
        );
  }
