-- ===== src/Buffer/Views/Revive.antt =====
-- `buf_readonlyView` of base/buffer.c, on an object that is not in use, keeps the count of the views.
use wee.Base.{
  ℕ, ◌+◌, ◌≡◌, inl, inr, sym, ap, ◌∙◌, false, Bool-cases, some, set, length-set, ◌==◌, ==_iff,
  if◌then◌else◌, arith,
}
use wee.Buffer.Views.{in_use, kept, Cell, Store, at, one_view_more, view_of}
use wee.Buffer.Views.Count.{points, points_of, views, views-le, at_lt, at_lt_kept}
use wee.Buffer.Views.Sound.{
  IsSound, Placed, first, second, other, placed, views-set_two, unused-views, some_inj,
}

module _ {h : Store} (ok : IsSound h) (a k n : ℕ) (used : (at h a).use_of ≡ in_use)
    (keeps : (at h k).use_of ≡ kept)
    (cached_by : (v : ℕ) → (at h v).use_of ≡ in_use → (at h v).buffer.cache ≡ some k → v ≡ a) where
  abbrev pub source_now : Cell
  source_now = record { buffer = one_view_more (at h a).buffer; use_of = (at h a).use_of }

  abbrev pub view_now : Cell
  view_now = record { buffer = view_of a (at h a).buffer n; use_of = in_use }

  abbrev pub after : Store
  after = set (set h a source_now) k view_now

  pub apart : (a == k) ≡ false
  apart = elim (Bool-cases (a == k)) [
    | inl same ↦ absurd (cc (ap (λ x. (at h x).use_of) ((==_iff a k).0 same), used, keeps))
    | inr differs ↦ differs
  ]

  pub places : (j : ℕ) → Placed h after a k source_now view_now j
  places j = placed h a k source_now view_now j (at_lt h a used) (at_lt_kept h k keeps)

  views_now : (t : ℕ) → views after t ≡ views h t + (if a == t then 1 else 0)
  views_now t =
      let idle : points_of t (at h k) ≡ 0 = ap (λ u. points t u (at h k).buffer.src) keeps in
      omega (
        arith,
        views-set_two h a k source_now view_now t (at_lt h a used) (at_lt_kept h k keeps) apart,
        idle,
      )

  in_use_still :
      (t : ℕ)
      → Placed h after a k source_now view_now t
      → (at h t).use_of ≡ in_use
      → (at after t).use_of ≡ in_use
  in_use_still t (second e p) q = ap (λ c. c.use_of) p
  in_use_still t (first e p) q = ap (λ c. c.use_of) p ∙ used
  in_use_still t (other e f p) q = ap (λ c. c.use_of) p ∙ q

  kept_still :
      (x : ℕ)
      → Placed h after a k source_now view_now x
      → (x ≡ k → ⊥)
      → (at h x).use_of ≡ kept
      → at after x ≡ at h x
  kept_still x (second e p) away q = absurd (away e)
  kept_still x (first e p) away q = absurd (cc (ap (λ x. (at h x).use_of) e, used, q))
  kept_still x (other e f p) away q = p

  counted_at :
      (j : ℕ)
      → Placed h after a k source_now view_now j
      → (at after j).use_of ≡ in_use
      → (at after j).buffer.refcount ≡ views after j
  counted_at j (second e p) q =
      let off : points j in_use (some a) ≡ 0 =
        ap {B = ℕ} (λ b. if b then 1 else 0) (ap (λ x. a == x) e ∙ apart) in
      omega (
        arith,
        ap (λ c. c.buffer.refcount) p,
        views_now j,
        unused-views ok j (λ u. absurd (cc (ap (λ x. (at h x).use_of) e, keeps, u))),
        off,
      )
  counted_at j (first e p) q =
      let one : points a in_use (some a) ≡ 1 = ground arith in
      omega (
        arith,
        ap (λ c. c.buffer.refcount) p,
        ok.counted a used,
        views_now a,
        one,
        views-le h a,
        ok.small,
        ap (views after) e,
      )
  counted_at j (other e f p) q =
      let off : points j in_use (some a) ≡ 0 = ap {B = ℕ} (λ b. if b then 1 else 0) f in
      omega (
        arith,
        ap (λ c. c.buffer.refcount) p,
        ok.counted j (sym (ap (λ c. c.use_of) p) ∙ q),
        views_now j,
        off,
      )

  sources_at :
      (j t : ℕ)
      → Placed h after a k source_now view_now j
      → (at after j).use_of ≡ in_use
      → (at after j).buffer.src ≡ some t
      → (at after t).use_of ≡ in_use
  sources_at j t (second e p) q r =
      in_use_still t (places t)
        (ap (λ x. (at h x).use_of) (some_inj (sym r ∙ ap (λ c. c.buffer.src) p)) ∙ used)
  sources_at j t (first e p) q r =
      in_use_still t (places t) (ok.sources a t used (sym (ap (λ c. c.buffer.src) p) ∙ r))
  sources_at j t (other e f p) q r =
      in_use_still t (places t)
        (ok.sources j t (sym (ap (λ c. c.use_of) p) ∙ q) (sym (ap (λ c. c.buffer.src) p) ∙ r))

  caches_at :
      (j x : ℕ)
      → Placed h after a k source_now view_now j
      → (at after j).use_of ≡ in_use
      → (at after j).buffer.cache ≡ some x
      → ((at after x).use_of ≡ kept) × ((at after x).buffer.src ≡ some j)
  caches_at j x (second e p) q r = absurd (cc (ap (λ c. c.buffer.cache) p, r))
  caches_at j x (first e p) q r = absurd (cc (ap (λ c. c.buffer.cache) p, r))
  caches_at j x (other e f p) q r =
      let uses = sym (ap (λ c. c.use_of) p) ∙ q in
      let in_cache = sym (ap (λ c. c.buffer.cache) p) ∙ r in
      let before = ok.caches j x uses in_cache in
      let same =
        kept_still x (places x)
          (λ e. absurd (ground (arith, f, cached_by j uses (in_cache ∙ ap some e)))) before.0 in
      (ap (λ c. c.use_of) same ∙ before.0, ap (λ c. c.buffer.src) same ∙ before.1)

  pub after-IsSound : IsSound after
  after-IsSound = record {
    counted = λ j q. counted_at j (places j) q;
    sources = λ j t q r. sources_at j t (places j) q r;
    caches = λ j x q r. caches_at j x (places j) q r;
    small =
        omega
          (arith, length-set h a source_now, length-set (set h a source_now) k view_now, ok.small);
  }
