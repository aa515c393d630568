-- ===== src/Buffer/Views/Added.antt =====
-- A store with one object more, that is no view in use.
use wee.Base.{
  ℕ, ◌^◌, ◌<◌, ◌≡◌, inl, inr, sym, ap, ◌∙◌, Bool-cases, none, some, [], ◌∷◌, ◌++◌, length,
  length-append, ltb, ltb→lt, ◌==◌, ==_iff, arith,
}
use wee.Buffer.Views.{in_use, kept, Cell, Store, nothing, at}
use wee.Buffer.Views.Count.{
  points_of, views, views-append, at_lt, at_lt_kept, at-append_lt, at-append_last, at-append_beyond,
}
use wee.Buffer.Views.Sound.{IsSound, unused-views}

module _ {h : Store} (ok : IsSound h) (c : Cell) (no_view : (t : ℕ) → points_of t c ≡ 0)
    (no_refcount : c.use_of ≡ in_use → c.buffer.refcount ≡ 0)
    (no_src : (s : ℕ) → c.use_of ≡ in_use → c.buffer.src ≡ some s → ⊥)
    (no_cache : c.buffer.cache ≡ none) (space : length h < 2 ^ 63) where
  abbrev pub added : Store
  added = h ++ (c ∷ [])

  -- where the object j is
  data Found (j : ℕ) : Type 0 where
    old : at added j ≡ at h j → Found j
    new : j ≡ length h → at added j ≡ c → Found j
    beyond : at added j ≡ nothing → Found j

  found : (j : ℕ) → Found j
  found j = elim (Bool-cases (ltb j (length h))) [
    | inl before ↦ old (at-append_lt h c j (ltb→lt j (length h) before))
    | inr later ↦ elim (Bool-cases (j == length h)) [
      | inl last ↦
          new ((==_iff j (length h)).0 last)
            (ap (at added) ((==_iff j (length h)).0 last) ∙ at-append_last h c)
      | inr differs ↦ beyond (at-append_beyond h c j (ground (arith, later, differs)))
    ]
  ]

  views-added : (t : ℕ) → views added t ≡ views h t
  views-added t = omega (arith, views-append h c t, no_view t)

  in_use_still : (t : ℕ) → (at h t).use_of ≡ in_use → (at added t).use_of ≡ in_use
  in_use_still t q = ap (λ c. c.use_of) (at-append_lt h c t (at_lt h t q)) ∙ q

  counted_at :
      (j : ℕ)
      → Found j
      → (at added j).use_of ≡ in_use
      → (at added j).buffer.refcount ≡ views added j
  counted_at j (old p) q =
      ap (λ c. c.buffer.refcount) p
      ∙ ok.counted j (sym (ap (λ c. c.use_of) p) ∙ q)
      ∙ sym (views-added j)
  counted_at j (new e p) q =
      ap (λ c. c.buffer.refcount) p
      ∙ no_refcount (sym (ap (λ c. c.use_of) p) ∙ q)
      ∙ sym (unused-views ok j (λ u. absurd (omega (arith, at_lt h j u, e))))
      ∙ sym (views-added j)
  counted_at j (beyond p) q = absurd (cc (ap (λ c. c.use_of) p, q))

  sources_at :
      (j t : ℕ)
      → Found j
      → (at added j).use_of ≡ in_use
      → (at added j).buffer.src ≡ some t
      → (at added t).use_of ≡ in_use
  sources_at j t (old p) q r =
      in_use_still t
        (ok.sources j t (sym (ap (λ c. c.use_of) p) ∙ q) (sym (ap (λ c. c.buffer.src) p) ∙ r))
  sources_at j t (new e p) q r =
      absurd (no_src t (sym (ap (λ c. c.use_of) p) ∙ q) (sym (ap (λ c. c.buffer.src) p) ∙ r))
  sources_at j t (beyond p) q r = absurd (cc (ap (λ c. c.use_of) p, q))

  caches_at :
      (j k : ℕ)
      → Found j
      → (at added j).use_of ≡ in_use
      → (at added j).buffer.cache ≡ some k
      → ((at added k).use_of ≡ kept) × ((at added k).buffer.src ≡ some j)
  caches_at j k (old p) q r =
      let before =
        ok.caches j k (sym (ap (λ c. c.use_of) p) ∙ q) (sym (ap (λ c. c.buffer.cache) p) ∙ r) in
      let same = at-append_lt h c k (at_lt_kept h k before.0) in
      (ap (λ c. c.use_of) same ∙ before.0, ap (λ c. c.buffer.src) same ∙ before.1)
  caches_at j k (new e p) q r = absurd (cc (sym (ap (λ c. c.buffer.cache) p) ∙ r, no_cache))
  caches_at j k (beyond p) q r = absurd (cc (ap (λ c. c.use_of) p, q))

  pub added-IsSound : IsSound added
  added-IsSound = record {
    counted = λ j q. counted_at j (found j) q;
    sources = λ j t q r. sources_at j t (found j) q r;
    caches = λ j k q r. caches_at j k (found j) q r;
    small = omega (arith, length-append h (c ∷ []), space);
  }
