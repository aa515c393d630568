-- ===== src/Buffer/Views/Root.antt =====
-- What `buf_release` of base/buffer.c does to a buffer that is no view, and to the view in its cache.
use wee.Base.{
  ℕ, ◌≡◌, inl, inr, refl, sym, ap, ◌∙◌, false, Bool-cases, Option, none, some, zero, suc, [], ◌∷◌,
  set, length-set, ◌==◌, ==_iff, if◌then◌else◌, Returns, Returns-bind, ◌>>=◌, arith,
}
use wee.Buffer.Content.{contents}
use wee.Buffer.Views.{in_use, kept, freed, Cell, Store, at, put, free, free_cache}
use wee.Buffer.Views.Count.{points, points_of, at_lt, at_lt_kept}
use wee.Buffer.Views.Sound.{IsSound, no_source, some_inj, at-set}
use wee.Buffer.Views.Change.{Moved, this, moves, without-IsSound}
use wee.Buffer.Views.Change.{elsewhere}
use wee.Buffer.Views.Parting.{Released, free-eq}

set-set :
    (g : Store) (i k : ℕ) (c d : Cell)
    → (i == k) ≡ false
    → set (set g i c) k d ≡ set (set g k d) i c
set-set [] i k c d e = refl
set-set (x ∷ g) zero zero c d e = absurd (ground (arith, e))
set-set (x ∷ g) zero (suc k) c d e = refl
set-set (x ∷ g) (suc i) zero c d e = refl
set-set (x ∷ g) (suc i) (suc k) c d e = ap (λ t. x ∷ t) (set-set g i k c d (ground (arith, e)))

module _ {h : Store} (ok : IsSound h) (a : ℕ) (used : (at h a).use_of ≡ in_use)
    (none_left : (at h a).buffer.refcount ≡ 0) where
  module _ (root : (at h a).buffer.src ≡ none) where
    abbrev dropped : Cell
    dropped = record { buffer = (at h a).buffer; use_of = freed }

    points_none : (t : ℕ) → points_of t (at h a) ≡ 0
    points_none t = ap (λ u. points t u (at h a).buffer.src) used ∙ ap (points t in_use) root

    uncached :
        (v : ℕ) → (a == v) ≡ false → (at h v).use_of ≡ in_use → (at h v).buffer.cache ≡ some a → ⊥
    uncached v differs uses in_cache = cc ((ok.caches v a uses in_cache).0, used)

    abbrev rest : Store
    rest = set h a dropped

    rest-IsSound : IsSound rest
    rest-IsSound =
        without-IsSound ok a dropped (at_lt h a used) (λ x. absurd (cc x)) points_none
          (no_source ok a used none_left) uncached

    rest-other : (b : ℕ) → (a == b) ≡ false → at rest b ≡ at h b
    rest-other b differs =
        at-set h a dropped b (at_lt h a used) ∙ ap (λ t. if t then dropped else at h b) differs

    rest-this : at rest a ≡ dropped
    rest-this =
        at-set h a dropped a (at_lt h a used)
        ∙ ap (λ t. if t then dropped else at h a) ((==_iff a a).1 refl)

    alone : Released h a rest
    alone = record {
      sound = rest-IsSound;
      gone = λ q. cc (ap (λ c. c.use_of) rest-this, q);
      others = λ b differs uses. record {
        in_use_still = ap (λ c. c.use_of) (rest-other b differs) ∙ uses;
        contents_still = ap (λ c. contents c.buffer) (rest-other b differs);
      };
    }

    -- with k in its cache
    module _ (k : ℕ) (e : (at h a).buffer.cache ≡ some k) where
      keeps : ((at h k).use_of ≡ kept) × ((at h k).buffer.src ≡ some a)
      keeps = ok.caches a k used e

      abbrev emptied : Cell
      emptied = record { buffer = (at h k).buffer; use_of = freed }

      distinct : (b : ℕ) → (at h b).use_of ≡ in_use → (k == b) ≡ false
      distinct b uses = elim (Bool-cases (k == b)) [
        | inl same ↦ absurd (cc (ap (λ x. (at h x).use_of) ((==_iff k b).0 same), keeps.0, uses))
        | inr differs ↦ differs
      ]

      distinct_from : (a == k) ≡ false
      distinct_from = ground (arith, distinct a used)

      rest-k : at rest k ≡ at h k
      rest-k = rest-other k distinct_from

      abbrev both : Store
      both = set rest k emptied

      owner :
          (v : ℕ)
          → Moved h a dropped v
          → (at rest v).use_of ≡ in_use
          → (at rest v).buffer.cache ≡ some k
          → ⊥
      owner v (this x p) q r = cc (p, q)
      owner v (elsewhere x p) q r =
          let before =
            ok.caches v k (sym (ap (λ c. c.use_of) p) ∙ q) (sym (ap (λ c. c.buffer.cache) p) ∙ r) in
          let same : a ≡ v = some_inj (sym keeps.1 ∙ before.1) in absurd (ground (arith, x, same))

      both-IsSound : IsSound both
      both-IsSound =
          without-IsSound rest-IsSound k emptied
            (omega (arith, length-set h a dropped, at_lt_kept h k keeps.0)) (λ x. absurd (cc x))
            (λ t. ap (λ c. points_of t c) rest-k ∙ ap (λ u. points t u (at h k).buffer.src) keeps.0)
            (λ v uses of_k.
              cc (rest-IsSound.sources v k uses of_k, ap (λ c. c.use_of) rest-k, keeps.0))
            (λ v differs uses in_cache.
              owner v (moves h a dropped v (at_lt h a used)) uses in_cache)

      both-other : (b : ℕ) → (k == b) ≡ false → at both b ≡ at rest b
      both-other b differs =
          at-set rest k emptied b (omega (arith, length-set h a dropped, at_lt_kept h k keeps.0))
          ∙ ap (λ t. if t then emptied else at rest b) differs

      both_gone : Released h a both
      both_gone = record {
        sound = both-IsSound;
        gone = λ q.
            cc (
              ap (λ c. c.use_of) (both-other a (distinct a used)),
              ap (λ c. c.use_of) rest-this,
              q,
            );
        others = λ b differs uses.
            let same = both-other b (distinct b uses) ∙ rest-other b differs in
            record {
              in_use_still = ap (λ c. c.use_of) same ∙ uses;
              contents_still = ap (λ c. contents c.buffer) same;
            };
      }

    pub from_nothing :
        (c : Option ℕ)
        → (at h a).buffer.cache ≡ c
        → Returns (free_cache h c >>= λ h. free h a) (Released h a)
    from_nothing none e = record {
      value = rest;
      is_value = free-eq h a (at h a) in_use refl used refl;
      holds = alone;
    }
    from_nothing (some k) e =
        Returns-bind (λ h. free h a) (free-eq h k (at h k) kept refl (keeps k e).0 refl)
          (record {
            value = both k e;
            is_value =
                free-eq (put h k (at h k).buffer freed) a (at h a) in_use
                  (at-set h k (emptied k e) a (at_lt_kept h k (keeps k e).0)
                    ∙ ap (λ t. if t then emptied k e else at h a) (distinct k e a used))
                  used refl
                ∙ ap some (sym (set-set h a k dropped (emptied k e) (distinct_from k e)));
            holds = both_gone k e;
          })
