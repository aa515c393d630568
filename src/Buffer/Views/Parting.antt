-- ===== src/Buffer/Views/Parting.antt =====
-- What `buf_release` of base/buffer.c does to a view that is in use.
use wee.Base.{
  ℕ, ◌≡◌, ◌⊎◌, inl, inr, refl, sym, ap, ◌∙◌, false, Option, none, some, ◌==◌, if◌then◌else◌,
  Returns, ◌>>=◌, arith,
}
use wee.Buffer.{Buffer}
use wee.Buffer.Content.{contents}
use wee.Buffer.Views.{
  Use, in_use, kept, freed, Cell, Store, at, put, update, allocated, free, keep_or_free,
}
use wee.Buffer.Views.Count.{at_lt}
use wee.Buffer.Views.Sound.{IsSound, Placed, first, second, other, Untouched, at-set}
use wee.Buffer.Views.Release.{lowered, source_left, view_left, after, after-IsSound, apart, places}

-- The store is sound, the buffer is gone, and all others are there and hold what they held.
pub record Released (h : Store) (a : ℕ) (h' : Store) : Type 0 where
  pub sound : IsSound h'
  pub gone : (at h' a).use_of ≡ in_use → ⊥
  pub others : (b : ℕ) → (a == b) ≡ false → (at h b).use_of ≡ in_use → Untouched h h' b

pub free-eq :
    (g : Store) (a : ℕ) (c : Cell) (u : Use)
    → at g a ≡ c
    → c.use_of ≡ u
    → allocated u c.buffer ≡ some c.buffer
    → free g a ≡ some (put g a c.buffer freed)
free-eq g a c u e uses found =
    ap (λ x. allocated x.use_of x.buffer >>= λ b. some (put g a b freed)) e
    ∙ ap (λ u. allocated u c.buffer >>= λ b. some (put g a b freed)) uses
    ∙ ap (λ o. o >>= λ b. some (put g a b freed)) found

module _ {h : Store} (ok : IsSound h) (a : ℕ) (used : (at h a).use_of ≡ in_use)
    (none_left : (at h a).buffer.refcount ≡ 0) where
  module _ (s : ℕ) (view : (at h a).buffer.src ≡ some s) (u : Use) (c : Option ℕ)
      (leaves : u ≡ in_use → ⊥)
      (caching : (c ≡ (at h s).buffer.cache) ⊎ ((c ≡ some a) × (u ≡ kept))) where
    abbrev left : Store
    left = after ok a s u c used view none_left leaves caching

    abbrev source : Cell
    source = source_left ok a s u c used view none_left leaves caching

    abbrev out : Cell
    out = view_left ok a s u c used view none_left leaves caching

    is_gone : Placed h left s a source out a → (at left a).use_of ≡ in_use → ⊥
    is_gone (second e p) q = leaves (sym (ap (λ c. c.use_of) p) ∙ q)
    is_gone (first e p) q =
        absurd (ground (arith, e, apart ok a s u c used view none_left leaves caching))
    is_gone (other e f p) q = absurd (ground (arith, e))

    stays :
        (b : ℕ)
        → Placed h left s a source out b
        → (a == b) ≡ false
        → (at h b).use_of ≡ in_use
        → Untouched h left b
    stays b (second e p) differs uses = absurd (ground (arith, e, differs))
    stays b (first e p) differs uses = record {
      in_use_still = ap (λ c. c.use_of) p ∙ ap (λ x. (at h x).use_of) (sym e) ∙ uses;
      contents_still = ap (λ c. contents c.buffer) p ∙ ap (λ x. contents (at h x).buffer) (sym e);
    }
    stays b (other e f p) differs uses = record {
      in_use_still = ap (λ c. c.use_of) p ∙ uses;
      contents_still = ap (λ c. contents c.buffer) p;
    }

    view_gone : Released h a left
    view_gone = record {
      sound = after-IsSound ok a s u c used view none_left leaves caching;
      gone = λ q. is_gone (places ok a s u c used view none_left leaves caching a) q;
      others = λ b differs uses.
          stays b (places ok a s u c used view none_left leaves caching b) differs uses;
    }

  module _ (s : ℕ) (view : (at h a).buffer.src ≡ some s) where
    -- the source of the view, with its count lowered
    abbrev pub lower : Option ℕ → Buffer
    lower c = lowered (at h s).buffer c

    abbrev lowered_cell : Cell
    lowered_cell = record { buffer = lower (at h s).buffer.cache; use_of = (at h s).use_of }

    pub from_source :
        (c : Option ℕ)
        → (at h s).buffer.cache ≡ c
        → Returns
            (keep_or_free h a (at h a).buffer s (lower (at h s).buffer.cache) c)
            (Released h a)
    from_source none e = record {
      value = left s view kept (some a) (λ x. absurd (cc x)) (inr (refl, refl));
      is_value = refl;
      holds = view_gone s view kept (some a) (λ x. absurd (cc x)) (inr (refl, refl));
    }
    from_source (some k) e = record {
      value = left s view freed (at h s).buffer.cache (λ x. absurd (cc x)) (inl refl);
      is_value =
          free-eq (update h s (lower (at h s).buffer.cache)) a (at h a) in_use
            (at-set h s lowered_cell a (at_lt h s (ok.sources a s used view))
              ∙ ap (λ t. if t then lowered_cell else at h a)
                  (apart ok a s freed (at h s).buffer.cache used view none_left (λ x. absurd (cc x))
                    (inl refl)))
            used refl;
      holds = view_gone s view freed (at h s).buffer.cache (λ x. absurd (cc x)) (inl refl);
    }
