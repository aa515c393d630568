-- ===== src/Buffer/Views/Released.antt =====
-- What `buf_release` of base/buffer.c does to a buffer that is in use.
use wee.Base.{ℕ, ◌≡◌, inl, refl, ap, true, Option, none, some, ◌==◌, Returns, Returns-bind, guard}
use wee.Buffer.Views.{in_use, Store, at, release_from, release}
use wee.Buffer.Views.Sound.{IsSound, object_of_use}
use wee.Buffer.Views.Parting.{Released, from_source}
use wee.Buffer.Views.Root.{from_nothing}

module _ {h : Store} (ok : IsSound h) (a : ℕ) (used : (at h a).use_of ≡ in_use)
    (none_left : (at h a).buffer.refcount ≡ 0) where
  by_source :
      (s : Option ℕ)
      → (at h a).buffer.src ≡ s
      → Returns (release_from h a (at h a).buffer s) (Released h a)
  by_source none e = from_nothing ok a used none_left e (at h a).buffer.cache refl
  by_source (some s) e =
      Returns-bind _ (object_of_use h s (inl (ok.sources a s used e)))
        (from_source ok a used none_left s e (at h s).buffer.cache refl)

  -- `buf_release` of a buffer in use that has no views succeeds.
  pub release-Released : Returns (release h a) (Released h a)
  unfolding release
  release-Released =
      Returns-bind _ (object_of_use h a (inl used))
        (Returns-bind _ (ap guard zero_count) (by_source (at h a).buffer.src refl))
    where
      zero_count : ((at h a).buffer.refcount == 0) ≡ true
      zero_count = ap (λ n. n == 0) none_left
