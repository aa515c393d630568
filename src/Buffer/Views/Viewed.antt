-- ===== src/Buffer/Views/Viewed.antt =====
-- `buf_readonlyView` of base/buffer.c, whether it finds an object in the cache or makes one.
use wee.Base.{
  ℕ, ◌^◌, ◌<◌, ◌≡◌, inl, inr, refl, sym, ap, subst, ◌∙◌, Bool, true, false, Option, none, some,
  zero, suc, [], ◌∷◌, ◌++◌, length, set, length-set, ltb, ltb→lt, if◌then◌else◌, if_ind, Returns,
  Returns-bind, guard, ◌&&◌, not, arith,
}
use wee.Base.Word.{sle32}
use wee.Buffer.{readable}
use wee.Buffer.Content.{contents}
use wee.Buffer.Views.{
  in_use, kept, Cell, Store, nothing, at, update, one_view_more, view_of, alloc, after_alloc,
  view_object, readonly_view,
}
use wee.Buffer.Views.Count.{at_lt, at-append_lt, at-append_last}
use wee.Buffer.Views.Sound.{IsSound, object_of_use, some_inj}
use wee.Buffer.Views.Added.{added-IsSound}
use wee.Buffer.Views.Showing.{Showing, made, made-Showing}

-- A call that returns NULL changes nothing.
abbrev pub Viewed : Store → ℕ → ℕ → Option ℕ × Store → Type 0
Viewed h a n (none, h') = h' ≡ h
Viewed h a n (some v, h') = Showing h a n v h'

set-append :
    (h : Store) (a : ℕ) (c d : Cell)
    → a < length h
    → set (h ++ (d ∷ [])) a c ≡ set h a c ++ (d ∷ [])
set-append [] a c d l = absurd (omega arith)
set-append (x ∷ h) zero c d l = refl
set-append (x ∷ h) (suc a) c d l = ap (λ t. x ∷ t) (set-append h a c d (omega arith))

set_last : (h : Store) (n : ℕ) (c d : Cell) → n ≡ length h → set (h ++ (d ∷ [])) n c ≡ h ++ (c ∷ [])
set_last [] zero c d e = refl
set_last [] (suc n) c d e = absurd (omega (arith, e))
set_last (x ∷ h) zero c d e = absurd (omega (arith, e))
set_last (x ∷ h) (suc n) c d e = ap (λ t. x ∷ t) (set_last h n c d (omega (arith, e)))

-- an object that waits to be a view
abbrev blank : Cell
blank = record nothing { use_of = kept }

and_right : (x : Bool) {y : Bool} → (x && y) ≡ true → y ≡ true
and_right true e = e
and_right false e = absurd (cc e)

module _ {h : Store} (ok : IsSound h) (a n : ℕ) (used : (at h a).use_of ≡ in_use) where
  module _ (space : length h < 2 ^ 63) where
    abbrev grown : Store
    grown = h ++ (blank ∷ [])

    grown-IsSound : IsSound grown
    grown-IsSound =
        added-IsSound ok blank (λ t. refl) (λ q. absurd (cc q)) (λ s q r. absurd (cc q)) refl space

    same : at grown a ≡ at h a
    same = at-append_lt h blank a (at_lt h a used)

    used_grown : (at grown a).use_of ≡ in_use
    used_grown = ap (λ c. c.use_of) same ∙ used

    blank_kept : (at grown (length h)).use_of ≡ kept
    blank_kept = ap (λ c. c.use_of) (at-append_last h blank)

    cached_by :
        (v : ℕ) → (at grown v).use_of ≡ in_use → (at grown v).buffer.cache ≡ some (length h) → v ≡ a
    cached_by v uses in_cache = absurd (
        cc (
          (grown-IsSound.caches v (length h) uses in_cache).1,
          ap (λ c. c.buffer.src) (at-append_last h blank),
        ))

    abbrev made_grown : Store
    made_grown = made grown-IsSound a (length h) n used_grown blank_kept cached_by

    abbrev view_cell : Cell
    view_cell = record { buffer = view_of a (at h a).buffer n; use_of = in_use }

    abbrev result : Store
    result = update (h ++ (view_cell ∷ [])) a (one_view_more (at h a).buffer)

    made-eq : made_grown ≡ result
    made-eq =
        ap (λ g. set g (length h) (seen grown))
          (set-append h a (source grown) blank (at_lt h a used))
        ∙ set_last (set h a (source grown)) (length h) (seen grown) blank
            (sym (length-set h a (source grown)))
        ∙ ap {B = Store}
            (λ c.
              set h a (record { buffer = one_view_more c.buffer; use_of = c.use_of })
              ++ (record { buffer = view_of a c.buffer n; use_of = in_use } ∷ []))
            same
        ∙ ap {B = Store}
            (λ u.
              set h a (record { buffer = one_view_more (at h a).buffer; use_of = u })
              ++ (view_cell ∷ []))
            (sym (ap (λ c. c.use_of) (at-append_lt h view_cell a (at_lt h a used))))
        ∙ sym (set-append h a _ view_cell (at_lt h a used))
      where
        source : Store → Cell
        source g = record { buffer = one_view_more (at g a).buffer; use_of = (at g a).use_of }

        seen : Store → Cell
        seen g = record { buffer = view_of a (at g a).buffer n; use_of = in_use }

    result-Showing : Showing h a n (length h) result
    result-Showing =
        let s = made-Showing grown-IsSound a (length h) n used_grown blank_kept cached_by in
        subst (Showing h a n (length h)) made-eq (record {
          sound = s.sound;
          fresh = λ q. absurd (omega (arith, at_lt h (length h) q));
          view =
              s.view
              ∙ ap {B = Cell} (λ c. record { buffer = view_of a c.buffer n; use_of = in_use }) same;
          others = λ b q.
              let same_b = at-append_lt h blank b (at_lt h b q) in
              let u = s.others b (ap (λ c. c.use_of) same_b ∙ q) in
              record {
                in_use_still = u.in_use_still;
                contents_still = u.contents_still ∙ ap (λ c. contents c.buffer) same_b;
              };
          locked = s.locked;
        })

  by_cache :
      (room : Bool) (k : Option ℕ)
      → (at h a).buffer.cache ≡ k
      → Returns (view_object room h a (at h a).buffer n k) (Viewed h a n)
  by_cache room none e = record {
    value = after_alloc a (at h a).buffer (alloc room h (view_of a (at h a).buffer n));
    is_value = refl;
    holds =
        if_ind {A = Option ℕ × Store} (λ r. Viewed h a n (after_alloc a (at h a).buffer r))
          (room && ltb (length h) (2 ^ 63))
          (λ found. result-Showing (ltb→lt (length h) (2 ^ 63) (and_right room found)))
          (λ full. refl);
  }
  by_cache room (some k) e =
      let keeps = ok.caches a k used e in
      Returns-bind _ (object_of_use h k (inr keeps.0)) (record {
        value = (some k, made ok a k n used keeps.0 (owner k keeps.1));
        is_value = refl;
        holds = made-Showing ok a k n used keeps.0 (owner k keeps.1);
      })
    where
      owner :
          (k : ℕ)
          → (at h k).buffer.src ≡ some a
          → (v : ℕ) → (at h v).use_of ≡ in_use
          → (at h v).buffer.cache ≡ some k
          → v ≡ a
      owner k of_a v uses in_cache = some_inj (sym (ok.caches v k uses in_cache).1 ∙ of_a)

  -- `buf_readonlyView` of a buffer in use, for a positive number of bytes.
  pub readonly_view-Viewed :
      (room : Bool) (sz : ℕ)
      → sle32 sz 0 ≡ false
      → n ≡ (if ltb (readable (at h a).buffer) sz then readable (at h a).buffer else sz)
      → Returns (readonly_view room h a sz) (Viewed h a n)
  unfolding readonly_view
  readonly_view-Viewed room sz positive e = Returns-bind _ (ap (λ b. guard (not b)) positive) (
      Returns-bind _ (object_of_use h a (inl used)) (
        subst
          (λ m.
            Returns (view_object room h a (at h a).buffer m (at h a).buffer.cache) (Viewed h a n))
          e (by_cache room (at h a).buffer.cache refl)))
