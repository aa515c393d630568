-- ===== src/Buffer/Views/Showing.antt =====
-- What `buf_readonlyView` of base/buffer.c does.
use wee.Base.{ℕ, ◌^◌, ◌≤◌, ◌≡◌, sym, ap, ◌∙◌, true, some, arith}
use wee.Buffer.{Buffer, write_locked}
use wee.Buffer.Content.{contents}
use wee.Buffer.Views.{in_use, kept, Cell, Store, at, one_view_more, view_of}
use wee.Buffer.Views.Count.{views-le}
use wee.Buffer.Views.Sound.{IsSound, Placed, first, second, other, Untouched}
use wee.Buffer.Views.Revive.{source_now, view_now, after, after-IsSound, places, apart}

-- The object v was not in use and is now the view of the first n bytes; the store is sound, no other buffer
-- changes what it holds, and the source is locked.
pub record Showing (h : Store) (a n v : ℕ) (h' : Store) : Type 0 where
  pub sound : IsSound h'
  pub fresh : (at h v).use_of ≡ in_use → ⊥
  pub view : at h' v ≡ record { buffer = view_of a (at h a).buffer n; use_of = in_use }
  pub others : (b : ℕ) → (at h b).use_of ≡ in_use → Untouched h h' b
  pub locked : write_locked (at h' a).buffer ≡ true

one_view_more-locked : (b : Buffer) → b.refcount ≤ 2 ^ 63 → write_locked (one_view_more b) ≡ true
unfolding write_locked
one_view_more-locked b small = ground arith

module _ {h : Store} (ok : IsSound h) (a k n : ℕ) (used : (at h a).use_of ≡ in_use)
    (keeps : (at h k).use_of ≡ kept)
    (cached_by : (v : ℕ) → (at h v).use_of ≡ in_use → (at h v).buffer.cache ≡ some k → v ≡ a) where
  abbrev pub made : Store
  made = after ok a k n used keeps cached_by

  abbrev source : Cell
  source = source_now ok a k n used keeps cached_by

  abbrev seen : Cell
  seen = view_now ok a k n used keeps cached_by

  at_view : Placed h made a k source seen k → at made k ≡ seen
  at_view (second e p) = p
  at_view (first e p) = absurd (ground (arith, e, apart ok a k n used keeps cached_by))
  at_view (other e f p) = absurd (ground (arith, e))

  untouched :
      (b : ℕ) → Placed h made a k source seen b → (at h b).use_of ≡ in_use → Untouched h made b
  untouched b (second e p) q = absurd (cc (ap (λ x. (at h x).use_of) e, keeps, q))
  untouched b (first e p) q = record {
    in_use_still = ap (λ c. c.use_of) p ∙ used;
    contents_still = ap (λ c. contents c.buffer) p ∙ ap (λ x. contents (at h x).buffer) (sym e);
  }
  untouched b (other e f p) q = record {
    in_use_still = ap (λ c. c.use_of) p ∙ q;
    contents_still = ap (λ c. contents c.buffer) p;
  }

  locks : Placed h made a k source seen a → write_locked (at made a).buffer ≡ true
  locks (second e p) = absurd (ground (arith, e, apart ok a k n used keeps cached_by))
  locks (first e p) =
      ap (λ c. write_locked c.buffer) p
      ∙ one_view_more-locked (at h a).buffer
          (omega (arith, ok.counted a used, views-le h a, ok.small))
  locks (other e f p) = absurd (ground (arith, f))

  pub made-Showing : Showing h a n k made
  made-Showing = record {
    sound = after-IsSound ok a k n used keeps cached_by;
    fresh = λ q. cc (q, keeps);
    view = at_view (places ok a k n used keeps cached_by k);
    others = λ b q. untouched b (places ok a k n used keeps cached_by b) q;
    locked = locks (places ok a k n used keeps cached_by a);
  }
