-- ===== src/Buffer/Views/Runs.antt =====
-- Runs of a program over the read-only views of base/buffer.c: any sequence of calls on buffers in use.
use wee.Base.{
  ℕ, ◌^◌, ◌<◌, ◌≡◌, ◌⊎◌, inl, inr, refl, sym, ap, subst, ◌∙◌, Bool, true, false, Bool-cases, Option,
  none, some, [], length, set, ltb, ltb→lt, if◌then◌else◌, if_ind, ◌==◌, ==_iff, Returns, guard,
  ◌>>=◌, >>=-eq-some, ◌&&◌, not, arith,
}
use wee.Base.Word.{sle32}
use wee.Buffer.{Buffer, create_ex, readable}
use wee.Buffer.Views.{
  in_use, Store, at, object, create, store_created, release_from, release, view_object,
  readonly_view,
}
use wee.Buffer.Views.Count.{points, views}
use wee.Buffer.Views.Sound.{IsSound, object_of_use, some_inj}
use wee.Buffer.Views.Change.{worked-IsSound}
use wee.Buffer.Views.Added.{added-IsSound}
use wee.Buffer.Views.Viewed.{Viewed, readonly_view-Viewed}
use wee.Buffer.Views.Parting.{Released}
use wee.Buffer.Views.Released.{release-Released}

-- The stores that calls lead to. `worked_on` is any other operation on a buffer in use: none of them touches
-- the count, the source or the cache.
pub data Run : Store → Type 0 where
  start : Run []
  created :
      {h : Store} {r : Option ℕ × Store} (size prepend_size : ℕ) (got_struct got_block : Bool)
      → Run h
      → create h size prepend_size got_struct got_block ≡ some r
      → Run r.1
  viewed :
      {h : Store} {r : Option ℕ × Store} (room : Bool) (a sz : ℕ)
      → Run h
      → (at h a).use_of ≡ in_use
      → readonly_view room h a sz ≡ some r
      → Run r.1
  released :
      {h h' : Store} (a : ℕ) → Run h → (at h a).use_of ≡ in_use → release h a ≡ some h' → Run h'
  worked_on :
      {h : Store} (a : ℕ) (b : Buffer)
      → Run h
      → (at h a).use_of ≡ in_use
      → b.refcount ≡ (at h a).buffer.refcount
      → b.src ≡ (at h a).buffer.src
      → b.cache ≡ (at h a).buffer.cache
      → Run (set h a (record { buffer = b; use_of = in_use }))

value_of : {A : Type 0} {m : Option A} {P : A → Type 0} {x : A} → Returns m P → m ≡ some x → P x
value_of {P = P} r e = subst P (some_inj (sym r.is_value ∙ e)) r.holds

-- a new buffer has no links
IsUnlinked : Buffer → Type 0
IsUnlinked b = (b.refcount ≡ 0) × (b.src ≡ none) × (b.cache ≡ none)

create_ex-IsUnlinked :
    (size prepend_size : ℕ) (got_struct got_block : Bool) (b : Buffer)
    → create_ex size prepend_size got_struct got_block ≡ some (some b)
    → IsUnlinked b
unfolding create_ex IsUnlinked
create_ex-IsUnlinked size prepend_size got_struct got_block b e =
    by_tests (ltb 0 size) (got_struct && got_block) _ refl refl refl e
  where
    by_tests :
        (t g : Bool) (new : Buffer)
        → new.refcount ≡ 0
        → new.src ≡ none
        → new.cache ≡ none
        → (guard t >>= λ _. some (if g then some new else none)) ≡ some (some b)
        → (b.refcount ≡ 0) × (b.src ≡ none) × (b.cache ≡ none)
    by_tests true true new p q r e = (cc (p, e), cc (q, e), cc (r, e))
    by_tests true false new p q r e = absurd (cc e)
    by_tests false g new p q r e = absurd (cc e)

release_refused :
    (h : Store) (a : ℕ)
    → (at h a).use_of ≡ in_use
    → ((at h a).buffer.refcount == 0) ≡ false
    → release h a ≡ none
unfolding release
release_refused h a used more =
    ap (λ o. o >>= λ b. guard (b.refcount == 0) >>= λ _. release_from h a b b.src)
      (object_of_use h a (inl used))
    ∙ ap (λ t. guard t >>= λ _. release_from h a (at h a).buffer (at h a).buffer.src) more

readonly_view_refused :
    (room : Bool) (h : Store) (a sz : ℕ) → sle32 sz 0 ≡ true → readonly_view room h a sz ≡ none
unfolding readonly_view
readonly_view_refused room h a sz none_asked =
    ap
      (λ t. guard (not t) >>= λ _. object h a >>= λ b.
        view_object room h a b (if ltb (readable b) sz then readable b else sz) b.cache)
      none_asked

store_created-IsSound :
    {h : Store} (b : Option Buffer)
    → IsSound h
    → ((new : Buffer) → b ≡ some new → IsUnlinked new)
    → IsSound (store_created h b).1
unfolding IsUnlinked
store_created-IsSound none ok unlinked = ok
store_created-IsSound {h} (some b) ok unlinked =
    let (no_count, no_src, no_cache) = unlinked b refl in
    if_ind {A = Option ℕ × Store} (λ r. IsSound r.1) (ltb (length h) (2 ^ 63))
      (λ space.
        added-IsSound ok (record { buffer = b; use_of = in_use }) (λ t. ap (points t in_use) no_src)
          (λ _. no_count) (λ s _ e. absurd (cc (e, no_src))) no_cache
          (ltb→lt (length h) (2 ^ 63) space))
      (λ full. ok)

empty-IsSound : IsSound []
empty-IsSound = record {
  counted = λ a q. absurd (cc q);
  sources = λ a s q r. absurd (cc q);
  caches = λ a k q r. absurd (cc q);
  small = omega arith;
}

Viewed-IsSound :
    {h : Store} (a n : ℕ) (r : Option ℕ × Store) → IsSound h → Viewed h a n r → IsSound r.1
Viewed-IsSound a n (none, h') ok same = subst IsSound (sym same) ok
Viewed-IsSound a n (some v, h') ok shows = shows.sound

-- In any run of creations, views, releases and other work on buffers in use, each buffer in use counts the
-- views of it that are in use, the source of such a view is itself in use, and a cache holds a released
-- view of its owner, which nobody uses.
pub Run-IsSound : {h : Store} → Run h → IsSound h
unfolding create
Run-IsSound start = empty-IsSound
Run-IsSound (created {h} {r} size prepend_size got_struct got_block run e) =
    let (b, made, stored) =
      >>=-eq-some (create_ex size prepend_size got_struct got_block)
        (λ made. some (store_created h made)) e in
    subst (λ (r : Option ℕ × Store). IsSound r.1) (some_inj stored)
      (store_created-IsSound b (Run-IsSound run) (λ new q.
        create_ex-IsUnlinked size prepend_size got_struct got_block new (made ∙ ap some q)))
Run-IsSound (viewed {h} {r} room a sz run used e) =
    let ok = Run-IsSound run in
    elim (Bool-cases (sle32 sz 0)) [
      | inl none_asked ↦ absurd (cc (e, readonly_view_refused room h a sz none_asked))
      | inr positive ↦
          Viewed-IsSound a _ r ok
            (value_of (readonly_view-Viewed ok a _ used room sz positive refl) e)
    ]
Run-IsSound (released {h} a run used e) =
    let ok = Run-IsSound run in
    elim (Bool-cases ((at h a).buffer.refcount == 0)) [
      | inl zero_count ↦
          (value_of (release-Released ok a used ((==_iff (at h a).buffer.refcount 0).0 zero_count))
            e).sound
      | inr more ↦ absurd (cc (e, release_refused h a used more))
    ]
Run-IsSound (worked_on a b run used p q r) = worked-IsSound (Run-IsSound run) a b used p q r

-- In any run, buf_release of a buffer in use succeeds if no view of it is in use: then the count of the
-- views stays right, the buffer is not in use any more, and every other buffer stays in use with what it
-- holds. It fails its assertion if there is such a view.
pub Run-release :
    {h : Store} (a : ℕ)
    → Run h
    → (at h a).use_of ≡ in_use
    → ((views h a ≡ 0) × Returns (release h a) (Released h a))
      ⊎ ((0 < views h a) × (release h a ≡ none))
Run-release {h} a run used =
    let ok = Run-IsSound run in
    elim (Bool-cases ((at h a).buffer.refcount == 0)) [
      | inl zero_count ↦
          let none_left = (==_iff (at h a).buffer.refcount 0).0 zero_count in
          inl (sym (ok.counted a used) ∙ none_left, release-Released ok a used none_left)
      | inr more ↦ inr (ground (arith, more, ok.counted a used), release_refused h a used more)
    ]
