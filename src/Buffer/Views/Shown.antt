-- ===== src/Buffer/Views/Shown.antt =====
-- What can be read through a read-only view of base/buffer.c.
use wee.Base.{
  ℕ, ◌-◌, ◌≤◌, ◌≡◌, inl, inr, refl, sym, ap, subst, ◌∙◌, Bool, false, Bool-cases, Option, none,
  some, zero, suc, [], ◌∷◌, length, take, drop, length-drop, length-take_of_le, ltb, if◌then◌else◌,
  Returns, arith,
}
use wee.Base.Memory.{Bytes, slice}
use wee.Base.Word.{sle32}
use wee.Buffer.{Buffer, readable, peek}
use wee.Buffer.Valid.{IsValid, readable_lem}
use wee.Buffer.Content.{contents, length-contents}
use wee.Buffer.Chain.{Holds}
use wee.Buffer.Views.{in_use, Cell, Store, at, view_of, readonly_view}
use wee.Buffer.Views.Showing.{Showing}
use wee.Buffer.Views.Viewed.{Viewed, readonly_view-Viewed}
use wee.Buffer.Views.Runs.{Run, Run-IsSound}

take-take : (n m : ℕ) (xs : Bytes) → n ≤ m → take n (take m xs) ≡ take n xs
take-take zero m xs l = refl
take-take (suc n) zero xs l = absurd (omega arith)
take-take (suc n) (suc m) [] l = refl
take-take (suc n) (suc m) (x ∷ xs) l = ap (λ t. x ∷ t) (take-take n m xs (omega arith))

take_all : (n : ℕ) (xs : Bytes) → length xs ≤ n → take n xs ≡ xs
take_all zero [] l = refl
take_all zero (x ∷ xs) l = absurd (omega arith)
take_all (suc n) [] l = refl
take_all (suc n) (x ∷ xs) l = ap (λ t. x ∷ t) (take_all n xs (omega arith))

-- how many bytes a view for sz bytes has
abbrev pub clamped : Buffer → ℕ → ℕ
clamped b sz = if ltb (readable b) sz then readable b else sz

clamped-le : (b : Buffer) (sz : ℕ) → clamped b sz ≤ readable b
clamped-le b sz = ground arith

take-clamped :
    (b : Buffer) (sz : ℕ)
    → IsValid b
    → take (clamped b sz) (drop b.read_idx b.buf) ≡ take sz (contents b)
unfolding slice
take-clamped b sz v = elim (Bool-cases (ltb (readable b) sz)) [
  | inl less ↦
      ap (λ t. take (if t then readable b else sz) (drop b.read_idx b.buf)) less
      ∙ ap (λ n. take n (drop b.read_idx b.buf)) (readable_lem v)
      ∙ sym (take_all sz (contents b) (ground (arith, less, length-contents v)))
  | inr more ↦
      ap (λ t. take (if t then readable b else sz) (drop b.read_idx b.buf)) more
      ∙ sym (
          take-take sz (b.write_idx - b.read_idx) (drop b.read_idx b.buf)
            (ground (arith, more, readable_lem v)))
]

view_of-Holds :
    (a : ℕ) (b : Buffer) (sz : ℕ)
    → IsValid b
    → Holds (view_of a b (clamped b sz)) (take sz (contents b))
unfolding slice peek
view_of-Holds a b sz v = record {
  valid = record {
    ordered = omega arith;
    within = omega arith;
    whole = length-take_of_le (clamped b sz) (drop b.read_idx b.buf) short;
    small = omega (arith, clamped-le b sz, readable_lem v, v.within, v.small);
    front = omega arith;
  };
  bytes =
      ap (λ n. take n (take (clamped b sz) (drop b.read_idx b.buf))) (omega arith)
      ∙ take-take (clamped b sz) (clamped b sz) (drop b.read_idx b.buf) (omega arith)
      ∙ take-clamped b sz v;
}
  where
    short : clamped b sz ≤ length (drop b.read_idx b.buf)
    short = omega (
      arith,
      clamped-le b sz,
      readable_lem v,
      v.within,
      v.whole,
      v.ordered,
      length-drop b.read_idx b.buf,
    )

-- what a call for sz bytes leaves
abbrev pub Shown : Store → ℕ → ℕ → Option ℕ × Store → Type 0
Shown h a sz (none, h') = h' ≡ h
Shown h a sz (some v, h') =
    Showing h a (clamped (at h a).buffer sz) v h'
    × Holds (at h' v).buffer (take sz (contents (at h a).buffer))

-- In any run, buf_readonlyView for a positive number of bytes of a valid buffer in use succeeds. Where it
-- returns NULL nothing changes. Else its result was not in use before, and holds the first of the bytes
-- held, at most as many as were asked for; the buffer is locked for writes, all buffers in use stay in
-- use with what they hold, and the count of the views stays right.
pub Run-readonly_view :
    {h : Store} (room : Bool) (a sz : ℕ)
    → Run h
    → (at h a).use_of ≡ in_use
    → IsValid (at h a).buffer
    → sle32 sz 0 ≡ false
    → Returns (readonly_view room h a sz) (Shown h a sz)
Run-readonly_view {h} room a sz run used valid positive =
    let r =
      readonly_view-Viewed (Run-IsSound run) a (clamped (at h a).buffer sz) used room sz positive
        refl in
    record { value = r.value; is_value = r.is_value; holds = with_bytes r.value r.holds }
  where
    with_bytes : (r : Option ℕ × Store) → Viewed h a (clamped (at h a).buffer sz) r → Shown h a sz r
    with_bytes (none, h') same = same
    with_bytes (some v, h') shows = (
      shows,
      subst (λ (c : Cell). Holds c.buffer (take sz (contents (at h a).buffer))) (sym shows.view)
          (view_of-Holds a (at h a).buffer sz valid),
    )
