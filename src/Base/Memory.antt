-- ===== src/Base/Memory.antt =====
-- Blocks of memory as lists of bytes: `slice` is what a read of n bytes at an offset sees, and
-- `blit` is memcpy into a block. `blit` drops what would fall behind the block's end.
use Prim.Native.Nat.{ℕ, zero, suc, ◌+◌, ◌≤◌}
use mathlib.Core.Path.{◌≡◌, refl, ap, ap₂, sym, subst, ◌∙◌}
use mathlib.Core.List.{List, [], ◌∷◌, ◌++◌}
use native.Mathlib.Omega.{arith}
use wee.Base.Lists.{
  length, take, drop, length-take_of_le, length-drop, drop-nil, take-nil, append-inj,
  drop-length-append, take-length-append,
}

abbrev pub Bytes : Type 0
Bytes = List ℕ

unfoldable pub slice : Bytes → ℕ → ℕ → Bytes
slice xs i n = take n (drop i xs)

unfoldable pub blit : Bytes → ℕ → Bytes → Bytes
blit [] i d = []
blit (x ∷ xs) zero [] = x ∷ xs
blit (x ∷ xs) zero (d ∷ ds) = d ∷ blit xs zero ds
blit (x ∷ xs) (suc i) d = x ∷ blit xs i d

pub length-blit : (xs : Bytes) (i : ℕ) (d : Bytes) → length (blit xs i d) ≡ length xs
unfolding blit
length-blit [] i d = refl
length-blit (x ∷ xs) zero [] = refl
length-blit (x ∷ xs) zero (d ∷ ds) = ap suc (length-blit xs zero ds)
length-blit (x ∷ xs) (suc i) d = ap suc (length-blit xs i d)

pub length-slice : (xs : Bytes) (i n : ℕ) → i + n ≤ length xs → length (slice xs i n) ≡ n
unfolding slice
length-slice xs i n h = length-take_of_le n (drop i xs) (omega (arith, length-drop i xs))

pub take-add : (n m : ℕ) (xs : Bytes) → take (n + m) xs ≡ take n xs ++ take m (drop n xs)
take-add zero m xs = ap (λ k. take k xs) (omega arith)
take-add (suc n) m [] = ap (λ k. take k []) (omega arith) ∙ take-nil (n + suc m) ∙ sym (take-nil m)
take-add (suc n) m (x ∷ xs) = ap (λ k. take k (x ∷ xs)) suc-add ∙ ap (λ r. x ∷ r) (take-add n m xs)
  where
    suc-add : suc n + m ≡ suc (n + m)
    suc-add = omega arith

pub drop-drop : (n m : ℕ) (xs : Bytes) → drop m (drop n xs) ≡ drop (n + m) xs
drop-drop zero m xs = ap (λ k. drop k xs) (omega arith)
drop-drop (suc n) m [] = drop-nil m ∙ sym (drop-nil (suc n + m))
drop-drop (suc n) m (x ∷ xs) = drop-drop n m xs ∙ ap (λ k. drop k (x ∷ xs)) suc-add
  where
    suc-add : suc (n + m) ≡ suc n + m
    suc-add = omega arith

-- A read of n + m bytes is a read of n and one of m behind it.
pub slice-add : (xs : Bytes) (i n m : ℕ) → slice xs i (n + m) ≡ slice xs i n ++ slice xs (i + n) m
unfolding slice
slice-add xs i n m =
    take-add n m (drop i xs) ∙ ap (λ r. take n (drop i xs) ++ take m r) (drop-drop i n xs)

pub slice-slice : (xs : Bytes) (i n j : ℕ) → slice (drop i xs) j n ≡ slice xs (i + j) n
unfolding slice
slice-slice xs i n j = ap (take n) (drop-drop i j xs)

-- What was copied in is read back.
pub slice-blit_self :
    (xs : Bytes) (i : ℕ) (d : Bytes)
    → i + length d ≤ length xs
    → slice (blit xs i d) i (length d) ≡ d
unfolding slice blit
slice-blit_self [] zero [] h = refl
slice-blit_self [] (suc i) [] h = refl
slice-blit_self [] i (d ∷ ds) h = absurd (omega arith)
slice-blit_self (x ∷ xs) zero [] h = refl
slice-blit_self (x ∷ xs) zero (d ∷ ds) h =
    ap (λ r. d ∷ r) (slice-blit_self xs zero ds (omega arith))
slice-blit_self (x ∷ xs) (suc i) d h = slice-blit_self xs i d (omega arith)

-- What lies in front of the copy is kept.
pub slice-blit_before :
    (xs : Bytes) (i : ℕ) (d : Bytes) (j n : ℕ) → j + n ≤ i → slice (blit xs i d) j n ≡ slice xs j n
unfolding slice blit
slice-blit_before [] i d j n h = refl
slice-blit_before (x ∷ xs) zero d zero zero h = refl
slice-blit_before (x ∷ xs) zero d j (suc n) h = absurd (omega arith)
slice-blit_before (x ∷ xs) zero d (suc j) zero h = absurd (omega arith)
slice-blit_before (x ∷ xs) (suc i) d zero zero h = refl
slice-blit_before (x ∷ xs) (suc i) d zero (suc n) h =
    ap (λ r. x ∷ r) (slice-blit_before xs i d zero n (omega arith))
slice-blit_before (x ∷ xs) (suc i) d (suc j) n h = slice-blit_before xs i d j n (omega arith)

-- What lies behind the copy is kept.
pub slice-blit_after :
    (xs : Bytes) (i : ℕ) (d : Bytes) (j n : ℕ)
    → i + length d ≤ j
    → slice (blit xs i d) j n ≡ slice xs j n
unfolding slice blit
slice-blit_after [] i d j n h = refl
slice-blit_after (x ∷ xs) zero [] j n h = refl
slice-blit_after (x ∷ xs) zero (d ∷ ds) zero n h = absurd (omega arith)
slice-blit_after (x ∷ xs) zero (d ∷ ds) (suc j) n h = slice-blit_after xs zero ds j n (omega arith)
slice-blit_after (x ∷ xs) (suc i) d zero n h = absurd (omega arith)
slice-blit_after (x ∷ xs) (suc i) d (suc j) n h = slice-blit_after xs i d j n (omega arith)

pub slice-zero : (xs : Bytes) (i : ℕ) → slice xs i 0 ≡ []
unfolding slice
slice-zero xs i = refl

-- A block of n bytes that is copied to another place is found there.
pub slice-blit-slice :
    (xs ys : Bytes) (p r n : ℕ)
    → p + n ≤ length xs
    → r + n ≤ length ys
    → slice (blit xs p (slice ys r n)) p n ≡ slice ys r n
slice-blit-slice xs ys p r n hx hy =
    let e = length-slice ys r n hy in
    subst (λ k. slice (blit xs p (slice ys r n)) p k ≡ slice ys r n) e
      (slice-blit_self xs p (slice ys r n) (omega (arith, e)))

-- What a longer read begins with, and what it goes on with.
pub slice-split :
    (xs : Bytes) (i n m : ℕ) (d rest : Bytes)
    → i + (n + m) ≤ length xs
    → n ≡ length d
    → slice xs i (n + m) ≡ d ++ rest
    → (slice xs i n ≡ d) × (slice xs (i + n) m ≡ rest)
slice-split xs i n m d rest h e s =
    append-inj (slice xs i n) (slice xs (i + n) m) d rest (length-slice xs i n (omega arith) ∙ e)
      (sym (slice-add xs i n m) ∙ s)

-- A field in the middle of a record on the wire.
pub slice-middle :
    (xs d rest : Bytes) (i n : ℕ) → length xs ≡ i → length d ≡ n → slice (xs ++ (d ++ rest)) i n ≡ d
unfolding slice
slice-middle xs d rest i n hi hn =
    ap₂ (slice (xs ++ (d ++ rest))) (sym hi) (sym hn)
    ∙ ap (take (length d)) (drop-length-append xs (d ++ rest))
    ∙ take-length-append d rest

drop-append : (pre xs : Bytes) (i : ℕ) → drop (length pre + i) (pre ++ xs) ≡ drop i xs
drop-append [] xs i = ap (λ k. drop k xs) (omega arith)
drop-append (x ∷ pre) xs i =
    let e : suc (length pre) + i ≡ suc (length pre + i) = omega arith in
    ap (λ k. drop k (x ∷ (pre ++ xs))) e ∙ drop-append pre xs i

take-drop-append :
    (h post : Bytes) (i n : ℕ) → i + n ≤ length h → take n (drop i (h ++ post)) ≡ take n (drop i h)
take-drop-append h post zero zero le = refl
take-drop-append [] post zero (suc n) le = absurd (omega arith)
take-drop-append (x ∷ h) post zero (suc n) le =
    ap (λ r. x ∷ r) (take-drop-append h post zero n (omega arith))
take-drop-append [] post (suc i) n le = absurd (omega arith)
take-drop-append (x ∷ h) post (suc i) n le = take-drop-append h post i n (omega arith)

-- A part of a block that stands behind others.
pub slice-inside :
    (pre h post : Bytes) (i n : ℕ)
    → i + n ≤ length h
    → slice (pre ++ (h ++ post)) (length pre + i) n ≡ slice h i n
unfolding slice
slice-inside pre h post i n le =
    ap (take n) (drop-append pre (h ++ post) i) ∙ take-drop-append h post i n le

-- What stands behind a part of a block, from inside the part on.
pub drop-inside :
    (pre h post : Bytes) (i : ℕ) → i ≡ length h → drop (length pre + i) (pre ++ (h ++ post)) ≡ post
drop-inside pre h post i e =
    drop-append pre (h ++ post) i ∙ ap (λ k. drop k (h ++ post)) e ∙ drop-length-append h post
