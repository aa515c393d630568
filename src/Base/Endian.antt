-- ===== src/Base/Endian.antt =====
-- Integers as bytes in memory, in little and big endian order (base/endian.h).
use Prim.Native.Nat.{ℕ, zero, suc, ◌+◌, ◌*◌, ◌/◌, ◌%◌, ◌^◌, ◌<◌}
use mathlib.Core.Path.{◌≡◌, refl, ap, ◌∙◌}
use mathlib.Core.List.{[], ◌∷◌, reverse, reverse-reverse, reverse-append}
use native.Mathlib.Omega.{arith}
use native.Mathlib.Nat.{pow-suc}
use wee.Base.Lists.{length, length-append}
use wee.Base.Memory.{Bytes}

-- The w bytes of x, lowest first.
unfoldable pub le_bytes : ℕ → ℕ → Bytes
le_bytes zero x = []
le_bytes (suc w) x = (x % 256) ∷ le_bytes w (x / 256)

-- The number that bytes stand for, lowest first.
unfoldable pub of_le : Bytes → ℕ
of_le [] = 0
of_le (b ∷ bs) = b + 256 * of_le bs

-- The same, highest first: htobe16, htobe32, htobe64 and their inverses.
unfoldable pub be_bytes : ℕ → ℕ → Bytes
unfolding le_bytes
be_bytes w x = reverse (le_bytes w x)

unfoldable pub of_be : Bytes → ℕ
unfolding of_le
of_be bs = of_le (reverse bs)

pow_step : (w x : ℕ) → x < 256 ^ suc w → x / 256 < 256 ^ w
pow_step w x h = bound (256 ^ w) (rw pow-suc at h)
  where
    bound : (m : ℕ) → x < m * 256 → x / 256 < m
    bound m p = omega arith

pub of_le-le_bytes : (w x : ℕ) → x < 256 ^ w → of_le (le_bytes w x) ≡ x
unfolding of_le le_bytes
of_le-le_bytes zero x h = omega arith
of_le-le_bytes (suc w) x h = omega (arith, of_le-le_bytes w (x / 256) (pow_step w x h))

pub of_be-be_bytes : (w x : ℕ) → x < 256 ^ w → of_be (be_bytes w x) ≡ x
unfolding of_be be_bytes
of_be-be_bytes w x h = ap of_le (reverse-reverse (le_bytes w x)) ∙ of_le-le_bytes w x h

pub length-le_bytes : (w x : ℕ) → length (le_bytes w x) ≡ w
unfolding le_bytes
length-le_bytes zero x = refl
length-le_bytes (suc w) x = ap suc (length-le_bytes w (x / 256))

length-reverse : (xs : Bytes) → length (reverse xs) ≡ length xs
length-reverse [] = refl
length-reverse (x ∷ xs) =
    ap length (reverse-append (x ∷ []) xs)
    ∙ length-append (reverse xs) (x ∷ [])
    ∙ omega (arith, length-reverse xs)

pub length-be_bytes : (w x : ℕ) → length (be_bytes w x) ≡ w
unfolding be_bytes
length-be_bytes w x = length-reverse (le_bytes w x) ∙ length-le_bytes w x
