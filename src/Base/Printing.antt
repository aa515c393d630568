-- ===== src/Base/Printing.antt =====
-- What the programs print, and what they ask of the vendored base/cJSON.c.
use wee.Base.{
  ◌≡◌, ◌≢◌, refl, ap, ap₂, Bool, true, false, ◌&&◌, Option, [], ◌∷◌, ◌==◌, if◌then◌else◌, arith,
}
use wee.Base.Memory.{Bytes}

-- What stands in front of the first 0 of a block, or all of it: what a function of C strings sees.
abbrev pub c_str : Bytes → Bytes
c_str [] = []
c_str (x ∷ xs) = if x == 0 then [] else x ∷ c_str xs

-- strcmp says that two strings are the same
abbrev pub str_eq : Bytes → Bytes → Bool
str_eq [] [] = true
str_eq [] (y ∷ ys) = false
str_eq (x ∷ xs) [] = false
str_eq (x ∷ xs) (y ∷ ys) = x == y && str_eq xs ys

pub eq_of_str_eq : (xs ys : Bytes) → str_eq xs ys ≡ true → xs ≡ ys
eq_of_str_eq [] [] e = refl
eq_of_str_eq [] (y ∷ ys) e = absurd (cc)
eq_of_str_eq (x ∷ xs) [] e = absurd (cc)
eq_of_str_eq (x ∷ xs) (y ∷ ys) e =
    ap₂ (λ h t. h ∷ t) (ground (arith, e)) (eq_of_str_eq xs ys (ground (arith, e)))

str_eq_self : (xs : Bytes) → str_eq xs xs ≡ true
str_eq_self [] = refl
str_eq_self (x ∷ xs) = ground (arith, str_eq_self xs)

pub ne_of_str_eq : (xs ys : Bytes) → str_eq xs ys ≡ false → xs ≢ ys
ne_of_str_eq xs ys e same = absurd (cc (str_eq_self xs, ap (str_eq xs) same, e))

-- A line that is printed: in red, in green or in no colour; a text without the end of the line; an
-- attachment, behind a label; and the message that a packet was an event.
pub data Line : Type 0 where
  red : Bytes → Line
  green : Bytes → Line
  plain : Bytes → Line
  bare : Bytes → Line
  attachment : Bytes → Line
  event : Line

-- cJSON_Parse, where NULL is none, cJSON_IsObject, cJSON_GetObjectItem, cJSON_Print and
-- cJSON_PrintUnformatted, over the values that they hand on
pub record Json : Type 1 where
  pub J : Type 0
  pub parse : Bytes → Option J
  pub is_object : J → Bool
  pub object_item : J → Bytes → Option J
  pub print : J → Bytes
  pub print_unformatted : J → Bytes
