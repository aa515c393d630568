-- ===== src/Buffer/Search.antt =====
-- The searches of base/buffer.c for a string, by memmem. A result is an offset from `buf_peek`.
use wee.Base.{
  ℕ, ◌<◌, ◌≡◌, refl, sym, ap, subst, ◌∙◌, Bool, true, false, Bool-cases, inl, inr, Option, none,
  some, zero, suc, [], ◌∷◌, length, take, drop, drop-nil, ◌==◌, ==_iff, if◌then◌else◌, if_ind,
  arith,
}
use wee.Base.Memory.{Bytes, slice}
use wee.Buffer.{Buffer, readable, peek}
use wee.Buffer.Valid.{IsValid, readable_lem}
use wee.Buffer.Content.{contents}

abbrev pub starts_with : Bytes → Bytes → Bool
starts_with [] xs = true
starts_with (p ∷ ps) [] = false
starts_with (p ∷ ps) (x ∷ xs) = if p == x then starts_with ps xs else false

abbrev pub one_further : Option ℕ → Option ℕ
one_further none = none
one_further (some i) = some (suc i)

-- `memmem`
abbrev pub memmem : Bytes → Bytes → Option ℕ
memmem ps [] = if starts_with ps [] then some 0 else none
memmem ps (x ∷ xs) =
    let further = one_further (memmem ps xs) in if starts_with ps (x ∷ xs) then some 0 else further

-- `buf_findStr`; the string is given without its final 0
unfoldable pub find_str : Buffer → Bytes → Option ℕ
find_str b ps = memmem ps (slice b.buf (peek b) (readable b))

-- `buf_findCRLF`
unfoldable pub find_crlf : Buffer → Option ℕ
find_crlf b = memmem (13 ∷ 10 ∷ []) (slice b.buf (peek b) (readable b))

-- the string stands at the offset i
abbrev pub StandsAt : Bytes → Bytes → ℕ → Type 0
StandsAt ps xs i = take (length ps) (drop i xs) ≡ ps

starts_with-take : (ps xs : Bytes) → starts_with ps xs ≡ true → take (length ps) xs ≡ ps
starts_with-take [] xs e = refl
starts_with-take (p ∷ ps) [] e = absurd (cc e)
starts_with-take (p ∷ ps) (x ∷ xs) e = elim (Bool-cases (p == x)) [
  | inl same ↦
      ap (λ y. y ∷ take (length ps) xs) (sym ((==_iff p x).0 same))
      ∙ ap (λ t. p ∷ t)
          (starts_with-take ps xs (sym (ap (λ t. if t then starts_with ps xs else false) same) ∙ e))
  | inr differs ↦ absurd (cc (differs, e))
]

take-starts_with : (ps xs : Bytes) → take (length ps) xs ≡ ps → starts_with ps xs ≡ true
take-starts_with [] xs e = refl
take-starts_with (p ∷ ps) [] e = absurd (cc e)
take-starts_with (p ∷ ps) (x ∷ xs) e =
    let same : x ≡ p = cc e in
    let rest : take (length ps) xs ≡ ps = cc e in
    ap (λ t. if t then starts_with ps xs else false) ((==_iff p x).1 (sym same))
    ∙ take-starts_with ps xs rest

-- What a search tells: the string stands at the offset and at none before, or at none at all.
abbrev pub Finds : Bytes → Bytes → Option ℕ → Type 0
Finds ps xs none = (j : ℕ) → StandsAt ps xs j → ⊥
Finds ps xs (some i) = StandsAt ps xs i × ((j : ℕ) → j < i → StandsAt ps xs j → ⊥)

stands_later :
    (ps xs : Bytes) (x j : ℕ)
    → starts_with ps (x ∷ xs) ≡ false
    → ((k : ℕ) → j ≡ suc k → StandsAt ps xs k → ⊥)
    → StandsAt ps (x ∷ xs) j
    → ⊥
stands_later ps xs x zero e later here = cc (take-starts_with ps (x ∷ xs) here, e)
stands_later ps xs x (suc k) e later here = later k refl here

one_further-Finds :
    (ps xs : Bytes) (x : ℕ) (r : Option ℕ)
    → starts_with ps (x ∷ xs) ≡ false
    → Finds ps xs r
    → Finds ps (x ∷ xs) (one_further r)
one_further-Finds ps xs x none e f =
    λ j here. stands_later ps xs x j e (λ k _ there. f k there) here
one_further-Finds ps xs x (some i) e f = (
  f.0,
  λ j l here. stands_later ps xs x j e (λ k same there. f.1 k (omega (arith, same, l)) there) here,
)

memmem-Finds : (ps xs : Bytes) → Finds ps xs (memmem ps xs)
memmem-Finds ps [] =
    if_ind {A = Option ℕ} (Finds ps []) (starts_with ps [])
      (λ found. (starts_with-take ps [] found, λ j l here. absurd (omega (arith, l))))
      (λ e j here. cc (take-starts_with ps [] (sym (ap (take (length ps)) (drop-nil j)) ∙ here), e))
memmem-Finds ps (x ∷ xs) =
    if_ind {A = Option ℕ} (Finds ps (x ∷ xs)) (starts_with ps (x ∷ xs))
      (λ found. (starts_with-take ps (x ∷ xs) found, λ j l here. absurd (omega (arith, l))))
      (λ e. one_further-Finds ps xs x (memmem ps xs) e (memmem-Finds ps xs))

-- buf_findStr of a valid buffer returns the first place where the string stands in the bytes held, or NULL
-- where it stands nowhere in them.
pub find_str-Finds : {b : Buffer} (ps : Bytes) → IsValid b → Finds ps (contents b) (find_str b ps)
unfolding find_str peek
find_str-Finds {b} ps v =
    subst (λ n. Finds ps (contents b) (memmem ps (slice b.buf b.read_idx n))) (sym (readable_lem v))
      (memmem-Finds ps (contents b))
