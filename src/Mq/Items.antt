-- ===== src/Mq/Items.antt =====
-- The list of f i, f (i + 1), … of a given length.
use wee.Base.{
  ℕ, zero, suc, ◌+◌, ◌<◌, ◌≡◌, refl, ap, ap₂, ◌∙◌, List, [], ◌∷◌, ◌++◌, get_or, length, arith,
}

module _ {A : Type 0} where
  abbrev pub items : (ℕ → A) → ℕ → ℕ → List A
  items f i zero = []
  items f i (suc n) = f i ∷ items f (i + 1) n

  pub items-ext :
      (f g : ℕ → A) (i j n : ℕ)
      → ((k : ℕ) → k < n → f (i + k) ≡ g (j + k))
      → items f i n ≡ items g j n
  items-ext f g i j zero h = refl
  items-ext f g i j (suc n) h =
      ap₂ ◌∷◌ (ap f (omega arith) ∙ h 0 (omega arith) ∙ ap g (omega arith)) (
        items-ext f g (i + 1) (j + 1) n
          (λ k lt. ap f (omega arith) ∙ h (suc k) (omega arith) ∙ ap g (omega arith)))

  pub items-snoc : (f : ℕ → A) (i n : ℕ) → items f i (suc n) ≡ items f i n ++ (f (i + n) ∷ [])
  items-snoc f i zero = ap (λ k. f k ∷ []) (omega arith)
  items-snoc f i (suc n) =
      ap (λ r. f i ∷ r)
        (items-snoc f (i + 1) n ∙ ap (λ k. items f (i + 1) n ++ (f k ∷ [])) (omega arith))

  pub length-items : (f : ℕ → A) (i n : ℕ) → length (items f i n) ≡ n
  length-items f i zero = refl
  length-items f i (suc n) = ap suc (length-items f (i + 1) n)

  pub get_or-items :
      (f : ℕ → A) (i n j : ℕ) (rest : List A) (d : A)
      → j < n
      → get_or (items f i n ++ rest) j d ≡ f (i + j)
  get_or-items f i zero j rest d h = absurd (omega arith)
  get_or-items f i (suc n) zero rest d h = ap f (omega arith)
  get_or-items f i (suc n) (suc j) rest d h =
      get_or-items f (i + 1) n j rest d (omega arith) ∙ ap f (omega arith)
