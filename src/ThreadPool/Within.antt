-- ===== src/ThreadPool/Within.antt =====
-- One list within another: its elements in their order, with others left out.
use wee.Base.{
  ℕ, ◌≡◌, refl, ap, sym, subst, ◌⊎◌, inl, inr, List, [], ◌∷◌, ◌++◌, append_assoc, ◌==◌, if_ind,
}
use wee.ThreadPool.Nodes.{erase}

abbrev pub Within : List ℕ → List ℕ → Type 0
Within xs [] = xs ≡ []
Within xs (y ∷ ys) = Within xs ys ⊎ ((rest : List ℕ) × (xs ≡ y ∷ rest) × Within rest ys)

pub Within-snoc : (xs ys : List ℕ) (x : ℕ) → Within xs ys → Within (xs ++ (x ∷ [])) (ys ++ (x ∷ []))
Within-snoc xs [] x w = inr ([], ap (λ l. l ++ (x ∷ [])) w, refl)
Within-snoc xs (y ∷ ys) x (inl w) = inl (Within-snoc xs ys x w)
Within-snoc xs (y ∷ ys) x (inr (rest, e, w)) =
    inr (rest ++ (x ∷ []), ap (λ l. l ++ (x ∷ [])) e, Within-snoc rest ys x w)

tail_of : List ℕ → List ℕ
tail_of [] = []
tail_of (x ∷ xs) = xs

Within-drop : (xs zs ys : List ℕ) (x : ℕ) → Within (xs ++ (x ∷ zs)) ys → Within (xs ++ zs) ys
unfolding tail_of
Within-drop [] zs [] x w = absurd (cc)
Within-drop (a ∷ xs) zs [] x w = absurd (cc)
Within-drop xs zs (y ∷ ys) x (inl w) = inl (Within-drop xs zs ys x w)
Within-drop [] zs (y ∷ ys) x (inr (rest, e, w)) =
    inl (subst (λ l. Within l ys) (sym (ap tail_of e)) w)
Within-drop (a ∷ xs) zs (y ∷ ys) x (inr (rest, e, w)) =
    inr (xs ++ zs, cc, Within-drop xs zs ys x (subst (λ l. Within l ys) (sym (ap tail_of e)) w))

pub Within-erase : (xs zs ys : List ℕ) (x : ℕ) → Within (xs ++ zs) ys → Within (xs ++ erase x zs) ys
Within-erase xs [] ys x w = w
Within-erase xs (z ∷ zs) ys x w =
    if_ind (λ l. Within (xs ++ l) ys) (z == x) (λ _. Within-drop xs zs ys z w)
      (λ _.
        subst (λ l. Within l ys) (append_assoc xs (z ∷ []) (erase x zs))
          (Within-erase (xs ++ (z ∷ [])) zs ys x
            (subst (λ l. Within l ys) (sym (append_assoc xs (z ∷ []) zs)) w)))
