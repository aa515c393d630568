-- ===== src/ThreadPool/Nodes.antt =====
-- What base/threadpool.c relies on of the queue macros of base/queue.h.
use wee.Base.{
  ℕ, ◌+◌, ◌≤◌, ◌≡◌, refl, Bool, true, false, List, [], ◌∷◌, ◌++◌, length, ◌==◌, if◌then◌else◌,
  arith,
}

-- the list without the first n
abbrev pub erase : ℕ → List ℕ → List ℕ
erase n [] = []
erase n (x ∷ xs) = if x == n then xs else x ∷ erase n xs

abbrev pub first : List ℕ → ℕ
first [] = 0
first (x ∷ xs) = x

abbrev pub member : ℕ → List ℕ → Bool
member n [] = false
member n (x ∷ xs) = if x == n then true else member n xs

abbrev pub none_in : List ℕ → Bool
none_in [] = true
none_in (x ∷ xs) = false

pub length-erase-first :
    (xs : List ℕ) → none_in xs ≡ false → length (erase (first xs) xs) + 1 ≡ length xs
length-erase-first [] e = absurd (cc)
length-erase-first (x ∷ xs) e = ground arith

pub length-erase-member :
    (n : ℕ) (xs : List ℕ) → member n xs ≡ true → length (erase n xs) + 1 ≡ length xs
length-erase-member n [] e = absurd (cc)
length-erase-member n (x ∷ xs) e = ground (arith, length-erase-member n xs)

pub length-erase-le : (n : ℕ) (xs : List ℕ) → length (erase n xs) ≤ length xs
length-erase-le n [] = omega arith
length-erase-le n (x ∷ xs) = ground (arith, length-erase-le n xs)

pub length-none_in : (xs : List ℕ) → none_in xs ≡ true → length xs ≡ 0
length-none_in [] e = refl
length-none_in (x ∷ xs) e = absurd (cc)

pub erase-nonmember : (n : ℕ) (xs : List ℕ) → member n xs ≡ false → erase n xs ≡ xs
erase-nonmember n [] e = refl
erase-nonmember n (x ∷ xs) e = ground (arith, erase-nonmember n xs)

-- how often a node is in a list
abbrev pub times : ℕ → List ℕ → ℕ
times n [] = 0
times n (x ∷ xs) = if x == n then times n xs + 1 else times n xs

pub times-append : (n : ℕ) (xs ys : List ℕ) → times n (xs ++ ys) ≡ times n xs + times n ys
times-append n [] ys = omega arith
times-append n (x ∷ xs) ys = ground (arith, times-append n xs ys)

pub times-erase-member :
    (n t : ℕ) (xs : List ℕ)
    → member t xs ≡ true
    → times n (erase t xs) + times n (t ∷ []) ≡ times n xs
times-erase-member n t [] e = absurd (cc)
times-erase-member n t (x ∷ xs) e = ground (arith, times-erase-member n t xs)

-- QUEUE_INIT of a head, QUEUE_EMPTY, QUEUE_HEAD, QUEUE_INSERT_TAIL and QUEUE_REMOVE, over the sequence
-- of the nodes that are linked. A node that was taken out and made a queue of its own by QUEUE_INIT
-- is not among them, and QUEUE_REMOVE of it changes nothing.
pub record Queue : Type 1 where
  pub Q : Type 0
  pub items : Q → List ℕ
  pub empty : Q
  pub is_empty : Q → Bool
  pub head : Q → ℕ
  pub insert_tail : Q → ℕ → Q
  pub remove : Q → ℕ → Q
  pub items-empty : items empty ≡ []
  pub is_empty_lem : (q : Q) → is_empty q ≡ none_in (items q)
  pub head_lem : (q : Q) → is_empty q ≡ false → head q ≡ first (items q)
  pub items-insert_tail : (q : Q) (n : ℕ) → items (insert_tail q n) ≡ items q ++ (n ∷ [])
  pub items-remove : (q : Q) (n : ℕ) → items (remove q n) ≡ erase n (items q)

-- Lists are such queues.
abbrev pub lists : Queue
lists = record {
  Q = List ℕ;
  items = λ xs. xs;
  empty = [];
  is_empty = none_in;
  head = first;
  insert_tail = λ xs n. xs ++ (n ∷ []);
  remove = λ xs n. erase n xs;
  items-empty = refl;
  is_empty_lem = λ xs. refl;
  head_lem = λ xs e. refl;
  items-insert_tail = λ xs n. refl;
  items-remove = λ xs n. refl;
}
