-- ===== src/Mq/Fifo.antt =====
-- base/mq.c as a queue: its invariant, and that a pop takes the first message.
use wee.Base.{
  ℕ, suc, ◌+◌, ◌-◌, ◌^◌, ◌<◌, ◌≡◌, ◌≢◌, refl, ap, ◌∙◌, Option, none, some, List, [], ◌∷◌, get_or,
  replicate, ltb, if◌then◌else◌, length, length-replicate, arith,
}
use native.Mathlib.Decide.{ℕ_discrete}
use wee.Mq.Items.{items, items-ext, length-items}
use wee.Mq.{Msg, Mq, blank, mq_create, mq_count, next_index, mq_pop}

-- The indices lie in the array. A full array does not occur: head ≡ tail is the empty queue.
pub record IsValid (m : Mq) : Type 0 where
  pub head_in : m.head < m.cap
  pub tail_in : m.tail < m.cap
  pub whole : length m.q ≡ m.cap
  pub small : m.cap < 2 ^ 31

-- the index of the i-th slot from `head` on, for i up to `cap`
abbrev pub slot : ℕ → ℕ → ℕ → ℕ
slot cap head i = if ltb (head + i) cap then head + i else head + i - cap

abbrev pub at : Mq → ℕ → Msg
at m i = get_or m.q (slot m.cap m.head i) blank

-- The messages of a queue, the oldest first.
abbrev pub messages : Mq → List Msg
messages m = items (at m) 0 (mq_count m)

pub count-lt : {m : Mq} → IsValid m → mq_count m < m.cap
unfolding mq_count
count-lt v = ground arith

pub length-messages : (m : Mq) → length (messages m) ≡ mq_count m
length-messages m = length-items (at m) 0 (mq_count m)

count_zero : (n : ℕ) → messages (record { head = 0; tail = 0; cap = n; q = replicate n blank }) ≡ []
unfolding mq_count
count_zero n = refl

-- A queue that is created with a positive capacity below 2 ^ 31 is valid, empty and of that
-- capacity.
pub mq_create-IsValid :
    (n : ℕ)
    → 0 < n
    → n < 2 ^ 31
    → (m : Mq) × (mq_create n ≡ some m) × IsValid m × (messages m ≡ []) × (m.cap ≡ n)
unfolding mq_create mq_count
mq_create-IsValid n pos small = (
  record { head = 0; tail = 0; cap = n; q = replicate n blank },
  ground arith,
  record { head_in = pos; tail_in = pos; whole = length-replicate n blank; small = small },
  count_zero n,
  refl,
)

-- The queue without bound.
abbrev pub pop_first : List Msg → Option Msg × List Msg
pop_first [] = (none, [])
pop_first (x ∷ xs) = (some x, xs)

abbrev advanced : Mq → Mq
advanced m = record m { head = next_index m.cap m.head }

messages-cons : {m : Mq} → IsValid m → m.head ≢ m.tail → messages m ≡ at m 0 ∷ messages (advanced m)
unfolding mq_count next_index
messages-cons {m} v ne =
    ap (items (at m) 0) count
    ∙ ap (λ r. at m 0 ∷ r)
        (items-ext (at m) (at (advanced m)) 1 0 (mq_count (advanced m))
          (λ k lt. ap (λ i. get_or m.q i blank) (ground arith)))
  where
    count : mq_count m ≡ suc (mq_count (advanced m))
    count = ground arith

messages-nil : (m : Mq) → m.head ≡ m.tail → messages m ≡ []
unfolding mq_count
messages-nil m same = ap (items (at m) 0) zero_count
  where
    zero_count : mq_count m ≡ 0
    zero_count = ground arith

mq_pop-same : (m : Mq) → m.head ≡ m.tail → mq_pop m ≡ (none, m)
unfolding mq_pop
mq_pop-same m same = ground arith

mq_pop-ne : {m : Mq} → IsValid m → m.head ≢ m.tail → mq_pop m ≡ (some (at m 0), advanced m)
unfolding mq_pop
mq_pop-ne {m} v ne = ground (arith, ap (λ i. get_or m.q i blank) first)
  where
    first : slot m.cap m.head 0 ≡ m.head
    first = ground arith

-- `mq_pop` of a valid queue hands over the oldest message, if there is one, and leaves the others
-- in order; the queue stays valid.
pub mq_pop-messages :
    {m : Mq}
    → IsValid m
    → IsValid (mq_pop m).1 × (((mq_pop m).0, messages (mq_pop m).1) ≡ pop_first (messages m))
mq_pop-messages {m} v = elim (ℕ_discrete m.head m.tail) [
  | yes same ↦ rw (mq_pop-same m same) (v, rw (messages-nil m same) refl)
  | no ne ↦ rw (mq_pop-ne v ne) (advanced-IsValid, rw (messages-cons v ne) refl)
]
  where
    advanced-IsValid : IsValid (advanced m)
    advanced-IsValid = unfold next_index in (ground (arith, v.head_in, v.tail_in, v.whole, v.small))

pub cap-mq_pop : (m : Mq) → (mq_pop m).1.cap ≡ m.cap
unfolding mq_pop
cap-mq_pop m = ground arith
