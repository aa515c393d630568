-- ===== src/Mq/Push.antt =====
-- `mq_push` of base/mq.c puts the message last, also where it doubles the array.
use wee.Base.{
  ℕ, suc, ◌+◌, ◌-◌, ◌*◌, ◌%◌, ◌^◌, ◌<◌, ◌≡◌, ◌≢◌, refl, ap, ap₂, ◌∙◌, some, [], ◌∷◌, ◌++◌, get_or,
  set, replicate, length-set, get_or-set, length-append, length-replicate, arith,
}
use native.Mathlib.Decide.{dec_lt, ℕ_discrete}
use native.Mathlib.Nat.{mod-eq_of_lt, mod-eq-sub-mod}
use wee.Mq.Items.{items, items-ext, items-snoc, length-items, get_or-items}
use wee.Mq.{Msg, Mq, blank, unrolled, mq_expand, mq_count, next_index, mq_push}
use wee.Mq.Fifo.{IsValid, slot, at, messages}

-- the array with the new message in it, before it is found to be full or not
abbrev stored : Mq → Msg → Mq
stored m x = record m { q = set m.q m.tail x; tail = next_index m.cap m.tail }

-- The slots of the messages are not written, and the slot behind them holds the new one.
slots-kept : {m : Mq} (x : Msg) → IsValid m → items (at (stored m x)) 0 (mq_count m) ≡ messages m
unfolding mq_count next_index
slots-kept {m} x v =
    items-ext (at (stored m x)) (at m) 0 0 (mq_count m)
      (λ k lt. ground (arith, get_or-set m.q m.tail (slot m.cap m.head (0 + k)) x blank))

slot-new : {m : Mq} (x : Msg) → IsValid m → at (stored m x) (mq_count m) ≡ x
unfolding mq_count
slot-new {m} x v = ground (arith, get_or-set m.q m.tail (slot m.cap m.head (mq_count m)) x blank)

items-stored :
    {m : Mq} (x : Msg)
    → IsValid m
    → items (at (stored m x)) 0 (suc (mq_count m)) ≡ messages m ++ (x ∷ [])
items-stored {m} x v =
    items-snoc (at (stored m x)) 0 (mq_count m)
    ∙ ap₂ (λ r y. r ++ (y ∷ [])) (slots-kept x v)
        (ap (at (stored m x)) (omega arith) ∙ slot-new x v)

-- the array after it has doubled
abbrev doubled : Mq → Mq
doubled m = record {
  head = 0;
  tail = m.cap;
  cap = m.cap * 2;
  q = items (unrolled m) 0 m.cap ++ replicate m.cap blank;
}

unrolled-at : (m : Mq) (i : ℕ) → m.head < m.cap → i < m.cap → unrolled m i ≡ at m i
unfolding unrolled
unrolled-at m i hh hi = ap (λ j. get_or m.q j blank) index
  where
    index : (m.head + i) % m.cap ≡ slot m.cap m.head i
    index = elim (dec_lt (m.head + i) m.cap) [
      | yes lt ↦ mod-eq_of_lt lt ∙ ground arith
      | no ge ↦
          mod-eq-sub-mod {n = m.head + i} {m = m.cap} (omega arith)
          ∙ mod-eq_of_lt {n = m.head + i - m.cap} {m = m.cap} (omega arith)
          ∙ ground arith
    ]

messages-doubled : (m : Mq) → m.head < m.cap → messages (doubled m) ≡ items (at m) 0 m.cap
unfolding mq_count
messages-doubled m hh =
    ap (items (at (doubled m)) 0) (ground arith)
    ∙ items-ext (at (doubled m)) (at m) 0 0 m.cap (λ k lt.
      ap (λ i. get_or (doubled m).q i blank) (ground arith)
      ∙ get_or-items (unrolled m) 0 m.cap k (replicate m.cap blank) blank lt
      ∙ ap (unrolled m) (omega arith)
      ∙ unrolled-at m k hh lt
      ∙ ap (at m) (omega arith))

mq_expand-doubled : (m : Mq) → m.head ≡ m.tail → m.cap < 2 ^ 30 → mq_expand m ≡ some (doubled m)
unfolding mq_expand
mq_expand-doubled m same small = ground (arith, blanks)
  where
    blanks : replicate (m.cap * 2 % 2 ^ 32 - m.cap) blank ≡ replicate m.cap blank
    blanks = ap (λ n. replicate n blank) (omega arith)

-- What `mq_push` leaves: a valid queue with the message behind the others, in an array that was
-- doubled only if it was full.
pub record Pushed (m : Mq) (x : Msg) (m' : Mq) : Type 0 where
  pub valid : IsValid m'
  pub last : messages m' ≡ messages m ++ (x ∷ [])
  pub grows_full : mq_count m + 1 < m.cap → m'.cap ≡ m.cap

push_full :
    {m : Mq} (x : Msg)
    → IsValid m
    → m.cap < 2 ^ 30
    → m.head ≡ next_index m.cap m.tail
    → (m' : Mq) × (mq_push m x ≡ some m') × Pushed m x m'
push_full {m} x v small full = (
  doubled (stored m x),
  doubles,
  record {
    valid = record {
      head_in = omega (arith, v.head_in);
      tail_in = omega (arith, v.head_in);
      whole =
          length-append (items (unrolled (stored m x)) 0 m.cap) (replicate m.cap blank)
          ∙ omega (
            arith,
            length-items (unrolled (stored m x)) 0 m.cap,
            length-replicate {A = Msg} m.cap blank,
          );
      small = omega arith;
    };
    last =
        messages-doubled (stored m x) v.head_in
        ∙ ap (items (at (stored m x)) 0) all
        ∙ items-stored x v;
    grows_full = λ room. absurd (omega (arith, all));
  },
)
  where
    all : m.cap ≡ suc (mq_count m)
    all = unfold mq_count next_index in (ground (arith, full, v.head_in, v.tail_in))

    doubles : mq_push m x ≡ some (doubled (stored m x))
    doubles = unfold mq_push in (ground (arith, full, mq_expand-doubled (stored m x) full small))

push_free :
    {m : Mq} (x : Msg)
    → IsValid m
    → m.head ≢ next_index m.cap m.tail
    → (m' : Mq) × (mq_push m x ≡ some m') × Pushed m x m'
push_free {m} x v free = (
  stored m x,
  unfold mq_push in (ground (arith, free)),
  record {
    valid = record {
      head_in = v.head_in;
      tail_in = unfold next_index in (ground (arith, v.tail_in));
      whole = length-set m.q m.tail x ∙ v.whole;
      small = v.small;
    };
    last = ap (items (at (stored m x)) 0) one_more ∙ items-stored x v;
    grows_full = λ room. refl;
  },
)
  where
    one_more : mq_count (stored m x) ≡ suc (mq_count m)
    one_more = unfold mq_count next_index in (ground (arith, free, v.head_in, v.tail_in))

-- `mq_push` on a valid queue of fewer than 2 ^ 30 slots succeeds, whether or not it doubles the
-- array, and puts the message behind the others, all in their order; the queue stays valid, and
-- its array grows only if the message filled the last slot.
pub mq_push-Pushed :
    {m : Mq} (x : Msg)
    → IsValid m
    → m.cap < 2 ^ 30
    → (m' : Mq) × (mq_push m x ≡ some m') × Pushed m x m'
mq_push-Pushed {m} x v small = elim (ℕ_discrete m.head (next_index m.cap m.tail)) [
  | yes full ↦ push_full x v small full
  | no free ↦ push_free x v free
]
