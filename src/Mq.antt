-- ===== src/Mq.antt =====
-- The message queue of base/mq.c: a circular array that doubles when it is full. The lock that it
-- takes when built with MQ_THREAD_SAFE makes each call one step, as here.
pub mod Items
pub mod Fifo
pub mod Push
mod Tests
use wee.Base.{
  ℕ, zero, suc, ◌+◌, ◌-◌, ◌*◌, ◌%◌, ◌^◌, Bool, true, false, Option, none, some, List, [], ◌∷◌, ◌++◌,
  get_or, set, replicate, ltb, leb, ◌==◌, if◌then◌else◌, ◌>>=◌, ◌>>◌, guard,
}
use wee.Mq.Items.{items}

-- `struct msg`; `ud` is an address.
pub record Msg : Type 0 where
  pub ud : ℕ
  pub sz : ℕ

-- a slot that calloc has cleared
abbrev pub blank : Msg
blank = record { ud = 0; sz = 0 }

-- `struct mq`, without its lock
pub record Mq : Type 0 where
  pub head : ℕ
  pub tail : ℕ
  pub cap : ℕ
  pub q : List Msg

-- `mq_create`; memory is found.
unfoldable pub mq_create : ℕ → Option Mq
mq_create cap = do
  guard (ltb 0 cap)
  some (record { head = 0; tail = 0; cap = cap; q = replicate cap blank })

-- what the loop of `mq_expand` copies to index i
unfoldable pub unrolled : Mq → ℕ → Msg
unrolled m i = get_or m.q ((m.head + i) % m.cap) blank

-- `mq_expand`; the capacity is an int.
unfoldable pub mq_expand : Mq → Option Mq
mq_expand m = do
  guard (m.head == m.tail)
  some (record {
    head = 0;
    tail = m.cap;
    cap = m.cap * 2 % 2 ^ 32;
    q = items (unrolled m) 0 m.cap ++ replicate (m.cap * 2 % 2 ^ 32 - m.cap) blank;
  })

unfoldable pub mq_count : Mq → ℕ
mq_count m = if leb m.head m.tail then m.tail - m.head else m.tail + m.cap - m.head

-- the index after i
unfoldable pub next_index : ℕ → ℕ → ℕ
next_index cap i = if leb cap (i + 1) then 0 else i + 1

unfoldable pub mq_push : Mq → Msg → Option Mq
mq_push m msg =
    let m' = record m { q = set m.q m.tail msg; tail = next_index m.cap m.tail } in
    if m'.head == m'.tail then mq_expand m' else some m'

-- `mq_pop`: the message where it returns true
unfoldable pub mq_pop : Mq → Option Msg × Mq
mq_pop m =
    if m.head == m.tail
    then (none, m)
    else (some (get_or m.q m.head blank), record m { head = next_index m.cap m.head })
