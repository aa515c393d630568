-- ===== src/Mq/Tests.antt =====
-- Runs of base/mq.c, and the theorems about it at a queue of three slots.
use wee.Base.{◌≡◌, refl, some, [], ◌∷◌, arith}
use wee.Mq.{Msg, Mq, blank, mq_create, mq_push, mq_expand, unrolled, mq_pop, next_index}
use wee.Mq.Fifo.{IsValid, messages, mq_create-IsValid, mq_pop-messages, pop_first}
use wee.Mq.Push.{Pushed, mq_push-Pushed}

abbrev first : Msg
first = record { ud = 16; sz = 4 }

abbrev second : Msg
second = record { ud = 32; sz = 8 }

abbrev third : Msg
third = record { ud = 48; sz = 2 }

-- two messages, the second of them at index 0
abbrev wrapped : Mq
wrapped = record { head = 2; tail = 1; cap = 3; q = second ∷ blank ∷ first ∷ [] }

wrapped-IsValid : IsValid wrapped
wrapped-IsValid = record {
  head_in = omega arith;
  tail_in = omega arith;
  whole = refl;
  small = omega arith;
}

-- The third message fills the array, which doubles and is put in order.
push_doubles :
    mq_push wrapped third
    ≡ some (record {
      head = 0;
      tail = 3;
      cap = 6;
      q = first ∷ second ∷ third ∷ blank ∷ blank ∷ blank ∷ [];
    })
unfolding mq_push mq_expand unrolled next_index
push_doubles = refl

mq_push-Pushed_example : (m' : Mq) × (mq_push wrapped third ≡ some m') × Pushed wrapped third m'
mq_push-Pushed_example = mq_push-Pushed {m = wrapped} third wrapped-IsValid (omega arith)

mq_pop-messages_example :
    IsValid (mq_pop wrapped).1
    × (((mq_pop wrapped).0, messages (mq_pop wrapped).1) ≡ pop_first (messages wrapped))
mq_pop-messages_example = mq_pop-messages {m = wrapped} wrapped-IsValid

mq_create-IsValid_example :
    (m : Mq) × (mq_create 3 ≡ some m) × IsValid m × (messages m ≡ []) × (m.cap ≡ 3)
mq_create-IsValid_example = mq_create-IsValid 3 (omega arith) (omega arith)
