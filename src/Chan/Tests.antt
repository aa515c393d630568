-- ===== src/Chan/Tests.antt =====
-- Runs of base/chan.c, and the theorems about it at a channel of two slots.
use wee.Base.{◌+◌, ◌≤◌, ◌<◌, ◌≡◌, refl, none, some, [], ◌∷◌, ◌++◌, arith}
use wee.Mq.{Msg, blank, mq_create, mq_count, mq_push, mq_pop, next_index}
use wee.Chan.{Chan, ch_create, ch_send, ch_recv}
use wee.Chan.Runs.{Run, created, sent_next, received_next, Keeps, Run-Keeps}
use wee.Chan.Answers.{Run-ch_send, Run-ch_recv}

abbrev ping : Msg
ping = record { ud = 16; sz = 4 }

abbrev pong : Msg
pong = record { ud = 32; sz = 8 }

-- what is left after ping and pong are sent and ping is received
abbrev after_ping : Chan
after_ping = record {
  q = record { head = 1; tail = 2; cap = 3; q = ping ∷ pong ∷ blank ∷ [] };
  cap = 2;
}

after_ping-Run : Run 2 (ping ∷ pong ∷ []) (ping ∷ []) after_ping
unfolding ch_create mq_create ch_send ch_recv mq_count mq_push mq_pop next_index
after_ping-Run = received_next ping (sent_next pong (sent_next ping (created refl) refl) refl) refl

Run-Keeps_example : Keeps 2 (ping ∷ pong ∷ []) (ping ∷ []) after_ping
Run-Keeps_example = Run-Keeps (omega arith) (omega arith) after_ping-Run

Run-ch_send_example :
    (2 < 1 + 2 → (c' : Chan) × (ch_send after_ping ping ≡ some (some c')))
    × (2 ≡ 1 + 2 → ch_send after_ping ping ≡ some none)
    × (2 ≤ 1 + 2)
Run-ch_send_example = Run-ch_send ping (omega arith) (omega arith) after_ping-Run

Run-ch_recv_example :
    (ping ∷ pong ∷ [] ≡ ping ∷ [] → ch_recv after_ping ≡ none)
    × ((x : Msg) (rest : _)
        → ping ∷ pong ∷ [] ≡ (ping ∷ []) ++ (x ∷ rest)
        → (c' : Chan) × (ch_recv after_ping ≡ some (some x, c')))
Run-ch_recv_example = Run-ch_recv (omega arith) (omega arith) after_ping-Run
