-- ===== src/Chan/Answers.antt =====
-- When the calls of base/chan.c wait, in terms of what was sent and received so far.
use wee.Base.{
  ℕ, suc, ◌+◌, ◌^◌, ◌≤◌, ◌<◌, ◌≡◌, ap, sym, ◌∙◌, none, some, List, ◌∷◌, ◌++◌, length, length-append,
  arith,
}
use mathlib.Core.List.{append_cancel_left}
use wee.Mq.{Msg, mq_count, mq_pop}
use wee.Mq.Fifo.{IsValid, messages, length-messages, mq_pop-messages, pop_first}
use wee.Mq.Push.{mq_push-Pushed}
use wee.Chan.{Chan, ch_send, ch_recv}
use wee.Chan.Runs.{Run, Keeps, Run-Keeps}

held :
    {n : ℕ} {sent received : List Msg} {c : Chan}
    → Keeps n sent received c
    → length sent ≡ length received + mq_count c.q
held {n} {sent} {received} {c} k =
    ap length k.in_order
    ∙ length-append received (messages c.q)
    ∙ ap (λ i. length received + i) (length-messages c.q)

-- On a bounded channel of n slots, after any run, `ch_send` goes through if fewer than n messages
-- are sent and not received, and waits if there are n; it never fails.
pub Run-ch_send :
    {n : ℕ} {sent received : List Msg} {c : Chan} (x : Msg)
    → 0 < n
    → n + 1 < 2 ^ 30
    → Run n sent received c
    → (length sent < length received + n → (c' : Chan) × (ch_send c x ≡ some (some c')))
      × (length sent ≡ length received + n → ch_send c x ≡ some none)
      × (length sent ≤ length received + n)
unfolding ch_send
Run-ch_send {n} {sent} {received} {c} x pos small r =
    let k = Run-Keeps pos small r in
    let (q', pushed, P) = mq_push-Pushed {m = c.q} x k.valid (omega (arith, k.slots)) in
    (
      λ room. (record c { q = q' }, ground (arith, pushed, k.bounded, held k)),
      λ full. ground (arith, k.bounded, held k),
      omega (arith, held k, k.within),
    )

taken :
    {c : Chan} {x : Msg} {rest : List Msg}
    → IsValid c.q
    → messages c.q ≡ x ∷ rest
    → ch_recv c ≡ some (some x, record c { q = (mq_pop c.q).1 })
unfolding ch_recv
taken {c} {x} {rest} v e =
    let (_, popped) = mq_pop-messages v in
    let first : (mq_pop c.q).0 ≡ some x = ap (λ p. p.0) popped ∙ ap (λ xs. (pop_first xs).0) e in
    let some_held : mq_count c.q ≡ suc (length rest) = sym (length-messages c.q) ∙ ap length e in
    ground (arith, first, some_held)

-- On a bounded channel, after any run, `ch_recv` waits if all that was sent is received, and else
-- hands over the first message that was not received.
pub Run-ch_recv :
    {n : ℕ} {sent received : List Msg} {c : Chan}
    → 0 < n
    → n + 1 < 2 ^ 30
    → Run n sent received c
    → (sent ≡ received → ch_recv c ≡ none)
      × ((x : Msg) (rest : List Msg)
          → sent ≡ received ++ (x ∷ rest)
          → (c' : Chan) × (ch_recv c ≡ some (some x, c')))
unfolding ch_recv
Run-ch_recv {n} {sent} {received} {c} pos small r =
    let k = Run-Keeps pos small r in
    (
      λ same. ground (arith, held k, ap length same),
      λ x rest left. (
        record c { q = (mq_pop c.q).1 },
        taken k.valid (append_cancel_left received _ _ (sym k.in_order ∙ left)),
      ),
    )
