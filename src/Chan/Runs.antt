-- ===== src/Chan/Runs.antt =====
-- What holds after any interleaving of calls on a channel of base/chan.c.
use wee.Base.{
  ℕ, ◌+◌, ◌^◌, ◌≤◌, ◌<◌, ◌≡◌, refl, ap, sym, ◌∙◌, some, List, [], ◌∷◌, ◌++◌, length, length-append,
  append_assoc, arith, subst,
}
use wee.Mq.{Msg, mq_count, mq_pop}
use wee.Mq.Fifo.{
  IsValid, messages, length-messages, mq_create-IsValid, mq_pop-messages, cap-mq_pop, pop_first,
}
use wee.Mq.Push.{mq_push-Pushed}
use wee.Chan.{Chan, ch_create, ch_send, ch_recv}

-- A history of a channel of n slots: what was sent, what was received, in any order of the calls.
pub data Run (n : ℕ) : List Msg → List Msg → Chan → Type 0 where
  created : {c : Chan} → ch_create n ≡ some c → Run n [] [] c
  sent_next :
      {sent received : List Msg} {c c' : Chan} (x : Msg)
      → Run n sent received c
      → ch_send c x ≡ some (some c')
      → Run n (sent ++ (x ∷ [])) received c'
  received_next :
      {sent received : List Msg} {c c' : Chan} (x : Msg)
      → Run n sent received c
      → ch_recv c ≡ some (some x, c')
      → Run n sent (received ++ (x ∷ [])) c'

-- What a channel keeps: no message lost, doubled or overtaken, and never more than n in it, in an
-- array that keeps its n + 1 slots.
pub record Keeps (n : ℕ) (sent received : List Msg) (c : Chan) : Type 0 where
  pub valid : IsValid c.q
  pub slots : c.q.cap ≡ n + 1
  pub bounded : c.cap ≡ n
  pub within : mq_count c.q ≤ n
  pub in_order : sent ≡ received ++ messages c.q

pop_first-inv :
    {x : Msg} {rest : List Msg} (xs : List Msg) → pop_first xs ≡ (some x, rest) → xs ≡ x ∷ rest
pop_first-inv [] e = absurd (grind (arith, e))
pop_first-inv (y ∷ ys) e = grind (arith, e)

created-Keeps : (n : ℕ) {c : Chan} → 0 < n → n + 1 < 2 ^ 30 → ch_create n ≡ some c → Keeps n [] [] c
unfolding ch_create
created-Keeps n {c} pos small e =
    let (q, made, v, empty, size) = mq_create-IsValid (n + 1) (omega arith) (omega arith) in
    let same : record { q = q; cap = n } ≡ c = ground (arith, made, e) in
    subst (Keeps n [] []) same (record {
      valid = v;
      slots = size;
      bounded = refl;
      within = omega (arith, length-messages q, ap length empty);
      in_order = sym empty;
    })

sent-Keeps :
    {n : ℕ} {sent received : List Msg} {c c' : Chan} (x : Msg)
    → 0 < n
    → n + 1 < 2 ^ 30
    → Keeps n sent received c
    → ch_send c x ≡ some (some c')
    → Keeps n (sent ++ (x ∷ [])) received c'
unfolding ch_send
sent-Keeps {n} {sent} {received} {c} {c'} x pos small k e =
    let (q', pushed, P) = mq_push-Pushed {m = c.q} x k.valid (omega (arith, k.slots)) in
    let room : mq_count c.q < n = ground (arith, e, k.bounded) in
    let same : record c { q = q' } ≡ c' = ground (arith, pushed, e) in
    let grown : length (messages q') ≡ mq_count c.q + 1 =
      ap length P.last
      ∙ length-append (messages c.q) (x ∷ [])
      ∙ omega (arith, length-messages c.q) in
    subst (Keeps n (sent ++ (x ∷ [])) received) same (record {
      valid = P.valid;
      slots = P.grows_full (omega (arith, k.slots, room)) ∙ k.slots;
      bounded = k.bounded;
      within = omega (arith, length-messages q', grown, room);
      in_order =
          ap (λ r. r ++ (x ∷ [])) k.in_order
          ∙ append_assoc received (messages c.q) (x ∷ [])
          ∙ ap (λ r. received ++ r) (sym P.last);
    })

received-Keeps :
    {n : ℕ} {sent received : List Msg} {c c' : Chan} (x : Msg)
    → Keeps n sent received c
    → ch_recv c ≡ some (some x, c')
    → Keeps n sent (received ++ (x ∷ [])) c'
unfolding ch_recv
received-Keeps {n} {sent} {received} {c} {c'} x k e =
    let (v, popped) = mq_pop-messages k.valid in
    let same : record c { q = (mq_pop c.q).1 } ≡ c' = ground (arith, e) in
    let first : (mq_pop c.q).0 ≡ some x = ground (arith, e) in
    let split : messages c.q ≡ x ∷ messages (mq_pop c.q).1 =
      pop_first-inv (messages c.q) (sym popped ∙ ap (λ r. (r, messages (mq_pop c.q).1)) first) in
    subst (Keeps n sent (received ++ (x ∷ []))) same (record {
      valid = v;
      slots = cap-mq_pop c.q ∙ k.slots;
      bounded = k.bounded;
      within =
          omega
            (arith, k.within, length-messages c.q, length-messages (mq_pop c.q).1, ap length split);
      in_order =
          k.in_order
          ∙ ap (λ r. received ++ r) split
          ∙ sym (append_assoc received (x ∷ []) (messages (mq_pop c.q).1));
    })

-- After any run of sends and receives on a bounded channel, in whatever order threads make them,
-- the messages sent are those received followed by those still in it, in order; there are never
-- more than n in it, and its array never grows.
pub Run-Keeps :
    {n : ℕ} {sent received : List Msg} {c : Chan}
    → 0 < n
    → n + 1 < 2 ^ 30
    → Run n sent received c
    → Keeps n sent received c
Run-Keeps pos small (created e) = created-Keeps _ pos small e
Run-Keeps pos small (sent_next x r e) = sent-Keeps x pos small (Run-Keeps pos small r) e
Run-Keeps pos small (received_next x r e) = received-Keeps x (Run-Keeps pos small r) e
