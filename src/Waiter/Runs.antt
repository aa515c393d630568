-- ===== src/Waiter/Runs.antt =====
-- Every interleaving of the calls on a waiter of base/waiter.c.
use wee.Base.{ℕ, ◌+◌, ◌-◌, ◌<◌, ◌≡◌, refl, Bool, true, false, suc, ltb, arith}
use wee.Waiter.{Waiter, waiter_create, waiter_signal, waiter_wait}

-- one more return where a call of `waiter_wait` returns
abbrev one_more : Bool → ℕ → ℕ
one_more true r = suc r
one_more false r = r

-- A waiter after so many signals and returns of `waiter_wait`. A sleeping thread may wake with no signal.
data Run : ℕ → ℕ → Waiter → Type 0 where
  created : Run 0 0 waiter_create
  signal_next : {s r : ℕ} {w : Waiter} → Run s r w → Run (suc s) r (waiter_signal w)
  wait_next :
      {s r : ℕ} {w : Waiter} → Run s r w → Run s (one_more (waiter_wait w).0 r) (waiter_wait w).1
  woken_next :
      {s r : ℕ} {w : Waiter}
      → Run s r w
      → 0 < w.woken
      → Run s
          (one_more (waiter_wait (record w { woken = w.woken - 1 })).0 r)
          (waiter_wait (record w { woken = w.woken - 1 })).1
  wakes_up :
      {s r : ℕ} {w : Waiter}
      → Run s r w
      → 0 < w.asleep
      → Run s r (record w { asleep = w.asleep - 1; woken = w.woken + 1 })

-- Before a signal no wait has returned; behind it no thread sleeps.
record Watches (s r : ℕ) (w : Waiter) : Type 0 where
  signal : w.signaled ≡ ltb 0 s
  early : s ≡ 0 → r ≡ 0
  late : 0 < s → w.asleep ≡ 0

wait-Watches :
    (s r : ℕ) (w : Waiter)
    → Watches s r w
    → Watches s (one_more (waiter_wait w).0 r) (waiter_wait w).1
unfolding waiter_wait
wait-Watches s r w g = record {
  signal = ground (arith, g.signal);
  early = λ h. ground (arith, g.signal, g.early h);
  late = λ h. ground (arith, g.signal, g.late h);
}

Run-Watches : (s r : ℕ) (w : Waiter) → Run s r w → Watches s r w
unfolding waiter_create waiter_signal
Run-Watches s r w created = record { signal = refl; early = λ _. refl; late = λ h. refl }
Run-Watches (suc s) r _ (signal_next {w = w} run) = record {
  signal = ground arith;
  early = λ h. absurd (omega (arith, h));
  late = λ h. refl;
}
Run-Watches s _ _ (wait_next {r = r} {w = w} run) = wait-Watches s r w (Run-Watches s r w run)
Run-Watches s _ _ (woken_next {r = r} {w = w} run h) =
    let g = Run-Watches s r w run in
    wait-Watches s r (record w { woken = w.woken - 1 })
      (record { signal = g.signal; early = g.early; late = g.late })
Run-Watches s r _ (wakes_up {w = w} run h) =
    let g = Run-Watches s r w run in
    record { signal = g.signal; early = g.early; late = λ k. omega (arith, g.late k) }

-- In every interleaving: where a call of `waiter_wait` has returned, there was a signal. After one no thread
-- sleeps, and one that tests the flag returns; before, one that tests the flag does not.
Run-waiter_wait :
    (s r : ℕ) (w : Waiter)
    → Run s r w
    → (0 < r → 0 < s)
      × (0 < s → (w.asleep ≡ 0) × ((waiter_wait w).0 ≡ true))
      × (s ≡ 0 → (waiter_wait w).0 ≡ false)
unfolding waiter_wait
Run-waiter_wait s r w run =
    let g = Run-Watches s r w run in
    (
      λ h. ground (arith, g.early),
      λ h. (g.late h, ground (arith, g.signal)),
      λ h. ground (arith, g.signal),
    )
