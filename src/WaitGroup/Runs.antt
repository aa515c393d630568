-- ===== src/WaitGroup/Runs.antt =====
-- Every interleaving of the calls on a wait group of base/waitgroup.c.
use wee.Base.{ℕ, ◌+◌, ◌-◌, ◌%◌, ◌^◌, ◌≤◌, ◌<◌, ◌≡◌, refl, Bool, true, false, suc, arith}
use wee.WaitGroup.{Waitgroup, wg_create, wg_done, wg_wait}

-- one more return where a call of `wg_wait` returns
abbrev pub also : Bool → ℕ → ℕ
also true r = suc r
also false r = r

-- A wait group for n, after so many calls of `wg_done` and returns of `wg_wait`. A sleeping thread may
-- wake with no broadcast.
pub data Run (n : ℕ) : ℕ → ℕ → Waitgroup → Type 0 where
  created : Run n 0 0 (wg_create n)
  done_next : {d r : ℕ} {wg : Waitgroup} → Run n d r wg → Run n (suc d) r (wg_done wg)
  wait_next :
      {d r : ℕ} {wg : Waitgroup} → Run n d r wg → Run n d (also (wg_wait wg).0 r) (wg_wait wg).1
  woken_next :
      {d r : ℕ} {wg : Waitgroup}
      → Run n d r wg
      → 0 < wg.woken
      → Run n d
          (also (wg_wait (record wg { woken = wg.woken - 1 })).0 r)
          (wg_wait (record wg { woken = wg.woken - 1 })).1
  wakes_up :
      {d r : ℕ} {wg : Waitgroup}
      → Run n d r wg
      → 0 < wg.asleep
      → Run n d r (record wg { asleep = wg.asleep - 1; woken = wg.woken + 1 })

-- Before n calls of `wg_done` no wait has returned; behind them no thread sleeps.
record Gathers (n d r : ℕ) (wg : Waitgroup) : Type 0 where
  pub counted : wg.count ≡ (n + 2 ^ 32 - d) % 2 ^ 32
  pub early : d < n → r ≡ 0
  pub late : n ≤ d → wg.asleep ≡ 0

done-Gathers :
    (n d r : ℕ) (wg : Waitgroup)
    → n < 2 ^ 31
    → d < 2 ^ 31
    → Gathers n d r wg
    → Gathers n (suc d) r (wg_done wg)
unfolding wg_done
done-Gathers n d r wg hn hd g = record {
  counted = ground (arith, g.counted);
  early = λ h. g.early (omega (arith, h));
  late = λ h. ground (arith, g.counted, g.late);
}

wait-Gathers :
    (n d r : ℕ) (wg : Waitgroup)
    → n < 2 ^ 31
    → d ≤ 2 ^ 31
    → Gathers n d r wg
    → Gathers n d (also (wg_wait wg).0 r) (wg_wait wg).1
unfolding wg_wait
wait-Gathers n d r wg hn hd g = record {
  counted = ground (arith, g.counted);
  early = λ h. ground (arith, g.counted, g.early h);
  late = λ h. ground (arith, g.counted, g.late h);
}

Run-Gathers :
    (n d r : ℕ) (wg : Waitgroup) → n < 2 ^ 31 → d ≤ 2 ^ 31 → Run n d r wg → Gathers n d r wg
unfolding wg_create
Run-Gathers n d r wg hn hd created = record {
  counted = omega arith;
  early = λ _. refl;
  late = λ _. refl;
}
Run-Gathers n (suc d) r _ hn hd (done_next {wg = wg} run) =
    done-Gathers n d r wg hn (omega arith) (Run-Gathers n d r wg hn (omega arith) run)
Run-Gathers n d _ _ hn hd (wait_next {r = r} {wg = wg} run) =
    wait-Gathers n d r wg hn hd (Run-Gathers n d r wg hn hd run)
Run-Gathers n d _ _ hn hd (woken_next {r = r} {wg = wg} run h) =
    let g = Run-Gathers n d r wg hn hd run in
    wait-Gathers n d r (record wg { woken = wg.woken - 1 }) hn hd
      (record { counted = g.counted; early = g.early; late = g.late })
Run-Gathers n d r _ hn hd (wakes_up {wg = wg} run h) =
    let g = Run-Gathers n d r wg hn hd run in
    record { counted = g.counted; early = g.early; late = λ k. omega (arith, g.late k) }

-- For a wait group for less than 2 ^ 31, and at most 2 ^ 31 calls of `wg_done`, in every interleaving:
-- where a call of `wg_wait` has returned, there were n calls of `wg_done`. After n of them no thread
-- sleeps, and one that tests the count returns; before, one that tests the count does not.
pub Run-wg_wait :
    (n d r : ℕ) (wg : Waitgroup)
    → n < 2 ^ 31
    → d ≤ 2 ^ 31
    → Run n d r wg
    → (0 < r → n ≤ d)
      × (n ≤ d → (wg.asleep ≡ 0) × ((wg_wait wg).0 ≡ true))
      × (d < n → (wg_wait wg).0 ≡ false)
unfolding wg_wait
Run-wg_wait n d r wg hn hd run =
    let g = Run-Gathers n d r wg hn hd run in
    (
      λ h. ground (arith, g.early),
      λ h. (g.late h, ground (arith, g.counted)),
      λ h. ground (arith, g.counted),
    )
