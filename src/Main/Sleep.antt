-- ===== src/Main/Sleep.antt =====
-- The pauses of the start: they end, and not too early.
use native.Mathlib.Decide.{ℕ_discrete}
use hypnos.Base.{
  ℕ, zero, suc, ◌+◌, ◌-◌, ◌%◌, ◌^◌, ◌<◌, ◌≤◌, ◌≡◌, refl, ap, false, ◌||◌, ◌==◌, ltb, some, arith,
  Bool-cases, inl, inr, ltb→lt, ◌∙◌,
}
use hypnos.Kernel.{Kernel}
use hypnos.Main.{sleep_loop, sleep_ticks}

-- The clock: `passed n` ticks have gone by after n halts. A halt ends with an interrupt, and at most one
-- of the timer.
module _ (reading passed : ℕ → ℕ) (start : ℕ) (start_lt : start < 2 ^ 32)
    (step : (n : ℕ) → passed (n + 1) ≤ passed n + 1)
    (clock : (n : ℕ) → reading n ≡ (start + passed n) % 2 ^ 32) where
  elapsed : (n : ℕ) → passed n < 2 ^ 32 → (reading n + 2 ^ 32 - start) % 2 ^ 32 ≡ passed n
  elapsed n h = omega (arith, clock n, start_lt)

  sleep_loop-Waits :
      (ticks m fuel n : ℕ)
      → ticks < 2 ^ 32
      → passed n ≤ ticks
      → n ≤ m
      → ticks ≤ passed m
      → m < n + fuel
      → (r : ℕ) × (sleep_loop reading fuel n start ticks ≡ some r) × (passed r ≡ ticks)
  unfolding sleep_loop
  sleep_loop-Waits ticks m zero n lt le nm over enough = absurd (omega arith)
  sleep_loop-Waits ticks m (suc fuel) n lt le nm over enough =
      let now = elapsed n (omega arith) in
      elim (Bool-cases (ltb (passed n) ticks)) [
        | inl e ↦
            let early = ltb→lt (passed n) ticks e in
            let later : n + 1 ≤ m = elim (ℕ_discrete n m) [
              | yes q ↦ absurd (omega (arith, ap passed q))
              | no q ↦ omega arith
            ] in
            rw (sleep_loop, now, e)
              (sleep_loop-Waits ticks m fuel (n + 1) lt (omega (arith, step n)) later over
                (omega arith))
        | inr e ↦ rw (sleep_loop, now, e) (n, refl, ground arith)
      ]

module _ {D : Type 0} where
  -- While the timer runs, `sleep_ticks` returns as soon as so many ticks have gone by since its call, also
  -- when the counter wraps in between, and its loop needs no more rounds than there are halts until then: a
  -- halt lets at most one tick pass, and after some number of halts below the fuel the ticks have passed.
  pub sleep_ticks-Waits :
      (reading passed : ℕ → ℕ) (fuel ticks m : ℕ) (k : Kernel D)
      → 0 < ticks
      → ticks < 2 ^ 32
      → 0 < k.ticks
      → k.ticks < 2 ^ 32
      → passed 0 ≡ 0
      → ((n : ℕ) → passed (n + 1) ≤ passed n + 1)
      → ((n : ℕ) → reading n ≡ (k.ticks + passed n) % 2 ^ 32)
      → ticks ≤ passed m
      → m < fuel
      → sleep_ticks reading fuel ticks k
        ≡ some (tt, record k { ticks = (k.ticks + ticks) % 2 ^ 32 })
  unfolding sleep_ticks
  sleep_ticks-Waits reading passed fuel ticks m k pos lt running start_lt zero_first step clock over
        enough =
      let (r, e, now) =
        sleep_loop-Waits reading passed k.ticks start_lt step clock ticks m fuel 0 lt (omega arith)
          (omega arith) over (omega arith) in
      let awake : (ticks == 0 || k.ticks == 0) ≡ false = ground arith in
      rw (awake, e)
        (ap (λ t. some (tt, record k { ticks = t }))
          (clock r ∙ ap (λ p. (k.ticks + p) % 2 ^ 32) now))
