-- ===== src/LoadTest/Ending.antt =====
-- The loop of the load test ends.
use native.Mathlib.Nat.{add-zero, le_refl, le_trans, mod-lt}
use payment_queue_system_bul.Prelude.{
  ℕ, zero, suc, ◌+◌, ◌*◌, ◌≤◌, ◌<◌, ◌≡◌, ◌⊎◌, inl, inr, refl, sym, subst, ◌%◌, get_elem?, true, [],
  ◌∷◌, ◌++◌, some, Text, codes, arith, ltb, ltb→lt, Bool-cases, leb-cases, ◌-◌, All, All-append,
}
use payment_queue_system_bul.QueueManager.{queue_name}
use payment_queue_system_bul.Types.{high, normal, low}
use payment_queue_system_bul.LoadTest.{
  LoadJob, create_payment, job_of, gateways, priorities, or_first, Progress, report, round,
  send_until, main,
}

one_more : (t k a b : ℕ) → t + k ≤ a → a + 1 ≤ b → t + suc k ≤ b
one_more t k a b h g = omega arith

contradiction : (a b : ℕ) → a < b → b ≤ a → ⊥
contradiction a b h g = omega arith

-- The job is one of the three that the test makes.
abbrev pub IsCovered : LoadJob → Type 0
IsCovered job =
    (job.queue ≡ queue_name (codes "stripe") high)
    ⊎ (job.queue ≡ queue_name (codes "adyen") normal)
    ⊎ (job.queue ≡ queue_name (codes "razorpay") low)

IsCovered-at :
    (r : ℕ)
    → r < 3
    → (job : LoadJob)
    → job.queue
      ≡ queue_name (or_first [] (get_elem? gateways r)) (or_first low (get_elem? priorities r))
    → IsCovered job
IsCovered-at zero h job e = inl e
IsCovered-at (suc zero) h job e = inr (inl e)
IsCovered-at (suc (suc zero)) h job e = inr (inr e)
IsCovered-at (suc (suc (suc r))) h job e = absurd (omega arith)

create_payment-IsCovered :
    (index : ℕ) (id : Text) (now : ℕ) → IsCovered (job_of (create_payment index id now))
unfolding create_payment job_of
create_payment-IsCovered index id now =
    IsCovered-at (index % 3) (mod-lt index (omega arith)) (job_of (create_payment index id now))
      refl

module _ (time : ℕ → ℕ) (uuid : ℕ → Text) where
  -- The clock does not step back, and five readings on it has moved: the loop waits for at least
  -- 1 ms in each round, and reads the clock at most five times in a round.
  pub record Moves : Type 0 where
    pub keeps : (n : ℕ) → time n ≤ time (n + 1)
    pub moves : (n : ℕ) → time n + 1 ≤ time (n + 5)

  time_lower : Moves → (k j : ℕ) → time 0 + k ≤ time (k * 5 + j)
  time_lower m zero zero = subst (λ n. n ≤ time 0) (sym (add-zero (time 0))) (le_refl (time 0))
  time_lower m zero (suc j) =
      let e : 0 * 5 + j + 1 ≡ 0 * 5 + suc j = omega arith in
      subst (λ n. time 0 + 0 ≤ time n) e (le_trans (time_lower m zero j) (m.keeps (0 * 5 + j)))
  time_lower m (suc k) j =
      let e : k * 5 + j + 5 ≡ suc k * 5 + j = omega arith in
      subst (λ n. time 0 + suc k ≤ time n) e
        (one_more (time 0) k _ _ (time_lower m k j) (m.moves (k * 5 + j)))

  time_late : Moves → (total n : ℕ) → total * 5 ≤ n → time 0 + total ≤ time n
  time_late m total n h =
      let e : total * 5 + (n - total * 5) ≡ n = omega arith in
      subst (λ k. time 0 + total ≤ time k) e (time_lower m total (n - total * 5))

  test_early : Moves → (total n : ℕ) → ltb (time n) (time 0 + total) ≡ true → n < total * 5
  test_early m total n more = elim (leb-cases (total * 5) n) [
    | inl late ↦
        absurd
          (contradiction (time n) (time 0 + total) (ltb→lt _ _ more) (time_late m total n late.1))
    | inr early ↦ early.1
  ]

  report_lem :
      (p : Progress) → (p.reads < (report time uuid p).reads) × ((report time uuid p).jobs ≡ p.jobs)
  unfolding report
  report_lem p = ground arith

  round_lem :
      (p : Progress)
      → All IsCovered p.jobs
      → (p.reads < (round time uuid p).reads) × All IsCovered (round time uuid p).jobs
  unfolding round
  round_lem p a =
      let payment = create_payment p.index (uuid p.index) (time p.reads) in
      let next : Progress = record p {
        index = p.index + 1;
        reads = p.reads + 1;
        jobs = p.jobs ++ job_of payment ∷ [];
      } in
      let (more, same) = report_lem next in
      let new = create_payment-IsCovered p.index (uuid p.index) (time p.reads) in
      (omega (arith, more), rw same (All-append IsCovered p.jobs (job_of payment ∷ []) a (new, tt)))

  enough_left : (r f n : ℕ) → n * 5 < r + suc f → r < n * 5 → 1 ≤ f
  enough_left r f n h g = omega arith

  grows : (r r' f n : ℕ) → n * 5 < r + suc f → r + 1 < r' → n * 5 < r' + f
  grows r r' f n h g = omega arith

  send_until-ends :
      (fuel total : ℕ) (p : Progress)
      → Moves
      → 1 ≤ fuel
      → total * 5 < p.reads + fuel
      → All IsCovered p.jobs
      → (p' : Progress) × (send_until time uuid fuel (time 0 + total) p ≡ some p')
        × All IsCovered p'.jobs
  unfolding send_until
  send_until-ends zero total p m one enough a = absurd (omega arith)
  send_until-ends (suc fuel) total p m one enough a =
      elim (Bool-cases (ltb (time p.reads) (time 0 + total))) [
        | inl more ↦
            let p₁ : Progress = record p { reads = p.reads + 1 } in
            let (read, covered) = round_lem p₁ a in
            let early : p.reads < total * 5 = test_early m total p.reads more in
            rw (more, send_until)
              (send_until-ends fuel total (round time uuid p₁) m
                (enough_left p.reads fuel total enough early)
                (grows p.reads _ fuel total enough read) covered)
        | inr late ↦ (record p { reads = p.reads + 1 }, rw (late, send_until), a)
      ]

  -- The clock moves: the load test ends, after at most 5000 rounds for each second of its length
  -- (and one), and every job that it adds goes to one of three queues: that of stripe with high,
  -- of adyen with normal, or of razorpay with low priority. So six of the nine queues that it
  -- opens get no job.
  pub main-ends :
      (duration_seconds : ℕ)
      → Moves
      → (p : Progress) × (main time uuid (duration_seconds * 1_000 * 5 + 1) duration_seconds
          ≡ some p)
        × All IsCovered p.jobs
  unfolding main
  main-ends duration m =
      send_until-ends (duration * 1_000 * 5 + 1) (duration * 1_000) _ m (omega arith) (omega arith)
        tt
