-- ===== src/Drivers/Polling.antt =====
-- The budget of the poll loop of mvp/src/dpdk/dpdk_driver.cpp.
use low_latency_hft_matching.Base.{
  ℕ, zero, suc, ◌+◌, ◌-◌, ◌%◌, ◌^◌, ◌≤◌, ◌<◌, ◌≡◌, refl, List, [], ◌∷◌, Bool, ◌&&◌, some, ltb, ◌==◌,
  length, arith, Bool-cases, inl, inr, ap, ◌∙◌, if-true, if-false, ◌>>=◌,
}
use low_latency_hft_matching.Drivers.{
  DriverStats, add64, count_packets, wanted, poll_from, DpdkDriver, poll_dpdk,
}

-- The counter of messages after this many more than `first`.
abbrev Counts : ℕ → ℕ → DriverStats → Type 0
Counts first n s = s.rx_messages ≡ (first + n) % 2 ^ 64

count_packets-Counts :
    (lens : List ℕ) (first n : ℕ) (s : DriverStats)
    → Counts first n s
    → Counts first (n + length lens) (count_packets lens s)
unfolding count_packets
count_packets-Counts [] first n s h = omega (arith, h)
count_packets-Counts (len ∷ lens) first n s h =
    let next = record s { rx_messages = add64 s.rx_messages 1; rx_bytes = add64 s.rx_bytes len } in
    let step : Counts first (n + 1) next = omega (arith, h) in
    omega (arith, count_packets-Counts lens first (n + 1) next step)

module _ (rx_burst : ℕ → ℕ → List ℕ) (no_more : (call n : ℕ) → length (rx_burst call n) ≤ n) where
  poll_from-Counts :
      (fuel budget call done first : ℕ) (s : DriverStats)
      → done ≤ budget
      → budget < done + fuel
      → Counts first done s
      → (n : ℕ) × (s' : DriverStats) × (poll_from rx_burst fuel budget call done s ≡ some (n, s'))
        × (n ≤ budget)
        × Counts first n s'
  unfolding poll_from
  poll_from-Counts zero budget call done first s h f k = absurd (omega (arith, h, f))
  poll_from-Counts (suc fuel) budget call done first s h f k =
      let rx = rx_burst call (wanted budget done) in
      let most : length rx ≤ budget - done = ground (arith, no_more call (wanted budget done)) in
      elim (Bool-cases (ltb done budget)) [
        | inr over ↦ rw over (done, s, refl, h, k)
        | inl room ↦ elim (Bool-cases (length rx == 0)) [
          | inl none_there ↦ rw (room, none_there) (done, s, refl, h, k)
          | inr got ↦
              let some_there : 0 < length rx = ground (arith, got) in
              rw (room, got)
                (poll_from-Counts fuel budget (call + 1) (done + length rx) first
                  (count_packets rx s) (omega (arith, most, h)) (omega (arith, some_there, f))
                  (count_packets-Counts rx first done s k))
        ]
      ]

  -- If a burst has no more packets than asked for, `poll` ends, takes no more packets than its
  -- budget, and counts each of them as one message.
  pub poll_dpdk_budget :
      (native_dpdk : Bool) (budget : ℕ) (d : DpdkDriver)
      → d.stats.rx_messages < 2 ^ 64
      → (n : ℕ) × (d' : DpdkDriver) × (poll_dpdk native_dpdk rx_burst budget d ≡ some (n, d'))
        × (n ≤ budget)
        × (d'.stats.rx_messages ≡ (d.stats.rx_messages + n) % 2 ^ 64)
        × (d'.running ≡ d.running)
  unfolding poll_dpdk
  poll_dpdk_budget native_dpdk budget d h = elim (Bool-cases (native_dpdk && d.running)) [
    | inr idle ↦
        (0, d, if-false (native_dpdk && d.running) _ _ idle, omega arith, omega (arith, h), refl)
    | inl polls ↦
        let (n, s, e, most, counted) =
          poll_from-Counts (budget + 1) budget 0 0 d.stats.rx_messages d.stats (omega arith)
            (omega arith) (omega (arith, h)) in
        (
          n,
          record d { stats = s },
          if-true (native_dpdk && d.running) _ _ polls
              ∙ ap (λ o. o >>= λ (r : ℕ × DriverStats). some (r.0, record d { stats = r.1 })) e,
          most,
          counted,
          refl,
        )
  ]
