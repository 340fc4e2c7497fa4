-- ===== src/History/Ring/Recent.antt =====
-- The lookups of history.rs that search the ring: the newest stored tick at or before a tick, and
-- the oldest stored tick of the window.
use orbitnet.Base.{
  ℕ, zero, suc, ◌+◌, ◌-◌, ◌≤◌, ◌<◌, ◌≡◌, inl, inr, true, false, Option, none, some, arith,
  Option-cases, ==_cases, u64_max,
}
use orbitnet.History.Ring.{
  TickRing, capacity, get, is_stale, set_tick, probe_down, closest_at_or_before, find_up,
  earliest_tick,
}

is_stale_at_max : (span tick : ℕ) → is_stale (some u64_max) span tick ≡ true
is_stale_at_max span tick = ground arith

module _ {ℓ} {A : Type ℓ} where
  -- The newest stored tick of `lo..=hi`, with its value, or that there is none.
  abbrev pub Closest : TickRing A → ℕ → ℕ → Option (ℕ × A) → Type ℓ
  Closest r lo hi none = (u : ℕ) → lo ≤ u → u ≤ hi → get r u ≡ none
  Closest r lo hi (some (t, v)) =
      (get r t ≡ some v) × (lo ≤ t) × (t ≤ hi) × ((u : ℕ) → t < u → u ≤ hi → get r u ≡ none)

  -- One more empty tick on top changes nothing.
  Closest-above :
      (r : TickRing A) (lo hi : ℕ) (o : Option (ℕ × A))
      → 0 < hi
      → get r hi ≡ none
      → Closest r lo (hi - 1) o
      → Closest r lo hi o
  Closest-above r lo hi none h e c = λ u p q. elim (==_cases u hi) [
    | inl (same, _) ↦ rw same e
    | inr (ne, _) ↦ c u p (omega arith)
  ]
  Closest-above r lo hi (some (t, v)) h e c = (
    c.0,
    c.1,
    omega arith,
    λ u p q. elim (==_cases u hi) [
      | inl (same, _) ↦ rw same e
      | inr (ne, _) ↦ c.3 u p (omega arith)
    ],
  )

  probe_down-Closest :
      (r : TickRing A) (n probe lo : ℕ) → lo + n ≡ probe → Closest r lo probe (probe_down r n probe)
  unfolding probe_down
  probe_down-Closest r zero probe lo h = elim (Option-cases (get r probe)) [
    | inl e ↦ rw (e, Closest) (λ u p q. let same : u ≡ probe = omega arith in rw same e)
    | inr (v, e) ↦ rw (e, Closest) (e, omega arith, omega arith, λ u p q. absurd (omega arith))
  ]
  probe_down-Closest r (suc n) probe lo h = elim (Option-cases (get r probe)) [
    | inl e ↦
        rw (e, Closest)
          (Closest-above r lo probe (probe_down r n (probe - 1)) (omega arith) e
            (probe_down-Closest r n (probe - 1) lo (omega arith)))
    | inr (v, e) ↦ rw (e, Closest) (e, omega arith, omega arith, λ u p q. absurd (omega arith))
  ]

  -- `closest_at_or_before` ends, and answers the newest stored tick among the `capacity` ticks up to
  -- the one asked for, with the value stored for it; it answers nothing exactly when none of them is
  -- stored.
  pub closest_at_or_before-Closest :
      (r : TickRing A) (tick : ℕ)
      → Closest r (tick - (capacity r - 1)) tick (closest_at_or_before r tick)
  unfolding closest_at_or_before
  closest_at_or_before-Closest r tick =
      let floor = tick - (capacity r - 1) in
      probe_down-Closest r (tick - floor) tick floor (omega arith)

  -- The oldest stored tick of `lo..=hi`, or that there is none.
  abbrev pub Earliest : TickRing A → ℕ → ℕ → Option ℕ → Type ℓ
  Earliest r lo hi none = (u : ℕ) → lo ≤ u → u ≤ hi → get r u ≡ none
  Earliest r lo hi (some t) =
      ((v : A) × (get r t ≡ some v))
      × (lo ≤ t)
      × (t ≤ hi)
      × ((u : ℕ) → lo ≤ u → u < t → get r u ≡ none)

  Earliest-below :
      (r : TickRing A) (lo hi : ℕ) (o : Option ℕ)
      → get r lo ≡ none
      → Earliest r (lo + 1) hi o
      → Earliest r lo hi o
  Earliest-below r lo hi none e c = λ u p q. elim (==_cases u lo) [
    | inl (same, _) ↦ rw same e
    | inr (ne, _) ↦ c u (omega arith) q
  ]
  Earliest-below r lo hi (some t) e c = (
    c.0,
    omega arith,
    c.2,
    λ u p q. elim (==_cases u lo) [
      | inl (same, _) ↦ rw same e
      | inr (ne, _) ↦ c.3 u (omega arith) q
    ],
  )

  find_up-Earliest :
      (r : TickRing A) (n lo hi : ℕ) → lo + n ≡ hi → Earliest r lo hi (find_up r n lo)
  unfolding find_up
  find_up-Earliest r zero lo hi h = elim (Option-cases (get r lo)) [
    | inl e ↦ rw (e, Earliest) (λ u p q. let same : u ≡ lo = omega arith in rw same e)
    | inr (v, e) ↦
        rw (e, Earliest) ((v, e), omega arith, omega arith, λ u p q. absurd (omega arith))
  ]
  find_up-Earliest r (suc n) lo hi h = elim (Option-cases (get r lo)) [
    | inl e ↦
        rw (e, Earliest)
          (Earliest-below r lo hi (find_up r n (lo + 1)) e
            (find_up-Earliest r n (lo + 1) hi (omega arith)))
    | inr (v, e) ↦
        rw (e, Earliest) ((v, e), omega arith, omega arith, λ u p q. absurd (omega arith))
  ]

  -- `earliest_tick` answers the oldest stored tick among the `capacity` ticks up to the newest.
  pub earliest_tick-Earliest :
      (r : TickRing A) (latest : ℕ)
      → r.latest ≡ some latest
      → Earliest r (latest - (capacity r - 1)) latest (earliest_tick r)
  unfolding earliest_tick get
  earliest_tick-Earliest r latest e =
      let floor = latest - (capacity r - 1) in
      rw e (find_up-Earliest r (latest - floor) floor latest (omega arith))

  -- Once the newest tick is `u64::MAX` the saturating window check refuses every write, one for that
  -- very tick included.
  pub set_tick_at_max :
      (r : TickRing A) (tick : ℕ) (v : A) → r.latest ≡ some u64_max → set_tick r tick v ≡ (false, r)
  unfolding set_tick
  set_tick_at_max r tick v e =
      let stale : is_stale r.latest (capacity r) tick ≡ true =
        rw e (is_stale_at_max (capacity r) tick) in
      rw stale
