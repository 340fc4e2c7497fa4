-- ===== src/History/Ring/Laws.antt =====
-- What a read of the ring answers after a write, and after any sequence of writes.
use native.Mathlib.Nat.{div-add-mod}
use orbitnet.Base.{
  ℕ, ◌+◌, ◌%◌, ◌≤◌, ◌<◌, ◌≡◌, ◌≢◌, ◌⊎◌, inl, inr, none, some, ◌==◌, if◌then◌else◌, arith,
  length-set, get_or-set, Bool-cases, ==_self, ==_cases,
}
use orbitnet.History.Ring.{TickRing, capacity, get, record_at, set_tick}

-- Two ticks of one slot are at least a whole capacity apart.
pub same_slot_apart : (c t u : ℕ) → 0 < c → t % c ≡ u % c → t ≢ u → (t + c ≤ u) ⊎ (u + c ≤ t)
same_slot_apart c t u h e ne = grind (arith, div-add-mod t c, div-add-mod u c)

module _ {ℓ} {A : Type ℓ} where
  pub capacity-set_tick :
      (r : TickRing A) (tick : ℕ) (v : A) → capacity (set_tick r tick v).1 ≡ capacity r
  unfolding set_tick
  capacity-set_tick r tick v =
      ground (arith, length-set r.slots (tick % capacity r) (some (tick, v)))

  pub get-record_at :
      (r : TickRing A) (tick t : ℕ) (v : A)
      → 0 < capacity r
      → get (record_at r tick v) t ≡ (
          if tick == t
          then some v
          else if tick % capacity r == t % capacity r
          then none
          else get r t)
  unfolding get record_at
  get-record_at r tick t v h =
      rw
        (
          length-set r.slots (tick % capacity r) (some (tick, v)),
          get_or-set r.slots (tick % capacity r) (t % capacity r) (some (tick, v)) none
              (omega arith),
        )
        (elim (==_cases tick t) [
          | inl (e, same) ↦ rw (e, ==_self t, ==_self (t % capacity r)) (rw (==_self t))
          | inr (ne, other) ↦ elim (Bool-cases (tick % capacity r == t % capacity r)) [
            | inl e ↦ rw (e, other)
            | inr e ↦ rw (e, other)
          ]
        ])

  pub capacity-record_at :
      (r : TickRing A) (tick : ℕ) (v : A) → capacity (record_at r tick v) ≡ capacity r
  unfolding record_at
  capacity-record_at r tick v = length-set r.slots (tick % capacity r) (some (tick, v))

  -- The written tick reads back, another tick of its slot is gone, and the rest is as before.
  pub record_at_cases :
      (r : TickRing A) (tick t : ℕ) (v : A)
      → 0 < capacity r
      → ((tick ≡ t) × (get (record_at r tick v) t ≡ some v))
        ⊎ ((tick ≢ t) × (tick % capacity r ≡ t % capacity r) × (get (record_at r tick v) t ≡ none))
        ⊎ ((tick ≢ t) × (get (record_at r tick v) t ≡ get r t))
  record_at_cases r tick t v c = elim (==_cases tick t) [
    | inl (e, same) ↦ inl (e, rw (get-record_at r tick t v c, same))
    | inr (ne, other) ↦ elim (==_cases (tick % capacity r) (t % capacity r)) [
      | inl (e, slot) ↦ inr (inl (ne, e, rw (get-record_at r tick t v c, other, slot)))
      | inr (_, slot) ↦ inr (inr (ne, rw (get-record_at r tick t v c, other, slot)))
    ]
  ]

  pub get-set_tick :
      (r : TickRing A) (tick t : ℕ) (v : A)
      → 0 < capacity r
      → get (set_tick r tick v).1 t ≡ (
          if (set_tick r tick v).0
          then (if tick == t
              then some v
              else if tick % capacity r == t % capacity r
              then none
              else get r t)
          else get r t)
  unfolding set_tick
  get-set_tick r tick t v h = ground (arith, get-record_at r tick t v h)
