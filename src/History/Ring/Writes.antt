-- ===== src/History/Ring/Writes.antt =====
-- The ring after any sequence of writes, against the unbounded map of what was written.
use orbitnet.Base.{
  ℕ, ◌+◌, ◌%◌, ◌≤◌, ◌<◌, max, ◌≡◌, refl, ◌≢◌, inl, inr, Option, none, some, List, [], ◌∷◌, ◌==◌,
  if◌then◌else◌, u64_max, arith, All, length-replicate, get_or-replicate, Bool-cases, ==_cases, ◌∙◌,
  sym, subst, ==_self, ==_ne,
}
use orbitnet.History.Ring.{TickRing, capacity, with_capacity, get, is_stale, record_at, set_tick}
use orbitnet.History.Ring.Laws.{
  same_slot_apart, capacity-set_tick, capacity-record_at, record_at_cases,
}

module _ {ℓ} {A : Type ℓ} where
  -- A run of `set` calls.
  unfoldable pub store : TickRing A → List (ℕ × A) → TickRing A
  store r [] = r
  store r ((tick, v) ∷ ws) = store (set_tick r tick v).1 ws

  abbrev pub update : (ℕ → Option A) → ℕ → A → ℕ → Option A
  update m tick v t = if tick == t then some v else m t

  -- The map that the same writes leave, when nothing is ever evicted.
  unfoldable pub recorded : (ℕ → Option A) → List (ℕ × A) → ℕ → Option A
  recorded m [] = m
  recorded m ((tick, v) ∷ ws) = recorded (update m tick v) ws

  -- Inside the window the ring answers as the map `m`; past the newest tick nothing was written.
  abbrev AgreesAt : Option ℕ → TickRing A → (ℕ → Option A) → Type ℓ
  AgreesAt none r m = (t : ℕ) → (get r t ≡ none) × (m t ≡ none)
  AgreesAt (some l) r m = (t : ℕ) → (l < t + capacity r → get r t ≡ m t) × (l < t → m t ≡ none)

  first_write :
      (r : TickRing A) (m : ℕ → Option A) (tick : ℕ) (v : A)
      → 0 < capacity r
      → AgreesAt none r m
      → AgreesAt (some tick) (record_at r tick v) (update m tick v)
  first_write r m tick v c h t = elim (record_at_cases r tick t v c) [
    | inl (e, got) ↦ (λ _. rw (got, e, ==_self t), λ p. absurd (omega arith))
    | inr (inl (ne, _, got)) ↦ rw (==_ne tick t ne) (λ _. got ∙ sym (h t).1, λ _. (h t).1)
    | inr (inr (ne, got)) ↦ rw (==_ne tick t ne) (λ _. got ∙ (h t).0 ∙ sym (h t).1, λ _. (h t).1)
  ]

  kept_write :
      (r : TickRing A) (m : ℕ → Option A) (l tick : ℕ) (v : A)
      → 0 < capacity r
      → l < tick + capacity r
      → AgreesAt (some l) r m
      → AgreesAt (some (max l tick)) (record_at r tick v) (update m tick v)
  kept_write r m l tick v c inside h t = elim (record_at_cases r tick t v c) [
    | inl (e, got) ↦ (λ _. rw (got, e, ==_self t), λ p. absurd (omega arith))
    | inr (inl (ne, slot, got)) ↦
        rw (==_ne tick t ne, capacity-record_at r tick v)
          (λ p. got ∙ sym ((h t).1 (past ne slot p)), λ p. (h t).1 (omega arith))
    | inr (inr (ne, got)) ↦
        rw (==_ne tick t ne, capacity-record_at r tick v)
          (λ p. got ∙ (h t).0 (omega arith), λ p. (h t).1 (omega arith))
  ]
    where
      past : tick ≢ t → tick % capacity r ≡ t % capacity r → max l tick < t + capacity r → l < t
      past ne slot p = omega (arith, same_slot_apart (capacity r) tick t c slot ne)

  refused_write :
      (r : TickRing A) (m : ℕ → Option A) (l tick : ℕ) (v : A)
      → tick + capacity r ≤ l
      → 0 < capacity r
      → AgreesAt (some l) r m
      → AgreesAt (some l) r (update m tick v)
  refused_write r m l tick v out c h t = elim (==_cases tick t) [
    | inl (e, same) ↦ (λ p. absurd (omega arith), λ p. absurd (omega arith))
    | inr (ne, other) ↦ rw other (h t)
  ]

  Agrees : TickRing A → (ℕ → Option A) → Type ℓ
  Agrees r m = AgreesAt r.latest r m

  abbrev Fits : ℕ → ℕ × A → Type 0
  Fits c (tick, v) = tick + c ≤ u64_max

  set_tick-Agrees :
      (slots : List (Option (ℕ × A))) (latest : Option ℕ) (m : ℕ → Option A) (tick : ℕ) (v : A)
      → let r : TickRing A = record { slots = slots; latest = latest } in
        0 < capacity r
        → tick + capacity r ≤ u64_max
        → Agrees r m
        → Agrees (set_tick r tick v).1 (update m tick v)
  unfolding set_tick Agrees
  set_tick-Agrees slots none m tick v c fits h = first_write _ m tick v c h
  set_tick-Agrees slots (some l) m tick v c fits h =
      let r : TickRing A = record { slots = slots; latest = some l } in
      elim (Bool-cases (is_stale (some l) (capacity r) tick)) [
        | inl out ↦ rw out (refused_write r m l tick v (ground arith) c h)
        | inr inside ↦ rw inside (kept_write r m l tick v c (ground arith) h)
      ]

  store-Agrees :
      (ws : List (ℕ × A)) (r : TickRing A) (m : ℕ → Option A)
      → 0 < capacity r
      → All (Fits (capacity r)) ws
      → Agrees r m
      → Agrees (store r ws) (recorded m ws) × (capacity (store r ws) ≡ capacity r)
  unfolding store recorded
  store-Agrees [] r m c fits h = (h, refl)
  store-Agrees ((tick, v) ∷ ws) r m c fits h =
      let same = capacity-set_tick r tick v in
      let (agrees, kept) =
        store-Agrees ws (set_tick r tick v).1 (update m tick v) (rw same c) (rw same fits.1)
          (set_tick-Agrees r.slots r.latest m tick v c fits.0 h) in
      (agrees, kept ∙ same)

pub capacity-with_capacity {ℓ} : (A : Type ℓ) (n : ℕ) → capacity (with_capacity {A = A} n) ≡ max n 1
unfolding with_capacity
capacity-with_capacity A n = length-replicate {A = Option (ℕ × A)} (max n 1) none

fresh-Agrees {ℓ} : (A : Type ℓ) (n : ℕ) → Agrees (with_capacity {A = A} n) (λ _. none)
unfolding Agrees with_capacity get
fresh-Agrees A n t =
    let slot = t % capacity (with_capacity {A = A} n) in
    (rw (get_or-replicate {A = Option (ℕ × A)} (max n 1) slot none), refl)

module _ {ℓ} {A : Type ℓ} where
  Agrees-inside :
      (r : TickRing A) (m : ℕ → Option A) (latest t : ℕ)
      → Agrees r m
      → r.latest ≡ some latest
      → latest < t + capacity r
      → get r t ≡ m t
  unfolding Agrees
  Agrees-inside r m latest t h e inside = (subst (λ o. AgreesAt o r m) e h t).0 inside

  -- After any sequence of writes to a new ring, none so near the end of u64 that the window check
  -- saturates, every tick within a capacity of the newest reads back as the last value written for
  -- it, or as nothing if it was never written.
  pub get-store_inside :
      (n latest t : ℕ) (ws : List (ℕ × A))
      → All (Fits (max n 1)) ws
      → (store (with_capacity n) ws).latest ≡ some latest
      → latest < t + max n 1
      → get (store (with_capacity n) ws) t ≡ recorded (λ _. none) ws t
  get-store_inside n latest t ws fits e inside =
      let cap = capacity-with_capacity A n in
      let (agrees, kept) =
        store-Agrees ws (with_capacity n) (λ _. none) (rw cap (omega arith)) (rw cap fits)
          (fresh-Agrees A n) in
      Agrees-inside (store (with_capacity n) ws) _ latest t agrees e (rw (kept, cap) inside)
