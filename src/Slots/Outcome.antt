-- ===== src/Slots/Outcome.antt =====
-- The branches of `alloc`, each with what holds on it and what it leaves.
use orbitnet.Base.{
  ℕ, ◌+◌, ◌-◌, ◌≤◌, ◌<◌, ◌≡◌, refl, ◌≢◌, inl, inr, true, false, none, some, List, [], ◌∷◌, ◌++◌,
  ltb, leb, arith, ==_cases, length, ltb→lt, Option-cases, Bool-cases,
}
use orbitnet.Base.OrdMap.{OrdMap, lookup, insert}
use orbitnet.Slots.{
  SlotTable, SlotResult, ok, err, quarantined, exhausted, max_slots, slot_quarantine_ticks, bind_at,
  mint, reuse_or_mint, alloc,
}
use orbitnet.Slots.Valid.{slot_map}

-- The ways in which `alloc` ends.
abbrev pub FrontCools : ℕ → List (ℕ × ℕ) → Type 0
FrontCools tick [] = Unit {0}
FrontCools tick ((slot, freed) ∷ rest) = tick < freed + slot_quarantine_ticks

pub data Outcome (t : SlotTable) (id tick : ℕ) (r : SlotResult × SlotTable) : Type 0 where
  no_entity : id ≡ 0 → r ≡ (err exhausted, t) → Outcome t id tick r
  has_slot : (slot : ℕ) → slot_map t id ≡ some slot → r ≡ (ok slot, t) → Outcome t id tick r
  reused :
      (slot freed : ℕ) (rest : List (ℕ × ℕ))
      → id ≢ 0
      → slot_map t id ≡ none
      → t.free ≡ (slot, freed) ∷ rest
      → freed + slot_quarantine_ticks ≤ tick
      → r ≡ (ok slot, bind_at (record t { free = rest }) slot id)
      → Outcome t id tick r
  minted :
      id ≢ 0
      → slot_map t id ≡ none
      → FrontCools tick t.free
      → length t.ids < max_slots
      → r ≡ (
        ok (length t.ids),
        record t { ids = t.ids ++ (id ∷ []); slots = insert id (length t.ids) t.slots },
      )
      → Outcome t id tick r
  out_of_slots :
      id ≢ 0
      → slot_map t id ≡ none
      → max_slots ≤ length t.ids
      → t.free ≡ []
      → r ≡ (err exhausted, t)
      → Outcome t id tick r
  all_cooling :
      (slot freed : ℕ) (rest : List (ℕ × ℕ))
      → id ≢ 0
      → slot_map t id ≡ none
      → max_slots ≤ length t.ids
      → t.free ≡ (slot, freed) ∷ rest
      → tick < freed + slot_quarantine_ticks
      → r ≡ (err quarantined, t)
      → Outcome t id tick r

mint-Outcome :
    (ids : List ℕ) (slots : OrdMap ℕ) (free : List (ℕ × ℕ)) (id tick : ℕ)
    → let t : SlotTable = record { ids = ids; slots = slots; free = free } in
      id ≢ 0 → slot_map t id ≡ none → FrontCools tick free → Outcome t id tick (mint t id)
unfolding mint
mint-Outcome ids slots [] id tick nz unnamed cools =
    elim (Bool-cases (ltb (length ids) max_slots)) [
      | inl room ↦ rw room (minted nz unnamed cools (ltb→lt _ _ room) refl)
      | inr full ↦ rw full (out_of_slots nz unnamed (ground (arith, full)) refl refl)
    ]
mint-Outcome ids slots ((slot, freed) ∷ rest) id tick nz unnamed cools =
    elim (Bool-cases (ltb (length ids) max_slots)) [
      | inl room ↦ rw room (minted nz unnamed cools (ltb→lt _ _ room) refl)
      | inr full ↦
          rw full (all_cooling slot freed rest nz unnamed (ground (arith, full)) refl cools refl)
    ]

reuse_or_mint-Outcome :
    (ids : List ℕ) (slots : OrdMap ℕ) (free : List (ℕ × ℕ)) (id tick : ℕ)
    → let t : SlotTable = record { ids = ids; slots = slots; free = free } in
      id ≢ 0 → slot_map t id ≡ none → Outcome t id tick (reuse_or_mint t id tick)
unfolding reuse_or_mint
reuse_or_mint-Outcome ids slots [] id tick nz unnamed =
    mint-Outcome ids slots [] id tick nz unnamed tt
reuse_or_mint-Outcome ids slots ((slot, freed) ∷ rest) id tick nz unnamed =
    elim (Bool-cases (leb slot_quarantine_ticks (tick - freed))) [
      | inl over ↦ rw over (reused slot freed rest nz unnamed refl (expired over) refl)
      | inr cools ↦
          rw cools
            (mint-Outcome ids slots ((slot, freed) ∷ rest) id tick nz unnamed (cooling cools))
    ]
  where
    expired : leb slot_quarantine_ticks (tick - freed) ≡ true → freed + slot_quarantine_ticks ≤ tick
    expired h = ground arith

    cooling :
        leb slot_quarantine_ticks (tick - freed) ≡ false → tick < freed + slot_quarantine_ticks
    cooling h = ground arith

-- `alloc` ends in one of these ways.
pub alloc-Outcome : (t : SlotTable) (id tick : ℕ) → Outcome t id tick (alloc t id tick)
unfolding alloc
alloc-Outcome t id tick = elim (==_cases id 0) [
  | inl (z, test) ↦ rw test (no_entity z refl)
  | inr (nz, test) ↦ elim (Option-cases (lookup id t.slots)) [
    | inl unnamed ↦
        rw (test, unnamed) (reuse_or_mint-Outcome t.ids t.slots t.free id tick nz unnamed)
    | inr (slot, named) ↦ rw (test, named) (has_slot slot named refl)
  ]
]
