-- ===== src/Pacing/Slew/Laws.antt =====
-- When a slew leaves the steady state, and for how long it may not do so again.
use orbitnet.Base.{
  ℕ, ◌-◌, ◌≤◌, ◌≡◌, ◌≢◌, ◌⊎◌, refl, true, false, ◌&&◌, ◌||◌, Bool-cases, List, [], ◌∷◌, inl, inr,
  ltb, length, All, arith,
}
use orbitnet.Base.Doubles.{is_finite_f64, lt_f64, le_f64, abs_f64}
use orbitnet.Pacing.Slew.{SlewDecision, run0, run1, run2, CoupledSlew, decide}

-- The decisions over a run of offsets.
unfoldable pub decisions : CoupledSlew → List ℕ → List SlewDecision
decisions s [] = []
decisions s (offset ∷ offsets) = (decide s offset).0 ∷ decisions (decide s offset).1 offsets

-- Why a frame decides as it does.
abbrev pub Reason : CoupledSlew → ℕ → SlewDecision → Type 0
Reason s offset run1 =
    ((is_finite_f64 offset
        && (ltb 0 s.cooldown_remaining || le_f64 (abs_f64 offset) s.threshold_ticks))
      ≡ true)
    ⊎ (is_finite_f64 offset ≡ false)
Reason s offset run2 =
    (s.cooldown_remaining ≡ 0)
    × (is_finite_f64 offset ≡ true)
    × (le_f64 (abs_f64 offset) s.threshold_ticks ≡ false)
    × (lt_f64 0 offset ≡ true)
Reason s offset run0 =
    (s.cooldown_remaining ≡ 0)
    × (is_finite_f64 offset ≡ true)
    × (le_f64 (abs_f64 offset) s.threshold_ticks ≡ false)
    × (lt_f64 0 offset ≡ false)

-- A frame runs one tick while the slew cools down, where the offset is inside the threshold and where
-- it is not finite; otherwise it runs two for a positive offset and none for a negative one.
pub decide-Reason : (s : CoupledSlew) (offset : ℕ) → Reason s offset (decide s offset).0
unfolding decide
decide-Reason s offset = elim (Bool-cases (is_finite_f64 offset)) [
  | inr poison ↦ rw poison (inr poison)
  | inl finite ↦ elim (Bool-cases (ltb 0 s.cooldown_remaining)) [
    | inl cooling ↦ rw (finite, cooling) (inl (rw (finite, cooling) refl))
    | inr ready ↦ elim (Bool-cases (le_f64 (abs_f64 offset) s.threshold_ticks)) [
      | inl near ↦ rw (finite, ready, near) (inl (rw (finite, ready, near) refl))
      | inr far ↦ elim (Bool-cases (lt_f64 0 offset)) [
        | inl behind ↦ rw (finite, ready, far, behind) (spent ready, finite, far, behind)
        | inr ahead ↦ rw (finite, ready, far, ahead) (spent ready, finite, far, ahead)
      ]
    ]
  ]
]
  where
    spent : ltb 0 s.cooldown_remaining ≡ false → s.cooldown_remaining ≡ 0
    spent h = ground (arith, h)

-- Every one of these decisions is the steady one.
abbrev pub AreSteady : List SlewDecision → Type 0
AreSteady ds = All (λ (d : SlewDecision). d ≡ run1) ds

cooling_down :
    (offsets : List ℕ) (s : CoupledSlew)
    → length offsets ≤ s.cooldown_remaining
    → AreSteady (decisions s offsets)
unfolding decisions decide
cooling_down [] s h = tt
cooling_down (offset ∷ offsets) s h =
    let cooling : ltb 0 s.cooldown_remaining ≡ true = ground (arith, h) in
    let cooled = record s { cooldown_remaining = s.cooldown_remaining - 1 } in
    let rest = cooling_down offsets cooled (omega (arith, h)) in
    elim (Bool-cases (is_finite_f64 offset)) [
      | inr poison ↦ rw poison (refl, rest)
      | inl finite ↦ rw (finite, cooling) (refl, rest)
    ]

armed_by :
    (s : CoupledSlew) (offset : ℕ)
    → (decide s offset).0 ≢ run1
    → (decide s offset).1.cooldown_remaining ≡ s.cooldown_frames
unfolding decide
armed_by s offset slewed = ground (arith, slewed)

-- A frame that runs two ticks or none is followed by a whole cooldown of frames that run one each,
-- whatever the offsets are: corrections come at least the cooldown apart.
pub decide-cools :
    (s : CoupledSlew) (offset : ℕ) (offsets : List ℕ)
    → (decide s offset).0 ≢ run1
    → length offsets ≤ s.cooldown_frames
    → AreSteady (decisions (decide s offset).1 offsets)
decide-cools s offset offsets slewed h =
    cooling_down offsets (decide s offset).1 (omega (arith, h, armed))
  where
    armed : (decide s offset).1.cooldown_remaining ≡ s.cooldown_frames
    armed = armed_by s offset slewed
