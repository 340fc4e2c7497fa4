-- ===== src/History/Ring.antt =====
-- `TickRing<T>` of history.rs: fixed-capacity history, addressed by tick modulo the capacity.
pub mod Laws
pub mod Writes
pub mod Recent
use orbitnet.Base.{
  ℕ, zero, suc, ◌+◌, ◌-◌, ◌%◌, max, Bool, true, false, Option, none, some, List, [], ◌∷◌, map, ◌==◌,
  leb, if◌then◌else◌, is_some, saturating_add, length, get_or, set, replicate, ◌&&◌, not,
}

-- `slots: Vec<Option<(u64, T)>>` and `latest`.
pub record TickRing {ℓ} (A : Type ℓ) : Type ℓ where
  pub slots : List (Option (ℕ × A))
  pub latest : Option ℕ

-- The guard of `set`.
abbrev pub is_stale : Option ℕ → ℕ → ℕ → Bool
is_stale none span tick = false
is_stale (some latest) span tick = leb (saturating_add tick span) latest

abbrev pub newest : Option ℕ → ℕ → ℕ
newest none tick = tick
newest (some latest) tick = max latest tick

module _ {ℓ} {A : Type ℓ} where
  abbrev pub capacity : TickRing A → ℕ
  capacity r = length r.slots

  unfoldable pub with_capacity : ℕ → TickRing A
  with_capacity n = record { slots = replicate (max n 1) none; latest = none }

  -- How many slots are occupied.
  count_some : List (Option (ℕ × A)) → ℕ
  count_some [] = 0
  count_some (none ∷ xs) = count_some xs
  count_some (some _ ∷ xs) = count_some xs + 1

  unfoldable pub len : TickRing A → ℕ
  unfolding count_some
  len r = count_some r.slots

  all_none : List (Option (ℕ × A)) → Bool
  all_none [] = true
  all_none (x ∷ xs) = not (is_some x) && all_none xs

  unfoldable pub is_empty : TickRing A → Bool
  unfolding all_none
  is_empty r = all_none r.slots

  -- What a slot answers when asked for `tick`.
  abbrev pub resident : ℕ → Option (ℕ × A) → Option A
  resident tick none = none
  resident tick (some (stored, value)) = if stored == tick then some value else none

  -- The vector is never empty, so the read is in range; `get_mut` finds the same value.
  unfoldable pub get : TickRing A → ℕ → Option A
  get r tick = resident tick (get_or r.slots (tick % capacity r) none)

  unfoldable pub record_at : TickRing A → ℕ → A → TickRing A
  record_at r tick value = record {
    slots = set r.slots (tick % capacity r) (some (tick, value));
    latest = some (newest r.latest tick);
  }

  -- `set`: the flag is the method's result.
  unfoldable pub set_tick : TickRing A → ℕ → A → Bool × TickRing A
  unfolding record_at
  set_tick r tick value =
      if is_stale r.latest (capacity r) tick then (false, r) else (true, record_at r tick value)

  -- The first stored tick among the `n + 1` from `tick` on.
  unfoldable pub find_up : TickRing A → ℕ → ℕ → Option ℕ
  find_up r zero tick = if is_some (get r tick) then some tick else none
  find_up r (suc n) tick =
      let later = find_up r n (tick + 1) in if is_some (get r tick) then some tick else later

  -- `(floor..=latest).find(…)` over the last `capacity` ticks.
  unfoldable pub earliest_tick : TickRing A → Option ℕ
  unfolding find_up
  earliest_tick r = elim r.latest [
    | none ↦ none
    | some latest ↦ let floor = latest - (capacity r - 1) in find_up r (latest - floor) floor
  ]

  -- The loop of `closest_at_or_before`: `n` is `probe - floor`.
  unfoldable pub probe_down : TickRing A → ℕ → ℕ → Option (ℕ × A)
  probe_down r zero probe = elim (get r probe) [ some value ↦ some (probe, value) | none ↦ none ]
  probe_down r (suc n) probe =
      let below = probe_down r n (probe - 1) in
      elim (get r probe) [ some value ↦ some (probe, value) | none ↦ below ]

  unfoldable pub closest_at_or_before : TickRing A → ℕ → Option (ℕ × A)
  unfolding probe_down
  closest_at_or_before r tick =
      let floor = tick - (capacity r - 1) in probe_down r (tick - floor) tick

  unfoldable pub clear : TickRing A → TickRing A
  clear r = record { slots = map (λ _. none) r.slots; latest = none }
