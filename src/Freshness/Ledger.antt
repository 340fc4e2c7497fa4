-- ===== src/Freshness/Ledger.antt =====
-- `Confidence` and `FreshnessLedger` of freshness.rs.
pub mod Once
pub mod First
use orbitnet.Base.{
  ℕ, ◌%◌, max, Bool, true, false, ◌&&◌, not, Option, none, some, List, [], ◌∷◌, map, ltb, ◌==◌,
  if◌then◌else◌, length, get_or, set, replicate,
}

pub data Confidence : Type 0 where
  predicted extrapolated authoritative : Confidence

-- The derived order of the variants.
abbrev pub level : Confidence → ℕ
level predicted = 0
level extrapolated = 1
level authoritative = 2

pub record LedgerSlot : Type 0 where
  pub tick : ℕ
  pub confidence : Confidence
  pub fresh_consumed : Bool

pub record FreshnessLedger : Type 0 where
  pub slots : List (Option LedgerSlot)

unfoldable pub with_capacity : ℕ → FreshnessLedger
with_capacity capacity = record { slots = replicate (max capacity 1) none }

abbrev pub index_of : FreshnessLedger → ℕ → ℕ
index_of l tick = tick % length l.slots

-- The vector is never empty, so the slot of a tick is always there.
abbrev pub slot_at : FreshnessLedger → ℕ → Option LedgerSlot
slot_at l tick = get_or l.slots (index_of l tick) none

abbrev pub fresh_slot : ℕ → Confidence → LedgerSlot
fresh_slot tick c = record { tick = tick; confidence = c; fresh_consumed = false }

-- The arms of `set_confidence`: upgrade in place, refuse what is stale, or evict.
abbrev pub confide : ℕ → Confidence → Option LedgerSlot → Option LedgerSlot
confide tick c none = some (fresh_slot tick c)
confide tick c (some s) =
    if s.tick == tick
    then some (if ltb (level s.confidence) (level c) then record s { confidence = c } else s)
    else if ltb tick s.tick
    then some s
    else some (fresh_slot tick c)

unfoldable pub set_confidence : FreshnessLedger → ℕ → Confidence → FreshnessLedger
set_confidence l tick c = record {
  slots = set l.slots (index_of l tick) (confide tick c (slot_at l tick));
}

abbrev pub confidence_in : ℕ → Option LedgerSlot → Confidence
confidence_in tick none = predicted
confidence_in tick (some s) = if s.tick == tick then s.confidence else predicted

unfoldable pub confidence : FreshnessLedger → ℕ → Confidence
confidence l tick = confidence_in tick (slot_at l tick)

-- The guard of `begin_sim`.
abbrev pub is_fresh : ℕ → Option LedgerSlot → Bool
is_fresh tick none = false
is_fresh tick (some s) = s.tick == tick && level s.confidence == 2 && not s.fresh_consumed

abbrev pub consume : Option LedgerSlot → Option LedgerSlot
consume none = none
consume (some s) = some (record s { fresh_consumed = true })

unfoldable pub begin_sim : FreshnessLedger → ℕ → Bool × FreshnessLedger
begin_sim l tick =
    if is_fresh tick (slot_at l tick)
    then (true, record { slots = set l.slots (index_of l tick) (consume (slot_at l tick)) })
    else (false, l)

unfoldable pub clear : FreshnessLedger → FreshnessLedger
clear l = record { slots = map (λ _. none) l.slots }
