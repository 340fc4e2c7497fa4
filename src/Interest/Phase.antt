-- ===== src/Interest/Phase.antt =====
-- The refresh phase of an id.
use orbitnet.Base.{
  ℕ, ◌+◌, ◌-◌, ◌%◌, ◌<◌, ◌≡◌, sym, ◌∙◌, ltb, leb, ◌==◌, if◌then◌else◌, ltb_cases, inl, inr, arith,
}
use native.Mathlib.Nat.{mod-lt, mod-eq_of_lt, mod-eq-sub-mod, mod-add-mod}
use orbitnet.Interest.{send_phase}

-- A remainder below twice the modulus.
wrapped : (s n : ℕ) → s < n + n → s % n ≡ (if ltb s n then s else s - n)
wrapped s n h = elim (ltb_cases s n) [
  | inl (small, test) ↦ rw test (mod-eq_of_lt small)
  | inr (large, test) ↦ rw test (mod-eq-sub-mod large ∙ mod-eq_of_lt (ground (arith, h, large)))
]

-- The tick of an interval, counted from a start, at which an id fires.
abbrev pub slot_in : ℕ → ℕ → ℕ → ℕ
slot_in id start interval =
    let from = start % interval in
    let slot = id % interval in if leb from slot then slot - from else slot + interval - from

-- Among as many consecutive ticks as the interval is long, whichever the first of them, an id fires at
-- one, its slot among them, and at no other.
pub send_phase_once :
    (id start interval offset : ℕ)
    → 0 < interval
    → offset < interval
    → (slot_in id start interval < interval)
      × (send_phase id (start + offset) interval ≡ (offset == slot_in id start interval))
unfolding send_phase
send_phase_once id start interval offset positive inside =
    let from = mod-lt start positive in
    let slot = mod-lt id positive in
    let there =
      sym (mod-add-mod start interval offset)
      ∙ wrapped (start % interval + offset) interval (omega (arith, from, inside)) in
    (ground (arith, from, slot), ground (arith, from, slot, there, positive, inside))
