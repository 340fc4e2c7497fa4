-- ===== src/Freshness/Memo.antt =====
-- `MemoRing` of freshness.rs: a few key and value pairs for each tick.
pub mod Laws
use orbitnet.Base.{
  ℕ, suc, ◌+◌, ◌%◌, ◌≤◌, ◌<◌, max, ◌≡◌, refl, ◌≢◌, ◌⊎◌, inl, inr, Bool, true, false, ◌&&◌, not,
  Option, none, some, List, [], ◌∷◌, ltb, ◌==◌, if◌then◌else◌, length, get_or, set, replicate,
  arith, length-set, get_or-set, Bool-cases, ==_cases, map,
}
use orbitnet.Base.Int.{ℤ, pos, negsuc, pos_part, neg_part}

-- Equality of `i64` keys.
abbrev pub eqb_ℤ : ℤ → ℤ → Bool
eqb_ℤ a b = pos_part a == pos_part b && neg_part a == neg_part b

abbrev pub Pairs : Type 0
Pairs = List (ℤ × ℤ)

pub record MemoSlot : Type 0 where
  pub tick : Option ℕ
  pub pairs : Pairs

pub record MemoRing : Type 0 where
  pub slots : List MemoSlot

abbrev pub empty_slot : MemoSlot
empty_slot = record { tick = none; pairs = [] }

unfoldable pub with_capacity : ℕ → MemoRing
with_capacity capacity = record { slots = replicate (max capacity 1) empty_slot }

abbrev pub index_of : MemoRing → ℕ → ℕ
index_of m tick = tick % length m.slots

abbrev pub slot_at : MemoRing → ℕ → MemoSlot
slot_at m tick = get_or m.slots (index_of m tick) empty_slot

-- The loop of `set` over the pairs: overwrite the key's pair, or push a new one.
unfoldable pub put_pair : ℤ → ℤ → Pairs → Pairs
put_pair key value [] = (key, value) ∷ []
put_pair key value ((k, v) ∷ ps) =
    if eqb_ℤ k key then (k, value) ∷ ps else (k, v) ∷ put_pair key value ps

unfoldable pub find_pair : ℤ → Pairs → Option ℤ
find_pair key [] = none
find_pair key ((k, v) ∷ ps) = if eqb_ℤ k key then some v else find_pair key ps

-- The match of `set` on the slot's tick: the result, the new tick and the pairs to write into.
abbrev pub claim : ℕ → MemoSlot → Bool × MemoSlot
claim tick s = elim s.tick [
  | none ↦ (true, record s { tick = some tick })
  | some stored ↦
      if ltb tick stored
      then (false, s)
      else if ltb stored tick
      then (true, record { tick = some tick; pairs = [] })
      else (true, s)
]

unfoldable pub set_memo : MemoRing → ℕ → ℤ → ℤ → Bool × MemoRing
set_memo m tick key value =
    let (admitted, s) = claim tick (slot_at m tick) in
    if admitted
    then (
      true,
      record {
        slots = set m.slots (index_of m tick) (record s { pairs = put_pair key value s.pairs });
      },
    )
    else (false, m)

abbrev pub holds : ℕ → Option ℕ → Bool
holds tick none = false
holds tick (some stored) = stored == tick

unfoldable pub get_memo : MemoRing → ℕ → ℤ → Option ℤ
get_memo m tick key =
    let s = slot_at m tick in if holds tick s.tick then find_pair key s.pairs else none

unfoldable pub clear : MemoRing → MemoRing
clear m = record { slots = map (λ _. empty_slot) m.slots }

pub find_pair-put_pair :
    (key other value : ℤ) (ps : Pairs)
    → find_pair other (put_pair key value ps)
      ≡ (if eqb_ℤ key other then some value else find_pair other ps)
unfolding find_pair put_pair
find_pair-put_pair key other value [] = refl
find_pair-put_pair key other value ((k, v) ∷ ps) =
    ground (arith, find_pair-put_pair key other value ps)
