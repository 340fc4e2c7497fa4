-- ===== src/Pacing/Lead.antt =====
-- `LeadTracker` of pacing.rs.
pub mod Laws
use orbitnet.Base.{
  ℕ, ◌+◌, ◌%◌, max, Bool, true, false, Option, none, some, List, [], ◌∷◌, ◌++◌, ltb, ◌==◌, length,
  set, if◌then◌else◌,
}
use orbitnet.Base.Int.{ℤ, pos, negsuc, sub_ℕ, ltb_ℤ}
use orbitnet.Base.Doubles.{Double}
use orbitnet.Base.Rolling.{rolled}

abbrev pub default_lead_window_capacity : ℕ
default_lead_window_capacity = 32

pub record LeadTracker : Type 0 where
  pub samples : List ℤ
  pub capacity : ℕ
  pub next : ℕ

unfoldable pub with_capacity : ℕ → LeadTracker
with_capacity n = record { samples = []; capacity = max n 1; next = 0 }

unfoldable pub new : LeadTracker
unfolding with_capacity
new = with_capacity default_lead_window_capacity

unfoldable pub push : LeadTracker → ℤ → LeadTracker
push t margin_ticks =
    let r = rolled t.samples t.capacity t.next margin_ticks in
    record t { samples = r.0; next = r.1 }

abbrev pub sample_count : LeadTracker → ℕ
sample_count t = length t.samples

abbrev pub min_ℤ : ℤ → ℤ → ℤ
min_ℤ a b = if ltb_ℤ b a then b else a

abbrev pub lesser : ℤ → Option ℤ → Option ℤ
lesser a none = some a
lesser a (some b) = some (min_ℤ a b)

abbrev pub least : List ℤ → Option ℤ
least [] = none
least (m ∷ ms) = lesser m (least ms)

unfoldable pub min_margin : LeadTracker → Option ℤ
min_margin t = least t.samples

unfoldable pub clear : LeadTracker → LeadTracker
clear t = record t { samples = []; next = 0 }

-- `target + 2`.
abbrev pub plus_two : ℤ → ℤ
plus_two (pos n) = pos (n + 2)
plus_two (negsuc n) = sub_ℕ 1 n

-- A full window has a least margin.
abbrev pub adjustment : Option ℤ → ℤ → ℤ
adjustment none target = pos 0
adjustment (some min) target =
    if ltb_ℤ min target then pos 1 else if ltb_ℤ (plus_two target) min then negsuc 0 else pos 0

abbrev pub is_zero : ℤ → Bool
is_zero (pos n) = n == 0
is_zero (negsuc n) = false

unfoldable pub suggest_adjustment : LeadTracker → ℤ → ℤ × LeadTracker
unfolding min_margin clear
suggest_adjustment t target_min =
    let suggestion = adjustment (min_margin t) target_min in
    if ltb (length t.samples) t.capacity
    then (pos 0, t)
    else (suggestion, if is_zero suggestion then t else clear t)

module _ (d : Double) where
  abbrev pub total : ℕ → List ℤ → ℕ
  total acc [] = acc
  total acc (m ∷ ms) = total (d.add acc (d.of_ℤ m)) ms

  unfoldable pub mean_margin : LeadTracker → ℕ
  mean_margin t =
      if sample_count t == 0 then 0 else d.div (total 0 t.samples) (d.of_ℤ (pos (sample_count t)))
