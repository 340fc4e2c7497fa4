-- ===== src/Freshness/Tests.antt =====
-- Runs of the freshness ledger and the memo ring, and their theorems at concrete inputs.
use orbitnet.Base.{◌≤◌, ◌≡◌, refl, false, none, some, List, [], ◌∷◌, ◌++◌, arith}
use orbitnet.Base.Int.{pos, negsuc}
use orbitnet.Freshness.Ledger
use orbitnet.Freshness.Ledger.{
  Confidence, predicted, extrapolated, authoritative, FreshnessLedger, set_confidence, begin_sim,
}
use orbitnet.Freshness.Ledger.Once.{LedgerOp, confides, sims, fresh_count, fresh_count-le_one}
use orbitnet.Freshness.Ledger.First.{fresh_count_exactly_once}
use orbitnet.Freshness.Memo
use orbitnet.Freshness.Memo.{MemoRing, set_memo, get_memo, eqb_ℤ, index_of, slot_at}

-- Two speculative passes over tick 9, then real input.
abbrev speculative : List LedgerOp
speculative =
    confides 5 authoritative
    ∷ sims 9
    ∷ confides 9 extrapolated
    ∷ sims 9
    ∷ confides 11 authoritative
    ∷ []

answers_twice_asked :
    fresh_count 9
      (Ledger.with_capacity 4)
      (speculative ++ confides 9 authoritative ∷ sims 9 ∷ sims 9 ∷ [])
    ≡ 1
unfolding fresh_count Ledger.with_capacity set_confidence begin_sim
answers_twice_asked = refl

fresh_count-le_one_example :
    fresh_count 9 (Ledger.with_capacity 4) (confides 9 authoritative ∷ sims 9 ∷ sims 9 ∷ []) ≤ 1
unfolding Ledger.with_capacity
fresh_count-le_one_example =
    fresh_count-le_one (confides 9 authoritative ∷ sims 9 ∷ sims 9 ∷ []) (Ledger.with_capacity 4) 9
      (omega arith)

fresh_count_exactly_once_example :
    fresh_count 9
      (Ledger.with_capacity 4)
      (speculative ++ confides 9 authoritative ∷ sims 9 ∷ confides 13 authoritative ∷ [])
    ≡ 1
fresh_count_exactly_once_example =
    fresh_count_exactly_once 4 9 speculative (confides 13 authoritative ∷ []) (omega arith)

abbrev memo : MemoRing
memo = record {
  slots =
      record { tick = some 4; pairs = (negsuc 0, pos 7) ∷ [] }
      ∷ record { tick = none; pairs = [] }
      ∷ [];
}

memo_runs :
    (get_memo (set_memo memo 4 (pos 2) (pos 9)).1 4 (negsuc 0) ≡ some (pos 7))
    × (get_memo (set_memo memo 6 (pos 2) (pos 9)).1 4 (negsuc 0) ≡ none)
    × ((set_memo memo 2 (pos 2) (pos 9)).0 ≡ false)
unfolding get_memo set_memo Memo.find_pair Memo.put_pair
memo_runs = (refl, refl, refl)
