-- ===== src/Freshness/Ledger/Once.antt =====
-- `begin_sim` answers true at most once for a tick, and does so on the first pass over real input.
use orbitnet.Base.{
  ℕ, ◌+◌, ◌≤◌, ◌<◌, ◌≡◌, refl, ◌⊎◌, inl, inr, true, false, ◌&&◌, Option, none, some, List, [], ◌∷◌,
  ◌==◌, if◌then◌else◌, length, arith, length-set, get_or-set_apply, Bool-cases, ==_cases, ==_self,
  sym, ◌∙◌,
}
use orbitnet.Freshness.Ledger.{
  Confidence, LedgerSlot, FreshnessLedger, index_of, slot_at, confide, set_confidence, is_fresh,
  consume, begin_sim,
}

-- A call of the ledger; `clear` starts a new session.
pub data LedgerOp : Type 0 where
  confides : ℕ → Confidence → LedgerOp
  sims : ℕ → LedgerOp

abbrev pub step : FreshnessLedger → LedgerOp → FreshnessLedger
step l (confides tick c) = set_confidence l tick c
step l (sims tick) = (begin_sim l tick).1

unfoldable pub run : FreshnessLedger → List LedgerOp → FreshnessLedger
run l [] = l
run l (op ∷ ops) = run (step l op) ops

-- How often `begin_sim` answers true for the tick `t`.
abbrev pub fresh_answer : ℕ → FreshnessLedger → LedgerOp → ℕ
fresh_answer t l (confides tick c) = 0
fresh_answer t l (sims tick) = if (begin_sim l tick).0 && tick == t then 1 else 0

unfoldable pub fresh_count : ℕ → FreshnessLedger → List LedgerOp → ℕ
fresh_count t l [] = 0
fresh_count t l (op ∷ ops) = fresh_answer t l op + fresh_count t (step l op) ops

pub length-step : (l : FreshnessLedger) (op : LedgerOp) → length (step l op).slots ≡ length l.slots
unfolding set_confidence begin_sim
length-step l (confides tick c) =
    length-set l.slots (index_of l tick) (confide tick c (slot_at l tick))
length-step l (sims tick) =
    ground (arith, length-set l.slots (index_of l tick) (consume (slot_at l tick)))

-- What a call leaves in the slot of `t`: what it does to that slot if it is the call's own.
pub slot_at-set_confidence :
    (l : FreshnessLedger) (tick t : ℕ) (c : Confidence)
    → 0 < length l.slots
    → slot_at (set_confidence l tick c) t
      ≡ (if index_of l tick == index_of l t then confide tick c (slot_at l t) else slot_at l t)
unfolding set_confidence
slot_at-set_confidence l tick t c h =
    rw (length-set l.slots (index_of l tick) (confide tick c (slot_at l tick))) (
      get_or-set_apply l.slots (index_of l tick) (index_of l t) (confide tick c) none (omega arith))

pub slot_at-begin_sim :
    (l : FreshnessLedger) (tick t : ℕ)
    → 0 < length l.slots
    → slot_at (begin_sim l tick).1 t ≡ (
        if index_of l tick == index_of l t && (begin_sim l tick).0
        then consume (slot_at l t)
        else slot_at l t)
unfolding begin_sim
slot_at-begin_sim l tick t h = ground (
  arith,
  length-set l.slots (index_of l tick) (consume (slot_at l tick)),
  get_or-set_apply l.slots (index_of l tick) (index_of l t) consume none,
)

-- The freshness of `t` is used up: consumed, or the slot has moved on to a later tick.
abbrev pub IsSpent : ℕ → Option LedgerSlot → Type 0
IsSpent t none = ⊥
IsSpent t (some s) = (t < s.tick) ⊎ ((t ≡ s.tick) × (s.fresh_consumed ≡ true))

confide-IsSpent :
    (t tick : ℕ) (c : Confidence) (o : Option LedgerSlot)
    → IsSpent t o
    → IsSpent t (confide tick c o)
confide-IsSpent t tick c none h = absurd h
confide-IsSpent t tick c (some s) h = ground arith

consume-IsSpent : (t : ℕ) (o : Option LedgerSlot) → IsSpent t o → IsSpent t (consume o)
consume-IsSpent t none h = h
consume-IsSpent t (some s) h = ground arith

step-IsSpent :
    (l : FreshnessLedger) (t : ℕ) (op : LedgerOp)
    → 0 < length l.slots
    → IsSpent t (slot_at l t)
    → IsSpent t (slot_at (step l op) t)
step-IsSpent l t (confides tick c) n h =
    rw (slot_at-set_confidence l tick t c n) (elim (Bool-cases (index_of l tick == index_of l t)) [
      | inl e ↦ rw e (confide-IsSpent t tick c (slot_at l t) h)
      | inr e ↦ rw e h
    ])
step-IsSpent l t (sims tick) n h =
    rw (slot_at-begin_sim l tick t n)
      (elim (Bool-cases (index_of l tick == index_of l t && (begin_sim l tick).0)) [
        | inl e ↦ rw e (consume-IsSpent t (slot_at l t) h)
        | inr e ↦ rw e h
      ])

-- A spent tick is not fresh, and a fresh answer spends it.
not_fresh : (t : ℕ) (o : Option LedgerSlot) → IsSpent t o → is_fresh t o ≡ false
not_fresh t none h = absurd h
not_fresh t (some s) h = ground arith

fresh-spends : (t : ℕ) (o : Option LedgerSlot) → is_fresh t o ≡ true → IsSpent t (consume o)
fresh-spends t none h = cc
fresh-spends t (some s) h = ground arith

pub begin_sim-is_fresh :
    (l : FreshnessLedger) (t : ℕ) → (begin_sim l t).0 ≡ is_fresh t (slot_at l t)
unfolding begin_sim
begin_sim-is_fresh l t = elim (Bool-cases (is_fresh t (slot_at l t))) [
  | inl e ↦ rw e
  | inr e ↦ rw e
]

pub begin_sim-spends :
    (l : FreshnessLedger) (t : ℕ)
    → 0 < length l.slots
    → (begin_sim l t).0 ≡ true
    → IsSpent t (slot_at (begin_sim l t).1 t)
begin_sim-spends l t n h =
    rw (slot_at-begin_sim l t t n, ==_self (index_of l t), h)
      (fresh-spends t (slot_at l t) (sym (begin_sim-is_fresh l t) ∙ h))

fresh_answer_spent :
    (l : FreshnessLedger) (t : ℕ) (op : LedgerOp)
    → IsSpent t (slot_at l t)
    → fresh_answer t l op ≡ 0
fresh_answer_spent l t (confides tick c) h = refl
fresh_answer_spent l t (sims tick) h = elim (==_cases tick t) [
  | inl (e, same) ↦ rw (e, begin_sim-is_fresh l t, not_fresh t (slot_at l t) h)
  | inr (ne, other) ↦ ground (arith, other)
]

pub spent_count :
    (ops : List LedgerOp) (l : FreshnessLedger) (t : ℕ)
    → 0 < length l.slots
    → IsSpent t (slot_at l t)
    → fresh_count t l ops ≡ 0
unfolding fresh_count
spent_count [] l t n h = refl
spent_count (op ∷ ops) l t n h = omega (
  arith,
  fresh_answer_spent l t op h,
  spent_count ops (step l op) t (rw (length-step l op) n) (step-IsSpent l t op n h),
)

-- An answer for `t` is the only one.
answered_once :
    (l : FreshnessLedger) (t : ℕ) (op : LedgerOp)
    → 0 < length l.slots
    → (fresh_answer t l op ≡ 0) ⊎ ((fresh_answer t l op ≡ 1) × IsSpent t (slot_at (step l op) t))
answered_once l t (confides tick c) n = inl refl
answered_once l t (sims tick) n = elim (==_cases tick t) [
  | inl (e, same) ↦ elim (Bool-cases (begin_sim l t).0) [
    | inl true_answer ↦
        rw (e, true_answer, ==_self t) (inr (refl, begin_sim-spends l t n true_answer))
    | inr false_answer ↦ rw (e, false_answer) (inl refl)
  ]
  | inr (ne, other) ↦ inl (ground (arith, other))
]

-- Whatever confidences are set and whatever ticks are simulated, in any order and with any
-- evictions, `begin_sim` answers true at most once for a tick.
pub fresh_count-le_one :
    (ops : List LedgerOp) (l : FreshnessLedger) (t : ℕ)
    → 0 < length l.slots
    → fresh_count t l ops ≤ 1
unfolding fresh_count
fresh_count-le_one [] l t n = omega arith
fresh_count-le_one (op ∷ ops) l t n =
    let n' : 0 < length (step l op).slots = rw (length-step l op) n in
    elim (answered_once l t op n) [
      | inl e ↦ omega (arith, fresh_count-le_one ops (step l op) t n')
      | inr (e, spent) ↦ omega (arith, spent_count ops (step l op) t n' spent)
    ]
