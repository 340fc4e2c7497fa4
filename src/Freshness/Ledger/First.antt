-- ===== src/Freshness/Ledger/First.antt =====
-- Real input is reported fresh exactly once, however many speculative passes come before it.
use orbitnet.Base.{
  ℕ, ◌+◌, ◌%◌, ◌<◌, max, ◌≡◌, refl, ◌≢◌, ◌⊎◌, inl, inr, true, false, ◌&&◌, Option, none, some, List,
  [], ◌∷◌, ◌++◌, ◌==◌, length, get_or, arith, All, get_or-replicate, length-replicate, Bool-cases,
  ==_cases, ==_self, ==_iff, &&_true, sym, subst, ◌∙◌,
}
use orbitnet.Freshness.Ledger.{
  Confidence, authoritative, level, LedgerSlot, FreshnessLedger, with_capacity, index_of, slot_at,
  confide, set_confidence, is_fresh, consume, begin_sim,
}
use orbitnet.Freshness.Ledger.Once.{
  LedgerOp, confides, sims, step, run, fresh_answer, fresh_count, length-step,
  slot_at-set_confidence, slot_at-begin_sim, begin_sim-is_fresh, begin_sim-spends, spent_count,
}

-- No real input for `t` yet, and no later tick in its slot.
abbrev Waits : ℕ → Option LedgerSlot → Type 0
Waits t none = Unit {0}
Waits t (some s) =
    (s.tick < t) ⊎ ((s.tick ≡ t) × (level s.confidence < 2) × (s.fresh_consumed ≡ false))

-- A call that brings no real input for `t` and evicts no slot of it, at the capacity `cap`.
abbrev pub IsSpeculative : ℕ → ℕ → LedgerOp → Type 0
IsSpeculative cap t (confides tick c) =
    (tick % cap ≢ t % cap) ⊎ (tick < t) ⊎ ((tick ≡ t) × (level c < 2))
IsSpeculative cap t (sims tick) = Unit {0}

confide-Waits :
    (t tick : ℕ) (c : Confidence) (o : Option LedgerSlot)
    → (tick < t) ⊎ ((tick ≡ t) × (level c < 2))
    → Waits t o
    → Waits t (confide tick c o)
confide-Waits t tick c none q h = ground arith
confide-Waits t tick c (some s) q h = ground arith

Waits-not_fresh : (t : ℕ) (o : Option LedgerSlot) → Waits t o → is_fresh t o ≡ false
Waits-not_fresh t none h = refl
Waits-not_fresh t (some s) h = ground arith

consume-Waits :
    (t tick : ℕ) (o : Option LedgerSlot) → is_fresh tick o ≡ true → Waits t o → Waits t (consume o)
consume-Waits t tick none f h = tt
consume-Waits t tick (some s) f h = ground arith

step-Waits :
    (l : FreshnessLedger) (t : ℕ) (op : LedgerOp)
    → 0 < length l.slots
    → IsSpeculative (length l.slots) t op
    → Waits t (slot_at l t)
    → Waits t (slot_at (step l op) t)
step-Waits l t (confides tick c) n q h =
    rw (slot_at-set_confidence l tick t c n) (elim (==_cases (index_of l tick) (index_of l t)) [
      | inl (e, same) ↦ rw same (confide-Waits t tick c (slot_at l t) (own e q) h)
      | inr (ne, other) ↦ rw other h
    ])
  where
    own :
        tick % length l.slots ≡ t % length l.slots
        → IsSpeculative (length l.slots) t (confides tick c)
        → (tick < t) ⊎ ((tick ≡ t) × (level c < 2))
    own e (inl ne) = absurd (ne e)
    own e (inr r) = r
step-Waits l t (sims tick) n q h =
    rw (slot_at-begin_sim l tick t n)
      (elim (Bool-cases (index_of l tick == index_of l t && (begin_sim l tick).0)) [
        | inl e ↦ rw e (consumed e)
        | inr e ↦ rw e h
      ])
  where
    consumed :
        (index_of l tick == index_of l t && (begin_sim l tick).0) ≡ true
        → Waits t (consume (slot_at l t))
    consumed e =
        let (test, answer) = &&_true (index_of l tick == index_of l t) (begin_sim l tick).0 e in
        let index : index_of l tick ≡ index_of l t = (==_iff _ _).0 test in
        let fresh : is_fresh tick (slot_at l tick) ≡ true =
          sym (begin_sim-is_fresh l tick) ∙ answer in
        consume-Waits t tick (slot_at l t)
          (subst (λ i. is_fresh tick (get_or l.slots i none) ≡ true) index fresh) h

Waits-no_answer :
    (l : FreshnessLedger) (t : ℕ) (op : LedgerOp) → Waits t (slot_at l t) → fresh_answer t l op ≡ 0
Waits-no_answer l t (confides tick c) h = refl
Waits-no_answer l t (sims tick) h = elim (==_cases tick t) [
  | inl (e, same) ↦ rw (e, begin_sim-is_fresh l t, Waits-not_fresh t (slot_at l t) h)
  | inr (ne, other) ↦ ground (arith, other)
]

run-Waits :
    (ops : List LedgerOp) (l : FreshnessLedger) (t : ℕ)
    → 0 < length l.slots
    → All (IsSpeculative (length l.slots) t) ops
    → Waits t (slot_at l t)
    → (length (run l ops).slots ≡ length l.slots)
      × Waits t (slot_at (run l ops) t)
      × (fresh_count t l ops ≡ 0)
unfolding run fresh_count
run-Waits [] l t n q h = (refl, h, refl)
run-Waits (op ∷ ops) l t n q h =
    let same = length-step l op in
    let (len, waits, zero_count) =
      run-Waits ops (step l op) t (rw same n) (rw same q.1) (step-Waits l t op n q.0 h) in
    (len ∙ same, waits, omega (arith, zero_count, Waits-no_answer l t op h))

fresh_count-append :
    (xs ys : List LedgerOp) (l : FreshnessLedger) (t : ℕ)
    → fresh_count t l (xs ++ ys) ≡ fresh_count t l xs + fresh_count t (run l xs) ys
unfolding fresh_count run
fresh_count-append [] ys l t = omega arith
fresh_count-append (op ∷ xs) ys l t = omega (arith, fresh_count-append xs ys (step l op) t)

confide-fresh :
    (t : ℕ) (o : Option LedgerSlot) → Waits t o → is_fresh t (confide t authoritative o) ≡ true
confide-fresh t none h = ground arith
confide-fresh t (some s) h = ground arith

first_pass :
    (l : FreshnessLedger) (t : ℕ)
    → 0 < length l.slots
    → Waits t (slot_at l t)
    → (begin_sim (set_confidence l t authoritative) t).0 ≡ true
first_pass l t n h =
    begin_sim-is_fresh (set_confidence l t authoritative) t
    ∙ rw (slot_at-set_confidence l t t authoritative n, ==_self (index_of l t))
        (confide-fresh t (slot_at l t) h)

real_input_count :
    (l : FreshnessLedger) (t : ℕ) (more : List LedgerOp)
    → 0 < length l.slots
    → Waits t (slot_at l t)
    → fresh_count t l (confides t authoritative ∷ sims t ∷ more) ≡ 1
unfolding fresh_count
real_input_count l t more n h =
    let real = set_confidence l t authoritative in
    let n' : 0 < length real.slots = rw (length-step l (confides t authoritative)) n in
    let yes_answer = first_pass l t n h in
    rw (yes_answer, ==_self t)
      (omega (
        arith,
        spent_count more (begin_sim real t).1 t (rw (length-step real (sims t)) n')
            (begin_sim-spends real t n' yes_answer),
      ))

-- On a new ledger, after any calls that bring no real input for a tick and leave its slot to it, the
-- arrival of real input and one pass over the tick make exactly one fresh answer, and no later call
-- adds another.
pub fresh_count_exactly_once :
    (capacity t : ℕ) (ops more : List LedgerOp)
    → All (IsSpeculative (max capacity 1) t) ops
    → fresh_count t (with_capacity capacity) (ops ++ confides t authoritative ∷ sims t ∷ more) ≡ 1
unfolding with_capacity
fresh_count_exactly_once capacity t ops more q =
    let l = with_capacity capacity in
    let size : length l.slots ≡ max capacity 1 = length-replicate (max capacity 1) none in
    let n : 0 < length l.slots = rw size (omega arith) in
    let empty : slot_at l t ≡ none = get_or-replicate (max capacity 1) (index_of l t) none in
    let (len, waits, zero_count) = run-Waits ops l t n (rw size q) (rw empty tt) in
    fresh_count-append ops (confides t authoritative ∷ sims t ∷ more) l t
    ∙ omega (arith, zero_count, real_input_count (run l ops) t more (rw len n) waits)
