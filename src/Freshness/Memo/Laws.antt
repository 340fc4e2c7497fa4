-- ===== src/Freshness/Memo/Laws.antt =====
-- What a memo reads back after a write.
use orbitnet.Base.{
  ℕ, ◌<◌, max, ◌≡◌, refl, ◌↔◌, inl, inr, true, false, Option, none, some, [], ◌==◌, if◌then◌else◌,
  length, get_or, arith, length-set, Bool-cases, ==_cases, ==_ne, length-replicate,
  get_or-replicate, subst, sym, ap, ◌∙◌, get_or-set_apply,
}
use orbitnet.Base.Int.{ℤ}
use orbitnet.Freshness.Memo.{
  eqb_ℤ, Pairs, MemoSlot, MemoRing, empty_slot, with_capacity, index_of, slot_at, put_pair,
  find_pair, claim, set_memo, holds, get_memo, find_pair-put_pair,
}

-- A slot that holds no tick holds no pairs.
abbrev pub SlotValid : MemoSlot → Type 0
SlotValid s = s.tick ≡ none → s.pairs ≡ []

abbrev pub IsValid : MemoRing → Type 0
IsValid m = (0 < length m.slots) × ((t : ℕ) → SlotValid (slot_at m t))

-- The slot's answer for the tick `t`.
abbrev answer : ℕ → ℤ → MemoSlot → Option ℤ
answer t key s = if holds t s.tick then find_pair key s.pairs else none

-- The slot once `tick` has claimed it and the pair is written.
abbrev written : ℕ → ℤ → ℤ → MemoSlot → MemoSlot
written tick key value s = record (claim tick s).1 {
  pairs = put_pair key value (claim tick s).1.pairs;
}

answer-written :
    (o : Option ℕ) (ps : Pairs) (tick t : ℕ) (key other value : ℤ)
    → let s : MemoSlot = record { tick = o; pairs = ps } in
      SlotValid s
      → (claim tick s).0 ≡ true
      → answer t other (written tick key value s)
        ≡ (if tick == t then (if eqb_ℤ key other then some value else answer t other s) else none)
unfolding find_pair
answer-written none ps tick t key other value v c =
    rw (v refl) (ground (arith, find_pair-put_pair key other value []))
answer-written (some stored) ps tick t key other value v c =
    ground (arith, find_pair-put_pair key other value ps, find_pair-put_pair key other value [])

claim_refused :
    (o : Option ℕ) (ps : Pairs) (tick : ℕ)
    → ((claim tick (record { tick = o; pairs = ps })).0 ≡ false)
      ↔ ((stored : ℕ) × (o ≡ some stored) × (tick < stored))
claim_refused none ps tick = (λ e. cc, λ (stored, e, h). cc)
claim_refused (some stored) ps tick =
    (λ e. (stored, refl, ground arith), λ (later, e, h). ground arith)

set_memo-claim :
    (m : MemoRing) (tick : ℕ) (key value : ℤ)
    → (set_memo m tick key value).0 ≡ (claim tick (slot_at m tick)).0
unfolding set_memo
set_memo-claim m tick key value = elim (Bool-cases (claim tick (slot_at m tick)).0) [
  | inl e ↦ rw e
  | inr e ↦ rw e
]

-- `set` is refused exactly if the slot already holds a later tick.
set_memo-refused :
    (m : MemoRing) (tick : ℕ) (key value : ℤ)
    → ((set_memo m tick key value).0 ≡ false)
      ↔ ((stored : ℕ) × ((slot_at m tick).tick ≡ some stored) × (tick < stored))
set_memo-refused m tick key value =
    let s = slot_at m tick in
    (
      λ e. (claim_refused s.tick s.pairs tick).0 (sym (set_memo-claim m tick key value) ∙ e),
      λ r. set_memo-claim m tick key value ∙ (claim_refused s.tick s.pairs tick).1 r,
    )

slot_at-set_memo :
    (m : MemoRing) (tick t : ℕ) (key value : ℤ)
    → 0 < length m.slots
    → (set_memo m tick key value).0 ≡ true
    → slot_at (set_memo m tick key value).1 t ≡ (
        if index_of m tick == index_of m t
        then written tick key value (slot_at m t)
        else slot_at m t)
unfolding set_memo
slot_at-set_memo m tick t key value n ok =
    let claimed : (claim tick (slot_at m tick)).0 ≡ true =
      sym (set_memo-claim m tick key value) ∙ ok in
    let slot = written tick key value (slot_at m tick) in
    rw (claimed, length-set m.slots (index_of m tick) slot)
      (get_or-set_apply m.slots (index_of m tick) (index_of m t) (written tick key value) empty_slot
        (omega arith))

set_memo-unchanged :
    (m : MemoRing) (tick : ℕ) (key value : ℤ)
    → (set_memo m tick key value).0 ≡ false
    → (set_memo m tick key value).1 ≡ m
unfolding set_memo
set_memo-unchanged m tick key value h =
    let refused : (claim tick (slot_at m tick)).0 ≡ false =
      sym (set_memo-claim m tick key value) ∙ h in
    rw refused

-- An accepted write is read back for its key, drops every memo of another tick in the same slot, and
-- leaves every other memo as it was; a refused one changes nothing.
get_memo-set_memo :
    (m : MemoRing) (tick t : ℕ) (key other value : ℤ)
    → IsValid m
    → get_memo (set_memo m tick key value).1 t other ≡ (
        if (set_memo m tick key value).0
        then (if tick == t
            then (if eqb_ℤ key other then some value else get_memo m t other)
            else if index_of m tick == index_of m t
            then none
            else get_memo m t other)
        else get_memo m t other)
unfolding get_memo
get_memo-set_memo m tick t key other value v = elim (Bool-cases (set_memo m tick key value).0) [
  | inl ok ↦
      rw (ok, slot_at-set_memo m tick t key value v.0 ok)
        (elim (==_cases (index_of m tick) (index_of m t)) [
          | inl (e, same) ↦ rw (same, get_memo) (here ok e)
          | inr (ne, apart) ↦ rw (apart, get_memo, ==_ne tick t (λ e. ne (rw e))) refl
        ])
  | inr no_write ↦ rw (no_write, set_memo-unchanged m tick key value no_write)
]
  where
    here :
        (set_memo m tick key value).0 ≡ true
        → index_of m tick ≡ index_of m t
        → answer t other (written tick key value (slot_at m t)) ≡ (
            if tick == t
            then (if eqb_ℤ key other then some value else answer t other (slot_at m t))
            else none)
    here ok e =
        let s = slot_at m t in
        let claimed : (claim tick s).0 ≡ true =
          subst (λ i. (claim tick (get_or m.slots i empty_slot)).0 ≡ true) e
            (sym (set_memo-claim m tick key value) ∙ ok) in
        answer-written s.tick s.pairs tick t key other value (v.1 t) claimed

-- A new ring is valid, and a write keeps it so.
pub with_capacity-IsValid : (n : ℕ) → IsValid (with_capacity n)
unfolding with_capacity
with_capacity-IsValid n = (
  rw (length-replicate (max n 1) empty_slot) (omega arith),
  λ t e. ap (λ (s : MemoSlot). s.pairs) (get_or-replicate (max n 1) _ empty_slot),
)

written-SlotValid :
    (o : Option ℕ) (ps : Pairs) (tick : ℕ) (key value : ℤ)
    → let s : MemoSlot = record { tick = o; pairs = ps } in
      (claim tick s).0 ≡ true → SlotValid (written tick key value s)
written-SlotValid none ps tick key value c e = cc
written-SlotValid (some stored) ps tick key value c e = ground arith

length-set_memo :
    (m : MemoRing) (tick : ℕ) (key value : ℤ)
    → length (set_memo m tick key value).1.slots ≡ length m.slots
unfolding set_memo
length-set_memo m tick key value = elim (Bool-cases (claim tick (slot_at m tick)).0) [
  | inl e ↦ rw e (length-set m.slots (index_of m tick) (written tick key value (slot_at m tick)))
  | inr e ↦ rw e
]

set_memo-SlotValid :
    (m : MemoRing) (tick t : ℕ) (key value : ℤ)
    → IsValid m
    → (set_memo m tick key value).0 ≡ true
    → SlotValid (slot_at (set_memo m tick key value).1 t)
set_memo-SlotValid m tick t key value v ok =
    rw (slot_at-set_memo m tick t key value v.0 ok)
      (elim (==_cases (index_of m tick) (index_of m t)) [
        | inl (e, same) ↦ rw same (written-SlotValid s.tick s.pairs tick key value (claimed e))
        | inr (ne, apart) ↦ rw apart (v.1 t)
      ])
  where
    s : MemoSlot
    s = slot_at m t

    claimed : index_of m tick ≡ index_of m t → (claim tick s).0 ≡ true
    claimed e =
        subst (λ i. (claim tick (get_or m.slots i empty_slot)).0 ≡ true) e
          (sym (set_memo-claim m tick key value) ∙ ok)

pub set_memo-IsValid :
    (m : MemoRing) (tick : ℕ) (key value : ℤ) → IsValid m → IsValid (set_memo m tick key value).1
set_memo-IsValid m tick key value v = elim (Bool-cases (set_memo m tick key value).0) [
  | inl ok ↦
      (rw (length-set_memo m tick key value) v.0, λ t. set_memo-SlotValid m tick t key value v ok)
  | inr refused ↦ rw (set_memo-unchanged m tick key value refused) v
]

-- On a valid ring, `set` is refused exactly if the slot already holds a later tick, and then
-- no read changes; otherwise the write is read back for its key, drops every memo of another tick
-- in the same slot, and leaves every other memo as it was.
pub set_memo_lem :
    (m : MemoRing) (tick t : ℕ) (key other value : ℤ)
    → IsValid m
    → (((set_memo m tick key value).0 ≡ false)
        ↔ ((stored : ℕ) × ((slot_at m tick).tick ≡ some stored) × (tick < stored)))
      × (get_memo (set_memo m tick key value).1 t other ≡ (
          if (set_memo m tick key value).0
          then (if tick == t
              then (if eqb_ℤ key other then some value else get_memo m t other)
              else if index_of m tick == index_of m t
              then none
              else get_memo m t other)
          else get_memo m t other))
set_memo_lem m tick t key other value v =
    (set_memo-refused m tick key value, get_memo-set_memo m tick t key other value v)
