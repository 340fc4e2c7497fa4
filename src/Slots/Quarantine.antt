-- ===== src/Slots/Quarantine.antt =====
-- A freed slot names nothing until its quarantine is over, whatever the server does meanwhile.
use orbitnet.Base.{
  ℕ, ◌+◌, ◌≤◌, ◌<◌, ◌≡◌, refl, ◌≢◌, ◌⊎◌, inl, inr, some, List, [], ◌∷◌, ◌++◌, arith, sym, ◌∙◌,
  length, All, Option-cases, subst,
}
use orbitnet.Base.OrdMap.{lookup}
use orbitnet.Slots.{SlotTable, SlotResult, ok, slot_quarantine_ticks, bind_at, alloc, release}
use orbitnet.Slots.Outcome.{
  Outcome, no_entity, has_slot, reused, minted, out_of_slots, all_cooling, alloc-Outcome,
}
use orbitnet.Slots.Valid.{slot_map, Lacks, IsDistinct, IsVacant, IsServer}
use orbitnet.Slots.Server.{alloc-IsServer}
use orbitnet.Slots.Release.{release-IsServer}

-- The free list records that `slot` was freed at `freed`.
abbrev pub IsFreed : ℕ → ℕ → List (ℕ × ℕ) → Type 0
IsFreed slot freed [] = ⊥
IsFreed slot freed ((s, f) ∷ rest) = ((s ≡ slot) × (f ≡ freed)) ⊎ IsFreed slot freed rest

freed-IsVacant :
    (t : SlotTable) (slot freed : ℕ) (free : List (ℕ × ℕ))
    → IsFreed slot freed free
    → All (IsVacant t) free
    → IsVacant t (slot, freed)
freed-IsVacant t slot freed [] h v = absurd h
freed-IsVacant t slot freed ((s, f) ∷ rest) (inl e) v = subst (λ k. IsVacant t (k, freed)) e.0 v.0
freed-IsVacant t slot freed ((s, f) ∷ rest) (inr h) v = freed-IsVacant t slot freed rest h v.1

IsFreed-append :
    (slot freed : ℕ) (free more : List (ℕ × ℕ))
    → IsFreed slot freed free
    → IsFreed slot freed (free ++ more)
IsFreed-append slot freed [] more h = absurd h
IsFreed-append slot freed ((s, f) ∷ rest) more (inl e) = inl e
IsFreed-append slot freed ((s, f) ∷ rest) more (inr h) = inr (IsFreed-append slot freed rest more h)

freed-not_lacking :
    (slot freed : ℕ) (free : List (ℕ × ℕ)) → IsFreed slot freed free → Lacks slot free → ⊥
freed-not_lacking slot freed [] h l = h
freed-not_lacking slot freed ((s, f) ∷ rest) (inl e) l = l.0 e.0
freed-not_lacking slot freed ((s, f) ∷ rest) (inr h) l = freed-not_lacking slot freed rest h l.1

-- The front leaves the list: an entry that still cools is further back, and is another slot.
front-leaves :
    (slot freed s f tick : ℕ) (rest : List (ℕ × ℕ))
    → IsFreed slot freed ((s, f) ∷ rest)
    → IsDistinct ((s, f) ∷ rest)
    → f + slot_quarantine_ticks ≤ tick
    → tick < freed + slot_quarantine_ticks
    → (s ≢ slot) × IsFreed slot freed rest
front-leaves slot freed s f tick rest (inl e) d over cools = absurd (omega arith)
front-leaves slot freed s f tick rest (inr h) d over cools =
    (λ e. freed-not_lacking slot freed rest h (subst (λ k. Lacks k rest) e d.0), h)

-- One `alloc` while the slot cools.
alloc-cools :
    (t : SlotTable) (slot freed id tick : ℕ) {r : SlotResult × SlotTable}
    → IsServer t
    → IsFreed slot freed t.free
    → tick < freed + slot_quarantine_ticks
    → Outcome t id tick r
    → (r.0 ≢ ok slot) × IsFreed slot freed r.1.free
unfolding bind_at
alloc-cools t slot freed id tick v h cools (no_entity z e) = rw e (λ q. cc, h)
alloc-cools t slot freed id tick v h cools (has_slot s named e) = rw e (λ q. occupied (cc q), h)
  where
    occupied : s ≡ slot → ⊥
    occupied same =
        let (nz, holds) = (v.consistent.inverse id s).0 named in
        let empty = (freed-IsVacant t slot freed t.free h v.vacant).1 in
        nz (sym holds ∙ rw same empty)
alloc-cools t slot freed id tick v h cools (reused s f rest nz unnamed front over e) =
    let (ne, left) =
      front-leaves slot freed s f tick rest (rw front at h) (rw front at v.distinct) over cools in
    rw e (λ q. ne (cc q), left)
alloc-cools t slot freed id tick v h cools (minted nz unnamed cool room e) =
    rw e (λ q. beyond (cc q), h)
  where
    beyond : length t.ids ≡ slot → ⊥
    beyond e = omega (arith, (freed-IsVacant t slot freed t.free h v.vacant).0)
alloc-cools t slot freed id tick v h cools (out_of_slots nz unnamed full none_free e) =
    rw e (λ q. cc, h)
alloc-cools t slot freed id tick v h cools (all_cooling s f rest nz unnamed full front cool e) =
    rw e (λ q. cc, h)

-- What a server does to its table.
pub data ServerOp : Type 0 where
  allocs : ℕ → ℕ → ServerOp
  releases : ℕ → ℕ → ServerOp

abbrev pub step : SlotTable → ServerOp → SlotTable
step t (allocs id tick) = (alloc t id tick).1
step t (releases id tick) = (release t id tick).1

-- What the `alloc` calls of a run answer.
unfoldable pub answers : SlotTable → List ServerOp → List SlotResult
answers t [] = []
answers t (allocs id tick ∷ ops) = (alloc t id tick).0 ∷ answers (alloc t id tick).1 ops
answers t (releases id tick ∷ ops) = answers (release t id tick).1 ops

abbrev pub IsBefore : ℕ → ServerOp → Type 0
IsBefore bound (allocs id tick) = tick < bound
IsBefore bound (releases id tick) = tick < bound

release-cools :
    (t : SlotTable) (slot freed id tick : ℕ)
    → IsFreed slot freed t.free
    → IsFreed slot freed (release t id tick).1.free
unfolding release
release-cools t slot freed id tick h = elim (Option-cases (lookup id t.slots)) [
  | inl unnamed ↦ rw (unnamed, release) h
  | inr (s, named) ↦ rw (named, release) (IsFreed-append slot freed t.free ((s, tick) ∷ []) h)
]

answers-cool :
    (ops : List ServerOp) (t : SlotTable) (slot freed : ℕ)
    → IsServer t
    → IsFreed slot freed t.free
    → All (IsBefore (freed + slot_quarantine_ticks)) ops
    → All (λ r. r ≢ ok slot) (answers t ops)
unfolding answers
answers-cool [] t slot freed v h before = tt
answers-cool (allocs id tick ∷ ops) t slot freed v h before =
    let (ne, left) = alloc-cools t slot freed id tick v h before.0 (alloc-Outcome t id tick) in
    (ne, answers-cool ops (alloc t id tick).1 slot freed (alloc-IsServer t id tick v) left before.1)
answers-cool (releases id tick ∷ ops) t slot freed v h before =
    answers-cool ops (release t id tick).1 slot freed (release-IsServer t id tick v)
      (release-cools t slot freed id tick h) before.1

IsFreed-last :
    (slot freed : ℕ) (free : List (ℕ × ℕ)) → IsFreed slot freed (free ++ ((slot, freed) ∷ []))
IsFreed-last slot freed [] = inl (refl, refl)
IsFreed-last slot freed ((s, f) ∷ rest) = inr (IsFreed-last slot freed rest)

release-IsFreed :
    (t : SlotTable) (id freed slot : ℕ)
    → slot_map t id ≡ some slot
    → IsFreed slot freed (release t id freed).1.free
unfolding release
release-IsFreed t id freed slot named = rw (named, release) (IsFreed-last slot freed t.free)

-- Once the server has released an entity's slot, no `alloc` answers that slot again before
-- `SLOT_QUARANTINE_TICKS` ticks have passed, whatever is allocated and released in between.
pub release-quarantine :
    (t : SlotTable) (id freed slot : ℕ) (ops : List ServerOp)
    → IsServer t
    → slot_map t id ≡ some slot
    → All (IsBefore (freed + slot_quarantine_ticks)) ops
    → All (λ r. r ≢ ok slot) (answers (release t id freed).1 ops)
release-quarantine t id freed slot ops v named before =
    answers-cool ops (release t id freed).1 slot freed (release-IsServer t id freed v)
      (release-IsFreed t id freed slot named) before
