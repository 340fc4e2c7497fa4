-- ===== src/Slots/Reconcile/Steps.antt =====
-- What one `alloc` and one `release` of a `reconcile` pass do to the ids that are named.
use orbitnet.Base.{
  ℕ, ◌+◌, ◌≡◌, refl, ◌⊎◌, inl, inr, none, some, [], ◌∷◌, ◌++◌, ◌==◌, if◌then◌else◌, ==_cases, ◌∙◌,
  length, Option-cases, ==_self,
}
use orbitnet.Base.OrdMap.{lookup, insert, lookup-insert, lookup-remove}
use orbitnet.Slots.{
  SlotTable, SlotResult, ok, err, quarantined, exhausted, bind_at, alloc, release, slot_of,
}
use orbitnet.Slots.Outcome.{
  Outcome, no_entity, has_slot, reused, minted, out_of_slots, all_cooling, alloc-Outcome,
}
use orbitnet.Slots.Valid.{slot_map, slot_map-bind_at, IsServer}
use orbitnet.Slots.Server.{alloc-IsServer}
use orbitnet.Slots.Reconcile.{Reconciled, tally, name_one}

abbrev pub Named : SlotTable → ℕ → Type 0
Named t k = (slot : ℕ) × (slot_map t k ≡ some slot)

-- `u` names what `t` names, and of the rest nothing but `id`.
abbrev pub NamesOnly : SlotTable → ℕ → SlotTable → Type 0
NamesOnly t id u = (k : ℕ) → (slot_map u k ≡ slot_map t k) ⊎ ((slot_map t k ≡ none) × (id ≡ k))

-- An error leaves the table alone, and an answer names the id.
abbrev pub AnswerNames : ℕ → SlotResult × SlotTable → Type 0
AnswerNames id (ok slot, u) = Named u id
AnswerNames id (err e, u) = Unit {0}

new_name :
    (t u : SlotTable) (id slot : ℕ)
    → slot_map t id ≡ none
    → ((k : ℕ) → slot_map u k ≡ (if id == k then some slot else slot_map t k))
    → NamesOnly t id u × Named u id
new_name t u id slot unnamed h = (
  λ k. elim (==_cases id k) [
    | inl (same, test) ↦ inr (rw (← same) unnamed, same)
    | inr (ne, test) ↦ inl (h k ∙ rw test refl)
  ],
  (slot, h id ∙ rw (==_self id) refl),
)

pub Outcome-names :
    (t : SlotTable) (id tick : ℕ) {r : SlotResult × SlotTable}
    → Outcome t id tick r
    → NamesOnly t id r.1 × AnswerNames id r
Outcome-names t id tick (no_entity z e) = rw e (λ k. inl refl, tt)
Outcome-names t id tick (has_slot slot named e) = rw e (λ k. inl refl, (slot, named))
Outcome-names t id tick (reused slot freed rest nz unnamed front over e) = rw e (
    new_name t (bind_at (record t { free = rest }) slot id) id slot unnamed
      (slot_map-bind_at (record t { free = rest }) slot id))
Outcome-names t id tick (minted nz unnamed cools room e) = rw e (
    new_name t (record t { ids = t.ids ++ (id ∷ []); slots = insert id (length t.ids) t.slots }) id
      (length t.ids) unnamed (λ k. lookup-insert id k (length t.ids) t.slots))
Outcome-names t id tick (out_of_slots nz unnamed full empty e) = rw e (λ k. inl refl, tt)
Outcome-names t id tick (all_cooling slot freed rest nz unnamed full front cools e) =
    rw e (λ k. inl refl, tt)

pub slot_map-release :
    (t : SlotTable) (id tick k : ℕ)
    → IsServer t
    → slot_map (release t id tick).1 k ≡ (if id == k then none else slot_map t k)
unfolding release
slot_map-release t id tick k v = elim (Option-cases (lookup id t.slots)) [
  | inl unnamed ↦ elim (==_cases id k) [
    | inl (same, test) ↦ rw (unnamed, test, release) (rw (← same) unnamed)
    | inr (ne, test) ↦ rw (unnamed, test, release) refl
  ]
  | inr (slot, named) ↦ rw (named, release) (lookup-remove id k 0 t.slots v.consistent.sorted)
]

-- One step of the pass counts the id as unnamed, or the id is named after it.
abbrev pub Counted : Reconciled → ℕ → Reconciled × SlotTable → Type 0
Counted o id (next, u) = ((next.unnamed ≡ o.unnamed) × Named u id) ⊎ (next.unnamed ≡ o.unnamed + 1)

tally-Counted :
    (o : Reconciled) (id : ℕ) (answer : SlotResult) (u : SlotTable)
    → AnswerNames id (answer, u)
    → Counted o id (tally o id answer, u)
unfolding tally
tally-Counted o id (ok slot) u h = inl (refl, h)
tally-Counted o id (err quarantined) u h = inr refl
tally-Counted o id (err exhausted) u h = inr refl

pub name_one_lem :
    (t : SlotTable) (o : Reconciled) (id tick : ℕ)
    → IsServer t
    → let r = name_one t o id tick in IsServer r.1 × NamesOnly t id r.1 × Counted o id r
unfolding name_one slot_of
name_one_lem t o id tick v = elim (Option-cases (lookup id t.slots)) [
  | inl unnamed ↦
      let (only, answer) = Outcome-names t id tick (alloc-Outcome t id tick) in
      rw (unnamed, name_one)
        (
          alloc-IsServer t id tick v,
          only,
          tally-Counted o id (alloc t id tick).0 (alloc t id tick).1 answer,
        )
  | inr (slot, named) ↦ rw (named, name_one) (v, λ k. inl refl, inl (refl, (slot, named)))
]
