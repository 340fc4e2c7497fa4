-- ===== src/Slots/Reconcile/Laws.antt =====
-- The contract of a whole `reconcile` pass.
use orbitnet.Base.{
  ℕ, ◌≤◌, ◌≡◌, refl, ◌⊎◌, inl, inr, true, false, Option, none, some, List, [], ◌∷◌, if◌then◌else◌,
  arith, ==_cases, sym, ◌∙◌, length,
}
use orbitnet.Base.OrdMap.{OrdMap, lookup, keys}
use orbitnet.Slots.{SlotTable, release, slot_of}
use orbitnet.Slots.Valid.{slot_map, IsServer}
use orbitnet.Slots.Release.{release-IsServer}
use orbitnet.Slots.Reconcile.{
  Reconciled, contains, stale, release_all, name_one, name_all, reconcile,
}
use orbitnet.Slots.Reconcile.Steps.{Named, NamesOnly, Counted, slot_map-release, name_one_lem}

release_all_lem :
    (ids : List ℕ) (t : SlotTable) (tick : ℕ)
    → IsServer t
    → IsServer (release_all t ids tick)
      × ((k : ℕ)
          → slot_map (release_all t ids tick) k ≡ (if contains ids k then none else slot_map t k))
unfolding release_all contains
release_all_lem [] t tick v = (v, λ k. refl)
release_all_lem (id ∷ ids) t tick v =
    let (valid, names) =
      release_all_lem ids (release t id tick).1 tick (release-IsServer t id tick v) in
    (valid, λ k. names k ∙ ground (arith, slot_map-release t id tick k v))

contains-keys : (m : OrdMap ℕ) (k slot : ℕ) → lookup k m ≡ some slot → contains (keys m) k ≡ true
unfolding lookup contains
contains-keys [] k slot e = ground arith
contains-keys ((j, s) ∷ m) k slot e = ground (arith, contains-keys m k slot)

contains-stale :
    (registered ids : List ℕ) (k : ℕ)
    → contains (stale registered ids) k ≡ (if contains registered k then false else contains ids k)
unfolding stale contains
contains-stale registered [] k = ground arith
contains-stale registered (id ∷ ids) k = ground (arith, contains-stale registered ids k)

-- What the allocating loop of the pass promises of its start and its end.
record Passed (t : SlotTable) (o : Reconciled) (ids : List ℕ) (r : Reconciled × SlotTable)
    : Type 0 where
  valid : IsServer r.1
  keeps :
      (k : ℕ) → (slot_map r.1 k ≡ slot_map t k) ⊎ ((slot_map t k ≡ none) × (contains ids k ≡ true))
  grows : o.unnamed ≤ r.0.unnamed
  all_named : r.0.unnamed ≡ o.unnamed → (k : ℕ) → contains ids k ≡ true → Named r.1 k

module _ (t : SlotTable) (o : Reconciled) (id : ℕ) (ids : List ℕ)
    (step last : Reconciled × SlotTable) (only : NamesOnly t id step.1)
    (counted : Counted o id step) (rest : Passed step.1 step.0 ids last) where
  keeps-cons :
      (k : ℕ)
      → (slot_map last.1 k ≡ slot_map t k)
        ⊎ ((slot_map t k ≡ none) × (contains (id ∷ ids) k ≡ true))
  unfolding contains
  keeps-cons k = go (rest.keeps k) (only k)
    where
      go :
          (slot_map last.1 k ≡ slot_map step.1 k)
            ⊎ ((slot_map step.1 k ≡ none) × (contains ids k ≡ true))
          → (slot_map step.1 k ≡ slot_map t k) ⊎ ((slot_map t k ≡ none) × (id ≡ k))
          → (slot_map last.1 k ≡ slot_map t k)
            ⊎ ((slot_map t k ≡ none) × (contains (id ∷ ids) k ≡ true))
      go (inl e) (inl f) = inl (e ∙ f)
      go (inr (unnamed, inside)) (inl f) = inr (sym f ∙ unnamed, ground arith)
      go other (inr (before, same)) = inr (before, ground arith)

  Named-later : (k : ℕ) → Named step.1 k → Named last.1 k
  Named-later k (slot, named) = elim (rest.keeps k) [
    | inl e ↦ (slot, e ∙ named)
    | inr (unnamed, inside) ↦ ground arith
  ]

  Named-cons : last.0.unnamed ≡ o.unnamed → (k : ℕ) → contains (id ∷ ids) k ≡ true → Named last.1 k
  unfolding contains
  Named-cons e k h = elim counted [
    | inr more ↦ let grown = rest.grows in ground arith
    | inl (same, named) ↦ elim (==_cases id k) [
      | inl (here, test) ↦ Named-later k (rw (← here) named)
      | inr (ne, test) ↦ rest.all_named (e ∙ sym same) k (ground arith)
    ]
  ]

  Passed-cons : Passed t o (id ∷ ids) last
  Passed-cons = record {
    valid = rest.valid;
    keeps = keeps-cons;
    grows = elim counted [
      | inl (same, named) ↦ omega (arith, rest.grows, same)
      | inr more ↦ omega (arith, rest.grows, more)
    ];
    all_named = Named-cons;
  }

name_all_lem :
    (ids : List ℕ) (t : SlotTable) (o : Reconciled) (tick : ℕ)
    → IsServer t
    → Passed t o ids (name_all t o ids tick)
unfolding name_all contains
name_all_lem [] t o tick v = record {
  valid = v;
  keeps = λ k. inl refl;
  grows = omega arith;
  all_named = λ e k h. ground arith;
}
name_all_lem (id ∷ ids) t o tick v =
    let (valid, only, counted) = name_one_lem t o id tick v in
    let step = name_one t o id tick in
    Passed-cons t o id ids step (name_all step.1 step.0 ids tick) only counted
      (name_all_lem ids step.1 step.0 tick valid)

-- Of the entities that a table names, those that are not stale are the registered ones.
released-named :
    (t : SlotTable) (registered : List ℕ) (k : ℕ)
    → let left = if contains (stale registered (keys t.slots)) k then none else slot_map t k in
      ((slot : ℕ) → left ≡ some slot → contains registered k ≡ true)
      × (contains registered k ≡ true → left ≡ slot_map t k)
released-named t registered k =
    let gone = contains-stale registered (keys t.slots) k in
    (λ slot e. ground (arith, gone, contains-keys t.slots k slot), λ h. rw (gone, h) refl)

-- The outcome of a pass before it has named anything.
abbrev started : ℕ → Reconciled
started n = record { released = n; named = 0; unnamed = 0; exhausted_id = none }

-- After a pass every named entity is registered and those registered that had a slot still have
-- it; and if the pass counts none as unnamed, every registered entity has a slot. The table stays
-- valid.
pub reconcile_lem :
    (t : SlotTable) (registered : List ℕ) (tick : ℕ)
    → IsServer t
    → let (outcome, u) = reconcile t registered tick in
      IsServer u
      × ((k slot : ℕ) → slot_of u k ≡ some slot → contains registered k ≡ true)
      × ((k slot : ℕ)
          → contains registered k ≡ true
          → slot_of t k ≡ some slot
          → slot_of u k ≡ some slot)
      × (outcome.unnamed ≡ 0
          → (k : ℕ) → contains registered k ≡ true
          → (slot : ℕ) × (slot_of u k ≡ some slot))
unfolding reconcile slot_of
reconcile_lem t registered tick v =
    let gone = stale registered (keys t.slots) in
    let (valid, left) = release_all_lem gone t tick v in
    let pass =
      name_all_lem registered (release_all t gone tick) (started (length gone)) tick valid in
    (
      pass.valid,
      λ k slot e. elim (pass.keeps k) [
        | inl same ↦ (released-named t registered k).0 slot (sym (left k) ∙ sym same ∙ e)
        | inr (unnamed, inside) ↦ inside
      ],
      λ k slot h e. elim (pass.keeps k) [
        | inl same ↦ same ∙ left k ∙ (released-named t registered k).1 h ∙ e
        | inr (unnamed, inside) ↦
            let never : ◌≡◌ {A = Option ℕ} none (some slot) =
              sym unnamed ∙ left k ∙ (released-named t registered k).1 h ∙ e in
            cc
      ],
      pass.all_named,
    )
