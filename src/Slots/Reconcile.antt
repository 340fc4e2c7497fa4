-- ===== src/Slots/Reconcile.antt =====
-- `reconcile` makes the server's table name the registered entities: it releases the stale ones
-- before it allocates the new ones.
pub mod Steps
pub mod Laws
use orbitnet.Base.{
  ℕ, ◌+◌, Bool, true, false, not, Option, none, some, List, [], ◌∷◌, ◌==◌, if◌then◌else◌, length,
}
use orbitnet.Base.OrdMap.{keys}
use orbitnet.Slots.{
  SlotError, SlotResult, ok, err, quarantined, exhausted, SlotTable, alloc, release, slot_of,
}

pub record Reconciled : Type 0 where
  pub released : ℕ
  pub named : ℕ
  pub unnamed : ℕ
  pub exhausted_id : Option ℕ

-- `registered.contains(id)`.
unfoldable pub contains : List ℕ → ℕ → Bool
contains [] id = false
contains (r ∷ rs) id = if r == id then true else contains rs id

-- The named ids that are not registered, ascending.
unfoldable pub stale : List ℕ → List ℕ → List ℕ
stale registered [] = []
stale registered (id ∷ ids) =
    let rest = stale registered ids in if contains registered id then rest else id ∷ rest

unfoldable pub release_all : SlotTable → List ℕ → ℕ → SlotTable
release_all t [] tick = t
release_all t (id ∷ ids) tick = release_all (release t id tick).1 ids tick

-- What one answer of `alloc` does to the outcome of the pass.
unfoldable pub tally : Reconciled → ℕ → SlotResult → Reconciled
tally o id (ok slot) = record o { named = o.named + 1 }
tally o id (err quarantined) = record o { unnamed = o.unnamed + 1 }
tally o id (err exhausted) = record o {
  unnamed = o.unnamed + 1;
  exhausted_id = elim o.exhausted_id [ none ↦ some id | some first ↦ some first ];
}

-- One registered id: nothing if it has its slot.
unfoldable pub name_one : SlotTable → Reconciled → ℕ → ℕ → Reconciled × SlotTable
unfolding slot_of
name_one t o id tick = elim (slot_of t id) [
  | some slot ↦ (o, t)
  | none ↦ let (answer, u) = alloc t id tick in (tally o id answer, u)
]

unfoldable pub name_all : SlotTable → Reconciled → List ℕ → ℕ → Reconciled × SlotTable
name_all t o [] tick = (o, t)
name_all t o (id ∷ ids) tick = let (next, u) = name_one t o id tick in name_all u next ids tick

unfoldable pub reconcile : SlotTable → List ℕ → ℕ → Reconciled × SlotTable
reconcile t registered tick =
    let gone = stale registered (keys t.slots) in
    name_all (release_all t gone tick)
      (record { released = length gone; named = 0; unnamed = 0; exhausted_id = none }) registered
      tick
