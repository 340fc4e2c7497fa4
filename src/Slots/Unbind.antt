-- ===== src/Slots/Unbind.antt =====
-- `unbind` retires one binding in both directions.
use orbitnet.Base.{ℕ, ◌≡◌, refl, ◌≢◌, inl, inr, none, some, ==_cases, ◌∙◌, set, ==_self, ==_ne}
use orbitnet.Base.OrdMap.{remove, lookup-remove, remove-SortedFrom}
use orbitnet.Slots.{SlotTable, slot_of, id_of, named, bind, unbind}
use orbitnet.Slots.Client.{bind-IsConsistent, bind_lem}
use orbitnet.Slots.Inverse.{Inverse-unbind, Inverse-ext}
use orbitnet.Slots.Valid.{slot_map, id_map, IsConsistent, id_map-vacate, bound-slot}

vacated-IsConsistent :
    (t : SlotTable) (slot id : ℕ)
    → id_map t slot ≢ 0
    → slot_map t id ≡ some slot
    → IsConsistent t
    → IsConsistent (record t { ids = set t.ids slot 0; slots = remove id t.slots })
vacated-IsConsistent t slot id nz named c = record {
  sorted = remove-SortedFrom id 0 t.slots c.sorted;
  inverse =
      Inverse-ext _ _ (Inverse-unbind (slot_map t) (id_map t) c.inverse id slot named) _ _
        (λ k. lookup-remove id k 0 t.slots c.sorted)
        (λ j. id_map-vacate t.ids slot j (bound-slot t.ids slot nz));
}

-- `unbind` retires exactly the binding of its slot, answers the id it named, and keeps the two
-- directions in agreement; on a vacant slot it does nothing.
pub unbind_lem :
    (t : SlotTable) (slot : ℕ)
    → IsConsistent t
    → let (answer, u) = unbind t slot in
      IsConsistent u
      × (answer ≡ id_of t slot)
      × (id_of u slot ≡ none)
      × ((k : ℕ) → slot_of t k ≢ some slot → slot_of u k ≡ slot_of t k)
unfolding unbind id_of slot_of
unbind_lem t slot c = elim (==_cases (id_map t slot) 0) [
  | inl (z, test) ↦ rw (test, unbind, id_of) (c, refl, rw (test, id_of) refl, λ k ne. refl)
  | inr (nz, test) ↦
      let id = id_map t slot in
      let named : slot_map t id ≡ some slot = (c.inverse id slot).1 (nz, refl) in
      rw (test, unbind, id_of)
        (
          vacated-IsConsistent t slot id nz named c,
          refl,
          rw (id_map-vacate t.ids slot slot (bound-slot t.ids slot nz), ==_self slot),
          λ k ne.
              lookup-remove id k 0 t.slots c.sorted ∙ rw (==_ne id k (λ e. ne (rw (← e) named))),
        )
]

-- On a table whose two directions agree, a client's operations keep them in agreement. After a
-- manifest binds `id` to `slot`, the table answers `slot` for `id` and `id` for `slot`, and every other
-- entity keeps the slot it had, but for the one that `slot` named before. `unbind` retires exactly the
-- binding of its slot and answers the id it named.
pub client_lem :
    (t : SlotTable) (slot id : ℕ)
    → id ≢ 0
    → IsConsistent t
    → IsConsistent (bind t slot id)
      × (slot_of (bind t slot id) id ≡ some slot)
      × (id_of (bind t slot id) slot ≡ some id)
      × ((k : ℕ) → k ≢ id → slot_of t k ≢ some slot → slot_of (bind t slot id) k ≡ slot_of t k)
      × IsConsistent (unbind t slot).1
      × ((unbind t slot).0 ≡ id_of t slot)
      × (id_of (unbind t slot).1 slot ≡ none)
      × ((k : ℕ) → slot_of t k ≢ some slot → slot_of (unbind t slot).1 k ≡ slot_of t k)
client_lem t slot id nz c =
    let bound = bind_lem t slot id nz c in
    let freed = unbind_lem t slot c in
    (bind-IsConsistent t slot id c, bound.0, bound.1, bound.2, freed.0, freed.1, freed.2, freed.3)
