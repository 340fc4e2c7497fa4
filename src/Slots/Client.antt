-- ===== src/Slots/Client.antt =====
-- `bind`: a client's table agrees in both directions after any manifest.
use orbitnet.Base.{
  ℕ, ◌<◌, ◌≡◌, refl, ◌≢◌, ◌⊎◌, inl, inr, Option, none, some, arith, ==_cases, sym, ◌∙◌, length, set,
  Option-cases, ==_self, ==_ne,
}
use orbitnet.Base.OrdMap.{lookup, IsSorted, lookup-remove, insert-SortedFrom, remove-SortedFrom}
use orbitnet.Slots.{SlotTable, slot_of, id_of, named, bind_at, retire_id, retire_slot, bind}
use orbitnet.Slots.Inverse.{
  Inverse, with_slot, with_id, without_slot, Inverse-bind, Inverse-unbind, Inverse-ext,
}
use orbitnet.Slots.Valid.{
  slot_map, id_map, IsConsistent, id_map-bind_at, slot_map-bind_at, id_map-vacate, bound-slot,
}

id_of-cases :
    (t : SlotTable) (slot : ℕ)
    → ((id_map t slot ≡ 0) × (id_of t slot ≡ none))
      ⊎ ((id_map t slot ≢ 0) × (id_of t slot ≡ some (id_map t slot)))
unfolding id_of
id_of-cases t slot = elim (==_cases (id_map t slot) 0) [
  | inl (z, test) ↦ inl (z, rw test)
  | inr (nz, test) ↦ inr (nz, rw test)
]

with_id_vacant : (g : ℕ → ℕ) (slot j : ℕ) → g slot ≡ 0 → with_id slot 0 g j ≡ g j
with_id_vacant g slot j z = elim (==_cases slot j) [
  | inl (e, test) ↦ rw test (rw (← e) (sym z))
  | inr (_, test) ↦ rw test
]

-- Retiring the id that `slot` names: the table agrees once the slot counts as vacant.
retired_id :
    (t : SlotTable) (slot : ℕ)
    → IsConsistent t
    → let u = retire_id t (id_of t slot) in
      IsSorted u.slots × Inverse (slot_map u) (with_id slot 0 (id_map u))
unfolding retire_id
retired_id t slot c = elim (id_of-cases t slot) [
  | inl (z, e) ↦
      rw (e, retire_id)
        (
          c.sorted,
          Inverse-ext _ _ c.inverse _ _ (λ k. refl) (λ j. with_id_vacant (id_map t) slot j z),
        )
  | inr (nz, e) ↦
      rw (e, retire_id)
        (
          remove-SortedFrom _ 0 t.slots c.sorted,
          Inverse-ext _ _
              (Inverse-unbind (slot_map t) (id_map t) c.inverse (id_map t slot) slot
                ((c.inverse (id_map t slot) slot).1 (nz, refl)))
              _ _ (λ k. lookup-remove (id_map t slot) k 0 t.slots c.sorted) (λ j. refl),
        )
]

-- Binding after the slot's own id is retired, whichever slot the id held before.
module _ (u : SlotTable) (slot id : ℕ) (nz : id ≢ 0) (sorted : IsSorted u.slots)
    (inv : Inverse (slot_map u) (with_id slot 0 (id_map u))) where
  bound_unnamed : slot_map u id ≡ none → IsConsistent (bind_at u slot id)
  bound_unnamed unnamed = record {
    sorted = unfold bind_at in insert-SortedFrom id 0 slot u.slots (omega arith) sorted;
    inverse =
        Inverse-ext _ _
          (Inverse-bind (slot_map u) (with_id slot 0 (id_map u)) inv id slot nz (rw (==_self slot))
            unnamed)
          _ _ (slot_map-bind_at u slot id) (λ j. id_map-bind_at u slot id j ∙ ground arith);
  }

  module _ (q : ℕ) (named : slot_map u id ≡ some q) where
    previous_inside : q < length u.ids
    previous_inside =
        let (_, holds) = (inv id q).0 named in
        elim (==_cases slot q) [
          | inl (e, test) ↦ absurd (nz (sym holds ∙ rw test))
          | inr (ne, test) ↦
              let at_q : id_map u q ≡ id = sym (rw test) ∙ holds in
              bound-slot u.ids q (λ z. nz (sym at_q ∙ z))
        ]

    moved : SlotTable
    moved = record u { ids = set u.ids q 0 }

    bound_moved : IsConsistent (bind_at moved slot id)
    unfolding moved
    bound_moved = record {
      sorted = unfold bind_at in insert-SortedFrom id 0 slot u.slots (omega arith) sorted;
      inverse = Inverse-ext _ _ bound _ _ same_slots same_ids;
    }
      where
        f : ℕ → Option ℕ
        f = without_slot id (slot_map u)

        g : ℕ → ℕ
        g = with_id q 0 (with_id slot 0 (id_map u))

        bound : Inverse (with_slot id slot f) (with_id slot id g)
        bound =
            Inverse-bind f g
              (Inverse-unbind (slot_map u) (with_id slot 0 (id_map u)) inv id q named) id slot nz
              (ground arith) (rw (==_self id))

        same_slots : (k : ℕ) → slot_map (bind_at moved slot id) k ≡ with_slot id slot f k
        same_slots k = slot_map-bind_at moved slot id k ∙ ground arith

        same_ids : (j : ℕ) → id_map (bind_at moved slot id) j ≡ with_id slot id g j
        same_ids j =
            id_map-bind_at moved slot id j ∙ ground (arith, id_map-vacate u.ids q j previous_inside)

bind-nonzero :
    (t : SlotTable) (slot id : ℕ)
    → id ≢ 0
    → bind t slot id
      ≡ (let u = retire_id t (id_of t slot) in bind_at (retire_slot u (lookup id u.slots)) slot id)
unfolding bind
bind-nonzero t slot id nz = rw (==_ne id 0 nz)

bind-IsConsistent_nonzero :
    (t : SlotTable) (slot id : ℕ) → id ≢ 0 → IsConsistent t → IsConsistent (bind t slot id)
unfolding retire_slot moved
bind-IsConsistent_nonzero t slot id nz c =
    let u = retire_id t (id_of t slot) in
    let (sorted, inv) = retired_id t slot c in
    rw (bind-nonzero t slot id nz) (elim (Option-cases (lookup id u.slots)) [
      | inl unnamed ↦ rw (unnamed, retire_slot) (bound_unnamed u slot id nz sorted inv unnamed)
      | inr (q, named) ↦ rw (named, retire_slot) (bound_moved u slot id nz sorted inv q named)
    ])

-- `bind` keeps the two directions in agreement, whatever the slot and the id were bound to.
pub bind-IsConsistent :
    (t : SlotTable) (slot id : ℕ) → IsConsistent t → IsConsistent (bind t slot id)
unfolding bind
bind-IsConsistent t slot id c = elim (==_cases id 0) [
  | inl (z, test) ↦ rw (test, bind) c
  | inr (nz, test) ↦ bind-IsConsistent_nonzero t slot id nz c
]

slots-retire_slot : (u : SlotTable) (o : Option ℕ) → (retire_slot u o).slots ≡ u.slots
unfolding retire_slot
slots-retire_slot u none = refl
slots-retire_slot u (some q) = refl

slot_map-bind :
    (t : SlotTable) (slot id k : ℕ)
    → id ≢ 0
    → slot_map (bind t slot id) k ≡ with_slot id slot (slot_map (retire_id t (id_of t slot))) k
slot_map-bind t slot id k nz =
    let u = retire_id t (id_of t slot) in
    rw (bind-nonzero t slot id nz) (
      slot_map-bind_at (retire_slot u (lookup id u.slots)) slot id k
      ∙ rw (slots-retire_slot u (lookup id u.slots)))

slot_map-retire_id :
    (t : SlotTable) (slot k : ℕ)
    → IsConsistent t
    → slot_map t k ≢ some slot
    → slot_map (retire_id t (id_of t slot)) k ≡ slot_map t k
unfolding retire_id
slot_map-retire_id t slot k c ne = elim (id_of-cases t slot) [
  | inl (z, e) ↦ rw (e, retire_id)
  | inr (nz, e) ↦
      let holder = (c.inverse (id_map t slot) slot).1 (nz, refl) in
      rw (e, retire_id)
        (lookup-remove (id_map t slot) k 0 t.slots c.sorted
          ∙ rw (==_ne (id_map t slot) k (λ p. ne (rw (← p) holder))))
]

-- After a manifest binds `id` to `slot`, the table answers `slot` for `id` and `id` for `slot`, and
-- every other entity keeps the slot it had, but for the one that `slot` named before.
pub bind_lem :
    (t : SlotTable) (slot id : ℕ)
    → id ≢ 0
    → IsConsistent t
    → (slot_of (bind t slot id) id ≡ some slot)
      × (id_of (bind t slot id) slot ≡ some id)
      × ((k : ℕ) → k ≢ id → slot_of t k ≢ some slot → slot_of (bind t slot id) k ≡ slot_of t k)
unfolding slot_of id_of
bind_lem t slot id nz c =
    let here : slot_map (bind t slot id) id ≡ some slot =
      slot_map-bind t slot id id nz ∙ rw (==_self id) in
    let holds = ((bind-IsConsistent t slot id c).inverse id slot).0 here in
    (
      here,
      rw (holds.1, ==_ne id 0 nz),
      λ k ne other.
          slot_map-bind t slot id k nz
          ∙ rw (==_ne id k (λ e. ne (sym e))) (slot_map-retire_id t slot k c other),
    )
