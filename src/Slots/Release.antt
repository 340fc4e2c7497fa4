-- ===== src/Slots/Release.antt =====
-- `release` keeps the server's table valid.
use orbitnet.Base.{
  ℕ, ◌<◌, ◌≡◌, ◌≢◌, inl, inr, some, [], ◌∷◌, ◌++◌, arith, sym, ◌∙◌, length, get_or, set, All-append,
  length-set, length-append, ==_ne, ==_self, Option-cases,
}
use orbitnet.Base.OrdMap.{lookup, remove, lookup-remove, remove-SortedFrom, length-remove}
use orbitnet.Slots.{SlotTable, alloc, release}
use orbitnet.Slots.Server.{alloc-IsServer}
use orbitnet.Slots.Inverse.{Inverse-unbind, Inverse-ext}
use orbitnet.Slots.Valid.{
  slot_map, id_map, Lacks, IsVacant, IsServer, id_map-vacate, bound-slot, IsVacant-elsewhere,
  Lacks-bound, IsDistinct-append_one,
}

release_named :
    (t : SlotTable) (id tick slot : ℕ)
    → slot_map t id ≡ some slot
    → IsServer t
    → IsServer (record {
      ids = set t.ids slot 0;
      slots = remove id t.slots;
      free = t.free ++ ((slot, tick) ∷ []);
    })
release_named t id tick slot named v = record {
  consistent = record {
    sorted = remove-SortedFrom id 0 t.slots v.consistent.sorted;
    inverse =
        Inverse-ext _ _ (Inverse-unbind (slot_map t) (id_map t) v.consistent.inverse id slot named)
          (slot_map u) (id_map u) (λ k. lookup-remove id k 0 t.slots v.consistent.sorted)
          (λ j. id_map-vacate t.ids slot j inside);
  };
  vacant =
      All-append (IsVacant u) t.free ((slot, tick) ∷ [])
        (IsVacant-elsewhere t u slot t.free keep lacks v.vacant) ((rw same inside, emptied), tt);
  distinct = IsDistinct-append_one slot tick t.free lacks v.distinct;
  count = omega (
    arith,
    v.count,
    same,
    length-remove id slot t.slots named,
    length-append t.free ((slot, tick) ∷ []),
  );
  bound = rw same v.bound;
}
  where
    u : SlotTable
    u = record {
      ids = set t.ids slot 0;
      slots = remove id t.slots;
      free = t.free ++ ((slot, tick) ∷ []);
    }

    holds : (id ≢ 0) × (id_map t slot ≡ id)
    holds = (v.consistent.inverse id slot).0 named

    occupied : id_map t slot ≢ 0
    occupied e = holds.0 (sym holds.1 ∙ e)

    inside : slot < length t.ids
    inside = bound-slot t.ids slot occupied

    same : length (set t.ids slot 0) ≡ length t.ids
    same = length-set t.ids slot 0

    lacks : Lacks slot t.free
    lacks = Lacks-bound t slot t.free occupied v.vacant

    emptied : get_or (set t.ids slot 0) slot 0 ≡ 0
    emptied = id_map-vacate t.ids slot slot inside ∙ rw (==_self slot)

    keep :
        (s : ℕ)
        → s ≢ slot
        → s < length t.ids
        → id_map t s ≡ 0
        → (s < length u.ids) × (id_map u s ≡ 0)
    keep s ne within empty = (
      rw same within,
      id_map-vacate t.ids slot s inside ∙ rw (==_ne slot s (λ q. ne (sym q))) empty,
    )

-- `release` keeps the server's table valid: the slot it gives up is on the free list, once.
pub release-IsServer : (t : SlotTable) (id tick : ℕ) → IsServer t → IsServer (release t id tick).1
unfolding release
release-IsServer t id tick v = elim (Option-cases (lookup id t.slots)) [
  | inl unnamed ↦ rw (unnamed, release) v
  | inr (slot, named) ↦ rw (named, release) (release_named t id tick slot named v)
]

-- The server's operations keep its table valid: after `alloc` and after `release` the two directions
-- agree, and every slot below the frontier names an entity or is free, once.
pub operations-IsServer :
    (t : SlotTable) (id tick : ℕ)
    → IsServer t
    → IsServer (alloc t id tick).1 × IsServer (release t id tick).1
operations-IsServer t id tick v = (alloc-IsServer t id tick v, release-IsServer t id tick v)
