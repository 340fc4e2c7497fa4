-- ===== src/Slots/Server.antt =====
-- `alloc` keeps the server's table valid, and when it refuses.
use orbitnet.Base.{
  ℕ, ◌<◌, ◌≡◌, refl, ◌≢◌, ◌↔◌, Option, none, some, List, [], ◌∷◌, ◌++◌, arith, sym, ◌∙◌, length,
  All, length-set, length-append, get_or-append_one, get_or_beyond, ap, ==_ne,
}
use orbitnet.Base.OrdMap.{lookup, insert, lookup-insert, insert-SortedFrom, length-insert}
use orbitnet.Slots.{new, SlotTable, SlotResult, err, exhausted, max_slots, grown, bind_at, alloc}
use orbitnet.Slots.Inverse.{Inverse-bind, Inverse-ext}
use orbitnet.Slots.Outcome.{
  Outcome, no_entity, has_slot, reused, minted, out_of_slots, all_cooling, alloc-Outcome,
}
use orbitnet.Slots.Valid.{
  slot_map, id_map, IsConsistent, IsDistinct, IsVacant, IsServer, length-grown_inside,
  id_map-bind_at, bind_at-IsConsistent, IsVacant-elsewhere, Lacks-beyond,
}

length-bind_at :
    (t : SlotTable) (slot id : ℕ)
    → slot < length t.ids
    → length (bind_at t slot id).ids ≡ length t.ids
unfolding bind_at
length-bind_at t slot id h =
    length-set (grown t.ids slot) slot id ∙ length-grown_inside t.ids slot h

reuse-IsServer :
    (t : SlotTable) (id slot freed : ℕ) (rest : List (ℕ × ℕ))
    → id ≢ 0
    → slot_map t id ≡ none
    → t.free ≡ (slot, freed) ∷ rest
    → IsServer t
    → IsServer (bind_at (record t { free = rest }) slot id)
unfolding bind_at
reuse-IsServer t id slot freed rest nz unnamed e v = record {
  consistent = bind_at-IsConsistent t' slot id nz front.0.1 unnamed same;
  vacant = IsVacant-elsewhere t (bind_at t' slot id) slot rest keep apart.0 front.1;
  distinct = apart.1;
  count = omega (
    arith,
    v.count,
    ap length e,
    length-insert id slot t.slots unnamed,
    length-bind_at t' slot id front.0.0,
  );
  bound = rw (length-bind_at t' slot id front.0.0) v.bound;
}
  where
    t' : SlotTable
    t' = record t { free = rest }

    same : IsConsistent t'
    same = record { sorted = v.consistent.sorted; inverse = v.consistent.inverse }

    front : All (IsVacant t) ((slot, freed) ∷ rest)
    front = rw e at v.vacant

    apart : IsDistinct ((slot, freed) ∷ rest)
    apart = rw e at v.distinct

    keep :
        (s : ℕ)
        → s ≢ slot
        → s < length t.ids
        → id_map t s ≡ 0
        → (s < length (bind_at t' slot id).ids) × (id_map (bind_at t' slot id) s ≡ 0)
    keep s ne inside empty = (
      rw (length-bind_at t' slot id front.0.0) inside,
      id_map-bind_at t' slot id s ∙ rw (==_ne slot s (λ q. ne (sym q))) empty,
    )

minted-IsServer :
    (t : SlotTable) (id : ℕ)
    → id ≢ 0
    → slot_map t id ≡ none
    → length t.ids < max_slots
    → IsServer t
    → IsServer (record t { ids = t.ids ++ (id ∷ []); slots = insert id (length t.ids) t.slots })
minted-IsServer t id nz unnamed room v = record {
  consistent = record {
    sorted = insert-SortedFrom id 0 slot t.slots (omega arith) v.consistent.sorted;
    inverse =
        Inverse-ext _ _
          (Inverse-bind (slot_map t) (id_map t) v.consistent.inverse id slot nz beyond unnamed)
          (slot_map u) (id_map u) (λ k. lookup-insert id k slot t.slots)
          (λ j. get_or-append_one t.ids j id 0);
  };
  vacant =
      IsVacant-elsewhere t u slot t.free keep (Lacks-beyond t slot t.free (omega arith) v.vacant)
        v.vacant;
  distinct = v.distinct;
  count =
      omega (arith, v.count, length-insert id slot t.slots unnamed, length-append t.ids (id ∷ []));
  bound = omega (arith, length-append t.ids (id ∷ []));
}
  where
    slot : ℕ
    slot = length t.ids

    u : SlotTable
    u = record t { ids = t.ids ++ (id ∷ []); slots = insert id (length t.ids) t.slots }

    beyond : id_map t slot ≡ 0
    beyond = get_or_beyond t.ids slot 0 (omega arith)

    keep :
        (s : ℕ)
        → s ≢ slot
        → s < length t.ids
        → id_map t s ≡ 0
        → (s < length u.ids) × (id_map u s ≡ 0)
    keep s ne inside empty = (
      omega (arith, length-append t.ids (id ∷ [])),
      get_or-append_one t.ids s id 0 ∙ rw (==_ne slot s (λ q. ne (sym q))) empty,
    )

Outcome-IsServer :
    (t : SlotTable) (id tick : ℕ) {r : SlotResult × SlotTable}
    → Outcome t id tick r
    → IsServer t
    → IsServer r.1
Outcome-IsServer t id tick (no_entity z e) v = rw e v
Outcome-IsServer t id tick (has_slot slot named e) v = rw e v
Outcome-IsServer t id tick (reused slot freed rest nz unnamed front over e) v =
    rw e (reuse-IsServer t id slot freed rest nz unnamed front v)
Outcome-IsServer t id tick (minted nz unnamed cools room e) v =
    rw e (minted-IsServer t id nz unnamed room v)
Outcome-IsServer t id tick (out_of_slots nz unnamed full none_free e) v = rw e v
Outcome-IsServer t id tick (all_cooling slot freed rest nz unnamed full front cools e) v = rw e v

-- `alloc` keeps the server's table valid: the two directions agree, and every slot below the
-- frontier names an entity or is free, once.
pub alloc-IsServer : (t : SlotTable) (id tick : ℕ) → IsServer t → IsServer (alloc t id tick).1
alloc-IsServer t id tick v = Outcome-IsServer t id tick (alloc-Outcome t id tick) v

-- An entity that has no slot yet is refused as exhausted exactly if every slot of the wire field
-- names an entity.
pub alloc-exhausted_iff :
    (t : SlotTable) (id tick : ℕ)
    → IsServer t
    → id ≢ 0
    → slot_map t id ≡ none
    → ((alloc t id tick).0 ≡ err exhausted) ↔ (length t.slots ≡ max_slots)
alloc-exhausted_iff t id tick v nz unnamed = go (alloc-Outcome t id tick)
  where
    fst_path : {p q : SlotResult × SlotTable} → p ≡ q → p.0 ≡ q.0
    fst_path e i = (e i).0

    go :
        {r : SlotResult × SlotTable}
        → Outcome t id tick r
        → (r.0 ≡ err exhausted) ↔ (length t.slots ≡ max_slots)
    go (no_entity z e) = absurd (nz z)
    go (has_slot slot named e) = absurd (cc (sym named ∙ unnamed))
    go (reused slot freed rest _ _ front over e) =
        (λ h. cc (fst_path e), λ h. absurd (omega (arith, v.count, v.bound, ap length front)))
    go (minted _ _ cools room e) =
        (λ h. cc (fst_path e), λ h. absurd (omega (arith, v.count, room)))
    go (out_of_slots _ _ full none_free e) =
        (λ h. omega (arith, v.count, v.bound, ap length none_free), λ h. fst_path e)
    go (all_cooling slot freed rest _ _ full front cools e) =
        (λ h. cc (fst_path e), λ h. absurd (omega (arith, v.count, v.bound, ap length front)))

pub new-IsServer : IsServer new
unfolding lookup new
new-IsServer = record {
  consistent = record {
    sorted = tt;
    inverse = λ k j.
        (λ e. let never : ◌≡◌ {A = Option ℕ} none (some j) = e in cc, λ h. ground (arith, h));
  };
  vacant = tt;
  distinct = tt;
  count = refl;
  bound = omega arith;
}
