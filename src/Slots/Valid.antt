-- ===== src/Slots/Valid.antt =====
-- When the two directions of a slot table agree, and what the server keeps besides.
use orbitnet.Base.{
  ℕ, ◌+◌, ◌-◌, ◌≤◌, ◌<◌, ◌≡◌, ◌≢◌, Option, none, List, [], ◌∷◌, ◌++◌, arith, sym, ◌∙◌, length,
  get_or, set, replicate, All, length-append, length-replicate, get_or-set, get_or-append_pad,
  get_or_beyond,
}
use native.Mathlib.Decide.{dec_lt}
use orbitnet.Base.OrdMap.{lookup, IsSorted, lookup-insert, insert-SortedFrom}
use orbitnet.Slots.{SlotTable, max_slots, grown, bind_at}
use orbitnet.Slots.Inverse.{Inverse, with_slot, with_id, Inverse-bind, Inverse-ext}

abbrev pub slot_map : SlotTable → ℕ → Option ℕ
slot_map t k = lookup k t.slots

abbrev pub id_map : SlotTable → ℕ → ℕ
id_map t j = get_or t.ids j 0

-- `slot_of` and `id_of` agree.
pub record IsConsistent (t : SlotTable) : Type 0 where
  pub sorted : IsSorted t.slots
  pub inverse : Inverse (slot_map t) (id_map t)

-- No slot of the list is `slot`.
abbrev pub Lacks : ℕ → List (ℕ × ℕ) → Type 0
Lacks slot [] = Unit {0}
Lacks slot ((s, f) ∷ rest) = (s ≢ slot) × Lacks slot rest

-- The free slots are distinct.
abbrev pub IsDistinct : List (ℕ × ℕ) → Type 0
IsDistinct [] = Unit {0}
IsDistinct ((s, f) ∷ rest) = Lacks s rest × IsDistinct rest

abbrev pub IsVacant : SlotTable → ℕ × ℕ → Type 0
IsVacant t (slot, f) = (slot < length t.ids) × (get_or t.ids slot 0 ≡ 0)

-- The server's table: every slot below the frontier either names an entity or is on the free list,
-- once, and the frontier fits the wire field.
pub record IsServer (t : SlotTable) : Type 0 where
  pub consistent : IsConsistent t
  pub vacant : All (IsVacant t) t.free
  pub distinct : IsDistinct t.free
  pub count : length t.slots + length t.free ≡ length t.ids
  pub bound : length t.ids ≤ max_slots

pub length-grown : (ids : List ℕ) (slot : ℕ) → slot < length (grown ids slot)
length-grown ids slot = omega (
  arith,
  length-append ids (replicate (slot + 1 - length ids) 0),
  length-replicate {A = ℕ} (slot + 1 - length ids) 0,
)

-- `grown` leaves a vector alone that is long enough.
pub length-grown_inside :
    (ids : List ℕ) (slot : ℕ) → slot < length ids → length (grown ids slot) ≡ length ids
length-grown_inside ids slot h = omega (
  arith,
  length-append ids (replicate (slot + 1 - length ids) 0),
  length-replicate {A = ℕ} (slot + 1 - length ids) 0,
)

pub id_map-bind_at :
    (t : SlotTable) (slot id j : ℕ) → id_map (bind_at t slot id) j ≡ with_id slot id (id_map t) j
unfolding bind_at
id_map-bind_at t slot id j =
    get_or-set (grown t.ids slot) slot j id 0 (length-grown t.ids slot)
    ∙ rw (get_or-append_pad t.ids (slot + 1 - length t.ids) j 0)

pub slot_map-bind_at :
    (t : SlotTable) (slot id k : ℕ)
    → slot_map (bind_at t slot id) k ≡ with_slot id slot (slot_map t) k
unfolding bind_at
slot_map-bind_at t slot id k = lookup-insert id k slot t.slots

-- A binding of an unnamed id to a vacant slot.
pub bind_at-IsConsistent :
    (t : SlotTable) (slot id : ℕ)
    → id ≢ 0
    → id_map t slot ≡ 0
    → slot_map t id ≡ none
    → IsConsistent t
    → IsConsistent (bind_at t slot id)
bind_at-IsConsistent t slot id nz vacant unnamed c = record {
  sorted = unfold bind_at in insert-SortedFrom id 0 slot t.slots (omega arith) c.sorted;
  inverse =
      Inverse-ext _ _ (Inverse-bind (slot_map t) (id_map t) c.inverse id slot nz vacant unnamed)
        (slot_map (bind_at t slot id)) (id_map (bind_at t slot id)) (slot_map-bind_at t slot id)
        (id_map-bind_at t slot id);
}

-- A write of 0 to a slot that lies in the vector.
pub id_map-vacate :
    (ids : List ℕ) (slot j : ℕ)
    → slot < length ids
    → get_or (set ids slot 0) j 0 ≡ with_id slot 0 (λ i. get_or ids i 0) j
id_map-vacate ids slot j h = get_or-set ids slot j 0 0 h

-- A slot that names an id lies in the vector.
pub bound-slot : (ids : List ℕ) (slot : ℕ) → get_or ids slot 0 ≢ 0 → slot < length ids
bound-slot ids slot h = elim (dec_lt slot (length ids)) [
  | yes inside ↦ inside
  | no outside ↦ absurd (h (get_or_beyond ids slot 0 (omega arith)))
]

-- Vacancies that an operation on `slot` alone leaves as they are.
pub IsVacant-elsewhere :
    (t u : SlotTable) (slot : ℕ) (free : List (ℕ × ℕ))
    → ((s : ℕ)
        → s ≢ slot
        → s < length t.ids
        → id_map t s ≡ 0
        → (s < length u.ids) × (id_map u s ≡ 0))
    → Lacks slot free
    → All (IsVacant t) free
    → All (IsVacant u) free
IsVacant-elsewhere t u slot [] keep lacks v = tt
IsVacant-elsewhere t u slot ((s, f) ∷ rest) keep lacks v =
    (keep s lacks.0 v.0.0 v.0.1, IsVacant-elsewhere t u slot rest keep lacks.1 v.1)

-- A slot that names an entity is not on the free list.
pub Lacks-bound :
    (t : SlotTable) (slot : ℕ) (free : List (ℕ × ℕ))
    → id_map t slot ≢ 0
    → All (IsVacant t) free
    → Lacks slot free
Lacks-bound t slot [] h v = tt
Lacks-bound t slot ((s, f) ∷ rest) h v = (λ e. h (rw (← e) v.0.1), Lacks-bound t slot rest h v.1)

-- Nor is one past the frontier.
pub Lacks-beyond :
    (t : SlotTable) (slot : ℕ) (free : List (ℕ × ℕ))
    → length t.ids ≤ slot
    → All (IsVacant t) free
    → Lacks slot free
Lacks-beyond t slot [] h v = tt
Lacks-beyond t slot ((s, f) ∷ rest) h v = (λ e. omega arith, Lacks-beyond t slot rest h v.1)

Lacks-append_one :
    (s slot tick : ℕ) (free : List (ℕ × ℕ))
    → s ≢ slot
    → Lacks s free
    → Lacks s (free ++ ((slot, tick) ∷ []))
Lacks-append_one s slot tick [] ne h = (λ e. ne (sym e), tt)
Lacks-append_one s slot tick ((r, f) ∷ rest) ne h = (h.0, Lacks-append_one s slot tick rest ne h.1)

pub IsDistinct-append_one :
    (slot tick : ℕ) (free : List (ℕ × ℕ))
    → Lacks slot free
    → IsDistinct free
    → IsDistinct (free ++ ((slot, tick) ∷ []))
IsDistinct-append_one slot tick [] h d = (tt, tt)
IsDistinct-append_one slot tick ((s, f) ∷ rest) h d =
    (Lacks-append_one s slot tick rest h.0 d.0, IsDistinct-append_one slot tick rest h.1 d.1)
