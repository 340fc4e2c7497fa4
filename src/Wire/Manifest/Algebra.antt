-- ===== src/Wire/Manifest/Algebra.antt =====
-- Applying a diff to the table it was taken from reaches the table it was taken to.
use orbitnet.Base.{
  ℕ, ◌≡◌, refl, sym, ◌∙◌, Bool, true, false, Option, none, some, List, [], ◌∷◌, leb, ◌==◌,
  if◌then◌else◌, arith, inl, inr, ==_cases, ==_self, ==_ne, Bool-cases, is_some,
}
use orbitnet.Base.OrdMap.{
  OrdMap, lookup, insert, remove, keys, IsSorted, lookup-insert, lookup-remove, insert-SortedFrom,
  remove-SortedFrom,
}
use orbitnet.Wire.Manifest.{ManifestEntry}
use orbitnet.Wire.Manifest.Diff.{
  insert_all, remove_all, is_held, diff_rows, insert_by_slot, sort_by_slot,
}

-- The row of a list for `slot`.
unfoldable pub find : ℕ → List ManifestEntry → Option ManifestEntry
find slot [] = none
find slot (e ∷ es) = if e.slot == slot then some e else find slot es

abbrev pub or_else : Option ManifestEntry → Option ManifestEntry → Option ManifestEntry
or_else none o = o
or_else (some e) o = some e

-- No two rows name one slot.
abbrev pub IsKeyed : List ManifestEntry → Type 0
IsKeyed [] = Unit {0}
IsKeyed (e ∷ es) = (find e.slot es ≡ none) × IsKeyed es

pub insert_all-IsSorted :
    (es : List ManifestEntry) (t : OrdMap ManifestEntry) → IsSorted t → IsSorted (insert_all es t)
unfolding insert_all
insert_all-IsSorted [] t s = s
insert_all-IsSorted (e ∷ es) t s =
    insert_all-IsSorted es (insert e.slot e t) (insert-SortedFrom e.slot 0 e t (omega arith) s)

pub remove_all-IsSorted :
    (slots : List ℕ) (t : OrdMap ManifestEntry) → IsSorted t → IsSorted (remove_all slots t)
unfolding remove_all
remove_all-IsSorted [] t s = s
remove_all-IsSorted (x ∷ xs) t s = remove_all-IsSorted xs (remove x t) (remove-SortedFrom x 0 t s)

pub lookup-insert_all :
    (es : List ManifestEntry) (t : OrdMap ManifestEntry) (k : ℕ)
    → IsKeyed es
    → lookup k (insert_all es t) ≡ or_else (find k es) (lookup k t)
unfolding insert_all find
lookup-insert_all [] t k h = refl
lookup-insert_all (e ∷ es) t k h =
    let later = lookup-insert_all es (insert e.slot e t) k h.1 in
    let here = lookup-insert e.slot k e t in
    elim (==_cases e.slot k) [
      | inl (same, test) ↦
          let gone : find k es ≡ none = rw (← same) h.0 in
          rw test (later ∙ rw (gone, here, test) refl)
      | inr (ne, test) ↦ rw test (later ∙ rw (here, test) refl)
    ]

-- Whether a slot is among some.
abbrev pub among : ℕ → List ℕ → Bool
among k [] = false
among k (x ∷ xs) = if x == k then true else among k xs

pub lookup-remove_all :
    (slots : List ℕ) (t : OrdMap ManifestEntry) (k : ℕ)
    → IsSorted t
    → lookup k (remove_all slots t) ≡ (if among k slots then none else lookup k t)
unfolding remove_all
lookup-remove_all [] t k s = refl
lookup-remove_all (x ∷ xs) t k s =
    let later = lookup-remove_all xs (remove x t) k (remove-SortedFrom x 0 t s) in
    let here = lookup-remove x k 0 t s in
    elim (==_cases x k) [
      | inl (same, test) ↦ rw test (ground (arith, later, here))
      | inr (ne, test) ↦ rw test (later ∙ rw (here, test) refl)
    ]

pub among-keys : (t : OrdMap ManifestEntry) (k : ℕ) → among k (keys t) ≡ is_some (lookup k t)
unfolding lookup
among-keys [] k = refl
among-keys ((j, e) ∷ t) k = ground (arith, among-keys t k)

find-insert_by_slot :
    (e : ManifestEntry) (es : List ManifestEntry) (k : ℕ)
    → find e.slot es ≡ none
    → find k (insert_by_slot e es) ≡ (if e.slot == k then some e else find k es)
unfolding find insert_by_slot
find-insert_by_slot e [] k h = refl
find-insert_by_slot e (x ∷ xs) k h = ground (arith, find-insert_by_slot e xs k)

insert_by_slot-IsKeyed :
    (e : ManifestEntry) (es : List ManifestEntry)
    → find e.slot es ≡ none
    → IsKeyed es
    → IsKeyed (insert_by_slot e es)
unfolding insert_by_slot find
insert_by_slot-IsKeyed e [] h k = (refl, tt)
insert_by_slot-IsKeyed e (x ∷ xs) h k = elim (==_cases x.slot e.slot) [
  | inl (same, test) ↦ let never : ◌≡◌ {A = Option ManifestEntry} (some x) none = rw test at h in cc
  | inr (ne, test) ↦
      let gone : find e.slot xs ≡ none = rw test at h in
      let other = find-insert_by_slot e xs x.slot gone in
      elim (Bool-cases (leb e.slot x.slot)) [
        | inl first ↦ rw first (h, k)
        | inr later ↦ rw later (
          other ∙ rw (==_ne e.slot x.slot (λ q. ne (sym q))) k.0,
          insert_by_slot-IsKeyed e xs gone k.1,
        )
      ]
]

pub sort_by_slot_lem :
    (es : List ManifestEntry)
    → IsKeyed es
    → IsKeyed (sort_by_slot es) × ((k : ℕ) → find k (sort_by_slot es) ≡ find k es)
unfolding sort_by_slot find
sort_by_slot_lem [] h = (tt, λ k. refl)
sort_by_slot_lem (x ∷ xs) h =
    let (keyed, same) = sort_by_slot_lem xs h.1 in
    let gone : find x.slot (sort_by_slot xs) ≡ none = same x.slot ∙ h.0 in
    (
      insert_by_slot-IsKeyed x (sort_by_slot xs) gone keyed,
      λ k. find-insert_by_slot x (sort_by_slot xs) k gone ∙ rw (same k) refl,
    )

-- Of the row that a table should hold, what the diff adds.
abbrev pub wanted : Option ManifestEntry → Option ManifestEntry → Option ManifestEntry
wanted none held = none
wanted (some e) held = if is_held e held then none else some e

-- One more row `e`, over what the rows behind it leave and add.
module _ (before rest : OrdMap ManifestEntry) (e : ManifestEntry) (es added : List ManifestEntry)
    (s : IsSorted before) (alone : find e.slot es ≡ none)
    (each : (k : ℕ)
      → (find k added ≡ wanted (find k es) (lookup k (remove e.slot before)))
        × (lookup k rest
            ≡ (if is_some (find k es) then none else lookup k (remove e.slot before)))) where
  now_added : List ManifestEntry
  now_added = if is_held e (lookup e.slot before) then added else e ∷ added

  added_elsewhere : find e.slot added ≡ none
  added_elsewhere = (each e.slot).0 ∙ rw alone refl

  added-IsKeyed : IsKeyed added → IsKeyed now_added
  unfolding now_added
  added-IsKeyed keyed = elim (Bool-cases (is_held e (lookup e.slot before))) [
    | inl held ↦ rw held keyed
    | inr changed ↦ rw changed (added_elsewhere, keyed)
  ]

  find-now_added : (k : ℕ) → find k now_added ≡ wanted (find k (e ∷ es)) (lookup k before)
  unfolding now_added find
  find-now_added k = elim (==_cases e.slot k) [
    | inl (same, test) ↦
        let gone : find k added ≡ none = rw (← same) added_elsewhere in
        rw (test, ← same)
          (elim (Bool-cases (is_held e (lookup e.slot before))) [
            | inl held ↦ rw held added_elsewhere
            | inr changed ↦ rw (changed, ==_self e.slot) refl
          ])
    | inr (ne, test) ↦
        let found = (each k).0 ∙ rw (lookup-remove e.slot k 0 before s, test) refl in
        rw test (elim (Bool-cases (is_held e (lookup e.slot before))) [
          | inl held ↦ rw held found
          | inr changed ↦ rw (changed, test) found
        ])
  ]

  lookup-left :
      (k : ℕ) → lookup k rest ≡ (if is_some (find k (e ∷ es)) then none else lookup k before)
  unfolding find
  lookup-left k = elim (==_cases e.slot k) [
    | inl (same, test) ↦
        let gone : find k es ≡ none = rw (← same) alone in
        rw test ((each k).1 ∙ rw (gone, lookup-remove e.slot k 0 before s, test) refl)
    | inr (ne, test) ↦ rw test ((each k).1 ∙ rw (lookup-remove e.slot k 0 before s, test) refl)
  ]

pub diff_rows_lem :
    (before : OrdMap ManifestEntry) (es : List ManifestEntry)
    → IsSorted before
    → IsKeyed es
    → let (rest, added) = diff_rows before es in
      IsKeyed added
      × ((k : ℕ)
          → (find k added ≡ wanted (find k es) (lookup k before))
            × (lookup k rest ≡ (if is_some (find k es) then none else lookup k before)))
unfolding diff_rows find now_added
diff_rows_lem before [] s h = (tt, λ k. (refl, refl))
diff_rows_lem before (e ∷ es) s h =
    let (keyed, each) =
      diff_rows_lem (remove e.slot before) es (remove-SortedFrom e.slot 0 before s) h.1 in
    let (rest, added) = diff_rows (remove e.slot before) es in
    (
      added-IsKeyed before rest e es added s h.0 each keyed,
      λ k. (
        find-now_added before rest e es added s h.0 each k,
        lookup-left before rest e es added s h.0 each k,
      ),
    )
