-- ===== src/Wire/Manifest/Patch.antt =====
-- Applying a diff to the table it was taken from reaches the table it was taken to.
use orbitnet.Base.{
  ℕ, ◌≡◌, refl, sym, ◌∙◌, ap, true, Option, none, some, List, [], ◌==◌, if◌then◌else◌, arith, inl,
  inr, Bool-cases, is_some, &&_true, ==_iff,
}
use orbitnet.Base.Int.{pos_part, neg_part, eq_of_parts}
use orbitnet.Base.OrdMap.{lookup, keys, OrdMap-ext}
use orbitnet.Wire.Manifest.{ManifestEntry}
use orbitnet.Wire.Manifest.Diff.{
  eqb_entry, insert_all, table_of, remove_all, values, diff_rows, sort_by_slot, diff_manifest,
  apply_manifest_delta,
}
use orbitnet.Wire.Manifest.Algebra.{
  find, or_else, IsKeyed, insert_all-IsSorted, remove_all-IsSorted, lookup-insert_all,
  lookup-remove_all, among-keys, sort_by_slot_lem, wanted, diff_rows_lem,
}

-- The equality test of rows is right.
eqb_entry_eq : (a b : ManifestEntry) → eqb_entry a b ≡ true → a ≡ b
eqb_entry_eq a b e =
    let (es, e1) = &&_true (a.slot == b.slot) _ e in
    let (ei, e2) = &&_true (a.id == b.id) _ e1 in
    let (eh, e3) = &&_true (a.state_hash == b.state_hash) _ e2 in
    let (en, e4) = &&_true (a.input_hash == b.input_hash) _ e3 in
    let (ep, e5) = &&_true (pos_part a.owner == pos_part b.owner) _ e4 in
    let (eq, et) = &&_true (neg_part a.owner == neg_part b.owner) _ e5 in
    let owners : a.owner ≡ b.owner =
      eq_of_parts a.owner b.owner (omega (arith, (==_iff _ _).0 ep, (==_iff _ _).0 eq)) in
    λ i. record {
      slot = (==_iff a.slot b.slot).0 es i;
      id = (==_iff a.id b.id).0 ei i;
      state_hash = (==_iff a.state_hash b.state_hash).0 eh i;
      input_hash = (==_iff a.input_hash b.input_hash).0 en i;
      owner = owners i;
      seat = (==_iff a.seat b.seat).0 et i;
    }

-- What the patched table holds for a slot, from what each step leaves there.
patched_slot :
    (goal held : Option ManifestEntry)
    → or_else
        (wanted goal held)
        (if is_some (if is_some goal then none else held) then none else held)
      ≡ goal
patched_slot none none = refl
patched_slot none (some h) = refl
patched_slot (some e) none = refl
patched_slot (some e) (some h) = elim (Bool-cases (eqb_entry h e)) [
  | inl same ↦ rw same (ap (λ x. some x) (eqb_entry_eq h e same))
  | inr changed ↦ rw changed refl
]

or_else-none : (o : Option ManifestEntry) → or_else o none ≡ o
or_else-none none = refl
or_else-none (some e) = refl

-- Applying to `previous` the diff from `previous` to `current` gives the rows of `current`, by slot,
-- for any `previous` and any `current` that names no slot twice.
pub apply_manifest_delta-diff_manifest :
    (previous current : List ManifestEntry) (base generation : ℕ)
    → IsKeyed current
    → apply_manifest_delta previous (record {
      base_generation = base;
      generation = generation;
      removed = (diff_manifest previous current).0;
      added = (diff_manifest previous current).1;
    })
      ≡ values (table_of current)
unfolding apply_manifest_delta diff_manifest table_of lookup find
apply_manifest_delta-diff_manifest previous current base generation keyed =
    let old = insert_all previous [] in
    let old_sorted = insert_all-IsSorted previous [] tt in
    let (rest, added) = diff_rows old current in
    let (added_keyed, each) = diff_rows_lem old current old_sorted keyed in
    let (sorted_keyed, sorted_same) = sort_by_slot_lem added added_keyed in
    let left_sorted = remove_all-IsSorted (keys rest) old old_sorted in
    ap values (
      OrdMap-ext 0 (insert_all (sort_by_slot added) (remove_all (keys rest) old))
        (insert_all current []) (insert_all-IsSorted (sort_by_slot added) _ left_sorted)
        (insert_all-IsSorted current [] tt)
        (λ k.
          lookup-insert_all (sort_by_slot added) _ k sorted_keyed
          ∙ rw
              (
                sorted_same k,
                (each k).0,
                lookup-remove_all (keys rest) old k old_sorted,
                among-keys rest k,
                (each k).1,
              )
              (patched_slot (find k current) (lookup k old))
          ∙ sym (lookup-insert_all current [] k keyed ∙ or_else-none (find k current))))
