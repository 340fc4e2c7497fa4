-- ===== src/Base/OrdMap.antt =====
-- `BTreeMap` with integer keys, as the list of its entries in ascending key order.
use Prim.Native.Nat.{ℕ, suc, ◌≤◌, ◌<◌}
use mathlib.Core.Path.{◌≡◌, refl, sym, ap, ◌∙◌}
use mathlib.Core.List.{List, [], ◌∷◌}
use mathlib.Core.Option.{Option, none, some}
use native.Mathlib.Omega.{arith}
use native.Mathlib.Decide.{dec_lt}
use mathlib.Core.Logic.{inl, inr}
use orbitnet.Base.Tests.{ltb, ◌==◌, if◌then◌else◌, ==_self, ==_cases}
use orbitnet.Base.Lists.{length}

abbrev pub OrdMap {ℓ} : Type ℓ → Type ℓ
OrdMap V = List (ℕ × V)

abbrev unwrap_or {ℓ} : {V : Type ℓ} → V → Option V → V
unwrap_or d none = d
unwrap_or d (some v) = v

module _ {ℓ} {V : Type ℓ} where
  unfoldable pub lookup : ℕ → OrdMap V → Option V
  lookup k [] = none
  lookup k ((j, w) ∷ m) = if j == k then some w else lookup k m

  unfoldable pub insert : ℕ → V → OrdMap V → OrdMap V
  insert k v [] = (k, v) ∷ []
  insert k v ((j, w) ∷ m) =
      let later = insert k v m in
      if j == k then (k, v) ∷ m else if ltb k j then (k, v) ∷ (j, w) ∷ m else (j, w) ∷ later

  unfoldable pub remove : ℕ → OrdMap V → OrdMap V
  remove k [] = []
  remove k ((j, w) ∷ m) = if j == k then m else (j, w) ∷ remove k m

  abbrev pub keys : OrdMap V → List ℕ
  keys [] = []
  keys ((k, v) ∷ m) = k ∷ keys m

  -- The keys ascend strictly, from `lo` on.
  abbrev pub SortedFrom : ℕ → OrdMap V → Type 0
  SortedFrom lo [] = Unit {0}
  SortedFrom lo ((k, v) ∷ m) = (lo ≤ k) × SortedFrom (suc k) m

  abbrev pub IsSorted : OrdMap V → Type 0
  IsSorted m = SortedFrom 0 m

  pub SortedFrom-mono : (lo hi : ℕ) (m : OrdMap V) → lo ≤ hi → SortedFrom hi m → SortedFrom lo m
  SortedFrom-mono lo hi [] h s = tt
  SortedFrom-mono lo hi ((k, v) ∷ m) h s = (omega arith, s.1)

  pub lookup_below : (k lo : ℕ) (m : OrdMap V) → SortedFrom lo m → k < lo → lookup k m ≡ none
  unfolding lookup
  lookup_below k lo [] s h = refl
  lookup_below k lo ((j, w) ∷ m) s h = ground (arith, lookup_below k (suc j) m s.1)

  pub lookup-insert :
      (key other : ℕ) (new : V) (table : OrdMap V)
      → lookup other (insert key new table)
        ≡ (if key == other then some new else lookup other table)
  unfolding insert lookup
  lookup-insert key other new [] = refl
  lookup-insert key other new ((first, old) ∷ table) =
      ground (arith, lookup-insert key other new table)

  pub lookup-remove :
      (k j lo : ℕ) (m : OrdMap V)
      → SortedFrom lo m
      → lookup j (remove k m) ≡ (if k == j then none else lookup j m)
  unfolding lookup remove
  lookup-remove k j lo [] s = ground arith
  lookup-remove k j lo ((i, w) ∷ m) s =
      ground (arith, lookup-remove k j (suc i) m s.1, lookup_below j (suc i) m s.1)

  pub insert-SortedFrom :
      (k lo : ℕ) (v : V) (m : OrdMap V) → lo ≤ k → SortedFrom lo m → SortedFrom lo (insert k v m)
  unfolding insert
  insert-SortedFrom k lo v [] h s = (h, tt)
  insert-SortedFrom k lo v ((j, w) ∷ m) h s = ground (arith, insert-SortedFrom k (suc j) v m)

  pub remove-SortedFrom : (k lo : ℕ) (m : OrdMap V) → SortedFrom lo m → SortedFrom lo (remove k m)
  unfolding remove
  remove-SortedFrom k lo [] s = tt
  remove-SortedFrom k lo ((j, w) ∷ m) s =
      ground (arith, remove-SortedFrom k (suc j) m s.1, SortedFrom-mono lo (suc j) m)

  pub length-insert :
      (k : ℕ) (v : V) (m : OrdMap V) → lookup k m ≡ none → length (insert k v m) ≡ suc (length m)
  unfolding insert lookup
  length-insert k v [] h = refl
  length-insert k v ((j, w) ∷ m) h = ground (arith, length-insert k v m)

  pub length-remove :
      (k : ℕ) (v : V) (m : OrdMap V) → lookup k m ≡ some v → suc (length (remove k m)) ≡ length m
  unfolding remove lookup
  length-remove k v [] h = cc
  length-remove k v ((j, w) ∷ m) h = ground (arith, length-remove k v m)

  pub remove-lookup-none : (k : ℕ) (m : OrdMap V) → lookup k m ≡ none → remove k m ≡ m
  unfolding remove lookup
  remove-lookup-none k [] h = refl
  remove-lookup-none k ((j, w) ∷ m) h = ground (arith, remove-lookup-none k m)

  -- The heads of two maps that answer alike.
  head-first :
      (i j : ℕ) (v : V) (m n : OrdMap V)
      → SortedFrom j n
      → ((k : ℕ) → lookup k ((i, v) ∷ m) ≡ lookup k n)
      → j ≤ i
  unfolding lookup
  head-first i j v m n t h = elim (dec_lt i j) [
    | no later ↦ omega arith
    | yes early ↦
        let never : ◌≡◌ {A = Option V} (some v) none =
          rw (==_self i) at (h i) ∙ lookup_below i j n t early in
        cc
  ]

  tails-alike :
      (i : ℕ) (v w : V) (m n : OrdMap V)
      → SortedFrom (suc i) m
      → SortedFrom (suc i) n
      → ((k : ℕ) → lookup k ((i, v) ∷ m) ≡ lookup k ((i, w) ∷ n))
      → (k : ℕ) → lookup k m ≡ lookup k n
  unfolding lookup
  tails-alike i v w m n s t h k = elim (==_cases i k) [
    | inl (same, test) ↦
        lookup_below k (suc i) m s (omega arith) ∙ sym (lookup_below k (suc i) n t (omega arith))
    | inr (ne, test) ↦ rw test at (h k)
  ]

  -- Two sorted maps that answer alike are equal.
  pub OrdMap-ext :
      (lo : ℕ) (m n : OrdMap V)
      → SortedFrom lo m
      → SortedFrom lo n
      → ((k : ℕ) → lookup k m ≡ lookup k n)
      → m ≡ n
  unfolding lookup
  OrdMap-ext lo [] [] s t h = refl
  OrdMap-ext lo [] ((j, w) ∷ n) s t h =
      let never : ◌≡◌ {A = Option V} none (some w) = rw (==_self j) at (h j) in cc
  OrdMap-ext lo ((i, v) ∷ m) [] s t h =
      let never : ◌≡◌ {A = Option V} (some v) none = rw (==_self i) at (h i) in cc
  OrdMap-ext lo ((i, v) ∷ m) ((j, w) ∷ n) s t h =
      let down = head-first i j v m ((j, w) ∷ n) (omega arith, t.1) h in
      let up = head-first j i w n ((i, v) ∷ m) (omega arith, s.1) (λ k. sym (h k)) in
      let same : i ≡ j = omega arith in
      rw (← same) (
        let h' : (k : ℕ) → lookup k ((i, v) ∷ m) ≡ lookup k ((i, w) ∷ n) = rw (← same) at h in
        let value : v ≡ w = ap (unwrap_or v) (rw (==_self i) at (h' i)) in
        let tails =
          OrdMap-ext (suc i) m n s.1 (rw (← same) at t.1)
            (tails-alike i v w m n s.1 (rw (← same) at t.1) h') in
        rw (value, tails) refl)
