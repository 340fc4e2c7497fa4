-- ===== src/Base/Ids.antt =====
-- Sets of ids: `HashSet`, of which only membership is asked, and ascending lists.
use Prim.Native.Nat.{ℕ, suc, ◌≤◌, ◌<◌}
use mathlib.Core.Path.{◌≡◌, refl}
use mathlib.Core.Bool.{Bool, true, false}
use mathlib.Core.List.{List, [], ◌∷◌}
use native.Mathlib.Omega.{arith}
use orbitnet.Base.Tests.{◌==◌, if◌then◌else◌, is_some}
use orbitnet.Base.OrdMap.{OrdMap, lookup, keys, SortedFrom}

unfoldable pub contains_id : List ℕ → ℕ → Bool
contains_id [] id = false
contains_id (x ∷ xs) id = if x == id then true else contains_id xs id

unfoldable pub insert_id : ℕ → List ℕ → List ℕ
insert_id id ids = if contains_id ids id then ids else id ∷ ids

unfoldable pub remove_id : ℕ → List ℕ → List ℕ
remove_id id [] = []
remove_id id (x ∷ xs) = let rest = remove_id id xs in if x == id then rest else x ∷ rest

pub contains_id-insert_id :
    (id k : ℕ) (ids : List ℕ)
    → contains_id (insert_id id ids) k ≡ (if id == k then true else contains_id ids k)
unfolding contains_id insert_id
contains_id-insert_id id k [] = ground arith
contains_id-insert_id id k (x ∷ xs) = ground (arith, contains_id-insert_id id k xs)

pub contains_id-remove_id :
    (id k : ℕ) (ids : List ℕ)
    → contains_id (remove_id id ids) k ≡ (if id == k then false else contains_id ids k)
unfolding contains_id remove_id
contains_id-remove_id id k [] = ground arith
contains_id-remove_id id k (x ∷ xs) = ground (arith, contains_id-remove_id id k xs)

-- Strictly ascending, from `lo` on.
abbrev pub AscendFrom : ℕ → List ℕ → Type 0
AscendFrom lo [] = Unit {0}
AscendFrom lo (x ∷ xs) = (lo ≤ x) × AscendFrom (suc x) xs

pub contains_id_below :
    (k lo : ℕ) (xs : List ℕ) → AscendFrom lo xs → k < lo → contains_id xs k ≡ false
unfolding contains_id
contains_id_below k lo [] s h = refl
contains_id_below k lo (x ∷ xs) s h = ground (arith, contains_id_below k (suc x) xs s.1)

module _ {ℓ} {V : Type ℓ} where
  pub contains_id-keys : (k : ℕ) (m : OrdMap V) → contains_id (keys m) k ≡ is_some (lookup k m)
  unfolding contains_id lookup
  contains_id-keys k [] = refl
  contains_id-keys k ((j, v) ∷ m) = ground (arith, contains_id-keys k m)

  pub AscendFrom-keys : (lo : ℕ) (m : OrdMap V) → SortedFrom lo m → AscendFrom lo (keys m)
  AscendFrom-keys lo [] s = tt
  AscendFrom-keys lo ((k, v) ∷ m) s = (s.0, AscendFrom-keys (suc k) m s.1)
