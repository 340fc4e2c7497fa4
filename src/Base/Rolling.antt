-- ===== src/Base/Rolling.antt =====
-- A window that rolls: the newest values up to a capacity, written over the oldest. The estimators
-- keep their samples this way.
use Prim.Native.Nat.{ℕ, zero, suc, ◌+◌, ◌-◌, ◌%◌, ◌≤◌, ◌<◌}
use mathlib.Core.Path.{◌≡◌, refl, sym, ap, ◌∙◌}
use mathlib.Core.Logic.{◌⊎◌, inl, inr}
use mathlib.Core.Bool.{true, false}
use mathlib.Core.List.{List, [], ◌∷◌, ◌++◌, append_assoc, append-nil}
use native.Mathlib.Omega.{arith}
use orbitnet.Base.Tests.{ltb, ltb_cases, if◌then◌else◌}
use orbitnet.Base.Lists.{length, set, take, drop, length-append, length-set, drop_add}

wraps : (c : ℕ) → c % c ≡ 0
wraps c = grind arith

module _ {ℓ} {A : Type ℓ} where
  -- The samples after a push, and where the next one goes.
  abbrev pub rolled : List A → ℕ → ℕ → A → List A × ℕ
  rolled samples capacity next v = (
    if ltb (length samples) capacity then samples ++ (v ∷ []) else set samples next v,
    (next + 1) % capacity,
  )

  -- The values from the oldest on.
  abbrev pub in_order : List A → ℕ → List A
  in_order samples next = drop next samples ++ take next samples

  abbrev pub last : ℕ → List A → List A
  last n xs = drop (length xs - n) xs

  take_all : (xs : List A) (n : ℕ) → n ≡ length xs → take n xs ≡ xs
  take_all [] zero h = refl
  take_all [] (suc n) h = refl
  take_all (x ∷ xs) zero h = absurd (omega (arith, h))
  take_all (x ∷ xs) (suc n) h = ap (λ r. x ∷ r) (take_all xs n (omega (arith, h)))

  drop_all : (xs : List A) (n : ℕ) → length xs ≤ n → drop n xs ≡ []
  drop_all [] zero h = refl
  drop_all [] (suc n) h = refl
  drop_all (x ∷ xs) zero h = absurd (omega (arith, h))
  drop_all (x ∷ xs) (suc n) h = drop_all xs n (omega (arith, h))

  take-set :
      (xs : List A) (i : ℕ) (v : A)
      → i < length xs
      → take (i + 1) (set xs i v) ≡ take i xs ++ (v ∷ [])
  take-set [] i v h = absurd (omega (arith, h))
  take-set (x ∷ xs) zero v h =
      let one : 0 + 1 ≡ suc 0 = omega arith in ap (λ k. take k (v ∷ xs)) one
  take-set (x ∷ xs) (suc i) v h =
      let next : suc i + 1 ≡ suc (i + 1) = omega arith in
      ap (λ k. take k (x ∷ set xs i v)) next ∙ ap (λ r. x ∷ r) (take-set xs i v (omega (arith, h)))

  drop-set :
      (xs : List A) (i : ℕ) (v : A) → i < length xs → drop (i + 1) (set xs i v) ≡ drop (i + 1) xs
  drop-set [] i v h = absurd (omega (arith, h))
  drop-set (x ∷ xs) zero v h =
      let one : 0 + 1 ≡ suc 0 = omega arith in
      ap (λ k. drop k (v ∷ xs)) one ∙ sym (ap (λ k. drop k (x ∷ xs)) one)
  drop-set (x ∷ xs) (suc i) v h =
      let next : suc i + 1 ≡ suc (i + 1) = omega arith in
      ap (λ k. drop k (x ∷ set xs i v)) next
      ∙ drop-set xs i v (omega (arith, h))
      ∙ sym (ap (λ k. drop k (x ∷ xs)) next)

  -- Without the oldest, when it is not the last in its row.
  drop-one :
      (xs ys : List A) (i : ℕ) → i < length xs → drop 1 (drop i xs ++ ys) ≡ drop (i + 1) xs ++ ys
  drop-one [] ys i h = absurd (omega (arith, h))
  drop-one (x ∷ xs) ys zero h =
      let one : 0 + 1 ≡ suc 0 = omega arith in sym (ap (λ k. drop k (x ∷ xs) ++ ys) one)
  drop-one (x ∷ xs) ys (suc i) h =
      let next : suc i + 1 ≡ suc (i + 1) = omega arith in
      drop-one xs ys i (omega (arith, h)) ∙ sym (ap (λ k. drop k (x ∷ xs) ++ ys) next)

  -- A push on a full window drops the oldest value, and any push adds the newest at the end.
  in_order-full :
      (samples : List A) (capacity next : ℕ) (v : A)
      → length samples ≡ capacity
      → next < capacity
      → in_order (set samples next v) ((next + 1) % capacity)
        ≡ drop 1 (in_order samples next) ++ (v ∷ [])
  in_order-full samples capacity next v full inside =
      let there : next < length samples = omega (arith, full, inside) in
      let tail = drop-one samples (take next samples) next there in
      elim (ltb_cases (next + 1) capacity) [
        | inl (less, _) ↦
            let place : (next + 1) % capacity ≡ next + 1 = grind (arith, less) in
            ap (λ k. drop k (set samples next v) ++ take k (set samples next v)) place
            ∙ (λ i. drop-set samples next v there i ++ take-set samples next v there i)
            ∙ sym (append_assoc (drop (next + 1) samples) (take next samples) (v ∷ []))
            ∙ sym (ap (λ r. r ++ (v ∷ [])) tail)
        | inr (more, _) ↦
            let whole : next + 1 ≡ capacity = omega (arith, more, inside) in
            let place : (next + 1) % capacity ≡ 0 =
              ap (λ (k : ℕ). k % capacity) whole ∙ wraps capacity in
            let all = length-set samples next v in
            ap (λ k. drop k (set samples next v) ++ take k (set samples next v)) place
            ∙ append-nil (set samples next v)
            ∙ sym (take_all (set samples next v) (next + 1) (omega (arith, all, whole, full)))
            ∙ take-set samples next v there
            ∙ sym (
                ap (λ r. (r ++ take next samples) ++ (v ∷ []))
                  (drop_all samples (next + 1) (omega (arith, whole, full))))
            ∙ sym (ap (λ r. r ++ (v ∷ [])) tail)
      ]

  -- The window after these pushes: it fills from the front, and then holds the last of them in order.
  abbrev pub Rolls : ℕ → List A → List A → ℕ → Type ℓ
  Rolls capacity pushed samples next =
      ((length samples < capacity) × (next ≡ length samples) × (samples ≡ pushed))
      ⊎ ((length samples ≡ capacity)
          × (next < capacity)
          × (capacity ≤ length pushed)
          × (in_order samples next ≡ last capacity pushed))

  pub Rolls-in_order :
      (capacity : ℕ) (pushed samples : List A) (next : ℕ)
      → Rolls capacity pushed samples next
      → in_order samples next ≡ last capacity pushed
  Rolls-in_order capacity pushed samples next (inl (less, place, same)) =
      let short = ap (λ (l : List A). length l) same in
      let start : length pushed - capacity ≡ 0 = omega (arith, less, short) in
      (λ i. drop_all samples next (omega (arith, place)) i ++ take_all samples next place i)
      ∙ same
      ∙ sym (ap (λ k. drop k pushed) start)
  Rolls-in_order capacity pushed samples next (inr (full, inside, many, held)) = held

  last_next :
      (capacity : ℕ) (pushed : List A) (v : A)
      → 0 < capacity
      → capacity ≤ length pushed
      → last capacity (pushed ++ (v ∷ [])) ≡ drop 1 (last capacity pushed) ++ (v ∷ [])
  last_next capacity pushed v some_room many =
      let total = length-append pushed (v ∷ []) in
      let start : length (pushed ++ (v ∷ [])) - capacity ≡ length pushed - capacity + 1 =
        omega (arith, total, many) in
      let before = drop_add (length pushed - capacity) 1 pushed in
      ap (λ k. drop k (pushed ++ (v ∷ []))) start
      ∙ drop_front pushed (v ∷ []) (length pushed - capacity + 1) (omega (arith, some_room, many))
      ∙ sym (ap (λ r. r ++ (v ∷ [])) before)
    where
      drop_front : (xs ys : List A) (n : ℕ) → n ≤ length xs → drop n (xs ++ ys) ≡ drop n xs ++ ys
      drop_front xs ys zero h = refl
      drop_front [] ys (suc n) h = absurd (omega (arith, h))
      drop_front (x ∷ xs) ys (suc n) h = drop_front xs ys n (omega (arith, h))

  pub Rolls-rolled :
      (capacity : ℕ) (pushed samples : List A) (next : ℕ) (v : A)
      → 0 < capacity
      → Rolls capacity pushed samples next
      → Rolls capacity
          (pushed ++ (v ∷ []))
          (rolled samples capacity next v).0
          (rolled samples capacity next v).1
  Rolls-rolled capacity pushed samples next v some_room (inl (less, place, same)) =
      let room : ltb (length samples) capacity ≡ true = ground (arith, less) in
      let grown = length-append samples (v ∷ []) in
      let total = length-append pushed (v ∷ []) in
      let short = ap (λ (l : List A). length l) same in
      rw room (elim (ltb_cases (next + 1) capacity) [
        | inl (more_room, _) ↦ inl (
          omega (arith, grown, place, more_room),
          small_mod (next + 1) capacity more_room ∙ omega (arith, grown, place),
          ap (λ l. l ++ (v ∷ [])) same,
        )
        | inr (no_room, _) ↦
            let whole : next + 1 ≡ capacity = omega (arith, no_room, place, less) in
            let around : (next + 1) % capacity ≡ 0 =
              ap (λ (k : ℕ). k % capacity) whole ∙ wraps capacity in
            let start : length (pushed ++ (v ∷ [])) - capacity ≡ 0 =
              omega (arith, total, short, whole, place) in
            inr (
              omega (arith, grown, place, whole),
              omega (arith, around, some_room),
              omega (arith, total, short, whole, place),
              ap (λ k. in_order (samples ++ (v ∷ [])) k) around
                  ∙ append-nil (samples ++ (v ∷ []))
                  ∙ ap (λ l. l ++ (v ∷ [])) same
                  ∙ sym (ap (λ k. drop k (pushed ++ (v ∷ []))) start),
            )
      ])
    where
      small_mod : (a b : ℕ) → a < b → a % b ≡ a
      small_mod a b h = grind (arith, h)
  Rolls-rolled capacity pushed samples next v some_room (inr (full, inside, many, held)) =
      let no_room : ltb (length samples) capacity ≡ false = ground (arith, full) in
      rw no_room (
        inr (
          length-set samples next v ∙ full,
          below (next + 1) capacity some_room,
          omega (arith, length-append pushed (v ∷ []), many),
          in_order-full samples capacity next v full inside
              ∙ ap (λ l. drop 1 l ++ (v ∷ [])) held
              ∙ sym (last_next capacity pushed v some_room many),
        ))
    where
      below : (a b : ℕ) → 0 < b → a % b < b
      below a b h = omega (arith, h)
