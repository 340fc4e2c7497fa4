-- ===== src/Slots/Inverse.antt =====
-- Two maps, from ids to slots and from slots to ids, that are each other's inverse. An id of 0
-- stands for a vacant slot.
use orbitnet.Base.{ℕ, ◌≡◌, ◌≢◌, ◌↔◌, Option, none, some, ◌==◌, if◌then◌else◌, arith, sym, ◌∙◌}

abbrev pub Inverse : (ℕ → Option ℕ) → (ℕ → ℕ) → Type 0
Inverse f g = (id slot : ℕ) → (f id ≡ some slot) ↔ ((id ≢ 0) × (g slot ≡ id))

abbrev pub with_slot : ℕ → ℕ → (ℕ → Option ℕ) → ℕ → Option ℕ
with_slot id slot f k = if id == k then some slot else f k

abbrev pub with_id : ℕ → ℕ → (ℕ → ℕ) → ℕ → ℕ
with_id slot id g j = if slot == j then id else g j

abbrev pub without_slot : ℕ → (ℕ → Option ℕ) → ℕ → Option ℕ
without_slot id f k = if id == k then none else f k

module _ (f : ℕ → Option ℕ) (g : ℕ → ℕ) (inv : Inverse f g) where
  -- Naming an unnamed id by a vacant slot.
  pub Inverse-bind :
      (id slot : ℕ)
      → id ≢ 0
      → g slot ≡ 0
      → f id ≡ none
      → Inverse (with_slot id slot f) (with_id slot id g)
  Inverse-bind id slot nz vacant unnamed k j = (
    λ e. ground (arith, (inv k j).0, (inv k slot).1),
    λ e. ground (arith, (inv k j).1, (inv id j).1),
  )

  -- Retiring a binding.
  pub Inverse-unbind :
      (id slot : ℕ) → f id ≡ some slot → Inverse (without_slot id f) (with_id slot 0 g)
  Inverse-unbind id slot bound k j = (
    λ e. ground (arith, (inv k j).0, (inv id slot).0, inv k slot),
    λ e. ground (arith, (inv k j).1, (inv id slot).0, (inv id j).1),
  )

  pub Inverse-ext :
      (f' : ℕ → Option ℕ) (g' : ℕ → ℕ)
      → ((k : ℕ) → f' k ≡ f k)
      → ((j : ℕ) → g' j ≡ g j)
      → Inverse f' g'
  Inverse-ext f' g' ef eg k j = rw (ef k, eg j) (inv k j)

  -- A slot names at most one id, and an id has at most one slot.
  pub Inverse-injective : (a b slot : ℕ) → f a ≡ some slot → f b ≡ some slot → a ≡ b
  Inverse-injective a b slot ea eb = sym ((inv a slot).0 ea).1 ∙ ((inv b slot).0 eb).1
