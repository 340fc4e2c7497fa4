-- ===== src/Wire/Manifest/Size.antt =====
-- No frame decodes to more rows than its bytes can hold, whatever count it claims.
use orbitnet.Base.{
  ℕ, zero, suc, ◌+◌, ◌-◌, ◌*◌, ◌^◌, ◌≤◌, ◌≡◌, ap, List, [], ◌∷◌, arith, length, inl, inr, ltb,
  Bool-cases, drop,
}
use orbitnet.Wire.Bytes.{
  Bytes, Outcome, got, fail, Reader, after, ◌>>=◌, pure, bytes, le_value, uint, varint,
}
use orbitnet.Wire.Bytes.Bounds.{Bounded, varint-Bounded}
use orbitnet.Wire.Manifest.{
  read_entry, times, read_manifest_entries, decode_slot_run, decode_manifest_full,
  decode_interest_table,
}

-- An answer `a` took `cost a` bytes off the buffer at least.
abbrev pub Paid {ℓ} : {A : Type ℓ} → (A → ℕ) → Bytes → Outcome A → Type 0
Paid cost buf (got a rest) = length rest + cost a ≤ length buf
Paid cost buf (fail e) = Unit {0}

pub record Costs {ℓ} {A : Type ℓ} (m : Reader A) (cost : A → ℕ) : Type ℓ where
  pub paid : (buf : Bytes) → Paid cost buf (m buf)

Paid-longer {ℓ} :
    {A : Type ℓ} (c : ℕ) (d : A → ℕ) (buf rest : Bytes) (o : Outcome A)
    → length rest + c ≤ length buf
    → Paid d rest o
    → Paid (λ a. c + d a) buf o
Paid-longer c d buf rest (got a left) h p = omega (arith, h, p)
Paid-longer c d buf rest (fail e) h p = tt

Paid-after {ℓ κ} :
    {A : Type ℓ} {B : Type κ} (f : A → Reader B) (c : ℕ) (d : B → ℕ) (buf : Bytes) (o : Outcome A)
    → Paid (λ a. c) buf o
    → ((a : A) → Costs (f a) d)
    → Paid (λ b. c + d b) buf (after o f)
Paid-after f c d buf (got a rest) h k = Paid-longer c d buf rest (f a rest) h ((k a).paid rest)
Paid-after f c d buf (fail e) h k = tt

infixr 30 ◌costing⟨◌⟩◌
◌costing⟨◌⟩◌ {ℓ κ} :
    {A : Type ℓ} {B : Type κ} {m : Reader A} {c : ℕ} {d : B → ℕ}
    → Costs m (λ a. c)
    → (f : A → Reader B) → ((a : A) → Costs (f a) d)
    → Costs (m >>= f) (λ b. c + d b)
unfolding ◌>>=◌
◌costing⟨◌⟩◌ {m = m} {c = c} {d = d} r f k = record {
  paid = λ buf. Paid-after f c d buf (m buf) (r.paid buf) k;
}

Paid-weaken {ℓ} :
    {A : Type ℓ} (c d : A → ℕ) (buf : Bytes) (o : Outcome A)
    → ((a : A) → d a ≤ c a)
    → Paid c buf o
    → Paid d buf o
Paid-weaken c d buf (got a rest) le h = omega (arith, le a, h)
Paid-weaken c d buf (fail e) le h = tt

Costs-weaken {ℓ} :
    {A : Type ℓ} (m : Reader A) (c d : A → ℕ) → Costs m c → ((a : A) → d a ≤ c a) → Costs m d
Costs-weaken m c d r le = record { paid = λ buf. Paid-weaken c d buf (m buf) le (r.paid buf) }

Costs-pure {ℓ} : {A : Type ℓ} (a : A) → Costs (pure a) (λ x. 0)
unfolding pure
Costs-pure a = record { paid = λ buf. omega arith }

Paid-map {ℓ κ} :
    {A : Type ℓ} {B : Type κ} (g : A → B) (c : A → ℕ) (d : B → ℕ) (buf : Bytes) (o : Outcome A)
    → ((a : A) → d (g a) ≤ c a)
    → Paid c buf o
    → Paid d buf (after o (λ a. pure (g a)))
unfolding pure
Paid-map g c d buf (got a rest) le h = omega (arith, le a, h)
Paid-map g c d buf (fail e) le h = tt

Costs-map {ℓ κ} :
    {A : Type ℓ} {B : Type κ} (m : Reader A) (g : A → B) (c : A → ℕ) (d : B → ℕ)
    → Costs m c
    → ((a : A) → d (g a) ≤ c a)
    → Costs (m >>= λ a. pure (g a)) d
unfolding ◌>>=◌
Costs-map m g c d r le = record { paid = λ buf. Paid-map g c d buf (m buf) le (r.paid buf) }

length-drop_within : (n : ℕ) (bs : Bytes) → n ≤ length bs → length (drop n bs) + n ≡ length bs
length-drop_within zero bs h = omega arith
length-drop_within (suc n) [] h = ground arith
length-drop_within (suc n) (b ∷ bs) h = omega (arith, length-drop_within n bs (omega arith))

Costs-uint : (n : ℕ) → Costs (uint n) (λ v. n)
unfolding uint bytes
Costs-uint n =
    Costs-map (bytes n) le_value (λ bs. n) (λ v. n)
      (record {
        paid = λ buf. elim (Bool-cases (ltb (length buf) n)) [
          | inl short ↦ rw (short, bytes) tt
          | inr enough ↦ rw (enough, bytes) (omega (arith, length-drop_within n buf (ground arith)))
        ];
      })
      (λ bs. omega arith)

Bounded-Paid : (bound : ℕ) (buf : Bytes) (o : Outcome ℕ) → Bounded bound buf o → Paid (λ v. 1) buf o
Bounded-Paid bound buf (got v rest) h = omega (arith, h.1)
Bounded-Paid bound buf (fail e) h = tt

Costs-varint : Costs varint (λ v. 1)
Costs-varint = record { paid = λ buf. Bounded-Paid (2 ^ 64) buf (varint buf) (varint-Bounded buf) }

Costs-read_entry : Costs read_entry (λ e. 14)
unfolding read_entry
Costs-read_entry = Costs-uint 2 costing⟨ _ ⟩ λ slot. Costs-varint costing⟨ _ ⟩ λ id.
    Costs-uint 4 costing⟨ _ ⟩ λ state_hash. Costs-uint 4 costing⟨ _ ⟩ λ input_hash.
    Costs-varint costing⟨ _ ⟩ λ owner. Costs-uint 2 costing⟨ _ ⟩ λ seat. Costs-pure _

mul_pred : (c n : ℕ) → c * n ≤ c + c * (n - 1)
mul_pred c zero = omega arith
mul_pred c (suc n) =
    let one : suc n - 1 ≡ n = omega arith in omega (arith, ap (λ (t : ℕ). c * t) one)

Costs-times {ℓ} :
    {A : Type ℓ} (m : Reader A) (c : ℕ)
    → Costs m (λ a. c)
    → (n : ℕ) → Costs (times n m) (λ xs. c * length xs)
unfolding times pure
Costs-times m c r zero = record { paid = λ buf. omega arith }
Costs-times m c r (suc n) =
    Costs-weaken _ (λ ys. c + c * (length ys - 1)) (λ ys. c * length ys)
      (r costing⟨ _ ⟩ λ x.
        Costs-map (times n m) (λ xs. x ∷ xs) (λ xs. c * length xs) (λ ys. c * (length ys - 1))
          (Costs-times m c r n)
          (λ xs.
            let tail : length (x ∷ xs) - 1 ≡ length xs = omega arith in
            omega (arith, ap (λ (t : ℕ). c * t) tail)))
      (λ ys. mul_pred c (length ys))

-- The reads of a whole run: its count, and what every element takes.
Costs-run {ℓ} :
    {A : Type ℓ} (m : Reader A) (c : ℕ)
    → Costs m (λ a. c)
    → Costs (varint >>= λ count. times count m) (λ xs. 1 + c * length xs)
Costs-run m c r = Costs-varint costing⟨ _ ⟩ λ count. Costs-times m c r count

-- A generation and a run behind it.
Costs-table {ℓ} :
    {A : Type ℓ} (m : Reader A) (c : ℕ) (run : Reader (List A))
    → Costs run (λ xs. 1 + c * length xs)
    → Costs {A = ℕ × List A}
        (varint >>= λ generation. run >>= λ xs. pure (generation, xs))
        (λ table. 2 + c * length table.1)
Costs-table m c run r =
    Costs-weaken _ (λ table. 1 + (1 + c * length table.1)) _
      (Costs-varint costing⟨ _ ⟩ λ generation.
        Costs-map run (λ xs. (generation, xs)) (λ xs. 1 + c * length xs)
          (λ table. 1 + c * length table.1) r (λ xs. omega arith))
      (λ table. omega arith)

-- A whole manifest that decodes holds at most a row for every 14 bytes of its frame, and an interest
-- table at most a slot for every two, whatever counts the bytes claim.
pub decoded_sizes :
    (buf : Bytes)
    → Paid (λ table. 2 + 14 * length table.1) buf (decode_manifest_full buf)
      × Paid (λ table. 2 + 2 * length table.1) buf (decode_interest_table buf)
unfolding decode_manifest_full read_manifest_entries decode_interest_table decode_slot_run
decoded_sizes buf = (
  (Costs-table read_entry 14 _ (Costs-run read_entry 14 Costs-read_entry)).paid buf,
  (Costs-table (uint 2) 2 _ (Costs-run (uint 2) 2 (Costs-uint 2))).paid buf,
)
