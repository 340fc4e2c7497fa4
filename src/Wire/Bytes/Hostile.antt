-- ===== src/Wire/Bytes/Hostile.antt =====
-- What can be read off arbitrary bytes: predicates that hold of every answer of a reader.
use orbitnet.Base.{
  ℕ, zero, suc, ◌+◌, ◌*◌, ◌/◌, ◌%◌, ◌^◌, ◌≤◌, ◌<◌, ◌≡◌, refl, [], ◌∷◌, ltb, length, arith, inl, inr,
  ◌==◌, Bool-cases, All, take, drop, ltb→lt,
}
use orbitnet.Wire.Bytes.{
  Bytes, CodecError, varint_overflow, Outcome, got, fail, Reader, varint_from, varint, after, ◌>>=◌,
  pure, throw, bytes, uint, le_value, i8, i8_value, varint_u32, zigzag, zigzag_value,
}
use orbitnet.Wire.Bytes.Laws.{IsI8}
use orbitnet.Wire.Bytes.Varint.{IsI64}
use orbitnet.Wire.Bytes.Bounds.{Bounded, overflows, varint-Bounded}

-- Whatever buffer `m` reads, an answer has `P`, and what is left are bytes.
abbrev pub IsByte : ℕ → Type 0
IsByte b = b < 256

abbrev pub Holds {ℓ} : {A : Type ℓ} → (A → Type 0) → Outcome A → Type 0
Holds P (got a rest) = P a × All IsByte rest
Holds P (fail e) = Unit {0}

pub record Answers {ℓ} {A : Type ℓ} (m : Reader A) (P : A → Type 0) : Type ℓ where
  pub answers : (buf : Bytes) → All IsByte buf → Holds P (m buf)

Holds-after {ℓ κ} :
    {A : Type ℓ} {B : Type κ} (o : Outcome A) (f : A → Reader B) (P : A → Type 0) (Q : B → Type 0)
    → Holds P o
    → ((a : A) → P a → Answers (f a) Q)
    → Holds Q (after o f)
Holds-after (got a rest) f P Q h k = (k a h.0).answers rest h.1
Holds-after (fail e) f P Q h k = tt

infixr 30 ◌giving⟨◌⟩◌
pub ◌giving⟨◌⟩◌ {ℓ κ} :
    {A : Type ℓ} {B : Type κ} {m : Reader A} {P : A → Type 0} {Q : B → Type 0}
    → Answers m P
    → (f : A → Reader B) → ((a : A) → P a → Answers (f a) Q)
    → Answers (m >>= f) Q
unfolding ◌>>=◌
◌giving⟨◌⟩◌ {m = m} {P = P} {Q = Q} r f k = record {
  answers = λ buf h. Holds-after (m buf) f P Q (r.answers buf h) k;
}

module _ {ℓ} {A : Type ℓ} where
  pub Answers-pure : (a : A) (P : A → Type 0) → P a → Answers (pure a) P
  unfolding pure
  Answers-pure a P p = record { answers = λ buf h. (p, h) }

  pub Answers-throw : (e : CodecError) (P : A → Type 0) → Answers (throw e) P
  unfolding throw
  Answers-throw e P = record { answers = λ buf h. tt }

pub All-take : (n : ℕ) (bs : Bytes) → All IsByte bs → All IsByte (take n bs)
All-take zero bs h = tt
All-take (suc n) [] h = tt
All-take (suc n) (b ∷ bs) h = (h.0, All-take n bs h.1)

pub All-drop : (n : ℕ) (bs : Bytes) → All IsByte bs → All IsByte (drop n bs)
All-drop zero bs h = h
All-drop (suc n) [] h = tt
All-drop (suc n) (b ∷ bs) h = All-drop n bs h.1

length-take_within : (n : ℕ) (bs : Bytes) → n ≤ length bs → length (take n bs) ≡ n
length-take_within zero bs h = refl
length-take_within (suc n) [] h = ground arith
length-take_within (suc n) (b ∷ bs) h = omega (arith, length-take_within n bs (omega arith))

pub Answers-bytes : (n : ℕ) → Answers (bytes n) (λ bs. (length bs ≡ n) × All IsByte bs)
unfolding bytes
Answers-bytes n = record {
  answers = λ buf h. elim (Bool-cases (ltb (length buf) n)) [
    | inl short ↦ rw short tt
    | inr enough ↦
        rw enough ((length-take_within n buf (ground arith), All-take n buf h), All-drop n buf h)
  ];
}

pub le_value_small : (n : ℕ) (bs : Bytes) → length bs ≡ n → All IsByte bs → le_value bs < 256 ^ n
unfolding le_value
le_value_small zero [] e h = omega arith
le_value_small zero (b ∷ bs) e h = ground arith
le_value_small (suc n) [] e h = ground arith
le_value_small (suc n) (b ∷ bs) e h = omega (arith, h.0, le_value_small n bs (omega arith) h.1)

pub Answers-uint : (n : ℕ) → Answers (uint n) (λ v. v < 256 ^ n)
unfolding uint
Answers-uint n =
    (Answers-bytes n)
    giving⟨ _ ⟩ (λ bs h. Answers-pure (le_value bs) _ (le_value_small n bs h.0 h.1))

pub Answers-i8 : Answers i8 IsI8
unfolding i8 i8_value
Answers-i8 =
    (Answers-uint 1) giving⟨ _ ⟩ (λ b h. Answers-pure (i8_value b) IsI8 (ground (arith, h)))

-- The rest of a varint are bytes as well.
varint_from-Bytes :
    (buf : Bytes) (result shift : ℕ)
    → All IsByte buf
    → Holds (λ v. Unit {0}) (varint_from result shift buf)
unfolding varint_from
varint_from-Bytes [] result shift h = tt
varint_from-Bytes (byte ∷ rest) result shift h =
    let next = result + byte % 128 * 2 ^ shift in
    let later = varint_from-Bytes rest next (shift + 7) h.1 in
    elim (Bool-cases (overflows shift (byte % 128))) [
      | inl over ↦ rw over tt
      | inr fits ↦ elim (Bool-cases (byte / 128 % 2 == 0)) [
        | inl last ↦ rw (fits, last) (tt, h.1)
        | inr more ↦ rw (fits, more) later
      ]
    ]

Bounded-Holds :
    (bound : ℕ) (buf : Bytes) (o : Outcome ℕ)
    → Bounded bound buf o
    → Holds (λ v. Unit {0}) o
    → Holds (λ v. v < bound) o
Bounded-Holds bound buf (got v rest) b h = (b.0, h.1)
Bounded-Holds bound buf (fail e) b h = tt

pub Answers-varint : Answers varint (λ v. v < 2 ^ 64)
unfolding varint
Answers-varint = record {
  answers = λ buf h.
      Bounded-Holds (2 ^ 64) buf (varint_from 0 0 buf) (unfold varint in varint-Bounded buf)
        (varint_from-Bytes buf 0 0 h);
}

pub Answers-varint_u32 : Answers varint_u32 (λ v. v < 2 ^ 32)
unfolding varint_u32
Answers-varint_u32 = Answers-varint giving⟨ _ ⟩ (λ v h. elim (Bool-cases (ltb v (2 ^ 32))) [
  | inl fits ↦ rw fits (Answers-pure v _ (ltb→lt v (2 ^ 32) fits))
  | inr over ↦ rw over (Answers-throw varint_overflow _)
])

pub Answers-zigzag : Answers zigzag IsI64
unfolding zigzag zigzag_value
Answers-zigzag =
    Answers-varint giving⟨ _ ⟩ (λ raw h. Answers-pure (zigzag_value raw) IsI64 (ground (arith, h)))
