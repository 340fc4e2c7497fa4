-- ===== src/Wire/Join/Short.antt =====
-- Handshakes that stop early.
use orbitnet.Base.{
  ℕ, ◌^◌, ◌<◌, ◌≡◌, refl, ap, ◌∙◌, true, [], ◌∷◌, ◌++◌, arith, length, ltb, length-append,
}
use mathlib.Core.List.{append-nil}
use orbitnet.Wire.Bytes.{
  Bytes, written, CodecError, unexpected_eof, Outcome, got, fail, Reader, after, recovered, ◌>>=◌,
  pure, le_bytes, le_value, uint, bytes, or_default,
}
use orbitnet.Wire.Bytes.Laws.{
  ◌then⟨◌⟩◌, Reads-uint, Reads-bytes, Reads-or_default, after-Reads, Reads-map,
}
use orbitnet.Wire.Join.{
  magic, key_len, exchange_key_len, zeros, Handshake, decode_trailing, decode_handshake,
}

-- `m` answers on every buffer, and what it answers has `P`.
record Total {ℓ} {A : Type ℓ} (m : Reader A) (P : A → Type 0) : Type ℓ where
  total : (buf : Bytes) → (a : A) × (rest : Bytes) × (m buf ≡ got a rest) × P a

infixr 30 ◌always⟨◌⟩◌
◌always⟨◌⟩◌ {ℓ κ} :
    {A : Type ℓ} {B : Type κ} {m : Reader A} {P : A → Type 0} {Q : B → Type 0}
    → Total m P
    → (f : A → Reader B) → ((a : A) → P a → Total (f a) Q)
    → Total (m >>= f) Q
unfolding ◌>>=◌
◌always⟨◌⟩◌ r f k = record {
  total = λ buf.
      let (a, rest, e, p) = r.total buf in
      let (b, left, e', q) = (k a p).total rest in (b, left, ap (λ o. after o f) e ∙ e', q);
}

Total-pure {ℓ} : {A : Type ℓ} (a : A) (P : A → Type 0) → P a → Total (pure a) P
unfolding pure
Total-pure a P p = record { total = λ buf. (a, buf, refl, p) }

Total-recovered {ℓ} :
    {A : Type ℓ} (d : A) (buf : Bytes) (o : Outcome A)
    → (a : A) × (rest : Bytes) × (recovered d buf o ≡ got a rest) × Unit {0}
Total-recovered d buf (got a rest) = (a, rest, refl, tt)
Total-recovered d buf (fail e) = (d, buf, refl, tt)

Total-or_default {ℓ} : {A : Type ℓ} (m : Reader A) (d : A) → Total (or_default m d) (λ a. Unit {0})
unfolding or_default
Total-or_default m d = record { total = λ buf. Total-recovered d buf (m buf) }

Total-decode_trailing :
    (version : ℕ) → Total (decode_trailing version) (λ h. h.protocol_version ≡ version)
unfolding decode_trailing
Total-decode_trailing version = Total-or_default (uint 2) 0 always⟨ _ ⟩ λ t ht.
    Total-or_default (uint 8) 0 always⟨ _ ⟩ λ s hs.
    Total-or_default (bytes key_len) (zeros key_len) always⟨ _ ⟩ λ j hj.
    Total-or_default (uint 8) 0 always⟨ _ ⟩ λ r hr.
    Total-or_default (bytes key_len) (zeros key_len) always⟨ _ ⟩ λ a ha.
    Total-or_default (uint 8) 0 always⟨ _ ⟩ λ c hc.
    Total-or_default (bytes exchange_key_len) (zeros exchange_key_len)
    always⟨ _ ⟩ λ e he. Total-pure _ _ refl

-- However a handshake goes on after its magic and its version, it decodes, and to that version.
pub decode_handshake-short :
    (version : ℕ) (more : Bytes)
    → version < 2 ^ 32
    → (h : Handshake) × (rest : Bytes) × (decode_handshake
          (written (magic ∷ le_bytes 4 version ∷ more ∷ []))
        ≡ got h rest)
      × (h.protocol_version ≡ version)
unfolding decode_handshake
decode_handshake-short version more fits =
    let (h, rest, e, same) = (Total-decode_trailing version).total (more ++ []) in
    (
      h,
      rest,
      after-Reads (Reads-bytes 4 magic refl) _ (le_bytes 4 version ++ (more ++ []))
          ∙ after-Reads (Reads-uint 4 version fits) _ (more ++ [])
          ∙ e,
      same,
    )

-- A read that runs out of bytes leaves its default and the cursor where it was.
bytes-short : (n : ℕ) (buf : Bytes) → length buf < n → bytes n buf ≡ fail unexpected_eof
unfolding bytes
bytes-short n buf h = let short : ltb (length buf) n ≡ true = ground arith in rw short refl

uint-short : (n : ℕ) (buf : Bytes) → length buf < n → uint n buf ≡ fail unexpected_eof
unfolding uint ◌>>=◌
uint-short n buf h = ap (λ o. after o (λ bs. pure (le_value bs))) (bytes-short n buf h)

after-short {ℓ κ} :
    {A : Type ℓ} {B : Type κ} (m : Reader A) {buf : Bytes} {e : CodecError}
    → m buf ≡ fail e
    → (d : A) (f : A → Reader B) → (or_default m d >>= f) buf ≡ f d buf
unfolding ◌>>=◌ or_default
after-short m {buf = buf} h d f = ap (λ o. after (recovered d buf o) f) h

-- A handshake that is cut between 8 and 15 bytes into its joiner nonce decodes to no nonce, and the
-- nonce's first eight bytes to the resume token.
pub decode_handshake-cut_in_nonce :
    (version tickrate session : ℕ) (eight less : Bytes)
    → version < 2 ^ 32
    → tickrate < 2 ^ 16
    → session < 2 ^ 64
    → length eight ≡ 8
    → length less < 8
    → decode_handshake (
        written (
          magic
          ∷ le_bytes 4 version
          ∷ le_bytes 2 tickrate
          ∷ le_bytes 8 session
          ∷ (eight ++ less)
          ∷ []))
      ≡ got
          (record {
            protocol_version = version;
            tickrate = tickrate;
            session_id = session;
            joiner_nonce = zeros key_len;
            resume_token = le_value eight;
            acceptor_nonce = zeros key_len;
            confirm = 0;
            joiner_exchange = zeros exchange_key_len;
          })
          less
unfolding decode_handshake decode_trailing uint pure
decode_handshake-cut_in_nonce version tickrate session eight less h1 h2 h3 h4 h5 =
    let tail = eight ++ less in
    let nil : tail ++ [] ≡ tail = append-nil tail in
    let total = length-append eight less in
    let token =
      Reads-or_default (uint 8) eight (le_value eight) 0
        (Reads-map (bytes 8) le_value eight eight (Reads-bytes 8 eight h4)) in
    rw nil (
      after-Reads (Reads-bytes 4 magic refl) _
        (le_bytes 4 version ++ (le_bytes 2 tickrate ++ (le_bytes 8 session ++ tail)))
      ∙ after-Reads (Reads-uint 4 version h1) _
          (le_bytes 2 tickrate ++ (le_bytes 8 session ++ tail))
      ∙ after-Reads (Reads-or_default _ _ _ 0 (Reads-uint 2 tickrate h2)) _
          (le_bytes 8 session ++ tail)
      ∙ after-Reads (Reads-or_default _ _ _ 0 (Reads-uint 8 session h3)) _ tail
      ∙ after-short _ (bytes-short key_len tail (omega arith)) (zeros key_len) _
      ∙ after-Reads token _ less
      ∙ after-short _ (bytes-short key_len less (omega arith)) (zeros key_len) _
      ∙ after-short _ (uint-short 8 less h5) 0 _
      ∙ after-short _ (bytes-short exchange_key_len less (omega arith)) (zeros exchange_key_len) _)
