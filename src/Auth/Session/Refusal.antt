-- ===== src/Auth/Session/Refusal.antt =====
-- What a refused datagram leaves behind.
use orbitnet.Base.{
  ℕ, ◌-◌, ◌≡◌, ◌≢◌, refl, sym, ◌∙◌, ap, ltb, length, take, drop, inl, inr, Option-cases, Bool-cases,
}
use orbitnet.Wire.Bytes.{Bytes, le_value}
use orbitnet.Auth.Keys.{tag_over}
use orbitnet.Auth.Window.{accept}
use orbitnet.Auth.Session.{
  Direction, as_u8, AuthError, replayed, Aead, SessionAuth, datagram_nonce, datagram_aad,
  tags_equal, Opened, refused, admitted, open_clear, open_cipher, open_datagram,
}
use orbitnet.Auth.Session.Trip.{open_datagram-clear, open_datagram-cipher}

-- An answer that leaves the session alone, unless it says that a number came again.
abbrev Spares : SessionAuth → Opened × SessionAuth → Type 0
Spares r o = (error : AuthError) → o.0 ≡ refused error → error ≢ replayed → o.1 ≡ r

Spares-admitted : (r : SessionAuth) (seq : ℕ) (payload : Bytes) → Spares r (admitted r seq payload)
unfolding admitted
Spares-admitted r seq payload error answer other = elim (Bool-cases (accept r.window seq).0) [
  | inl fresh ↦ let bad = rw fresh at answer in cc
  | inr again ↦ let bad = rw again at answer in absurd (other (refused-injective (sym bad)))
]
  where
    refused-injective : {a b : AuthError} → refused a ≡ refused b → a ≡ b
    refused-injective e = cc

Spares-open_clear :
    (r : SessionAuth) (d : Direction) (datagram : Bytes) → Spares r (open_clear r d datagram)
unfolding open_clear
Spares-open_clear r d datagram =
    let split = length datagram - 8 in
    let signed = take split datagram in
    let payload_len = length signed - 4 in
    elim (Bool-cases (ltb (length datagram) 12)) [
      | inl short ↦ rw short (λ error answer other. refl)
      | inr whole ↦
          rw whole
            (elim (Bool-cases
              (tags_equal (le_value (drop split datagram)) (tag_over r.key signed (as_u8 d)))) [
                | inl same ↦ rw same (
                    Spares-admitted r (le_value (drop payload_len signed))
                      (take payload_len signed))
                | inr forged ↦ rw forged (λ error answer other. refl)
              ])
    ]

Spares-open_cipher :
    (aead : Aead) (k : Bytes) (r : SessionAuth) (d : Direction) (datagram : Bytes)
    → Spares r (open_cipher aead k r d datagram)
unfolding open_cipher
Spares-open_cipher aead k r d datagram =
    let split = length datagram - 20 in
    let trailer = drop split datagram in
    let seq = le_value (take 4 trailer) in
    elim (Bool-cases (ltb (length datagram) 20)) [
      | inl short ↦ rw short (λ error answer other. refl)
      | inr whole ↦
          rw whole
            (elim (Option-cases (
              aead.decrypt k (datagram_nonce d seq) (datagram_aad d seq) (take split datagram)
                (drop 4 trailer))) [
                  | inl failed ↦ rw failed (λ error answer other. refl)
                  | inr (plain, verified) ↦ rw verified (Spares-admitted r seq plain)
                ])
    ]

-- A datagram that does not authenticate burns no number: where `open` answers an error other than
-- `Replayed`, the session is what it was, the replay window included.
pub open_datagram-refused :
    (aead : Aead) (r : SessionAuth) (d : Direction) (datagram : Bytes) (error : AuthError)
    → (open_datagram aead r d datagram).0 ≡ refused error
    → error ≢ replayed
    → (open_datagram aead r d datagram).1 ≡ r
open_datagram-refused aead r d datagram error answer other = elim (Option-cases r.cipher_key) [
  | inl e ↦
      let same = open_datagram-clear aead r d datagram e in
      ap (λ o. o.1) same
      ∙ Spares-open_clear r d datagram error (sym (ap (λ o. o.0) same) ∙ answer) other
  | inr (k, e) ↦
      let same = open_datagram-cipher aead r d datagram k e in
      ap (λ o. o.1) same
      ∙ Spares-open_cipher aead k r d datagram error (sym (ap (λ o. o.0) same) ∙ answer) other
]
