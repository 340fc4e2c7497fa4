-- ===== src/Wire/Join/Check/Laws.antt =====
-- Which handshakes are seated, and that an honest one is.
use orbitnet.Base.{
  ==_self, ==_cases, bit_xor, ◌≡◌, ◌≢◌, ◌⊎◌, refl, sym, ◌∙◌, ap, subst, true, false, Bool-cases,
  Option, none, some, inl, inr, ◌++◌,
}
use orbitnet.Base.Bits.{bit_xor_self, bit_xor_zero}
use orbitnet.Base.Rows.{eqb_bytes, eqb_bytes→eq, eqb_bytes_self}
use orbitnet.Wire.Bytes.{
  Bytes, got, protocol_mismatch, missing_session_nonce, missing_acceptor_nonce, secret_mismatch,
}
use orbitnet.Schema.{protocol_major}
use orbitnet.Auth.Keys.{fold_secrets}
use orbitnet.Auth.Exchange.{
  Curve, exchange_public_key, joiner_exchange_secret, acceptor_exchange_secret,
}
use orbitnet.Auth.Exchange.Agree.{IsCommutative, exchange-agrees}
use orbitnet.Wire.Join.{key_len, zeros, Handshake, encode_handshake, decode_handshake}
use orbitnet.Wire.Join.Laws.{FitsHandshake, Reads-decode_handshake}
use orbitnet.Wire.Join.Check.{
  Checked, passed, refused, check_hello, expected_confirm, check_secret, check_compatibility,
}

-- The tag that a confirmation needs under the secret, if there is one.
abbrev pub Confirms : Option Bytes → Handshake → Type 0
Confirms none remote = Unit
Confirms (some secret) remote = remote.confirm ≡ expected_confirm secret remote

check_secret-passed :
    (remote : Handshake) (secret : Option Bytes)
    → Confirms secret remote
    → check_secret remote secret ≡ passed
unfolding check_secret
check_secret-passed remote none h = refl
check_secret-passed remote (some secret) h =
    let same : bit_xor remote.confirm (expected_confirm secret remote) ≡ 0 =
      ap (λ t. bit_xor t (expected_confirm secret remote)) h
      ∙ bit_xor_self (expected_confirm secret remote) in
    rw same refl

eqb_bytes_cases :
    (xs ys : Bytes)
    → ((xs ≡ ys) × (eqb_bytes xs ys ≡ true)) ⊎ ((xs ≢ ys) × (eqb_bytes xs ys ≡ false))
eqb_bytes_cases xs ys = elim (Bool-cases (eqb_bytes xs ys)) [
  | inl same ↦ inl (eqb_bytes→eq xs ys same, same)
  | inr other ↦
      inr (λ e. cc (sym other ∙ ap (λ z. eqb_bytes xs z) (sym e) ∙ eqb_bytes_self xs), other)
]

-- What the check answers: the first rule that the remote handshake breaks, in the order of the code,
-- or that it passes.
abbrev pub Verdict : Handshake → Handshake → Option Bytes → Checked → Type 0
Verdict local remote secret passed =
    (protocol_major remote.protocol_version ≡ protocol_major local.protocol_version)
    × (remote.joiner_nonce ≢ zeros key_len)
    × (remote.acceptor_nonce ≢ zeros key_len)
    × Confirms secret remote
Verdict local remote secret (refused (protocol_mismatch theirs ours)) =
    (protocol_major remote.protocol_version ≢ protocol_major local.protocol_version)
    × (theirs ≡ remote.protocol_version)
    × (ours ≡ local.protocol_version)
Verdict local remote secret (refused missing_session_nonce) =
    (protocol_major remote.protocol_version ≡ protocol_major local.protocol_version)
    × (remote.joiner_nonce ≡ zeros key_len)
Verdict local remote secret (refused missing_acceptor_nonce) =
    (protocol_major remote.protocol_version ≡ protocol_major local.protocol_version)
    × (remote.joiner_nonce ≢ zeros key_len)
    × (remote.acceptor_nonce ≡ zeros key_len)
Verdict local remote secret (refused secret_mismatch) =
    (protocol_major remote.protocol_version ≡ protocol_major local.protocol_version)
    × (remote.joiner_nonce ≢ zeros key_len)
    × (remote.acceptor_nonce ≢ zeros key_len)
    × ¬ Confirms secret remote
Verdict local remote secret (refused _) = ⊥

check_secret-Verdict :
    (local remote : Handshake) (secret : Option Bytes)
    → protocol_major remote.protocol_version ≡ protocol_major local.protocol_version
    → remote.joiner_nonce ≢ zeros key_len
    → remote.acceptor_nonce ≢ zeros key_len
    → Verdict local remote secret (check_secret remote secret)
unfolding check_secret
check_secret-Verdict local remote none same drawn answered = (same, drawn, answered, tt)
check_secret-Verdict local remote (some secret) same drawn answered =
    let expected = expected_confirm secret remote in
    elim (==_cases (bit_xor remote.confirm expected) 0) [
      | inl (zero_difference, equal) ↦
          rw equal (same, drawn, answered, bit_xor_zero remote.confirm expected zero_difference)
      | inr (some_difference, unequal) ↦ rw unequal (
        same,
        drawn,
        answered,
        λ e. some_difference (ap (λ t. bit_xor t expected) e ∙ bit_xor_self expected),
      )
    ]

-- The check of a confirmation answers the first rule that the remote handshake breaks: a major version
-- that differs, with both versions, no joiner nonce, no acceptor nonce, or a tag that is not the one
-- over the secret that is held. It passes exactly when none is broken; without a secret no tag counts.
pub check_compatibility-Verdict :
    (local remote : Handshake) (secret : Option Bytes)
    → Verdict local remote secret (check_compatibility local remote secret)
unfolding check_compatibility check_hello
check_compatibility-Verdict local remote secret =
    elim (==_cases (protocol_major remote.protocol_version)
      (protocol_major local.protocol_version)) [
        | inr (differ, unequal) ↦ rw unequal (differ, refl, refl)
        | inl (same, equal) ↦ elim (eqb_bytes_cases remote.joiner_nonce (zeros key_len)) [
          | inl (undrawn, absent) ↦ rw (equal, absent) (same, undrawn)
          | inr (drawn, present) ↦ elim (eqb_bytes_cases remote.acceptor_nonce (zeros key_len)) [
            | inl (unanswered, absent) ↦ rw (equal, present, absent) (same, drawn, unanswered)
            | inr (answered, there) ↦
                rw (equal, present, there)
                  (check_secret-Verdict local remote secret same drawn answered)
          ]
        ]
      ]

check_compatibility-passed :
    (local remote : Handshake) (secret : Option Bytes)
    → protocol_major remote.protocol_version ≡ protocol_major local.protocol_version
    → remote.joiner_nonce ≢ zeros key_len
    → remote.acceptor_nonce ≢ zeros key_len
    → Confirms secret remote
    → check_compatibility local remote secret ≡ passed
unfolding check_compatibility check_hello
check_compatibility-passed local remote secret same drawn answered confirms =
    let fits = ==_self (protocol_major local.protocol_version) in
    elim (eqb_bytes_cases remote.joiner_nonce (zeros key_len)) [
      | inl (undrawn, _) ↦ absurd (drawn undrawn)
      | inr (_, present) ↦ elim (eqb_bytes_cases remote.acceptor_nonce (zeros key_len)) [
        | inl (unanswered, _) ↦ absurd (answered unanswered)
        | inr (_, there) ↦
            rw (same, fits, present, there) (check_secret-passed remote secret confirms)
      ]
    ]

module _ (curve : Curve) (commutes : IsCommutative curve) (supplied : Option Bytes)
    (joiner static_secret ephemeral : Bytes) where
  abbrev pub joiner_secret : Option Bytes
  joiner_secret = fold_secrets supplied (
      joiner_exchange_secret curve joiner (exchange_public_key curve static_secret)
        (exchange_public_key curve ephemeral))

  abbrev pub acceptor_secret : Option Bytes
  acceptor_secret =
      fold_secrets supplied
        (acceptor_exchange_secret curve static_secret ephemeral (exchange_public_key curve joiner))

  -- A joiner that pinned this acceptor and was given the same secret is seated. Its confirmation, with
  -- a tag over the secret that the joiner derived, reads back from the bytes it sends, whatever
  -- follows them, and passes the check under the secret that the acceptor derived. The fields fit their
  -- widths, the major versions agree, and both halves of the nonce are drawn.
  pub honest_join :
      (local confirmation : Handshake) (rest : Bytes)
      → FitsHandshake confirmation
      → protocol_major confirmation.protocol_version ≡ protocol_major local.protocol_version
      → confirmation.joiner_nonce ≢ zeros key_len
      → confirmation.acceptor_nonce ≢ zeros key_len
      → Confirms joiner_secret confirmation
      → (decode_handshake (encode_handshake confirmation ++ rest) ≡ got confirmation rest)
        × (check_compatibility local confirmation acceptor_secret ≡ passed)
  honest_join local confirmation rest fits same drawn answered confirms = (
    (Reads-decode_handshake confirmation fits).reads rest,
    check_compatibility-passed local confirmation acceptor_secret same drawn answered (
        subst (λ exchanged. Confirms (fold_secrets supplied exchanged) confirmation)
          (exchange-agrees curve joiner static_secret ephemeral commutes) confirms),
  )
