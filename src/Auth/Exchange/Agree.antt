-- ===== src/Auth/Exchange/Agree.antt =====
-- Both sides of an exchange hold one secret.
use orbitnet.Base.{◌≡◌}
use orbitnet.Wire.Bytes.{Bytes}
use orbitnet.Auth.Exchange.{
  Curve, exchange_public_key, exchange_fold, joiner_exchange_secret, acceptor_exchange_secret,
}

-- What X25519 promises: either secret shares the same with the other's public key.
abbrev pub IsCommutative : Curve → Type 0
IsCommutative curve =
    (a b : Bytes)
    → curve.diffie_hellman a (curve.public_key b) ≡ curve.diffie_hellman b (curve.public_key a)

-- A joiner that pinned the acceptor's static public key, and an acceptor that holds its secret, derive
-- the same exchange secret from the two ephemeral public keys they were sent, or none on both sides.
-- Both shared points commute.
pub exchange-agrees :
    (curve : Curve) (joiner static_secret ephemeral : Bytes)
    → IsCommutative curve
    → joiner_exchange_secret curve joiner
        (exchange_public_key curve static_secret)
        (exchange_public_key curve ephemeral)
      ≡ acceptor_exchange_secret curve static_secret ephemeral (exchange_public_key curve joiner)
unfolding exchange_public_key joiner_exchange_secret acceptor_exchange_secret
exchange-agrees curve joiner static_secret ephemeral commutes = λ i.
    exchange_fold curve (curve.public_key static_secret) (curve.public_key joiner)
      (curve.public_key ephemeral) (commutes joiner static_secret i) (commutes joiner ephemeral i)
