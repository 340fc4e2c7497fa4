-- ===== src/Auth/Exchange.antt =====
-- The key exchange of auth.rs. The curve is the parameter of both sides.
pub mod Agree
pub mod Sample
use orbitnet.Base.{Bool, true, false, not, ◌||◌, Option, none, some, List, [], ◌∷◌, if◌then◌else◌}
use orbitnet.Wire.Bytes.{Bytes}
use orbitnet.Auth.Sip
use orbitnet.Auth.Sip.{SipHasher, write, finish}
use orbitnet.Auth.Keys.{join_halves}

-- X25519 on the bytes of keys: the public key of a secret, what a secret shares with a public key,
-- and whether a shared secret had a contribution of both.
pub record Curve : Type 0 where
  public_key : Bytes → Bytes
  pub diffie_hellman : Bytes → Bytes → Bytes
  pub was_contributory : Bytes → Bool

-- "orbitnet-exch-lo".
abbrev pub exchange_label_low : Bytes
exchange_label_low =
    111 ∷ 114 ∷ 98 ∷ 105 ∷ 116 ∷ 110 ∷ 101 ∷ 116 ∷ 45 ∷ 101 ∷ 120 ∷ 99 ∷ 104 ∷ 45 ∷ 108 ∷ 111 ∷ []

-- "orbitnet-exch-hi".
abbrev pub exchange_label_high : Bytes
exchange_label_high =
    111 ∷ 114 ∷ 98 ∷ 105 ∷ 116 ∷ 110 ∷ 101 ∷ 116 ∷ 45 ∷ 101 ∷ 120 ∷ 99 ∷ 104 ∷ 45 ∷ 104 ∷ 105 ∷ []

-- The pieces written one after another.
abbrev pub write_all : SipHasher → List Bytes → SipHasher
write_all hasher [] = hasher
write_all hasher (bs ∷ rest) = write_all (write hasher bs) rest

module _ (curve : Curve) where
  unfoldable pub exchange_public_key : Bytes → Bytes
  exchange_public_key secret = curve.public_key secret

  unfoldable pub exchange_fold : Bytes → Bytes → Bytes → Bytes → Bytes → Option Bytes
  exchange_fold static_public joiner_public acceptor_public to_static to_ephemeral =
      let pieces =
        static_public ∷ joiner_public ∷ acceptor_public ∷ to_static ∷ to_ephemeral ∷ [] in
      if not (curve.was_contributory to_static) || not (curve.was_contributory to_ephemeral)
      then none
      else some (
          join_halves (finish (write_all (Sip.new exchange_label_low) pieces))
            (finish (write_all (Sip.new exchange_label_high) pieces)))

  unfoldable pub joiner_exchange_secret : Bytes → Bytes → Bytes → Option Bytes
  unfolding exchange_fold
  joiner_exchange_secret ephemeral pinned_static acceptor_ephemeral_public =
      exchange_fold pinned_static (curve.public_key ephemeral) acceptor_ephemeral_public
        (curve.diffie_hellman ephemeral pinned_static)
        (curve.diffie_hellman ephemeral acceptor_ephemeral_public)

  unfoldable pub acceptor_exchange_secret : Bytes → Bytes → Bytes → Option Bytes
  unfolding exchange_fold
  acceptor_exchange_secret static_secret ephemeral joiner_ephemeral_public =
      exchange_fold (curve.public_key static_secret) joiner_ephemeral_public
        (curve.public_key ephemeral) (curve.diffie_hellman static_secret joiner_ephemeral_public)
        (curve.diffie_hellman ephemeral joiner_ephemeral_public)
