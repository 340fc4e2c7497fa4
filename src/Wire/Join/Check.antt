-- ===== src/Wire/Join/Check.antt =====
-- The checks of a remote handshake: `Handshake::check_hello` and `Handshake::check_compatibility`.
pub mod Laws
mod Tests
use orbitnet.Base.{ℕ, ◌==◌, bit_xor, Bool, true, false, not, Option, none, some, if◌then◌else◌}
use orbitnet.Base.Rows.{eqb_bytes}
use orbitnet.Wire.Bytes.{
  Bytes, CodecError, protocol_mismatch, missing_session_nonce, missing_acceptor_nonce,
  secret_mismatch,
}
use orbitnet.Schema.{protocol_major}
use orbitnet.Auth.Keys.{session_nonce, derive_session_key, confirm_tag}
use orbitnet.Wire.Join.{key_len, zeros, Handshake}

pub data Checked : Type 0 where
  passed : Checked
  refused : CodecError → Checked

-- `?` on a check.
abbrev pub then_check : Checked → Checked → Checked
then_check passed next = next
then_check (refused e) next = refused e

unfoldable pub check_hello : Handshake → Handshake → Checked
check_hello local remote =
    if not (protocol_major remote.protocol_version == protocol_major local.protocol_version)
    then refused (protocol_mismatch remote.protocol_version local.protocol_version)
    else if eqb_bytes remote.joiner_nonce (zeros key_len)
    then refused missing_session_nonce
    else passed

-- The tag that a confirmation carries under a secret.
unfoldable pub expected_confirm : Bytes → Handshake → ℕ
expected_confirm secret remote =
    let nonce = session_nonce remote.joiner_nonce remote.acceptor_nonce in
    confirm_tag (derive_session_key secret nonce) nonce remote.protocol_version

unfoldable pub check_secret : Handshake → Option Bytes → Checked
unfolding expected_confirm
check_secret remote none = passed
check_secret remote (some secret) =
    if not (bit_xor remote.confirm (expected_confirm secret remote) == 0)
    then refused secret_mismatch
    else passed

unfoldable pub check_compatibility : Handshake → Handshake → Option Bytes → Checked
unfolding check_hello check_secret
check_compatibility local remote secret = then_check (check_hello local remote) (
    if eqb_bytes remote.acceptor_nonce (zeros key_len)
    then refused missing_acceptor_nonce
    else check_secret remote secret)
