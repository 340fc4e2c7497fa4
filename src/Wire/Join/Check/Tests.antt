-- ===== src/Wire/Join/Check/Tests.antt =====
-- Checks of handshakes at concrete inputs.
use orbitnet.Base.{◌+◌, ◌*◌, ◌^◌, ◌≡◌, refl, Option, some, [], ◌∷◌, ◌++◌, arith, replicate}
use orbitnet.Wire.Bytes.{Bytes, got, le_bytes, le_value}
use orbitnet.Schema.{protocol_major}
use orbitnet.Auth.Sip
use orbitnet.Auth.Sip.{write, finish, absorb, round, fill, blocks, drained, chunks}
use orbitnet.Auth.Keys.{
  join_halves, tag_of_two, session_nonce, derive_session_key, confirm_tag, fold_secrets,
}
use orbitnet.Auth.Exchange.{exchange_public_key, exchange_fold, joiner_exchange_secret}
use orbitnet.Auth.Exchange.Sample.{
  powers, powers-IsCommutative, joiner_key, static_key, ephemeral_key,
}
use orbitnet.Wire.Join.{Handshake, local, encode_handshake, decode_handshake}
use orbitnet.Wire.Join.Laws.{FitsHandshake}
use orbitnet.Wire.Join.Check.{passed, expected_confirm, check_compatibility}
use orbitnet.Wire.Join.Check.Laws.{
  Confirms, joiner_secret, acceptor_secret, Verdict, check_compatibility-Verdict, honest_join,
}

-- The joiner is one patch ahead of the acceptor.
abbrev confirmation : Handshake
confirmation = record {
  protocol_version = 9 * 2 ^ 16 + 3;
  tickrate = 60;
  session_id = 77;
  joiner_nonce = replicate 16 5;
  resume_token = 0;
  acceptor_nonce = replicate 16 6;
  confirm = 14416049026952200153;
  joiner_exchange = joiner_key;
}

abbrev supplied : Option Bytes
supplied = some (replicate 16 9)

confirmation-Fits : FitsHandshake confirmation
confirmation-Fits = record {
  protocol_version = omega arith;
  tickrate = omega arith;
  session_id = omega arith;
  joiner_nonce = refl;
  resume_token = omega arith;
  acceptor_nonce = refl;
  confirm = omega arith;
  joiner_exchange = refl;
}

confirmation-Confirms :
    Confirms
      (joiner_secret powers powers-IsCommutative supplied joiner_key static_key ephemeral_key)
      confirmation
unfolding expected_confirm session_nonce derive_session_key confirm_tag join_halves tag_of_two write
    finish absorb round fill blocks drained chunks le_value le_bytes Sip.new fold_secrets
    joiner_exchange_secret exchange_fold exchange_public_key
confirmation-Confirms = refl

check_compatibility-Verdict_example :
    Verdict (local 60) confirmation supplied (check_compatibility (local 60) confirmation supplied)
check_compatibility-Verdict_example = check_compatibility-Verdict (local 60) confirmation supplied

honest_join_example :
    (decode_handshake (encode_handshake confirmation ++ (1 ∷ [])) ≡ got confirmation (1 ∷ []))
    × (check_compatibility
          (local 60)
          confirmation
          (acceptor_secret powers powers-IsCommutative supplied joiner_key static_key ephemeral_key)
        ≡ passed)
unfolding protocol_major local
honest_join_example =
    honest_join powers powers-IsCommutative supplied joiner_key static_key ephemeral_key (local 60)
      confirmation (1 ∷ []) confirmation-Fits refl (λ e. cc e) (λ e. cc e) confirmation-Confirms
