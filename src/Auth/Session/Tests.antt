-- ===== src/Auth/Session/Tests.antt =====
-- Sessions at concrete inputs.
use orbitnet.Base.{
  ℕ, ◌+◌, ◌-◌, ◌%◌, ◌^◌, ◌<◌, ◌≢◌, ◌≡◌, refl, sym, ap, none, some, [], ◌∷◌, ◌++◌, length, replicate,
  arith,
}
use mathlib.Core.Option.{some-injective}
use orbitnet.Wire.Bytes.{Bytes, le_bytes, le_value}
use orbitnet.Auth.Window
use orbitnet.Auth.Window.{accept, shl, or_bit}
use orbitnet.Auth.Sip
use orbitnet.Auth.Sip.{write, finish, absorb, round, fill, blocks, drained, chunks}
use orbitnet.Auth.Keys.{tag_over, tag_of_two}
use orbitnet.Auth.Session
use orbitnet.Auth.Session.{
  Direction, to_server, to_client, AuthError, truncated, bad_tag, replayed, Aead, SessionAuth,
  tags_equal, signed_bytes, datagram_nonce, datagram_aad, seal, Opened, opened, refused, admitted,
  open_clear, open_cipher, open_datagram,
}
use orbitnet.Auth.Session.Trip.{IsCipher, IsKey, open_datagram-seal}
use orbitnet.Auth.Session.Refusal.{open_datagram-refused}
use orbitnet.Auth.Session.Numbers.{after_seals, numbered, seal-after_seals}

-- A cipher that hides nothing, with a tag of zeros.
abbrev plain_aead : Aead
plain_aead = record { encrypt = λ k n a p. some (p, replicate 16 0); decrypt = λ k n a c t. some c }

plain_aead-IsCipher : IsCipher plain_aead
plain_aead-IsCipher = record {
  tags = λ k n a p c t e. sym (ap (λ x. length x.1) (some-injective (p, replicate 16 0) (c, t) e));
  inverse =
      λ k n a p c t e. ap some (sym (ap (λ x. x.0) (some-injective (p, replicate 16 0) (c, t) e)));
}

abbrev test_key : Bytes
test_key = 0 ∷ 1 ∷ 2 ∷ 3 ∷ 4 ∷ 5 ∷ 6 ∷ 7 ∷ 8 ∷ 9 ∷ 10 ∷ 11 ∷ 12 ∷ 13 ∷ 14 ∷ 15 ∷ []

test_key-IsKey : IsKey test_key
test_key-IsKey = record {
  size = refl;
  all_bytes = (
    omega arith,
    (
      omega arith,
      (
        omega arith,
        (
          omega arith,
          (
            omega arith,
            (
              omega arith,
              (
                omega arith,
                (
                  omega arith,
                  (
                    omega arith,
                    (
                      omega arith,
                      (
                        omega arith,
                        (
                          omega arith,
                          (omega arith, (omega arith, (omega arith, (omega arith, tt)))),
                        ),
                      ),
                    ),
                  ),
                ),
              ),
            ),
          ),
        ),
      ),
    ),
  );
}

abbrev clear_end : SessionAuth
clear_end = Session.new test_key

abbrev cipher_end : SessionAuth
cipher_end = Session.encrypted test_key test_key

-- What a fresh peer answers to the first datagram of one that sends to the server.
abbrev first_answer : SessionAuth → Direction → Opened
first_answer s d = elim (seal plain_aead s to_server (7 ∷ 8 ∷ [])).0 [
  | none ↦ refused truncated
  | some datagram ↦ (open_datagram plain_aead s d datagram).0
]

-- The two regimes, and the other direction.
session_runs :
    (first_answer clear_end to_server ≡ opened (7 ∷ 8 ∷ []))
    × (first_answer cipher_end to_server ≡ opened (7 ∷ 8 ∷ []))
    × (first_answer clear_end to_client ≡ refused bad_tag)
unfolding seal signed_bytes open_datagram open_clear open_cipher admitted tags_equal tag_over
    tag_of_two write finish absorb round fill blocks drained chunks le_value le_bytes Sip.new accept
    shl or_bit Window.new
session_runs = (refl, refl, refl)

open_datagram-seal_example :
    ((open_datagram plain_aead cipher_end to_server (7 ∷ 8 ∷ (le_bytes 4 1 ++ replicate 16 0))).0
      ≡ opened (7 ∷ 8 ∷ []))
    × ((open_datagram plain_aead cipher_end to_server (7 ∷ 8 ∷ (le_bytes 4 1 ++ replicate 16 0))).1
        ≡ record cipher_end { window = (accept cipher_end.window 1).1 })
unfolding seal accept Window.new
open_datagram-seal_example =
    open_datagram-seal plain_aead cipher_end cipher_end to_server (7 ∷ 8 ∷ [])
      (7 ∷ 8 ∷ (le_bytes 4 1 ++ replicate 16 0)) plain_aead-IsCipher refl refl test_key-IsKey
      (omega arith, (omega arith, tt)) (omega arith) refl

open_datagram-refused_example :
    (open_datagram plain_aead cipher_end to_server (7 ∷ 8 ∷ [])).1 ≡ cipher_end
unfolding open_datagram open_cipher
open_datagram-refused_example =
    open_datagram-refused plain_aead cipher_end to_server (7 ∷ 8 ∷ []) truncated refl (λ e. cc)

abbrev two_sent : SessionAuth
two_sent = after_seals plain_aead cipher_end ((to_server, 7 ∷ []) ∷ (to_client, []) ∷ [])

seal-after_seals_example :
    (two_sent.next_seq ≡ 3)
    × (seal plain_aead two_sent to_client (9 ∷ []) ≡ (
      numbered plain_aead test_key (some test_key) to_client (9 ∷ []) 3,
      record two_sent { next_seq = (3 + 1) % 2 ^ 32 },
    ))
    × ((earlier : ℕ) → earlier < 2 → 2 < 2 ^ 32 - 1 → le_bytes 4 (1 + earlier) ≢ le_bytes 4 3)
seal-after_seals_example =
    seal-after_seals plain_aead test_key (some test_key)
      ((to_server, 7 ∷ []) ∷ (to_client, []) ∷ []) to_client (9 ∷ [])
