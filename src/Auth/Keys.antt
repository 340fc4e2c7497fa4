-- ===== src/Auth/Keys.antt =====
-- The labels and the derivations of auth.rs: what keys a session, and the tag that confirms it.
use orbitnet.Base.{ℕ, ◌+◌, Option, none, some, [], ◌∷◌, ◌++◌}
use orbitnet.Wire.Bytes.{Bytes, le_bytes}
use orbitnet.Auth.Sip
use orbitnet.Auth.Sip.{write, finish, siphash24}

-- "orbitnet-join-lo".
abbrev pub join_label_low : Bytes
join_label_low =
    111 ∷ 114 ∷ 98 ∷ 105 ∷ 116 ∷ 110 ∷ 101 ∷ 116 ∷ 45 ∷ 106 ∷ 111 ∷ 105 ∷ 110 ∷ 45 ∷ 108 ∷ 111 ∷ []

-- "orbitnet-join-hi".
abbrev pub join_label_high : Bytes
join_label_high =
    111 ∷ 114 ∷ 98 ∷ 105 ∷ 116 ∷ 110 ∷ 101 ∷ 116 ∷ 45 ∷ 106 ∷ 111 ∷ 105 ∷ 110 ∷ 45 ∷ 104 ∷ 105 ∷ []

-- "orbitnet-fold-lo".
abbrev pub secret_label_low : Bytes
secret_label_low =
    111 ∷ 114 ∷ 98 ∷ 105 ∷ 116 ∷ 110 ∷ 101 ∷ 116 ∷ 45 ∷ 102 ∷ 111 ∷ 108 ∷ 100 ∷ 45 ∷ 108 ∷ 111 ∷ []

-- "orbitnet-fold-hi".
abbrev pub secret_label_high : Bytes
secret_label_high =
    111 ∷ 114 ∷ 98 ∷ 105 ∷ 116 ∷ 110 ∷ 101 ∷ 116 ∷ 45 ∷ 102 ∷ 111 ∷ 108 ∷ 100 ∷ 45 ∷ 104 ∷ 105 ∷ []

-- "orbitnet-session-key-lo".
abbrev pub session_key_label_low : Bytes
session_key_label_low =
    111 ∷ 114 ∷ 98 ∷ 105 ∷ 116 ∷ 110 ∷ 101 ∷ 116 ∷ 45 ∷ 115 ∷ 101 ∷ 115 ∷ 115 ∷ 105 ∷ 111 ∷ 110 ∷ 45
    ∷ 107 ∷ 101 ∷ 121 ∷ 45 ∷ 108 ∷ 111 ∷ []

-- "orbitnet-session-key-hi".
abbrev pub session_key_label_high : Bytes
session_key_label_high =
    111 ∷ 114 ∷ 98 ∷ 105 ∷ 116 ∷ 110 ∷ 101 ∷ 116 ∷ 45 ∷ 115 ∷ 101 ∷ 115 ∷ 115 ∷ 105 ∷ 111 ∷ 110 ∷ 45
    ∷ 107 ∷ 101 ∷ 121 ∷ 45 ∷ 104 ∷ 105 ∷ []

-- "orbitnet-confirm".
abbrev pub confirm_label : Bytes
confirm_label =
    111 ∷ 114 ∷ 98 ∷ 105 ∷ 116 ∷ 110 ∷ 101 ∷ 116 ∷ 45 ∷ 99 ∷ 111 ∷ 110 ∷ 102 ∷ 105 ∷ 114 ∷ 109 ∷ []

-- "orbitnet-mixed-lo".
abbrev pub mixed_secret_label_low : Bytes
mixed_secret_label_low =
    111 ∷ 114 ∷ 98 ∷ 105 ∷ 116 ∷ 110 ∷ 101 ∷ 116 ∷ 45 ∷ 109 ∷ 105 ∷ 120 ∷ 101 ∷ 100 ∷ 45 ∷ 108 ∷ 111
    ∷ []

-- "orbitnet-mixed-hi".
abbrev pub mixed_secret_label_high : Bytes
mixed_secret_label_high =
    111 ∷ 114 ∷ 98 ∷ 105 ∷ 116 ∷ 110 ∷ 101 ∷ 116 ∷ 45 ∷ 109 ∷ 105 ∷ 120 ∷ 101 ∷ 100 ∷ 45 ∷ 104 ∷ 105
    ∷ []

unfoldable pub join_halves : ℕ → ℕ → Bytes
join_halves low high = le_bytes 8 low ++ le_bytes 8 high

-- Two pieces under one key.
unfoldable pub tag_of_two : Bytes → Bytes → Bytes → ℕ
tag_of_two key first second = finish (write (write (Sip.new key) first) second)

unfoldable pub compress_secret : Bytes → Bytes
compress_secret secret =
    join_halves (siphash24 secret_label_low secret) (siphash24 secret_label_high secret)

unfoldable pub session_nonce : Bytes → Bytes → Bytes
session_nonce joiner acceptor =
    join_halves (tag_of_two join_label_low joiner acceptor)
      (tag_of_two join_label_high joiner acceptor)

unfoldable pub derive_session_key : Bytes → Bytes → Bytes
derive_session_key secret nonce =
    join_halves (tag_of_two secret session_key_label_low nonce)
      (tag_of_two secret session_key_label_high nonce)

-- "orbitnet-cipher-key-0" to "orbitnet-cipher-key-3".
abbrev pub cipher_key_label : ℕ → Bytes
cipher_key_label word =
    111
    ∷ 114
    ∷ 98
    ∷ 105
    ∷ 116
    ∷ 110
    ∷ 101
    ∷ 116
    ∷ 45
    ∷ 99
    ∷ 105
    ∷ 112
    ∷ 104
    ∷ 101
    ∷ 114
    ∷ 45
    ∷ 107
    ∷ 101
    ∷ 121
    ∷ 45
    ∷ (48 + word)
    ∷ []

-- The 32 bytes of a cipher key, a word for each label.
unfoldable pub derive_cipher_key : Bytes → Bytes → Bytes
derive_cipher_key secret nonce =
    join_halves (tag_of_two secret (cipher_key_label 0) nonce)
      (tag_of_two secret (cipher_key_label 1) nonce)
    ++ join_halves (tag_of_two secret (cipher_key_label 2) nonce)
        (tag_of_two secret (cipher_key_label 3) nonce)

unfoldable pub confirm_tag : Bytes → Bytes → ℕ → ℕ
confirm_tag key nonce protocol_version =
    finish (write (write (write (Sip.new key) confirm_label) nonce) (le_bytes 4 protocol_version))

unfoldable pub fold_secrets : Option Bytes → Option Bytes → Option Bytes
fold_secrets none none = none
fold_secrets (some supplied) none = some supplied
fold_secrets none (some exchanged) = some exchanged
fold_secrets (some supplied) (some exchanged) = some (
    join_halves (tag_of_two supplied mixed_secret_label_low exchanged)
      (tag_of_two supplied mixed_secret_label_high exchanged))

-- The tag over a datagram's payload and sequence number, and the direction that it travels in.
unfoldable pub tag_over : Bytes → Bytes → ℕ → ℕ
tag_over key signed direction = tag_of_two key signed (direction ∷ [])
