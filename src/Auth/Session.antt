-- ===== src/Auth/Session.antt =====
-- `SessionAuth` of auth.rs: sealing a payload into a datagram and opening one. The AEAD cipher is a
-- parameter of the two.
pub mod Tags
pub mod Trip
pub mod Refusal
mod Tests
pub mod Numbers
use orbitnet.Base.{
  ℕ, ◌+◌, ◌-◌, ◌*◌, ◌/◌, ◌%◌, ◌^◌, bit_or, bit_xor, bit_and, Bool, true, false, not, Option, none,
  some, List, [], ◌∷◌, ◌++◌, ltb, ◌==◌, if◌then◌else◌, length, take, drop, replicate,
}
use orbitnet.Wire.Bytes.{Bytes, le_bytes, le_value}
use orbitnet.Auth.Window
use orbitnet.Auth.Window.{ReplayWindow, accept}
use orbitnet.Auth.Keys.{tag_over}

pub data Direction : Type 0 where
  to_server : Direction
  to_client : Direction

abbrev pub as_u8 : Direction → ℕ
as_u8 to_server = 1
as_u8 to_client = 2

pub data AuthError : Type 0 where
  truncated : AuthError
  bad_tag : AuthError
  replayed : AuthError

abbrev pub tag_len : ℕ
tag_len = 8

abbrev pub seq_len : ℕ
seq_len = 4

abbrev pub trailer_len : ℕ
trailer_len = seq_len + tag_len

abbrev pub cipher_tag_len : ℕ
cipher_tag_len = 16

abbrev pub cipher_trailer_len : ℕ
cipher_trailer_len = seq_len + cipher_tag_len

-- The cipher under a key, a nonce and associated data: a ciphertext and its tag, or the cipher's
-- error; and the plaintext of a ciphertext whose tag verifies.
pub record Aead : Type 0 where
  pub encrypt : Bytes → Bytes → Bytes → Bytes → Option (Bytes × Bytes)
  pub decrypt : Bytes → Bytes → Bytes → Bytes → Bytes → Option Bytes

pub record SessionAuth : Type 0 where
  pub key : Bytes
  pub cipher_key : Option Bytes
  pub next_seq : ℕ
  pub window : ReplayWindow

abbrev pub new : Bytes → SessionAuth
new k = record { key = k; cipher_key = none; next_seq = 1; window = Window.new }

abbrev pub encrypted : Bytes → Bytes → SessionAuth
encrypted k c = record { key = k; cipher_key = some c; next_seq = 1; window = Window.new }

unfoldable pub datagram_nonce : Direction → ℕ → Bytes
datagram_nonce d seq = (as_u8 d ∷ le_bytes 4 seq) ++ replicate 7 0

unfoldable pub datagram_aad : Direction → ℕ → Bytes
datagram_aad d seq = le_bytes 4 seq ++ (as_u8 d ∷ [])

-- `wrapping_shr` of a u32, or-ed in.
abbrev pub folded : ℕ → ℕ → ℕ
folded x shift = bit_or x (x / 2 ^ shift)

unfoldable pub tags_equal : ℕ → ℕ → Bool
tags_equal a b =
    let low = folded (bit_xor a b) 32 % 2 ^ 32 in
    bit_and (folded (folded (folded (folded (folded low 16) 8) 4) 2) 1) 1 == 0

unfoldable pub signed_bytes : Bytes → ℕ → Bytes → ℕ → Bytes
signed_bytes key seq payload direction =
    let signed = payload ++ le_bytes 4 seq in signed ++ le_bytes 8 (tag_over key signed direction)

abbrev pub ciphered : ℕ → Option (Bytes × Bytes) → Option Bytes
ciphered seq none = none
ciphered seq (some (ciphertext, tag)) = some (ciphertext ++ (le_bytes 4 seq ++ tag))

abbrev pub sealed : Aead → SessionAuth → Direction → Bytes → Option Bytes
sealed aead s d payload = elim s.cipher_key [
  | none ↦ some (signed_bytes s.key s.next_seq payload (as_u8 d))
  | some k ↦
      ciphered s.next_seq
        (aead.encrypt k (datagram_nonce d s.next_seq) (datagram_aad d s.next_seq) payload)
]

-- `seal`: the datagram, where there is one, and the session after it.
unfoldable pub seal : Aead → SessionAuth → Direction → Bytes → Option Bytes × SessionAuth
seal aead s d payload =
    if s.next_seq == 0
    then (none, s)
    else (sealed aead s d payload, record s { next_seq = (s.next_seq + 1) % 2 ^ 32 })

pub data Opened : Type 0 where
  opened : Bytes → Opened
  refused : AuthError → Opened

-- The window's part of `open`, on a datagram that authenticated.
unfoldable pub admitted : SessionAuth → ℕ → Bytes → Opened × SessionAuth
admitted s seq payload =
    let a = accept s.window seq in
    (if a.0 then opened payload else refused replayed, record s { window = a.1 })

unfoldable pub open_clear : SessionAuth → Direction → Bytes → Opened × SessionAuth
unfolding admitted tags_equal
open_clear s d datagram =
    let split = length datagram - tag_len in
    let signed = take split datagram in
    let payload_len = length signed - seq_len in
    if ltb (length datagram) trailer_len
    then (refused truncated, s)
    else if not (tags_equal (le_value (drop split datagram)) (tag_over s.key signed (as_u8 d)))
    then (refused bad_tag, s)
    else admitted s (le_value (drop payload_len signed)) (take payload_len signed)

abbrev pub deciphered : SessionAuth → ℕ → Option Bytes → Opened × SessionAuth
deciphered s seq none = (refused bad_tag, s)
deciphered s seq (some plain) = admitted s seq plain

unfoldable pub open_cipher : Aead → Bytes → SessionAuth → Direction → Bytes → Opened × SessionAuth
unfolding admitted
open_cipher aead k s d datagram =
    let split = length datagram - cipher_trailer_len in
    let trailer = drop split datagram in
    let seq = le_value (take seq_len trailer) in
    if ltb (length datagram) cipher_trailer_len
    then (refused truncated, s)
    else deciphered s seq (
        aead.decrypt k (datagram_nonce d seq) (datagram_aad d seq) (take split datagram)
          (drop seq_len trailer))

-- `open`: the answer, and the session after it.
unfoldable pub open_datagram : Aead → SessionAuth → Direction → Bytes → Opened × SessionAuth
unfolding open_clear open_cipher
open_datagram aead s d datagram = elim s.cipher_key [
  | none ↦ open_clear s d datagram
  | some k ↦ open_cipher aead k s d datagram
]
