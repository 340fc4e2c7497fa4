-- ===== src/Auth/Session/Trip.antt =====
-- What one end seals the other end opens.
use orbitnet.Base.{
  ℕ, zero, suc, ◌-◌, ◌/◌, ◌^◌, ◌<◌, ◌≡◌, refl, sym, ◌∙◌, ap, true, false, none, some, [], ◌∷◌, ◌++◌,
  ltb, if◌then◌else◌, length, arith, inl, inr, ==_cases, All, All-append, length-append,
  take_append_at, drop_append_at, Option-cases,
}
use orbitnet.Wire.Bytes.{Bytes, le_bytes, le_value}
use orbitnet.Wire.Bytes.Laws.{length-le_bytes, le_value-le_bytes}
use orbitnet.Wire.Bytes.Hostile.{IsByte}
use orbitnet.Auth.Sip
use orbitnet.Auth.Sip.{write, finish}
use orbitnet.Auth.Sip.Words64.{write-IsPacked, new-IsPacked, finish-u64}
use orbitnet.Auth.Keys.{tag_of_two, tag_over}
use mathlib.Core.Option.{some-injective}
use orbitnet.Auth.Window.{accept}
use orbitnet.Auth.Session.{
  Direction, to_server, to_client, as_u8, replayed, Aead, SessionAuth, datagram_nonce, datagram_aad,
  tags_equal, signed_bytes, ciphered, sealed, seal, opened, refused, admitted, open_clear,
  open_cipher, open_datagram,
}
use orbitnet.Auth.Session.Tags.{tags_equal_iff}

-- What the session relies on the cipher for: a tag of 16 bytes, and a plaintext that comes back
-- under the key, nonce and associated data that it was encrypted under.
pub record IsCipher (aead : Aead) : Type 0 where
  pub tags : (k n a p c t : Bytes) → aead.encrypt k n a p ≡ some (c, t) → length t ≡ 16
  pub inverse :
      (k n a p c t : Bytes) → aead.encrypt k n a p ≡ some (c, t) → aead.decrypt k n a c t ≡ some p

pub record IsKey (key : Bytes) : Type 0 where
  pub size : length key ≡ 16
  pub all_bytes : All IsByte key

All-le_bytes : (w v : ℕ) → All IsByte (le_bytes w v)
unfolding le_bytes
All-le_bytes zero v = tt
All-le_bytes (suc w) v = (omega arith, All-le_bytes w (v / 256))

as_u8_small : (d : Direction) → as_u8 d < 256
as_u8_small to_server = omega arith
as_u8_small to_client = omega arith

tag_over-u64 :
    (key signed : Bytes) (d : Direction)
    → IsKey key
    → All IsByte signed
    → tag_over key signed (as_u8 d) < 2 ^ 64
unfolding tag_over tag_of_two
tag_over-u64 key signed d k all =
    let start = write-IsPacked (Sip.new key) signed all (new-IsPacked key k.size k.all_bytes) in
    finish-u64 (write (write (Sip.new key) signed) (as_u8 d ∷ []))
      (write-IsPacked (write (Sip.new key) signed) (as_u8 d ∷ []) (as_u8_small d, tt) start)

-- A datagram in its parts.
open_clear-parts :
    (r : SessionAuth) (d : Direction) (payload places tag : Bytes)
    → length places ≡ 4
    → length tag ≡ 8
    → tags_equal (le_value tag) (tag_over r.key (payload ++ places) (as_u8 d)) ≡ true
    → open_clear r d ((payload ++ places) ++ tag) ≡ admitted r (le_value places) payload
unfolding open_clear
open_clear-parts r d payload places tag four eight same =
    let signed = payload ++ places in
    let size = length-append payload places in
    let whole = length-append signed tag in
    let split : length (signed ++ tag) - 8 ≡ length signed = omega (arith, whole, eight) in
    let inner : length signed - 4 ≡ length payload = omega (arith, size, four) in
    let enough : ltb (length (signed ++ tag)) 12 ≡ false =
      ground (arith, whole, size, four, eight) in
    rw (enough, take_append_at _ signed tag split, drop_append_at _ signed tag split, same)
      (rw (take_append_at _ payload places inner, drop_append_at _ payload places inner) refl)

open_cipher-parts :
    (aead : Aead) (k : Bytes) (r : SessionAuth) (d : Direction)
    (ciphertext places tag plain : Bytes)
    → length places ≡ 4
    → length tag ≡ 16
    → aead.decrypt k
        (datagram_nonce d (le_value places))
        (datagram_aad d (le_value places))
        ciphertext
        tag
      ≡ some plain
    → open_cipher aead k r d (ciphertext ++ (places ++ tag)) ≡ admitted r (le_value places) plain
unfolding open_cipher
open_cipher-parts aead k r d ciphertext places tag plain four sixteen verified =
    let trailer = places ++ tag in
    let size = length-append places tag in
    let whole = length-append ciphertext trailer in
    let split : length (ciphertext ++ trailer) - 20 ≡ length ciphertext =
      omega (arith, whole, size, four, sixteen) in
    let enough : ltb (length (ciphertext ++ trailer)) 20 ≡ false =
      ground (arith, whole, size, four, sixteen) in
    rw
      (enough, take_append_at _ ciphertext trailer split, drop_append_at _ ciphertext trailer split)
      (rw (take_append_at 4 places tag (sym four), drop_append_at 4 places tag (sym four))
        (rw verified refl))

-- The two regimes.
clear-sealed :
    (r : SessionAuth) (key payload : Bytes) (seq : ℕ) (d : Direction)
    → key ≡ r.key
    → IsKey key
    → All IsByte payload
    → seq < 2 ^ 32
    → open_clear r d (signed_bytes key seq payload (as_u8 d)) ≡ admitted r seq payload
unfolding signed_bytes
clear-sealed r key payload seq d keys k all small =
    let signed = payload ++ le_bytes 4 seq in
    let tag = tag_over key signed (as_u8 d) in
    let u64 : tag < 2 ^ 64 =
      tag_over-u64 key signed d k
        (All-append IsByte payload (le_bytes 4 seq) all (All-le_bytes 4 seq)) in
    let read = le_value-le_bytes 8 tag (omega (arith, u64)) in
    let mine = ap (λ k. tag_over k signed (as_u8 d)) keys in
    let same : tags_equal (le_value (le_bytes 8 tag)) (tag_over r.key signed (as_u8 d)) ≡ true =
      ap (λ t. tags_equal t (tag_over r.key signed (as_u8 d))) read
      ∙ ap (tags_equal tag) (sym mine)
      ∙ (tags_equal_iff tag tag u64 u64).1 refl in
    open_clear-parts r d payload (le_bytes 4 seq) (le_bytes 8 tag) (length-le_bytes 4 seq)
      (length-le_bytes 8 tag) same
    ∙ ap (λ n. admitted r n payload) (le_value-le_bytes 4 seq (omega (arith, small)))

cipher-sealed :
    (aead : Aead) (k : Bytes) (r : SessionAuth) (payload datagram : Bytes) (seq : ℕ) (d : Direction)
    → IsCipher aead
    → seq < 2 ^ 32
    → ciphered seq (aead.encrypt k (datagram_nonce d seq) (datagram_aad d seq) payload)
      ≡ some datagram
    → open_cipher aead k r d datagram ≡ admitted r seq payload
cipher-sealed aead k r payload datagram seq d law small sent =
    let read = le_value-le_bytes 4 seq (omega (arith, small)) in
    elim (Option-cases (aead.encrypt k (datagram_nonce d seq) (datagram_aad d seq) payload)) [
      | inl e ↦ let failed = rw e at sent in cc
      | inr ((c, t), e) ↦
          let same = some-injective _ datagram (rw e at sent) in
          let back : aead.decrypt k (datagram_nonce d (le_value (le_bytes 4 seq)))
                (datagram_aad d (le_value (le_bytes 4 seq))) c t
              ≡ some payload =
            ap (λ n. aead.decrypt k (datagram_nonce d n) (datagram_aad d n) c t) read
            ∙ law.inverse k (datagram_nonce d seq) (datagram_aad d seq) payload c t e in
          ap (open_cipher aead k r d) (sym same)
          ∙ open_cipher-parts aead k r d c (le_bytes 4 seq) t payload (length-le_bytes 4 seq)
              (law.tags k (datagram_nonce d seq) (datagram_aad d seq) payload c t e) back
          ∙ ap (λ n. admitted r n payload) read
    ]

pub open_datagram-clear :
    (aead : Aead) (r : SessionAuth) (d : Direction) (datagram : Bytes)
    → r.cipher_key ≡ none
    → open_datagram aead r d datagram ≡ open_clear r d datagram
unfolding open_datagram
open_datagram-clear aead r d datagram e = rw e refl

pub open_datagram-cipher :
    (aead : Aead) (r : SessionAuth) (d : Direction) (datagram k : Bytes)
    → r.cipher_key ≡ some k
    → open_datagram aead r d datagram ≡ open_cipher aead k r d datagram
unfolding open_datagram
open_datagram-cipher aead r d datagram k e = rw e refl

open-sealed :
    (aead : Aead) (s r : SessionAuth) (d : Direction) (payload datagram : Bytes)
    → IsCipher aead
    → s.key ≡ r.key
    → s.cipher_key ≡ r.cipher_key
    → IsKey s.key
    → All IsByte payload
    → s.next_seq < 2 ^ 32
    → sealed aead s d payload ≡ some datagram
    → open_datagram aead r d datagram ≡ admitted r s.next_seq payload
open-sealed aead s r d payload datagram law keys ciphers key all small sent =
    elim (Option-cases s.cipher_key) [
      | inl e ↦
          let same = some-injective _ datagram (rw e at sent) in
          open_datagram-clear aead r d datagram (sym ciphers ∙ e)
          ∙ ap (open_clear r d) (sym same)
          ∙ clear-sealed r s.key payload s.next_seq d keys key all small
      | inr (k, e) ↦
          open_datagram-cipher aead r d datagram k (sym ciphers ∙ e)
          ∙ cipher-sealed aead k r payload datagram s.next_seq d law small (rw e at sent)
    ]

-- What one end seals the other end opens, in the clear and under a cipher: where the two share
-- their keys, the key is 16 bytes, the payload is bytes and the cipher inverts itself with tags of
-- 16 bytes, a datagram that `seal` yields is authenticated by `open` in the same direction, which
-- answers the payload exactly if its window accepts the sender's number, answers `Replayed`
-- otherwise, and in both cases moves its window on by that number.
pub open_datagram-seal :
    (aead : Aead) (s r : SessionAuth) (d : Direction) (payload datagram : Bytes)
    → IsCipher aead
    → s.key ≡ r.key
    → s.cipher_key ≡ r.cipher_key
    → IsKey s.key
    → All IsByte payload
    → s.next_seq < 2 ^ 32
    → (seal aead s d payload).0 ≡ some datagram
    → ((open_datagram aead r d datagram).0
        ≡ (if (accept r.window s.next_seq).0 then opened payload else refused replayed))
      × ((open_datagram aead r d datagram).1 ≡ record r { window = (accept r.window s.next_seq).1 })
unfolding seal admitted
open_datagram-seal aead s r d payload datagram law keys ciphers key all small sent =
    elim (==_cases s.next_seq 0) [
      | inl (e, test) ↦ let nothing = rw test at sent in cc
      | inr (ne, test) ↦
          let back =
            open-sealed aead s r d payload datagram law keys ciphers key all small
              (rw test at sent) in
          (ap (λ a. a.0) back, ap (λ a. a.1) back)
    ]
