-- ===== src/Auth/Session/Numbers.antt =====
-- The sequence numbers that a session seals under.
use orbitnet.Base.{
  ℕ, ◌+◌, ◌-◌, ◌%◌, ◌^◌, ◌<◌, ◌≡◌, ◌≢◌, refl, sym, ◌∙◌, ap, false, Option, none, some, Option-cases,
  List, [], ◌∷◌, ◌++◌, ltb, ◌==◌, ==_ne, ltb_cases, if◌then◌else◌, length, replicate, arith, inl,
  inr, ==_cases,
}
use orbitnet.Wire.Bytes.{Bytes, le_bytes, le_value}
use orbitnet.Wire.Bytes.Laws.{le_value-le_bytes}
use orbitnet.Auth.Keys.{tag_over}
use orbitnet.Auth.Session
use orbitnet.Auth.Session.{
  Direction, as_u8, Aead, SessionAuth, signed_bytes, datagram_nonce, datagram_aad, ciphered, sealed,
  seal,
}

-- The session after the payloads of a list, and the number that each was sealed under.
unfoldable pub after_seals : Aead → SessionAuth → List (Direction × Bytes) → SessionAuth
unfolding seal
after_seals aead s [] = s
after_seals aead s (m ∷ ms) = after_seals aead (seal aead s m.0 m.1).1 ms

spent :
    (aead : Aead) (s : SessionAuth) (d : Direction) (payload : Bytes)
    → s.next_seq ≡ 0
    → seal aead s d payload ≡ (none, s)
unfolding seal
spent aead s d payload e = rw e refl

next_seq-seal :
    (aead : Aead) (s : SessionAuth) (d : Direction) (payload : Bytes)
    → s.next_seq ≢ 0
    → (seal aead s d payload).1.next_seq ≡ (s.next_seq + 1) % 2 ^ 32
unfolding seal
next_seq-seal aead s d payload ne = elim (==_cases s.next_seq 0) [
  | inl (e, test) ↦ absurd (ne e)
  | inr (_, test) ↦ rw test refl
]

after_seals-spent :
    (aead : Aead) (s : SessionAuth) (ms : List (Direction × Bytes))
    → s.next_seq ≡ 0
    → (after_seals aead s ms).next_seq ≡ 0
unfolding after_seals
after_seals-spent aead s [] e = e
after_seals-spent aead s (m ∷ ms) e =
    ap (λ t. (after_seals aead t ms).next_seq) (ap (λ a. a.1) (spent aead s m.0 m.1 e))
    ∙ after_seals-spent aead s ms e

after_seals-from :
    (aead : Aead) (s : SessionAuth) (ms : List (Direction × Bytes))
    → s.next_seq ≢ 0
    → s.next_seq < 2 ^ 32
    → (after_seals aead s ms).next_seq
      ≡ (if ltb (s.next_seq + length ms) (2 ^ 32) then s.next_seq + length ms else 0)
unfolding after_seals
after_seals-from aead s [] ne small = ground arith
after_seals-from aead s (m ∷ ms) ne small =
    let t = (seal aead s m.0 m.1).1 in
    let step = next_seq-seal aead s m.0 m.1 ne in
    elim (==_cases t.next_seq 0) [
      | inl (last, _) ↦ after_seals-spent aead t ms last ∙ ground (arith, last, step)
      | inr (more, _) ↦
          after_seals-from aead t ms more (omega (arith, step)) ∙ ground (arith, step, more)
    ]

-- A datagram under a number, byte for byte: in the clear the payload, the number and the tag over
-- both in the direction; under a cipher the ciphertext, the number and the cipher's tag, the nonce
-- being the direction, the number and zeros.
abbrev pub numbered : Aead → Bytes → Option Bytes → Direction → Bytes → ℕ → Option Bytes
numbered aead key none d payload seq =
    let signed = payload ++ le_bytes 4 seq in
    some (signed ++ le_bytes 8 (tag_over key signed (as_u8 d)))
numbered aead key (some k) d payload seq = ciphered seq (
    aead.encrypt k ((as_u8 d ∷ le_bytes 4 seq) ++ replicate 7 0) (le_bytes 4 seq ++ (as_u8 d ∷ []))
      payload)

sealed-numbered :
    (aead : Aead) (s : SessionAuth) (d : Direction) (payload : Bytes)
    → sealed aead s d payload ≡ numbered aead s.key s.cipher_key d payload s.next_seq
unfolding signed_bytes datagram_nonce datagram_aad
sealed-numbered aead s d payload = elim (Option-cases s.cipher_key) [
  | inl clear ↦ rw clear refl
  | inr (k, cipher) ↦ rw cipher refl
]

-- A seal changes no key.
abbrev SameKeys : SessionAuth → SessionAuth → Type 0
SameKeys s t = (s.key ≡ t.key) × (s.cipher_key ≡ t.cipher_key)

seal-SameKeys :
    (aead : Aead) (s : SessionAuth) (d : Direction) (payload : Bytes)
    → SameKeys (seal aead s d payload).1 s
unfolding seal
seal-SameKeys aead s d payload = elim (==_cases s.next_seq 0) [
  | inl (_, test) ↦ rw test (refl, refl)
  | inr (_, test) ↦ rw test (refl, refl)
]

after_seals-SameKeys :
    (aead : Aead) (s : SessionAuth) (ms : List (Direction × Bytes))
    → SameKeys (after_seals aead s ms) s
unfolding after_seals
after_seals-SameKeys aead s [] = (refl, refl)
after_seals-SameKeys aead s (m ∷ ms) =
    let rest = after_seals-SameKeys aead (seal aead s m.0 m.1).1 ms in
    let step = seal-SameKeys aead s m.0 m.1 in (rest.0 ∙ step.0, rest.1 ∙ step.1)

seal-numbered :
    (aead : Aead) (s : SessionAuth) (d : Direction) (payload : Bytes) (key : Bytes)
    (cipher_key : Option Bytes) (seq : ℕ)
    → SameKeys s (record s { key = key; cipher_key = cipher_key })
    → s.next_seq ≡ seq
    → seq ≢ 0
    → seal aead s d payload
      ≡ (numbered aead key cipher_key d payload seq, record s { next_seq = (seq + 1) % 2 ^ 32 })
unfolding seal
seal-numbered aead s d payload key cipher_key seq same e going =
    let test : (s.next_seq == 0) ≡ false = ==_ne s.next_seq 0 (λ z. going (sym e ∙ z)) in
    rw test (
      ap (λ o. (o, record s { next_seq = (s.next_seq + 1) % 2 ^ 32 }))
        (sealed-numbered aead s d payload ∙ rw (same.0, same.1, e) refl)
      ∙ ap
          (λ (k : ℕ).
            (numbered aead key cipher_key d payload seq, record s { next_seq = (k + 1) % 2 ^ 32 }))
          e)

-- Numbers of four bytes that are not the same have other bytes.
le_bytes-apart : (m n : ℕ) → m < 2 ^ 32 → n < 2 ^ 32 → m ≢ n → le_bytes 4 m ≢ le_bytes 4 n
le_bytes-apart m n hm hn ne same = ne (
    sym (le_value-le_bytes 4 m (omega (arith, hm)))
    ∙ ap (λ bs. le_value bs) same
    ∙ le_value-le_bytes 4 n (omega (arith, hn)))

-- A new session under any keys numbers its datagrams from 1 upward without a repeat and then stops
-- for good. After any payloads, sealed in any directions, as long as they are fewer than `u32::MAX`:
-- the next number is one more than the count of them, the next datagram is the one under that number,
-- in its trailer, its tag and its nonce, and the number's bytes are those of no earlier one. From there
-- on the counter stays 0, and `seal` yields nothing and changes nothing.
pub seal-after_seals :
    (aead : Aead) (key : Bytes) (cipher_key : Option Bytes) (ms : List (Direction × Bytes))
    (d : Direction) (payload : Bytes)
    → let a = after_seals aead (record (Session.new key) { cipher_key = cipher_key }) ms in
      (a.next_seq ≡ (if ltb (length ms) (2 ^ 32 - 1) then 1 + length ms else 0))
      × (seal aead a d payload ≡ (
          if ltb (length ms) (2 ^ 32 - 1)
          then (
            numbered aead key cipher_key d payload (1 + length ms),
            record a { next_seq = (1 + length ms + 1) % 2 ^ 32 },
          )
          else (none, a)))
      × ((earlier : ℕ)
          → earlier < length ms
          → length ms < 2 ^ 32 - 1
          → le_bytes 4 (1 + earlier) ≢ le_bytes 4 (1 + length ms))
seal-after_seals aead key cipher_key ms d payload =
    let s : SessionAuth = record (Session.new key) { cipher_key = cipher_key } in
    let from = after_seals-from aead s ms (λ e. omega (arith, e)) (omega arith) in
    let apart = λ (earlier : ℕ) (before : earlier < length ms) (few : length ms < 2 ^ 32 - 1).
      le_bytes-apart (1 + earlier) (1 + length ms) (omega (arith, before, few)) (omega (arith, few))
        (λ e. omega (arith, before, e)) in
    elim (ltb_cases (length ms) (2 ^ 32 - 1)) [
      | inl (few, test) ↦
          let next : (after_seals aead s ms).next_seq ≡ 1 + length ms = ground (arith, from, few) in
          rw test (
            next,
            seal-numbered aead (after_seals aead s ms) d payload key cipher_key (1 + length ms)
                (after_seals-SameKeys aead s ms) next (λ e. omega (arith, e)),
            apart,
          )
      | inr (many, test) ↦
          let stopped : (after_seals aead s ms).next_seq ≡ 0 = ground (arith, from, many) in
          rw test (stopped, spent aead (after_seals aead s ms) d payload stopped, apart)
    ]
