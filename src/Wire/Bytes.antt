-- ===== src/Wire/Bytes.antt =====
-- `Writer` and `Reader` of codec.rs. What a run of writes appends is the concatenation of what each
-- of them appends, so a write is the list of its bytes. A reader is the bytes after its cursor: no
-- method moves the cursor back, and one that fails leaves it where it was.
pub mod Laws
pub mod Varint
pub mod Bounds
pub mod Hostile
use orbitnet.Base.{
  ℕ, zero, suc, ◌+◌, ◌-◌, ◌*◌, ◌/◌, ◌%◌, ◌^◌, Bool, true, false, Option, none, some, List, [], ◌∷◌,
  ◌++◌, ltb, leb, ◌==◌, if◌then◌else◌, length, take, drop, u64_max, ◌&&◌, ◌||◌, ◌≡◌,
}
use orbitnet.Base.Int.{ℤ, pos, negsuc}

abbrev pub Bytes : Type 0
Bytes = List ℕ

pub data CodecError : Type 0 where
  unexpected_eof bad_magic varint_overflow : CodecError
  unknown_frame_kind : ℕ → CodecError
  protocol_mismatch : ℕ → ℕ → CodecError
  missing_session_nonce missing_acceptor_nonce secret_mismatch : CodecError

-- What a run of writes leaves in the buffer.
abbrev pub written : List Bytes → Bytes
written [] = []
written (bs ∷ rest) = bs ++ written rest

-- The result of a read, with the bytes that are left.
pub data Outcome {ℓ} (A : Type ℓ) : Type ℓ where
  got : A → Bytes → Outcome A
  fail : CodecError → Outcome A

abbrev pub Reader {ℓ} : Type ℓ → Type ℓ
Reader A = Bytes → Outcome A

-- `?`: what follows a read runs only if it succeeds.
abbrev pub after {ℓ κ} : {A : Type ℓ} {B : Type κ} → Outcome A → (A → Reader B) → Outcome B
after (got a rest) f = f a rest
after (fail e) f = fail e

infixl 5 ◌>>=◌
unfoldable pub ◌>>=◌ {ℓ κ} : {A : Type ℓ} {B : Type κ} → Reader A → (A → Reader B) → Reader B
m >>= f = λ buf. after (m buf) f

unfoldable pub pure {ℓ} : {A : Type ℓ} → A → Reader A
pure a = λ buf. got a buf

unfoldable pub throw {ℓ} : {A : Type ℓ} → CodecError → Reader A
throw e = λ buf. fail e

-- `unwrap_or(default)`, and `if let Ok(…)` over a default.
abbrev pub recovered {ℓ} : {A : Type ℓ} → A → Bytes → Outcome A → Outcome A
recovered default buf (got a rest) = got a rest
recovered default buf (fail e) = got default buf

unfoldable pub or_default {ℓ} : {A : Type ℓ} → Reader A → A → Reader A
or_default m default = λ buf. recovered default buf (m buf)

-- `take` of the reader, and `bytes`.
unfoldable pub bytes : ℕ → Reader Bytes
bytes count = λ buf.
    if ltb (length buf) count then fail unexpected_eof else got (take count buf) (drop count buf)

unfoldable pub peek_bytes : ℕ → ℕ → Bytes → Option Bytes
peek_bytes offset count buf =
    if ltb (length buf) (offset + count) then none else some (take count (drop offset buf))

-- `to_le_bytes` of a `w`-byte integer, and `from_le_bytes`.
unfoldable pub le_bytes : ℕ → ℕ → Bytes
le_bytes zero v = []
le_bytes (suc w) v = (v % 256) ∷ le_bytes w (v / 256)

unfoldable pub le_value : Bytes → ℕ
le_value [] = 0
le_value (b ∷ bs) = b + 256 * le_value bs

-- `u8`, `u16`, `u32` and `u64` are these for widths of 1, 2, 4 and 8, and a float is its bits.
unfoldable pub uint : ℕ → Reader ℕ
uint w = bytes w >>= λ bs. pure (le_value bs)

-- `value as u8` of an `i8`, and back.
unfoldable pub i8_code : ℤ → ℕ
i8_code (pos n) = n
i8_code (negsuc n) = 255 - n

unfoldable pub i8_value : ℕ → ℤ
i8_value b = if ltb b 128 then pos b else negsuc (255 - b)

unfoldable pub i8 : Reader ℤ
i8 = uint 1 >>= λ b. pure (i8_value b)

-- The loop of the writer's `varint`, seven bits at a time; `value & 0x7f` is the remainder and
-- `value >> 7` the quotient. Ten rounds are enough for 64 bits.
unfoldable pub varint_loop : ℕ → ℕ → Bytes
varint_loop zero value = []
varint_loop (suc n) value =
    let more = varint_loop n (value / 128) in
    if value / 128 == 0 then (value % 128) ∷ [] else (value % 128 + 128) ∷ more

unfoldable pub varint_bytes : ℕ → Bytes
varint_bytes value = varint_loop 10 value

-- The loop of the reader's `varint`. `result` has no bit at or above `shift`, so `|=` adds.
unfoldable pub varint_from : ℕ → ℕ → Reader ℕ
varint_from result shift [] = fail unexpected_eof
varint_from result shift (byte ∷ rest) =
    let payload = byte % 128 in
    let next = result + payload * 2 ^ shift in
    let more = varint_from next (shift + 7) rest in
    if leb 64 shift || (shift == 63 && ltb 1 payload)
    then fail varint_overflow
    else if byte / 128 % 2 == 0
    then got next rest
    else more

unfoldable pub varint : Reader ℕ
varint = varint_from 0 0

-- `((value << 1) ^ (value >> 63)) as u64` doubles a value and sends the negative ones to the odd
-- numbers; the reader halves it again.
unfoldable pub zigzag_code : ℤ → ℕ
zigzag_code (pos n) = 2 * n
zigzag_code (negsuc n) = 2 * n + 1

unfoldable pub zigzag_value : ℕ → ℤ
zigzag_value raw = if raw % 2 == 0 then pos (raw / 2) else negsuc (raw / 2)

unfoldable pub zigzag : Reader ℤ
zigzag = varint >>= λ raw. pure (zigzag_value raw)

-- `u32::try_from` of a varint.
unfoldable pub varint_u32 : Reader ℕ
varint_u32 = varint >>= λ v. if ltb v (2 ^ 32) then pure v else throw varint_overflow
