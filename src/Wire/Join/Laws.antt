-- ===== src/Wire/Join/Laws.antt =====
-- The frames of a join and the clock probes read back.
use orbitnet.Base.{ℕ, ◌^◌, ◌<◌, ◌≡◌, refl, ◌++◌, length}
use orbitnet.Wire.Bytes.{Bytes, Reader, ◌>>=◌, pure, le_bytes, uint, bytes, or_default}
use orbitnet.Wire.Bytes.Laws.{
  Reads, ◌then⟨◌⟩◌, Reads-pure, Reads-map, Reads-uint, Reads-bytes, Reads-or_default,
}
use orbitnet.Wire.Bytes.Varint.{Reads-varint}
use orbitnet.Wire.Frame
use orbitnet.Wire.Frame.{FrameKind, tag, from_tag}
use orbitnet.Wire.Frame.Laws.{tag_small, Reads-from_tag}
use orbitnet.Wire.Join.{
  magic, key_len, exchange_key_len, zeros, Handshake, encode_handshake, decode_trailing,
  decode_handshake, Challenge, encode_challenge, decode_challenge, Welcome, encode_welcome,
  decode_welcome, Ping, encode_ping, decode_ping, Pong, encode_pong, decode_pong,
}

-- The widths of the fields of a handshake.
pub record FitsHandshake (h : Handshake) : Type 0 where
  pub protocol_version : h.protocol_version < 2 ^ 32
  pub tickrate : h.tickrate < 2 ^ 16
  pub session_id : h.session_id < 2 ^ 64
  pub joiner_nonce : length h.joiner_nonce ≡ key_len
  pub resume_token : h.resume_token < 2 ^ 64
  pub acceptor_nonce : length h.acceptor_nonce ≡ key_len
  pub confirm : h.confirm < 2 ^ 64
  pub joiner_exchange : length h.joiner_exchange ≡ exchange_key_len

Reads-field : (w v d : ℕ) → v < 256 ^ w → Reads (or_default (uint w) d) (le_bytes w v) v
Reads-field w v d h = Reads-or_default (uint w) (le_bytes w v) v d (Reads-uint w v h)

Reads-array : (n : ℕ) (bs d : Bytes) → length bs ≡ n → Reads (or_default (bytes n) d) bs bs
Reads-array n bs d h = Reads-or_default (bytes n) bs bs d (Reads-bytes n bs h)

-- A handshake whose fields fit their widths reads back whole.
pub Reads-decode_handshake :
    (h : Handshake) → FitsHandshake h → Reads decode_handshake (encode_handshake h) h
unfolding decode_handshake encode_handshake decode_trailing
Reads-decode_handshake h fits =
    Reads-bytes 4 magic refl
    then⟨ _ ⟩ Reads-uint 4 h.protocol_version fits.protocol_version
    then⟨ _ ⟩ Reads-field 2 h.tickrate 0 fits.tickrate
    then⟨ _ ⟩ Reads-field 8 h.session_id 0 fits.session_id
    then⟨ _ ⟩ Reads-array key_len h.joiner_nonce (zeros key_len) fits.joiner_nonce
    then⟨ _ ⟩ Reads-field 8 h.resume_token 0 fits.resume_token
    then⟨ _ ⟩ Reads-array key_len h.acceptor_nonce (zeros key_len) fits.acceptor_nonce
    then⟨ _ ⟩ Reads-field 8 h.confirm 0 fits.confirm
    then⟨ _ ⟩
      Reads-array exchange_key_len h.joiner_exchange (zeros exchange_key_len) fits.joiner_exchange
    then⟨ _ ⟩ Reads-pure h

-- What a receiver does with a frame: the kind, then the payload of that kind.
abbrev pub framed {ℓ} : {A : Type ℓ} → Reader A → Reader (FrameKind × A)
framed payload = uint 1 >>= λ t. from_tag t >>= λ k. payload >>= λ a. pure (k, a)

pub Reads-framed {ℓ} :
    {A : Type ℓ} (k : FrameKind) (payload : Reader A) (bs : Bytes) (a : A)
    → Reads payload bs a
    → Reads (framed payload) (le_bytes 1 (tag k) ++ bs) (k, a)
Reads-framed k payload bs a r =
    Reads-uint 1 (tag k) (tag_small k)
    then⟨ _ ⟩ Reads-from_tag k
    then⟨ _ ⟩ Reads-map payload (λ a. (k, a)) bs a r

pub record FitsChallenge (c : Challenge) : Type 0 where
  pub joiner_nonce : length c.joiner_nonce ≡ key_len
  pub acceptor_nonce : length c.acceptor_nonce ≡ key_len
  pub acceptor_exchange : length c.acceptor_exchange ≡ exchange_key_len

-- A challenge whose three arrays have their lengths reads back, kind and payload.
Reads-decode_challenge :
    (c : Challenge)
    → FitsChallenge c
    → Reads (framed decode_challenge) (encode_challenge c) (Frame.challenge, c)
unfolding decode_challenge encode_challenge
Reads-decode_challenge c fits = Reads-framed Frame.challenge decode_challenge _ c (
    Reads-bytes key_len c.joiner_nonce fits.joiner_nonce
    then⟨ _ ⟩ Reads-bytes key_len c.acceptor_nonce fits.acceptor_nonce
    then⟨ _ ⟩
      Reads-array exchange_key_len c.acceptor_exchange (zeros exchange_key_len)
        fits.acceptor_exchange
    then⟨ _ ⟩ Reads-pure c)

pub record FitsWelcome (w : Welcome) : Type 0 where
  pub protocol_version : w.protocol_version < 2 ^ 32
  pub server_tick : w.server_tick < 2 ^ 64
  pub tickrate : w.tickrate < 2 ^ 16
  pub resume_token : w.resume_token < 2 ^ 64

-- A welcome whose fields fit their widths reads back, kind and payload.
Reads-decode_welcome :
    (w : Welcome)
    → FitsWelcome w
    → Reads (framed decode_welcome) (encode_welcome w) (Frame.welcome, w)
unfolding decode_welcome encode_welcome
Reads-decode_welcome w fits = Reads-framed Frame.welcome decode_welcome _ w (
    Reads-uint 4 w.protocol_version fits.protocol_version
    then⟨ _ ⟩ Reads-varint w.server_tick fits.server_tick
    then⟨ _ ⟩ Reads-uint 2 w.tickrate fits.tickrate
    then⟨ _ ⟩ Reads-field 8 w.resume_token 0 fits.resume_token
    then⟨ _ ⟩ Reads-pure w)

-- A clock probe and its reply, of 64-bit fields, read back, kind and payload.
Reads-decode_ping :
    (p : Ping) (q : Pong)
    → p.seq < 2 ^ 64
    → p.client_us < 2 ^ 64
    → q.seq < 2 ^ 64
    → q.client_us < 2 ^ 64
    → q.server_time < 2 ^ 64
    → Reads (framed decode_ping) (encode_ping p) (Frame.ping, p)
      × Reads (framed decode_pong) (encode_pong q) (Frame.pong, q)
unfolding decode_ping encode_ping decode_pong encode_pong
Reads-decode_ping p q h1 h2 h3 h4 h5 = (
  Reads-framed Frame.ping decode_ping _ p
      (Reads-varint p.seq h1 then⟨ _ ⟩ Reads-varint p.client_us h2 then⟨ _ ⟩ Reads-pure p),
  Reads-framed Frame.pong decode_pong _ q (
      Reads-varint q.seq h3
      then⟨ _ ⟩ Reads-varint q.client_us h4
      then⟨ _ ⟩ Reads-uint 8 q.server_time h5
      then⟨ _ ⟩ Reads-pure q),
)

-- The frames that answer a handshake, and the clock probes: a challenge whose three arrays have
-- their lengths, a welcome whose fields fit their widths and a probe and its reply of 64-bit
-- fields each read back, kind and payload.
pub Reads-answers :
    (c : Challenge) (w : Welcome) (p : Ping) (q : Pong)
    → FitsChallenge c
    → FitsWelcome w
    → p.seq < 2 ^ 64
    → p.client_us < 2 ^ 64
    → q.seq < 2 ^ 64
    → q.client_us < 2 ^ 64
    → q.server_time < 2 ^ 64
    → Reads (framed decode_challenge) (encode_challenge c) (Frame.challenge, c)
      × Reads (framed decode_welcome) (encode_welcome w) (Frame.welcome, w)
      × Reads (framed decode_ping) (encode_ping p) (Frame.ping, p)
      × Reads (framed decode_pong) (encode_pong q) (Frame.pong, q)
Reads-answers c w p q hc hw h1 h2 h3 h4 h5 =
    let probes = Reads-decode_ping p q h1 h2 h3 h4 h5 in
    (Reads-decode_challenge c hc, Reads-decode_welcome w hw, probes.0, probes.1)

-- The frames of a join and the clock probes read back: a handshake, a challenge, a welcome and a probe
-- with its reply, each of whose fields fit their widths.
pub Reads-join_frames :
    (h : Handshake) (c : Challenge) (w : Welcome) (p : Ping) (q : Pong)
    → FitsHandshake h
    → FitsChallenge c
    → FitsWelcome w
    → p.seq < 2 ^ 64
    → p.client_us < 2 ^ 64
    → q.seq < 2 ^ 64
    → q.client_us < 2 ^ 64
    → q.server_time < 2 ^ 64
    → Reads decode_handshake (encode_handshake h) h
      × Reads (framed decode_challenge) (encode_challenge c) (Frame.challenge, c)
      × Reads (framed decode_welcome) (encode_welcome w) (Frame.welcome, w)
      × Reads (framed decode_ping) (encode_ping p) (Frame.ping, p)
      × Reads (framed decode_pong) (encode_pong q) (Frame.pong, q)
Reads-join_frames h c w p q hh hc hw h1 h2 h3 h4 h5 =
    let answers = Reads-answers c w p q hc hw h1 h2 h3 h4 h5 in
    (Reads-decode_handshake h hh, answers.0, answers.1, answers.2, answers.3)
