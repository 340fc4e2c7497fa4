-- ===== src/Wire/Join.antt =====
-- The frames of a join in codec.rs: `Handshake`, `Challenge` and `Welcome`, and the clock probes
-- `Ping` and `Pong`.
pub mod Laws
pub mod Short
pub mod Check
pub mod Tests
use orbitnet.Base.{
  ℕ, ◌+◌, ◌*◌, ◌/◌, ◌^◌, Bool, true, false, List, [], ◌∷◌, ◌++◌, ◌==◌, ◌&&◌, if◌then◌else◌,
  replicate,
}
use orbitnet.Wire.Bytes.{
  Bytes, written, CodecError, bad_magic, protocol_mismatch, missing_session_nonce, Reader, ◌>>=◌,
  pure, throw, or_default, bytes, le_bytes, uint, varint_bytes, varint,
}
use orbitnet.Base.Rows.{eqb_bytes}
use orbitnet.Schema.{protocol_version}
use orbitnet.Wire.Frame
use orbitnet.Wire.Frame.{tag}

-- "OBNW".
abbrev pub magic : Bytes
magic = 79 ∷ 66 ∷ 78 ∷ 87 ∷ []

abbrev pub key_len : ℕ
key_len = 16

abbrev pub exchange_key_len : ℕ
exchange_key_len = 32

abbrev pub zeros : ℕ → Bytes
zeros n = replicate n 0

pub record Handshake : Type 0 where
  pub protocol_version : ℕ
  pub tickrate : ℕ
  pub session_id : ℕ
  pub joiner_nonce : Bytes
  pub resume_token : ℕ
  pub acceptor_nonce : Bytes
  pub confirm : ℕ
  pub joiner_exchange : Bytes

unfoldable pub local : ℕ → Handshake
local tickrate = record {
  protocol_version = protocol_version;
  tickrate = tickrate;
  session_id = 0;
  joiner_nonce = zeros key_len;
  resume_token = 0;
  acceptor_nonce = zeros key_len;
  confirm = 0;
  joiner_exchange = zeros exchange_key_len;
}

unfoldable pub encode_handshake : Handshake → Bytes
encode_handshake h = written (
    magic
    ∷ le_bytes 4 h.protocol_version
    ∷ le_bytes 2 h.tickrate
    ∷ le_bytes 8 h.session_id
    ∷ h.joiner_nonce
    ∷ le_bytes 8 h.resume_token
    ∷ h.acceptor_nonce
    ∷ le_bytes 8 h.confirm
    ∷ h.joiner_exchange
    ∷ [])

-- The reads behind the protocol version: each one that fails leaves its default.
unfoldable pub decode_trailing : ℕ → Reader Handshake
decode_trailing version = do
  tickrate ← or_default (uint 2) 0
  session_id ← or_default (uint 8) 0
  joiner_nonce ← or_default (bytes key_len) (zeros key_len)
  resume_token ← or_default (uint 8) 0
  acceptor_nonce ← or_default (bytes key_len) (zeros key_len)
  confirm ← or_default (uint 8) 0
  joiner_exchange ← or_default (bytes exchange_key_len) (zeros exchange_key_len)
  pure (record {
    protocol_version = version;
    tickrate = tickrate;
    session_id = session_id;
    joiner_nonce = joiner_nonce;
    resume_token = resume_token;
    acceptor_nonce = acceptor_nonce;
    confirm = confirm;
    joiner_exchange = joiner_exchange;
  })

unfoldable pub decode_handshake : Reader Handshake
decode_handshake = do
  found ← bytes 4
  if eqb_bytes found magic then (uint 4 >>= λ version. decode_trailing version) else throw bad_magic

pub record Challenge : Type 0 where
  pub joiner_nonce : Bytes
  pub acceptor_nonce : Bytes
  pub acceptor_exchange : Bytes

unfoldable pub encode_challenge : Challenge → Bytes
encode_challenge c = written (
    le_bytes 1 (tag Frame.challenge) ∷ c.joiner_nonce ∷ c.acceptor_nonce ∷ c.acceptor_exchange ∷ [])

unfoldable pub decode_challenge : Reader Challenge
decode_challenge = do
  joiner_nonce ← bytes key_len
  acceptor_nonce ← bytes key_len
  acceptor_exchange ← or_default (bytes exchange_key_len) (zeros exchange_key_len)
  pure (record {
    joiner_nonce = joiner_nonce;
    acceptor_nonce = acceptor_nonce;
    acceptor_exchange = acceptor_exchange;
  })

pub record Welcome : Type 0 where
  pub protocol_version : ℕ
  pub server_tick : ℕ
  pub tickrate : ℕ
  pub resume_token : ℕ

unfoldable pub encode_welcome : Welcome → Bytes
encode_welcome w = written (
    le_bytes 1 (tag Frame.welcome)
    ∷ le_bytes 4 w.protocol_version
    ∷ varint_bytes w.server_tick
    ∷ le_bytes 2 w.tickrate
    ∷ le_bytes 8 w.resume_token
    ∷ [])

unfoldable pub decode_welcome : Reader Welcome
decode_welcome = do
  version ← uint 4
  server_tick ← varint
  tickrate ← uint 2
  resume_token ← or_default (uint 8) 0
  pure (record {
    protocol_version = version;
    server_tick = server_tick;
    tickrate = tickrate;
    resume_token = resume_token;
  })

pub record Ping : Type 0 where
  pub seq : ℕ
  pub client_us : ℕ

unfoldable pub encode_ping : Ping → Bytes
encode_ping p =
    written (le_bytes 1 (tag Frame.ping) ∷ varint_bytes p.seq ∷ varint_bytes p.client_us ∷ [])

unfoldable pub decode_ping : Reader Ping
decode_ping = do
  seq ← varint
  client_us ← varint
  pure (record { seq = seq; client_us = client_us })

-- `server_time` is the bits of the f64.
pub record Pong : Type 0 where
  pub seq : ℕ
  pub client_us : ℕ
  pub server_time : ℕ

unfoldable pub encode_pong : Pong → Bytes
encode_pong p = written (
    le_bytes 1 (tag Frame.pong)
    ∷ varint_bytes p.seq
    ∷ varint_bytes p.client_us
    ∷ le_bytes 8 p.server_time
    ∷ [])

unfoldable pub decode_pong : Reader Pong
decode_pong = do
  seq ← varint
  client_us ← varint
  server_time ← uint 8
  pure (record { seq = seq; client_us = client_us; server_time = server_time })
