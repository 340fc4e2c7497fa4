-- ===== src/Wire/Join/Tests.antt =====
-- Frames of a join at concrete inputs.
use orbitnet.Base.{◌+◌, ◌*◌, ◌^◌, ◌≡◌, refl, [], ◌∷◌, arith, replicate}
use orbitnet.Wire.Bytes.{Bytes, written, got, le_bytes, le_value}
use orbitnet.Wire.Bytes.Laws.{Reads}
use orbitnet.Wire.Frame
use orbitnet.Wire.Frame.{tag}
use orbitnet.Wire.Join.{
  magic, key_len, exchange_key_len, zeros, Handshake, encode_handshake, decode_handshake, Challenge,
  encode_challenge, decode_challenge, Welcome, encode_welcome, decode_welcome, Ping, encode_ping,
  decode_ping, Pong, encode_pong, decode_pong,
}
use orbitnet.Wire.Join.Laws.{Reads-join_frames, framed}
use orbitnet.Wire.Join.Short.{decode_handshake-cut_in_nonce}

abbrev hello : Handshake
hello = record {
  protocol_version = 9 * 2 ^ 16 + 3;
  tickrate = 60;
  session_id = 77;
  joiner_nonce = replicate 16 5;
  resume_token = 2 ^ 63;
  acceptor_nonce = replicate 16 6;
  confirm = 12;
  joiner_exchange = replicate 32 7;
}

abbrev cut : Bytes
cut = written (
    magic
    ∷ le_bytes 4 65536
    ∷ le_bytes 2 60
    ∷ le_bytes 8 3
    ∷ (1 ∷ 2 ∷ 3 ∷ 4 ∷ 5 ∷ 6 ∷ 7 ∷ 8 ∷ 9 ∷ [])
    ∷ [])

decode_handshake-cut_in_nonce_example :
    decode_handshake cut
    ≡ got
        (record {
          protocol_version = 65536;
          tickrate = 60;
          session_id = 3;
          joiner_nonce = zeros key_len;
          resume_token = le_value (1 ∷ 2 ∷ 3 ∷ 4 ∷ 5 ∷ 6 ∷ 7 ∷ 8 ∷ []);
          acceptor_nonce = zeros key_len;
          confirm = 0;
          joiner_exchange = zeros exchange_key_len;
        })
        (9 ∷ [])
decode_handshake-cut_in_nonce_example =
    decode_handshake-cut_in_nonce 65536 60 3 (1 ∷ 2 ∷ 3 ∷ 4 ∷ 5 ∷ 6 ∷ 7 ∷ 8 ∷ []) (9 ∷ [])
      (omega arith) (omega arith) (omega arith) refl (omega arith)

abbrev answer : Challenge
answer = record {
  joiner_nonce = replicate 16 5;
  acceptor_nonce = replicate 16 6;
  acceptor_exchange = replicate 32 0;
}

abbrev seated : Welcome
seated = record {
  protocol_version = 9 * 2 ^ 16;
  server_tick = 5000;
  tickrate = 60;
  resume_token = 9;
}

abbrev probe : Ping
probe = record { seq = 4; client_us = 123456 }

abbrev reply : Pong
reply = record { seq = 4; client_us = 123456; server_time = 2 ^ 62 }

Reads-join_frames_example :
    Reads decode_handshake (encode_handshake hello) hello
    × Reads (framed decode_challenge) (encode_challenge answer) (Frame.challenge, answer)
    × Reads (framed decode_welcome) (encode_welcome seated) (Frame.welcome, seated)
    × Reads (framed decode_ping) (encode_ping probe) (Frame.ping, probe)
    × Reads (framed decode_pong) (encode_pong reply) (Frame.pong, reply)
Reads-join_frames_example =
    Reads-join_frames hello answer seated probe reply
      (record {
        protocol_version = omega arith;
        tickrate = omega arith;
        session_id = omega arith;
        joiner_nonce = refl;
        resume_token = omega arith;
        acceptor_nonce = refl;
        confirm = omega arith;
        joiner_exchange = refl;
      })
      (record { joiner_nonce = refl; acceptor_nonce = refl; acceptor_exchange = refl })
      (record {
        protocol_version = omega arith;
        server_tick = omega arith;
        tickrate = omega arith;
        resume_token = omega arith;
      })
      (omega arith) (omega arith) (omega arith) (omega arith) (omega arith)
