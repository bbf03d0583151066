-- ===== src/Rtp/Guard.antt =====
-- The datagram guard of firmware/components/michi_audio/rtp_guard.c: header parse and verdict.
use michi_music_stream.Prelude.{
  ℕ, ◌+◌, ◌*◌, ◌/◌, ◌%◌, ◌^◌, ◌<◌, ◌≡◌, ◌↔◌, not, Option, none, some, List, ◌∷◌, arith, ◌==◌,
  if◌then◌else◌, length,
}

-- `michi_rtp_guard_packet_t`; `payload` is the rest of the datagram.
pub record Packet : Type 0 where
  pub pt : ℕ
  pub seq : ℕ
  pub timestamp : ℕ
  pub ssrc : ℕ
  pub payload : List ℕ
  pub payload_len : ℕ

-- `michi_rtp_guard_session_t`.
pub record GuardSession : Type 0 where
  pub pt : ℕ
  pub ssrc : ℕ
  pub source_be32 : ℕ

-- `michi_rtp_guard_verdict_t`.
pub data Verdict : Type 0 where
  accepted malformed pt_mismatch ssrc_mismatch source_mismatch size_mismatch : Verdict

-- MICHI_RTP_GUARD_PAYLOAD_BYTES.
abbrev pub payload_bytes : ℕ
payload_bytes = 1920

-- Big-endian reads. The shifted bytes do not overlap, so `|` is `+`.
abbrev pub be16 : ℕ → ℕ → ℕ
be16 a b = a * 256 + b

abbrev pub be32 : ℕ → ℕ → ℕ → ℕ → ℕ
be32 a b c d = a * 16777216 + b * 65536 + c * 256 + d

-- Fewer than twelve bytes are no header.
unfoldable pub parse : List ℕ → Option Packet
parse (b0 ∷ b1 ∷ b2 ∷ b3 ∷ b4 ∷ b5 ∷ b6 ∷ b7 ∷ b8 ∷ b9 ∷ b10 ∷ b11 ∷ payload) =
    if b0 == 0x80
    then some (record {
      pt = b1 % 128;
      seq = be16 b2 b3;
      timestamp = be32 b4 b5 b6 b7;
      ssrc = be32 b8 b9 b10 b11;
      payload = payload;
      payload_len = length payload % 65536;
    })
    else none
parse _ = none

unfoldable pub classify : Packet → GuardSession → ℕ → Verdict
classify p s sender =
    if not (p.pt == s.pt)
    then pt_mismatch
    else if not (p.ssrc == s.ssrc)
    then ssrc_mismatch
    else if not (sender == s.source_be32)
    then source_mismatch
    else if not (p.payload_len == payload_bytes)
    then size_mismatch
    else accepted

-- What the sender of the session puts on the wire (RFC 3550, no CSRC, no extension, no padding).
abbrev pub header : ℕ → ℕ → ℕ → ℕ → List ℕ → List ℕ
header pt seq timestamp ssrc payload =
    0x80
    ∷ pt
    ∷ (seq / 256)
    ∷ (seq % 256)
    ∷ (timestamp / 16777216)
    ∷ (timestamp / 65536 % 256)
    ∷ (timestamp / 256 % 256)
    ∷ (timestamp % 256)
    ∷ (ssrc / 16777216)
    ∷ (ssrc / 65536 % 256)
    ∷ (ssrc / 256 % 256)
    ∷ (ssrc % 256)
    ∷ payload

-- A canonical datagram is parsed back to the fields it was built from: the marker bit of the second
-- byte is dropped, and the payload is everything after the twelve header bytes.
pub parse-header :
    (pt seq timestamp ssrc : ℕ) (payload : List ℕ)
    → seq < 65536
    → timestamp < 2 ^ 32
    → ssrc < 2 ^ 32
    → length payload < 65536
    → parse (header pt seq timestamp ssrc payload)
      ≡ some (record {
        pt = pt % 128;
        seq = seq;
        timestamp = timestamp;
        ssrc = ssrc;
        payload = payload;
        payload_len = length payload;
      })
unfolding parse
parse-header pt seq timestamp ssrc payload hs ht hc hl = ground arith

-- A packet is accepted exactly if its payload type, its SSRC, its sender and its size are those of
-- the session.
pub classify-accepted_iff :
    (p : Packet) (s : GuardSession) (sender : ℕ)
    → (classify p s sender ≡ accepted) ↔ (
        (p.pt ≡ s.pt)
        × (p.ssrc ≡ s.ssrc)
        × (sender ≡ s.source_be32)
        × (p.payload_len ≡ payload_bytes))
unfolding classify
classify-accepted_iff p s sender =
    (λ h. (ground arith, ground arith, ground arith, ground arith), λ h. ground arith)
