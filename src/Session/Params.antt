-- ===== src/Session/Params.antt =====
-- `validate_params` of michi_session.c against the canonical negotiation.
use michi_music_stream.Prelude.{
  ℕ, ◌≤◌, ◌<◌, true, ◌||◌, not, ltb, if◌then◌else◌, ◌==◌, ◌≡◌, ◌↔◌, arith, codes, str_eq, EspErr,
  List,
}
use michi_music_stream.Session.{StartParams}
use michi_music_stream.Session.Text.{owner_id_valid, ipv4_dotted_valid}

abbrev pub pcm_s16le : List ℕ
pcm_s16le = codes "pcm_s16le"

unfoldable pub validate_params : StartParams → EspErr
validate_params p =
    if not (owner_id_valid p.owner_controller_id)
    then EspErr.invalid_arg
    else if not (str_eq p.codec pcm_s16le)
    then EspErr.not_supported
    else if not (p.sample_rate == 48000)
    then EspErr.not_supported
    else if not (p.bit_depth == 16)
    then EspErr.not_supported
    else if not (p.channels == 2)
    then EspErr.not_supported
    else if not (p.packet_ms == 10)
    then EspErr.invalid_arg
    else if not (p.payload_type == 97)
    then EspErr.invalid_arg
    else if ltb p.buffer_ms 50 || ltb 500 p.buffer_ms
    then EspErr.invalid_arg
    else if p.ssrc == 0
    then EspErr.invalid_arg
    else if ltb 100 p.volume
    then EspErr.invalid_arg
    else if not (ipv4_dotted_valid p.source_ip)
    then EspErr.invalid_arg
    else EspErr.ok

-- The canonical negotiation of the contract.
pub record IsCanonical (p : StartParams) : Type 0 where
  pub owner : owner_id_valid p.owner_controller_id ≡ true
  pub codec : str_eq p.codec pcm_s16le ≡ true
  pub sample_rate : p.sample_rate ≡ 48000
  pub bit_depth : p.bit_depth ≡ 16
  pub channels : p.channels ≡ 2
  pub packet_ms : p.packet_ms ≡ 10
  pub payload_type : p.payload_type ≡ 97
  pub buffer_ms : 50 ≤ p.buffer_ms × p.buffer_ms ≤ 500
  pub ssrc : 0 < p.ssrc
  pub volume : p.volume ≤ 100
  pub source_ip : ipv4_dotted_valid p.source_ip ≡ true

-- `validate_params` accepts exactly the canonical negotiation, its owner and its address being judged
-- by the code's own two checks.
pub validate_params-IsCanonical :
    (p : StartParams) → (validate_params p ≡ EspErr.ok) ↔ IsCanonical p
unfolding validate_params
validate_params-IsCanonical p = (accepted, refused)
  where
    accepted : validate_params p ≡ EspErr.ok → IsCanonical p
    accepted h = record {
      owner = ground arith;
      codec = ground arith;
      sample_rate = ground arith;
      bit_depth = ground arith;
      channels = ground arith;
      packet_ms = ground arith;
      payload_type = ground arith;
      buffer_ms = ground arith;
      ssrc = ground arith;
      volume = ground arith;
      source_ip = ground arith;
    }

    refused : IsCanonical p → validate_params p ≡ EspErr.ok
    refused c = ground (
      arith, c.owner, c.codec, c.sample_rate, c.bit_depth, c.channels, c.packet_ms, c.payload_type,
      c.buffer_ms, c.ssrc, c.volume, c.source_ip,
    )
