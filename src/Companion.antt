-- ===== src/Companion.antt =====
-- src/companion.rs: the frames of the Companion link, and the pairing data they carry.
pub mod Packets
pub mod Crypto
pub mod Channel
pub mod Nonces
pub mod LockStep
pub mod PairVerify
pub mod Clipboard
pub mod Session
pub mod Client
pub mod Authentic
pub mod Messages
pub mod Agreement
pub mod Pairing
use adhoc_cross_device_conne.Prelude.{
  ℕ, ◌+◌, ◌*◌, ◌/◌, ◌%◌, ◌^◌, Bool, true, false, List, [], ◌∷◌, ◌++◌, Option, some, none, ◌==◌,
  ◌&&◌, ltb, leb, if◌then◌else◌, length, take, drop, arith,
}
use adhoc_cross_device_conne.Prelude.Result.{Result, ok, err, ensure, context, ◌>>=◌, ◌>>◌}
use adhoc_cross_device_conne.Opack.{Value, bytes, dict_of, get, as_bytes}
use adhoc_cross_device_conne.Opack.Encode.{encode}
use adhoc_cross_device_conne.Opack.Decode
use adhoc_cross_device_conne.Opack.Decode.{decode}
use adhoc_cross_device_conne.Tlv8
use adhoc_cross_device_conne.Tlv8.{Tlv8}

-- The messages of Pair-Verify.
pub data Message : Type 0 where
  pv_m1 pv_m2 pv_m3 pv_m4 : Message

-- The failures of the Companion link, one for each text of the source; where a text names a message of Pair-Verify,
-- the failure carries the message.
pub data Error : Type 0 where
  body_too_long short_header unknown_type length_mismatch missing_pd : Error
  opack : Decode.Error → Error
  encrypt_failed decrypt_failed nonce_exhausted : Error
  missing_public_key bad_public_key missing_encrypted_data pv_encrypt_failed pv_decrypt_failed :
      Message → Error
  missing_signature unknown_signature not_run_before : Message → Error
  m1_not_sent ephemeral_consumed low_order_key bad_signature_length bad_state : Error
  end_of_stream tag_missing over_cap not_encrypted : Error
  missing_items items_not_array missing_item_type missing_item_data : Error

pub data PacketType : Type 0 where
  pair_verify_public_key pair_verify_continue encrypted_data finished : PacketType

-- `ptype as u8`
unfoldable pub code : PacketType → ℕ
code pair_verify_public_key = 0x05
code pair_verify_continue = 0x06
code encrypted_data = 0x08
code finished = 0x01

unfoldable pub from_u8 : ℕ → Option PacketType
from_u8 b =
    if b == 0x05
    then some pair_verify_public_key
    else if b == 0x06
    then some pair_verify_continue
    else if b == 0x08
    then some encrypted_data
    else if b == 0x01
    then some finished
    else none

pub record ContinuityPacket : Type 0 where
  pub ptype : PacketType
  pub body : List ℕ

unfoldable pub header : PacketType → ℕ → Result Error (List ℕ)
header p n =
    if leb n 0xffffff
    then ok (code p ∷ (n / 65536 % 256) ∷ (n / 256 % 256) ∷ (n % 256) ∷ [])
    else err body_too_long

unfoldable pub serialize : ContinuityPacket → Result Error (List ℕ)
serialize p = header p.ptype (length p.body) >>= λ h. ok (h ++ p.body)

-- `(header[1] << 16) | (header[2] << 8) | header[3]`
abbrev pub wire_length : ℕ → ℕ → ℕ → ℕ
wire_length a b c = a * 65536 + b * 256 + c

unfoldable pub parse : List ℕ → Result Error ContinuityPacket
parse (t ∷ a ∷ b ∷ c ∷ body) = do
  ptype ← context (from_u8 t) unknown_type
  ensure (4 + length body == 4 + wire_length a b c) length_mismatch
  ok (record { ptype = ptype; body = body })
parse _ = err short_header

-- `MAX_PACKET_BODY` of src/companion_client.rs
abbrev pub max_packet_body : ℕ
max_packet_body = 4194304

-- `read_exact` on a stream whose bytes are all there.
unfoldable pub read_exact : ℕ → List ℕ → Result Error (List ℕ × List ℕ)
read_exact n s = if leb n (length s) then ok (take n s, drop n s) else err end_of_stream

abbrev pub is_encrypted : PacketType → Bool
is_encrypted encrypted_data = true
is_encrypted pair_verify_public_key = false
is_encrypted pair_verify_continue = false
is_encrypted finished = false

-- `read_packet_inner`: a packet from the head of the stream, and the rest of the stream.
unfoldable pub read_packet : List ℕ → Result Error (ContinuityPacket × List ℕ)
unfolding read_exact
read_packet (t ∷ a ∷ b ∷ c ∷ rest) = do
  ptype ← context (from_u8 t) unknown_type
  let n = wire_length a b c
  if is_encrypted ptype && ltb n 16 then err tag_missing else ok tt
  if ltb max_packet_body n then err over_cap else ok tt
  (body, left) ← read_exact n rest
  ok (record { ptype = ptype; body = body }, left)
read_packet _ = err end_of_stream

-- `opack::decode(..)?` among the errors of the Companion link.
abbrev pub opack_decode : List ℕ → Result Error Value
opack_decode bs = elim (decode bs) [ ok v ↦ ok v | err e ↦ err (opack e) ]

unfoldable pub pairing_tlv : ContinuityPacket → Result Error Tlv8
pairing_tlv p = do
  dict ← opack_decode p.body
  value ← context (get dict "_pd") missing_pd
  pd ← context (as_bytes value) missing_pd
  ok (Tlv8.decode pd)

unfoldable pub wrap_pairing_data : Tlv8 → List ℕ
wrap_pairing_data tlv = encode (dict_of (("_pd", bytes (Tlv8.encode tlv)) ∷ []))
