-- ===== src/Companion/Pairing.antt =====
-- src/companion.rs: the pairing data of a packet, TLV8 items in an OPACK dictionary.
use adhoc_cross_device_conne.Prelude.{
  ℕ, ◌+◌, ◌*◌, ◌≤◌, ◌≡◌, refl, List, [], ◌∷◌, some, arith, length, length-append, All,
}
use adhoc_cross_device_conne.Prelude.Bytes.{IsByte}
use adhoc_cross_device_conne.Prelude.Utf8.{valid_utf8}
use adhoc_cross_device_conne.Prelude.Result.{ok}
use adhoc_cross_device_conne.Opack.{Value, bytes, dict_of, get, as_bytes}
use adhoc_cross_device_conne.Opack.Encode.{encode, encode_str, encode_bytes, frame, count_pairs}
use adhoc_cross_device_conne.Opack.Measure.{IsWellFormed, nodes, height}
use adhoc_cross_device_conne.Opack.Sizes.{length-encode_bytes_le}
use adhoc_cross_device_conne.Opack.RoundTrip.{decode-encode}
use adhoc_cross_device_conne.Tlv8
use adhoc_cross_device_conne.Tlv8.{Tlv8}
use adhoc_cross_device_conne.Tlv8.RoundTrip.{NoRuns, decode-encode_distinct}
use adhoc_cross_device_conne.Tlv8.Sizes.{weight, length-encode, AreBytes, encode-IsByte}
use adhoc_cross_device_conne.Companion.{PacketType, opack_decode, pairing_tlv, wrap_pairing_data}

-- The dictionary around pairing data.
abbrev wrapper : List ℕ → Value
wrapper b = dict_of (("_pd", bytes b) ∷ [])

wrapper-IsWellFormed : (b : List ℕ) → All IsByte b → IsWellFormed (wrapper b)
unfolding valid_utf8
wrapper-IsWellFormed b h = (((omega arith, (omega arith, (omega arith, tt))), refl), h, tt)

wrapper-length : (b : List ℕ) → length (encode (wrapper b)) ≤ length b + 20
unfolding encode encode_str frame count_pairs
wrapper-length b = omega (arith, length-encode_bytes_le b, length-append (encode_bytes b) [])

nodes-wrapper : (b : List ℕ) → nodes (wrapper b) ≡ 3
unfolding nodes
nodes-wrapper b = refl

height-wrapper : (b : List ℕ) → height (wrapper b) ≡ 1
unfolding height
height-wrapper b = refl

decode-wrapper :
    (b : List ℕ)
    → All IsByte b
    → length b ≤ 4000000
    → opack_decode (encode (wrapper b)) ≡ ok (wrapper b)
decode-wrapper b h k =
    let n : nodes (wrapper b) ≤ 65536 = omega (arith, nodes-wrapper b) in
    let m : height (wrapper b) ≤ 64 = omega (arith, height-wrapper b) in
    let l : length (encode (wrapper b)) ≤ 4 * 1024 * 1024 = omega (arith, wrapper-length b) in
    rw (opack_decode, decode-encode (wrapper b) (wrapper-IsWellFormed b h) n m l) refl

get-wrapper : (b : List ℕ) → get (wrapper b) "_pd" ≡ some (bytes b)
unfolding get
get-wrapper b = refl

-- Items of which no two neighbours have one type, whose types and values are bytes, and whose
-- weight is at most 4000000 (two for each item and three for each byte of a value), are read
-- back from the packet that wraps them.
pub pairing_tlv-wrap :
    (t : PacketType) (items : Tlv8)
    → NoRuns items
    → AreBytes items
    → weight items ≤ 4000000
    → pairing_tlv (record { ptype = t; body = wrap_pairing_data items }) ≡ ok items
unfolding pairing_tlv wrap_pairing_data as_bytes
pairing_tlv-wrap t items h k w =
    rw
      (
        decode-wrapper (Tlv8.encode items) (encode-IsByte items k)
            (omega (arith, length-encode items)),
        get-wrapper (Tlv8.encode items),
        decode-encode_distinct items h,
      )
      refl
