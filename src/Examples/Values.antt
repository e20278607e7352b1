-- ===== src/Examples/Values.antt =====
-- OPACK at concrete values.
use adhoc_cross_device_conne.Prelude.{
  ℕ, ◌*◌, ◌≤◌, ◌≡◌, ◌≢◌, refl, true, List, [], ◌∷◌, arith, length, All,
}
use adhoc_cross_device_conne.Prelude.Bytes.{IsByte, le_bytes, from_le}
use adhoc_cross_device_conne.Prelude.Utf8.{valid_utf8}
use adhoc_cross_device_conne.Prelude.Result.{ok, err}
use adhoc_cross_device_conne.Opack.{
  Value, int, bool, str, array, dict, nil, cons, end, pair, dict_of,
}
use adhoc_cross_device_conne.Opack.Encode.{
  encode, encode_int, encode_str, frame, count_items, count_pairs,
}
use adhoc_cross_device_conne.Opack.Equality.{value_eq, contains}
use adhoc_cross_device_conne.Opack.Decode.{
  decode, stuck, parse, enter, charge, count_object, take_bytes, scalar, string, number, str_length,
  remember, closes,
}
use adhoc_cross_device_conne.Opack.Measure.{IsWellFormed, nodes, height}
use adhoc_cross_device_conne.Opack.RoundTrip.{decode-encode}
use adhoc_cross_device_conne.Opack.Total.{decode-ne-stuck, decode_limits}

abbrev settings : Value
settings = dict_of (("pf", int 266256) ∷ ("on", array (cons (bool true) (cons (int 7) nil))) ∷ [])

settings-IsWellFormed : IsWellFormed settings
unfolding valid_utf8
settings-IsWellFormed = (
  ((omega arith, (omega arith, tt)), refl),
  omega arith,
  (((omega arith, (omega arith, tt)), refl), (tt, (omega arith, tt)), tt),
)

nodes-settings : nodes settings ≤ 65536
unfolding nodes
nodes-settings = omega arith

height-settings : height settings ≤ 64
unfolding height
height-settings = omega arith

length-settings : length (encode settings) ≤ 4 * 1024 * 1024
unfolding encode encode_int encode_str frame count_items count_pairs le_bytes
length-settings = omega arith

decode-encode_example : decode (encode settings) ≡ ok settings
decode-encode_example =
    decode-encode settings settings-IsWellFormed nodes-settings height-settings length-settings

-- A dictionary with one text key, as a device sends it.
abbrev flags : List ℕ
flags = 0xe1 ∷ 0x42 ∷ 0x70 ∷ 0x66 ∷ 0x32 ∷ 0x10 ∷ 0x10 ∷ 0x04 ∷ 0x00 ∷ []

abbrev flags_value : Value
flags_value = dict (pair (str (0x70 ∷ 0x66 ∷ [])) (int 266256) end)

flags-IsByte : All IsByte flags
flags-IsByte = (
  omega arith,
  (
    omega arith,
    (
      omega arith,
      (omega arith, (omega arith, (omega arith, (omega arith, (omega arith, (omega arith, tt)))))),
    ),
  ),
)

decode-flags : decode flags ≡ ok flags_value
unfolding decode parse enter charge count_object take_bytes from_le scalar str_length string number
    remember closes contains valid_utf8 value_eq
decode-flags = refl

decode-ne-stuck_example : decode flags ≢ err stuck
decode-ne-stuck_example = decode-ne-stuck flags flags-IsByte

decode_limits_example :
    IsWellFormed flags_value
    × (nodes flags_value ≤ 65536)
    × (height flags_value ≤ 64)
    × (length flags ≤ 4 * 1024 * 1024)
decode_limits_example = decode_limits flags flags_value flags-IsByte decode-flags
