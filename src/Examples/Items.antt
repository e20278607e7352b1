-- ===== src/Examples/Items.antt =====
-- TLV8 at concrete items.
use adhoc_cross_device_conne.Prelude.{ℕ, ◌≡◌, refl, List, [], ◌∷◌}
use adhoc_cross_device_conne.Tlv8.{Tlv8, encode, decode}
use adhoc_cross_device_conne.Tlv8.Merge.{Fragments, group, decode_lem}
use adhoc_cross_device_conne.Tlv8.RoundTrip.{decode-encode-group, decode-encode_distinct}

abbrev two_halves : Tlv8
two_halves = (3, 1 ∷ 2 ∷ []) ∷ (3, 4 ∷ []) ∷ (6, 1 ∷ []) ∷ []

decode-encode-group_example : decode (encode two_halves) ≡ group two_halves
decode-encode-group_example = decode-encode-group two_halves

abbrev distinct : Tlv8
distinct = (3, 1 ∷ 2 ∷ []) ∷ (6, 1 ∷ []) ∷ []

decode-encode_distinct_example : decode (encode distinct) ≡ distinct
decode-encode_distinct_example = decode-encode_distinct distinct (refl, tt)

-- The second item's length is more than is left.
abbrev cut_short : List ℕ
cut_short = 3 ∷ 1 ∷ 9 ∷ 5 ∷ 4 ∷ 7 ∷ []

decode_lem_example : (r : Tlv8) × Fragments cut_short r × (decode cut_short ≡ group r)
decode_lem_example = decode_lem cut_short
