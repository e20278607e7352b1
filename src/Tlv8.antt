-- ===== src/Tlv8.antt =====
-- src/tlv8.rs: TLV8 items and their wire form. `Tlv8` is its list of items.
pub mod Merge
pub mod RoundTrip
pub mod Sizes
use adhoc_cross_device_conne.Prelude.{
  ℕ, zero, suc, ◌%◌, Bool, true, false, List, [], ◌∷◌, ◌++◌, Option, some, none, ◌==◌,
  if◌then◌else◌, length, take, drop, map,
}
use adhoc_cross_device_conne.Prelude.Chunks.{chunks}

abbrev pub Tlv8 : Type 0
Tlv8 = List (ℕ × List ℕ)

abbrev pub push : Tlv8 → ℕ → List ℕ → Tlv8
push items t v = items ++ (t, v) ∷ []

abbrev pub push_u8 : Tlv8 → ℕ → ℕ → Tlv8
push_u8 items t v = push items t (v ∷ [])

encode_chunks : ℕ → List (List ℕ) → List ℕ
encode_chunks t [] = []
encode_chunks t (c ∷ cs) = t ∷ (length c % 256) ∷ (c ++ encode_chunks t cs)

encode_item : ℕ → List ℕ → List ℕ
unfolding encode_chunks
encode_item t [] = t ∷ 0 ∷ []
encode_item t (b ∷ bs) = encode_chunks t (chunks 255 (b ∷ bs))

unfoldable pub encode : Tlv8 → List ℕ
unfolding encode_item
encode [] = []
encode ((t, v) ∷ items) = encode_item t v ++ encode items

-- `match items.last_mut()`: a fragment of the last item's type extends it.
push_fragment : Tlv8 → ℕ → List ℕ → Tlv8
push_fragment [] t p = (t, p) ∷ []
push_fragment ((u, b) ∷ []) t p = if u == t then (u, b ++ p) ∷ [] else (u, b) ∷ (t, p) ∷ []
push_fragment (i ∷ j ∷ r) t p = i ∷ push_fragment (j ∷ r) t p

-- The loop of `decode` over `data[pos..]`. A round takes two bytes at least, so that the length of
-- the data is enough fuel.
decode_loop : ℕ → Tlv8 → List ℕ → Tlv8
decode_loop zero items rest = items
decode_loop (suc f) items [] = items
decode_loop (suc f) items (t ∷ []) = items
decode_loop (suc f) items (t ∷ n ∷ p) = decode_loop f (push_fragment items t (take n p)) (drop n p)

unfoldable pub decode : List ℕ → Tlv8
unfolding decode_loop push_fragment
decode bytes = decode_loop (length bytes) [] bytes

unfoldable pub get : Tlv8 → ℕ → Option (List ℕ)
get [] t = none
get ((u, v) ∷ items) t = if u == t then some v else get items t

unfoldable pub types : Tlv8 → List ℕ
types [] = []
types ((t, v) ∷ items) = t ∷ types items
