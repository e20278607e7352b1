-- ===== src/Opack/Encode.antt =====
-- `encode` of src/opack.rs. `encode_into` only appends to its output, so each function here
-- returns the bytes that it appends.
use adhoc_cross_device_conne.Prelude.{
  ℕ, suc, ◌+◌, ◌%◌, true, false, List, [], ◌∷◌, ◌++◌, ◌≤◌, ltb, leb, length, length-append,
  if◌then◌else◌, Bool-cases, inl, inr, arith,
}
use adhoc_cross_device_conne.Prelude.Bytes.{le_bytes}
use adhoc_cross_device_conne.Opack.{
  Value, null, float, uuid, time, bool, int, str, bytes, array, dict, Items, nil, cons, Pairs, end,
  pair,
}

unfoldable pub encode_int : ℕ → List ℕ
encode_int v =
    if ltb v 0x28
    then (v % 256 + 8) ∷ []
    else if leb v 0xff
    then 0x30 ∷ le_bytes 1 v
    else if leb v 0xffff
    then 0x31 ∷ le_bytes 2 v
    else if leb v 0xffff_ffff
    then 0x32 ∷ le_bytes 4 v
    else 0x33 ∷ le_bytes 8 v

str_width : ℕ → ℕ
str_width n = if leb n 255 then 1 else if leb n 65535 then 2 else if leb n 0xffffff then 3 else 4

unfoldable pub encode_str : List ℕ → List ℕ
unfolding str_width
encode_str s =
    let n = length s in
    if leb n 32
    then (0x40 + n % 256) ∷ s
    else (0x60 + str_width n) ∷ (le_bytes (str_width n) n ++ s)

unfoldable pub encode_bytes : List ℕ → List ℕ
encode_bytes b =
    let n = length b in
    if leb n 32
    then (0x70 + n % 256) ∷ b
    else if leb n 255
    then 0x91 ∷ (le_bytes 1 n ++ b)
    else if leb n 65535
    then 0x92 ∷ (le_bytes 2 n ++ b)
    else if leb n 0xffff_ffff
    then 0x93 ∷ (le_bytes 4 n ++ b)
    else 0x94 ∷ (le_bytes 8 n ++ b)

-- `items.len()`, `pairs.len()`
unfoldable pub count_items : Items → ℕ
count_items nil = 0
count_items (cons v vs) = suc (count_items vs)

unfoldable pub count_pairs : Pairs → ℕ
count_pairs end = 0
count_pairs (pair k v ps) = suc (count_pairs ps)

-- The tag and the terminator of a container with `n` members, around the members' bytes.
unfoldable pub frame : ℕ → ℕ → List ℕ → List ℕ
frame base n body =
    if ltb n 0x0f then (base + n % 256) ∷ body else (base + 0x0f) ∷ (body ++ 0x03 ∷ [])

pub length-frame : (base n : ℕ) (p : List ℕ) → length p + 1 ≤ length (frame base n p)
unfolding frame
length-frame base n p = elim (Bool-cases (ltb n 0x0f)) [
  | inl e ↦ rw e (omega arith)
  | inr e ↦ rw e (omega (arith, length-append p (3 ∷ [])))
]

unfoldable mutual
  pub encode : Value → List ℕ
  encode null = 4 ∷ []
  encode (float v) = 0x36 ∷ le_bytes 8 v
  encode (uuid v) = 5 ∷ v
  encode (time v) = 6 ∷ le_bytes 8 v
  encode (bool true) = 0x01 ∷ []
  encode (bool false) = 0x02 ∷ []
  encode (int v) = encode_int v
  encode (str s) = encode_str s
  encode (bytes b) = encode_bytes b
  encode (array items) = frame 0xd0 (count_items items) (encode_items items)
  encode (dict pairs) = frame 0xe0 (count_pairs pairs) (encode_pairs pairs)

  pub encode_items : Items → List ℕ
  encode_items nil = []
  encode_items (cons v vs) = encode v ++ encode_items vs

  pub encode_pairs : Pairs → List ℕ
  encode_pairs end = []
  encode_pairs (pair k v ps) = encode k ++ (encode v ++ encode_pairs ps)
