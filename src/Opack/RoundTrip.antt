-- ===== src/Opack/RoundTrip.antt =====
-- src/opack.rs: `decode` behind `encode`.
use adhoc_cross_device_conne.Prelude.{
  ℕ, zero, suc, ◌+◌, ◌-◌, ◌*◌, ◌≤◌, ◌≡◌, List, [], ◌++◌, le→leb, length, length-append, arith,
  append-nil,
}
use adhoc_cross_device_conne.Prelude.Result.{ok}
use adhoc_cross_device_conne.Opack.{
  Value, null, float, uuid, time, bool, int, str, bytes, array, dict, Items, nil, cons, Pairs, end,
  pair,
}
use adhoc_cross_device_conne.Opack.Encode.{
  encode, encode_items, encode_pairs, count_items, count_pairs, length-frame,
}
use adhoc_cross_device_conne.Opack.Decode.{parse, items, pairs, decode, fuel_for, start}
use adhoc_cross_device_conne.Opack.Measure.{
  IsWellFormed, IsWellFormedItems, IsWellFormedPairs, extra, nodes, nodes_items, nodes_pairs,
  height, height_items, height_pairs, cost, cost_items, cost_pairs, need, need_items, need_pairs,
}
use adhoc_cross_device_conne.Opack.Steps.{at}
use adhoc_cross_device_conne.Opack.Unroll.{body_array, body_dict}
use adhoc_cross_device_conne.Opack.Leaf.{
  null_form, float_form, uuid_form, time_form, bool_form, int_form, str_form, bytes_form,
  length-encode_str, length-encode_bytes,
}
use adhoc_cross_device_conne.Opack.Framing.{ClosesWith, encode-Starts, frame_form}
use adhoc_cross_device_conne.Opack.Members.{
  Room, Reads, parse_leaf, parse_container, items_nil, pairs_end, items_cons, pairs_cons,
}
use adhoc_cross_device_conne.Opack.Covered.{covered}

abbrev RoomFor : Value → ℕ → ℕ → ℕ → ℕ → Type 0
RoomFor v f depth c b = Room (need v) (height v) (nodes v) (cost v) (length (encode v)) f depth c b

abbrev RoomForItems : Items → ℕ → ℕ → ℕ → ℕ → Type 0
RoomForItems vs f depth c b =
    Room (need_items vs) (height_items vs) (nodes_items vs) (cost_items vs)
      (length (encode_items vs)) f depth c b

abbrev RoomForPairs : Pairs → ℕ → ℕ → ℕ → ℕ → Type 0
RoomForPairs ps f depth c b =
    Room (need_pairs ps) (height_pairs ps) (nodes_pairs ps) (cost_pairs ps)
      (length (encode_pairs ps)) f depth c b

mutual
  unfolding encode nodes height cost need extra count_items count_pairs

  parse-encode :
      (v : Value) (f depth : ℕ) (r : List ℕ) (o : List Value) (c b : ℕ)
      → IsWellFormed v
      → RoomFor v f depth c b
      → Reads v f depth r o c b
  parse-encode null f depth r o c b w h = parse_leaf _ _ _ null_form f depth r o c b (omega arith)
  parse-encode (float x) f depth r o c b w h =
      parse_leaf _ _ _ (float_form x w) f depth r o c b (omega arith)
  parse-encode (uuid x) f depth r o c b w h =
      parse_leaf _ _ _ (uuid_form x w.1) f depth r o c b (omega arith)
  parse-encode (time x) f depth r o c b w h =
      parse_leaf _ _ _ (time_form x w) f depth r o c b (omega arith)
  parse-encode (bool x) f depth r o c b w h =
      parse_leaf _ _ _ (bool_form x) f depth r o c b (omega arith)
  parse-encode (int x) f depth r o c b w h =
      parse_leaf _ _ _ (int_form x w) f depth r o c b (omega arith)
  parse-encode (str x) f depth r o c b w h =
      parse_leaf _ _ _ (str_form x w.1 (omega (arith, length-encode_str x))) f depth r o c b
        (omega arith)
  parse-encode (bytes x) f depth r o c b w h =
      parse_leaf _ _ _ (bytes_form x (omega (arith, length-encode_bytes x))) f depth r o c b
        (omega arith)
  parse-encode (array vs) zero depth r o c b w h = absurd (omega arith)
  parse-encode (array vs) (suc zero) depth r o c b w h = absurd (omega arith)
  parse-encode (array vs) (suc (suc f)) depth r o c b w h =
      let fr = frame_form 0xd0 (count_items vs) (encode_items vs) in
      let (o', q) =
        items-encode vs f depth fr.k 0 _ fr.closing r o (c + 1) (b - 32) w
          (omega (arith, length-frame 0xd0 (count_items vs) (encode_items vs))) (omega arith)
          fr.closes_at in
      parse_container 0xd0 (count_items vs) (encode_items vs) _ (array vs) fr f depth
        (nodes_items vs) (cost_items vs) r o o' c b (omega arith)
        (body_array f depth _ fr.k vs _ fr.k_small q)
  parse-encode (dict ps) zero depth r o c b w h = absurd (omega arith)
  parse-encode (dict ps) (suc zero) depth r o c b w h = absurd (omega arith)
  parse-encode (dict ps) (suc (suc f)) depth r o c b w h =
      let fr = frame_form 0xe0 (count_pairs ps) (encode_pairs ps) in
      let (o', q) =
        pairs-encode ps f depth fr.k 0 _ fr.closing r o (c + 1) (b - 32) w
          (omega (arith, length-frame 0xe0 (count_pairs ps) (encode_pairs ps))) (omega arith)
          fr.closes_at in
      parse_container 0xe0 (count_pairs ps) (encode_pairs ps) _ (dict ps) fr f depth
        (nodes_pairs ps) (cost_pairs ps) r o o' c b (omega arith)
        (body_dict f depth _ fr.k ps _ fr.k_small q)

  items-encode :
      (vs : Items) (f depth n done total : ℕ) (e r : List ℕ) (o : List Value) (c b : ℕ)
      → IsWellFormedItems vs
      → RoomForItems vs f depth c b
      → total ≡ done + count_items vs
      → ClosesWith n total e
      → (o' : List Value) × (items f depth n done (at (encode_items vs ++ (e ++ r)) o c b)
          ≡ ok (vs, at r o' (c + nodes_items vs) (b - cost_items vs)))
  items-encode nil zero depth n done total e r o c b w h t k = absurd (omega arith)
  items-encode nil (suc f) depth n done total e r o c b w h t k =
      let t' : total ≡ done = omega arith in (o, items_nil f depth n done e r o c b (rw t' at k))
  items-encode (cons v vs) zero depth n done total e r o c b w h t k = absurd (omega arith)
  items-encode (cons v vs) (suc f) depth n done total e r o c b w h t k =
      let len = length-append (encode v) (encode_items vs) in
      let (o1, q1) =
        parse-encode v f (depth + 1) (encode_items vs ++ (e ++ r)) o c b w.0 (omega (arith, len)) in
      let (o2, q2) =
        items-encode vs f depth n (done + 1) total e r o1 (c + nodes v) (b - cost v) w.1
          (omega (arith, len)) (omega arith) k in
      (
        o2,
        items_cons v vs f depth n done total e r o o1 o2 c b
            (encode-Starts v w.0 (omega (arith, len))) t k q1 q2,
      )

  pairs-encode :
      (ps : Pairs) (f depth n done total : ℕ) (e r : List ℕ) (o : List Value) (c b : ℕ)
      → IsWellFormedPairs ps
      → RoomForPairs ps f depth c b
      → total ≡ done + count_pairs ps
      → ClosesWith n total e
      → (o' : List Value) × (pairs f depth n done (at (encode_pairs ps ++ (e ++ r)) o c b)
          ≡ ok (ps, at r o' (c + nodes_pairs ps) (b - cost_pairs ps)))
  pairs-encode end zero depth n done total e r o c b w h t k = absurd (omega arith)
  pairs-encode end (suc f) depth n done total e r o c b w h t k =
      let t' : total ≡ done = omega arith in (o, pairs_end f depth n done e r o c b (rw t' at k))
  pairs-encode (pair x v ps) zero depth n done total e r o c b w h t k = absurd (omega arith)
  pairs-encode (pair x v ps) (suc f) depth n done total e r o c b w h t k =
      let len = length-append (encode x) (encode v ++ encode_pairs ps) in
      let len' = length-append (encode v) (encode_pairs ps) in
      let (o1, q1) =
        parse-encode x f (depth + 1) (encode v ++ (encode_pairs ps ++ (e ++ r))) o c b w.0
          (omega (arith, len, len')) in
      let (o2, q2) =
        parse-encode v f (depth + 1) (encode_pairs ps ++ (e ++ r)) o1 (c + nodes x) (b - cost x) w.1
          (omega (arith, len, len')) in
      let (o3, q3) =
        pairs-encode ps f depth n (done + 1) total e r o2 (c + nodes x + nodes v)
          (b - cost x - cost v) w.2 (omega (arith, len, len')) (omega arith) k in
      (
        o3,
        pairs_cons x v ps f depth n done total e r o o1 o2 o3 c b
            (encode-Starts x w.0 (omega (arith, len, len'))) t k q1 q2 q3,
      )

-- `decode` reads back every value that `encode` writes, provided that its fields are in the ranges
-- of their types, that it has at most 65536 nodes and 64 levels of nesting, and that its encoding
-- is at most 4 MiB long.
pub decode-encode :
    (v : Value)
    → IsWellFormed v
    → nodes v ≤ 65536
    → height v ≤ 64
    → length (encode v) ≤ 4 * 1024 * 1024
    → decode (encode v) ≡ ok v
unfolding decode
decode-encode v w hn hh hl =
    let (o, q) =
      parse-encode v (fuel_for (encode v)) 0 [] [] 0 (16 * 1024 * 1024) w
        (omega (arith, covered v w hl)) in
    let z = append-nil (encode v) in
    let q' : parse (fuel_for (encode v)) 0 (start (encode v))
        ≡ ok (v, at [] o (0 + nodes v) (16 * 1024 * 1024 - cost v)) =
      rw z at q in
    rw (le→leb _ _ hl, q')
