-- ===== src/Opack/Covered.antt =====
-- src/opack.rs: the decoder's fuel and budget against the length of an encoding.
use adhoc_cross_device_conne.Prelude.{ℕ, ◌+◌, ◌*◌, ◌≤◌, List, ◌++◌, length, length-append, arith}
use adhoc_cross_device_conne.Opack.{
  Value, null, float, uuid, time, bool, int, str, bytes, array, dict, Items, nil, cons, Pairs, end,
  pair,
}
use adhoc_cross_device_conne.Opack.Encode.{
  encode, encode_items, encode_pairs, count_items, count_pairs, length-frame,
}
use adhoc_cross_device_conne.Opack.Measure.{
  IsWellFormed, IsWellFormedItems, IsWellFormedPairs, extra, nodes, nodes_items, nodes_pairs, cost,
  cost_items, cost_pairs, need, need_items, need_pairs,
}
use adhoc_cross_device_conne.Opack.Leaf.{
  IsLeaf, null_form, float_form, uuid_form, time_form, bool_form, int_form, str_form, bytes_form,
  length-encode_str, length-encode_bytes,
}

-- The charges and the fuel are bounded by the length of the encoding and the number of values.
pub record IsCovered (k m x l : ℕ) : Type 0 where
  pub fuel : k ≤ 3 * l
  pub charges : x ≤ 32 * m + 2 * l
  pub some_bytes : 1 ≤ l

pub leaf-IsCovered :
    (e : List ℕ) (v : Value) (x : ℕ) → IsLeaf e v x → IsCovered 2 1 (32 + x) (length e)
leaf-IsCovered e v x l = rw l.encoded (omega (arith, l.charged))

pub record AreCovered (k m x l : ℕ) : Type 0 where
  pub fuel : k ≤ 3 * l + 1
  pub charges : x ≤ 32 * m + 2 * l

mutual
  unfolding encode nodes cost need extra

  pub covered :
      (v : Value)
      → IsWellFormed v
      → length (encode v) ≤ 4 * 1024 * 1024
      → IsCovered (need v) (nodes v) (cost v) (length (encode v))
  covered null w h = leaf-IsCovered _ _ _ null_form
  covered (float x) w h = leaf-IsCovered _ _ _ (float_form x w)
  covered (uuid x) w h = leaf-IsCovered _ _ _ (uuid_form x w.1)
  covered (time x) w h = leaf-IsCovered _ _ _ (time_form x w)
  covered (bool x) w h = leaf-IsCovered _ _ _ (bool_form x)
  covered (int x) w h = leaf-IsCovered _ _ _ (int_form x w)
  covered (str x) w h = leaf-IsCovered _ _ _ (str_form x w.1 (omega (arith, length-encode_str x)))
  covered (bytes x) w h = leaf-IsCovered _ _ _ (bytes_form x (omega (arith, length-encode_bytes x)))
  covered (array vs) w h =
      let l = length-frame 0xd0 (count_items vs) (encode_items vs) in
      omega (arith, l, covered_items vs w (omega (arith, l)))
  covered (dict ps) w h =
      let l = length-frame 0xe0 (count_pairs ps) (encode_pairs ps) in
      omega (arith, l, covered_pairs ps w (omega (arith, l)))

  pub covered_items :
      (vs : Items)
      → IsWellFormedItems vs
      → length (encode_items vs) ≤ 4 * 1024 * 1024
      → AreCovered (need_items vs) (nodes_items vs) (cost_items vs) (length (encode_items vs))
  covered_items nil w h = omega arith
  covered_items (cons v vs) w h =
      let l = length-append (encode v) (encode_items vs) in
      omega (arith, l, covered v w.0 (omega (arith, l)), covered_items vs w.1 (omega (arith, l)))

  pub covered_pairs :
      (ps : Pairs)
      → IsWellFormedPairs ps
      → length (encode_pairs ps) ≤ 4 * 1024 * 1024
      → AreCovered (need_pairs ps) (nodes_pairs ps) (cost_pairs ps) (length (encode_pairs ps))
  covered_pairs end w h = omega arith
  covered_pairs (pair x v ps) w h =
      let l = length-append (encode x) (encode v ++ encode_pairs ps) in
      let l' = length-append (encode v) (encode_pairs ps) in
      omega (
        arith,
        l,
        l',
        covered x w.0 (omega (arith, l, l')),
        covered v w.1 (omega (arith, l, l')),
        covered_pairs ps w.2 (omega (arith, l, l')),
      )
