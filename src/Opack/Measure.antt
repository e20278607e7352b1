-- ===== src/Opack/Measure.antt =====
-- What bounds a value: its nodes, its height, the decoder's charges for it, and the ranges that
-- the types of the source give its parts.
use adhoc_cross_device_conne.Prelude.{ℕ, suc, ◌+◌, ◌*◌, ◌≡◌, max, true, length, All}
use adhoc_cross_device_conne.Prelude.Bytes.{IsByte, IsU64}
use adhoc_cross_device_conne.Prelude.Utf8.{valid_utf8}
use adhoc_cross_device_conne.Opack.{
  Value, null, float, uuid, time, bool, int, str, bytes, array, dict, Items, nil, cons, Pairs, end,
  pair,
}

-- The fields of each variant lie in the range of their Rust type.
abbrev mutual
  pub IsWellFormed : Value → Type 0
  IsWellFormed null = Unit
  IsWellFormed (float v) = IsU64 v
  IsWellFormed (uuid b) = All IsByte b × (length b ≡ 16)
  IsWellFormed (time v) = IsU64 v
  IsWellFormed (bool b) = Unit
  IsWellFormed (int v) = IsU64 v
  IsWellFormed (str s) = All IsByte s × (valid_utf8 s ≡ true)
  IsWellFormed (bytes b) = All IsByte b
  IsWellFormed (array vs) = IsWellFormedItems vs
  IsWellFormed (dict ps) = IsWellFormedPairs ps

  pub IsWellFormedItems : Items → Type 0
  IsWellFormedItems nil = Unit
  IsWellFormedItems (cons v vs) = IsWellFormed v × IsWellFormedItems vs

  pub IsWellFormedPairs : Pairs → Type 0
  IsWellFormedPairs end = Unit
  IsWellFormedPairs (pair k v ps) = IsWellFormed k × IsWellFormed v × IsWellFormedPairs ps

-- The number of values in a value, itself included.
unfoldable mutual
  pub nodes : Value → ℕ
  nodes (array vs) = suc (nodes_items vs)
  nodes (dict ps) = suc (nodes_pairs ps)
  nodes _ = 1

  pub nodes_items : Items → ℕ
  nodes_items nil = 0
  nodes_items (cons v vs) = nodes v + nodes_items vs

  pub nodes_pairs : Pairs → ℕ
  nodes_pairs end = 0
  nodes_pairs (pair k v ps) = nodes k + nodes v + nodes_pairs ps

-- How many containers enclose the innermost value.
unfoldable mutual
  pub height : Value → ℕ
  height (array vs) = height_items vs
  height (dict ps) = height_pairs ps
  height _ = 0

  pub height_items : Items → ℕ
  height_items nil = 0
  height_items (cons v vs) = max (suc (height v)) (height_items vs)

  pub height_pairs : Pairs → ℕ
  height_pairs end = 0
  height_pairs (pair k v ps) = max (max (suc (height k)) (suc (height v))) (height_pairs ps)

-- What the decoder charges for a string or data beyond the 32 for each object.
unfoldable pub extra : Value → ℕ
extra (str s) = length s * 2
extra (bytes b) = length b * 2
extra _ = 0

unfoldable mutual
  unfolding extra

  pub cost : Value → ℕ
  cost (array vs) = 32 + cost_items vs
  cost (dict ps) = 32 + cost_pairs ps
  cost v = 32 + extra v

  pub cost_items : Items → ℕ
  cost_items nil = 0
  cost_items (cons v vs) = cost v + cost_items vs

  pub cost_pairs : Pairs → ℕ
  cost_pairs end = 0
  cost_pairs (pair k v ps) = cost k + cost v + cost_pairs ps

-- The fuel that `parse` uses on the encoding.
unfoldable mutual
  pub need : Value → ℕ
  need (array vs) = 2 + need_items vs
  need (dict ps) = 2 + need_pairs ps
  need _ = 2

  pub need_items : Items → ℕ
  need_items nil = 1
  need_items (cons v vs) = suc (max (need v) (need_items vs))

  pub need_pairs : Pairs → ℕ
  need_pairs end = 1
  need_pairs (pair k v ps) = suc (max (max (need k) (need v)) (need_pairs ps))
