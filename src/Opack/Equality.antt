-- ===== src/Opack/Equality.antt =====
-- `PartialEq` of `Value`, which `objects.contains` uses: structural, but floats by IEEE 754.
use adhoc_cross_device_conne.Prelude.{
  ℕ, ◌%◌, ◌^◌, Bool, true, false, ◌&&◌, ◌||◌, not, List, [], ◌∷◌, ltb, ◌==◌, bytes_eq,
}
use adhoc_cross_device_conne.Opack.{
  Value, null, float, uuid, time, bool, int, str, bytes, array, dict, Items, nil, cons, Pairs, end,
  pair,
}

-- A NaN, by its bits, equals nothing, and the two zeros are equal.
is_nan : ℕ → Bool
is_nan a = ltb 0x7ff0_0000_0000_0000 (a % 2 ^ 63)

unfoldable pub float_eq : ℕ → ℕ → Bool
unfolding is_nan
float_eq a b =
    not (is_nan a) && (not (is_nan b) && (a == b || (a % 2 ^ 63 == 0 && b % 2 ^ 63 == 0)))

bool_eq : Bool → Bool → Bool
bool_eq true b = b
bool_eq false b = not b

unfoldable mutual
  unfolding float_eq bool_eq

  pub value_eq : Value → Value → Bool
  value_eq null null = true
  value_eq (float a) (float b) = float_eq a b
  value_eq (uuid a) (uuid b) = bytes_eq a b
  value_eq (time a) (time b) = a == b
  value_eq (bool a) (bool b) = bool_eq a b
  value_eq (int a) (int b) = a == b
  value_eq (str a) (str b) = bytes_eq a b
  value_eq (bytes a) (bytes b) = bytes_eq a b
  value_eq (array a) (array b) = items_eq a b
  value_eq (dict a) (dict b) = pairs_eq a b
  value_eq _ _ = false

  pub items_eq : Items → Items → Bool
  items_eq nil nil = true
  items_eq (cons a as') (cons b bs) = value_eq a b && items_eq as' bs
  items_eq _ _ = false

  pub pairs_eq : Pairs → Pairs → Bool
  pairs_eq end end = true
  pairs_eq (pair k v ps) (pair k' v' ps') = value_eq k k' && (value_eq v v' && pairs_eq ps ps')
  pairs_eq _ _ = false

-- `objects.contains(&value)`
unfoldable pub contains : List Value → Value → Bool
contains [] v = false
contains (o ∷ os) v = value_eq o v || contains os v
