-- ===== src/Opack.antt =====
-- src/opack.rs: OPACK values, as Companion messages carry them, and their accessors.
pub mod Encode
pub mod Equality
pub mod Decode
pub mod Measure
pub mod Sizes
mod Steps
mod Leaf
mod Unroll
mod Framing
mod Members
mod Covered
pub mod RoundTrip
mod Widen
mod Ensures
mod Safety
mod Terminates
pub mod Total
use adhoc_cross_device_conne.Prelude.{
  ℕ, Bool, true, false, List, [], ◌∷◌, Option, none, some, bytes_eq, if◌then◌else◌,
}
use adhoc_cross_device_conne.Prelude.Bytes.{codes}
use Prim.Native.String.{String}

-- A `String` is its UTF-8 bytes, and an `f64` its 64 bits. `Vec<Value>` and
-- `Vec<(Value, Value)>` are declared with it.
mutual
  pub data Value : Type 0 where
    null : Value
    float : ℕ → Value
    uuid : List ℕ → Value
    time : ℕ → Value
    bool : Bool → Value
    int : ℕ → Value
    str : List ℕ → Value
    bytes : List ℕ → Value
    array : Items → Value
    dict : Pairs → Value

  pub data Items : Type 0 where
    nil : Items
    cons : Value → Items → Items

  pub data Pairs : Type 0 where
    end : Pairs
    pair : Value → Value → Pairs → Pairs

-- `Value::dict`: the keys are string literals.
abbrev pub pairs_of : List (String × Value) → Pairs
pairs_of [] = end
pairs_of ((k, v) ∷ kvs) = pair (str (codes k)) v (pairs_of kvs)

abbrev pub dict_of : List (String × Value) → Value
dict_of kvs = dict (pairs_of kvs)

-- `matches!(k, Value::Str(s) if s == key)`
is_key : List ℕ → Value → Bool
is_key key (str s) = bytes_eq s key
is_key key null = false
is_key key (float x) = false
is_key key (uuid x) = false
is_key key (time x) = false
is_key key (bool x) = false
is_key key (int x) = false
is_key key (bytes x) = false
is_key key (array x) = false
is_key key (dict x) = false

find_key : List ℕ → Pairs → Option Value
find_key key end = none
find_key key (pair k v ps) = if is_key key k then some v else find_key key ps

unfoldable pub get : Value → String → Option Value
unfolding is_key find_key
get (dict ps) key = find_key (codes key) ps
get null key = none
get (float x) key = none
get (uuid x) key = none
get (time x) key = none
get (bool x) key = none
get (int x) key = none
get (str x) key = none
get (bytes x) key = none
get (array x) key = none

unfoldable pub as_bytes : Value → Option (List ℕ)
as_bytes (bytes b) = some b
as_bytes _ = none

unfoldable pub as_str : Value → Option (List ℕ)
as_str (str s) = some s
as_str _ = none

unfoldable pub as_u64 : Value → Option ℕ
as_u64 (int v) = some v
as_u64 _ = none
