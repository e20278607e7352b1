-- ===== src/Opack/Decode.antt =====
-- `decode` and `Decoder` of src/opack.rs. A decoder keeps `data[pos..]` in place of `data` and
-- `pos`, which only grows. Fuel bounds the depth of calls; `stuck` says that it ran out.
use adhoc_cross_device_conne.Prelude.{
  ℕ, zero, suc, ◌+◌, ◌-◌, ◌*◌, ◌/◌, ◌%◌, ◌^◌, Bool, true, false, ◌&&◌, ◌||◌, not, Option, none,
  some, List, [], ◌∷◌, ◌++◌, ltb, leb, ◌==◌, in_range, if◌then◌else◌, length, take, drop, get_elem?,
}
use adhoc_cross_device_conne.Prelude.Bytes.{from_le}
use adhoc_cross_device_conne.Prelude.Utf8.{valid_utf8}
use adhoc_cross_device_conne.Prelude.Result.{Result, ok, err}
use adhoc_cross_device_conne.Prelude.Exec.{Exec, ◌>>=◌, ◌>>◌, pure, fail, require}
use adhoc_cross_device_conne.Opack.{
  Value, null, float, uuid, time, bool, int, str, bytes, array, dict, Items, nil, cons, Pairs, end,
  pair,
}
use adhoc_cross_device_conne.Opack.Equality.{contains}

pub data Error : Type 0 where
  input_too_long trailing_bytes unexpected_end allocation_limit nesting_limit data_limit : Error
  bad_utf8 invalid_reference unsupported_tag stuck : Error

pub record Decoder : Type 0 where
  pub rest : List ℕ
  pub objects : List Value
  pub count : ℕ
  pub budget : ℕ

abbrev pub M {ℓ} : Type ℓ → Type ℓ
M A = Exec Error Decoder A

-- `take(n)`
unfoldable pub take_bytes : ℕ → M (List ℕ)
take_bytes n d =
    if leb n (length d.rest)
    then ok (take n d.rest, record d { rest = drop n d.rest })
    else err unexpected_end

unfoldable pub number : ℕ → M ℕ
number n = do bs ← take_bytes n; pure (from_le bs)

-- `checked_sub`
unfoldable pub charge : ℕ → M (Unit {0})
charge n d =
    if leb n d.budget then ok (tt, record d { budget = d.budget - n }) else err allocation_limit

-- The head of `parse`: the object count and the two limits, the fixed charge and the tag.
unfoldable pub count_object : ℕ → M (Unit {0})
count_object depth d =
    if leb depth 64 && leb (d.count + 1) 65536
    then ok (tt, record d { count = d.count + 1 })
    else err nesting_limit

unfoldable pub enter : ℕ → M ℕ
enter depth = do count_object depth; charge 32; bs ← take_bytes 1; pure (from_le bs)

-- `f32::from_bits(b) as f64`, on bits: zeros, infinities and NaNs (made quiet) keep their sign,
-- and a subnormal is normalised by its highest bit.
unfoldable pub top_bit : ℕ → ℕ → ℕ
top_bit zero m = 0
top_bit (suc p) m = let below = top_bit p m in if leb (2 ^ suc p) m then suc p else below

unfoldable pub widen : ℕ → ℕ
unfolding top_bit
widen b =
    let sign = b / 2 ^ 31 * 2 ^ 63 in
    let e = b / 2 ^ 23 % 256 in
    let m = b % 2 ^ 23 in
    let p = top_bit 22 m in
    if e == 255
    then if m == 0
      then sign + 2047 * 2 ^ 52
      else if leb (2 ^ 22) m
      then sign + 2047 * 2 ^ 52 + m * 2 ^ 29
      else sign + 2047 * 2 ^ 52 + 2 ^ 51 + m * 2 ^ 29
    else if e == 0
    then if m == 0 then sign else sign + (p + 874) * 2 ^ 52 + (m - 2 ^ p) * 2 ^ (52 - p)
    else sign + (e + 896) * 2 ^ 52 + m * 2 ^ 29

-- The length that a string or data tag announces, inline in the tag or in the bytes after it.
unfoldable pub str_length : ℕ → M ℕ
str_length t d = if leb t 0x60 then ok (t - 0x40, d) else number (t - 0x60) d

unfoldable pub bytes_length : ℕ → M ℕ
bytes_length t d = if leb t 0x90 then ok (t - 0x70, d) else number (2 ^ (t - 0x91)) d

unfoldable pub reference_index : ℕ → M ℕ
reference_index t d = if leb t 0xc0 then ok (t - 0xa0, d) else number (t - 0xc0) d

unfoldable pub string : ℕ → M Value
unfolding str_length
string t = do
  n ← str_length t
  charge (n * 2)
  s ← take_bytes n
  require (valid_utf8 s) bad_utf8
  pure (str s)

unfoldable pub blob : ℕ → M Value
unfolding bytes_length
blob t = do
  n ← bytes_length t
  require (leb n (4 * 1024 * 1024)) data_limit
  charge (n * 2)
  b ← take_bytes n
  pure (bytes b)

unfoldable pub object_size : Value → ℕ
object_size (str s) = length s
object_size (bytes b) = length b
object_size _ = 16

unfoldable pub get_object : ℕ → M Value
get_object i d = elim (get_elem? d.objects i) [ none ↦ err invalid_reference | some o ↦ ok (o, d) ]

unfoldable pub reference : ℕ → M Value
unfolding reference_index object_size get_object
reference t = do i ← reference_index t; o ← get_object i; charge (object_size o); pure o

-- The arms of `match t` that make no recursive call.
unfoldable pub scalar : ℕ → M Value
scalar t =
    if t == 1
    then pure (bool true)
    else if t == 2
    then pure (bool false)
    else if t == 4
    then pure null
    else if t == 5
    then (do b ← take_bytes 16; pure (uuid b))
    else if t == 6
    then (do v ← number 8; pure (time v))
    else if in_range 8 0x2f t
    then pure (int (t - 8))
    else if in_range 0x30 0x33 t
    then (do v ← number (2 ^ (t - 0x30)); pure (int v))
    else if t == 0x35
    then (do b ← number 4; pure (float (widen b)))
    else if t == 0x36
    then (do b ← number 8; pure (float b))
    else if in_range 0x40 0x64 t
    then string t
    else if in_range 0x70 0x94 t
    then blob t
    else if in_range 0xa0 0xc4 t
    then reference t
    else fail unsupported_tag

-- `remember`: the arms that leave it set.
unfoldable pub remembers : ℕ → Bool
remembers t =
    t == 5 || (t == 6 || (in_range 0x30 0x36 t || (in_range 0x40 0x64 t || in_range 0x70 0x94 t)))

unfoldable pub remember : ℕ → Value → M Value
unfolding remembers
remember t v d =
    if remembers t && not (contains d.objects v)
    then ok (v, record d { objects = d.objects ++ (v ∷ []) })
    else ok (v, d)

-- The tests at the head of each round of the loops over a container's members: it ends at the
-- announced count, or, for count 15, at a terminator, which is skipped.
unfoldable pub closes : ℕ → ℕ → Decoder → Option Decoder
closes n done d =
    if ltb n 15 && done == n
    then some d
    else if n == 15
    then elim d.rest [ [] ↦ none | b ∷ bs ↦ if b == 3 then some (record d { rest = bs }) else none ]
    else none

unfoldable mutual
  -- `parse(depth)`
  pub parse : ℕ → ℕ → M Value
  parse zero depth d = err stuck
  parse (suc f) depth d = (do t ← enter depth; v ← body f depth t; remember t v) d

  -- The arm of `match t` for the tag `t`.
  pub body : ℕ → ℕ → ℕ → M Value
  body zero depth t d = err stuck
  body (suc f) depth t d =
      let an_array = (do vs ← items f depth (t % 16) 0; pure (array vs)) d in
      let a_dict = (do ps ← pairs f depth (t % 16) 0; pure (dict ps)) d in
      if in_range 0xd0 0xdf t then an_array else if in_range 0xe0 0xef t then a_dict else scalar t d

  -- The members that are still to come after `done` of them.
  pub items : ℕ → ℕ → ℕ → ℕ → M Items
  items zero depth n done d = err stuck
  items (suc f) depth n done d = elim (closes n done d) [
    | some d' ↦ ok (nil, d')
    | none ↦ (do v ← parse f (depth + 1); vs ← items f depth n (done + 1); pure (cons v vs)) d
  ]

  pub pairs : ℕ → ℕ → ℕ → ℕ → M Pairs
  pairs zero depth n done d = err stuck
  pairs (suc f) depth n done d = elim (closes n done d) [
    | some d' ↦ ok (end, d')
    | none ↦
        (do
          k ← parse f (depth + 1)
          v ← parse f (depth + 1)
          ps ← pairs f depth n (done + 1)
          pure (pair k v ps))
          d
  ]

-- Each call takes a byte or goes from a loop to `parse` to `body`: 3 units of fuel a byte.
abbrev pub fuel_for : List ℕ → ℕ
fuel_for bs = 3 * length bs + 2

abbrev pub start : List ℕ → Decoder
start bs = record { rest = bs; objects = []; count = 0; budget = 16 * 1024 * 1024 }

unfoldable pub decode : List ℕ → Result Error Value
decode bs =
    if leb (length bs) (4 * 1024 * 1024)
    then elim (parse (fuel_for bs) 0 (start bs)) [
      | err e ↦ err e
      | ok (v, d) ↦ elim d.rest [ [] ↦ ok v | b ∷ r ↦ err trailing_bytes ]
    ]
    else err input_too_long
