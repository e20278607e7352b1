-- ===== src/Opack/Steps.antt =====
-- What the steps of the decoder do on input that the encoder writes.
use adhoc_cross_device_conne.Prelude.{
  ℕ, ◌+◌, ◌-◌, ◌*◌, ◌^◌, ◌≤◌, ◌<◌, ◌≡◌, refl, Bool, true, false, List, [], ◌∷◌, ◌++◌, length,
  length-append, take-append, drop-append, arith, if◌then◌else◌,
}
use adhoc_cross_device_conne.Prelude.Bytes.{le_bytes, from_le, length-le_bytes, from_le-le_bytes}
use adhoc_cross_device_conne.Prelude.Utf8.{valid_utf8}
use adhoc_cross_device_conne.Prelude.Result.{Result, ok}
use adhoc_cross_device_conne.Opack.{Value, float, uuid, time, int, str, bytes}
use adhoc_cross_device_conne.Opack.Decode.{
  Error, Decoder, take_bytes, number, charge, count_object, enter, string, blob, scalar, remember,
  str_length, bytes_length,
}

abbrev pub at : List ℕ → List Value → ℕ → ℕ → Decoder
at rest objects count budget = record {
  rest = rest;
  objects = objects;
  count = count;
  budget = budget;
}

module _ (r : List ℕ) (o : List Value) (c b : ℕ) where
  pub take_bytes_lem :
      (n : ℕ) (xs : List ℕ)
      → length xs ≡ n
      → take_bytes n (at (xs ++ r) o c b) ≡ ok (xs, at r o c b)
  unfolding take_bytes
  take_bytes_lem n xs e = ground (arith, e, length-append xs r, take-append xs r, drop-append xs r)

  pub number_lem :
      (n v : ℕ) → v < 256 ^ n → number n (at (le_bytes n v ++ r) o c b) ≡ ok (v, at r o c b)
  unfolding number
  number_lem n v h =
      ground (arith, take_bytes_lem n (le_bytes n v) (length-le_bytes n v), from_le-le_bytes n v h)

  pub charge_lem : (n : ℕ) → n ≤ b → charge n (at r o c b) ≡ ok (tt, at r o c (b - n))
  unfolding charge
  charge_lem n h = ground arith

scalar-blob : (t : ℕ) (d : Decoder) → 0x70 ≤ t → t ≤ 0x94 → scalar t d ≡ blob t d
unfolding scalar
scalar-blob t d h k = ground arith

scalar-string : (t : ℕ) (d : Decoder) → 0x40 ≤ t → t ≤ 0x64 → scalar t d ≡ string t d
unfolding scalar
scalar-string t d h k = ground arith

str_length_short : (n : ℕ) (d : Decoder) → n ≤ 32 → str_length (0x40 + n) d ≡ ok (n, d)
unfolding str_length
str_length_short n d h = ground arith

str_length_long : (w : ℕ) (d : Decoder) → 1 ≤ w → str_length (0x60 + w) d ≡ number w d
unfolding str_length
str_length_long w d h = let e : 0x60 + w - 0x60 ≡ w = omega arith in ground (arith, e)

bytes_length_short : (n : ℕ) (d : Decoder) → n ≤ 32 → bytes_length (0x70 + n) d ≡ ok (n, d)
unfolding bytes_length
bytes_length_short n d h = ground arith

module _ (r : List ℕ) (o : List Value) (c b : ℕ) (s : List ℕ) where
  pub string_short :
      valid_utf8 s ≡ true
      → length s ≤ 32
      → length s * 2 ≤ b
      → scalar (0x40 + length s) (at (s ++ r) o c b) ≡ ok (str s, at r o c (b - length s * 2))
  unfolding string
  string_short u h k = ground (
    arith,
    str_length_short (length s) (at (s ++ r) o c b) h,
    scalar-string (0x40 + length s) (at (s ++ r) o c b),
    charge_lem (s ++ r) o c b (length s * 2),
    take_bytes_lem r o c (b - length s * 2) (length s) s refl,
  )

  pub string_long :
      (w : ℕ)
      → 1 ≤ w
      → w ≤ 4
      → valid_utf8 s ≡ true
      → length s < 256 ^ w
      → length s * 2 ≤ b
      → scalar (0x60 + w) (at (le_bytes w (length s) ++ (s ++ r)) o c b)
        ≡ ok (str s, at r o c (b - length s * 2))
  unfolding string
  string_long w lo hi u h k = ground (
    arith,
    str_length_long w (at (le_bytes w (length s) ++ (s ++ r)) o c b) lo,
    scalar-string (0x60 + w) (at (le_bytes w (length s) ++ (s ++ r)) o c b),
    number_lem (s ++ r) o c b w (length s) h,
    charge_lem (s ++ r) o c b (length s * 2),
    take_bytes_lem r o c (b - length s * 2) (length s) s refl,
  )

  pub blob_short :
      length s ≤ 32
      → length s * 2 ≤ b
      → scalar (0x70 + length s) (at (s ++ r) o c b) ≡ ok (bytes s, at r o c (b - length s * 2))
  unfolding blob
  blob_short h k = ground (
    arith,
    bytes_length_short (length s) (at (s ++ r) o c b) h,
    scalar-blob (0x70 + length s) (at (s ++ r) o c b),
    charge_lem (s ++ r) o c b (length s * 2),
    take_bytes_lem r o c (b - length s * 2) (length s) s refl,
  )

  -- `w` is the exponent of the width of the length field: 1, 2, 4 or 8 bytes.
  pub blob_long :
      (w : ℕ)
      → w ≤ 3
      → length s < 256 ^ (2 ^ w)
      → length s ≤ 4 * 1024 * 1024
      → length s * 2 ≤ b
      → scalar (0x91 + w) (at (le_bytes (2 ^ w) (length s) ++ (s ++ r)) o c b)
        ≡ ok (bytes s, at r o c (b - length s * 2))
  unfolding blob bytes_length
  blob_long w hi h m k =
      let e : 0x91 + w - 0x91 ≡ w = omega arith in
      ground (
        arith,
        e,
        scalar-blob (0x91 + w) (at (le_bytes (2 ^ w) (length s) ++ (s ++ r)) o c b),
        number_lem (s ++ r) o c b (2 ^ w) (length s) h,
        charge_lem (s ++ r) o c b (length s * 2),
        take_bytes_lem r o c (b - length s * 2) (length s) s refl,
      )

module _ (r : List ℕ) (o : List Value) (c b : ℕ) where
  pub int_short : (v : ℕ) → v < 0x28 → scalar (v + 8) (at r o c b) ≡ ok (int v, at r o c b)
  unfolding scalar
  int_short v h = ground arith

  pub int_long :
      (w v : ℕ)
      → w ≤ 3
      → v < 256 ^ (2 ^ w)
      → scalar (0x30 + w) (at (le_bytes (2 ^ w) v ++ r) o c b) ≡ ok (int v, at r o c b)
  unfolding scalar
  int_long w v hi h =
      let e : 0x30 + w - 0x30 ≡ w = omega arith in ground (arith, e, number_lem r o c b (2 ^ w) v h)

  pub time_lem :
      (v : ℕ) → v < 2 ^ 64 → scalar 6 (at (le_bytes 8 v ++ r) o c b) ≡ ok (time v, at r o c b)
  unfolding scalar
  time_lem v h = ground (arith, number_lem r o c b 8 v h)

  pub float_lem :
      (v : ℕ) → v < 2 ^ 64 → scalar 0x36 (at (le_bytes 8 v ++ r) o c b) ≡ ok (float v, at r o c b)
  unfolding scalar
  float_lem v h = ground (arith, number_lem r o c b 8 v h)

  pub uuid_lem :
      (v : List ℕ) → length v ≡ 16 → scalar 5 (at (v ++ r) o c b) ≡ ok (uuid v, at r o c b)
  unfolding scalar
  uuid_lem v h = ground (arith, take_bytes_lem r o c b 16 v h)

count_object_lem :
    (r : List ℕ) (o : List Value) (c b depth : ℕ)
    → depth ≤ 64
    → c + 1 ≤ 65536
    → count_object depth (at r o c b) ≡ ok (tt, at r o (c + 1) b)
unfolding count_object
count_object_lem r o c b depth hd hc = ground arith

pub enter_lem :
    (t : ℕ) (r : List ℕ) (o : List Value) (c b depth : ℕ)
    → depth ≤ 64
    → c + 1 ≤ 65536
    → 32 ≤ b
    → enter depth (at (t ∷ r) o c b) ≡ ok (t, at r o (c + 1) (b - 32))
unfolding enter from_le
enter_lem t r o c b depth hd hc hb = ground (
  arith,
  count_object_lem (t ∷ r) o c b depth hd hc,
  charge_lem (t ∷ r) o (c + 1) b 32 hb,
  take_bytes_lem r o (c + 1) (b - 32) 1 (t ∷ []) refl,
)

-- `remember` changes no field but `objects`.
remember_if :
    (p : Bool) (v : Value) (r : List ℕ) (o o1 : List Value) (c b : ℕ)
    → (o' : List Value) × (◌≡◌ {A = Result Error (Value × Decoder)}
        (if p then ok (v, at r o1 c b) else ok (v, at r o c b))
        (ok (v, at r o' c b)))
remember_if true v r o o1 c b = (o1, refl)
remember_if false v r o o1 c b = (o, refl)

pub remember_lem :
    (t : ℕ) (v : Value) (r : List ℕ) (o : List Value) (c b : ℕ)
    → (o' : List Value) × (remember t v (at r o c b) ≡ ok (v, at r o' c b))
unfolding remember
remember_lem t v r o c b = remember_if _ v r o (o ++ (v ∷ [])) c b
