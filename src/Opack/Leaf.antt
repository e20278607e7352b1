-- ===== src/Opack/Leaf.antt =====
-- The values that are not containers: the form of their encodings, and their decoding.
use adhoc_cross_device_conne.Prelude.{
  ℕ, ◌+◌, ◌-◌, ◌*◌, ◌%◌, ◌^◌, ◌≤◌, ◌<◌, ◌≡◌, ◌≢◌, refl, Bool, true, false, List, [], ◌∷◌, ◌++◌, inl,
  inr, ltb, leb, ltb→lt, leb→le, tests, Bool-cases, length, length-append, arith, append_assoc,
}
use adhoc_cross_device_conne.Prelude.Bytes.{le_bytes}
use adhoc_cross_device_conne.Prelude.Utf8.{valid_utf8}
use adhoc_cross_device_conne.Prelude.Result.{ok}
use adhoc_cross_device_conne.Opack.{Value, null, float, uuid, time, bool, int, str, bytes}
use adhoc_cross_device_conne.Opack.Encode.{encode, encode_int, encode_str, encode_bytes}
use adhoc_cross_device_conne.Opack.Decode.{scalar}
use adhoc_cross_device_conne.Opack.Steps.{
  at, string_short, string_long, blob_short, blob_long, int_short, int_long, time_lem, float_lem,
  uuid_lem,
}

-- `e` is a tag and a payload that `scalar` reads as `v`, charging `x`.
pub record IsLeaf (e : List ℕ) (v : Value) (x : ℕ) : Type 0 where
  pub tag : ℕ
  pub payload : List ℕ
  pub encoded : e ≡ tag ∷ payload
  pub low : tag < 0xd0
  pub open_end : tag ≢ 3
  pub charged : x ≤ 2 * length payload
  pub read :
      (r : List ℕ) (o : List Value) (c b : ℕ)
      → x ≤ b
      → scalar tag (at (payload ++ r) o c b) ≡ ok (v, at r o c (b - x))

str_long_form :
    (s : List ℕ) (w : ℕ)
    → 1 ≤ w
    → w ≤ 4
    → valid_utf8 s ≡ true
    → length s < 256 ^ w
    → IsLeaf ((0x60 + w) ∷ (le_bytes w (length s) ++ s)) (str s) (length s * 2)
str_long_form s w lo hi u h = record {
  tag = 0x60 + w;
  payload = le_bytes w (length s) ++ s;
  encoded = refl;
  low = omega arith;
  open_end = omega arith;
  charged = omega (arith, length-append (le_bytes w (length s)) s);
  read = λ r o c b k. rw append_assoc (string_long r o c b s w lo hi u h k);
}

pub str_form :
    (s : List ℕ)
    → valid_utf8 s ≡ true
    → length s ≤ 4 * 1024 * 1024
    → IsLeaf (encode_str s) (str s) (length s * 2)
unfolding encode_str
str_form s u m = elim (Bool-cases (leb (length s) 32)) [
  | inl e ↦
      let n32 : length s ≤ 32 = leb→le _ _ e in
      let e' : 0x40 + length s % 256 ≡ 0x40 + length s = omega arith in
      rw (e, e')
        (record {
          tag = 0x40 + length s;
          payload = s;
          encoded = refl;
          low = omega arith;
          open_end = omega arith;
          charged = omega arith;
          read = λ r o c b k. string_short r o c b s u n32 k;
        })
  | inr e ↦ rw e (elim (Bool-cases (leb (length s) 255)) [
    | inl e1 ↦
        rw e1 (str_long_form s 1 (omega arith) (omega arith) u (omega (tests, leb→le _ _ e1)))
    | inr e1 ↦ rw e1 (elim (Bool-cases (leb (length s) 65535)) [
      | inl e2 ↦
          rw e2 (str_long_form s 2 (omega arith) (omega arith) u (omega (tests, leb→le _ _ e2)))
      | inr e2 ↦ rw e2 (elim (Bool-cases (leb (length s) 0xffffff)) [
        | inl e3 ↦
            rw e3 (str_long_form s 3 (omega arith) (omega arith) u (omega (tests, leb→le _ _ e3)))
        | inr e3 ↦ rw e3 (str_long_form s 4 (omega arith) (omega arith) u (omega arith))
      ])
    ])
  ])
]

bytes_long_form :
    (s : List ℕ) (w : ℕ)
    → w ≤ 3
    → length s < 256 ^ (2 ^ w)
    → length s ≤ 4 * 1024 * 1024
    → IsLeaf ((0x91 + w) ∷ (le_bytes (2 ^ w) (length s) ++ s)) (bytes s) (length s * 2)
bytes_long_form s w hi h m = record {
  tag = 0x91 + w;
  payload = le_bytes (2 ^ w) (length s) ++ s;
  encoded = refl;
  low = omega arith;
  open_end = omega arith;
  charged = omega (arith, length-append (le_bytes (2 ^ w) (length s)) s);
  read = λ r o c b k. rw append_assoc (blob_long r o c b s w hi h m k);
}

pub bytes_form :
    (s : List ℕ) → length s ≤ 4 * 1024 * 1024 → IsLeaf (encode_bytes s) (bytes s) (length s * 2)
unfolding encode_bytes
bytes_form s m = elim (Bool-cases (leb (length s) 32)) [
  | inl e ↦
      let n32 : length s ≤ 32 = leb→le _ _ e in
      let e' : 0x70 + length s % 256 ≡ 0x70 + length s = omega arith in
      rw (e, e')
        (record {
          tag = 0x70 + length s;
          payload = s;
          encoded = refl;
          low = omega arith;
          open_end = omega arith;
          charged = omega arith;
          read = λ r o c b k. blob_short r o c b s n32 k;
        })
  | inr e ↦ rw e (elim (Bool-cases (leb (length s) 255)) [
    | inl e1 ↦ rw e1 (bytes_long_form s 0 (omega arith) (omega (tests, leb→le _ _ e1)) m)
    | inr e1 ↦ rw e1 (elim (Bool-cases (leb (length s) 65535)) [
      | inl e2 ↦ rw e2 (bytes_long_form s 1 (omega arith) (omega (tests, leb→le _ _ e2)) m)
      | inr e2 ↦ rw e2 (elim (Bool-cases (leb (length s) 0xffff_ffff)) [
        | inl e3 ↦ rw e3 (bytes_long_form s 2 (omega arith) (omega (tests, leb→le _ _ e3)) m)
        | inr e3 ↦ rw e3 (bytes_long_form s 3 (omega arith) (omega arith) m)
      ])
    ])
  ])
]

-- A value with no fields, and one whose payload has a fixed width.
plain_form :
    (t : ℕ) (p : List ℕ) (v : Value)
    → t < 0xd0
    → t ≢ 3
    → ((r : List ℕ) (o : List Value) (c b : ℕ) → scalar t (at (p ++ r) o c b) ≡ ok (v, at r o c b))
    → IsLeaf (t ∷ p) v 0
plain_form t p v h k f = record {
  tag = t;
  payload = p;
  encoded = refl;
  low = h;
  open_end = k;
  charged = omega arith;
  read = λ r o c b _. let z : b - 0 ≡ b = omega arith in rw z (f r o c b);
}

int_long_form :
    (v w : ℕ) → w ≤ 3 → v < 256 ^ (2 ^ w) → IsLeaf ((0x30 + w) ∷ le_bytes (2 ^ w) v) (int v) 0
int_long_form v w hi h =
    plain_form (0x30 + w) _ (int v) (omega arith) (omega arith)
      (λ r o c b. int_long r o c b w v hi h)

pub int_form : (v : ℕ) → v < 2 ^ 64 → IsLeaf (encode_int v) (int v) 0
unfolding encode_int
int_form v m = elim (Bool-cases (ltb v 0x28)) [
  | inl e ↦
      let small : v < 0x28 = ltb→lt _ _ e in
      let e' : v % 256 + 8 ≡ v + 8 = omega arith in
      rw (e, e')
        (plain_form (v + 8) [] (int v) (omega arith) (omega arith)
          (λ r o c b. int_short r o c b v small))
  | inr e ↦ rw e (elim (Bool-cases (leb v 0xff)) [
    | inl e1 ↦ rw e1 (int_long_form v 0 (omega arith) (omega (tests, leb→le _ _ e1)))
    | inr e1 ↦ rw e1 (elim (Bool-cases (leb v 0xffff)) [
      | inl e2 ↦ rw e2 (int_long_form v 1 (omega arith) (omega (tests, leb→le _ _ e2)))
      | inr e2 ↦ rw e2 (elim (Bool-cases (leb v 0xffff_ffff)) [
        | inl e3 ↦ rw e3 (int_long_form v 2 (omega arith) (omega (tests, leb→le _ _ e3)))
        | inr e3 ↦ rw e3 (int_long_form v 3 (omega arith) (omega arith))
      ])
    ])
  ])
]

pub null_form : IsLeaf (encode null) null 0
unfolding encode scalar
null_form = plain_form 4 [] null (omega arith) (omega arith) (λ r o c b. refl)

pub bool_form : (x : Bool) → IsLeaf (encode (bool x)) (bool x) 0
unfolding encode scalar
bool_form true = plain_form 1 [] (bool true) (omega arith) (omega arith) (λ r o c b. refl)
bool_form false = plain_form 2 [] (bool false) (omega arith) (omega arith) (λ r o c b. refl)

pub float_form : (v : ℕ) → v < 2 ^ 64 → IsLeaf (encode (float v)) (float v) 0
unfolding encode
float_form v h =
    plain_form 0x36 _ (float v) (omega arith) (omega arith) (λ r o c b. float_lem r o c b v h)

pub time_form : (v : ℕ) → v < 2 ^ 64 → IsLeaf (encode (time v)) (time v) 0
unfolding encode
time_form v h =
    plain_form 6 _ (time v) (omega arith) (omega arith) (λ r o c b. time_lem r o c b v h)

pub uuid_form : (v : List ℕ) → length v ≡ 16 → IsLeaf (encode (uuid v)) (uuid v) 0
unfolding encode
uuid_form v h =
    plain_form 5 v (uuid v) (omega arith) (omega arith) (λ r o c b. uuid_lem r o c b v h)

-- A string or data is no longer than its encoding.
pub length-encode_str : (s : List ℕ) → length s ≤ length (encode_str s)
unfolding encode_str
length-encode_str s = elim (Bool-cases (leb (length s) 32)) [
  | inl e ↦ rw e (omega arith)
  | inr e ↦ rw e (omega (arith, length-append (le_bytes _ (length s)) s))
]

pub length-encode_bytes : (s : List ℕ) → length s ≤ length (encode_bytes s)
unfolding encode_bytes
length-encode_bytes s = elim (Bool-cases (leb (length s) 32)) [
  | inl e ↦ rw e (omega arith)
  | inr e ↦ rw e (elim (Bool-cases (leb (length s) 255)) [
    | inl e1 ↦ rw e1 (omega (arith, length-append (le_bytes 1 (length s)) s))
    | inr e1 ↦ rw e1 (elim (Bool-cases (leb (length s) 65535)) [
      | inl e2 ↦ rw e2 (omega (arith, length-append (le_bytes 2 (length s)) s))
      | inr e2 ↦ rw e2 (elim (Bool-cases (leb (length s) 0xffff_ffff)) [
        | inl e3 ↦ rw e3 (omega (arith, length-append (le_bytes 4 (length s)) s))
        | inr e3 ↦ rw e3 (omega (arith, length-append (le_bytes 8 (length s)) s))
      ])
    ])
  ])
]
