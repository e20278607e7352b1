-- ===== src/Opack/Safety.antt =====
-- `decode` on any input of bytes: its fuel suffices, and what it returns is within the limits.
use adhoc_cross_device_conne.Prelude.{
  ℕ, zero, suc, ◌-◌, ◌*◌, ◌^◌, ◌≤◌, ◌<◌, ◌≡◌, refl, Bool, true, false, Option, some, none, List, [],
  ◌∷◌, arith, All, get_elem?, if◌then◌else◌, leb, ◌==◌, in_range, subst,
}
use mathlib.Core.Option.{some-injective}
use adhoc_cross_device_conne.Prelude.Bytes.{IsByte, IsU64}
use adhoc_cross_device_conne.Prelude.Utf8.{valid_utf8}
use adhoc_cross_device_conne.Prelude.Result.{ok, err}
use adhoc_cross_device_conne.Prelude.Exec.{◌>>=◌, pure, require}
use adhoc_cross_device_conne.Opack.{Value, float, time, int}
use adhoc_cross_device_conne.Opack.Decode.{
  bad_utf8, data_limit, invalid_reference, Decoder, M, take_bytes, number, charge, widen,
  str_length, bytes_length, reference_index, object_size, get_object, string, blob, reference,
  scalar,
}
use adhoc_cross_device_conne.Opack.Measure.{nodes, height}
use adhoc_cross_device_conne.Opack.Widen.{widen-IsU64}
use adhoc_cross_device_conne.Opack.Ensures.{
  Ensures, returns, raises, Ensures-bind, Ensures-if, Ensures-weaken, IsPlain, Inv, After,
  After-loosen, take_bytes-Ensures, charge-Ensures, require-Ensures, number-Ensures,
}

-- The same rule where the branches are code.
Ensures-choose :
    {A : Type 0} (Q : A → Decoder → Type 0) (b : Bool) (x y : M A) (d : Decoder)
    → (b ≡ true → Ensures Q (x d))
    → (b ≡ false → Ensures Q (y d))
    → Ensures Q ((if b then x else y) d)
Ensures-choose Q true x y d h k = h refl
Ensures-choose Q false x y d h k = k refl

pow_width : (k v : ℕ) → k ≤ 3 → v < 256 ^ (2 ^ k) → IsU64 v
pow_width zero v hk h = omega arith
pow_width (suc zero) v hk h = omega arith
pow_width (suc (suc zero)) v hk h = omega arith
pow_width (suc (suc (suc zero))) v hk h = omega arith
pow_width (suc (suc (suc (suc k)))) v hk h = absurd (omega arith)

get_elem?-IsPlain :
    (os : List Value) (i : ℕ) (o : Value) → All IsPlain os → get_elem? os i ≡ some o → IsPlain o
get_elem?-IsPlain [] i o h e = cc
get_elem?-IsPlain (x ∷ os) zero o h e = subst IsPlain (some-injective _ _ e) h.0
get_elem?-IsPlain (x ∷ os) (suc i) o h e = get_elem?-IsPlain os i o h.1 e

abbrev ScalarPost : Decoder → Value → Decoder → Type 0
ScalarPost d v d' = IsPlain v × After 0 0 d d'

module _ (d : Decoder) (i : Inv d) where
  same : After 0 0 d d
  same = record { inv = i; shorter = omega arith; count = omega arith }

  number_any : (n : ℕ) → Ensures (λ _ d'. After 0 0 d d') (number n d)
  number_any n = Ensures-weaken _ _ (number-Ensures d i n) (λ v d' h. returns (After-loosen h.1))

  str_length-Ensures : (t : ℕ) → Ensures (λ _ d'. After 0 0 d d') (str_length t d)
  unfolding str_length
  str_length-Ensures t =
      Ensures-if _ (leb t 0x60) _ _ (λ e. returns same) (λ e. number_any (t - 0x60))

  bytes_length-Ensures : (t : ℕ) → Ensures (λ _ d'. After 0 0 d d') (bytes_length t d)
  unfolding bytes_length
  bytes_length-Ensures t =
      Ensures-if _ (leb t 0x90) _ _ (λ e. returns same) (λ e. number_any (2 ^ (t - 0x91)))

  reference_index-Ensures : (t : ℕ) → Ensures (λ _ d'. After 0 0 d d') (reference_index t d)
  unfolding reference_index
  reference_index-Ensures t =
      Ensures-if _ (leb t 0xc0) _ _ (λ e. returns same) (λ e. number_any (t - 0xc0))

  get_object-Ensures : (n : ℕ) → Ensures (ScalarPost d) (get_object n d)
  unfolding get_object
  get_object-Ensures n = found (get_elem? d.objects n) refl
    where
      found :
          (o : Option Value)
          → get_elem? d.objects n ≡ o
          → Ensures (ScalarPost d) (elim o [ none ↦ err invalid_reference | some x ↦ ok (x, d) ])
      found none e = raises (λ p. cc)
      found (some x) e = returns (get_elem?-IsPlain d.objects n x i.known e, same)

module _ (d : Decoder) (i : Inv d) where
  string-Ensures : (t : ℕ) → Ensures (ScalarPost d) (string t d)
  unfolding string nodes height
  string-Ensures t = Ensures-bind _ _ (str_length t) _ d (str_length-Ensures d i t) λ n d1 h1.
      Ensures-bind _ _ (charge (n * 2)) _ d1 (charge-Ensures d1 h1.inv (n * 2)) λ _ d2 h2.
        Ensures-bind _ _ (take_bytes n) _ d2 (take_bytes-Ensures d2 h2.inv n) λ s d3 h3.
          Ensures-bind _ _ (require (valid_utf8 s) bad_utf8) _ d3
            (require-Ensures d3 h3.2.inv (valid_utf8 s) bad_utf8 (λ p. cc))
            λ _ d4 h4. returns (
              (((h3.0, h4.0), refl, refl)),
              record { inv = h4.1.inv; shorter = omega arith; count = omega arith },
            )

  blob-Ensures : (t : ℕ) → Ensures (ScalarPost d) (blob t d)
  unfolding blob nodes height
  blob-Ensures t = Ensures-bind _ _ (bytes_length t) _ d (bytes_length-Ensures d i t) λ n d1 h1.
      Ensures-bind _ _ (require (leb n (4 * 1024 * 1024)) data_limit) _ d1
        (require-Ensures d1 h1.inv (leb n (4 * 1024 * 1024)) data_limit (λ p. cc))
        λ _ d2 h2.
          Ensures-bind _ _ (charge (n * 2)) _ d2 (charge-Ensures d2 h2.1.inv (n * 2)) λ _ d3 h3.
            Ensures-bind _ _ (take_bytes n) _ d3 (take_bytes-Ensures d3 h3.inv n) λ b d4 h4.
              returns (
                (h4.0, refl, refl),
                record { inv = h4.2.inv; shorter = omega arith; count = omega arith },
              )

  reference-Ensures : (t : ℕ) → Ensures (ScalarPost d) (reference t d)
  unfolding reference
  reference-Ensures t =
      Ensures-bind _ _ (reference_index t) _ d (reference_index-Ensures d i t) λ n d1 h1.
        Ensures-bind _ _ (get_object n) _ d1 (get_object-Ensures d1 h1.inv n) λ o d2 h2.
          Ensures-bind _ _ (charge (object_size o)) _ d2
            (charge-Ensures d2 h2.1.inv (object_size o))
            λ _ d3 h3.
              returns (h2.0, record { inv = h3.inv; shorter = omega arith; count = omega arith })

  -- A payload of `n` bytes read as a number.
  numeric :
      (n : ℕ) (f : ℕ → Value)
      → ((v : ℕ) → v < 256 ^ n → IsPlain (f v))
      → Ensures (ScalarPost d) ((number n >>= λ v. pure (f v)) d)
  numeric n f k =
      Ensures-bind _ _ (number n) _ d (number-Ensures d i n)
        (λ v d' h. returns (k v h.0, After-loosen h.1))

  pub scalar-Ensures : (t : ℕ) → IsByte t → Ensures (ScalarPost d) (scalar t d)
  unfolding scalar nodes height
  scalar-Ensures t ht =
      choose (t == 1) _ _ (λ _. returns ((tt, refl, refl), s))
        λ _.
          choose (t == 2) _ _ (λ _. returns ((tt, refl, refl), s))
            λ _.
              choose (t == 4) _ _ (λ _. returns ((tt, refl, refl), s))
                λ _.
                  choose (t == 5) _ _
                    (λ _.
                      Ensures-bind _ _ (take_bytes 16) _ d (take_bytes-Ensures d i 16)
                        (λ b d' h. returns (((h.0, h.1), refl, refl), After-loosen h.2)))
                    λ _.
                      choose (t == 6) _ _ (λ _. numeric 8 time (λ v h. (omega arith, refl, refl)))
                        λ _.
                          choose (in_range 8 0x2f t) _ _
                            (λ e. returns ((omega arith, refl, refl), s))
                            λ _.
                              choose (in_range 0x30 0x33 t) _ _
                                (λ e.
                                  let k : t - 0x30 ≤ 3 = ground arith in
                                  numeric (2 ^ (t - 0x30)) int
                                    (λ v h. (pow_width (t - 0x30) v k h, refl, refl)))
                                λ _.
                                  choose (t == 0x35) _ _
                                    (λ _.
                                      numeric 4 (λ v. float (widen v))
                                        (λ v h. (widen-IsU64 v (omega arith), refl, refl)))
                                    λ _.
                                      choose (t == 0x36) _ _
                                        (λ _. numeric 8 float (λ v h. (omega arith, refl, refl)))
                                        λ _.
                                          choose (in_range 0x40 0x64 t) _ _ (λ _. string-Ensures t)
                                            λ _.
                                              choose (in_range 0x70 0x94 t) _ _
                                                (λ _. blob-Ensures t)
                                                λ _.
                                                  choose (in_range 0xa0 0xc4 t) _ _
                                                    (λ _. reference-Ensures t) λ _. raises (λ p. cc)
    where
      s : After 0 0 d d
      s = same d i

      choose :
          (b : Bool) (x y : M Value)
          → (b ≡ true → Ensures (ScalarPost d) (x d))
          → (b ≡ false → Ensures (ScalarPost d) (y d))
          → Ensures (ScalarPost d) ((if b then x else y) d)
      choose b x y = Ensures-choose (ScalarPost d) b x y d
