-- ===== src/Opack/Ensures.antt =====
-- A postcondition of decoder code that includes that the fuel suffices, with a rule for each way
-- to build code.
use adhoc_cross_device_conne.Prelude.{
  ℕ, ◌+◌, ◌^◌, ◌≤◌, ◌<◌, ◌≡◌, ◌≢◌, Bool, true, false, arith, length, length-take, length-drop, All,
  All-take, All-drop, if◌then◌else◌, leb, leb→le, refl, ◌&&◌,
}
use adhoc_cross_device_conne.Prelude.Bytes.{IsByte, from_le, from_le-lt}
use adhoc_cross_device_conne.Prelude.Result.{Result, ok, err}
use adhoc_cross_device_conne.Prelude.Exec.{◌>>=◌, pure, require}
use adhoc_cross_device_conne.Opack.{Value}
use adhoc_cross_device_conne.Opack.Decode.{
  Error, stuck, Decoder, M, take_bytes, number, charge, count_object, enter,
}
use adhoc_cross_device_conne.Opack.Measure.{IsWellFormed, nodes, height}

pub data Ensures {A : Type 0} (Q : A → Decoder → Type 0) : Result Error (A × Decoder) → Type 0 where
  returns : {a : A} {d : Decoder} → Q a d → Ensures Q (ok (a, d))
  raises : {e : Error} → e ≢ stuck → Ensures Q (err e)

module _ {A B : Type 0} (Q : A → Decoder → Type 0) (R : B → Decoder → Type 0) where
  Ensures-result :
      (r : Result Error (A × Decoder)) (f : A → M B)
      → Ensures Q r
      → ((a : A) (d : Decoder) → Q a d → Ensures R (f a d))
      → Ensures R (elim r [ ok (a, d) ↦ f a d | err e ↦ err e ])
  Ensures-result _ f (returns q) k = k _ _ q
  Ensures-result _ f (raises n) k = raises n

  pub Ensures-bind :
      (m : M A) (f : A → M B) (d : Decoder)
      → Ensures Q (m d)
      → ((a : A) (d' : Decoder) → Q a d' → Ensures R (f a d'))
      → Ensures R ((m >>= f) d)
  Ensures-bind m f d h k = Ensures-result (m d) f h k

pub Ensures-weaken :
    {A : Type 0} (Q R : A → Decoder → Type 0) {r : Result Error (A × Decoder)}
    → Ensures Q r
    → ((a : A) (d : Decoder) → Q a d → Ensures R (ok (a, d)))
    → Ensures R r
Ensures-weaken Q R (returns q) k = k _ _ q
Ensures-weaken Q R (raises n) k = raises n

-- What the decoder remembers are well-formed values that hold no others.
abbrev pub IsPlain : Value → Type 0
IsPlain v = IsWellFormed v × (nodes v ≡ 1) × (height v ≡ 0)

pub record Inv (d : Decoder) : Type 0 where
  pub input : All IsByte d.rest
  pub known : All IsPlain d.objects
  pub counted : d.count ≤ 65536

-- From `d` to `d'` at least `k` bytes were read and `m` objects counted.
pub record After (k m : ℕ) (d d' : Decoder) : Type 0 where
  pub inv : Inv d'
  pub shorter : k + length d'.rest ≤ length d.rest
  pub count : d'.count ≡ d.count + m

pub After-trans :
    {k m k' m' : ℕ} {d d1 d2 : Decoder}
    → After k m d d1
    → After k' m' d1 d2
    → After (k + k') (m + m') d d2
After-trans p q = record {
  inv = q.inv;
  shorter = omega (arith, p.shorter, q.shorter);
  count = omega (arith, p.count, q.count);
}

pub After-loosen : {k m : ℕ} {d d' : Decoder} → After k m d d' → After 0 m d d'
After-loosen p = record { inv = p.inv; shorter = omega (arith, p.shorter); count = p.count }

-- A test of the code decides between returning and raising.
pub Ensures-if :
    {A : Type 0} (Q : A → Decoder → Type 0) (b : Bool) (x y : Result Error (A × Decoder))
    → (b ≡ true → Ensures Q x)
    → (b ≡ false → Ensures Q y)
    → Ensures Q (if b then x else y)
Ensures-if Q true x y h k = h refl
Ensures-if Q false x y h k = k refl

module _ (d : Decoder) (i : Inv d) where
  pub take_bytes-Ensures :
      (n : ℕ) → Ensures (λ bs d'. All IsByte bs × (length bs ≡ n) × After n 0 d d') (take_bytes n d)
  unfolding take_bytes
  take_bytes-Ensures n =
      Ensures-if _ (leb n (length d.rest)) _ _
        (λ e.
          let le : n ≤ length d.rest = leb→le _ _ e in
          returns (
            All-take IsByte n d.rest i.input,
            omega (arith, length-take n d.rest),
            record {
              inv = record {
                input = All-drop IsByte n d.rest i.input;
                known = i.known;
                counted = i.counted;
              };
              shorter = omega (arith, length-drop n d.rest);
              count = omega arith;
            },
          ))
        (λ e. raises (λ p. cc))

  pub charge-Ensures : (n : ℕ) → Ensures (λ _ d'. After 0 0 d d') (charge n d)
  unfolding charge
  charge-Ensures n =
      Ensures-if _ (leb n d.budget) _ _
        (λ e. returns (record {
          inv = record { input = i.input; known = i.known; counted = i.counted };
          shorter = omega arith;
          count = omega arith;
        }))
        (λ e. raises (λ p. cc))

  pub require-Ensures :
      (b : Bool) (e : Error)
      → e ≢ stuck
      → Ensures (λ _ d'. (b ≡ true) × After 0 0 d d') (require b e d)
  require-Ensures true e n =
      returns (refl, record { inv = i; shorter = omega arith; count = omega arith })
  require-Ensures false e n = raises n

  pub count_object-Ensures :
      (depth : ℕ) → Ensures (λ _ d'. (depth ≤ 64) × After 0 1 d d') (count_object depth d)
  unfolding count_object
  count_object-Ensures depth =
      Ensures-if _ (leb depth 64 && leb (d.count + 1) 65536) _ _
        (λ e.
          let hd : depth ≤ 64 = ground arith in
          let hc : d.count + 1 ≤ 65536 = ground arith in
          returns (
            hd,
            record {
              inv = record { input = i.input; known = i.known; counted = hc };
              shorter = omega arith;
              count = refl;
            },
          ))
        (λ e. raises (λ p. cc))

module _ (d : Decoder) (i : Inv d) where
  pub number-Ensures : (n : ℕ) → Ensures (λ v d'. (v < 256 ^ n) × After n 0 d d') (number n d)
  unfolding number
  number-Ensures n =
      Ensures-bind _ _ (take_bytes n) (λ bs. pure (from_le bs)) d (take_bytes-Ensures d i n)
        (λ bs d' h. returns (from_le-lt n bs h.1 h.0, h.2))

  -- The tag of an object is a byte, read after the object was counted.
  pub enter-Ensures :
      (depth : ℕ) → Ensures (λ t d'. (depth ≤ 64) × IsByte t × After 1 1 d d') (enter depth d)
  unfolding enter
  enter-Ensures depth =
      Ensures-bind _ _ (count_object depth) _ d (count_object-Ensures d i depth) λ _ d1 h1.
        Ensures-bind _ _ (charge 32) _ d1 (charge-Ensures d1 h1.1.inv 32) λ _ d2 h2.
          Ensures-bind _ _ (take_bytes 1) _ d2 (take_bytes-Ensures d2 h2.inv 1) λ bs d3 h3.
            returns (
              h1.0,
              from_le-lt 1 bs h3.1 h3.0,
              record { inv = h3.2.inv; shorter = omega arith; count = omega arith },
            )
