-- ===== src/Prelude/Digits.antt =====
-- Numbers in text: `u64::from_str_radix`, and the digits that `format!` writes.
use Prim.Native.Nat.{ℕ, zero, suc, ◌+◌, ◌-◌, ◌*◌, ◌/◌, ◌%◌, ◌^◌, ◌≤◌, ◌<◌}
use mathlib.Core.Path.{◌≡◌, refl, sym, ap, ◌∙◌}
use mathlib.Core.Bool.{true, false}
use mathlib.Core.Option.{Option, none, some}
use mathlib.Core.List.{List, [], ◌∷◌, ◌++◌}
use mathlib.Core.Logic.{◌⊎◌, inl, inr}
use native.Mathlib.Omega.{arith}
use adhoc_cross_device_conne.Prelude.Tests.{
  ltb, ◌==◌, in_range, if◌then◌else◌, Bool-cases, Option-cases, ltb→lt, lt→ltb,
}
use adhoc_cross_device_conne.Prelude.Lists.{
  length, replicate, length-append, length-replicate, All, All-append,
}

-- `char::to_digit(radix)`
unfoldable pub to_digit : ℕ → ℕ → Option ℕ
to_digit radix c =
    let d =
      if in_range 0x30 0x39 c
      then c - 0x30
      else if in_range 0x61 0x7a c
      then c - 0x57
      else if in_range 0x41 0x5a c
      then c - 0x37
      else 36 in
    if ltb d radix then some d else none

-- One more digit, by `checked_mul` and `checked_add`.
unfoldable pub push_digit : ℕ → ℕ → ℕ → Option ℕ
push_digit radix n d = let v = n * radix + d in if ltb v (2 ^ 64) then some v else none

unfoldable pub read_digits : ℕ → ℕ → List ℕ → Option ℕ
read_digits radix n [] = some n
read_digits radix n (c ∷ cs) = elim (to_digit radix c) [
  | none ↦ none
  | some d ↦ elim (push_digit radix n d) [ none ↦ none | some v ↦ read_digits radix v cs ]
]

-- One leading plus sign is allowed, and a digit is needed.
unfoldable pub from_str_radix : ℕ → List ℕ → Option ℕ
from_str_radix radix [] = none
from_str_radix radix (c ∷ []) = read_digits radix 0 (c ∷ [])
from_str_radix radix (c ∷ d ∷ cs) =
    if c == 0x2b then read_digits radix 0 (d ∷ cs) else read_digits radix 0 (c ∷ d ∷ cs)

-- The lowest digits, most significant first, of a number that has at most this many; the first
-- digit is not zero unless it is the only one.
unfoldable pub digit_char : ℕ → ℕ
digit_char d = if ltb d 10 then 0x30 + d else 0x57 + d

unfoldable pub digits_fuel : ℕ → ℕ → ℕ → List ℕ
digits_fuel zero radix n = []
digits_fuel (suc f) radix n =
    let rest = digits_fuel f radix (n / radix) in
    if ltb n radix then digit_char n ∷ [] else rest ++ digit_char (n % radix) ∷ []

-- A u64 has at most 64 digits.
unfoldable pub digits : ℕ → ℕ → List ℕ
digits radix n = digits_fuel 64 radix n

-- `{:0width}`, which does not cut a longer number.
unfoldable pub padded : ℕ → ℕ → ℕ → List ℕ
padded width radix n = let ds = digits radix n in replicate (width - length ds) 0x30 ++ ds

-- The radices in use.
abbrev pub IsRadix : ℕ → Type 0
IsRadix r = (r ≡ 8) ⊎ (r ≡ 10) ⊎ (r ≡ 16)

-- The characters of digits, up to hexadecimal ones.
abbrev pub IsDigit : ℕ → Type 0
IsDigit c = ((0x30 ≤ c) × (c ≤ 0x39)) ⊎ ((0x61 ≤ c) × (c ≤ 0x66))

radix_div :
    (r n : ℕ)
    → IsRadix r
    → (n / r * r + n % r ≡ n) × (n / r * 2 ≤ n) × (n % r < r) × (1 ≤ r) × (r ≤ 16)
radix_div r n (inl e) = rw e (omega arith, omega arith, omega arith, omega arith, omega arith)
radix_div r n (inr (inl e)) = rw e (omega arith, omega arith, omega arith, omega arith, omega arith)
radix_div r n (inr (inr e)) = rw e (omega arith, omega arith, omega arith, omega arith, omega arith)

to_digit-digit_char : (r d : ℕ) → r ≤ 16 → d < r → to_digit r (digit_char d) ≡ some d
unfolding to_digit digit_char
to_digit-digit_char r d h k = ground arith

digit_char-IsDigit : (d : ℕ) → d < 16 → IsDigit (digit_char d)
unfolding digit_char
digit_char-IsDigit d h = elim (Bool-cases (ltb d 10)) [
  | inl e ↦ (let small = ltb→lt d 10 e in rw e (inl (omega arith, omega arith)))
  | inr e ↦ (let big : 10 ≤ d = ground arith in rw e (inr (omega arith, omega arith)))
]

read_digits-append :
    (r n : ℕ) (xs : List ℕ) (c : ℕ)
    → read_digits r n (xs ++ c ∷ [])
      ≡ elim (read_digits r n xs) [ none ↦ none | some v ↦ read_digits r v (c ∷ []) ]
unfolding read_digits
read_digits-append r n [] c = refl
read_digits-append r n (x ∷ xs) c = elim (Option-cases (to_digit r x)) [
  | inl e ↦ rw (read_digits, e) refl
  | inr (d, e) ↦ elim (Option-cases (push_digit r n d)) [
    | inl f ↦ rw (read_digits, e, f) refl
    | inr (v, f) ↦ rw (read_digits, e, f) (read_digits-append r v xs c)
  ]
]

read_digits-last :
    (r v d n : ℕ)
    → r ≤ 16
    → d < r
    → v * r + d ≡ n
    → n < 2 ^ 64
    → read_digits r v (digit_char d ∷ []) ≡ some n
unfolding read_digits push_digit
read_digits-last r v d n h k e small =
    let fits : ltb n (2 ^ 64) ≡ true = lt→ltb n (2 ^ 64) small in
    rw (read_digits, to_digit-digit_char r d h k, e, fits) refl

read_digits-digits_fuel :
    (f r n : ℕ) → IsRadix r → n < 2 ^ f → n < 2 ^ 64 → read_digits r 0 (digits_fuel f r n) ≡ some n
unfolding digits_fuel read_digits
read_digits-digits_fuel zero r n h k small = ap some (omega arith)
read_digits-digits_fuel (suc f) r n h k small =
    let (whole, half, rem, pos, le) = radix_div r n h in
    elim (Bool-cases (ltb n r)) [
      | inl e ↦ rw e (read_digits-last r 0 n n le (ltb→lt n r e) (omega arith) small)
      | inr e ↦
          let ih = read_digits-digits_fuel f r (n / r) h (omega arith) (omega arith) in
          rw (e, read_digits-append r 0 (digits_fuel f r (n / r)) (digit_char (n % r)), ih)
            (read_digits-last r (n / r) (n % r) n le rem whole small)
    ]

digits_fuel-IsDigit : (f r n : ℕ) → IsRadix r → All IsDigit (digits_fuel f r n)
unfolding digits_fuel
digits_fuel-IsDigit zero r n h = tt
digits_fuel-IsDigit (suc f) r n h =
    let (whole, half, rem, pos, le) = radix_div r n h in
    elim (Bool-cases (ltb n r)) [
      | inl e ↦ (let small = ltb→lt n r e in rw e (digit_char-IsDigit n (omega arith), tt))
      | inr e ↦ rw e (
          All-append IsDigit (digits_fuel f r (n / r)) _ (digits_fuel-IsDigit f r (n / r) h)
            (digit_char-IsDigit (n % r) (omega arith), tt))
    ]

digits_fuel-nonempty : (f r n : ℕ) → 1 ≤ length (digits_fuel (suc f) r n)
unfolding digits_fuel
digits_fuel-nonempty f r n = elim (Bool-cases (ltb n r)) [
  | inl e ↦ rw e (omega arith)
  | inr e ↦ rw (e, length-append (digits_fuel f r (n / r)) (digit_char (n % r) ∷ [])) (omega arith)
]

push_zero : (r : ℕ) → push_digit r 0 0 ≡ some 0
unfolding push_digit
push_zero r = (let z : 0 * r + 0 ≡ 0 = omega arith in rw z refl)

read_digits-zeros :
    (k r : ℕ) (ds : List ℕ)
    → 1 ≤ r
    → r ≤ 16
    → read_digits r 0 (replicate k 0x30 ++ ds) ≡ read_digits r 0 ds
unfolding digit_char read_digits
read_digits-zeros zero r ds h l = refl
read_digits-zeros (suc k) r ds h l =
    let e : to_digit r 0x30 ≡ some 0 = to_digit-digit_char r 0 l h in
    let f : push_digit r 0 0 ≡ some 0 = push_zero r in
    rw (read_digits, e, f) (read_digits-zeros k r ds h l)

replicate-IsDigit : (k : ℕ) → All IsDigit (replicate k 0x30)
replicate-IsDigit zero = tt
replicate-IsDigit (suc k) = (inl (omega arith, omega arith), replicate-IsDigit k)

IsDigit-no_plus : (c : ℕ) → IsDigit c → (c == 0x2b) ≡ false
IsDigit-no_plus c (inl h) = (let k = h.0 in ground arith)
IsDigit-no_plus c (inr h) = (let k = h.0 in ground arith)

from_str_radix-IsDigit :
    (r : ℕ) (ds : List ℕ)
    → 1 ≤ length ds
    → All IsDigit ds
    → from_str_radix r ds ≡ read_digits r 0 ds
unfolding from_str_radix
from_str_radix-IsDigit r [] h k = absurd (omega arith)
from_str_radix-IsDigit r (c ∷ []) h k = refl
from_str_radix-IsDigit r (c ∷ d ∷ ds) h k = (let e = IsDigit-no_plus c k.0 in rw e refl)

-- The digits of a u64 are read back, with or without zeros before them.
pub from_str_radix-padded :
    (width r n : ℕ) → IsRadix r → n < 2 ^ 64 → from_str_radix r (padded width r n) ≡ some n
unfolding padded digits
from_str_radix-padded width r n h small =
    let (whole, half, rem, pos, le) = radix_div r n h in
    let ds = digits_fuel 64 r n in
    let k = width - length ds in
    let some_digit = digits_fuel-nonempty 63 r n in
    from_str_radix-IsDigit r (replicate k 0x30 ++ ds)
      (omega (arith, length-append (replicate k 0x30) ds))
      (All-append IsDigit (replicate k 0x30) ds (replicate-IsDigit k)
        (digits_fuel-IsDigit 64 r n h))
    ∙ read_digits-zeros k r ds pos le
    ∙ read_digits-digits_fuel 64 r n h small small

-- The same by the reader behind it, in decimal.
pub read_digits-padded : (width n : ℕ) → n < 2 ^ 64 → read_digits 10 0 (padded width 10 n) ≡ some n
unfolding padded digits
read_digits-padded width n small =
    let ds = digits_fuel 64 10 n in
    read_digits-zeros (width - length ds) 10 ds (omega arith) (omega arith)
    ∙ read_digits-digits_fuel 64 10 n (inr (inl refl)) small small

octal_step :
    (f w n : ℕ)
    → n < 8 ^ suc w
    → 8 ≤ n
    → (n / 8 < 8 ^ suc (w - 1) → length (digits_fuel f 8 (n / 8)) ≤ suc (w - 1))
    → length (digits_fuel f 8 (n / 8)) + 1 ≤ suc w
octal_step f zero n h k ih = absurd (omega arith)
octal_step f (suc w) n h k ih =
    let one_less : suc w - 1 ≡ w = omega arith in
    let small : n / 8 < 8 ^ suc (suc w - 1) = rw one_less (omega arith) in omega (arith, ih small)

length-digits_octal : (f w n : ℕ) → n < 8 ^ suc w → length (digits_fuel f 8 n) ≤ suc w
unfolding digits_fuel
length-digits_octal zero w n h = omega arith
length-digits_octal (suc f) w n h = elim (Bool-cases (ltb n 8)) [
  | inl e ↦ rw e (omega arith)
  | inr e ↦
      let shorter = length-digits_octal f (w - 1) (n / 8) in
      rw (e, length-append (digits_fuel f 8 (n / 8)) (digit_char (n % 8) ∷ []))
        (octal_step f w n h (ground arith) shorter)
]

decimal_step :
    (f w n : ℕ)
    → n < 10 ^ suc w
    → 10 ≤ n
    → (n / 10 < 10 ^ suc (w - 1) → length (digits_fuel f 10 (n / 10)) ≤ suc (w - 1))
    → length (digits_fuel f 10 (n / 10)) + 1 ≤ suc w
decimal_step f zero n h k ih = absurd (omega arith)
decimal_step f (suc w) n h k ih =
    let one_less : suc w - 1 ≡ w = omega arith in
    let small : n / 10 < 10 ^ suc (suc w - 1) = rw one_less (omega arith) in omega (arith, ih small)

length-digits_decimal : (f w n : ℕ) → n < 10 ^ suc w → length (digits_fuel f 10 n) ≤ suc w
unfolding digits_fuel
length-digits_decimal zero w n h = omega arith
length-digits_decimal (suc f) w n h = elim (Bool-cases (ltb n 10)) [
  | inl e ↦ rw e (omega arith)
  | inr e ↦
      let shorter = length-digits_decimal f (w - 1) (n / 10) in
      rw (e, length-append (digits_fuel f 10 (n / 10)) (digit_char (n % 10) ∷ []))
        (decimal_step f w n h (ground arith) shorter)
]

-- A decimal number below 10 ^ width takes its field's width exactly.
pub length-padded_decimal : (w n : ℕ) → n < 10 ^ suc w → length (padded (suc w) 10 n) ≡ suc w
unfolding padded digits
length-padded_decimal w n h =
    let ds = digits_fuel 64 10 n in
    omega (
      arith,
      length-append (replicate (suc w - length ds) 0x30) ds,
      length-replicate {A = ℕ} (suc w - length ds) 0x30,
      length-digits_decimal 64 w n h,
    )

-- An octal number below 8 ^ width takes its field's width exactly.
pub length-padded_octal : (w n : ℕ) → n < 8 ^ suc w → length (padded (suc w) 8 n) ≡ suc w
unfolding padded digits
length-padded_octal w n h =
    let ds = digits_fuel 64 8 n in
    omega (
      arith,
      length-append (replicate (suc w - length ds) 0x30) ds,
      length-replicate {A = ℕ} (suc w - length ds) 0x30,
      length-digits_octal 64 w n h,
    )

pub padded-IsDigit : (width r n : ℕ) → IsRadix r → All IsDigit (padded width r n)
unfolding padded digits
padded-IsDigit width r n h =
    let k = width - length (digits_fuel 64 r n) in
    All-append IsDigit (replicate k 0x30) (digits_fuel 64 r n) (replicate-IsDigit k)
      (digits_fuel-IsDigit 64 r n h)

pub padded_zero : (r n : ℕ) → padded 0 r n ≡ digits r n
unfolding padded
padded_zero r n = (let z : 0 - length (digits r n) ≡ 0 = omega arith in rw z refl)

pub IsDigit-ascii : (c : ℕ) → IsDigit c → c < 0x80
IsDigit-ascii c (inl h) = omega (arith, h.1)
IsDigit-ascii c (inr h) = omega (arith, h.1)

pub digits-IsDigit : (r n : ℕ) → IsRadix r → All IsDigit (digits r n)
digits-IsDigit r n h = rw (sym (padded_zero r n)) (padded-IsDigit 0 r n h)

pub from_str_radix-digits :
    (r n : ℕ) → IsRadix r → n < 2 ^ 64 → from_str_radix r (digits r n) ≡ some n
from_str_radix-digits r n h small = rw (sym (padded_zero r n)) (from_str_radix-padded 0 r n h small)

digits_fuel-length : (f r n : ℕ) → length (digits_fuel f r n) ≤ f
unfolding digits_fuel
digits_fuel-length zero r n = omega arith
digits_fuel-length (suc f) r n = elim (Bool-cases (ltb n r)) [
  | inl e ↦ rw e (omega arith)
  | inr e ↦ rw e (
      omega (
        arith,
        length-append (digits_fuel f r (n / r)) (digit_char (n % r) ∷ []),
        digits_fuel-length f r (n / r),
      ))
]

pub length-digits : (r n : ℕ) → length (digits r n) ≤ 64
unfolding digits
length-digits r n = digits_fuel-length 64 r n
