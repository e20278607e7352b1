-- ===== src/Prelude/Scalars.antt =====
-- UTF-8 as `str::from_utf8` reads it and `String` holds it: the scalar values of a text, and their bytes.
use Prim.Native.Nat.{ℕ, zero, suc, ◌+◌, ◌-◌, ◌*◌, ◌/◌, ◌%◌, ◌≤◌, ◌<◌}
use mathlib.Core.Path.{◌≡◌, refl, ap, ◌∙◌}
use mathlib.Core.Bool.{true, false}
use mathlib.Core.Option.{Option, none, some}
use mathlib.Core.List.{List, [], ◌∷◌, ◌++◌}
use mathlib.Core.Logic.{◌⊎◌, inl, inr}
use native.Mathlib.Omega.{arith}
use adhoc_cross_device_conne.Prelude.Tests.{
  ltb, ◌==◌, in_range, if◌then◌else◌, Bool-cases, lt→ltb, ltb→lt,
}
use adhoc_cross_device_conne.Prelude.Lists.{All}

-- A scalar value: a code point that is no surrogate.
abbrev pub IsScalar : ℕ → Type 0
IsScalar c = (c < 0xd800) ⊎ ((0xe000 ≤ c) × (c < 0x110000))

-- `char::encode_utf8`
unfoldable pub encode_char : ℕ → List ℕ
encode_char c =
    if ltb c 0x80
    then c ∷ []
    else if ltb c 0x800
    then (0xc0 + c / 64) ∷ (0x80 + c % 64) ∷ []
    else if ltb c 0x10000
    then (0xe0 + c / 4096) ∷ (0x80 + c / 64 % 64) ∷ (0x80 + c % 64) ∷ []
    else (0xf0 + c / 262144) ∷ (0x80 + c / 4096 % 64) ∷ (0x80 + c / 64 % 64) ∷ (0x80 + c % 64) ∷ []

-- The bytes of a text.
unfoldable pub as_bytes : List ℕ → List ℕ
as_bytes [] = []
as_bytes (c ∷ cs) = encode_char c ++ as_bytes cs

-- `more k lo hi acc`: the next byte must lie in lo..=hi, k bytes follow it, and acc is what was read.
pub data Reading : Type 0 where
  start : Reading
  more : ℕ → ℕ → ℕ → ℕ → Reading

pub data Read : Type 0 where
  bad : Read
  whole : ℕ → Read
  partial : Reading → Read

unfoldable pub lead : ℕ → Read
lead b =
    if ltb b 0x80
    then whole b
    else if in_range 0xc2 0xdf b
    then partial (more 0 0x80 0xbf (b - 0xc0))
    else if b == 0xe0
    then partial (more 1 0xa0 0xbf 0)
    else if b == 0xed
    then partial (more 1 0x80 0x9f 0xd)
    else if in_range 0xe1 0xef b
    then partial (more 1 0x80 0xbf (b - 0xe0))
    else if b == 0xf0
    then partial (more 2 0x90 0xbf 0)
    else if in_range 0xf1 0xf3 b
    then partial (more 2 0x80 0xbf (b - 0xf0))
    else if b == 0xf4
    then partial (more 2 0x80 0x8f 4)
    else bad

unfoldable pub read_byte : Reading → ℕ → Read
read_byte start b = lead b
read_byte (more zero lo hi acc) b = if in_range lo hi b then whole (acc * 64 + (b - 0x80)) else bad
read_byte (more (suc k) lo hi acc) b =
    if in_range lo hi b then partial (more k 0x80 0xbf (acc * 64 + (b - 0x80))) else bad

unfoldable pub and_then : Option (List ℕ) → ℕ → Option (List ℕ)
and_then none c = none
and_then (some cs) c = some (c ∷ cs)

unfoldable pub read_text : Reading → List ℕ → Option (List ℕ)
read_text start [] = some []
read_text (more k lo hi acc) [] = none
read_text s (b ∷ bs) = elim (read_byte s b) [
  | bad ↦ none
  | whole c ↦ and_then (read_text start bs) c
  | partial t ↦ read_text t bs
]

-- `str::from_utf8`
unfoldable pub from_utf8 : List ℕ → Option (List ℕ)
from_utf8 bs = read_text start bs

-- The end of a sequence: one continuation byte, two, and three.
last_byte :
    (lo hi acc b : ℕ) (bs : List ℕ)
    → in_range lo hi b ≡ true
    → read_text (more 0 lo hi acc) (b ∷ bs) ≡ and_then (read_text start bs) (acc * 64 + (b - 0x80))
unfolding read_text read_byte
last_byte lo hi acc b bs h = rw (read_text, h) refl

next_byte :
    (k lo hi acc b : ℕ) (bs : List ℕ)
    → in_range lo hi b ≡ true
    → read_text (more (suc k) lo hi acc) (b ∷ bs)
      ≡ read_text (more k 0x80 0xbf (acc * 64 + (b - 0x80))) bs
unfolding read_text read_byte
next_byte k lo hi acc b bs h = rw (read_text, h) refl

first_byte :
    (b : ℕ) (t : Reading) (bs : List ℕ)
    → lead b ≡ partial t
    → read_text start (b ∷ bs) ≡ read_text t bs
unfolding read_text read_byte
first_byte b t bs h = rw (read_text, h) refl

only_byte :
    (b : ℕ) (bs : List ℕ) → b < 0x80 → read_text start (b ∷ bs) ≡ and_then (read_text start bs) b
unfolding read_text read_byte lead
only_byte b bs h = (let e = lt→ltb b 0x80 h in rw (read_text, e) refl)

-- The lead byte of a sequence of two, three and four bytes.
lead_two : (q : ℕ) → 2 ≤ q → q < 32 → lead (0xc0 + q) ≡ partial (more 0 0x80 0xbf q)
unfolding lead
lead_two q h k = ground arith

lead_three :
    (q : ℕ) → q < 16 → (q ≡ 0 → ⊥) → (q ≡ 13 → ⊥) → lead (0xe0 + q) ≡ partial (more 1 0x80 0xbf q)
unfolding lead
lead_three q h k1 k2 = ground arith

lead_four : (q : ℕ) → q < 4 → (q ≡ 0 → ⊥) → lead (0xf0 + q) ≡ partial (more 2 0x80 0xbf q)
unfolding lead
lead_four q h k = ground arith

in_range_of : (lo hi b : ℕ) → lo ≤ b → b ≤ hi → in_range lo hi b ≡ true
in_range_of lo hi b h k = ground arith

-- The first two bytes of three, and of four.
two_of_three :
    (q b : ℕ) (bs : List ℕ)
    → q < 16
    → 0x80 ≤ b
    → b ≤ 0xbf
    → (q ≡ 0 → 0xa0 ≤ b)
    → (q ≡ 13 → b ≤ 0x9f)
    → read_text start ((0xe0 + q) ∷ b ∷ bs) ≡ read_text (more 0 0x80 0xbf (q * 64 + (b - 0x80))) bs
unfolding lead
two_of_three q b bs h lo hi k1 k2 = elim (Bool-cases (q == 0)) [
  | inl e ↦
      let z : q ≡ 0 = ground arith in
      rw z (
        first_byte 0xe0 (more 1 0xa0 0xbf 0) (b ∷ bs) refl
        ∙ next_byte 0 0xa0 0xbf 0 b bs (in_range_of 0xa0 0xbf b (k1 z) hi))
  | inr e ↦ elim (Bool-cases (q == 13)) [
    | inl f ↦
        let z : q ≡ 13 = ground arith in
        rw z (
          first_byte 0xed (more 1 0x80 0x9f 13) (b ∷ bs) refl
          ∙ next_byte 0 0x80 0x9f 13 b bs (in_range_of 0x80 0x9f b lo (k2 z)))
    | inr f ↦
        first_byte (0xe0 + q) (more 1 0x80 0xbf q) (b ∷ bs)
          (lead_three q h (λ z. ground arith) (λ z. ground arith))
        ∙ next_byte 0 0x80 0xbf q b bs (in_range_of 0x80 0xbf b lo hi)
  ]
]

two_of_four :
    (q b : ℕ) (bs : List ℕ)
    → q < 5
    → 0x80 ≤ b
    → b ≤ 0xbf
    → (q ≡ 0 → 0x90 ≤ b)
    → (q ≡ 4 → b ≤ 0x8f)
    → read_text start ((0xf0 + q) ∷ b ∷ bs) ≡ read_text (more 1 0x80 0xbf (q * 64 + (b - 0x80))) bs
unfolding lead
two_of_four q b bs h lo hi k1 k2 = elim (Bool-cases (q == 0)) [
  | inl e ↦
      let z : q ≡ 0 = ground arith in
      rw z (
        first_byte 0xf0 (more 2 0x90 0xbf 0) (b ∷ bs) refl
        ∙ next_byte 1 0x90 0xbf 0 b bs (in_range_of 0x90 0xbf b (k1 z) hi))
  | inr e ↦ elim (Bool-cases (q == 4)) [
    | inl f ↦
        let z : q ≡ 4 = ground arith in
        rw z (
          first_byte 0xf4 (more 2 0x80 0x8f 4) (b ∷ bs) refl
          ∙ next_byte 1 0x80 0x8f 4 b bs (in_range_of 0x80 0x8f b lo (k2 z)))
    | inr f ↦
        let not_four : q ≡ 4 → ⊥ = λ z. ground arith in
        first_byte (0xf0 + q) (more 2 0x80 0xbf q) (b ∷ bs)
          (lead_four q (omega arith) (λ z. ground arith))
        ∙ next_byte 1 0x80 0xbf q b bs (in_range_of 0x80 0xbf b lo hi)
  ]
]

three :
    (c : ℕ) (bs : List ℕ)
    → ltb c 0x80 ≡ false
    → ltb c 0x800 ≡ false
    → ltb c 0x10000 ≡ true
    → IsScalar c
    → read_text start (encode_char c ++ bs) ≡ and_then (read_text start bs) c
unfolding encode_char
three c bs e f g h =
    let small : c < 0x10000 = ltb→lt c 0x10000 g in
    let big : 0x800 ≤ c = ground arith in
    let q = c / 4096 in
    let b = 0x80 + c / 64 % 64 in
    let d = 0x80 + c % 64 in
    let value : (q * 64 + (b - 0x80)) * 64 + (d - 0x80) ≡ c = omega arith in
    let surrogates : q ≡ 13 → b ≤ 0x9f =
      λ z. elim h [ inl k ↦ omega arith | inr k ↦ omega (arith, k.0) ] in
    rw (e, f, g)
      (two_of_three q b (d ∷ bs) (omega arith) (omega arith) (omega arith) (λ z. omega arith)
          surrogates
        ∙ last_byte 0x80 0xbf (q * 64 + (b - 0x80)) d bs
            (in_range_of 0x80 0xbf d (omega arith) (omega arith))
        ∙ ap (and_then (read_text start bs)) value)

four :
    (c : ℕ) (bs : List ℕ)
    → ltb c 0x80 ≡ false
    → ltb c 0x800 ≡ false
    → ltb c 0x10000 ≡ false
    → IsScalar c
    → read_text start (encode_char c ++ bs) ≡ and_then (read_text start bs) c
unfolding encode_char
four c bs e f g h =
    let big : 0x10000 ≤ c = ground arith in
    let small : c < 0x110000 = elim h [ inl k ↦ omega arith | inr k ↦ k.1 ] in
    let q = c / 262144 in
    let b = 0x80 + c / 4096 % 64 in
    let d = 0x80 + c / 64 % 64 in
    let i = 0x80 + c % 64 in
    let two = q * 64 + (b - 0x80) in
    let value : (two * 64 + (d - 0x80)) * 64 + (i - 0x80) ≡ c = omega arith in
    rw (e, f, g)
      (two_of_four q b (d ∷ i ∷ bs) (omega arith) (omega arith) (omega arith) (λ z. omega arith)
          (λ z. omega arith)
        ∙ next_byte 0 0x80 0xbf two d (i ∷ bs) (in_range_of 0x80 0xbf d (omega arith) (omega arith))
        ∙ last_byte 0x80 0xbf (two * 64 + (d - 0x80)) i bs
            (in_range_of 0x80 0xbf i (omega arith) (omega arith))
        ∙ ap (and_then (read_text start bs)) value)

read_text-encode_char :
    (c : ℕ) (bs : List ℕ)
    → IsScalar c
    → read_text start (encode_char c ++ bs) ≡ and_then (read_text start bs) c
unfolding encode_char
read_text-encode_char c bs h = elim (Bool-cases (ltb c 0x80)) [
  | inl e ↦ rw e (only_byte c bs (ltb→lt c 0x80 e))
  | inr e ↦ elim (Bool-cases (ltb c 0x800)) [
    | inl f ↦
        let small : c < 0x800 = ltb→lt c 0x800 f in
        let big : 0x80 ≤ c = ground arith in
        let value : c / 64 * 64 + (0x80 + c % 64 - 0x80) ≡ c = omega arith in
        rw (e, f)
          (first_byte (0xc0 + c / 64) (more 0 0x80 0xbf (c / 64)) _
              (lead_two (c / 64) (omega arith) (omega arith))
            ∙ last_byte 0x80 0xbf (c / 64) (0x80 + c % 64) bs
                (in_range_of 0x80 0xbf (0x80 + c % 64) (omega arith) (omega arith))
            ∙ ap (and_then (read_text start bs)) value)
    | inr f ↦ elim (Bool-cases (ltb c 0x10000)) [
      | inl g ↦ three c bs e f g h
      | inr g ↦ four c bs e f g h
    ]
  ]
]

pub from_utf8-as_bytes : (text : List ℕ) → All IsScalar text → from_utf8 (as_bytes text) ≡ some text
unfolding from_utf8 as_bytes read_text and_then
from_utf8-as_bytes [] h = refl
from_utf8-as_bytes (c ∷ cs) h =
    read_text-encode_char c (as_bytes cs) h.0
    ∙ ap (λ (o : Option (List ℕ)). and_then o c) (from_utf8-as_bytes cs h.1)
