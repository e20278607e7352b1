-- ===== src/Prelude/ScalarValues.antt =====
-- What `str::from_utf8` accepts holds scalar values only.
use Prim.Native.Nat.{ℕ, zero, suc, ◌+◌, ◌-◌, ◌*◌, ◌≤◌, ◌<◌}
use mathlib.Core.Path.{◌≡◌, refl, sym, ◌∙◌}
use mathlib.Core.Bool.{Bool, true, false}
use mathlib.Core.Option.{Option, none, some}
use mathlib.Core.List.{List, [], ◌∷◌}
use mathlib.Core.Logic.{◌⊎◌, inl, inr}
use native.Mathlib.Omega.{arith}
use adhoc_cross_device_conne.Prelude.Tests.{ltb, ◌==◌, in_range, if◌then◌else◌, Bool-cases}
use adhoc_cross_device_conne.Prelude.Lists.{All}
use adhoc_cross_device_conne.Prelude.Scalars.{
  IsScalar, Reading, start, more, Read, bad, whole, partial, lead, read_byte, and_then, read_text,
  from_utf8,
}

-- The values from x to y are scalar values.
abbrev Range : ℕ → ℕ → Type 0
Range x y = (y < 0xd800) ⊎ ((0xe000 ≤ x) × (y < 0x110000))

-- What may still follow a partial sequence leads to scalar values only.
abbrev Leads : Reading → Type 0
Leads start = Unit
Leads (more zero lo hi acc) =
    (0x80 ≤ lo) × (hi ≤ 0xbf) × Range (acc * 64 + (lo - 0x80)) (acc * 64 + (hi - 0x80))
Leads (more (suc zero) lo hi acc) =
    (0x80 ≤ lo)
    × (hi ≤ 0xbf)
    × Range ((acc * 64 + (lo - 0x80)) * 64) ((acc * 64 + (hi - 0x80)) * 64 + 63)
Leads (more (suc (suc zero)) lo hi acc) =
    (0x80 ≤ lo)
    × (hi ≤ 0xbf)
    × Range ((acc * 64 + (lo - 0x80)) * 4096) ((acc * 64 + (hi - 0x80)) * 4096 + 4095)
Leads (more (suc (suc (suc k))) lo hi acc) = ⊥

abbrev Good : Read → Type 0
Good bad = Unit
Good (whole c) = IsScalar c
Good (partial t) = Leads t

if-Good :
    (c : Bool) (x y : Read) → (c ≡ true → Good x) → (c ≡ false → Good y) → Good (if c then x else y)
if-Good true x y h k = h refl
if-Good false x y h k = k refl

middle :
    (b : ℕ)
    → (b == 0xed) ≡ false
    → in_range 0xe1 0xef b ≡ true
    → Range (((b - 0xe0) * 64 + (0x80 - 0x80)) * 64) (((b - 0xe0) * 64 + (0xbf - 0x80)) * 64 + 63)
middle b f e = elim (Bool-cases (ltb b 0xed)) [
  | inl g ↦ inl (ground arith)
  | inr g ↦ inr (ground arith, ground arith)
]

lead-Good : (b : ℕ) → Good (lead b)
unfolding lead
lead-Good b =
    if-Good (ltb b 0x80) _ _ (λ e. inl (ground arith))
      λ e.
        if-Good (in_range 0xc2 0xdf b) _ _ (λ e. (omega arith, omega arith, inl (ground arith)))
          λ e.
            if-Good (b == 0xe0) _ _ (λ e. (omega arith, omega arith, inl (omega arith)))
              λ e.
                if-Good (b == 0xed) _ _ (λ e. (omega arith, omega arith, inl (omega arith)))
                  λ f.
                    if-Good (in_range 0xe1 0xef b) _ _
                      (λ e. (omega arith, omega arith, middle b f e))
                      λ e.
                        if-Good (b == 0xf0) _ _
                          (λ e. (omega arith, omega arith, inr (omega arith, omega arith)))
                          λ e.
                            if-Good (in_range 0xf1 0xf3 b) _ _
                              (λ e. (omega arith, omega arith, inr (ground arith, ground arith)))
                              λ e.
                                if-Good (b == 0xf4) _ _
                                  (λ e. (omega arith, omega arith, inr (omega arith, omega arith)))
                                  λ e. tt

narrow : (x y x' y' : ℕ) → Range x y → x ≤ x' → y' ≤ y → Range x' y'
narrow x y x' y' (inl h) k l = inl (omega arith)
narrow x y x' y' (inr h) k l = inr (omega (arith, h.0), omega (arith, h.1))

in_range-le : (lo hi b : ℕ) → in_range lo hi b ≡ true → (lo ≤ b) × (b ≤ hi)
in_range-le lo hi b h = (ground arith, ground arith)

Range-IsScalar : (c : ℕ) → Range c c → IsScalar c
Range-IsScalar c h = h

read_byte-Good : (s : Reading) (b : ℕ) → Leads s → Good (read_byte s b)
unfolding read_byte
read_byte-Good start b h = lead-Good b
read_byte-Good (more zero lo hi acc) b h =
    if-Good (in_range lo hi b) _ _
      (λ e.
        let (above, below) = in_range-le lo hi b e in
        Range-IsScalar (acc * 64 + (b - 0x80))
          (narrow _ _ _ _ h.2 (omega arith) (omega (arith, h.0))))
      (λ e. tt)
read_byte-Good (more (suc zero) lo hi acc) b h =
    if-Good (in_range lo hi b) _ _
      (λ e.
        let (above, below) = in_range-le lo hi b e in
        (omega arith, omega arith, narrow _ _ _ _ h.2 (omega arith) (omega (arith, h.0))))
      (λ e. tt)
read_byte-Good (more (suc (suc zero)) lo hi acc) b h =
    if-Good (in_range lo hi b) _ _
      (λ e.
        let (above, below) = in_range-le lo hi b e in
        (omega arith, omega arith, narrow _ _ _ _ h.2 (omega arith) (omega (arith, h.0))))
      (λ e. tt)
read_byte-Good (more (suc (suc (suc k))) lo hi acc) b h = absurd h

and_then_inv :
    (o : Option (List ℕ)) (c : ℕ) (text : List ℕ)
    → and_then o c ≡ some text
    → (cs : List ℕ) × (o ≡ some cs) × (text ≡ c ∷ cs)
unfolding and_then
and_then_inv none c text h = absurd cc
and_then_inv (some cs) c text h = (cs, refl, cc)

-- What is read behind a byte, by what the byte was.
abbrev behind : Read → List ℕ → Option (List ℕ)
behind r bs = elim r [
  | bad ↦ none
  | whole c ↦ and_then (read_text start bs) c
  | partial t ↦ read_text t bs
]

read_text-behind :
    (s : Reading) (b : ℕ) (bs : List ℕ) → read_text s (b ∷ bs) ≡ behind (read_byte s b) bs
unfolding read_text
read_text-behind start b bs = refl
read_text-behind (more k lo hi acc) b bs = refl

behind-IsScalar :
    (bs : List ℕ) (r : Read) (text : List ℕ)
    → ((s : Reading) (t : List ℕ) → Leads s → read_text s bs ≡ some t → All IsScalar t)
    → Good r
    → behind r bs ≡ some text
    → All IsScalar text
behind-IsScalar bs bad text ih h e = absurd cc
behind-IsScalar bs (whole c) text ih h e =
    let (cs, f, same) = and_then_inv (read_text start bs) c text e in rw same (h, ih start cs tt f)
behind-IsScalar bs (partial t) text ih h e = ih t text h e

read_text-IsScalar :
    (bs : List ℕ) (s : Reading) (text : List ℕ)
    → Leads s
    → read_text s bs ≡ some text
    → All IsScalar text
unfolding read_text
read_text-IsScalar [] start text h e = (let same : text ≡ [] = cc in rw same tt)
read_text-IsScalar [] (more k lo hi acc) text h e = absurd cc
read_text-IsScalar (b ∷ bs) s text h e =
    behind-IsScalar bs (read_byte s b) text (read_text-IsScalar bs) (read_byte-Good s b h)
      (sym (read_text-behind s b bs) ∙ e)

-- What is read is a text of scalar values.
pub from_utf8-IsScalar : (bs text : List ℕ) → from_utf8 bs ≡ some text → All IsScalar text
unfolding from_utf8
from_utf8-IsScalar bs text h = read_text-IsScalar bs start text tt h
