-- ===== src/Opack/Widen.antt =====
-- src/opack.rs: the widening of an `f32`.
use adhoc_cross_device_conne.Prelude.{
  ℕ, zero, suc, ◌+◌, ◌-◌, ◌*◌, ◌%◌, ◌^◌, ◌≤◌, ◌<◌, ◌≡◌, refl, Bool, true, ◌&&◌, leb, ◌==◌, arith,
  Bool-cases, inl, inr,
}
use adhoc_cross_device_conne.Prelude.Bytes.{IsU64}
use adhoc_cross_device_conne.Opack.Decode.{top_bit, widen}

-- `top_bit p m` is the highest bit of a number below 2 ^ (p + 1).
top_bit_range : (p m : ℕ) → m < 2 ^ suc p → (top_bit p m ≤ p) × (m < 2 ^ suc (top_bit p m))
unfolding top_bit
top_bit_range zero m h = (omega arith, h)
top_bit_range (suc p) m h = elim (Bool-cases (leb (2 ^ suc p) m)) [
  | inl e ↦ rw e (omega arith, h)
  | inr e ↦
      let small : m < 2 ^ suc p = ground arith in
      let (lo, hi) = top_bit_range p m small in rw e (omega arith, hi)
]

-- What the shift of a mantissa needs of the powers of two, for each shift, by evaluation.
powers_agree : ℕ → Bool
powers_agree p = 2 ^ p * 2 ^ (52 - p) == 2 ^ 52 && 2 ^ suc p == 2 * 2 ^ p

powers_agree_up_to : ℕ → Bool
unfolding powers_agree
powers_agree_up_to zero = powers_agree 0
powers_agree_up_to (suc n) = powers_agree_up_to n && powers_agree (suc n)

-- The shifts that a test up to a limit covers.
powers_at : (limit p : ℕ) → p ≤ limit → powers_agree_up_to limit ≡ true → powers_agree p ≡ true
unfolding powers_agree_up_to
powers_at zero p h t = (let z : p ≡ 0 = omega arith in rw z t)
powers_at (suc limit) p h t = elim (Bool-cases (leb p limit)) [
  | inl e ↦ powers_at limit p (ground arith) (ground arith)
  | inr e ↦ (let z : p ≡ suc limit = ground arith in rw z (ground arith))
]

powers_22 : powers_agree_up_to 22 ≡ true
unfolding powers_agree_up_to
powers_22 = refl

-- A subnormal's mantissa, shifted to 52 bits.
mantissa_fits : (p m : ℕ) → p < 23 → m < 2 ^ suc p → (m - 2 ^ p) * 2 ^ (52 - p) < 2 ^ 52
unfolding powers_agree
mantissa_fits p m hp hm =
    let t : powers_agree p ≡ true = powers_at 22 p (omega arith) powers_22 in
    let a : 2 ^ p * 2 ^ (52 - p) ≡ 2 ^ 52 = ground arith in
    let b : 2 ^ suc p ≡ 2 * 2 ^ p = ground arith in
    let w : 0 < 2 ^ (52 - p) = grind arith in
    let d : (m - 2 ^ p) + 1 ≤ 2 ^ p = omega arith in
    let e : ((m - 2 ^ p) + 1) * 2 ^ (52 - p) ≤ 2 ^ p * 2 ^ (52 - p) = grind arith in omega arith

pub widen-IsU64 : (b : ℕ) → b < 2 ^ 32 → IsU64 (widen b)
unfolding widen
widen-IsU64 b h =
    ground
      (arith, top_bit_range 22 (b % 2 ^ 23), mantissa_fits (top_bit 22 (b % 2 ^ 23)) (b % 2 ^ 23))
