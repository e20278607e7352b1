-- ===== src/Opack/Sizes.antt =====
-- The length of the encoding of strings and of data.
use adhoc_cross_device_conne.Prelude.{
  ℕ, ◌+◌, ◌≤◌, leb, List, ◌∷◌, ◌++◌, arith, length, length-append, Bool-cases, inl, inr,
}
use adhoc_cross_device_conne.Prelude.Bytes.{le_bytes, length-le_bytes}
use adhoc_cross_device_conne.Opack.Encode.{encode_bytes}

prefixed : (t n v : ℕ) (b : List ℕ) → n ≤ 8 → length (t ∷ (le_bytes n v ++ b)) ≤ length b + 9
prefixed t n v b h = omega (arith, length-append (le_bytes n v) b, length-le_bytes n v)

pub length-encode_bytes_le : (b : List ℕ) → length (encode_bytes b) ≤ length b + 9
unfolding encode_bytes
length-encode_bytes_le b =
    let n = length b in
    elim (Bool-cases (leb n 32)) [
      | inl e ↦ rw e (omega arith)
      | inr e ↦ elim (Bool-cases (leb n 255)) [
        | inl f ↦ rw (e, f) (prefixed 0x91 1 n b (omega arith))
        | inr f ↦ elim (Bool-cases (leb n 65535)) [
          | inl g ↦ rw (e, f, g) (prefixed 0x92 2 n b (omega arith))
          | inr g ↦ elim (Bool-cases (leb n 0xffff_ffff)) [
            | inl h ↦ rw (e, f, g, h) (prefixed 0x93 4 n b (omega arith))
            | inr h ↦ rw (e, f, g, h) (prefixed 0x94 8 n b (omega arith))
          ]
        ]
      ]
    ]
