-- ===== src/Tlv8/Sizes.antt =====
-- The length of the wire form of TLV8 items, and that it is of bytes.
use adhoc_cross_device_conne.Prelude.{
  ℕ, ◌+◌, ◌*◌, ◌≤◌, ap, sym, subst, List, [], ◌∷◌, ◌++◌, arith, length, length-append, All,
  All-append,
}
use adhoc_cross_device_conne.Prelude.Bytes.{IsByte}
use adhoc_cross_device_conne.Prelude.Chunks.{chunks, concat, Fit, concat-chunks, chunks-Fit}
use adhoc_cross_device_conne.Tlv8.{Tlv8, encode, encode_item, encode_chunks}

length-encode_chunks :
    (t n : ℕ) (cs : List (List ℕ)) → Fit n cs → length (encode_chunks t cs) ≤ 3 * length (concat cs)
unfolding encode_chunks
length-encode_chunks t n [] h = omega arith
length-encode_chunks t n (c ∷ cs) h = omega (
  arith,
  h.0,
  length-append c (encode_chunks t cs),
  length-append c (concat cs),
  length-encode_chunks t n cs h.2,
)

length-encode_item : (t : ℕ) (v : List ℕ) → length (encode_item t v) ≤ 3 * length v + 2
unfolding encode_item
length-encode_item t [] = omega arith
length-encode_item t (b ∷ bs) = omega (
  arith,
  length-encode_chunks t 255 (chunks 255 (b ∷ bs)) (chunks-Fit 254 (b ∷ bs)),
  ap length (concat-chunks 254 (b ∷ bs)),
)

-- The sum of the lengths of the values, and the number of items.
abbrev pub weight : Tlv8 → ℕ
weight [] = 0
weight ((t, v) ∷ items) = 3 * length v + 2 + weight items

pub length-encode : (items : Tlv8) → length (encode items) ≤ weight items
unfolding encode
length-encode [] = omega arith
length-encode ((t, v) ∷ items) = omega (
  arith,
  length-append (encode_item t v) (encode items),
  length-encode_item t v,
  length-encode items,
)

All-left : (xs ys : List ℕ) → All IsByte (xs ++ ys) → All IsByte xs
All-left [] ys h = tt
All-left (x ∷ xs) ys h = (h.0, All-left xs ys h.1)

All-right : (xs ys : List ℕ) → All IsByte (xs ++ ys) → All IsByte ys
All-right [] ys h = h
All-right (x ∷ xs) ys h = All-right xs ys h.1

All-concat : (cs : List (List ℕ)) → All IsByte (concat cs) → All (All IsByte) cs
All-concat [] h = tt
All-concat (c ∷ cs) h = (All-left c (concat cs) h, All-concat cs (All-right c (concat cs) h))

encode_chunks-IsByte :
    (t : ℕ) (cs : List (List ℕ)) → IsByte t → All (All IsByte) cs → All IsByte (encode_chunks t cs)
unfolding encode_chunks
encode_chunks-IsByte t [] h k = tt
encode_chunks-IsByte t (c ∷ cs) h k = (
  h,
  (omega arith, All-append IsByte c (encode_chunks t cs) k.0 (encode_chunks-IsByte t cs h k.1)),
)

encode_item-IsByte : (t : ℕ) (v : List ℕ) → IsByte t → All IsByte v → All IsByte (encode_item t v)
unfolding encode_item
encode_item-IsByte t [] h k = (h, (omega arith, tt))
encode_item-IsByte t (b ∷ bs) h k = encode_chunks-IsByte t (chunks 255 (b ∷ bs)) h (
    All-concat (chunks 255 (b ∷ bs))
      (subst (λ (x : List ℕ). All IsByte x) (sym (concat-chunks 254 (b ∷ bs))) k))

-- Types and values are bytes.
abbrev pub AreBytes : Tlv8 → Type 0
AreBytes [] = Unit
AreBytes ((t, v) ∷ items) = IsByte t × All IsByte v × AreBytes items

pub encode-IsByte : (items : Tlv8) → AreBytes items → All IsByte (encode items)
unfolding encode
encode-IsByte [] h = tt
encode-IsByte ((t, v) ∷ items) h =
    All-append IsByte (encode_item t v) (encode items) (encode_item-IsByte t v h.0 h.1)
      (encode-IsByte items h.2)
