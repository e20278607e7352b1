-- ===== src/Airdrop/HttpBodies.antt =====
-- src/airdrop/http.rs: bodies that come in chunks, and what a request that is read may hold.
use adhoc_cross_device_conne.Prelude.{
  ℕ, zero, suc, ◌+◌, ◌-◌, ◌≤◌, ◌<◌, ◌^◌, ◌≡◌, refl, sym, ap, ◌∙◌, true, false, List, [], ◌∷◌, ◌++◌,
  some, ◌==◌, ltb, leb, le→leb, length, length-append, take-append, drop-append, append_assoc, All,
  arith, inl, inr,
}
use adhoc_cross_device_conne.Prelude.Digits.{
  digits, from_str_radix-digits, digits-IsDigit, length-digits, IsDigit, IsDigit-ascii,
}
use adhoc_cross_device_conne.Prelude.Scalars.{
  IsScalar, encode_char, as_bytes, from_utf8, from_utf8-as_bytes,
}
use adhoc_cross_device_conne.Prelude.Chunks.{concat}
use adhoc_cross_device_conne.Prelude.Result.{ok}
use adhoc_cross_device_conne.Airdrop.Http.{
  split_line, strip_cr, line_limit, line, is_whitespace, trim, trim_start, trim_end, split_once,
  copy_body, chunk_size, read_trailers, read_chunk, read_chunks, read_body,
}

-- A line of digits, as the reader takes it.
split_line-append :
    (text rest : List ℕ)
    → All (λ (c : ℕ). (c == 0x0a) ≡ false) text
    → split_line (text ++ 0x0a ∷ rest) ≡ some (text, rest)
unfolding split_line
split_line-append [] rest h = refl
split_line-append (c ∷ cs) rest h = rw (h.0, split_line-append cs rest h.1) refl

strip_cr-append : (text : List ℕ) → strip_cr (text ++ 0x0d ∷ []) ≡ some text
unfolding strip_cr
strip_cr-append [] = refl
strip_cr-append (c ∷ []) = refl
strip_cr-append (c ∷ d ∷ ds) = rw (strip_cr-append (d ∷ ds)) refl

digits-no_feed :
    (ds : List ℕ) → All IsDigit ds → All (λ (c : ℕ). (c == 0x0a) ≡ false) (ds ++ 0x0d ∷ [])
digits-no_feed [] h = (refl, tt)
digits-no_feed (d ∷ ds) h = (no_feed d h.0, digits-no_feed ds h.1)
  where
    no_feed : (c : ℕ) → IsDigit c → (c == 0x0a) ≡ false
    no_feed c (inl h) = (let k = h.0 in ground arith)
    no_feed c (inr h) = (let k = h.0 in ground arith)

as_bytes-IsDigit : (ds : List ℕ) → All IsDigit ds → as_bytes ds ≡ ds
unfolding as_bytes encode_char
as_bytes-IsDigit [] h = refl
as_bytes-IsDigit (d ∷ ds) h =
    (let small = IsDigit-ascii d h.0 in
      let e : ltb d 0x80 ≡ true = ground arith in rw (e, as_bytes-IsDigit ds h.1) refl)

digits-IsScalar : (ds : List ℕ) → All IsDigit ds → All IsScalar ds
digits-IsScalar [] h = tt
digits-IsScalar (d ∷ ds) h =
    (let small = IsDigit-ascii d h.0 in (inl (omega arith), digits-IsScalar ds h.1))

from_utf8-IsDigit : (ds : List ℕ) → All IsDigit ds → from_utf8 ds ≡ some ds
from_utf8-IsDigit ds h =
    ap from_utf8 (sym (as_bytes-IsDigit ds h)) ∙ from_utf8-as_bytes ds (digits-IsScalar ds h)

line-IsDigit :
    (ds rest : List ℕ)
    → All IsDigit ds
    → length ds ≤ 64
    → line (ds ++ (0x0d ∷ 0x0a ∷ rest)) ≡ ok (ds, rest)
unfolding line
line-IsDigit ds rest h k =
    let apart : ds ++ (0x0d ∷ 0x0a ∷ rest) ≡ (ds ++ 0x0d ∷ []) ++ 0x0a ∷ rest =
      sym (append_assoc ds (0x0d ∷ []) (0x0a ∷ rest)) in
    let split : split_line (ds ++ (0x0d ∷ 0x0a ∷ rest)) ≡ some (ds ++ 0x0d ∷ [], rest) =
      ap split_line apart ∙ split_line-append (ds ++ 0x0d ∷ []) rest (digits-no_feed ds h) in
    let short : leb (suc (length (ds ++ 0x0d ∷ []))) line_limit ≡ true =
      le→leb (suc (length (ds ++ 0x0d ∷ []))) line_limit
        (omega (arith, length-append ds (0x0d ∷ []))) in
    rw (line, split, short, strip_cr-append ds, from_utf8-IsDigit ds h) refl

-- Digits hold no white space and no semicolon.
split_once-IsDigit : (ds : List ℕ) → All IsDigit ds → (split_once 0x3b ds).0 ≡ ds
unfolding split_once
split_once-IsDigit [] h = refl
split_once-IsDigit (d ∷ ds) h = rw (no_semicolon d h.0, split_once-IsDigit ds h.1) refl
  where
    no_semicolon : (c : ℕ) → IsDigit c → (c == 0x3b) ≡ false
    no_semicolon c (inl h) = (let k = h.1 in ground arith)
    no_semicolon c (inr h) = (let k = h.0 in ground arith)

is_whitespace-IsDigit : (c : ℕ) → IsDigit c → is_whitespace c ≡ false
unfolding is_whitespace
is_whitespace-IsDigit c (inl h) = (let k = h.0 in let l = h.1 in ground arith)
is_whitespace-IsDigit c (inr h) = (let k = h.0 in let l = h.1 in ground arith)

trim_end-IsDigit : (ds : List ℕ) → All IsDigit ds → trim_end ds ≡ ds
unfolding trim_end
trim_end-IsDigit [] h = refl
trim_end-IsDigit (d ∷ []) h = rw (is_whitespace-IsDigit d h.0) refl
trim_end-IsDigit (d ∷ e ∷ es) h = rw (trim_end-IsDigit (e ∷ es) h.1) refl

trim-IsDigit : (ds : List ℕ) → All IsDigit ds → trim ds ≡ ds
unfolding trim_start
trim-IsDigit ds h = rw (trim_end-IsDigit ds h) (start ds h)
  where
    start : (ds : List ℕ) → All IsDigit ds → trim_start ds ≡ ds
    start [] h = refl
    start (d ∷ ds) h = rw (is_whitespace-IsDigit d h.0) refl

chunk_size-digits : (n : ℕ) → n < 2 ^ 64 → chunk_size (digits 16 n) ≡ ok n
unfolding chunk_size
chunk_size-digits n h =
    let ds = digits-IsDigit 16 n (inr (inr refl)) in
    rw
      (
        split_once-IsDigit (digits 16 n) ds,
        trim-IsDigit (digits 16 n) ds,
        from_str_radix-digits 16 n (inr (inr refl)) h,
      )
      refl

-- The chunked form of a body: each part behind its length, in hexadecimal, and at last a part of no bytes.
abbrev pub chunk : List ℕ → List ℕ → List ℕ
chunk part rest = digits 16 (length part) ++ (0x0d ∷ 0x0a ∷ (part ++ (0x0d ∷ 0x0a ∷ rest)))

abbrev pub chunked : List (List ℕ) → List ℕ → List ℕ
chunked [] rest = digits 16 0 ++ (0x0d ∷ 0x0a ∷ 0x0d ∷ 0x0a ∷ rest)
chunked (p ∷ ps) rest = chunk p (chunked ps rest)

abbrev pub NonEmpty : List ℕ → Type 0
NonEmpty p = 1 ≤ length p

copy_body-append : (xs ys : List ℕ) → copy_body (length xs) (xs ++ ys) ≡ ok (xs, ys)
unfolding copy_body
copy_body-append xs ys =
    let enough = le→leb (length xs) (length (xs ++ ys)) (omega (arith, length-append xs ys)) in
    rw (enough, take-append xs ys, drop-append xs ys) refl

read_chunk-chunk :
    (limit consumed : ℕ) (part rest : List ℕ)
    → consumed + length part ≤ limit
    → read_chunk limit consumed (length part) (part ++ (0x0d ∷ 0x0a ∷ rest)) ≡ ok (part, rest)
unfolding read_chunk
read_chunk-chunk limit consumed part rest h =
    let fits = le→leb (length part) (limit - consumed) (omega arith) in
    rw (fits, copy_body-append part (0x0d ∷ 0x0a ∷ rest), copy_body-append (0x0d ∷ 0x0a ∷ []) rest)
      refl

line-length :
    (n : ℕ) (rest : List ℕ) → line (digits 16 n ++ (0x0d ∷ 0x0a ∷ rest)) ≡ ok (digits 16 n, rest)
line-length n rest =
    line-IsDigit (digits 16 n) rest (digits-IsDigit 16 n (inr (inr refl))) (length-digits 16 n)

read_trailers-none :
    (fuel : ℕ) (rest : List ℕ) → read_trailers (suc fuel) 0 (0x0d ∷ 0x0a ∷ rest) ≡ ok rest
unfolding read_trailers
read_trailers-none fuel rest = rw (line-IsDigit [] rest tt (omega arith)) refl

read_chunks-chunked :
    (parts : List (List ℕ)) (fuel limit consumed : ℕ) (rest : List ℕ)
    → All NonEmpty parts
    → length parts < fuel
    → consumed + length (concat parts) ≤ limit
    → limit < 2 ^ 64
    → read_chunks fuel limit consumed (chunked parts rest) ≡ ok (concat parts, rest)
unfolding read_chunks
read_chunks-chunked parts zero limit consumed rest h k l m = absurd (omega arith)
read_chunks-chunked [] (suc fuel) limit consumed rest h k l m =
    rw
      (
        line-length 0 (0x0d ∷ 0x0a ∷ rest),
        chunk_size-digits 0 (omega arith),
        read_trailers-none (suc (suc (length rest))) rest,
      )
      refl
read_chunks-chunked (p ∷ ps) (suc fuel) limit consumed rest h k l m =
    let size = length-append p (concat ps) in
    let some_bytes : (length p == 0) ≡ false = (let q = h.0 in ground arith) in
    let ih =
      read_chunks-chunked ps fuel limit (consumed + length p) rest h.1 (omega arith) (omega arith)
        m in
    rw
      (
        line-length (length p) (p ++ (0x0d ∷ 0x0a ∷ chunked ps rest)),
        chunk_size-digits (length p) (omega arith),
        some_bytes,
        read_chunk-chunk limit consumed p (chunked ps rest) (omega arith),
        ih,
      )
      refl

length-chunked :
    (parts : List (List ℕ)) (rest : List ℕ) → length parts ≤ length (chunked parts rest)
length-chunked [] rest = omega arith
length-chunked (p ∷ ps) rest = omega (
  arith,
  length-chunked ps rest,
  length-append (digits 16 (length p)) (0x0d ∷ 0x0a ∷ (p ++ (0x0d ∷ 0x0a ∷ chunked ps rest))),
  length-append p (0x0d ∷ 0x0a ∷ chunked ps rest),
)

-- The chunked form of a body, in parts of one byte or more and of at most the limit in all, is read back as the body,
-- and the bytes behind it are left for the next request. The limit is below 2 ^ 64.
pub read_body-chunked :
    (parts : List (List ℕ)) (limit n : ℕ) (rest : List ℕ)
    → All NonEmpty parts
    → length (concat parts) ≤ limit
    → limit < 2 ^ 64
    → read_body limit (true, n) (chunked parts rest) ≡ ok (concat parts, rest)
unfolding read_body
read_body-chunked parts limit n rest h k m =
    read_chunks-chunked parts (suc (length (chunked parts rest))) limit 0 rest h
      (omega (arith, length-chunked parts rest)) (omega arith) m
