-- ===== src/Airdrop/Headers.antt =====
-- src/airdrop/outgoing.rs, src/airdrop/storage.rs: the header that is written for an entry, read back.
use adhoc_cross_device_conne.Prelude.{
  ℕ, ◌+◌, ◌-◌, ◌^◌, ◌%◌, ◌≤◌, ◌<◌, ◌≡◌, refl, sym, ap, subst, ◌∙◌, true, inl, List, [], ◌∷◌, ◌++◌,
  some, leb, in_range, leb→le, le→leb, arith, length, length-append, take, drop, take-append,
  drop-append, append_assoc, parts, parts-append, total_length, drop-parts, length-parts,
  take-drop-take, All,
}
use adhoc_cross_device_conne.Prelude.Bytes.{codes}
use adhoc_cross_device_conne.Prelude.Utf8.{ascii-valid_utf8}
use adhoc_cross_device_conne.Prelude.Digits.{
  padded, from_str_radix-padded, length-padded_octal, padded-IsDigit, IsDigit, IsDigit-ascii,
}
use adhoc_cross_device_conne.Prelude.Scalars.{IsScalar, encode_char, as_bytes, from_utf8-as_bytes}
use adhoc_cross_device_conne.Prelude.Result.{ok}
use adhoc_cross_device_conne.Airdrop.Paths.{Name, len, width}
use adhoc_cross_device_conne.Airdrop.Cpio.{
  Error, cut_short, missing_trailer, read_exact, number, odc_head, fields, read_head, pop,
  terminated, read_name, pad,
}
use adhoc_cross_device_conne.Airdrop.Outgoing.{header_bytes}

length-encode_char : (c : ℕ) → length (encode_char c) ≡ width c
unfolding encode_char
length-encode_char c = ground arith

-- The length of a name is that of its bytes.
pub length-as_bytes : (name : Name) → length (as_bytes name) ≡ len name
unfolding as_bytes
length-as_bytes [] = refl
length-as_bytes (c ∷ cs) =
    length-append (encode_char c) (as_bytes cs) ∙ rw (length-encode_char c, length-as_bytes cs) refl

pub read_exact-append :
    (e : Error) (n : ℕ) (xs ys : List ℕ) → length xs ≡ n → read_exact e n (xs ++ ys) ≡ ok (xs, ys)
unfolding read_exact
read_exact-append e n xs ys h =
    let enough : leb (length xs) (length (xs ++ ys)) ≡ true =
      (let q = length-append xs ys in ground arith) in
    rw (sym h, enough, take-append xs ys, drop-append xs ys) refl

read_exact_enough :
    (e : Error) (n : ℕ) (xs : List ℕ)
    → n ≤ length xs
    → read_exact e n xs ≡ ok (take n xs, drop n xs)
unfolding read_exact
read_exact_enough e n xs h = rw (le→leb n (length xs) h) refl

digits-ascii : (ds : List ℕ) → All IsDigit ds → All (λ (b : ℕ). b < 0x80) ds
digits-ascii [] h = tt
digits-ascii (d ∷ ds) h = (IsDigit-ascii d h.0, digits-ascii ds h.1)

number-padded : (w n : ℕ) → n < 2 ^ 64 → number (padded w 8 n) 8 ≡ ok n
unfolding number
number-padded w n h =
    let text =
      ascii-valid_utf8 (padded w 8 n)
        (digits-ascii (padded w 8 n) (padded-IsDigit w 8 n (inl refl))) in
    rw (text, from_str_radix-padded w 8 n (inl refl) h) refl

-- The fields of a header behind its magic.
abbrev pub header_fields : ℕ → ℕ → ℕ → ℕ → List (List ℕ)
header_fields namesize size mode ino =
    padded 6 8 0
    ∷ padded 6 8 ino
    ∷ padded 6 8 mode
    ∷ padded 6 8 0
    ∷ padded 6 8 0
    ∷ padded 6 8 1
    ∷ padded 6 8 0
    ∷ padded 11 8 0
    ∷ padded 6 8 namesize
    ∷ padded 11 8 size
    ∷ []

-- Numbers that fit their fields.
pub record Fits (namesize size mode ino : ℕ) : Type 0 where
  pub namesize_fits : namesize < 8 ^ 6
  pub size_fits : size < 8 ^ 11
  pub mode_fits : mode < 8 ^ 6
  pub ino_fits : ino < 8 ^ 6

take_first : (n : ℕ) (p tail : List ℕ) → length p ≡ n → take n (p ++ tail) ≡ p
take_first n p tail h = rw (sym h) (take-append p tail)

module _ (namesize size mode ino : ℕ) (fits : Fits namesize size mode ino) (tail : List ℕ) where
  abbrev six : (n : ℕ) → n < 8 ^ 6 → length (padded 6 8 n) ≡ 6
  six n h = length-padded_octal 5 n h

  abbrev all_fields : List ℕ
  all_fields = parts (header_fields namesize size mode ino) tail

  six_zero : length (padded 6 8 0) ≡ 6
  six_zero = six 0 (omega arith)

  -- The ten fields: before the mode, from the mode on, and so on.
  before_mode : total_length (padded 6 8 0 ∷ padded 6 8 ino ∷ []) ≡ 12
  before_mode = omega (arith, six_zero, six ino fits.ino_fits)

  abbrev middle : List (List ℕ)
  middle =
      padded 6 8 mode
      ∷ padded 6 8 0
      ∷ padded 6 8 0
      ∷ padded 6 8 1
      ∷ padded 6 8 0
      ∷ padded 11 8 0
      ∷ []

  middle_length : total_length middle ≡ 41
  middle_length = omega (
    arith,
    six_zero,
    six mode fits.mode_fits,
    six 1 (omega arith),
    length-padded_octal 10 0 (omega arith),
  )

  before_namesize : total_length (padded 6 8 0 ∷ padded 6 8 ino ∷ middle) ≡ 53
  before_namesize = omega (arith, before_mode, middle_length)

  before_size :
      total_length (
        padded 6 8 0
        ∷ padded 6 8 ino
        ∷ padded 6 8 mode
        ∷ padded 6 8 0
        ∷ padded 6 8 0
        ∷ padded 6 8 1
        ∷ padded 6 8 0
        ∷ padded 11 8 0
        ∷ padded 6 8 namesize
        ∷ [])
      ≡ 59
  before_size = omega (arith, before_namesize, six namesize fits.namesize_fits)

  fields_length : total_length (header_fields namesize size mode ino) ≡ 70
  fields_length = omega (arith, before_size, length-padded_octal 10 size fits.size_fits)

  mode_field : take 6 (drop 12 all_fields) ≡ padded 6 8 mode
  mode_field =
      ap (take 6) (drop-parts 12 (padded 6 8 0 ∷ padded 6 8 ino ∷ []) _ before_mode)
      ∙ take_first 6 (padded 6 8 mode) _ (six mode fits.mode_fits)

  namesize_field : take 6 (drop 53 all_fields) ≡ padded 6 8 namesize
  namesize_field =
      ap (take 6) (drop-parts 53 (padded 6 8 0 ∷ padded 6 8 ino ∷ middle) _ before_namesize)
      ∙ take_first 6 (padded 6 8 namesize) _ (six namesize fits.namesize_fits)

  size_field : take 11 (drop 59 all_fields) ≡ padded 11 8 size
  size_field =
      ap (take 11) (
        drop-parts 59
          (padded 6 8 0
            ∷ padded 6 8 ino
            ∷ padded 6 8 mode
            ∷ padded 6 8 0
            ∷ padded 6 8 0
            ∷ padded 6 8 1
            ∷ padded 6 8 0
            ∷ padded 11 8 0
            ∷ padded 6 8 namesize
            ∷ [])
          _ before_size)
      ∙ take_first 11 (padded 11 8 size) _ (length-padded_octal 10 size fits.size_fits)

  odc_head-fields :
      odc_head (take 70 all_fields)
      ≡ ok (record { mode = mode; size = size; namesize = namesize; align = 1; hlen = 76 })
  unfolding odc_head
  odc_head-fields =
      rw
        (
          take-drop-take 6 12 70 all_fields (omega arith),
          take-drop-take 11 59 70 all_fields (omega arith),
          take-drop-take 6 53 70 all_fields (omega arith),
          mode_field,
          size_field,
          namesize_field,
          number-padded 6 mode (omega (arith, fits.mode_fits)),
          number-padded 11 size (omega (arith, fits.size_fits)),
          number-padded 6 namesize (omega (arith, fits.namesize_fits)),
        )
        refl

  read_head_fields :
      read_head (codes "070707" ++ all_fields)
      ≡ ok (record { mode = mode; size = size; namesize = namesize; align = 1; hlen = 76 }, tail)
  unfolding read_head fields
  read_head_fields =
      let enough : leb 70 (length all_fields) ≡ true =
        (let q = length-parts (header_fields namesize size mode ino) tail in
          let r = fields_length in ground arith) in
      let after : drop 70 all_fields ≡ tail =
        drop-parts 70 (header_fields namesize size mode ino) tail fields_length in
      let split : read_exact cut_short 70 all_fields ≡ ok (take 70 all_fields, tail) =
        read_exact_enough cut_short 70 all_fields (leb→le 70 _ enough) ∙ rw after refl in
      rw
        (
          read_exact-append missing_trailer 6 (codes "070707") all_fields refl,
          split,
          odc_head-fields,
        )
        refl

pop-append : (bs : List ℕ) (b : ℕ) → pop (bs ++ b ∷ []) ≡ some (bs, b)
unfolding pop
pop-append [] b = refl
pop-append (x ∷ bs) b = rw (pop-append bs b) refl

read_name-as_bytes :
    (name : Name) (rest : List ℕ)
    → All IsScalar name
    → len name + 1 ≤ 4096
    → read_name (len name + 1) (as_bytes name ++ 0 ∷ rest) ≡ ok (name, rest)
unfolding read_name terminated
read_name-as_bytes name rest h k =
    let bs = as_bytes name ++ 0 ∷ [] in
    let in_bounds : in_range 1 4096 (len name + 1) ≡ true = ground arith in
    let size : length bs ≡ len name + 1 =
      length-append (as_bytes name) (0 ∷ []) ∙ rw (length-as_bytes name) refl in
    let apart : bs ++ rest ≡ as_bytes name ++ 0 ∷ rest =
      append_assoc (as_bytes name) (0 ∷ []) rest in
    let read : read_exact cut_short (len name + 1) (as_bytes name ++ 0 ∷ rest) ≡ ok (bs, rest) =
      subst (λ (x : List ℕ). read_exact cut_short (len name + 1) x ≡ ok (bs, rest)) apart
        (read_exact-append cut_short (len name + 1) bs rest size) in
    rw (in_bounds, read, pop-append (as_bytes name) 0, from_utf8-as_bytes name h) refl

-- Bytes need no padding in the portable format.
pub pad_one : (offset : ℕ) (input : List ℕ) → pad offset 1 input ≡ ok (offset + 0, input)
unfolding pad read_exact
pad_one offset input =
    (let n : (1 - offset % 1) % 1 ≡ 0 = omega arith in
      let z : leb 0 (length input) ≡ true = ground arith in rw (n, z) refl)

-- A header whose numbers fit their fields, and whose name has at most 4095 bytes, is read back from the front of any
-- input.
pub read_head-header_bytes :
    (name : Name) (size mode ino : ℕ) (rest : List ℕ)
    → All IsScalar name
    → len name ≤ 4095
    → size < 8 ^ 11
    → mode < 8 ^ 6
    → ino < 8 ^ 6
    → (read_head (header_bytes name size mode ino ++ rest)
        ≡ ok (
          record { mode = mode; size = size; namesize = len name + 1; align = 1; hlen = 76 },
          as_bytes name ++ 0 ∷ rest,
        ))
      × (read_name (len name + 1) (as_bytes name ++ 0 ∷ rest) ≡ ok (name, rest))
unfolding header_bytes
read_head-header_bytes name size mode ino rest h k s m i =
    let fits : Fits (len name + 1) size mode ino = record {
      namesize_fits = omega arith;
      size_fits = s;
      mode_fits = m;
      ino_fits = i;
    } in
    let fs = header_fields (len name + 1) size mode ino in
    let apart : parts fs (as_bytes name ++ 0 ∷ []) ++ rest ≡ parts fs (as_bytes name ++ 0 ∷ rest) =
      parts-append fs (as_bytes name ++ 0 ∷ []) rest
      ∙ ap (parts fs) (append_assoc (as_bytes name) (0 ∷ []) rest) in
    (
      ap (λ (x : List ℕ). read_head (codes "070707" ++ x)) apart
          ∙ read_head_fields (len name + 1) size mode ino fits (as_bytes name ++ 0 ∷ rest),
      read_name-as_bytes name rest h (omega arith),
    )
