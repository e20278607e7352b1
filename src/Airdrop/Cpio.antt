-- ===== src/Airdrop/Cpio.antt =====
-- src/airdrop/storage.rs: the header, the name and the padding of an archive's entry, read from a list of bytes.
use adhoc_cross_device_conne.Prelude.{
  ℕ, ◌+◌, ◌-◌, ◌%◌, List, [], ◌∷◌, Option, some, none, ◌==◌, leb, in_range, if◌then◌else◌, bytes_eq,
  length, take, drop,
}
use adhoc_cross_device_conne.Prelude.Bytes.{codes}
use adhoc_cross_device_conne.Prelude.Utf8.{valid_utf8}
use adhoc_cross_device_conne.Prelude.Scalars.{from_utf8}
use adhoc_cross_device_conne.Prelude.Digits.{from_str_radix}
use adhoc_cross_device_conne.Prelude.Result.{Result, ok, err, ensure, context, ◌>>=◌, ◌>>◌}
use adhoc_cross_device_conne.Airdrop.Paths
use adhoc_cross_device_conne.Airdrop.Paths.{Name}

-- The kinds of `std::io::Error` that the code tells apart.
pub data IoError : Type 0 where
  already_exists : IoError
  other : ℕ → IoError

pub data Error : Type 0 where
  cut_short missing_trailer unsupported_format bad_name_length not_terminated not_utf8 bad_number
        bad_trailer too_large bad_root directory_payload truncated_metadata truncated_file
        special_file too_many_entries no_files unsupported_media empty_block truncated_block stuck :
      Error
  path_error : Paths.Error → Error
  io_error : IoError → Error

unfoldable pub path_result : {A : Type 0} → Result Paths.Error A → Result Error A
path_result (ok a) = ok a
path_result (err e) = err (path_error e)

unfoldable pub io_result : {A : Type 0} → Result IoError A → Result Error A
io_result (ok a) = ok a
io_result (err e) = err (io_error e)

-- `read_exact` of a buffer of `n` bytes: the bytes and what follows them.
unfoldable pub read_exact : Error → ℕ → List ℕ → Result Error (List ℕ × List ℕ)
read_exact e n input = if leb n (length input) then ok (take n input, drop n input) else err e

unfoldable pub number : List ℕ → ℕ → Result Error ℕ
number b radix = if valid_utf8 b then context (from_str_radix radix b) bad_number else err not_utf8

pub record Head : Type 0 where
  pub mode : ℕ
  pub size : ℕ
  pub namesize : ℕ
  pub align : ℕ
  pub hlen : ℕ

-- `h[a..b]`
abbrev pub slice : List ℕ → ℕ → ℕ → List ℕ
slice h a b = take (b - a) (drop a h)

unfoldable pub odc_head : List ℕ → Result Error Head
odc_head h = do
  mode ← number (slice h 12 18) 8
  size ← number (slice h 59 70) 8
  namesize ← number (slice h 53 59) 8
  ok (record { mode = mode; size = size; namesize = namesize; align = 1; hlen = 76 })

unfoldable pub newc_head : List ℕ → Result Error Head
newc_head h = do
  mode ← number (slice h 8 16) 16
  size ← number (slice h 48 56) 16
  namesize ← number (slice h 88 96) 16
  ok (record { mode = mode; size = size; namesize = namesize; align = 4; hlen = 110 })

-- A header that follows its magic: its bytes, their reading, and the input after it.
unfoldable pub fields : ℕ → (List ℕ → Result Error Head) → List ℕ → Result Error (Head × List ℕ)
fields n read_fields input = do
  (h, rest) ← read_exact cut_short n input
  head ← read_fields h
  ok (head, rest)

unfoldable pub read_head : List ℕ → Result Error (Head × List ℕ)
read_head input = do
  (magic, rest) ← read_exact missing_trailer 6 input
  if bytes_eq magic (codes "070707")
      then fields 70 odc_head rest
      else if bytes_eq magic (codes "070701")
      then fields 104 newc_head rest
      else err unsupported_format

-- `name.pop()`: the last byte, and those before it.
unfoldable pub pop : List ℕ → Option (List ℕ × ℕ)
pop [] = none
pop (b ∷ bs) = elim (pop bs) [ none ↦ some ([], b) | some (front, last) ↦ some (b ∷ front, last) ]

unfoldable pub terminated : List ℕ → Result Error (List ℕ)
terminated bs = do
  (front, last) ← context (pop bs) not_terminated
  ensure (last == 0) not_terminated
  ok front

unfoldable pub read_name : ℕ → List ℕ → Result Error (Name × List ℕ)
read_name namesize input = do
  ensure (in_range 1 4096 namesize) bad_name_length
  (bs, rest) ← read_exact cut_short namesize input
  text ← terminated bs
  name ← context (from_utf8 text) not_utf8
  ok (name, rest)

-- The offset after the padding, and the input after it.
unfoldable pub pad : ℕ → ℕ → List ℕ → Result Error (ℕ × List ℕ)
pad offset align input = do
  let n = (align - offset % align) % align
  (zeros, rest) ← read_exact cut_short n input
  ok (offset + n, rest)
