-- ===== src/Examples/Archives.antt =====
-- An archive of one file, from its sender to its receiver.
use adhoc_cross_device_conne.Prelude.{
  ℕ, ◌≤◌, ◌≡◌, refl, true, List, [], ◌∷◌, ◌++◌, some, ltb, ◌+◌, length, arith,
}
use adhoc_cross_device_conne.Prelude.Bytes.{codes, be32}
use adhoc_cross_device_conne.Prelude.Scalars.{
  from_utf8, read_text, read_byte, lead, and_then, as_bytes, encode_char,
}
use adhoc_cross_device_conne.Prelude.Utf8.{valid_utf8}
use adhoc_cross_device_conne.Prelude.Digits.{
  padded, digits, digits_fuel, digit_char, from_str_radix, read_digits, push_digit, to_digit,
}
use adhoc_cross_device_conne.Prelude.Chunks.{chunks}
use adhoc_cross_device_conne.Prelude.Result.{ok, ensure, ◌>>=◌, ◌>>◌}
use adhoc_cross_device_conne.Airdrop.Paths.{
  relative, nonempty, split, extend, components, is_skipped, is_allowed,
}
use adhoc_cross_device_conne.Airdrop.Cpio.{
  no_files, read_head, fields, read_exact, odc_head, number, read_name, terminated, pop, pad,
  path_result, io_result,
}
use adhoc_cross_device_conne.Airdrop.Staging.{
  at, Saved, nothing_saved, count_size, path_entry, regular_entry, starts_with_dot_underscore,
  file_name, make_file, parent, copy_to_clipboard, goes_to_clipboard, one_of, stem_and_extension,
  rsplit_dot, max_transfer, max_clipboard,
}
use adhoc_cross_device_conne.Airdrop.Extract.{
  extract, entries, entry, named_entry, is_root, payload,
}
use adhoc_cross_device_conne.Airdrop.Outgoing.{
  file, Item, Metadata, describe, sorted, archive_items, add_items, filename, utf8_name,
  has_unsupported, contains, add, begin_entry, add_file, header, header_bytes,
}
use adhoc_cross_device_conne.Airdrop.DvZip.{decoded, prepare, write_blocks}
use adhoc_cross_device_conne.Airdrop.Listing.{regular, written, trailer, receive_each}
use adhoc_cross_device_conne.Airdrop.Delivery.{items_portable, listing_items, extract-prepare}
use adhoc_cross_device_conne.Airdrop.Limits.{contents_length, extract_clipboard}
use adhoc_cross_device_conne.Airdrop.Outcomes.{left_by}
use adhoc_cross_device_conne.Airdrop.Disk.{extract-KeepsSafe, extract_limits}
use adhoc_cross_device_conne.Examples.Files.{
  Disk, memory, memory-IsFaithful, AllSafe, memory-KeepsSafe, used, memory-Measures, toy_flate,
  toy_flate-IsLawful,
}

abbrev letter : List Item
letter = (record { base = some (codes "hello.txt"); node = file (codes "hi") }) ∷ []

abbrev letter_cpio : List ℕ
letter_cpio = written 0 (regular (codes "hello.txt" ∷ []) (codes "hi") ∷ []) ++ trailer

abbrev letter_metadata : List Metadata
letter_metadata = describe (codes "hello.txt") (file (codes "hi")) ∷ []

abbrev letter_archive : List ℕ
letter_archive = be32 183 ++ (0x78 ∷ 0x01 ∷ 0 ∷ 0 ∷ 0 ∷ 0 ∷ letter_cpio)

letter_listed : listing_items letter ≡ regular (codes "hello.txt" ∷ []) (codes "hi") ∷ []
unfolding sorted from_utf8 read_text read_byte lead and_then
letter_listed = refl

prepare-letter : prepare toy_flate letter ≡ ok (letter_metadata, letter_archive)
unfolding prepare archive_items add_items filename utf8_name from_utf8 read_text read_byte lead
    and_then has_unsupported contains sorted add begin_entry add_file header header_bytes padded
    digits digits_fuel digit_char as_bytes encode_char describe write_blocks chunks be32
prepare-letter = refl

letter_portable : items_portable letter ≡ true
unfolding from_utf8 read_text read_byte lead and_then
letter_portable = refl

letter_small : length (written 0 (listing_items letter) ++ trailer) ≤ max_transfer
unfolding sorted from_utf8 read_text read_byte lead and_then header_bytes padded digits digits_fuel
    digit_char as_bytes encode_char
letter_small = omega arith

extract-prepare_example :
    (at [] (decoded toy_flate (codes "application/x-dvzip") letter_archive) >>= λ cpio.
    extract memory [] cpio)
    ≡ (receive_each memory (listing_items letter) (nothing_saved []) >>= λ s.
        (ensure (ltb 0 s.files) (no_files, s.staging) >> ok s))
unfolding be32
extract-prepare_example =
    extract-prepare toy_flate toy_flate-IsLawful memory [] letter letter_metadata letter_archive
      letter_portable prepare-letter refl letter_small

abbrev saved_letter : Saved Disk
saved_letter = record {
  total = 2;
  files = 1;
  clipboard = (record { name = codes "hello.txt"; contents = codes "hi" }) ∷ [];
  clipboard_bytes = 2;
  staging = (codes "hello.txt" ∷ [], codes "hi") ∷ (codes "hello.txt" ∷ [], []) ∷ [];
}

extract_letter : extract memory [] letter_cpio ≡ ok saved_letter
unfolding extract entries entry read_head fields read_exact odc_head number valid_utf8
    from_str_radix read_digits push_digit to_digit read_name terminated pop from_utf8 read_text
    read_byte lead and_then pad named_entry count_size is_root payload path_result relative nonempty
    split extend components is_skipped is_allowed path_entry regular_entry
    starts_with_dot_underscore file_name make_file io_result parent copy_to_clipboard
    goes_to_clipboard one_of stem_and_extension rsplit_dot header_bytes padded digits digits_fuel
    digit_char as_bytes encode_char
extract_letter = refl

extract_clipboard_example :
    (1 ≤ 1) × (contents_length saved_letter.clipboard ≡ 2) × (2 ≤ max_clipboard)
extract_clipboard_example =
    extract_clipboard memory memory-IsFaithful [] letter_cpio saved_letter extract_letter

-- An archive that is cut short in its trailer: the file is made, and then extracting fails.
abbrev cut_letter : List ℕ
cut_letter = written 0 (regular (codes "hello.txt" ∷ []) (codes "hi") ∷ []) ++ codes "07"

extract-KeepsSafe_example : AllSafe (left_by (extract memory [] cut_letter))
extract-KeepsSafe_example = extract-KeepsSafe memory AllSafe memory-KeepsSafe [] cut_letter tt

extract_limits_example : used (left_by (extract memory [] cut_letter)) ≤ used [] + max_transfer
extract_limits_example = extract_limits memory used memory-Measures [] cut_letter
