-- ===== src/Airdrop/DvZip.antt =====
-- src/airdrop/storage.rs and src/airdrop/outgoing.rs: the compressed blocks of an archive, read and written.
-- The crate `flate2` is a parameter.
use adhoc_cross_device_conne.Prelude.{
  ℕ, zero, suc, ◌+◌, ◌-◌, ◌*◌, ◌%◌, ◌^◌, ◌≤◌, ◌≡◌, Bool, true, false, List, [], ◌∷◌, ◌++◌, ltb, leb,
  if◌then◌else◌, bytes_eq, length, take, drop,
}
use adhoc_cross_device_conne.Prelude.Bytes.{be32, from_be32, codes}
use adhoc_cross_device_conne.Prelude.Chunks.{chunks}
use adhoc_cross_device_conne.Prelude.Result.{Result, ok, err, ensure, ◌>>=◌, ◌>>◌}
use adhoc_cross_device_conne.Airdrop.Cpio.{
  Error, IoError, io_result, too_large, empty_block, truncated_block, unsupported_media, cut_short,
  stuck, read_exact,
}
use adhoc_cross_device_conne.Airdrop.Staging.{max_transfer}
use adhoc_cross_device_conne.Airdrop.Outgoing
use adhoc_cross_device_conne.Airdrop.Outgoing.{
  Metadata, Item, archive_items, block_too_large, archive_too_large,
}

-- `ZlibEncoder`, and the first bytes that `ZlibDecoder` and `GzDecoder` give, up to a number of them.
pub record Flate : Type 0 where
  pub zlib_encode : List ℕ → List ℕ
  pub zlib_decode : ℕ → List ℕ → Result IoError (List ℕ)
  pub gz_decode : ℕ → List ℕ → Result IoError (List ℕ)

-- What the crate documents: a stream is decoded to what was encoded, and it has a header (RFC 1950), so it is not empty.
pub record IsLawful (z : Flate) : Type 0 where
  pub decode-encode :
      (n : ℕ) (text : List ℕ) → z.zlib_decode n (z.zlib_encode text) ≡ ok (take n text)
  pub encode_nonempty : (text : List ℕ) → 1 ≤ length (z.zlib_encode text)

-- `bounded_copy` of a source that gave at most one byte more than the limit.
unfoldable pub bounded : ℕ → List ℕ → Result Error (List ℕ)
bounded limit copied = ensure (leb (length copied) limit) too_large >> ok copied

-- `header & 0x7fffffff`, and `header & 0x80000000 != 0`.
unfoldable pub size_of_block : List ℕ → ℕ
size_of_block (a ∷ b ∷ c ∷ d ∷ rest) = from_be32 a b c d % 2 ^ 31
size_of_block short = 0

unfoldable pub is_raw : List ℕ → Bool
is_raw (a ∷ b ∷ c ∷ d ∷ rest) = leb (2 ^ 31) (from_be32 a b c d)
is_raw short = false

abbrev pub block_length : ℕ
block_length = 128 * 1024

module _ (z : Flate) where
  -- The bytes of a block of `size` bytes, which may be cut short.
  unfoldable pub block_bytes : Bool → ℕ → List ℕ → Result Error (List ℕ)
  block_bytes true limit block = bounded limit (take (suc limit) block)
  block_bytes false limit block =
      io_result (z.zlib_decode (suc limit) block) >>= λ copied. bounded limit copied

  -- The four bytes of a block's header, and its size.
  unfoldable pub read_block : ℕ → List ℕ → Result Error (List ℕ × List ℕ)
  read_block written input = do
    (h, rest) ← read_exact cut_short 4 input
    let size = size_of_block h
    ensure (ltb 0 size) empty_block
    copied ← block_bytes (is_raw h) (max_transfer - written) (take size rest)
    ensure (leb size (length rest)) truncated_block
    ok (copied, drop size rest)

  -- Each block takes four bytes at least, so the length of the input is enough fuel.
  unfoldable pub read_blocks : ℕ → ℕ → List ℕ → Result Error (List ℕ)
  read_blocks fuel written [] = ok []
  read_blocks zero written (b ∷ bs) = err stuck
  read_blocks (suc fuel) written (b ∷ bs) = read_block written (b ∷ bs) >>= λ r.
      read_blocks fuel (written + length r.0) r.1 >>= λ more. ok (r.0 ++ more)

  unfoldable pub decoded : List ℕ → List ℕ → Result Error (List ℕ)
  decoded media input =
      if bytes_eq (take 2 input) (31 ∷ 139 ∷ [])
      then (io_result (z.gz_decode (suc max_transfer) input) >>= λ copied.
          bounded max_transfer copied)
      else if bytes_eq media (codes "application/x-dvzip")
      then read_blocks (length input) 0 input
      else (ensure (bytes_eq media (codes "application/x-cpio")) unsupported_media
          >> bounded max_transfer (take (suc max_transfer) input))

  unfoldable pub write_blocks : List (List ℕ) → Result Outgoing.Error (List ℕ)
  write_blocks [] = ok []
  write_blocks (b ∷ bs) = do
    let compressed = z.zlib_encode b
    ensure (leb (length compressed) 0x7fffffff) block_too_large
    rest ← write_blocks bs
    ok (be32 (length compressed) ++ (compressed ++ rest))

  unfoldable pub prepare : List Item → Result Outgoing.Error (List Metadata × List ℕ)
  prepare items = do
    (metadata, cpio) ← archive_items items
    archive ← write_blocks (chunks block_length cpio)
    ensure (leb (length archive) max_transfer) archive_too_large
    ok (metadata, archive)
