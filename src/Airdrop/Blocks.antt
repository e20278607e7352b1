-- ===== src/Airdrop/Blocks.antt =====
-- src/airdrop/storage.rs, src/airdrop/outgoing.rs: the blocks that the sender writes, decoded by the receiver.
use adhoc_cross_device_conne.Prelude.{
  ℕ, zero, suc, ◌+◌, ◌-◌, ◌/◌, ◌%◌, ◌≤◌, ◌<◌, ◌^◌, ◌≡◌, refl, true, false, List, [], ◌∷◌, ◌++◌, ltb,
  leb, leb→le, lt→ltb, le→leb, bytes_eq, length, length-append, take, take-append, drop-append,
  take_long, arith,
}
use adhoc_cross_device_conne.Prelude.Bytes.{codes, be32, from_be32}
use adhoc_cross_device_conne.Prelude.Chunks.{chunks, concat, concat-chunks}
use adhoc_cross_device_conne.Prelude.Result.{ok, ensure, ensure-true, >>=-eq-ok}
use adhoc_cross_device_conne.Airdrop.Cpio.{cut_short, io_result}
use adhoc_cross_device_conne.Airdrop.Staging.{max_transfer}
use adhoc_cross_device_conne.Airdrop.Headers.{read_exact-append}
use adhoc_cross_device_conne.Airdrop.Outgoing.{block_too_large}
use adhoc_cross_device_conne.Airdrop.DvZip.{
  Flate, IsLawful, bounded, size_of_block, is_raw, block_bytes, read_block, read_blocks, decoded,
  block_length, write_blocks,
}

from_be32-be32 :
    (n : ℕ)
    → n < 2 ^ 31
    → from_be32 (n / 2 ^ 24 % 256) (n / 2 ^ 16 % 256) (n / 256 % 256) (n % 256) ≡ n
unfolding from_be32
from_be32-be32 n h = omega arith

size_of_block-be32 : (n : ℕ) → n < 2 ^ 31 → (size_of_block (be32 n) ≡ n) × (is_raw (be32 n) ≡ false)
unfolding size_of_block is_raw be32
size_of_block-be32 n h = rw (from_be32-be32 n h) (omega arith, ground arith)

length-be32 : (n : ℕ) → length (be32 n) ≡ 4
unfolding be32
length-be32 n = refl

module _ (z : Flate) (lawful : IsLawful z) where
  -- A block that was written is read from the front of any input, while the limit is kept.
  read_block-written :
      (text rest : List ℕ) (written : ℕ)
      → length (z.zlib_encode text) < 2 ^ 31
      → written + length text ≤ max_transfer
      → read_block z written (be32 (length (z.zlib_encode text)) ++ (z.zlib_encode text ++ rest))
        ≡ ok (text, rest)
  unfolding read_block block_bytes bounded io_result
  read_block-written text rest written h k =
      let c = z.zlib_encode text in
      let n = length c in
      let (size_eq, raw_eq) = size_of_block-be32 n h in
      let nonempty : ltb 0 n ≡ true = lt→ltb 0 n (omega (arith, lawful.encode_nonempty text)) in
      let enough : leb n (length (c ++ rest)) ≡ true =
        le→leb n (length (c ++ rest)) (omega (arith, length-append c rest)) in
      let whole : take (suc (max_transfer - written)) text ≡ text =
        take_long (suc (max_transfer - written)) text (omega arith) in
      let fits : leb (length text) (max_transfer - written) ≡ true =
        le→leb (length text) (max_transfer - written) (omega arith) in
      rw
        (
          read_exact-append cut_short 4 (be32 n) (c ++ rest) (length-be32 n),
          size_eq,
          raw_eq,
          nonempty,
          take-append c rest,
          lawful.decode-encode (suc (max_transfer - written)) text,
          whole,
          fits,
          enough,
          drop-append c rest,
        )
        refl

  read_blocks-nil : (fuel written : ℕ) → read_blocks z fuel written [] ≡ ok []
  unfolding read_blocks
  read_blocks-nil zero written = refl
  read_blocks-nil (suc fuel) written = refl

  read_blocks-step :
      (fuel written : ℕ) (out copied rest more : List ℕ)
      → 1 ≤ length out
      → 1 ≤ fuel
      → read_block z written out ≡ ok (copied, rest)
      → read_blocks z (fuel - 1) (written + length copied) rest ≡ ok more
      → read_blocks z fuel written out ≡ ok (copied ++ more)
  unfolding read_blocks
  read_blocks-step fuel written [] copied rest more h k e f = absurd (omega arith)
  read_blocks-step zero written (b ∷ bs) copied rest more h k e f = absurd (omega arith)
  read_blocks-step (suc fuel) written (b ∷ bs) copied rest more h k e f =
      let one : suc fuel - 1 ≡ fuel = omega arith in
      let f' : read_blocks z fuel (written + length copied) rest ≡ ok more = rw one at f in
      rw (e, f') refl

  write_blocks-cons :
      (b : List ℕ) (bs : List (List ℕ)) (out : List ℕ)
      → write_blocks z (b ∷ bs) ≡ ok out
      → (rest : List ℕ) × (length (z.zlib_encode b) < 2 ^ 31)
        × (write_blocks z bs ≡ ok rest)
        × (out ≡ be32 (length (z.zlib_encode b)) ++ (z.zlib_encode b ++ rest))
  unfolding write_blocks
  write_blocks-cons b bs out h =
      let (u, e, f) =
        >>=-eq-ok (ensure (leb (length (z.zlib_encode b)) 0x7fffffff) block_too_large) _ h in
      let (rest, g, same) = >>=-eq-ok (write_blocks z bs) _ f in
      let small =
        leb→le (length (z.zlib_encode b)) 0x7fffffff
          (ensure-true (leb (length (z.zlib_encode b)) 0x7fffffff) block_too_large e) in
      (rest, omega arith, g, cc)

  read_blocks-written :
      (bs : List (List ℕ)) (out : List ℕ) (fuel written : ℕ)
      → write_blocks z bs ≡ ok out
      → length out ≤ fuel
      → written + length (concat bs) ≤ max_transfer
      → read_blocks z fuel written out ≡ ok (concat bs)
  unfolding write_blocks read_blocks
  read_blocks-written [] out fuel written e h k =
      (let same : out ≡ [] = cc in rw same (read_blocks-nil fuel written))
  read_blocks-written (b ∷ bs) out fuel written e h k =
      let (rest, small, g, same) = write_blocks-cons b bs out e in
      let c = z.zlib_encode b in
      let size = length-append b (concat bs) in
      let out_size : length out ≡ 4 + (length c + length rest) = rw same (
        omega (
          arith,
          length-append (be32 (length c)) (c ++ rest),
          length-be32 (length c),
          length-append c rest,
        )) in
      let read : read_block z written out ≡ ok (b, rest) =
        rw same (read_block-written b rest written small (omega arith)) in
      let ih : read_blocks z (fuel - 1) (written + length b) rest ≡ ok (concat bs) =
        read_blocks-written bs rest (fuel - 1) (written + length b) g (omega arith) (omega arith) in
      read_blocks-step fuel written out b rest (concat bs) (omega arith) (omega arith) read ih

  -- A text of at most 32 GiB, compressed block by block, is decoded to itself, unless its first two bytes are those of gzip.
  pub decoded-write_blocks :
      (text out : List ℕ)
      → write_blocks z (chunks block_length text) ≡ ok out
      → bytes_eq (take 2 out) (31 ∷ 139 ∷ []) ≡ false
      → length text ≤ max_transfer
      → decoded z (codes "application/x-dvzip") out ≡ ok text
  unfolding decoded
  decoded-write_blocks text out e plain h =
      let bs = chunks block_length text in
      let whole : concat bs ≡ text = concat-chunks (block_length - 1) text in
      let read : read_blocks z (length out) 0 out ≡ ok (concat bs) =
        read_blocks-written bs out (length out) 0 e (omega arith) (rw whole (omega arith)) in
      rw (plain, read, whole) refl
