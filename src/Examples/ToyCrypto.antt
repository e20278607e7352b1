-- ===== src/Examples/ToyCrypto.antt =====
-- An instance of the primitives of other crates that does what they document and hides nothing: the tag has
-- 16 bytes that count the associated data, and a signature has 64 that count the message.
use adhoc_cross_device_conne.Prelude.{
  ℕ, zero, suc, ◌+◌, ◌-◌, ◌%◌, ◌≡◌, refl, true, List, ◌++◌, Option, some, none, length,
  length-append, take, drop, take-append, drop-append, replicate, length-replicate, All, All-append,
  bytes_eq, bytes_eq_refl, leb, if◌then◌else◌, arith,
}
use adhoc_cross_device_conne.Prelude.Bytes.{IsByte}
use adhoc_cross_device_conne.Companion.Crypto.{Crypto, IsLawful}

abbrev tag : List ℕ → List ℕ
tag a = replicate 16 (length a % 256)

abbrev pub seal : List ℕ → List ℕ → List ℕ → List ℕ → Option (List ℕ)
seal k n a m = some (m ++ tag a)

abbrev pub unseal : List ℕ → List ℕ → List ℕ → List ℕ → Option (List ℕ)
unseal k n a s =
    if leb 16 (length s)
    then (if bytes_eq (drop (length s - 16) s) (tag a) then some (take (length s - 16) s) else none)
    else none

abbrev pub signature : List ℕ → List ℕ → List ℕ
signature k m = replicate 64 (length m % 256)

abbrev pub toy : Crypto
toy = record {
  hkdf_sha512 = λ secret salt info n. replicate n (length info % 256);
  aead_encrypt = seal;
  aead_decrypt = unseal;
  x25519_public = λ x. replicate 32 9;
  x25519_agree = λ x p. replicate 32 5;
  was_contributory = λ z. true;
  verifying_key = λ k. k;
  sign = signature;
  verify = λ vk m sig. bytes_eq sig (signature vk m);
}

replicate-IsByte : (n b : ℕ) → IsByte b → All IsByte (replicate n b)
replicate-IsByte zero b h = tt
replicate-IsByte (suc n) b h = (h, replicate-IsByte n b h)

unseal-seal : (k n a m s : List ℕ) → seal k n a m ≡ some s → unseal k n a s ≡ some m
unseal-seal k n a m s e =
    let same : s ≡ m ++ tag a = cc in
    let size : length (m ++ tag a) - 16 ≡ length m =
      omega (arith, length-append m (tag a), length-replicate 16 (length a % 256)) in
    let enough : leb 16 (length (m ++ tag a)) ≡ true =
      (let q = length-append m (tag a) in
        let r = length-replicate 16 (length a % 256) in ground arith) in
    rw (same, enough, size, drop-append m (tag a), bytes_eq_refl (tag a), take-append m (tag a))
      refl

seal-length : (k n a m s : List ℕ) → seal k n a m ≡ some s → length s ≡ length m + 16
seal-length k n a m s e =
    let same : s ≡ m ++ tag a = cc in
    rw same (omega (arith, length-append m (tag a), length-replicate 16 (length a % 256)))

seal-IsByte : (k n a m s : List ℕ) → All IsByte m → seal k n a m ≡ some s → All IsByte s
seal-IsByte k n a m s h e =
    let same : s ≡ m ++ tag a = cc in
    rw same (All-append IsByte m (tag a) h (replicate-IsByte 16 (length a % 256) (omega arith)))

pub toy-IsLawful : IsLawful toy
toy-IsLawful = record {
  encrypts = λ k n a m h. (m ++ tag a, refl);
  decrypts = unseal-seal;
  tag_length = seal-length;
  sealed_bytes = seal-IsByte;
  agree_comm = λ x y. refl;
  public_length = λ x. refl;
  public_bytes = λ x. replicate-IsByte 32 9 (omega arith);
  verify-sign = λ k m. bytes_eq_refl (signature k m);
  sign_length = λ k m. length-replicate 64 (length m % 256);
  sign_bytes = λ k m. replicate-IsByte 64 (length m % 256) (omega arith);
}
