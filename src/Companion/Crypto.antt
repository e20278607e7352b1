-- ===== src/Companion/Crypto.antt =====
-- The primitives of other crates that src/companion.rs uses: `hkdf`, `chacha20poly1305`, `x25519_dalek`
-- and `ed25519_dalek`. They are parameters; keys, nonces and signatures are their bytes.
use adhoc_cross_device_conne.Prelude.{
  ℕ, ◌+◌, ◌<◌, ◌^◌, ◌≡◌, Bool, true, List, Option, some, length, All,
}
use adhoc_cross_device_conne.Prelude.Bytes.{IsByte}

pub record Crypto : Type 0 where
  -- `Hkdf::<Sha512>::new(Some(salt), secret)` and `expand(info, okm)` of a length
  pub hkdf_sha512 : List ℕ → List ℕ → List ℕ → ℕ → List ℕ
  -- `ChaCha20Poly1305`: key, nonce, associated data, message
  pub aead_encrypt : List ℕ → List ℕ → List ℕ → List ℕ → Option (List ℕ)
  pub aead_decrypt : List ℕ → List ℕ → List ℕ → List ℕ → Option (List ℕ)
  -- X25519: the public key of a secret, the agreement, and `was_contributory` of the agreed secret
  pub x25519_public : List ℕ → List ℕ
  pub x25519_agree : List ℕ → List ℕ → List ℕ
  pub was_contributory : List ℕ → Bool
  -- Ed25519: the verifying key of a signing key, signing, and `verify(..).is_ok()`
  pub verifying_key : List ℕ → List ℕ
  pub sign : List ℕ → List ℕ → List ℕ
  pub verify : List ℕ → List ℕ → List ℕ → Bool

-- What those crates document of them.
pub record IsLawful (c : Crypto) : Type 0 where
  pub encrypts :
      (k n a m : List ℕ) → length m < 2 ^ 32 → (s : List ℕ) × (c.aead_encrypt k n a m ≡ some s)
  pub decrypts :
      (k n a m s : List ℕ) → c.aead_encrypt k n a m ≡ some s → c.aead_decrypt k n a s ≡ some m
  pub tag_length : (k n a m s : List ℕ) → c.aead_encrypt k n a m ≡ some s → length s ≡ length m + 16
  pub sealed_bytes :
      (k n a m s : List ℕ) → All IsByte m → c.aead_encrypt k n a m ≡ some s → All IsByte s
  pub agree_comm :
      (x y : List ℕ) → c.x25519_agree x (c.x25519_public y) ≡ c.x25519_agree y (c.x25519_public x)
  pub public_length : (x : List ℕ) → length (c.x25519_public x) ≡ 32
  pub public_bytes : (x : List ℕ) → All IsByte (c.x25519_public x)
  pub verify-sign : (k m : List ℕ) → c.verify (c.verifying_key k) m (c.sign k m) ≡ true
  pub sign_length : (k m : List ℕ) → length (c.sign k m) ≡ 64
  pub sign_bytes : (k m : List ℕ) → All IsByte (c.sign k m)
