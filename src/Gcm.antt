-- ===== src/Gcm.antt =====
-- src/gcm.rs: AES-GCM with a short nonce and a truncated tag, as Handoff advertisements use it, and
-- the check of src/keystore.rs that every key fits it.
pub mod Opening
use adhoc_cross_device_conne.Prelude.{
  ℕ, ◌+◌, ◌*◌, ◌/◌, ◌%◌, ◌^◌, ◌≡◌, Bool, not, ◌||◌, List, [], ◌∷◌, ◌++◌, Option, some, none, ◌==◌,
  ltb, if◌then◌else◌, bytes_eq, length, take, drop, replicate,
}
use adhoc_cross_device_conne.Prelude.Bytes.{be32, from_be32, be64, bit_xor}
use adhoc_cross_device_conne.Prelude.Chunks.{chunks}
use adhoc_cross_device_conne.Prelude.Result.{Result, ok, err, ensure, ◌>>=◌, ◌>>◌}

-- What the crates `aes` and `ghash` provide: `encrypt_block` of each cipher, by its key, and the
-- universal hash.
pub record Primitives : Type 1 where
  pub aes128 : List ℕ → List ℕ → List ℕ
  pub aes192 : List ℕ → List ℕ → List ℕ
  pub aes256 : List ℕ → List ℕ → List ℕ
  pub GHash : Type 0
  pub new : List ℕ → GHash
  pub update : GHash → List ℕ → GHash
  pub finalize : GHash → List ℕ

-- A block has 16 bytes, by its type.
pub record IsLawful (c : Primitives) : Type 0 where
  pub aes128_length : (k b : List ℕ) → length (c.aes128 k b) ≡ 16
  pub aes192_length : (k b : List ℕ) → length (c.aes192 k b) ≡ 16
  pub aes256_length : (k b : List ℕ) → length (c.aes256 k b) ≡ 16

abbrev pub block_size : ℕ
block_size = 16

pub data GcmError : Type 0 where
  invalid_key_length invalid_tag_length : ℕ → GcmError

-- The cipher that the key's length selects; `new_from_slice` fails on other lengths only.
pub data AesCipher : Type 0 where
  aes128 aes192 aes256 : List ℕ → AesCipher

unfoldable pub new_cipher : List ℕ → Result GcmError AesCipher
new_cipher key =
    if length key == 16
    then ok (aes128 key)
    else if length key == 24
    then ok (aes192 key)
    else if length key == 32
    then ok (aes256 key)
    else err (invalid_key_length (length key))

unfoldable pub validate_key : List ℕ → Result GcmError (Unit {0})
validate_key key = new_cipher key >>= λ cipher. ok tt

-- `dst` is left as it is where `src` is shorter.
unfoldable pub xor_into : List ℕ → List ℕ → List ℕ
xor_into [] s = []
xor_into (d ∷ ds) [] = d ∷ ds
xor_into (d ∷ ds) (s ∷ ss) = bit_xor 8 d s ∷ xor_into ds ss

-- A chunk of at most 16 bytes, in a block of zeros.
unfoldable pub zero_padded : List (List ℕ) → List (List ℕ)
zero_padded [] = []
zero_padded (c ∷ cs) = (c ++ drop (length c) (replicate block_size 0)) ∷ zero_padded cs

unfoldable pub pad_blocks : List ℕ → List (List ℕ)
pad_blocks text = zero_padded (chunks block_size text)

-- The counter is the last four bytes of a block.
unfoldable pub inc32 : List ℕ → List ℕ
inc32 (a ∷ b ∷ c ∷ d ∷ e ∷ f ∷ g ∷ h ∷ i ∷ j ∷ k ∷ l ∷ m ∷ n ∷ o ∷ p ∷ rest) =
    a ∷ b ∷ c ∷ d ∷ e ∷ f ∷ g ∷ h ∷ i ∷ j ∷ k ∷ l ∷ be32 ((from_be32 m n o p + 1) % 2 ^ 32)
inc32 short = short

abbrev pub bit_len : List ℕ → ℕ
bit_len text = length text * 8 % 2 ^ 64

unfoldable pub tag_length_ok : ℕ → Bool
tag_length_ok n = not (n == 0 || ltb block_size n)

module _ (c : Primitives) where
  unfoldable pub encrypt_block : AesCipher → List ℕ → List ℕ
  encrypt_block (aes128 key) input = c.aes128 key input
  encrypt_block (aes192 key) input = c.aes192 key input
  encrypt_block (aes256 key) input = c.aes256 key input

  unfoldable pub update_all : c.GHash → List (List ℕ) → c.GHash
  update_all mac [] = mac
  update_all mac (b ∷ bs) = update_all (c.update mac b) bs

  unfoldable pub ghash : List ℕ → List (List ℕ) → List ℕ
  ghash h blocks = c.finalize (update_all (c.new h) blocks)

  unfoldable pub j0_short_iv : List ℕ → List ℕ → List ℕ
  j0_short_iv h iv = ghash h (pad_blocks iv ++ (replicate 8 0 ++ be64 (bit_len iv)) ∷ [])

  -- The counter mode from a counter on, over the chunks of a text.
  unfoldable pub ctr : AesCipher → List ℕ → List (List ℕ) → List ℕ
  ctr cipher counter [] = []
  ctr cipher counter (chunk ∷ rest) =
      xor_into chunk (take (length chunk) (encrypt_block cipher counter))
      ++ ctr cipher (inc32 counter) rest

  -- E(J0) combined with GHASH of the padded associated data and ciphertext and their lengths.
  unfoldable pub full_tag : AesCipher → List ℕ → List ℕ → List ℕ → List ℕ → List ℕ
  full_tag cipher h j0 aad ciphertext = xor_into (encrypt_block cipher j0) (
      ghash h (
        pad_blocks aad
        ++ pad_blocks ciphertext
        ++ (be64 (bit_len aad) ++ be64 (bit_len ciphertext)) ∷ []))

  unfoldable pub hash_key : AesCipher → List ℕ
  hash_key cipher = encrypt_block cipher (replicate block_size 0)

  unfoldable pub open_truncated :
      List ℕ → List ℕ → List ℕ → List ℕ → List ℕ → Result GcmError (Option (List ℕ))
  open_truncated key iv aad ciphertext tag = do
    ensure (tag_length_ok (length tag)) (invalid_tag_length (length tag))
    cipher ← new_cipher key
    let h = hash_key cipher
    let j0 = j0_short_iv h iv
    ok (
        if not (bytes_eq (take (length tag) (full_tag cipher h j0 aad ciphertext)) tag)
        then none
        else some (ctr cipher (inc32 j0) (chunks block_size ciphertext)))

  unfoldable pub seal_truncated :
      List ℕ → List ℕ → List ℕ → List ℕ → ℕ → Result GcmError (List ℕ × List ℕ)
  seal_truncated key iv aad plaintext tag_len = do
    ensure (tag_length_ok tag_len) (invalid_tag_length tag_len)
    cipher ← new_cipher key
    let h = hash_key cipher
    let j0 = j0_short_iv h iv
    let ciphertext = ctr cipher (inc32 j0) (chunks block_size plaintext)
    ok (ciphertext, take tag_len (full_tag cipher h j0 aad ciphertext))

pub record HandoffKey : Type 0 where
  pub id : List ℕ
  pub key : List ℕ

pub data KeyError : Type 0 where
  key_error : List ℕ → GcmError → KeyError

pub record KeyStore : Type 0 where
  pub keys : List HandoffKey

-- The error of a key names its id.
unfoldable pub with_id : {A : Type 0} → List ℕ → Result GcmError A → Result KeyError A
with_id id (ok a) = ok a
with_id id (err e) = err (key_error id e)

unfoldable pub check_keys : List HandoffKey → Result KeyError (Unit {0})
check_keys [] = ok tt
check_keys (k ∷ ks) = with_id k.id (validate_key k.key) >> check_keys ks

unfoldable pub validated : List HandoffKey → Result KeyError KeyStore
validated keys = check_keys keys >> ok (record { keys = keys })

unfoldable pub is_empty : KeyStore → Bool
is_empty store = length store.keys == 0
