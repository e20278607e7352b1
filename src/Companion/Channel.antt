-- ===== src/Companion/Channel.antt =====
-- src/companion.rs: the encrypted channel after Pair-Verify. A call that fails leaves the channel as it was.
use adhoc_cross_device_conne.Prelude.{
  ℕ, ◌+◌, ◌-◌, ◌^◌, List, [], ◌∷◌, ◌++◌, Option, some, none, ltb, if◌then◌else◌,
}
use adhoc_cross_device_conne.Prelude.Bytes.{codes, le_bytes}
use adhoc_cross_device_conne.Prelude.Result.{Result, ok, context, ◌>>=◌}
use adhoc_cross_device_conne.Companion.Crypto.{Crypto}
use adhoc_cross_device_conne.Companion.{Error, encrypt_failed, decrypt_failed, nonce_exhausted}

pub data Role : Type 0 where
  client server : Role

pub record ContentChannel : Type 0 where
  pub enc_key : List ℕ
  pub dec_key : List ℕ
  pub enc_nonce : ℕ
  pub dec_nonce : ℕ

-- `checked_add(1)` on a `u64`
unfoldable pub checked_succ : ℕ → Option ℕ
checked_succ n = if ltb n (2 ^ 64 - 1) then some (n + 1) else none

-- The counter's eight bytes and four zeros.
unfoldable pub nonce : ℕ → List ℕ
nonce counter = le_bytes 8 counter ++ 0 ∷ 0 ∷ 0 ∷ 0 ∷ []

module _ (c : Crypto) where
  unfoldable pub from_shared_secret : List ℕ → Role → ContentChannel
  from_shared_secret secret role =
      let server_key = c.hkdf_sha512 secret [] (codes "ServerEncrypt-main") 32 in
      let client_key = c.hkdf_sha512 secret [] (codes "ClientEncrypt-main") 32 in
      elim role [
        | client ↦ record {
          enc_key = client_key;
          dec_key = server_key;
          enc_nonce = 0;
          dec_nonce = 0;
        }
        | server ↦ record {
          enc_key = server_key;
          dec_key = client_key;
          enc_nonce = 0;
          dec_nonce = 0;
        }
      ]

  unfoldable pub encrypt : ContentChannel → List ℕ → List ℕ → Result Error (List ℕ × ContentChannel)
  encrypt ch plaintext aad = do
    out ← context (c.aead_encrypt ch.enc_key (nonce ch.enc_nonce) aad plaintext) encrypt_failed
    n ← context (checked_succ ch.enc_nonce) nonce_exhausted
    ok (
      out,
      record {
        enc_key = ch.enc_key;
        dec_key = ch.dec_key;
        enc_nonce = n;
        dec_nonce = ch.dec_nonce;
      },
    )

  unfoldable pub decrypt : ContentChannel → List ℕ → List ℕ → Result Error (List ℕ × ContentChannel)
  decrypt ch ciphertext aad = do
    out ← context (c.aead_decrypt ch.dec_key (nonce ch.dec_nonce) aad ciphertext) decrypt_failed
    n ← context (checked_succ ch.dec_nonce) nonce_exhausted
    ok (
      out,
      record {
        enc_key = ch.enc_key;
        dec_key = ch.dec_key;
        enc_nonce = ch.enc_nonce;
        dec_nonce = n;
      },
    )
