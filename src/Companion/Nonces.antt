-- ===== src/Companion/Nonces.antt =====
-- src/companion.rs: the nonces of the encrypted channel.
use adhoc_cross_device_conne.Prelude.{
  ℕ, ◌+◌, ◌-◌, ◌^◌, ◌≤◌, ◌<◌, ◌≡◌, ◌≢◌, refl, sym, ap, ◌∙◌, List, some, arith, take,
}
use adhoc_cross_device_conne.Prelude.Bytes.{le_bytes, from_le, from_le-le_bytes}
use adhoc_cross_device_conne.Prelude.Result.{ok}
use adhoc_cross_device_conne.Companion.Crypto.{Crypto}
use adhoc_cross_device_conne.Companion.Channel.{
  ContentChannel, checked_succ, nonce, encrypt, decrypt,
}

nonce_counter : (a b : ℕ) → nonce a ≡ nonce b → le_bytes 8 a ≡ le_bytes 8 b
unfolding nonce le_bytes
nonce_counter a b e = ap (take 8) e

-- Two counters that a `u64` holds have different nonces.
pub nonce-injective : (a b : ℕ) → a < 2 ^ 64 → b < 2 ^ 64 → nonce a ≡ nonce b → a ≡ b
unfolding nonce
nonce-injective a b h k e =
    let cut : le_bytes 8 a ≡ le_bytes 8 b = nonce_counter a b e in
    sym (from_le-le_bytes 8 a h) ∙ ap from_le cut ∙ from_le-le_bytes 8 b k

-- What a successful encryption shows of the channel before and after.
pub encrypt_inv :
    (c : Crypto) (ch ch' : ContentChannel) (p a x : List ℕ)
    → encrypt c ch p a ≡ ok (x, ch')
    → (c.aead_encrypt ch.enc_key (nonce ch.enc_nonce) a p ≡ some x)
      × (ch.enc_nonce < 2 ^ 64 - 1)
      × (ch' ≡ record {
        enc_key = ch.enc_key;
        dec_key = ch.dec_key;
        enc_nonce = ch.enc_nonce + 1;
        dec_nonce = ch.dec_nonce;
      })
unfolding encrypt checked_succ
encrypt_inv c ch ch' p a x h = ground arith

pub decrypt_inv :
    (c : Crypto) (ch ch' : ContentChannel) (x a p : List ℕ)
    → decrypt c ch x a ≡ ok (p, ch')
    → (c.aead_decrypt ch.dec_key (nonce ch.dec_nonce) a x ≡ some p)
      × (ch.dec_nonce < 2 ^ 64 - 1)
      × (ch' ≡ record {
        enc_key = ch.enc_key;
        dec_key = ch.dec_key;
        enc_nonce = ch.enc_nonce;
        dec_nonce = ch.dec_nonce + 1;
      })
unfolding decrypt checked_succ
decrypt_inv c ch ch' x a p h = ground arith

module _ (c : Crypto) where
  -- The channels that an end passes through.
  pub data Later : ContentChannel → ContentChannel → Type 0 where
    same : (ch : ContentChannel) → Later ch ch
    after_encrypt :
        (u v w : ContentChannel) (p a x : List ℕ)
        → Later u v
        → encrypt c v p a ≡ ok (x, w)
        → Later u w
    after_decrypt :
        (u v w : ContentChannel) (x a p : List ℕ)
        → Later u v
        → decrypt c v x a ≡ ok (p, w)
        → Later u w

  Later-enc_nonce :
      {u v : ContentChannel} → Later u v → (u.enc_nonce ≤ v.enc_nonce) × (u.enc_key ≡ v.enc_key)
  Later-enc_nonce (same ch) = (omega arith, refl)
  Later-enc_nonce (after_encrypt u v w p a x l e) =
      let (n, k) = Later-enc_nonce l in
      let (t, h, i) = encrypt_inv c v w p a x e in rw i (omega arith, k)
  Later-enc_nonce (after_decrypt u v w x a p l e) =
      let (n, k) = Later-enc_nonce l in let (t, h, i) = decrypt_inv c v w x a p e in rw i (n, k)

  -- Two encryptions of one end that both succeed, with any calls between them, use the same key and
  -- different nonces.
  pub nonces_differ :
      (u v w z : ContentChannel) (p a x p' a' x' : List ℕ)
      → encrypt c u p a ≡ ok (x, v)
      → Later v w
      → encrypt c w p' a' ≡ ok (x', z)
      → (u.enc_key ≡ w.enc_key) × (nonce u.enc_nonce ≢ nonce w.enc_nonce)
  nonces_differ u v w z p a x p' a' x' e l e' =
      let (t, h, i) = encrypt_inv c u v p a x e in
      let (t', h', i') = encrypt_inv c w z p' a' x' e' in
      let (n, k) = Later-enc_nonce l in
      let m : v.enc_nonce ≡ u.enc_nonce + 1 = ap (λ (ch : ContentChannel). ch.enc_nonce) i in
      (
        sym (ap (λ (ch : ContentChannel). ch.enc_key) i) ∙ k,
        λ q.
            (let z = nonce-injective u.enc_nonce w.enc_nonce (omega arith) (omega arith) q in
              omega arith),
      )
