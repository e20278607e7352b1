-- ===== src/Companion/LockStep.antt =====
-- src/companion.rs: the two ends of an encrypted channel, with the messages on their way between them.
use adhoc_cross_device_conne.Prelude.{
  ℕ, ◌+◌, ◌-◌, ◌^◌, ◌<◌, ◌≡◌, refl, true, List, [], ◌∷◌, ◌++◌, some, ltb, arith,
}
use adhoc_cross_device_conne.Prelude.Result.{ok}
use adhoc_cross_device_conne.Companion.Crypto.{Crypto, IsLawful}
use adhoc_cross_device_conne.Companion.Channel.{
  client, server, ContentChannel, checked_succ, nonce, from_shared_secret, encrypt, decrypt,
}
use adhoc_cross_device_conne.Companion.Nonces.{encrypt_inv, decrypt_inv}

-- A message on its way: its plaintext, its associated data and its ciphertext.
abbrev pub Sent : Type 0
Sent = List ℕ × List ℕ × List ℕ

pub record World : Type 0 where
  pub client_end : ContentChannel
  pub server_end : ContentChannel
  pub to_server : List Sent
  pub to_client : List Sent

module _ (c : Crypto) where
  -- Either end encrypts a message, or decrypts the oldest one on its way to it.
  pub data Step : World → World → Type 0 where
    client_sends :
        (w : World) (p a x : List ℕ) (ch : ContentChannel)
        → encrypt c w.client_end p a ≡ ok (x, ch)
        → Step w (record {
          client_end = ch;
          server_end = w.server_end;
          to_server = w.to_server ++ (p, a, x) ∷ [];
          to_client = w.to_client;
        })
    server_sends :
        (w : World) (p a x : List ℕ) (ch : ContentChannel)
        → encrypt c w.server_end p a ≡ ok (x, ch)
        → Step w (record {
          client_end = w.client_end;
          server_end = ch;
          to_server = w.to_server;
          to_client = w.to_client ++ (p, a, x) ∷ [];
        })
    server_receives :
        (w : World) (p a x : List ℕ) (q : List Sent) (m : List ℕ) (ch : ContentChannel)
        → w.to_server ≡ (p, a, x) ∷ q
        → decrypt c w.server_end x a ≡ ok (m, ch)
        → Step w (record {
          client_end = w.client_end;
          server_end = ch;
          to_server = q;
          to_client = w.to_client;
        })
    client_receives :
        (w : World) (p a x : List ℕ) (q : List Sent) (m : List ℕ) (ch : ContentChannel)
        → w.to_client ≡ (p, a, x) ∷ q
        → decrypt c w.client_end x a ≡ ok (m, ch)
        → Step w (record {
          client_end = ch;
          server_end = w.server_end;
          to_server = w.to_server;
          to_client = q;
        })

  pub data Reachable (w : World) : World → Type 0 where
    start : Reachable w w
    step : {u v : World} → Reachable w u → Step u v → Reachable w v

  -- The two ends of a channel that share a secret, with nothing on its way.
  unfoldable pub fresh : List ℕ → World
  fresh secret = record {
    client_end = from_shared_secret c secret client;
    server_end = from_shared_secret c secret server;
    to_server = [];
    to_client = [];
  }

  -- Messages on their way: each is what the sender encrypted under the receiver's next counters.
  abbrev Flight : List ℕ → ℕ → List Sent → ℕ → Type 0
  Flight key n [] m = n ≡ m
  Flight key n ((p, a, x) ∷ q) m =
      (c.aead_encrypt key (nonce n) a p ≡ some x) × (n < 2 ^ 64 - 1) × Flight key (n + 1) q m

  Flight-send :
      (key : List ℕ) (n : ℕ) (q : List Sent) (m : ℕ) (p a x : List ℕ)
      → Flight key n q m
      → c.aead_encrypt key (nonce m) a p ≡ some x
      → m < 2 ^ 64 - 1
      → Flight key n (q ++ (p, a, x) ∷ []) (m + 1)
  Flight-send key n [] m p a x f e h = (rw f e, omega arith, omega arith)
  Flight-send key n ((p', a', x') ∷ q) m p a x f e h =
      (f.0, f.1, Flight-send key (n + 1) q m p a x f.2 e h)

  abbrev InStep : World → Type 0
  InStep w =
      (w.client_end.enc_key ≡ w.server_end.dec_key)
      × (w.server_end.enc_key ≡ w.client_end.dec_key)
      × Flight w.client_end.enc_key w.server_end.dec_nonce w.to_server w.client_end.enc_nonce
      × Flight w.server_end.enc_key w.client_end.dec_nonce w.to_client w.server_end.enc_nonce

  fresh-InStep : (secret : List ℕ) → InStep (fresh secret)
  unfolding fresh from_shared_secret
  fresh-InStep secret = (refl, refl, refl, refl)

  Step-InStep : {u v : World} → Step u v → InStep u → InStep v
  Step-InStep (client_sends w p a x ch e) i =
      let (k, h, same) = encrypt_inv c w.client_end ch p a x e in
      rw same (
        i.0,
        i.1,
        Flight-send w.client_end.enc_key w.server_end.dec_nonce w.to_server w.client_end.enc_nonce p
            a x i.2 k h,
        i.3,
      )
  Step-InStep (server_sends w p a x ch e) i =
      let (k, h, same) = encrypt_inv c w.server_end ch p a x e in
      rw same (
        i.0,
        i.1,
        i.2,
        Flight-send w.server_end.enc_key w.client_end.dec_nonce w.to_client w.server_end.enc_nonce p
            a x i.3 k h,
      )
  Step-InStep (server_receives w p a x q m ch at_head d) i =
      let (k, h, same) = decrypt_inv c w.server_end ch x a m d in
      let f : Flight w.client_end.enc_key w.server_end.dec_nonce ((p, a, x) ∷ q)
          w.client_end.enc_nonce =
        rw at_head at i.2 in
      rw same (i.0, i.1, f.2, i.3)
  Step-InStep (client_receives w p a x q m ch at_head d) i =
      let (k, h, same) = decrypt_inv c w.client_end ch x a m d in
      let f : Flight w.server_end.enc_key w.client_end.dec_nonce ((p, a, x) ∷ q)
          w.server_end.enc_nonce =
        rw at_head at i.3 in
      rw same (i.0, i.1, i.2, f.2)

  Reachable-InStep : {u v : World} → Reachable u v → InStep u → InStep v
  Reachable-InStep start i = i
  Reachable-InStep (step r s) i = Step-InStep s (Reachable-InStep r i)

  decrypt_next :
      (law : IsLawful c) (ch : ContentChannel) (key p a x : List ℕ)
      → key ≡ ch.dec_key
      → ch.dec_nonce < 2 ^ 64 - 1
      → c.aead_encrypt key (nonce ch.dec_nonce) a p ≡ some x
      → (ch' : ContentChannel) × (decrypt c ch x a ≡ ok (p, ch'))
  unfolding decrypt checked_succ
  decrypt_next law ch key p a x same h e =
      let d = law.decrypts ch.dec_key (nonce ch.dec_nonce) a p x (rw same at e) in
      let t : ltb ch.dec_nonce (2 ^ 64 - 1) ≡ true = ground arith in
      (
        record {
          enc_key = ch.enc_key;
          dec_key = ch.dec_key;
          enc_nonce = ch.enc_nonce;
          dec_nonce = ch.dec_nonce + 1;
        },
        rw (d, t) refl,
      )

  -- Over primitives that do what they document, however the two ends that share a secret
  -- interleave their calls, the oldest message on its way to either of them decrypts, and gives
  -- the plaintext that the other end encrypted.
  pub delivery :
      IsLawful c
      → (secret : List ℕ) (w : World) → Reachable (fresh secret) w
      → (p a x : List ℕ) (q : List Sent)
      → (w.to_server ≡ (p, a, x) ∷ q
          → (ch : ContentChannel) × (decrypt c w.server_end x a ≡ ok (p, ch)))
        × (w.to_client ≡ (p, a, x) ∷ q
            → (ch : ContentChannel) × (decrypt c w.client_end x a ≡ ok (p, ch)))
  delivery law secret w r p a x q =
      let i = Reachable-InStep r (fresh-InStep secret) in
      (
        (λ h.
            let f : Flight w.client_end.enc_key w.server_end.dec_nonce ((p, a, x) ∷ q)
                w.client_end.enc_nonce =
              rw h at i.2 in
            decrypt_next law w.server_end w.client_end.enc_key p a x i.0 f.1 f.0),
        (λ h.
            let f : Flight w.server_end.enc_key w.client_end.dec_nonce ((p, a, x) ∷ q)
                w.server_end.enc_nonce =
              rw h at i.3 in
            decrypt_next law w.client_end w.server_end.enc_key p a x i.1 f.1 f.0),
      )
