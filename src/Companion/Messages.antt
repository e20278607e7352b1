-- ===== src/Companion/Messages.antt =====
-- The messages of Pair-Verify in src/companion.rs: the signatures that they carry, and what is read from them.
use adhoc_cross_device_conne.Prelude.{
  ℕ, ◌^◌, ◌≤◌, ◌<◌, ◌≡◌, ◌⊎◌, inl, inr, refl, Bool-cases, List, [], ◌∷◌, some, arith, length, All,
}
use adhoc_cross_device_conne.Prelude.Bytes.{IsByte}
use adhoc_cross_device_conne.Prelude.Result.{ok}
use adhoc_cross_device_conne.Tlv8
use adhoc_cross_device_conne.Tlv8.{Tlv8, push, push_u8, types}
use adhoc_cross_device_conne.Tlv8.RoundTrip.{decode-encode_distinct}
use adhoc_cross_device_conne.Tlv8.Sizes.{length-encode, AreBytes, encode-IsByte}
use adhoc_cross_device_conne.Companion.{
  Message, ContinuityPacket, pair_verify_public_key, pair_verify_continue, pairing_tlv,
  wrap_pairing_data,
}
use adhoc_cross_device_conne.Companion.Crypto.{Crypto, IsLawful}
use adhoc_cross_device_conne.Companion.Pairing.{pairing_tlv-wrap}
use adhoc_cross_device_conne.Companion.PairVerify.{
  PairingIdentity, public_key_type, encrypted_data_type, state_type, signature_type, app_flags_type,
  pair_verify_key, find_peer, new_client, build_m1, open_signature, seal_signature, m1_fields,
  m2_fields,
}

module _ (c : Crypto) where
  -- A list of peers has one with a verifying key.
  abbrev pub Knows : List (List ℕ × List ℕ) → List ℕ → Type 0
  Knows [] vk = ⊥
  Knows ((label, k) ∷ peers) vk = (k ≡ vk) ⊎ Knows peers vk

  pub find_peer_known :
      IsLawful c
      → (peers : List (List ℕ × List ℕ)) (signing signed : List ℕ)
      → Knows peers (c.verifying_key signing)
      → (label : List ℕ) × (find_peer c peers signed (c.sign signing signed) ≡ some label)
  unfolding find_peer
  find_peer_known law [] signing signed h = absurd h
  find_peer_known law ((label, k) ∷ peers) signing signed (inl e) =
      (label, rw (e, law.verify-sign signing signed) refl)
  find_peer_known law ((label, k) ∷ peers) signing signed (inr h) =
      elim (Bool-cases (c.verify k signed (c.sign signing signed))) [
        | inl e ↦ (label, rw e refl)
        | inr e ↦ (let (l, f) = find_peer_known law peers signing signed h in (l, rw e f))
      ]

  -- The signature that is sealed, and how it is opened.
  pub sealed_signature :
      IsLawful c
      → (shared nonce signing signed : List ℕ) (w : Message)
      → (sealed : List ℕ) × (seal_signature c shared nonce signing signed w ≡ ok sealed)
        × (length sealed ≤ 300)
        × All IsByte sealed
        × ((tlv : Tlv8) (missing : Message)
            → Tlv8.get tlv encrypted_data_type ≡ some sealed
            → open_signature c shared nonce tlv missing ≡ ok (c.sign signing signed))
  unfolding seal_signature open_signature Tlv8.get
  sealed_signature law shared nonce signing signed w =
      let sig = c.sign signing signed in
      let items = push [] signature_type sig in
      let plain = Tlv8.encode items in
      let n : length sig ≡ 64 = law.sign_length signing signed in
      let own : AreBytes items = (omega arith, law.sign_bytes signing signed, tt) in
      let small : length plain < 2 ^ 32 = omega (arith, n, length-encode items) in
      let (sealed, e) = law.encrypts (pair_verify_key c shared) nonce [] plain small in
      (
        sealed,
        rw e refl,
        omega (
          arith,
          n,
          length-encode items,
          law.tag_length (pair_verify_key c shared) nonce [] plain sealed e,
        ),
        law.sealed_bytes (pair_verify_key c shared) nonce [] plain sealed (encode-IsByte items own)
            e,
        λ tlv missing g.
            let d = law.decrypts (pair_verify_key c shared) nonce [] plain sealed e in
            rw (g, d, decode-encode_distinct items tt, n) refl,
      )

  -- The messages, read from their packets.
  pub m1_read :
      IsLawful c
      → (x : List ℕ) (a : PairingIdentity)
      → m1_fields (build_m1 c (new_client c x a)) ≡ ok (c.x25519_public x)
  unfolding m1_fields build_m1 Tlv8.get
  m1_read law x a =
      let k = c.x25519_public x in
      let n : length k ≡ 32 = law.public_length x in
      let items = push_u8 (push_u8 (push [] public_key_type k) state_type 1) app_flags_type 1 in
      let q : AreBytes items = (
        omega arith,
        law.public_bytes x,
        (omega arith, (omega arith, tt), (omega arith, (omega arith, tt), tt)),
      ) in
      rw (pairing_tlv-wrap pair_verify_public_key items (refl, (refl, tt)) q (omega (arith, n)), n)
        refl

  unfoldable pub m2_items : List ℕ → List ℕ → Tlv8
  m2_items k sealed =
      push_u8 (push (push [] public_key_type k) encrypted_data_type sealed) state_type 2

  unfoldable pub m2_packet : List ℕ → List ℕ → ContinuityPacket
  unfolding m2_items
  m2_packet k sealed = record {
    ptype = pair_verify_continue;
    body = wrap_pairing_data (m2_items k sealed);
  }

  pub m2_read :
      (k sealed : List ℕ)
      → length k ≡ 32
      → All IsByte k
      → length sealed ≤ 300
      → All IsByte sealed
      → m2_fields (m2_packet k sealed) ≡ ok (m2_items k sealed, k)
  unfolding m2_fields m2_packet m2_items Tlv8.get
  m2_read k sealed n kb m sb =
      rw
        (
          pairing_tlv-wrap pair_verify_continue (m2_items k sealed) (refl, (refl, tt))
              (omega arith, kb, (omega arith, sb, (omega arith, (omega arith, tt), tt)))
              (omega (arith, n)),
          n,
        )
        refl

  unfoldable pub m3_items : List ℕ → Tlv8
  m3_items sealed = push_u8 (push [] encrypted_data_type sealed) state_type 3

  unfoldable pub m3_packet : List ℕ → ContinuityPacket
  unfolding m3_items
  m3_packet sealed = record {
    ptype = pair_verify_continue;
    body = wrap_pairing_data (m3_items sealed);
  }

  pub m3_read :
      (sealed : List ℕ)
      → length sealed ≤ 300
      → All IsByte sealed
      → pairing_tlv (m3_packet sealed) ≡ ok (m3_items sealed)
  unfolding m3_packet m3_items
  m3_read sealed m sb =
      pairing_tlv-wrap pair_verify_continue (m3_items sealed) (refl, tt)
        (omega arith, sb, (omega arith, (omega arith, tt), tt)) (omega arith)
