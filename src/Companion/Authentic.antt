-- ===== src/Companion/Authentic.antt =====
-- src/companion.rs: whose signatures Pair-Verify accepts.
use adhoc_cross_device_conne.Prelude.{
  ℕ, ◌≡◌, ◌⊎◌, inl, inr, true, Bool-cases, Option-cases, List, [], ◌∷◌, ◌++◌, some, none, arith,
  length,
}
use adhoc_cross_device_conne.Prelude.Result.{
  ok, err, context, >>=-eq-ok, context-eq-ok, Result-cases,
}
use adhoc_cross_device_conne.Tlv8.{Tlv8}
use adhoc_cross_device_conne.Companion.{
  Message, pv_m2, pv_m3, Error, m1_not_sent, unknown_signature, not_run_before, ContinuityPacket,
  pairing_tlv,
}
use adhoc_cross_device_conne.Companion.Crypto.{Crypto}
use adhoc_cross_device_conne.Companion.Channel.{ContentChannel, from_shared_secret, server}
use adhoc_cross_device_conne.Companion.PairVerify.{
  PairVerifyClient, PairVerifyServer, public_key_of, find_peer, open_signature, msg02, msg03,
  finish_m2, m2_fields, process_m2, process_m3,
}

module _ (c : Crypto) where
  -- One of the peers verifies a signature of a message.
  abbrev pub Signed : List (List ℕ × List ℕ) → List ℕ → List ℕ → Type 0
  Signed [] m sig = ⊥
  Signed ((label, vk) ∷ peers) m sig = (c.verify vk m sig ≡ true) ⊎ Signed peers m sig

  find_peer-Signed :
      (peers : List (List ℕ × List ℕ)) (m sig label : List ℕ)
      → find_peer c peers m sig ≡ some label
      → Signed peers m sig
  unfolding find_peer
  find_peer-Signed [] m sig label h = cc
  find_peer-Signed ((l, vk) ∷ peers) m sig label h = elim (Bool-cases (c.verify vk m sig)) [
    | inl e ↦ inl e
    | inr e ↦ inr (find_peer-Signed peers m sig label (rw e at h))
  ]

  public_key_of-length :
      (m : Message) (tlv : Tlv8) (k : List ℕ) → public_key_of m tlv ≡ ok k → length k ≡ 32
  public_key_of-length m tlv k h = ground arith

  m2_fields-length :
      (m2 : ContinuityPacket) (tlv : Tlv8) (k : List ℕ) → m2_fields m2 ≡ ok (tlv, k) → length k ≡ 32
  unfolding m2_fields
  m2_fields-length m2 tlv k h = ground arith

  finish_m2_inv :
      (s : PairVerifyClient) (tlv : Tlv8) (k z : List ℕ) (m3 : ContinuityPacket)
      → finish_m2 c s tlv k z ≡ ok m3
      → (sig label : List ℕ) × (open_signature c z msg02 tlv pv_m2 ≡ ok sig)
        × (find_peer c s.identity.peers (k ++ s.public) sig ≡ some label)
  unfolding finish_m2
  finish_m2_inv s tlv k z m3 h =
      let (sig, e, h') = >>=-eq-ok (open_signature c z msg02 tlv pv_m2) _ h in
      let (label, f, h'') =
        >>=-eq-ok
          (context (find_peer c s.identity.peers (k ++ s.public) sig) (unknown_signature pv_m2)) _
          h' in
      (
        sig,
        label,
        e,
        context-eq-ok (find_peer c s.identity.peers (k ++ s.public) sig) (unknown_signature pv_m2)
            f,
      )

  process_m2_inv :
      (s t : PairVerifyClient) (m2 m3 : ContinuityPacket)
      → process_m2 c s m2 ≡ (ok m3, t)
      → (eph k : List ℕ) × (tlv : Tlv8) × (s.ephemeral ≡ some eph)
        × (m2_fields m2 ≡ ok (tlv, k))
        × (c.was_contributory (c.x25519_agree eph k) ≡ true)
        × (finish_m2 c s tlv k (c.x25519_agree eph k) ≡ ok m3)
        × (t.shared ≡ some (c.x25519_agree eph k))
        × (t.ephemeral ≡ none)
  unfolding process_m2
  process_m2_inv s t m2 m3 h = elim (Result-cases (m2_fields m2)) [
    | inr (e, p) ↦ ground arith
    | inl ((tlv, k), p) ↦ elim (Option-cases s.ephemeral) [
      | inl q ↦ ground arith
      | inr (eph, q) ↦ elim (Bool-cases (c.was_contributory (c.x25519_agree eph k))) [
        | inr b ↦ ground arith
        | inl b ↦ (eph, k, tlv, q, p, b, ground arith, ground arith, ground arith)
      ]
    ]
  ]

  process_m3_inv :
      (s : PairVerifyServer) (m3 m4 : ContinuityPacket) (ch : ContentChannel)
      → process_m3 c s m3 ≡ ok (m4, ch)
      → (z k sig label : List ℕ) × (tlv : Tlv8) × (s.shared ≡ some z)
        × (s.client_pub ≡ some k)
        × (pairing_tlv m3 ≡ ok tlv)
        × (open_signature c z msg03 tlv pv_m3 ≡ ok sig)
        × (find_peer c s.identity.peers (k ++ s.public) sig ≡ some label)
        × (ch ≡ from_shared_secret c z server)
  unfolding process_m3
  process_m3_inv s m3 m4 ch h =
      let (tlv, e, h1) = >>=-eq-ok (pairing_tlv m3) _ h in
      let (z, f, h2) = >>=-eq-ok (context s.shared (not_run_before pv_m3)) _ h1 in
      let (k, g, h3) = >>=-eq-ok (context s.client_pub (not_run_before pv_m3)) _ h2 in
      let (sig, i, h4) = >>=-eq-ok (open_signature c z msg03 tlv pv_m3) _ h3 in
      let peer = find_peer c s.identity.peers (k ++ s.public) sig in
      let (label, j, h5) = >>=-eq-ok (context peer (unknown_signature pv_m3)) _ h4 in
      (
        z,
        k,
        sig,
        label,
        tlv,
        context-eq-ok s.shared (not_run_before pv_m3) f,
        context-eq-ok s.client_pub (not_run_before pv_m3) g,
        e,
        i,
        context-eq-ok peer (unknown_signature pv_m3) j,
        cc,
      )

  -- When the client accepts M2, the peer's key that M2 carries has 32 bytes, its agreement with the
  -- client's ephemeral secret is contributory and is the shared secret from then on, the signature
  -- that M2 carries opens under that secret and is one of the client's peers' on the peer's key and
  -- the client's, and the ephemeral secret is gone.
  pub process_m2_authentic :
      (s t : PairVerifyClient) (m2 m3 : ContinuityPacket)
      → process_m2 c s m2 ≡ (ok m3, t)
      → (eph k sig : List ℕ) × (tlv : Tlv8) × (s.ephemeral ≡ some eph)
        × (m2_fields m2 ≡ ok (tlv, k))
        × (length k ≡ 32)
        × (open_signature c (c.x25519_agree eph k) msg02 tlv pv_m2 ≡ ok sig)
        × (c.was_contributory (c.x25519_agree eph k) ≡ true)
        × Signed s.identity.peers (k ++ s.public) sig
        × (t.shared ≡ some (c.x25519_agree eph k))
        × (t.ephemeral ≡ none)
  process_m2_authentic s t m2 m3 h =
      let (eph, k, tlv, e, f, contributes, made, shared, gone) = process_m2_inv s t m2 m3 h in
      let (sig, label, opened, found) = finish_m2_inv s tlv k (c.x25519_agree eph k) m3 made in
      (
        eph,
        k,
        sig,
        tlv,
        e,
        f,
        m2_fields-length m2 tlv k f,
        opened,
        contributes,
        find_peer-Signed s.identity.peers (k ++ s.public) sig label found,
        shared,
        gone,
      )

  -- When the server accepts M3, it has run the agreement, the signature that M3 carries opens under
  -- the shared secret and is one of the server's peers' on the client's key and the server's, and
  -- the channel is that of the shared secret.
  pub process_m3_authentic :
      (s : PairVerifyServer) (m3 m4 : ContinuityPacket) (ch : ContentChannel)
      → process_m3 c s m3 ≡ ok (m4, ch)
      → (z k sig : List ℕ) × (tlv : Tlv8) × (s.shared ≡ some z)
        × (s.client_pub ≡ some k)
        × (pairing_tlv m3 ≡ ok tlv)
        × (open_signature c z msg03 tlv pv_m3 ≡ ok sig)
        × Signed s.identity.peers (k ++ s.public) sig
        × (ch ≡ from_shared_secret c z server)
  process_m3_authentic s m3 m4 ch h =
      let (z, k, sig, label, tlv, e, f, i, j, found, g) = process_m3_inv s m3 m4 ch h in
      (
        z,
        k,
        sig,
        tlv,
        e,
        f,
        i,
        j,
        find_peer-Signed s.identity.peers (k ++ s.public) sig label found,
        g,
      )

  process_m2-refused :
      (s : PairVerifyClient) (m2 : ContinuityPacket)
      → s.ephemeral ≡ none
      → (e : Error) × (process_m2 c s m2 ≡ (err e, s))
  unfolding process_m2
  process_m2-refused s m2 h = elim (Result-cases (m2_fields m2)) [
    | inl (a, p) ↦ (m1_not_sent, ground arith)
    | inr (e, p) ↦ (e, ground arith)
  ]

  process_m2-takes :
      (s : PairVerifyClient) (m2 : ContinuityPacket) (tlv : Tlv8) (k : List ℕ)
      → m2_fields m2 ≡ ok (tlv, k)
      → (process_m2 c s m2).1.ephemeral ≡ none
  unfolding process_m2
  process_m2-takes s m2 tlv k h = elim (Option-cases s.ephemeral) [
    | inl q ↦ ground arith
    | inr (eph, q) ↦ elim (Bool-cases (c.was_contributory (c.x25519_agree eph k))) [
      | inr b ↦ ground arith
      | inl b ↦ ground arith
    ]
  ]

  -- When a client has processed an M2 that carries a public key of 32 bytes, with whatever result, it refuses every
  -- other M2 and stays as it is.
  pub process_m2_once :
      (s : PairVerifyClient) (m2 other : ContinuityPacket) (tlv : Tlv8) (k : List ℕ)
      → m2_fields m2 ≡ ok (tlv, k)
      → (e : Error) × (process_m2 c (process_m2 c s m2).1 other ≡ (err e, (process_m2 c s m2).1))
  process_m2_once s m2 other tlv k h =
      process_m2-refused (process_m2 c s m2).1 other (process_m2-takes s m2 tlv k h)
