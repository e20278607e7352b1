-- ===== src/Companion/PairVerify.antt =====
-- src/companion.rs: Pair-Verify, as the client runs it (M1 to M4) and as the server does.
-- A call that fails may have consumed the ephemeral key and set the shared secret: it returns the state with its failure.
use adhoc_cross_device_conne.Prelude.{
  ℕ, Bool, false, List, [], ◌∷◌, ◌++◌, Option, some, none, ◌==◌, if◌then◌else◌, length, bytes_eq,
}
use adhoc_cross_device_conne.Prelude.Bytes.{codes}
use adhoc_cross_device_conne.Prelude.Result.{Result, ok, err, ensure, context, ◌>>=◌, ◌>>◌}
use adhoc_cross_device_conne.Tlv8
use adhoc_cross_device_conne.Tlv8.{Tlv8, push, push_u8}
use adhoc_cross_device_conne.Companion.Crypto.{Crypto}
use adhoc_cross_device_conne.Companion.Channel.{ContentChannel, from_shared_secret, client, server}
use adhoc_cross_device_conne.Companion.{
  Message, pv_m1, pv_m2, pv_m3, pv_m4, Error, pv_encrypt_failed, pv_decrypt_failed,
  missing_public_key, bad_public_key, m1_not_sent, ephemeral_consumed, low_order_key,
  missing_encrypted_data, missing_signature, bad_signature_length, unknown_signature, bad_state,
  not_run_before, ContinuityPacket, pair_verify_public_key, pair_verify_continue, pairing_tlv,
  wrap_pairing_data,
}

-- `PairingIdentity`: the signing key, the device's identity resolving key, and the peers' labels and verifying keys.
pub record PairingIdentity : Type 0 where
  pub signing : List ℕ
  pub device_irk : List ℕ
  pub peers : List (List ℕ × List ℕ)

pub record PairVerifyClient : Type 0 where
  pub ephemeral : Option (List ℕ)
  pub public : List ℕ
  pub identity : PairingIdentity
  pub shared : Option (List ℕ)

pub record PairVerifyServer : Type 0 where
  pub ephemeral : Option (List ℕ)
  pub public : List ℕ
  pub identity : PairingIdentity
  pub shared : Option (List ℕ)
  pub client_pub : Option (List ℕ)

-- `mod tlv_type`
abbrev pub public_key_type : ℕ
public_key_type = 0x03

abbrev pub encrypted_data_type : ℕ
encrypted_data_type = 0x05

abbrev pub state_type : ℕ
state_type = 0x06

abbrev pub signature_type : ℕ
signature_type = 0x0A

abbrev pub app_flags_type : ℕ
app_flags_type = 0x19

-- Four zeros and the label's eight bytes.
abbrev pub pv_nonce : List ℕ → List ℕ
pv_nonce label = 0 ∷ 0 ∷ 0 ∷ 0 ∷ label

abbrev pub msg02 : List ℕ
msg02 = pv_nonce (codes "PV-Msg02")

abbrev pub msg03 : List ℕ
msg03 = pv_nonce (codes "PV-Msg03")

-- `tlv.get(PUBLIC_KEY)` of a message, as an array of 32 bytes.
abbrev pub public_key_of : Message → Tlv8 → Result Error (List ℕ)
public_key_of m tlv = do
  k ← context (Tlv8.get tlv public_key_type) (missing_public_key m)
  ensure (length k == 32) (bad_public_key m)
  ok k

unfoldable pub m1_fields : ContinuityPacket → Result Error (List ℕ)
m1_fields m1 = pairing_tlv m1 >>= public_key_of pv_m1

unfoldable pub m2_fields : ContinuityPacket → Result Error (Tlv8 × List ℕ)
m2_fields m2 = do tlv ← pairing_tlv m2; k ← public_key_of pv_m2 tlv; ok (tlv, k)

module _ (c : Crypto) where
  abbrev pub pair_verify_key : List ℕ → List ℕ
  pair_verify_key shared =
      c.hkdf_sha512 shared (codes "Pair-Verify-Encrypt-Salt") (codes "Pair-Verify-Encrypt-Info") 32

  -- `peers.iter().find(|(_, vk)| vk.verify(signed, signature).is_ok())` and the label found.
  unfoldable pub find_peer : List (List ℕ × List ℕ) → List ℕ → List ℕ → Option (List ℕ)
  find_peer [] signed sig = none
  find_peer ((label, vk) ∷ peers) signed sig =
      if c.verify vk signed sig then some label else find_peer peers signed sig

  -- `PairVerifyClient::new` with the ephemeral secret that it draws.
  abbrev pub new_client : List ℕ → PairingIdentity → PairVerifyClient
  new_client eph identity = record {
    ephemeral = some eph;
    public = c.x25519_public eph;
    identity = identity;
    shared = none;
  }

  abbrev pub new_server : List ℕ → PairingIdentity → PairVerifyServer
  new_server eph identity = record {
    ephemeral = some eph;
    public = c.x25519_public eph;
    identity = identity;
    shared = none;
    client_pub = none;
  }

  unfoldable pub build_m1 : PairVerifyClient → ContinuityPacket
  build_m1 s = record {
    ptype = pair_verify_public_key;
    body =
        wrap_pairing_data
          (push_u8 (push_u8 (push [] public_key_type s.public) state_type 1) app_flags_type 1);
  }

  -- The signature that a message carries under a key and a nonce.
  unfoldable pub open_signature : List ℕ → List ℕ → Tlv8 → Message → Result Error (List ℕ)
  open_signature shared nonce tlv m = do
    enc ← context (Tlv8.get tlv encrypted_data_type) (missing_encrypted_data m)
    dec ← context (c.aead_decrypt (pair_verify_key shared) nonce [] enc) (pv_decrypt_failed m)
    sig ← context (Tlv8.get (Tlv8.decode dec) signature_type) (missing_signature m)
    ensure (length sig == 64) bad_signature_length
    ok sig

  -- Our signature of a message, sealed under a key and a nonce.
  unfoldable pub seal_signature :
      List ℕ → List ℕ → List ℕ → List ℕ → Message → Result Error (List ℕ)
  seal_signature shared nonce signing signed m =
      context
        (c.aead_encrypt (pair_verify_key shared) nonce []
          (Tlv8.encode (push [] signature_type (c.sign signing signed))))
        (pv_encrypt_failed m)

  -- `process_m2` behind the agreement: the shared secret is set already.
  unfoldable pub finish_m2 :
      PairVerifyClient → Tlv8 → List ℕ → List ℕ → Result Error ContinuityPacket
  finish_m2 s tlv peer_pub shared = do
    sig ← open_signature shared msg02 tlv pv_m2
    label ←
        context (find_peer s.identity.peers (peer_pub ++ s.public) sig) (unknown_signature pv_m2)
    sealed ← seal_signature shared msg03 s.identity.signing (s.public ++ peer_pub) pv_m3
    ok (record {
      ptype = pair_verify_continue;
      body = wrap_pairing_data (push_u8 (push [] encrypted_data_type sealed) state_type 3);
    })

  -- The result and the client afterwards. The ephemeral secret is taken before the agreement is tested.
  unfoldable pub process_m2 :
      PairVerifyClient → ContinuityPacket → Result Error ContinuityPacket × PairVerifyClient
  process_m2 s m2 = elim (m2_fields m2) [
    | err e ↦ (err e, s)
    | ok (tlv, peer_pub) ↦ elim s.ephemeral [
      | none ↦ (err m1_not_sent, s)
      | some eph ↦
          let secret = c.x25519_agree eph peer_pub in
          if c.was_contributory secret
          then (
            finish_m2 s tlv peer_pub secret,
            record {
              ephemeral = none;
              public = s.public;
              identity = s.identity;
              shared = some secret;
            },
          )
          else (
            err low_order_key,
            record {
              ephemeral = none;
              public = s.public;
              identity = s.identity;
              shared = s.shared;
            },
          )
    ]
  ]

  -- `tlv.get(STATE) != Some(&[4])`
  unfoldable pub says_state_4 : Tlv8 → Bool
  says_state_4 tlv = elim (Tlv8.get tlv state_type) [ some v ↦ bytes_eq v (4 ∷ []) | none ↦ false ]

  unfoldable pub check_m4 : PairVerifyClient → ContinuityPacket → Result Error ContentChannel
  check_m4 s m4 = do
    tlv ← pairing_tlv m4
    ensure (says_state_4 tlv) bad_state
    shared ← context s.shared (not_run_before pv_m4)
    ok (from_shared_secret c shared client)

  unfoldable pub finish_m1 : PairVerifyServer → List ℕ → List ℕ → Result Error ContinuityPacket
  finish_m1 s client_pub shared = do
    sealed ← seal_signature shared msg02 s.identity.signing (s.public ++ client_pub) pv_m2
    ok (record {
      ptype = pair_verify_continue;
      body = wrap_pairing_data (
          push_u8 (push (push [] public_key_type s.public) encrypted_data_type sealed) state_type
            2);
    })

  unfoldable pub process_m1 :
      PairVerifyServer → ContinuityPacket → Result Error ContinuityPacket × PairVerifyServer
  process_m1 s m1 = elim (m1_fields m1) [
    | err e ↦ (err e, s)
    | ok client_key ↦ elim s.ephemeral [
      | none ↦ (err ephemeral_consumed, s)
      | some eph ↦
          let secret = c.x25519_agree eph client_key in
          (
            finish_m1 s client_key secret,
            record {
              ephemeral = none;
              public = s.public;
              identity = s.identity;
              shared = some secret;
              client_pub = some client_key;
            },
          )
    ]
  ]

  unfoldable pub process_m3 :
      PairVerifyServer → ContinuityPacket → Result Error (ContinuityPacket × ContentChannel)
  process_m3 s m3 = do
    tlv ← pairing_tlv m3
    shared ← context s.shared (not_run_before pv_m3)
    client_key ← context s.client_pub (not_run_before pv_m3)
    sig ← open_signature shared msg03 tlv pv_m3
    label ←
        context (find_peer s.identity.peers (client_key ++ s.public) sig) (unknown_signature pv_m3)
    ok (
      record { ptype = pair_verify_continue; body = wrap_pairing_data (push_u8 [] state_type 4) },
      from_shared_secret c shared server,
    )
