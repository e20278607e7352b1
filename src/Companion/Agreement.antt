-- ===== src/Companion/Agreement.antt =====
-- src/companion.rs: Pair-Verify between a client and a server that know each other's verifying keys.
use adhoc_cross_device_conne.Prelude.{
  ℕ, ◌≤◌, ◌≡◌, refl, true, List, [], ◌++◌, some, none, arith, length, All,
}
use adhoc_cross_device_conne.Prelude.Bytes.{IsByte}
use adhoc_cross_device_conne.Prelude.Result.{ok}
use adhoc_cross_device_conne.Tlv8
use adhoc_cross_device_conne.Tlv8.{Tlv8, push, push_u8, types}
use adhoc_cross_device_conne.Companion.{
  Message, pv_m2, pv_m3, ContinuityPacket, pair_verify_continue, wrap_pairing_data,
}
use adhoc_cross_device_conne.Companion.Crypto.{Crypto, IsLawful}
use adhoc_cross_device_conne.Companion.Channel.{from_shared_secret, client, server}
use adhoc_cross_device_conne.Companion.Pairing.{pairing_tlv-wrap}
use adhoc_cross_device_conne.Companion.PairVerify.{
  PairingIdentity, PairVerifyClient, PairVerifyServer, encrypted_data_type, state_type, msg02,
  msg03, new_client, new_server, build_m1, open_signature, finish_m2, process_m2, says_state_4,
  check_m4, finish_m1, process_m1, process_m3,
}
use adhoc_cross_device_conne.Companion.Messages.{
  Knows, find_peer_known, sealed_signature, m1_read, m2_items, m2_packet, m2_read, m3_items,
  m3_packet, m3_read,
}

module _ (c : Crypto) where
  -- Each step of the exchange.
  after_m1 : List ℕ → List ℕ → PairingIdentity → PairVerifyServer
  after_m1 x y b = record {
    ephemeral = none;
    public = c.x25519_public y;
    identity = b;
    shared = some (c.x25519_agree x (c.x25519_public y));
    client_pub = some (c.x25519_public x);
  }

  after_m2 : List ℕ → List ℕ → PairingIdentity → PairVerifyClient
  after_m2 x y a = record {
    ephemeral = none;
    public = c.x25519_public x;
    identity = a;
    shared = some (c.x25519_agree x (c.x25519_public y));
  }

  server_m1 :
      IsLawful c
      → (x y : List ℕ) (a b : PairingIdentity)
      → (sealed : List ℕ) × (length sealed ≤ 300)
        × All IsByte sealed
        × (process_m1 c (new_server c y b) (build_m1 c (new_client c x a))
            ≡ (ok (m2_packet c (c.x25519_public y) sealed), after_m1 x y b))
        × ((tlv : Tlv8) (missing : Message)
            → Tlv8.get tlv encrypted_data_type ≡ some sealed
            → open_signature c (c.x25519_agree x (c.x25519_public y)) msg02 tlv missing
              ≡ ok (c.sign b.signing (c.x25519_public y ++ c.x25519_public x)))
  unfolding process_m1 finish_m1 m2_packet m2_items after_m1
  server_m1 law x y a b =
      let z = c.x25519_agree x (c.x25519_public y) in
      let (sealed, e, n, sb, opens) =
        sealed_signature c law z msg02 b.signing (c.x25519_public y ++ c.x25519_public x) pv_m2 in
      (sealed, n, sb, rw (process_m1, m1_read c law x a, law.agree_comm y x, e) refl, opens)

  client_m2 :
      IsLawful c
      → (x y : List ℕ) (a : PairingIdentity) (signing sealed : List ℕ)
      → Knows c a.peers (c.verifying_key signing)
      → c.was_contributory (c.x25519_agree x (c.x25519_public y)) ≡ true
      → length sealed ≤ 300
      → All IsByte sealed
      → ((tlv : Tlv8) (missing : Message)
          → Tlv8.get tlv encrypted_data_type ≡ some sealed
          → open_signature c (c.x25519_agree x (c.x25519_public y)) msg02 tlv missing
            ≡ ok (c.sign signing (c.x25519_public y ++ c.x25519_public x)))
      → (sealed' : List ℕ) × (length sealed' ≤ 300)
        × All IsByte sealed'
        × (process_m2 c (new_client c x a) (m2_packet c (c.x25519_public y) sealed)
            ≡ (ok (m3_packet c sealed'), after_m2 x y a))
        × ((tlv : Tlv8) (missing : Message)
            → Tlv8.get tlv encrypted_data_type ≡ some sealed'
            → open_signature c (c.x25519_agree x (c.x25519_public y)) msg03 tlv missing
              ≡ ok (c.sign a.signing (c.x25519_public x ++ c.x25519_public y)))
  unfolding process_m2 finish_m2 m3_packet m3_items after_m2 m2_items Tlv8.get
  client_m2 law x y a signing sealed knows contributes n sb opens =
      let k = c.x25519_public y in
      let z = c.x25519_agree x k in
      let (sealed', e, n', sb', opens') =
        sealed_signature c law z msg03 a.signing (c.x25519_public x ++ k) pv_m3 in
      let (label, found) = find_peer_known c law a.peers signing (k ++ c.x25519_public x) knows in
      let here = opens (m2_items c k sealed) pv_m2 refl in
      (
        sealed',
        n',
        sb',
        rw
            (
              process_m2,
              m2_read c k sealed (law.public_length y) (law.public_bytes y) n sb,
              contributes,
              here,
              found,
              e,
            )
            refl,
        opens',
      )

  m4_packet : ContinuityPacket
  m4_packet = record {
    ptype = pair_verify_continue;
    body = wrap_pairing_data (push_u8 [] state_type 4);
  }

  server_m3 :
      IsLawful c
      → (x y : List ℕ) (b : PairingIdentity) (signing sealed : List ℕ)
      → Knows c b.peers (c.verifying_key signing)
      → length sealed ≤ 300
      → All IsByte sealed
      → ((tlv : Tlv8) (missing : Message)
          → Tlv8.get tlv encrypted_data_type ≡ some sealed
          → open_signature c (c.x25519_agree x (c.x25519_public y)) msg03 tlv missing
            ≡ ok (c.sign signing (c.x25519_public x ++ c.x25519_public y)))
      → process_m3 c (after_m1 x y b) (m3_packet c sealed)
        ≡ ok (m4_packet, from_shared_secret c (c.x25519_agree x (c.x25519_public y)) server)
  unfolding process_m3 m4_packet after_m1 m3_items Tlv8.get
  server_m3 law x y b signing sealed knows n sb opens =
      let (label, found) =
        find_peer_known c law b.peers signing (c.x25519_public x ++ c.x25519_public y) knows in
      let here = opens (m3_items c sealed) pv_m3 refl in
      rw (m3_read c sealed n sb, here, found) refl

  client_m4 :
      (x y : List ℕ) (a : PairingIdentity)
      → check_m4 c (after_m2 x y a) m4_packet
        ≡ ok (from_shared_secret c (c.x25519_agree x (c.x25519_public y)) client)
  unfolding check_m4 m4_packet after_m2 says_state_4 Tlv8.get
  client_m4 x y a =
      rw
        (pairing_tlv-wrap pair_verify_continue (push_u8 [] state_type 4) tt
          (omega arith, (omega arith, tt), tt) (omega arith))
        refl

  -- Over primitives that do what they document, when a client and a server know each other's
  -- verifying keys and the client's agreement is contributory, the four messages of Pair-Verify,
  -- each made by one end and given to the other, all succeed, and the two ends derive the
  -- channels of one shared secret.
  pub agreement :
      IsLawful c
      → (x y : List ℕ) (a b : PairingIdentity) → Knows c a.peers (c.verifying_key b.signing)
      → Knows c b.peers (c.verifying_key a.signing)
      → c.was_contributory (c.x25519_agree x (c.x25519_public y)) ≡ true
      → (m2 m3 m4 : ContinuityPacket) × (t : PairVerifyClient) × (u : PairVerifyServer) × (z : List
          ℕ)
        × (process_m1 c (new_server c y b) (build_m1 c (new_client c x a)) ≡ (ok m2, u))
        × (process_m2 c (new_client c x a) m2 ≡ (ok m3, t))
        × (process_m3 c u m3 ≡ ok (m4, from_shared_secret c z server))
        × (check_m4 c t m4 ≡ ok (from_shared_secret c z client))
  agreement law x y a b known known' contributes =
      let (sealed, n, sb, first, opens) = server_m1 law x y a b in
      let (sealed', n', sb', second, opens') =
        client_m2 law x y a b.signing sealed known contributes n sb opens in
      (
        m2_packet c (c.x25519_public y) sealed,
        m3_packet c sealed',
        m4_packet,
        after_m2 x y a,
        after_m1 x y b,
        c.x25519_agree x (c.x25519_public y),
        first,
        second,
        server_m3 law x y b a.signing sealed' known' n' sb' opens',
        client_m4 x y a,
      )
