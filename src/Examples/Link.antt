-- ===== src/Examples/Link.antt =====
-- The Companion link at concrete inputs, over the toy primitives.
use adhoc_cross_device_conne.Prelude.{
  replicate, ℕ, ◌+◌, ◌-◌, ◌^◌, ◌<◌, ◌≡◌, ◌≢◌, ◌⊎◌, inl, inr, refl, true, List, [], ◌∷◌, ◌++◌, some,
  none, arith, length, All,
}
use adhoc_cross_device_conne.Prelude.Bytes.{IsByte, codes}
use adhoc_cross_device_conne.Prelude.Result.{ok, err}
use adhoc_cross_device_conne.Opack.{int}
use adhoc_cross_device_conne.Opack.Encode.{encode, encode_int}
use adhoc_cross_device_conne.Opack.Measure.{nodes, height}
use adhoc_cross_device_conne.Tlv8.{Tlv8}
use adhoc_cross_device_conne.Companion.{
  Error, pv_m2, pv_m3, body_too_long, finished, pair_verify_continue, from_u8, ContinuityPacket,
  serialize, parse, read_exact, read_packet, wrap_pairing_data, pairing_tlv,
}
use adhoc_cross_device_conne.Companion.Packets.{
  parse-serialize, IsSendable, read_packet-serialize, read_packet_sound,
}
use adhoc_cross_device_conne.Companion.Pairing.{pairing_tlv-wrap}
use adhoc_cross_device_conne.Companion.Channel.{
  ContentChannel, client, server, from_shared_secret, encrypt, decrypt, checked_succ, nonce,
}
use adhoc_cross_device_conne.Companion.Nonces.{same, nonces_differ}
use adhoc_cross_device_conne.Companion.LockStep.{
  World, Reachable, start, step, client_sends, fresh, delivery,
}
use adhoc_cross_device_conne.Companion.Session.{
  Mates, IsPortable, send_opack, recv_opack, recv-send,
}
use adhoc_cross_device_conne.Companion.PairVerify.{
  PairingIdentity, PairVerifyClient, PairVerifyServer, m2_fields, open_signature, msg02, msg03,
  new_client, new_server, build_m1, process_m1, process_m2, process_m3, check_m4,
}
use adhoc_cross_device_conne.Companion.Agreement.{agreement}
use adhoc_cross_device_conne.Companion.Authentic.{
  Signed, process_m2_authentic, process_m3_authentic, process_m2_once,
}
use adhoc_cross_device_conne.Companion.Clipboard.{
  Pasteboard, build_pasteboard_response, parse_pasteboard_response, parse-build_pasteboard_response,
}
use adhoc_cross_device_conne.Examples.ToyCrypto.{toy, toy-IsLawful}

-- The clipboard's `finished` packet and a pairing message.
abbrev goodbye : ContinuityPacket
goodbye = record { ptype = finished; body = 1 ∷ 2 ∷ [] }

parse-serialize_example :
    ((bs : List ℕ) × (serialize goodbye ≡ ok bs) × (parse bs ≡ ok goodbye))
    ⊎ ((0xffffff < length goodbye.body) × (serialize goodbye ≡ err body_too_long))
parse-serialize_example = parse-serialize goodbye

read_packet-serialize_example :
    (bs : List ℕ) × (serialize goodbye ≡ ok bs)
    × (read_packet (bs ++ 7 ∷ []) ≡ ok (goodbye, 7 ∷ []))
read_packet-serialize_example = read_packet-serialize goodbye (7 ∷ []) (omega arith, refl)

abbrev stream : List ℕ
stream = 1 ∷ 0 ∷ 0 ∷ 2 ∷ 1 ∷ 2 ∷ 7 ∷ []

stream-IsByte : All IsByte stream
stream-IsByte = (
  omega arith,
  (omega arith, (omega arith, (omega arith, (omega arith, (omega arith, (omega arith, tt)))))),
)

read_stream : read_packet stream ≡ ok (goodbye, 7 ∷ [])
unfolding read_packet from_u8 read_exact
read_stream = refl

read_packet_sound_example :
    IsSendable goodbye × ((bs : List ℕ) × (serialize goodbye ≡ ok bs) × (stream ≡ bs ++ 7 ∷ []))
read_packet_sound_example = read_packet_sound stream (7 ∷ []) goodbye stream-IsByte read_stream

abbrev m4_items : Tlv8
m4_items = (6, 4 ∷ []) ∷ []

pairing_tlv-wrap_example :
    pairing_tlv (record { ptype = pair_verify_continue; body = wrap_pairing_data m4_items })
    ≡ ok m4_items
pairing_tlv-wrap_example =
    pairing_tlv-wrap pair_verify_continue m4_items tt (omega arith, (omega arith, tt), tt)
      (omega arith)

-- Two devices that know each other.
abbrev phone : List ℕ
phone = 11 ∷ 12 ∷ []

abbrev desktop : List ℕ
desktop = 21 ∷ 22 ∷ []

abbrev phone_identity : PairingIdentity
phone_identity = record {
  signing = phone;
  device_irk = replicate 16 1;
  peers = (codes "old", 0 ∷ []) ∷ (codes "desktop", desktop) ∷ [];
}

abbrev desktop_identity : PairingIdentity
desktop_identity = record {
  signing = desktop;
  device_irk = replicate 16 2;
  peers = (codes "phone", phone) ∷ [];
}

-- The four messages of Pair-Verify between them.
abbrev Handshake : Type 0
Handshake =
    (m2 m3 m4 : ContinuityPacket) × (t : PairVerifyClient) × (u : PairVerifyServer) × (z : List ℕ)
    × (process_m1 toy (new_server toy (4 ∷ []) desktop_identity)
          (build_m1 toy (new_client toy (3 ∷ []) phone_identity))
        ≡ (ok m2, u))
    × (process_m2 toy (new_client toy (3 ∷ []) phone_identity) m2 ≡ (ok m3, t))
    × (process_m3 toy u m3 ≡ ok (m4, from_shared_secret toy z server))
    × (check_m4 toy t m4 ≡ ok (from_shared_secret toy z client))

handshake : Handshake
handshake =
    agreement toy toy-IsLawful (3 ∷ []) (4 ∷ []) phone_identity desktop_identity (inr (inl refl))
      (inl refl) refl

agreement_example : Handshake
agreement_example =
    agreement toy toy-IsLawful (3 ∷ []) (4 ∷ []) phone_identity desktop_identity (inr (inl refl))
      (inl refl) refl

process_m2_authentic_example :
    (eph k sig : List ℕ) × (tlv : Tlv8) × (some (3 ∷ []) ≡ some eph)
    × (m2_fields handshake.0 ≡ ok (tlv, k))
    × (length k ≡ 32)
    × (open_signature toy (toy.x25519_agree eph k) msg02 tlv pv_m2 ≡ ok sig)
    × (toy.was_contributory (toy.x25519_agree eph k) ≡ true)
    × Signed toy phone_identity.peers (k ++ toy.x25519_public (3 ∷ [])) sig
    × (handshake.3.shared ≡ some (toy.x25519_agree eph k))
    × (handshake.3.ephemeral ≡ none)
process_m2_authentic_example =
    process_m2_authentic toy (new_client toy (3 ∷ []) phone_identity) handshake.3 handshake.0
      handshake.1 handshake.7

process_m3_authentic_example :
    (z k sig : List ℕ) × (tlv : Tlv8) × (handshake.4.shared ≡ some z)
    × (handshake.4.client_pub ≡ some k)
    × (pairing_tlv handshake.1 ≡ ok tlv)
    × (open_signature toy z msg03 tlv pv_m3 ≡ ok sig)
    × Signed toy handshake.4.identity.peers (k ++ handshake.4.public) sig
    × (from_shared_secret toy handshake.5 server ≡ from_shared_secret toy z server)
process_m3_authentic_example =
    process_m3_authentic toy handshake.4 handshake.1 handshake.2
      (from_shared_secret toy handshake.5 server) handshake.8

-- A client that has processed the M2 of the handshake.
abbrev spent : PairVerifyClient
spent = (process_m2 toy (new_client toy (3 ∷ []) phone_identity) handshake.0).1

m2_read : (tlv : Tlv8) × (k : List ℕ) × (m2_fields handshake.0 ≡ ok (tlv, k))
m2_read =
    let (eph, k, sig, tlv, e, f, r1, r2, r3, r4, r5, r6) =
      process_m2_authentic toy (new_client toy (3 ∷ []) phone_identity) handshake.3 handshake.0
        handshake.1 handshake.7 in
    (tlv, k, f)

process_m2_once_example : (e : Error) × (process_m2 toy spent handshake.0 ≡ (err e, spent))
process_m2_once_example =
    process_m2_once toy (new_client toy (3 ∷ []) phone_identity) handshake.0 handshake.0 m2_read.0
      m2_read.1 m2_read.2

-- One message on its way from the client to the server.
abbrev hello : List ℕ
hello = 104 ∷ 105 ∷ []

abbrev end_at : ℕ → ContentChannel
end_at n = record {
  enc_key = toy.hkdf_sha512 (1 ∷ []) [] (codes "ClientEncrypt-main") 32;
  dec_key = toy.hkdf_sha512 (1 ∷ []) [] (codes "ServerEncrypt-main") 32;
  enc_nonce = n;
  dec_nonce = 0;
}

ciphertext : List ℕ
ciphertext = hello ++ 0 ∷ 0 ∷ 0 ∷ 0 ∷ 0 ∷ 0 ∷ 0 ∷ 0 ∷ 0 ∷ 0 ∷ 0 ∷ 0 ∷ 0 ∷ 0 ∷ 0 ∷ 0 ∷ []

encrypt-hello :
    (n : ℕ) → n < 2 ^ 64 - 1 → encrypt toy (end_at n) hello [] ≡ ok (ciphertext, end_at (n + 1))
unfolding encrypt checked_succ ciphertext
encrypt-hello n h = ground arith

abbrev sent : World
sent = record {
  client_end = end_at 1;
  server_end = from_shared_secret toy (1 ∷ []) server;
  to_server = (hello, [], ciphertext) ∷ [];
  to_client = [];
}

sent-Reachable : Reachable toy (fresh toy (1 ∷ [])) sent
unfolding fresh from_shared_secret
sent-Reachable = step start (
    client_sends (fresh toy (1 ∷ [])) hello [] ciphertext (end_at 1)
      (encrypt-hello 0 (omega arith)))

delivery_example :
    (sent.to_server ≡ (hello, [], ciphertext) ∷ []
      → (ch : ContentChannel) × (decrypt toy sent.server_end ciphertext [] ≡ ok (hello, ch)))
    × (sent.to_client ≡ (hello, [], ciphertext) ∷ []
        → (ch : ContentChannel) × (decrypt toy sent.client_end ciphertext [] ≡ ok (hello, ch)))
delivery_example = delivery toy toy-IsLawful (1 ∷ []) sent sent-Reachable hello [] ciphertext []

nonces_differ_example : ((end_at 4).enc_key ≡ (end_at 5).enc_key) × (nonce 4 ≢ nonce 5)
nonces_differ_example =
    nonces_differ toy (end_at 4) (end_at 5) (end_at 5) (end_at 6) hello [] ciphertext hello []
      ciphertext (encrypt-hello 4 (omega arith)) (same (end_at 5)) (encrypt-hello 5 (omega arith))

-- A number over the channel.
seven-IsPortable : IsPortable toy (int 7)
unfolding encode encode_int nodes height
seven-IsPortable = record {
  well_formed = omega arith;
  few = omega arith;
  low = omega arith;
  short = omega arith;
}

ends-Mates :
    Mates toy (from_shared_secret toy (1 ∷ []) client) (from_shared_secret toy (1 ∷ []) server)
unfolding from_shared_secret
ends-Mates = record { keys = refl; counters = refl }

no_calls : (from_shared_secret toy (1 ∷ []) client).enc_nonce < 2 ^ 64 - 1
unfolding from_shared_secret
no_calls = omega arith

recv-send_example :
    (bs : List ℕ) × (s' r' : ContentChannel) × (send_opack toy
        (from_shared_secret toy (1 ∷ []) client)
        (int 7)
      ≡ ok (bs, s'))
    × (recv_opack toy (bs ++ 5 ∷ []) (from_shared_secret toy (1 ∷ []) server)
        ≡ ok (int 7, 5 ∷ [], r'))
    × Mates toy s' r'
recv-send_example =
    recv-send toy toy-IsLawful (from_shared_secret toy (1 ∷ []) client)
      (from_shared_secret toy (1 ∷ []) server) (int 7) (5 ∷ []) ends-Mates seven-IsPortable no_calls

-- The clipboard's payloads.
abbrev copied : Pasteboard
copied =
    record { uti = codes "public.utf8-plain-text"; data_bytes = hello }
    ∷ record { uti = codes "public.png"; data_bytes = [] }
    ∷ []

parse-build_pasteboard_response_example :
    parse_pasteboard_response (build_pasteboard_response 3 copied) ≡ ok copied
parse-build_pasteboard_response_example = parse-build_pasteboard_response 3 copied
