-- ===== src/Companion/Session.antt =====
-- src/companion_client.rs: OPACK values over the encrypted channel. The stream is the bytes that were written and
-- not read yet. A failure ends the exchange.
use adhoc_cross_device_conne.Prelude.{
  ℕ, ◌+◌, ◌-◌, ◌^◌, ◌≤◌, ◌<◌, ◌≡◌, refl, sym, ap, ap₂, ◌∙◌, true, false, List, ◌++◌, some, ltb,
  arith, length,
}
use adhoc_cross_device_conne.Prelude.Result.{Result, ok, ensure, ◌>>=◌, ◌>>◌}
use adhoc_cross_device_conne.Opack.{Value}
use adhoc_cross_device_conne.Opack.Encode.{encode}
use adhoc_cross_device_conne.Opack.Decode.{decode}
use adhoc_cross_device_conne.Opack.Measure.{IsWellFormed, nodes, height}
use adhoc_cross_device_conne.Opack.RoundTrip.{decode-encode}
use adhoc_cross_device_conne.Companion.Crypto.{Crypto, IsLawful}
use adhoc_cross_device_conne.Companion.Channel.{
  ContentChannel, checked_succ, nonce, encrypt, decrypt,
}
use adhoc_cross_device_conne.Companion.Packets.{head, header-head, read_packet-serialize}
use adhoc_cross_device_conne.Companion.{
  Error, not_encrypted, ContinuityPacket, encrypted_data, is_encrypted, header, serialize,
  read_packet, max_packet_body, opack_decode,
}

module _ (c : Crypto) where
  -- The bytes that are written, and the channel afterwards.
  unfoldable pub send_opack : ContentChannel → Value → Result Error (List ℕ × ContentChannel)
  send_opack ch value = do
    let plain = encode value
    h ← header encrypted_data (length plain + 16)
    (sealed, ch') ← encrypt c ch plain h
    bs ← serialize (record { ptype = encrypted_data; body = sealed })
    ok (bs, ch')

  -- The value, the rest of the stream, and the channel afterwards.
  unfoldable pub recv_opack :
      List ℕ → ContentChannel → Result Error (Value × List ℕ × ContentChannel)
  recv_opack stream ch = do
    (pkt, rest) ← read_packet stream
    ensure (is_encrypted pkt.ptype) not_encrypted
    h ← header pkt.ptype (length pkt.body)
    (plain, ch') ← decrypt c ch pkt.body h
    v ← opack_decode plain
    ok (v, rest, ch')

  -- The sending and the receiving end of one direction.
  pub record Mates (s r : ContentChannel) : Type 0 where
    pub keys : s.enc_key ≡ r.dec_key
    pub counters : s.enc_nonce ≡ r.dec_nonce

  -- What the wire carries: the ranges and limits of the decoder, with room for the tag.
  pub record IsPortable (v : Value) : Type 0 where
    pub well_formed : IsWellFormed v
    pub few : nodes v ≤ 65536
    pub low : height v ≤ 64
    pub short : length (encode v) + 16 ≤ max_packet_body

  -- Over primitives that do what they document, a portable value that one end sends is received
  -- by its mate, whatever follows it in the stream, and the ends are mates again, as long as the
  -- counter is not at its last value.
  pub recv-send :
      IsLawful c
      → (s r : ContentChannel) (v : Value) (rest : List ℕ) → Mates s r
      → IsPortable v
      → s.enc_nonce < 2 ^ 64 - 1
      → (bs : List ℕ) × (s' r' : ContentChannel) × (send_opack s v ≡ ok (bs, s'))
        × (recv_opack (bs ++ rest) r ≡ ok (v, rest, r'))
        × Mates s' r'
  unfolding send_opack recv_opack encrypt decrypt checked_succ
  recv-send law s r v rest m p h =
      let plain = encode v in
      let n = length plain + 16 in
      let hd = head encrypted_data n in
      let small : n ≤ 4194304 = p.short in
      let (sealed, e) = law.encrypts s.enc_key (nonce s.enc_nonce) hd plain (omega arith) in
      let size : length sealed ≡ n =
        law.tag_length s.enc_key (nonce s.enc_nonce) hd plain sealed e in
      let pkt : ContinuityPacket = record { ptype = encrypted_data; body = sealed } in
      let tagged : ltb (length sealed) 16 ≡ false = ground arith in
      let (bs, written, reads) = read_packet-serialize pkt rest (omega arith, tagged) in
      let t : ltb s.enc_nonce (2 ^ 64 - 1) ≡ true = ground arith in
      let u : ltb r.dec_nonce (2 ^ 64 - 1) ≡ true = (let q = m.counters in ground arith) in
      let o = header-head encrypted_data n (omega arith) in
      let d : c.aead_decrypt r.dec_key (nonce r.dec_nonce) hd sealed ≡ some plain =
        ap₂ (λ (k : List ℕ) (q : ℕ). c.aead_decrypt k (nonce q) hd sealed) (sym m.keys)
          (sym m.counters)
        ∙ law.decrypts s.enc_key (nonce s.enc_nonce) hd plain sealed e in
      let back : decode plain ≡ ok v = decode-encode v p.well_formed p.few p.low (omega arith) in
      (
        bs,
        record {
          enc_key = s.enc_key;
          dec_key = s.dec_key;
          enc_nonce = s.enc_nonce + 1;
          dec_nonce = s.dec_nonce;
        },
        record {
          enc_key = r.enc_key;
          dec_key = r.dec_key;
          enc_nonce = r.enc_nonce;
          dec_nonce = r.dec_nonce + 1;
        },
        rw (o, e, t, written) refl,
        rw (reads, size, o, d, u, opack_decode, back) refl,
        record { keys = m.keys; counters = ap (λ (x : ℕ). x + 1) m.counters },
      )
