-- ===== src/Companion/Client.antt =====
-- src/companion_client.rs: the client's session, and the peer that the program runs against itself. What the peer sends is
-- the stream of bytes that is read; what is written is kept. A failure ends the session.
use adhoc_cross_device_conne.Prelude.{ℕ, ◌+◌, ◌%◌, ◌^◌, List, ◌++◌, some, none}
use adhoc_cross_device_conne.Prelude.Result.{Result, ok, ◌>>=◌}
use adhoc_cross_device_conne.Opack.{Value, get, as_u64}
use adhoc_cross_device_conne.Companion.{Error, serialize, read_packet}
use adhoc_cross_device_conne.Companion.Crypto.{Crypto}
use adhoc_cross_device_conne.Companion.Channel.{ContentChannel}
use adhoc_cross_device_conne.Companion.PairVerify.{
  PairingIdentity, new_client, new_server, build_m1, process_m1, process_m2, process_m3, check_m4,
}
use adhoc_cross_device_conne.Companion.Clipboard.{
  SystemInfo, Pasteboard, msg_request, msg_response, to_value, from_value, build_pasteboard_request,
  build_pasteboard_response, parse_pasteboard_response,
}
use adhoc_cross_device_conne.Companion.Session.{send_opack, recv_opack}

pub record Session : Type 0 where
  pub incoming : List ℕ
  pub written : List ℕ
  pub channel : ContentChannel
  pub xid : ℕ

module _ (c : Crypto) where
  unfoldable pub handshake : List ℕ → PairingIdentity → List ℕ → Result Error Session
  handshake eph identity incoming = do
    let fresh_client = new_client c eph identity
    w1 ← serialize (build_m1 c fresh_client)
    (m2, after_m2) ← read_packet incoming
    let outcome = process_m2 c fresh_client m2
    m3 ← outcome.0
    w3 ← serialize m3
    (m4, after_m4) ← read_packet after_m2
    ch ← check_m4 c outcome.1 m4
    ok (record { incoming = after_m4; written = w1 ++ w3; channel = ch; xid = 1 })

  -- Send a value and receive the peer's.
  unfoldable pub exchange : Session → Value → Result Error (Value × Session)
  exchange s v = do
    (bs, sent) ← send_opack c s.channel v
    (reply, rest, received) ← recv_opack c s.incoming sent
    ok (
      reply,
      record { incoming = rest; written = s.written ++ bs; channel = received; xid = s.xid },
    )

  unfoldable pub system_info_exchange : Session → SystemInfo → Result Error (SystemInfo × Session)
  system_info_exchange s ours = do
    (reply, s') ← exchange s (to_value ours msg_request)
    ok (from_value reply, s')

  -- `next_xid`: the identifier, and the session with the next one, a `u64`.
  unfoldable pub next_xid : Session → ℕ × Session
  next_xid s = (
    s.xid,
    record {
      incoming = s.incoming;
      written = s.written;
      channel = s.channel;
      xid = (s.xid + 1) % 2 ^ 64;
    },
  )

  unfoldable pub fetch_pasteboard : Session → Result Error (Pasteboard × Session)
  fetch_pasteboard s = do
    let drawn = next_xid s
    (reply, s') ← exchange drawn.1 (build_pasteboard_request drawn.0)
    pb ← parse_pasteboard_response reply
    ok (pb, s')

  -- `req.get(K_XID).and_then(Value::as_u64).unwrap_or(0)`
  unfoldable pub request_xid : Value → ℕ
  request_xid req = elim (get req "_x") [
    | none ↦ 0
    | some x ↦ elim (as_u64 x) [ some n ↦ n | none ↦ 0 ]
  ]

  -- The bytes that the peer writes in a whole run.
  unfoldable pub run_mock_server :
      List ℕ → PairingIdentity → SystemInfo → Pasteboard → List ℕ → Result Error (List ℕ)
  run_mock_server eph identity sysinfo pasteboard incoming = do
    let fresh_server = new_server c eph identity
    (m1, after_m1) ← read_packet incoming
    let outcome = process_m1 c fresh_server m1
    m2 ← outcome.0
    w2 ← serialize m2
    (m3, after_m3) ← read_packet after_m1
    (m4, ch) ← process_m3 c outcome.1 m3
    w4 ← serialize m4
    (client_info, after_p1, ch1) ← recv_opack c after_m3 ch
    (p2, ch2) ← send_opack c ch1 (to_value sysinfo msg_response)
    (req, after_p3, ch3) ← recv_opack c after_p1 ch2
    (p4, ch4) ← send_opack c ch3 (build_pasteboard_response (request_xid req) pasteboard)
    ok (w2 ++ (w4 ++ (p2 ++ p4)))
