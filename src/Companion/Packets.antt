-- ===== src/Companion/Packets.antt =====
-- src/companion.rs, src/companion_client.rs: the frames of the Companion link, written and read back.
use adhoc_cross_device_conne.Prelude.{
  ℕ, ◌+◌, ◌/◌, ◌%◌, ◌≤◌, ◌<◌, ◌≡◌, ◌⊎◌, inl, inr, refl, sym, ap, ap₂, ◌∙◌, true, false, List, [],
  ◌∷◌, ◌++◌, some, ltb, leb, ==_refl, Bool-cases, arith, length, take, drop, length-append,
  take-append, drop-append, take-append-drop, length-take, ◌&&◌, All,
}
use adhoc_cross_device_conne.Prelude.Bytes.{IsByte}
use adhoc_cross_device_conne.Prelude.Result.{ok, err}
use adhoc_cross_device_conne.Companion.{
  body_too_long, PacketType, pair_verify_public_key, pair_verify_continue, encrypted_data, finished,
  code, from_u8, ContinuityPacket, header, serialize, wire_length, parse, max_packet_body,
  read_exact, is_encrypted, read_packet,
}

pub from_u8-code : (p : PacketType) → from_u8 (code p) ≡ some p
unfolding from_u8 code
from_u8-code pair_verify_public_key = refl
from_u8-code pair_verify_continue = refl
from_u8-code encrypted_data = refl
from_u8-code finished = refl

-- The four bytes before a body of `n` bytes.
abbrev pub head : PacketType → ℕ → List ℕ
head p n = code p ∷ (n / 65536 % 256) ∷ (n / 256 % 256) ∷ (n % 256) ∷ []

pub header-head : (p : PacketType) (n : ℕ) → n ≤ 0xffffff → header p n ≡ ok (head p n)
unfolding header
header-head p n h = (let e : leb n 0xffffff ≡ true = ground arith in rw e refl)

pub wire_length_head :
    (n : ℕ) → n ≤ 0xffffff → wire_length (n / 65536 % 256) (n / 256 % 256) (n % 256) ≡ n
wire_length_head n h = omega arith

pub serialize_lem :
    (p : ContinuityPacket)
    → length p.body ≤ 0xffffff
    → serialize p ≡ ok (head p.ptype (length p.body) ++ p.body)
unfolding serialize
serialize_lem p h = rw (header-head p.ptype (length p.body) h) refl

parse-head :
    (p : ContinuityPacket)
    → length p.body ≤ 0xffffff
    → parse (head p.ptype (length p.body) ++ p.body) ≡ ok p
unfolding parse
parse-head p h =
    rw (from_u8-code p.ptype, wire_length_head (length p.body) h, ==_refl (4 + length p.body)) refl

-- A packet whose body is at most 2^24 - 1 bytes long is serialized, and the bytes parse as the packet;
-- a longer body is refused.
pub parse-serialize :
    (p : ContinuityPacket)
    → ((bs : List ℕ) × (serialize p ≡ ok bs) × (parse bs ≡ ok p))
      ⊎ ((0xffffff < length p.body) × (serialize p ≡ err body_too_long))
unfolding serialize header
parse-serialize p = elim (Bool-cases (leb (length p.body) 0xffffff)) [
  | inl e ↦
      (let h : length p.body ≤ 0xffffff = ground arith in
        inl (head p.ptype (length p.body) ++ p.body, serialize_lem p h, parse-head p h))
  | inr e ↦ inr (ground arith, rw e refl)
]

-- A sender's packet: within the reader's cap, and with room for a tag when it is encrypted.
abbrev pub IsSendable : ContinuityPacket → Type 0
IsSendable p =
    (length p.body ≤ max_packet_body) × ((is_encrypted p.ptype && ltb (length p.body) 16) ≡ false)

-- A packet within the reader's cap, and with room for a tag when it is encrypted, is read from the head of the
-- stream that its bytes and any others make, and the others are left.
pub read_packet-serialize :
    (p : ContinuityPacket) (rest : List ℕ)
    → IsSendable p
    → (bs : List ℕ) × (serialize p ≡ ok bs) × (read_packet (bs ++ rest) ≡ ok (p, rest))
unfolding read_packet read_exact
read_packet-serialize p rest h =
    let n = length p.body in
    let w : n ≤ 0xffffff = omega (arith, h.0) in
    let small : ltb max_packet_body n ≡ false = (let k = h.0 in ground arith) in
    let whole : leb n (length (p.body ++ rest)) ≡ true =
      (let k = length-append p.body rest in ground arith) in
    (
      head p.ptype n ++ p.body,
      serialize_lem p w,
      rw
          (
            from_u8-code p.ptype,
            wire_length_head n w,
            h.1,
            small,
            whole,
            take-append p.body rest,
            drop-append p.body rest,
          )
          refl,
    )

from_u8-eq-some : (b : ℕ) (p : PacketType) → from_u8 b ≡ some p → b ≡ code p
unfolding from_u8 code
from_u8-eq-some b p h = ground (arith)

read_packet_inv :
    (t a b c : ℕ) (s rest : List ℕ) (p : ContinuityPacket)
    → read_packet (t ∷ a ∷ b ∷ c ∷ s) ≡ ok (p, rest)
    → (n : ℕ) × (n ≡ wire_length a b c)
      × (from_u8 t ≡ some p.ptype)
      × ((is_encrypted p.ptype && ltb n 16) ≡ false)
      × (n ≤ max_packet_body)
      × (n ≤ length s)
      × (p.body ≡ take n s)
      × (rest ≡ drop n s)
unfolding read_packet read_exact
read_packet_inv t a b c s rest p r = ground arith

-- What is read from a stream of bytes is a packet within the reader's cap, with room for a tag
-- when it is encrypted, and the stream is that packet's bytes and what is left.
pub read_packet_sound :
    (s rest : List ℕ) (p : ContinuityPacket)
    → All IsByte s
    → read_packet s ≡ ok (p, rest)
    → IsSendable p × ((bs : List ℕ) × (serialize p ≡ ok bs) × (s ≡ bs ++ rest))
unfolding read_packet read_exact
read_packet_sound (t ∷ a ∷ b ∷ c ∷ s) rest p h r =
    let (n, e, f, tagged, cap, enough, here, after) = read_packet_inv t a b c s rest p r in
    let size : length p.body ≡ n = (let q = ap length here in omega (arith, length-take n s)) in
    let x = h.1.0 in
    let y = h.1.1.0 in
    let z = h.1.1.1.0 in
    let low : n % 256 ≡ c = omega arith in
    let start : head p.ptype (length p.body) ≡ t ∷ a ∷ b ∷ c ∷ [] =
      rw (size, from_u8-eq-some t p.ptype f)
        (rw low (ap₂ (λ (i j : ℕ). code p.ptype ∷ i ∷ j ∷ c ∷ []) (omega arith) (omega arith))) in
    (
      (omega arith, rw size tagged),
      (
        head p.ptype (length p.body) ++ p.body,
        serialize_lem p (omega arith),
        ap (λ (u : List ℕ). t ∷ a ∷ b ∷ c ∷ u)
              (sym (take-append-drop n s) ∙ ap₂ (λ (u v : List ℕ). u ++ v) (sym here) (sym after))
            ∙ ap (λ (u : List ℕ). u ++ (p.body ++ rest)) (sym start),
      ),
    )
read_packet_sound [] rest p h r = cc
read_packet_sound (t ∷ []) rest p h r = cc
read_packet_sound (t ∷ a ∷ []) rest p h r = cc
read_packet_sound (t ∷ a ∷ b ∷ []) rest p h r = cc
