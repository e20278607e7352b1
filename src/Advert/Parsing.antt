-- ===== src/Advert/Parsing.antt =====
-- src/advert.rs: the two framings of an advertisement.
use adhoc_cross_device_conne.Prelude.{
  ℕ, ◌≡◌, refl, true, List, ◌∷◌, ◌++◌, some, leb, length, take-append, length-append, arith,
}
use adhoc_cross_device_conne.Advert.{HandoffBle, strip_company, content, handoff_tlv, parse}

-- The advertisement as BlueZ reports it, and with the company id before it.
abbrev pub content_bytes : HandoffBle → List ℕ
content_bytes h = h.status ∷ h.counter_iv.0 ∷ h.counter_iv.1 ∷ h.tag ∷ h.ciphertext

abbrev pub bluez : HandoffBle → List ℕ → List ℕ
bluez h rest = 0x0c ∷ length (content_bytes h) ∷ (content_bytes h ++ rest)

abbrev pub raw : HandoffBle → List ℕ → List ℕ
raw h rest = 0x4c ∷ 0x00 ∷ bluez h rest

handoff_tlv-bluez : (h : HandoffBle) (rest : List ℕ) → handoff_tlv (bluez h rest) ≡ some h
unfolding handoff_tlv content
handoff_tlv-bluez h rest =
    let e : leb (length (content_bytes h)) (length (content_bytes h ++ rest)) ≡ true =
      (let k = length-append (content_bytes h) rest in ground arith) in
    rw (e, take-append h.ciphertext rest) refl

-- An advertisement is read from either framing, whatever follows it.
pub parse-framings :
    (h : HandoffBle) (rest : List ℕ)
    → (parse (bluez h rest) ≡ some h) × (parse (raw h rest) ≡ some h)
unfolding parse strip_company
parse-framings h rest = (handoff_tlv-bluez h rest, handoff_tlv-bluez h rest)
