-- ===== src/Advert.antt =====
-- src/advert.rs: the Handoff advertisement, as it is broadcast and after decryption.
pub mod Parsing
use adhoc_cross_device_conne.Prelude.Bytes.{codes}
use Prim.Native.String.{String}
use adhoc_cross_device_conne.Prelude.{
  bytes_eq, ℕ, ◌+◌, ◌/◌, ◌%◌, Bool, true, false, not, List, [], ◌∷◌, ◌++◌, Option, some, none, ◌==◌,
  leb, if◌then◌else◌, length, take, drop,
}

pub record HandoffBle : Type 0 where
  pub status : ℕ
  pub counter_iv : ℕ × ℕ
  pub tag : ℕ
  pub ciphertext : List ℕ

-- The data behind the company id of the raw framing, if it begins with it.
unfoldable pub strip_company : List ℕ → List ℕ
strip_company (a ∷ b ∷ c ∷ rest) =
    if a == 0x4c then (if b == 0x00 then c ∷ rest else a ∷ b ∷ c ∷ rest) else a ∷ b ∷ c ∷ rest
strip_company data_bytes = data_bytes

-- The four bytes of the header and the ciphertext.
unfoldable pub content : List ℕ → Option HandoffBle
content (s ∷ i ∷ j ∷ t ∷ ct) =
    some (record { status = s; counter_iv = (i, j); tag = t; ciphertext = ct })
content _ = none

-- The body's TLV: its type, its length, and `body.get(2..2 + len)`.
unfoldable pub handoff_tlv : List ℕ → Option HandoffBle
handoff_tlv (t ∷ n ∷ rest) =
    let h = content (take n rest) in
    if t == 0x0c then (if leb n (length rest) then h else none) else none
handoff_tlv _ = none

unfoldable pub parse : List ℕ → Option HandoffBle
parse data_bytes = handoff_tlv (strip_company data_bytes)

pub record HandoffPayload : Type 0 where
  pub status : ℕ
  pub activity_hash : List ℕ
  pub flags : ℕ

unfoldable pub parse_payload : List ℕ → Option HandoffPayload
parse_payload (s ∷ a ∷ b ∷ c ∷ d ∷ e ∷ f ∷ g ∷ flags ∷ unused ∷ rest) =
    some (record { status = s; activity_hash = a ∷ b ∷ c ∷ d ∷ e ∷ f ∷ g ∷ []; flags = flags })
parse_payload _ = none

-- `raw & (1 << k) != 0`
abbrev bit : ℕ → ℕ → Bool
bit weight raw = raw / weight % 2 == 1

unfoldable pub has_url : ℕ → Bool
has_url raw = bit 0x01 raw

unfoldable pub file_provider_url : ℕ → Bool
file_provider_url raw = bit 0x02 raw

unfoldable pub cloud_docs : ℕ → Bool
cloud_docs raw = bit 0x04 raw

unfoldable pub clipboard_available : ℕ → Bool
clipboard_available raw = bit 0x08 raw

unfoldable pub auto_pull : ℕ → Bool
auto_pull raw = bit 0x20 raw

-- `hex::encode`
abbrev hex_digit : ℕ → ℕ
hex_digit d = if leb d 9 then 48 + d else 87 + d

unfoldable pub hex : List ℕ → List ℕ
hex [] = []
hex (b ∷ bs) = hex_digit (b / 16) ∷ hex_digit (b % 16) ∷ hex bs

-- The known activities by their hashes, and what they are. The source writes the dash of a label as U+2014, in
-- UTF-8 `0xe2 0x80 0x94`; here the label's parts stand apart.
pub data Label : Type 0 where
  browsing : Label
  known : String → String → Label
  plain : String → Label
  unknown : List ℕ → Label

find_label : List (String × Label) → List ℕ → Label
find_label [] h = unknown h
find_label ((k, l) ∷ ls) h = if bytes_eq h (codes k) then l else find_label ls h

abbrev activities : List (String × Label)
activities =
    ("88085c342dc9ed", known "Notes" "editing a note")
    ∷ ("9d98584545c05e", known "Mail" "viewing a mailbox")
    ∷ ("86f6a0732b418e", known "Mail" "viewing a message")
    ∷ ("a564c399758208", known "Mail" "composing a message")
    ∷ ("90ec0d1c7a00f7", known "Keynote" "editing a presentation")
    ∷ ("a2f08c1c87dc98", known "Pages" "editing a document")
    ∷ ("855912d27f7828", known "Numbers" "editing a document")
    ∷ ("b64729d1a4296b", known "Calendar" "date selection")
    ∷ ("88acfe99cad770", known "Calendar" "event selection")
    ∷ ("a32a9f48308fdc", plain "Messages")
    ∷ ("a37b6b65fc4f5f", plain "Podcasts")
    ∷ ("99bee8c360dd13", known "2Do" "selected list")
    ∷ ("b2a2abdd925ef5", known "2Do" "editing a task")
    ∷ ("00000000000000", plain "clearing last activity")
    ∷ []

unfoldable pub activity_label : HandoffPayload → Label
unfolding find_label
activity_label p = if has_url p.flags then browsing else find_label activities (hex p.activity_hash)
