-- ===== src/Transfer/Sealing.antt =====
-- src/transfer.rs: the session key, the security code and the sealed payload. A random nonce is an argument.
use adhoc_cross_device_conne.Prelude.{
  ℕ, ◌+◌, ◌-◌, ◌*◌, ◌%◌, ◌^◌, ◌≤◌, ◌<◌, ◌≡◌, refl, sym, ap, ◌∙◌, true, false, List, [], ◌∷◌, ◌++◌,
  Option, none, some, ltb, if◌then◌else◌, arith, length, length-append, take, drop, take-append,
  drop-append, All, Option-cases, inl, inr,
}
use adhoc_cross_device_conne.Prelude.Bytes.{codes, from_le}
use adhoc_cross_device_conne.Prelude.Digits.{
  padded, read_digits, to_digit, push_digit, read_digits-padded, length-padded_decimal,
}
use adhoc_cross_device_conne.Prelude.Result.{Result, ok, err, context, ◌>>=◌}
use adhoc_cross_device_conne.Companion.Crypto.{Crypto, IsLawful}
use adhoc_cross_device_conne.Transfer.{
  Error, seal_failed, open_failed, too_short, frame_payload, Reassembler, new, push_all,
  is_complete, take_payload,
}
use adhoc_cross_device_conne.Transfer.Reassembly.{reassemble}

-- `split_at(12)` of a sealed payload.
abbrev nonce_len : ℕ
nonce_len = 12

-- `u64::from_be_bytes` of the first eight bytes; a SHA-512 digest has 64.
abbrev pub be64 : List ℕ → ℕ
be64 (a ∷ b ∷ c ∷ d ∷ e ∷ f ∷ g ∷ h ∷ rest) = from_le (h ∷ g ∷ f ∷ e ∷ d ∷ c ∷ b ∷ a ∷ [])
be64 _ = 0

-- `sha512` stands for the digest of another crate.
unfoldable pub sas : (List ℕ → List ℕ) → List ℕ → List ℕ → List ℕ
sas sha512 receiver_pub sender_pub =
    padded 6 10 (be64 (sha512 (receiver_pub ++ sender_pub)) % 1000000)

module _ (c : Crypto) where
  unfoldable pub session_key : List ℕ → List ℕ → List ℕ → List ℕ
  session_key shared receiver_pub sender_pub =
      c.hkdf_sha512 shared (codes "ac-dc-key-transfer-v1")
        (codes "ac-dc session key" ++ receiver_pub ++ sender_pub) 32

  unfoldable pub seal : List ℕ → List ℕ → List ℕ → Result Error (List ℕ)
  seal nonce key plaintext = do
    ct ← context (c.aead_encrypt key nonce [] plaintext) seal_failed
    ok (nonce ++ ct)

  unfoldable pub unseal : List ℕ → List ℕ → Result Error (List ℕ)
  unseal key sealed =
      if ltb (length sealed) nonce_len
      then err too_short
      else context (c.aead_decrypt key (take nonce_len sealed) [] (drop nonce_len sealed))
          open_failed

  unseal_sealed :
      IsLawful c
      → (nonce key plaintext ct : List ℕ) → length nonce ≡ 12
      → c.aead_encrypt key nonce [] plaintext ≡ some ct
      → unseal key (nonce ++ ct) ≡ ok plaintext
  unfolding unseal
  unseal_sealed law nonce key plaintext ct n e =
      let t : ltb (length (nonce ++ ct)) 12 ≡ false =
        (let q = length-append nonce ct in ground arith) in
      let first : take 12 (nonce ++ ct) ≡ nonce =
        ap (λ (k : ℕ). take k (nonce ++ ct)) (sym n) ∙ take-append nonce ct in
      let second : drop 12 (nonce ++ ct) ≡ ct =
        ap (λ (k : ℕ). drop k (nonce ++ ct)) (sym n) ∙ drop-append nonce ct in
      rw (t, first, second, law.decrypts key nonce [] plaintext ct e) refl

  -- Over primitives that do what they document, for a sender and a receiver that exchanged their
  -- public keys: the payload that the sender seals under its session key and a nonce of 12
  -- bytes, cuts into frames and sends in order is complete at the receiver, and the receiver's
  -- own session key opens it. The payload is shorter than 2^31 bytes and a frame has between 3
  -- and 2^16 + 1 bytes.
  pub key_transfer :
      IsLawful c
      → (x y nonce plaintext : List ℕ) (m : ℕ) → length nonce ≡ 12
      → length plaintext < 2 ^ 31
      → 3 ≤ m
      → m ≤ 2 ^ 16 + 1
      → (sealed : List ℕ) × (fs : List (List ℕ)) × (r : Reassembler) × (seal nonce
            (session_key
              (c.x25519_agree y (c.x25519_public x))
              (c.x25519_public x)
              (c.x25519_public y))
            plaintext
          ≡ ok sealed)
        × (frame_payload sealed m ≡ ok fs)
        × (push_all new fs ≡ ok r)
        × (is_complete r ≡ true)
        × (take_payload r ≡ some sealed)
        × (unseal
              (session_key
                (c.x25519_agree x (c.x25519_public y))
                (c.x25519_public x)
                (c.x25519_public y))
              sealed
            ≡ ok plaintext)
  unfolding seal
  key_transfer law x y nonce plaintext m n small low high =
      let key =
        session_key (c.x25519_agree y (c.x25519_public x)) (c.x25519_public x)
          (c.x25519_public y) in
      let (ct, e) = law.encrypts key nonce [] plaintext (omega arith) in
      let size = law.tag_length key nonce [] plaintext ct e in
      let (fs, r, made, within, pushed, complete, taken) =
        reassemble (nonce ++ ct) m low high (omega (arith, length-append nonce ct)) in
      (
        nonce ++ ct,
        fs,
        r,
        rw e refl,
        made,
        pushed,
        complete,
        taken,
        rw (law.agree_comm x y) (unseal_sealed law nonce key plaintext ct n e),
      )

-- The number that decimal digits in ASCII write, after the digits of `acc`.
abbrev pub decimal : ℕ → List ℕ → ℕ
decimal acc [] = acc
decimal acc (d ∷ ds) = decimal (acc * 10 + (d - 48)) ds

abbrev pub AllDigits : List ℕ → Type 0
AllDigits = All (λ (d : ℕ). (48 ≤ d) × (d ≤ 57))

to_digit_inv : (c d : ℕ) → to_digit 10 c ≡ some d → (48 ≤ c) × (c ≤ 57) × (d ≡ c - 48)
unfolding to_digit
to_digit_inv c d h = (ground arith, ground arith, ground arith)

push_digit_inv : (n d v : ℕ) → push_digit 10 n d ≡ some v → v ≡ n * 10 + d
unfolding push_digit
push_digit_inv n d v h = ground arith

read_digits-decimal :
    (acc : ℕ) (ds : List ℕ) (n : ℕ)
    → read_digits 10 acc ds ≡ some n
    → AllDigits ds × (decimal acc ds ≡ n)
unfolding read_digits
read_digits-decimal acc [] n h = (tt, cc)
read_digits-decimal acc (c ∷ cs) n h = elim (Option-cases (to_digit 10 c)) [
  | inl e ↦ (let bad : ◌≡◌ {A = Option ℕ} none (some n) = rw (read_digits, e) at h in absurd cc)
  | inr (d, e) ↦ elim (Option-cases (push_digit 10 acc d)) [
    | inl f ↦
        (let bad : ◌≡◌ {A = Option ℕ} none (some n) = rw (read_digits, e, f) at h in absurd cc)
    | inr (v, f) ↦
        let h' : read_digits 10 v cs ≡ some n = rw (read_digits, e, f) at h in
        let (low, high, d_eq) = to_digit_inv c d e in
        let v_eq : v ≡ acc * 10 + (c - 48) = push_digit_inv acc d v f ∙ rw d_eq refl in
        let (all, value) = read_digits-decimal v cs n h' in
        (((low, high), all), rw (sym v_eq) value)
  ]
]

-- The security code has six ASCII digits, and they write the number of the digest's first eight bytes modulo a million.
pub sas_digits :
    (sha512 : List ℕ → List ℕ) (r s : List ℕ)
    → AllDigits (sas sha512 r s)
      × (length (sas sha512 r s) ≡ 6)
      × (decimal 0 (sas sha512 r s) ≡ be64 (sha512 (r ++ s)) % 1000000)
unfolding sas
sas_digits sha512 r s =
    let n = be64 (sha512 (r ++ s)) % 1000000 in
    let small : n < 1000000 = omega arith in
    let (all, value) =
      read_digits-decimal 0 (padded 6 10 n) n (read_digits-padded 6 n (omega arith)) in
    (all, length-padded_decimal 5 n (omega arith), value)
