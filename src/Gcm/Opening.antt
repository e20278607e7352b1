-- ===== src/Gcm/Opening.antt =====
-- src/gcm.rs: what is opened is exactly what was sealed. src/keystore.rs: the keys that it admits open.
use adhoc_cross_device_conne.Prelude.{
  ℕ, zero, suc, ◌-◌, ◌≤◌, ◌≡◌, refl, sym, ap, ◌∙◌, true, ◌↔◌, ◌⊎◌, inl, inr, List, [], ◌∷◌, ◌++◌,
  Option, some, arith, min, length, length-append, length-take, length-drop, take, drop,
  take-append-drop, bytes_eq, bytes_eq_refl, bytes_eq→eq, get_elem?, All, All-take, All-drop,
}
use adhoc_cross_device_conne.Prelude.Bytes.{IsByte, bit_xor-bit_xor}
use adhoc_cross_device_conne.Prelude.Chunks.{chunks, chunks-cons, chunks-append}
use adhoc_cross_device_conne.Prelude.Result.{ok, err, ensure, >>=-eq-ok, Result-cases}
use adhoc_cross_device_conne.Gcm.{
  Primitives, IsLawful, GcmError, AesCipher, aes128, aes192, aes256, block_size, new_cipher,
  validate_key, xor_into, inc32, tag_length_ok, encrypt_block, j0_short_iv, ctr, full_tag, hash_key,
  open_truncated, seal_truncated, HandoffKey, key_error, KeyStore, check_keys, validated, with_id,
}

length-xor_into : (d s : List ℕ) → length (xor_into d s) ≡ length d
unfolding xor_into
length-xor_into [] s = refl
length-xor_into (x ∷ d) [] = refl
length-xor_into (x ∷ d) (y ∷ s) = ap suc (length-xor_into d s)

xor_into-xor_into : (d s : List ℕ) → All IsByte d → xor_into (xor_into d s) s ≡ d
unfolding xor_into
xor_into-xor_into [] s h = refl
xor_into-xor_into (x ∷ d) [] h = refl
xor_into-xor_into (x ∷ d) (y ∷ s) h =
    rw (bit_xor-bit_xor 8 x y (omega (arith, h.0)), xor_into-xor_into d s h.1) refl

check_keys-cons :
    (x : HandoffKey) (keys : List HandoffKey)
    → check_keys (x ∷ keys) ≡ ok tt
    → ((cipher : AesCipher) × (new_cipher x.key ≡ ok cipher)) × (check_keys keys ≡ ok tt)
unfolding check_keys validate_key with_id
check_keys-cons x keys h = elim (Result-cases (new_cipher x.key)) [
  | inr (bad, r) ↦ (let wrong : err (key_error x.id bad) ≡ ok tt = rw r at h in absurd cc)
  | inl (cipher, r) ↦ ((cipher, r), rw r at h)
]

check_keys-cipher :
    (keys : List HandoffKey) (i : ℕ) (k : HandoffKey)
    → check_keys keys ≡ ok tt
    → get_elem? keys i ≡ some k
    → (cipher : AesCipher) × (new_cipher k.key ≡ ok cipher)
check_keys-cipher [] i k h e = absurd cc
check_keys-cipher (x ∷ keys) zero k h e =
    (let same : x ≡ k = cc in rw (sym same) (check_keys-cons x keys h).0)
check_keys-cipher (x ∷ keys) (suc i) k h e =
    check_keys-cipher keys i k (check_keys-cons x keys h).1 e

-- A first chunk is a full block, or nothing follows it.
split_last :
    (a b text : List ℕ)
    → length a ≡ min 16 (length text)
    → length b ≡ length text - 16
    → (length a ≡ 16) ⊎ ((length a ≤ 16) × (b ≡ []))
split_last a [] text h k = inr (omega arith, refl)
split_last a (x ∷ b) text h k = inl (omega arith)

module _ (c : Primitives) where
  length-encrypt_block :
      IsLawful c → (cipher : AesCipher) (b : List ℕ) → length (encrypt_block c cipher b) ≡ 16
  unfolding encrypt_block
  length-encrypt_block l (aes128 k) b = l.aes128_length k b
  length-encrypt_block l (aes192 k) b = l.aes192_length k b
  length-encrypt_block l (aes256 k) b = l.aes256_length k b

  length-full_tag :
      IsLawful c
      → (cipher : AesCipher) (h j0 aad text : List ℕ)
      → length (full_tag c cipher h j0 aad text) ≡ 16
  unfolding full_tag
  length-full_tag l cipher h j0 aad text =
      length-xor_into (encrypt_block c cipher j0) _ ∙ length-encrypt_block l cipher j0

  abbrev ctr_text : AesCipher → List ℕ → List ℕ → List ℕ
  ctr_text cipher j text = ctr c cipher j (chunks block_size text)

  ctr_text-nil : (cipher : AesCipher) (j : List ℕ) → ctr_text cipher j [] ≡ []
  unfolding ctr chunks
  ctr_text-nil cipher j = refl

  -- The counter mode over a text, block by block.
  ctr_text-cons :
      (cipher : AesCipher) (j text : List ℕ)
      → 1 ≤ length text
      → ctr_text cipher j text
        ≡ xor_into (take 16 text) (take (length (take 16 text)) (encrypt_block c cipher j))
          ++ ctr_text cipher (inc32 j) (drop 16 text)
  unfolding ctr
  ctr_text-cons cipher j text h = rw (chunks-cons 15 text h) refl

  ctr_text-append :
      (cipher : AesCipher) (j xs ys : List ℕ)
      → 1 ≤ length xs
      → (length xs ≡ 16) ⊎ ((length xs ≤ 16) × (ys ≡ []))
      → ctr_text cipher j (xs ++ ys)
        ≡ xor_into xs (take (length xs) (encrypt_block c cipher j)) ++ ctr_text cipher (inc32 j) ys
  unfolding ctr
  ctr_text-append cipher j xs ys h k = rw (chunks-append 15 xs ys h k) refl

  -- The counter mode keeps the length, and undoes itself.
  ctr-ctr :
      (n : ℕ) (cipher : AesCipher) (j text : List ℕ)
      → length text ≤ n
      → All IsByte text
      → (length (ctr_text cipher j text) ≡ length text)
        × (ctr_text cipher j (ctr_text cipher j text) ≡ text)
  ctr-ctr n cipher j [] h k = rw (ctr_text-nil cipher j, ctr_text-nil cipher j) (refl, refl)
  ctr-ctr zero cipher j (x ∷ xs) h k = absurd (omega arith)
  ctr-ctr (suc n) cipher j (x ∷ xs) h k =
      let text = x ∷ xs in
      let first = take 16 text in
      let last = drop 16 text in
      let ks = take (length first) (encrypt_block c cipher j) in
      let a = xor_into first ks in
      let b = ctr_text cipher (inc32 j) last in
      let (size, undone) =
        ctr-ctr n cipher (inc32 j) last (omega (arith, length-drop 16 text))
          (All-drop IsByte 16 text k) in
      let e : ctr_text cipher j text ≡ a ++ b = ctr_text-cons cipher j text (omega arith) in
      let a_size : length a ≡ length first = length-xor_into first ks in
      let first_size = length-take 16 text in
      let last_size = length-drop 16 text in
      let full : (length a ≡ 16) ⊎ ((length a ≤ 16) × (b ≡ [])) =
        split_last a b text (a_size ∙ first_size) (size ∙ last_size) in
      let again : ctr_text cipher j (a ++ b)
          ≡ xor_into a (take (length a) (encrypt_block c cipher j)) ++ ctr_text cipher (inc32 j) b =
        ctr_text-append cipher j a b (omega arith) full in
      (
        rw (e, length-append a b) (omega arith),
        rw
            (
              e,
              again,
              a_size,
              xor_into-xor_into first ks (All-take IsByte 16 text k),
              undone,
              take-append-drop 16 text,
            )
            refl,
      )

  -- The bytes of an opened text, and of a sealed one, as what the same cipher makes of the other.
  open_inv :
      (key iv aad text tag out : List ℕ)
      → open_truncated c key iv aad text tag ≡ ok (some out)
      → (cipher : AesCipher) × (tag_length_ok (length tag) ≡ true)
        × (new_cipher key ≡ ok cipher)
        × (take (length tag) (
              full_tag c cipher (hash_key c cipher) (j0_short_iv c (hash_key c cipher) iv) aad text)
            ≡ tag)
        × (ctr_text cipher (inc32 (j0_short_iv c (hash_key c cipher) iv)) text ≡ out)
  unfolding open_truncated
  open_inv key iv aad text tag out h =
      let (u, e, f) =
        >>=-eq-ok (ensure (tag_length_ok (length tag)) (GcmError.invalid_tag_length (length tag))) _
          h in
      let (cipher, g, k) = >>=-eq-ok (new_cipher key) _ f in
      let j0 = j0_short_iv c (hash_key c cipher) iv in
      let t = take (length tag) (full_tag c cipher (hash_key c cipher) j0 aad text) in
      let same : bytes_eq t tag ≡ true = ground arith in
      (cipher, ground arith, g, bytes_eq→eq t tag same, ground arith)

  seal_inv :
      (key iv aad text out tag : List ℕ) (n : ℕ)
      → seal_truncated c key iv aad text n ≡ ok (out, tag)
      → (cipher : AesCipher) × (tag_length_ok n ≡ true)
        × (new_cipher key ≡ ok cipher)
        × (ctr_text cipher (inc32 (j0_short_iv c (hash_key c cipher) iv)) text ≡ out)
        × (take n
              (full_tag c cipher (hash_key c cipher) (j0_short_iv c (hash_key c cipher) iv) aad out)
            ≡ tag)
  unfolding seal_truncated
  seal_inv key iv aad text out tag n h =
      let (u, e, f) = >>=-eq-ok (ensure (tag_length_ok n) (GcmError.invalid_tag_length n)) _ h in
      let (cipher, g, k) = >>=-eq-ok (new_cipher key) _ f in
      let out_eq : ctr_text cipher (inc32 (j0_short_iv c (hash_key c cipher) iv)) text ≡ out =
        ground arith in
      (cipher, ground arith, g, out_eq, ground arith)

  open_of :
      (key iv aad text tag : List ℕ) (cipher : AesCipher)
      → tag_length_ok (length tag) ≡ true
      → new_cipher key ≡ ok cipher
      → take
          (length tag)
          (full_tag c cipher (hash_key c cipher) (j0_short_iv c (hash_key c cipher) iv) aad text)
        ≡ tag
      → open_truncated c key iv aad text tag
        ≡ ok (some (ctr_text cipher (inc32 (j0_short_iv c (hash_key c cipher) iv)) text))
  unfolding open_truncated
  open_of key iv aad text tag cipher h k e = rw (h, k, e, bytes_eq_refl tag) refl

  seal_of :
      (key iv aad text out : List ℕ) (n : ℕ) (cipher : AesCipher)
      → tag_length_ok n ≡ true
      → new_cipher key ≡ ok cipher
      → ctr_text cipher (inc32 (j0_short_iv c (hash_key c cipher) iv)) text ≡ out
      → seal_truncated c key iv aad text n
        ≡ ok (
          out,
          take n (
              full_tag c cipher (hash_key c cipher) (j0_short_iv c (hash_key c cipher) iv) aad out),
        )
  unfolding seal_truncated
  seal_of key iv aad text out n cipher h k e = rw (h, k, e) refl

  tag_length_ok-le : (n : ℕ) → tag_length_ok n ≡ true → n ≤ 16
  unfolding tag_length_ok
  tag_length_ok-le n h = ground arith

  -- Bytes are opened from a ciphertext and a tag exactly if sealing them gives that ciphertext and that tag, under
  -- any key, nonce and associated data.
  pub open-seal :
      IsLawful c
      → (key iv aad plaintext ciphertext tag : List ℕ) → All IsByte plaintext
      → All IsByte ciphertext
      → (open_truncated c key iv aad ciphertext tag ≡ ok (some plaintext))
        ↔ (seal_truncated c key iv aad plaintext (length tag) ≡ ok (ciphertext, tag))
  open-seal l key iv aad plaintext ciphertext tag bp bc = (
    λ h.
        let (cipher, len_ok, e, t, text) = open_inv key iv aad ciphertext tag plaintext h in
        let j = inc32 (j0_short_iv c (hash_key c cipher) iv) in
        let back = (ctr-ctr (length ciphertext) cipher j ciphertext (omega arith) bc).1 in
        let back' : ctr_text cipher j plaintext ≡ ciphertext = rw text at back in
        seal_of key iv aad plaintext ciphertext (length tag) cipher len_ok e back' ∙ rw t refl,
    λ h.
        let (cipher, len_ok, e, text, t) =
          seal_inv key iv aad plaintext ciphertext tag (length tag) h in
        let j = inc32 (j0_short_iv c (hash_key c cipher) iv) in
        let back = (ctr-ctr (length plaintext) cipher j plaintext (omega arith) bp).1 in
        let back' : ctr_text cipher j ciphertext ≡ plaintext = rw text at back in
        open_of key iv aad ciphertext tag cipher len_ok e t ∙ rw back' refl,
  )

  opens :
      (key iv aad text tag : List ℕ) (cipher : AesCipher)
      → new_cipher key ≡ ok cipher
      → 1 ≤ length tag
      → length tag ≤ 16
      → (o : Option (List ℕ)) × (open_truncated c key iv aad text tag ≡ ok o)
  unfolding open_truncated tag_length_ok
  opens key iv aad text tag cipher e h k =
      let h1 : (length tag ≡ 0) → ⊥ = λ z. omega arith in
      let len_ok : tag_length_ok (length tag) ≡ true = ground arith in rw (len_ok, e) (_, refl)

  -- A key store holds the keys of its file in their order, and opening a text with one of them never fails, if the tag
  -- has 1 to 16 bytes: it gives a plaintext, or none for a tag that does not match.
  pub validated-opens :
      (keys : List HandoffKey) (store : KeyStore) (i : ℕ) (k : HandoffKey)
      (iv aad text tag : List ℕ)
      → validated keys ≡ ok store
      → get_elem? store.keys i ≡ some k
      → 1 ≤ length tag
      → length tag ≤ 16
      → (store.keys ≡ keys)
        × ((o : Option (List ℕ)) × (open_truncated c k.key iv aad text tag ≡ ok o))
  unfolding validated
  validated-opens keys store i k iv aad text tag h member g1 g2 =
      let (u, checked, e) = >>=-eq-ok (check_keys keys) _ h in
      let same : store.keys ≡ keys = ground arith in
      let member' : get_elem? keys i ≡ some k = rw same at member in
      let checked' : check_keys keys ≡ ok tt = checked in
      let (cipher, valid) = check_keys-cipher keys i k checked' member' in
      (same, opens k.key iv aad text tag cipher valid g1 g2)
