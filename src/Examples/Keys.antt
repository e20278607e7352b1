-- ===== src/Examples/Keys.antt =====
-- Key stores and sealed advertisements at concrete inputs, over a cipher that hides nothing.
use adhoc_cross_device_conne.Prelude.{
  ℕ, ◌+◌, ◌*◌, ◌%◌, ◌≡◌, refl, ◌↔◌, List, [], ◌∷◌, Option, some, arith, length, replicate, All,
}
use adhoc_cross_device_conne.Prelude.Bytes.{IsByte, be32, from_be32, be64, bit_xor}
use adhoc_cross_device_conne.Prelude.Chunks.{chunks}
use adhoc_cross_device_conne.Prelude.Result.{ok, err}
use adhoc_cross_device_conne.Gcm.{
  Primitives, IsLawful, invalid_key_length, new_cipher, validate_key, xor_into, zero_padded,
  pad_blocks, inc32, tag_length_ok, encrypt_block, update_all, ghash, j0_short_iv, ctr, full_tag,
  hash_key, open_truncated, seal_truncated, HandoffKey, key_error, check_keys, validated, with_id,
}
use adhoc_cross_device_conne.Gcm.Opening.{open-seal, validated-opens}

abbrev sum : List ℕ → ℕ
sum [] = 0
sum (x ∷ xs) = x + sum xs

abbrev toy_block : List ℕ → List ℕ → List ℕ
toy_block k b = replicate 16 ((length k + 3 * sum b) % 256)

abbrev toy : Primitives
toy = record {
  aes128 = toy_block;
  aes192 = toy_block;
  aes256 = toy_block;
  GHash = ℕ;
  new = λ h. sum h;
  update = λ mac b. (mac * 5 + sum b) % 256;
  finalize = λ mac. replicate 16 mac;
}

toy-IsLawful : IsLawful toy
toy-IsLawful = record {
  aes128_length = λ k b. refl;
  aes192_length = λ k b. refl;
  aes256_length = λ k b. refl;
}

abbrev short_key : List ℕ
short_key = replicate 16 0x11

abbrev text : List ℕ
text = 48 ∷ 49 ∷ 50 ∷ 51 ∷ 52 ∷ 53 ∷ 54 ∷ 55 ∷ 56 ∷ 57 ∷ 48 ∷ 49 ∷ 50 ∷ 51 ∷ 52 ∷ 53 ∷ 54 ∷ 55 ∷ []

abbrev hidden : List ℕ
hidden =
    67 ∷ 66 ∷ 65 ∷ 64 ∷ 71 ∷ 70 ∷ 69 ∷ 68 ∷ 75 ∷ 74 ∷ 67 ∷ 66 ∷ 65 ∷ 64 ∷ 71 ∷ 70 ∷ 64 ∷ 65 ∷ []

seal_text :
    seal_truncated toy short_key (0x00 ∷ 0x2a ∷ []) (0x08 ∷ []) text 1 ≡ ok (hidden, 217 ∷ [])
unfolding seal_truncated tag_length_ok new_cipher hash_key encrypt_block j0_short_iv ghash
    update_all pad_blocks zero_padded chunks full_tag ctr xor_into bit_xor inc32 be64 be32 from_be32
seal_text = refl

text-IsByte : All IsByte text
text-IsByte = (
  omega arith,
  (
    omega arith,
    (
      omega arith,
      (
        omega arith,
        (
          omega arith,
          (
            omega arith,
            (
              omega arith,
              (
                omega arith,
                (
                  omega arith,
                  (
                    omega arith,
                    (
                      omega arith,
                      (
                        omega arith,
                        (
                          omega arith,
                          (
                            omega arith,
                            (omega arith, (omega arith, (omega arith, (omega arith, tt)))),
                          ),
                        ),
                      ),
                    ),
                  ),
                ),
              ),
            ),
          ),
        ),
      ),
    ),
  ),
)

hidden-IsByte : All IsByte hidden
hidden-IsByte = (
  omega arith,
  (
    omega arith,
    (
      omega arith,
      (
        omega arith,
        (
          omega arith,
          (
            omega arith,
            (
              omega arith,
              (
                omega arith,
                (
                  omega arith,
                  (
                    omega arith,
                    (
                      omega arith,
                      (
                        omega arith,
                        (
                          omega arith,
                          (
                            omega arith,
                            (omega arith, (omega arith, (omega arith, (omega arith, tt)))),
                          ),
                        ),
                      ),
                    ),
                  ),
                ),
              ),
            ),
          ),
        ),
      ),
    ),
  ),
)

open-seal_example :
    (open_truncated toy short_key (0x00 ∷ 0x2a ∷ []) (0x08 ∷ []) hidden (217 ∷ []) ≡ ok (some text))
    ↔ (seal_truncated toy short_key (0x00 ∷ 0x2a ∷ []) (0x08 ∷ []) text 1 ≡ ok (hidden, 217 ∷ []))
open-seal_example =
    open-seal toy toy-IsLawful short_key (0x00 ∷ 0x2a ∷ []) (0x08 ∷ []) text hidden (217 ∷ [])
      text-IsByte hidden-IsByte

abbrev phone : HandoffKey
phone = record { id = 112 ∷ []; key = short_key }

abbrev laptop : HandoffKey
laptop = record { id = 108 ∷ []; key = replicate 32 0x22 }

abbrev short : HandoffKey
short = record { id = 98 ∷ []; key = replicate 20 0x33 }

validated_two : validated (phone ∷ laptop ∷ []) ≡ ok (record { keys = phone ∷ laptop ∷ [] })
unfolding validated check_keys with_id validate_key new_cipher
validated_two = refl

validated_short : validated (phone ∷ short ∷ []) ≡ err (key_error (98 ∷ []) (invalid_key_length 20))
unfolding validated check_keys with_id validate_key new_cipher
validated_short = refl

validated-opens_example :
    (phone ∷ laptop ∷ [] ≡ phone ∷ laptop ∷ [])
    × ((o : Option (List ℕ)) × (open_truncated toy
            (replicate 32 0x22)
            (0x00 ∷ 0x2a ∷ [])
            (0x08 ∷ [])
            text
            (0 ∷ [])
          ≡ ok o))
validated-opens_example =
    validated-opens toy (phone ∷ laptop ∷ []) (record { keys = phone ∷ laptop ∷ [] }) 1 laptop
      (0x00 ∷ 0x2a ∷ []) (0x08 ∷ []) text (0 ∷ []) validated_two refl (omega arith) (omega arith)
