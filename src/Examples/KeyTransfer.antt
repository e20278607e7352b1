-- ===== src/Examples/KeyTransfer.antt =====
-- The key transfer at concrete inputs.
use adhoc_cross_device_conne.Prelude.{
  ℕ, ◌%◌, ◌≡◌, refl, true, false, List, [], ◌∷◌, ◌++◌, some, none, arith, length, take, replicate,
  length-replicate,
}
use adhoc_cross_device_conne.Prelude.Bytes.{be32, be16}
use adhoc_cross_device_conne.Prelude.Chunks.{chunks}
use adhoc_cross_device_conne.Prelude.Result.{ok, err}
use adhoc_cross_device_conne.Transfer.{
  frame, frame_payload, length_mismatch, Reassembler, new, push_frame, push_all, is_complete,
  take_payload,
}
use adhoc_cross_device_conne.Transfer.Reassembly.{
  Within, reassemble, no_early_payload, push_frame_too_long,
}
use adhoc_cross_device_conne.Transfer.Sealing.{
  seal, unseal, session_key, key_transfer, sas, sas_digits, AllDigits, decimal, be64,
}
use adhoc_cross_device_conne.Examples.ToyCrypto.{toy, toy-IsLawful}

abbrev keys : List ℕ
keys = 1 ∷ 2 ∷ 3 ∷ []

reassemble_example :
    (fs : List (List ℕ)) × (r : Reassembler) × (frame_payload keys 5 ≡ ok fs)
    × Within 5 fs
    × (push_all new fs ≡ ok r)
    × (is_complete r ≡ true)
    × (take_payload r ≡ some keys)
reassemble_example = reassemble keys 5 (omega arith) (omega arith) (omega arith)

abbrev frames : List (List ℕ)
frames = (0 ∷ 3 ∷ 0 ∷ 0 ∷ 0 ∷ []) ∷ (0 ∷ 3 ∷ 3 ∷ 1 ∷ 2 ∷ []) ∷ (0 ∷ 1 ∷ 3 ∷ []) ∷ []

keys_frames : frame_payload keys 5 ≡ ok frames
unfolding frame_payload frame be32 be16 chunks
keys_frames = refl

no_early_payload_example :
    (r : Reassembler) × (push_all new (take 2 frames) ≡ ok r)
    × (is_complete r ≡ false)
    × (take_payload r ≡ none)
no_early_payload_example =
    no_early_payload keys 5 (omega arith) (omega arith) (omega arith) frames keys_frames 2
      (omega arith)

push_frame_too_long_example : push_frame new (frame (replicate 65536 7)) ≡ err length_mismatch
push_frame_too_long_example =
    push_frame_too_long new (replicate 65536 7) (omega (arith, length-replicate {A = ℕ} 65536 7))

abbrev nonce : List ℕ
nonce = replicate 12 8

key_transfer_example :
    (sealed : List ℕ) × (fs : List (List ℕ)) × (r : Reassembler) × (seal toy nonce
        (session_key toy
          (toy.x25519_agree (2 ∷ []) (toy.x25519_public (1 ∷ [])))
          (toy.x25519_public (1 ∷ []))
          (toy.x25519_public (2 ∷ [])))
        keys
      ≡ ok sealed)
    × (frame_payload sealed 20 ≡ ok fs)
    × (push_all new fs ≡ ok r)
    × (is_complete r ≡ true)
    × (take_payload r ≡ some sealed)
    × (unseal toy
          (session_key toy
            (toy.x25519_agree (1 ∷ []) (toy.x25519_public (2 ∷ [])))
            (toy.x25519_public (1 ∷ []))
            (toy.x25519_public (2 ∷ [])))
          sealed
        ≡ ok keys)
key_transfer_example =
    key_transfer toy toy-IsLawful (1 ∷ []) (2 ∷ []) nonce keys 20 refl (omega arith) (omega arith)
      (omega arith)

-- A digest for the example: the first eight bytes of the message and zeros.
abbrev digest : List ℕ → List ℕ
digest m = take 8 (m ++ replicate 64 0)

sas_digits_example :
    AllDigits (sas digest keys keys)
    × (length (sas digest keys keys) ≡ 6)
    × (decimal 0 (sas digest keys keys) ≡ be64 (digest (keys ++ keys)) % 1000000)
sas_digits_example = sas_digits digest keys keys
