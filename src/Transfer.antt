-- ===== src/Transfer.antt =====
-- src/transfer.rs: the frames of the key transfer and their reassembly, and the session key, the
-- security code and the sealed payload over the primitives of other crates.
pub mod Reassembly
pub mod Sealing
use adhoc_cross_device_conne.Prelude.{
  ℕ, zero, suc, ◌+◌, ◌-◌, ◌*◌, ◌/◌, ◌%◌, ◌^◌, Bool, true, false, List, [], ◌∷◌, ◌++◌, Option, some,
  none, ◌==◌, ltb, leb, if◌then◌else◌, length, take, drop, map,
}
use adhoc_cross_device_conne.Prelude.Bytes.{be16, be32, from_be16, from_be32}
use adhoc_cross_device_conne.Prelude.Chunks.{chunks}
use adhoc_cross_device_conne.Prelude.Result.{Result, ok, err}

pub data Error : Type 0 where
  max_frame_too_small payload_too_large frame_too_short length_mismatch seal_failed open_failed
        too_short :
      Error

-- One frame: the chunk's length, truncated to a `u16`, and the chunk.
unfoldable pub frame : List ℕ → List ℕ
frame c = be16 (length c % 2 ^ 16) ++ c

unfoldable pub frame_payload : List ℕ → ℕ → Result Error (List (List ℕ))
frame_payload sealed max_frame =
    if leb max_frame 2
    then err max_frame_too_small
    else if leb (2 ^ 32) (length sealed)
    then err payload_too_large
    else ok (map frame (chunks (max_frame - 2) (be32 (length sealed) ++ sealed)))

-- `Reassembler`
pub record Reassembler : Type 0 where
  pub stream : List ℕ
  pub expected : Option ℕ

abbrev pub new : Reassembler
new = record { stream = []; expected = none }

-- The announced length, once the stream holds its four bytes.
unfoldable pub announced : List ℕ → Option ℕ
announced (a ∷ b ∷ c ∷ d ∷ r) = some (from_be32 a b c d)
announced [] = none
announced (a ∷ []) = none
announced (a ∷ b ∷ []) = none
announced (a ∷ b ∷ c ∷ []) = none

learn : Option ℕ → List ℕ → Option ℕ
learn none stream = announced stream
learn (some n) stream = some n

unfoldable pub push_frame : Reassembler → List ℕ → Result Error Reassembler
unfolding announced learn
push_frame r [] = err frame_too_short
push_frame r (a ∷ []) = err frame_too_short
push_frame r (a ∷ b ∷ body) =
    if length body == from_be16 a b
    then (let stream = r.stream ++ body in
        ok (record { stream = stream; expected = learn r.expected stream }))
    else err length_mismatch

unfoldable pub is_complete : Reassembler → Bool
is_complete r = elim r.expected [ some n ↦ leb (4 + n) (length r.stream) | none ↦ false ]

unfoldable pub take_payload : Reassembler → Option (List ℕ)
take_payload r = elim r.expected [
  | none ↦ none
  | some n ↦ if leb (4 + n) (length r.stream) then some (take n (drop 4 r.stream)) else none
]

-- The frames of a payload pushed one after the other, as the receiver does.
unfoldable pub push_all : Reassembler → List (List ℕ) → Result Error Reassembler
push_all r [] = ok r
push_all r (f ∷ fs) = elim (push_frame r f) [ ok r' ↦ push_all r' fs | err e ↦ err e ]
