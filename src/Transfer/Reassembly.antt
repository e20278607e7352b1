-- ===== src/Transfer/Reassembly.antt =====
-- src/transfer.rs: the sender's frames at the receiver.
use adhoc_cross_device_conne.Prelude.{
  ℕ, zero, suc, ◌+◌, ◌-◌, ◌*◌, ◌/◌, ◌%◌, ◌^◌, ◌≤◌, ◌<◌, ◌≡◌, refl, sym, ap, subst, ◌∙◌, true, false,
  List, [], ◌∷◌, ◌++◌, Option, some, none, ◌==◌, leb, arith, append-nil, append_assoc, length, take,
  drop, take_all, length-append, map, All, Option-cases, some-injective, inl, inr, ==_refl,
}
use adhoc_cross_device_conne.Prelude.Bytes.{be16, be32, from_be16, from_be32}
use adhoc_cross_device_conne.Prelude.Chunks.{chunks, concat, Fit, concat-chunks, chunks-Fit}
use adhoc_cross_device_conne.Prelude.Result.{ok, err}
use adhoc_cross_device_conne.Transfer.{
  length_mismatch, frame, frame_payload, Reassembler, new, announced, learn, push_frame,
  is_complete, take_payload, push_all,
}

-- The reassembler behind a stream of bytes, however it was cut into frames.
abbrev state : List ℕ → Reassembler
state s = record { stream = s; expected = announced s }

learn-announced : (s c : List ℕ) → learn (announced s) (s ++ c) ≡ announced (s ++ c)
unfolding learn announced
learn-announced [] c = refl
learn-announced (x ∷ []) c = refl
learn-announced (x ∷ y ∷ []) c = refl
learn-announced (x ∷ y ∷ z ∷ []) c = refl
learn-announced (x ∷ y ∷ z ∷ w ∷ s) c = refl

push_frame-frame :
    (s c : List ℕ) → length c < 2 ^ 16 → push_frame (state s) (frame c) ≡ ok (state (s ++ c))
unfolding push_frame frame be16 from_be16
push_frame-frame s c h =
    let m : (length c % 2 ^ 16) / 256 % 256 * 256 + (length c % 2 ^ 16) % 256 ≡ length c =
      omega arith in
    rw (m, ==_refl (length c), learn-announced s c)

-- A chunk that a `u16` cannot count gives a frame that is refused.
pub push_frame_too_long :
    (r : Reassembler) (c : List ℕ)
    → 2 ^ 16 ≤ length c
    → push_frame r (frame c) ≡ err length_mismatch
unfolding push_frame frame be16 from_be16
push_frame_too_long r c h =
    let m : (length c == (length c % 2 ^ 16) / 256 % 256 * 256 + (length c % 2 ^ 16) % 256)
        ≡ false =
      ground arith in
    rw m

push_all-frames :
    (s : List ℕ) (cs : List (List ℕ)) (n : ℕ)
    → n < 2 ^ 16
    → Fit n cs
    → push_all (state s) (map frame cs) ≡ ok (state (s ++ concat cs))
unfolding push_all
push_all-frames s [] n h k = rw append-nil
push_all-frames s (c ∷ cs) n h k =
    rw (push_frame-frame s c (omega arith), push_all)
      (push_all-frames (s ++ c) cs n h k.2
        ∙ ap (λ (t : List ℕ). ok (state t)) (append_assoc s c (concat cs)))

length-be32 : (v : ℕ) (s : List ℕ) → v < 2 ^ 32 → announced (be32 v ++ s) ≡ some v
unfolding announced be32 from_be32
length-be32 v s h = ap some (omega arith)

-- Each frame, its two bytes of length included, is within the maximum.
abbrev pub Within : ℕ → List (List ℕ) → Type 0
Within m = All (λ (f : List ℕ). length f ≤ m)

length-frame : (c : List ℕ) → length (frame c) ≡ 2 + length c
unfolding frame be16
length-frame c = omega arith

frames-Within : (n : ℕ) (cs : List (List ℕ)) → Fit n cs → Within (2 + n) (map frame cs)
frames-Within n [] h = tt
frames-Within n (c ∷ cs) h = (omega (arith, length-frame c), frames-Within n cs h.2)

-- The stream that carries a payload: its length, then the payload.
abbrev carry : List ℕ → List ℕ
carry sealed = be32 (length sealed) ++ sealed

frame_payload-chunks :
    (sealed : List ℕ) (n : ℕ)
    → length sealed < 2 ^ 32
    → frame_payload sealed (suc n + 2) ≡ ok (map frame (chunks (suc n) (carry sealed)))
unfolding frame_payload
frame_payload-chunks sealed n h =
    let e : leb (suc n + 2) 2 ≡ false = ground arith in
    let f : leb (2 ^ 32) (length sealed) ≡ false = ground arith in
    let g : suc n + 2 - 2 ≡ suc n = omega arith in rw (e, f, g)

push_all-chunks :
    (sealed : List ℕ) (n : ℕ)
    → suc n < 2 ^ 16
    → push_all new (map frame (chunks (suc n) (carry sealed))) ≡ ok (state (carry sealed))
unfolding announced
push_all-chunks sealed n h =
    push_all-frames [] (chunks (suc n) (carry sealed)) (suc n) h (chunks-Fit n (carry sealed))
    ∙ ap (λ (t : List ℕ). ok (state t)) (concat-chunks n (carry sealed))

complete-carry :
    (sealed : List ℕ) → length sealed < 2 ^ 32 → is_complete (state (carry sealed)) ≡ true
unfolding is_complete be32
complete-carry sealed h = rw (length-be32 (length sealed) sealed h) (ground arith)

take-carry :
    (sealed : List ℕ) → length sealed < 2 ^ 32 → take_payload (state (carry sealed)) ≡ some sealed
unfolding take_payload be32
take-carry sealed h =
    let e : leb (4 + length sealed) (length (carry sealed)) ≡ true = ground arith in
    rw (length-be32 (length sealed) sealed h, e) (ap some (take_all sealed))

-- The parts of the frames' chunks.
Fit-take : (n k : ℕ) (cs : List (List ℕ)) → Fit n cs → Fit n (take k cs)
Fit-take n zero cs h = tt
Fit-take n (suc k) [] h = tt
Fit-take n (suc k) (c ∷ cs) h = (h.0, h.1, Fit-take n k cs h.2)

take-map-frame : (k : ℕ) (cs : List (List ℕ)) → take k (map frame cs) ≡ map frame (take k cs)
take-map-frame zero cs = refl
take-map-frame (suc k) [] = refl
take-map-frame (suc k) (c ∷ cs) = ap (λ (t : List (List ℕ)). frame c ∷ t) (take-map-frame k cs)

length-map-frame : (cs : List (List ℕ)) → length (map frame cs) ≡ length cs
length-map-frame [] = refl
length-map-frame (c ∷ cs) = ap suc (length-map-frame cs)

concat-take-drop :
    (k : ℕ) (cs : List (List ℕ)) → concat (take k cs) ++ concat (drop k cs) ≡ concat cs
concat-take-drop zero cs = refl
concat-take-drop (suc k) [] = refl
concat-take-drop (suc k) (c ∷ cs) =
    append_assoc c (concat (take k cs)) (concat (drop k cs))
    ∙ ap (λ (t : List ℕ). c ++ t) (concat-take-drop k cs)

concat-drop_pos :
    (n k : ℕ) (cs : List (List ℕ)) → Fit n cs → k < length cs → 1 ≤ length (concat (drop k cs))
concat-drop_pos n k [] h l = absurd (omega arith)
concat-drop_pos n zero (c ∷ cs) h l = omega (arith, length-append c (concat cs))
concat-drop_pos n (suc k) (c ∷ cs) h l = concat-drop_pos n k cs h.2 (omega arith)

announced-append : (s t : List ℕ) (n : ℕ) → announced s ≡ some n → announced (s ++ t) ≡ some n
unfolding learn
announced-append s t n h = sym (learn-announced s t) ∙ ap (λ (o : Option ℕ). learn o (s ++ t)) h

-- A proper prefix of the stream that carries a payload is not complete.
prefix_incomplete :
    (sealed s t : List ℕ)
    → length sealed < 2 ^ 32
    → s ++ t ≡ carry sealed
    → 1 ≤ length t
    → (is_complete (state s) ≡ false) × (take_payload (state s) ≡ none)
unfolding is_complete take_payload be32
prefix_incomplete sealed s t h e p = elim (Option-cases (announced s)) [
  | inl z ↦ rw z (refl, refl)
  | inr (n, z) ↦
      let same : n ≡ length sealed =
        some-injective _ _ (
          sym (announced-append s t n z) ∙ ap announced e ∙ length-be32 (length sealed) sealed h) in
      let total : length (carry sealed) ≡ 4 + length sealed = omega arith in
      let size : length s + length t ≡ 4 + length sealed =
        sym (length-append s t) ∙ ap length e ∙ total in
      let short : leb (4 + n) (length s) ≡ false = ground arith in rw (z, short) (refl, refl)
]

-- The maximum that a sender is called with, as the length of a chunk and two.
chunk_length : (m : ℕ) → 3 ≤ m → (n : ℕ) × (m ≡ suc n + 2)
chunk_length m h = (m - 3, omega arith)

-- For a maximum frame between 3 and 2^16 + 1 bytes and a payload below 2^32 bytes, the frames are
-- made, each is within the maximum, and a new reassembler that is given them in order accepts them
-- all, is complete and hands back the payload.
pub reassemble :
    (sealed : List ℕ) (m : ℕ)
    → 3 ≤ m
    → m ≤ 2 ^ 16 + 1
    → length sealed < 2 ^ 32
    → (fs : List (List ℕ)) × (r : Reassembler) × (frame_payload sealed m ≡ ok fs)
      × Within m fs
      × (push_all new fs ≡ ok r)
      × (is_complete r ≡ true)
      × (take_payload r ≡ some sealed)
reassemble sealed m h k l =
    let (n, e) = chunk_length m h in
    let cs = chunks (suc n) (carry sealed) in
    rw e (
      map frame cs,
      state (carry sealed),
      frame_payload-chunks sealed n l,
      subst (λ (x : ℕ). Within x (map frame cs)) (omega arith)
          (frames-Within (suc n) cs (chunks-Fit n (carry sealed))),
      push_all-chunks sealed n (omega arith),
      complete-carry sealed l,
      take-carry sealed l,
    )

-- Under the same bounds, a new reassembler that is given only the first frames, fewer than all,
-- accepts them, is not complete and hands back nothing.
pub no_early_payload :
    (sealed : List ℕ) (m : ℕ)
    → 3 ≤ m
    → m ≤ 2 ^ 16 + 1
    → length sealed < 2 ^ 32
    → (fs : List (List ℕ)) → frame_payload sealed m ≡ ok fs
    → (k : ℕ) → k < length fs
    → (r : Reassembler) × (push_all new (take k fs) ≡ ok r)
      × (is_complete r ≡ false)
      × (take_payload r ≡ none)
unfolding announced
no_early_payload sealed m h k l fs made i short =
    let (n, e) = chunk_length m h in
    let cs = chunks (suc n) (carry sealed) in
    let both : ok fs ≡ ok (map frame cs) =
      sym made ∙ ap (frame_payload sealed) e ∙ frame_payload-chunks sealed n l in
    let same : fs ≡ map frame cs = cc in
    let s = concat (take i cs) in
    let few : i < length cs = (let q = ap length same in omega (arith, length-map-frame cs)) in
    let p =
      prefix_incomplete sealed s (concat (drop i cs)) l
        (concat-take-drop i cs ∙ concat-chunks n (carry sealed))
        (concat-drop_pos (suc n) i cs (chunks-Fit n (carry sealed)) few) in
    (
      state s,
      rw (same, take-map-frame i cs)
          (push_all-frames [] (take i cs) (suc n) (omega arith)
            (Fit-take (suc n) i cs (chunks-Fit n (carry sealed)))),
      p.0,
      p.1,
    )
