-- ===== src/Tlv8/RoundTrip.antt =====
-- src/tlv8.rs: `decode` behind `encode`.
use adhoc_cross_device_conne.Prelude.{
  ℕ, ◌%◌, ◌≡◌, refl, ap, ◌∙◌, false, List, [], ◌∷◌, ◌++◌, ◌==◌, arith, append-nil, append_assoc,
  length,
}
use adhoc_cross_device_conne.Prelude.Chunks.{chunks, concat, Fit, concat-chunks, chunks-Fit}
use adhoc_cross_device_conne.Tlv8.{Tlv8, encode_chunks, encode_item, encode, decode}
use adhoc_cross_device_conne.Tlv8.Merge.{
  join, group, join_same, Fragments, done, whole, Fragments-decode,
}

-- The fragments that `encode` writes for the chunks of one value.
parts : ℕ → List (List ℕ) → Tlv8 → Tlv8
parts t [] r = r
parts t (c ∷ cs) r = (t, c) ∷ parts t cs r

encode_chunks-Fragments :
    (t : ℕ) (cs : List (List ℕ)) (rest : List ℕ) (r : Tlv8)
    → Fit 255 cs
    → Fragments rest r
    → Fragments (encode_chunks t cs ++ rest) (parts t cs r)
unfolding encode_chunks parts
encode_chunks-Fragments t [] rest r h fr = fr
encode_chunks-Fragments t (c ∷ cs) rest r h fr =
    let m : length c % 256 ≡ length c = omega arith in
    rw (m, append_assoc) (whole t c _ _ (encode_chunks-Fragments t cs rest r h.2 fr))

group-parts :
    (t : ℕ) (c : List ℕ) (cs : List (List ℕ)) (r : Tlv8)
    → group (parts t (c ∷ cs) r) ≡ join t (concat (c ∷ cs)) (group r)
unfolding parts group
group-parts t c [] r = rw append-nil
group-parts t c (d ∷ cs) r = rw (group-parts t d cs r) (join_same t c (concat (d ∷ cs)) (group r))

item_Fragments :
    (t : ℕ) (v rest : List ℕ) (r : Tlv8)
    → Fragments rest r
    → (r' : Tlv8) × Fragments (encode_item t v ++ rest) r' × (group r' ≡ join t v (group r))
unfolding encode_item group
item_Fragments t [] rest r fr = ((t, []) ∷ r, whole t [] rest r fr, refl)
item_Fragments t (b ∷ bs) rest r fr =
    go (chunks 255 (b ∷ bs)) (chunks-Fit 254 (b ∷ bs)) (concat-chunks 254 (b ∷ bs))
  where
    go :
        (cs : List (List ℕ))
        → Fit 255 cs
        → concat cs ≡ b ∷ bs
        → (r' : Tlv8) × Fragments (encode_chunks t cs ++ rest) r'
          × (group r' ≡ join t (b ∷ bs) (group r))
    go [] h e = cc
    go (c ∷ cs) h e = (
      parts t (c ∷ cs) r,
      encode_chunks-Fragments t (c ∷ cs) rest r h fr,
      group-parts t c cs r ∙ ap (λ (v : List ℕ). join t v (group r)) e,
    )

encode-Fragments :
    (items : Tlv8) → (r : Tlv8) × Fragments (encode items) r × (group r ≡ group items)
unfolding encode group
encode-Fragments [] = ([], done, refl)
encode-Fragments ((t, v) ∷ items) =
    let (r, fr, e) = encode-Fragments items in
    let (r', fr', e') = item_Fragments t v (encode items) r fr in
    (r', fr', e' ∙ ap (λ (g : Tlv8). join t v g) e)

-- What `decode` reads back of an encoding: every value whole, however many fragments carried it,
-- and adjacent items of one type merged into one.
pub decode-encode-group : (items : Tlv8) → decode (encode items) ≡ group items
decode-encode-group items =
    let (r, fr, e) = encode-Fragments items in Fragments-decode (encode items) r fr ∙ e

-- No two adjacent items have one type.
abbrev pub NoRuns : Tlv8 → Type 0
NoRuns [] = Unit
NoRuns ((t, v) ∷ []) = Unit
NoRuns ((t, v) ∷ (u, w) ∷ r) = ((t == u) ≡ false) × NoRuns ((u, w) ∷ r)

group-NoRuns : (items : Tlv8) → NoRuns items → group items ≡ items
unfolding group join
group-NoRuns [] h = refl
group-NoRuns ((t, v) ∷ []) h = refl
group-NoRuns ((t, v) ∷ (u, w) ∷ r) h = rw (group-NoRuns ((u, w) ∷ r) h.1) (ground (arith, h.0))

-- A list of items with no two adjacent items of one type survives the wire unchanged.
pub decode-encode_distinct : (items : Tlv8) → NoRuns items → decode (encode items) ≡ items
decode-encode_distinct items h = decode-encode-group items ∙ group-NoRuns items h
