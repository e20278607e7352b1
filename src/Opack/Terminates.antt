-- ===== src/Opack/Terminates.antt =====
-- src/opack.rs: the decoder's recursion on any input of bytes, against its fuel and its limits.
use adhoc_cross_device_conne.Prelude.{
  ℕ, zero, suc, ◌+◌, ◌*◌, ◌%◌, ◌≤◌, ◌≡◌, refl, true, not, ◌&&◌, Option, some, none, List, [], ◌∷◌,
  arith, length, All, All-append, if◌then◌else◌, ltb, ◌==◌, in_range, Bool-cases, Option-cases,
  subst, inl, inr,
}
use mathlib.Core.Option.{some-injective}
use adhoc_cross_device_conne.Prelude.Bytes.{IsByte}
use adhoc_cross_device_conne.Opack.{Value, Items, Pairs}
use adhoc_cross_device_conne.Opack.Equality.{contains}
use adhoc_cross_device_conne.Opack.Decode.{
  Decoder, enter, remember, remembers, closes, parse, body, items, pairs,
}
use adhoc_cross_device_conne.Opack.Measure.{
  IsWellFormed, IsWellFormedItems, IsWellFormedPairs, nodes, nodes_items, nodes_pairs, height,
  height_items, height_pairs,
}
use adhoc_cross_device_conne.Opack.Ensures.{
  Ensures, returns, Ensures-bind, Ensures-if, Ensures-weaken, IsPlain, Inv, After, enter-Ensures,
}
use adhoc_cross_device_conne.Opack.Unroll.{parse_step, body_step, items_step, pairs_step}
use adhoc_cross_device_conne.Opack.Safety.{scalar-Ensures}

-- A property of `d'` from an equation with `some`.
some_to {ℓ} : {A : Type ℓ} (P : A → Type 0) (a b : A) → P a → some a ≡ some b → P b
some_to P a b p e = subst P (some-injective _ _ e) p

-- The two branches of `closes` behind the test of the announced count.
closes_inner :
    (n : ℕ) (d d' : Decoder)
    → Inv d
    → (if n == 15
        then elim d.rest [
          | [] ↦ none
          | b ∷ bs ↦ if b == 3 then some (record d { rest = bs }) else none
        ]
        else none)
      ≡ some d'
    → After 0 0 d d'
closes_inner n d d' i e = elim (Bool-cases (n == 15)) [
  | inl p ↦ at_end d.rest i.input (omega arith) (rw p at e)
  | inr p ↦ absurd (none-ne-some (rw p at e))
]
  where
    none-ne-some : ◌≡◌ {A = Option Decoder} none (some d') → ⊥
    none-ne-some q = cc

    at_end :
        (r : List ℕ)
        → All IsByte r
        → length r ≤ length d.rest
        → (elim r [ [] ↦ none | b ∷ bs ↦ if b == 3 then some (record d { rest = bs }) else none ])
          ≡ some d'
        → After 0 0 d d'
    at_end [] h l q = absurd (none-ne-some q)
    at_end (b ∷ bs) h l q = elim (Bool-cases (b == 3)) [
      | inl p ↦
          some_to (λ x. After 0 0 d x) (record d { rest = bs }) d'
            (record {
              inv = record { input = h.1; known = i.known; counted = i.counted };
              shorter = omega arith;
              count = omega arith;
            })
            (rw p at q)
      | inr p ↦ absurd (none-ne-some (rw p at q))
    ]

closes-After : (n done : ℕ) (d d' : Decoder) → Inv d → closes n done d ≡ some d' → After 0 0 d d'
unfolding closes
closes-After n done d d' i e = elim (Bool-cases (ltb n 15 && done == n)) [
  | inl p ↦
      some_to (λ x. After 0 0 d x) d d'
        (record { inv = i; shorter = omega arith; count = omega arith }) (rw p at e)
  | inr p ↦ closes_inner n d d' i (rw p at e)
]

remember-Ensures :
    (t : ℕ) (v : Value) (d : Decoder)
    → Inv d
    → (remembers t ≡ true → IsPlain v)
    → Ensures (λ w d'. (w ≡ v) × After 0 0 d d') (remember t v d)
unfolding remember
remember-Ensures t v d i p =
    Ensures-if _ (remembers t && not (contains d.objects v)) _ _
      (λ e.
        let r : remembers t ≡ true = ground arith in
        returns (
          refl,
          record {
            inv = record {
              input = i.input;
              known = All-append IsPlain d.objects (v ∷ []) i.known (p r, tt);
              counted = i.counted;
            };
            shorter = omega arith;
            count = omega arith;
          },
        ))
      (λ e. returns (refl, record { inv = i; shorter = omega arith; count = omega arith }))

not_remembered : (t : ℕ) → in_range 0xd0 0xdf t ≡ true → remembers t ≡ true → ⊥
unfolding remembers
not_remembered t e r = ground arith

not_remembered' : (t : ℕ) → in_range 0xe0 0xef t ≡ true → remembers t ≡ true → ⊥
unfolding remembers
not_remembered' t e r = ground arith

abbrev pub ParsePost : ℕ → Decoder → Value → Decoder → Type 0
ParsePost depth d v d' = IsWellFormed v × (height v + depth ≤ 64) × After 1 (nodes v) d d'

abbrev ItemsPost : ℕ → Decoder → Items → Decoder → Type 0
ItemsPost depth d vs d' =
    IsWellFormedItems vs × (height_items vs + depth ≤ 64) × After 0 (nodes_items vs) d d'

abbrev PairsPost : ℕ → Decoder → Pairs → Decoder → Type 0
PairsPost depth d ps d' =
    IsWellFormedPairs ps × (height_pairs ps + depth ≤ 64) × After 0 (nodes_pairs ps) d d'

-- The object itself was counted before its body.
record BodyPost (depth t : ℕ) (d : Decoder) (v : Value) (d' : Decoder) : Type 0 where
  well_formed : IsWellFormed v
  levels : height v + depth ≤ 64
  inside : ℕ
  counts : nodes v ≡ suc inside
  after : After 0 inside d d'
  plain : remembers t ≡ true → IsPlain v

mutual
  unfolding nodes height

  pub parse-Ensures :
      (f depth : ℕ) (d : Decoder)
      → Inv d
      → 3 * length d.rest + 1 ≤ f
      → Ensures (ParsePost depth d) (parse f depth d)
  parse-Ensures zero depth d i h = absurd (omega arith)
  parse-Ensures (suc f) depth d i h = rw (parse_step f depth d) (
      Ensures-bind _ _ (enter depth) _ d (enter-Ensures d i depth) λ t d1 h1.
        Ensures-bind _ _ (body f depth t) _ d1
          (body-Ensures f depth t d1 h1.2.inv h1.1 h1.0 (omega arith))
          λ v d2 h2. Ensures-weaken _ _ (remember-Ensures t v d2 h2.after.inv h2.plain) λ w d3 h3.
            rw h3.0 (
              returns (
                h2.well_formed,
                h2.levels,
                record { inv = h3.1.inv; shorter = omega arith; count = omega arith },
              )))

  body-Ensures :
      (f depth t : ℕ) (d : Decoder)
      → Inv d
      → IsByte t
      → depth ≤ 64
      → 3 * length d.rest + 3 ≤ f
      → Ensures (BodyPost depth t d) (body f depth t d)
  body-Ensures zero depth t d i ht hd h = absurd (omega arith)
  body-Ensures (suc f) depth t d i ht hd h = rw (body_step f depth d t) (
      Ensures-if _ (in_range 0xd0 0xdf t) _ _
        (λ e.
          Ensures-bind _ _ (items f depth (t % 16) 0) _ d
            (items-Ensures f depth (t % 16) 0 d i hd (omega arith))
            λ vs d' p. returns (record {
              well_formed = p.0;
              levels = p.1;
              inside = nodes_items vs;
              counts = refl;
              after = p.2;
              plain = λ r. absurd (not_remembered t e r);
            }))
        (λ e.
          Ensures-if _ (in_range 0xe0 0xef t) _ _
            (λ e.
              Ensures-bind _ _ (pairs f depth (t % 16) 0) _ d
                (pairs-Ensures f depth (t % 16) 0 d i hd (omega arith))
                λ ps d' p. returns (record {
                  well_formed = p.0;
                  levels = p.1;
                  inside = nodes_pairs ps;
                  counts = refl;
                  after = p.2;
                  plain = λ r. absurd (not_remembered' t e r);
                }))
            (λ e. Ensures-weaken _ _ (scalar-Ensures d i t ht) λ v d' p. returns (record {
              well_formed = p.0.0;
              levels = omega (arith, p.0.2);
              inside = 0;
              counts = p.0.1;
              after = p.1;
              plain = λ r. p.0;
            }))))

  items-Ensures :
      (f depth n done : ℕ) (d : Decoder)
      → Inv d
      → depth ≤ 64
      → 3 * length d.rest + 2 ≤ f
      → Ensures (ItemsPost depth d) (items f depth n done d)
  items-Ensures zero depth n done d i hd h = absurd (omega arith)
  items-Ensures (suc f) depth n done d i hd h =
      rw (items_step f depth d n done) (elim (Option-cases (closes n done d)) [
        | inl e ↦ rw e (
            Ensures-bind _ _ (parse f (depth + 1)) _ d
              (parse-Ensures f (depth + 1) d i (omega arith))
              λ v d1 p.
                Ensures-bind _ _ (items f depth n (done + 1)) _ d1
                  (items-Ensures f depth n (done + 1) d1 p.2.inv hd (omega arith))
                  λ vs d2 q. returns (
                    (p.0, q.0),
                    omega arith,
                    record { inv = q.2.inv; shorter = omega arith; count = omega arith },
                  ))
        | inr (d', e) ↦ rw e (returns (tt, omega arith, closes-After n done d d' i e))
      ])

  pairs-Ensures :
      (f depth n done : ℕ) (d : Decoder)
      → Inv d
      → depth ≤ 64
      → 3 * length d.rest + 2 ≤ f
      → Ensures (PairsPost depth d) (pairs f depth n done d)
  pairs-Ensures zero depth n done d i hd h = absurd (omega arith)
  pairs-Ensures (suc f) depth n done d i hd h =
      rw (pairs_step f depth d n done) (elim (Option-cases (closes n done d)) [
        | inl e ↦ rw e (
            Ensures-bind _ _ (parse f (depth + 1)) _ d
              (parse-Ensures f (depth + 1) d i (omega arith))
              λ k d1 p.
                Ensures-bind _ _ (parse f (depth + 1)) _ d1
                  (parse-Ensures f (depth + 1) d1 p.2.inv (omega arith))
                  λ v d2 p'.
                    Ensures-bind _ _ (pairs f depth n (done + 1)) _ d2
                      (pairs-Ensures f depth n (done + 1) d2 p'.2.inv hd (omega arith))
                      λ ps d3 q. returns (
                        (p.0, p'.0, q.0),
                        omega arith,
                        record { inv = q.2.inv; shorter = omega arith; count = omega arith },
                      ))
        | inr (d', e) ↦ rw e (returns (tt, omega arith, closes-After n done d d' i e))
      ])
