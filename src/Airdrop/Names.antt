-- ===== src/Airdrop/Names.antt =====
-- src/airdrop/storage.rs: the names that an item is tried under differ, so that one of them is free.
use adhoc_cross_device_conne.Prelude.{
  ℕ, zero, suc, ◌+◌, ◌≤◌, ◌<◌, ◌^◌, ◌≡◌, ◌≢◌, refl, sym, ap, ◌∙◌, Bool, true, false, ◌&&◌, List, [],
  ◌∷◌, ◌++◌, Option, none, some, ◌==◌, ltb, lt→ltb, length, length-append, take, drop, take-append,
  drop-append, arith, Bool-cases, Option-cases, inl, inr, ◌⊎◌,
}
use adhoc_cross_device_conne.Prelude.Digits.{
  digits, from_str_radix, from_str_radix-padded, padded_zero,
}
use adhoc_cross_device_conne.Prelude.Result.{Result, ok, err, Result-cases}
use adhoc_cross_device_conne.Airdrop.Paths.{Name}
use adhoc_cross_device_conne.Airdrop.Cpio.{IoError, already_exists, other}
use adhoc_cross_device_conne.Airdrop.Staging.{rsplit_dot, stem_and_extension}
use adhoc_cross_device_conne.Airdrop.Publish.{
  Shelf, IsNoReplace, Error, publish_failed, too_many_collisions, with_number, candidate,
  publish_from,
}

append-cancel : (xs ys zs : List ℕ) → xs ++ ys ≡ xs ++ zs → ys ≡ zs
append-cancel xs ys zs h = sym (drop-append xs ys) ∙ ap (drop (length xs)) h ∙ drop-append xs zs

append-cancel_right : (xs ys zs : List ℕ) → xs ++ zs ≡ ys ++ zs → xs ≡ ys
append-cancel_right xs ys zs h =
    let same : length xs ≡ length ys =
      (let e = ap length h in omega (arith, length-append xs zs, length-append ys zs)) in
    sym (take-append xs zs) ∙ ap (take (length xs)) h ∙ rw same (take-append ys zs)

digits-injective : (m n : ℕ) → m < 2 ^ 64 → n < 2 ^ 64 → digits 10 m ≡ digits 10 n → m ≡ n
digits-injective m n h k e =
    let read_m : from_str_radix 10 (digits 10 m) ≡ some m =
      rw (sym (padded_zero 10 m)) (from_str_radix-padded 0 10 m (inr (inl refl)) h) in
    let read_n : from_str_radix 10 (digits 10 n) ≡ some n =
      rw (sym (padded_zero 10 n)) (from_str_radix-padded 0 10 n (inr (inl refl)) k) in
    let same : some m ≡ some n = sym read_m ∙ ap (from_str_radix 10) e ∙ read_n in cc

with_number-injective :
    (parts : Name × Option Name) (m n : ℕ)
    → m < 2 ^ 64
    → n < 2 ^ 64
    → with_number m parts ≡ with_number n parts
    → m ≡ n
unfolding with_number
with_number-injective (stem, none) m n h k e =
    let same : 0x20 ∷ digits 10 m ≡ 0x20 ∷ digits 10 n = append-cancel stem _ _ e in
    digits-injective m n h k cc
with_number-injective (stem, some x) m n h k e =
    let same : 0x20 ∷ (digits 10 m ++ (0x2e ∷ x)) ≡ 0x20 ∷ (digits 10 n ++ (0x2e ∷ x)) =
      append-cancel stem _ _ e in
    let same' : digits 10 m ++ (0x2e ∷ x) ≡ digits 10 n ++ (0x2e ∷ x) = cc in
    digits-injective m n h k (append-cancel_right (digits 10 m) (digits 10 n) (0x2e ∷ x) same')

-- The bytes of a name are those of its stem and of its extension, with the dot.
abbrev parts_length : Name × Option Name → ℕ
parts_length (stem, none) = length stem
parts_length (stem, some e) = length stem + suc (length e)

rsplit_dot-length :
    (name before after : Name)
    → rsplit_dot name ≡ some (before, after)
    → length name ≡ length before + suc (length after)
unfolding rsplit_dot
rsplit_dot-length [] before after e = absurd cc
rsplit_dot-length (c ∷ cs) before after e = elim (Option-cases (rsplit_dot cs)) [
  | inr ((x, y), f) ↦
      let e' : ◌≡◌ {A = Option (Name × Name)} (some (c ∷ x, y)) (some (before, after)) =
        rw f at e in
      let ih = rsplit_dot-length cs x y f in
      let first : c ∷ x ≡ before = cc in
      let second : y ≡ after = cc in rw (sym first, sym second) (omega arith)
  | inl f ↦ elim (Bool-cases (c == 0x2e)) [
    | inl g ↦
        let e' : ◌≡◌ {A = Option (Name × Name)} (some ([], cs)) (some (before, after)) =
          rw (f, g) at e in
        let first : [] ≡ before = cc in
        let second : cs ≡ after = cc in rw (sym first, sym second) (omega arith)
    | inr g ↦
        (let bad : ◌≡◌ {A = Option (Name × Name)} none (some (before, after)) = rw (f, g) at e in
          absurd cc)
  ]
]

stem_and_extension-length : (name : Name) → parts_length (stem_and_extension name) ≡ length name
unfolding stem_and_extension
stem_and_extension-length name = elim (Option-cases (rsplit_dot name)) [
  | inl f ↦
      let e : stem_and_extension name ≡ (name, none) = rw (stem_and_extension, f) refl in
      ap parts_length e
  | inr (([], y), f) ↦
      let e : stem_and_extension name ≡ (name, none) = rw (stem_and_extension, f) refl in
      ap parts_length e
  | inr ((c ∷ x, y), f) ↦
      let e : stem_and_extension name ≡ (c ∷ x, some y) = rw (stem_and_extension, f) refl in
      ap parts_length e ∙ sym (rsplit_dot-length name (c ∷ x) y f)
]

with_number-longer :
    (parts : Name × Option Name) (n : ℕ) → parts_length parts < length (with_number n parts)
unfolding with_number
with_number-longer (stem, none) n = omega (arith, length-append stem (0x20 ∷ digits 10 n))
with_number-longer (stem, some e) n = omega (
  arith,
  length-append stem (0x20 ∷ (digits 10 n ++ (0x2e ∷ e))),
  length-append (digits 10 n) (0x2e ∷ e),
)

-- Two numbers lead to two names.
pub candidate-injective :
    (name : Name) (m n : ℕ) → 1 ≤ m → m < n → n < 2 ^ 64 → candidate name n ≢ candidate name m
unfolding candidate
candidate-injective name m n h k l e =
    let parts = stem_and_extension name in
    let later : (n == 1) ≡ false = ground arith in
    elim (Bool-cases (m == 1)) [
      | inl f ↦
          let e' : with_number n parts ≡ name = rw (later, f) at e in
          let size = ap length e' in
          omega (arith, with_number-longer parts n, stem_and_extension-length name)
      | inr f ↦
          let e' : with_number n parts ≡ with_number m parts = rw (later, f) at e in
          omega (arith, with_number-injective parts n m l (omega arith) e')
    ]

-- The names that stand in a directory are at most these.
abbrev pub mem : Name → List Name → Type 0
mem n [] = ⊥
mem n (m ∷ ms) = (m ≡ n) ⊎ mem n ms

abbrev IsTaken : (fs : Shelf) → Name → fs.Dir → Type 0
IsTaken fs n d = (x : fs.Content) × (fs.find n d ≡ some x)

-- The list without one of its members.
without : (n : Name) (ms : List Name) → mem n ms → List Name
without n [] h = []
without n (m ∷ ms) (inl e) = ms
without n (m ∷ ms) (inr h) = m ∷ without n ms h

length-without :
    (n : Name) (ms : List Name) (h : mem n ms) → suc (length (without n ms h)) ≡ length ms
unfolding without
length-without n [] h = absurd h
length-without n (m ∷ ms) (inl e) = refl
length-without n (m ∷ ms) (inr h) = ap suc (length-without n ms h)

mem-without :
    (n k : Name) (ms : List Name) (h : mem n ms) → k ≢ n → mem k ms → mem k (without n ms h)
unfolding without
mem-without n k [] h d l = l
mem-without n k (m ∷ ms) (inl e) d (inl f) = absurd (d (sym f ∙ e))
mem-without n k (m ∷ ms) (inl e) d (inr l) = l
mem-without n k (m ∷ ms) (inr h) d (inl f) = inl f
mem-without n k (m ∷ ms) (inr h) d (inr l) = inr (mem-without n k ms h d l)

-- What a rename that did not meet a taken name makes of the item.
abbrev pub outcome : {D : Type 0} → Result IoError D → Result Error D
outcome (ok d) = ok d
outcome (err (other e)) = err (publish_failed e)
outcome (err already_exists) = err too_many_collisions

abbrev is_some : {A : Type 0} → Option A → Bool
is_some none = false
is_some (some a) = true

-- Whether the first `count` candidates, those with the numbers from one on, are all taken.
abbrev pub all_taken : (fs : Shelf) → Name → ℕ → fs.Dir → Bool
all_taken fs name zero d = true
all_taken fs name (suc count) d =
    is_some (fs.find (candidate name (suc count)) d) && all_taken fs name count d

module _ (fs : Shelf) (lawful : IsNoReplace fs) where
  -- The number that the loop stops at: its name is free, the names before it are taken, and the loop's result is that
  -- of the rename to it.
  record Found (name : Name) (bound : ℕ) (d : fs.Dir) (r : Result Error fs.Dir) : Type 0 where
    pub before : ℕ
    pub bounded : suc before ≤ bound
    pub free : fs.find (candidate name (suc before)) d ≡ none
    pub taken_before : all_taken fs name before d ≡ true
    pub moved : r ≡ outcome (fs.rename name (candidate name (suc before)) d)

  publish_from-free_here :
      (fuel : ℕ) (name : Name) (number : ℕ) (d : fs.Dir)
      → fs.find (candidate name number) d ≡ none
      → publish_from fs (suc fuel) name number d
        ≡ outcome (fs.rename name (candidate name number) d)
  unfolding publish_from
  publish_from-free_here fuel name number d free =
      elim (Result-cases (fs.rename name (candidate name number) d)) [
        | inl (d', f) ↦ rw (publish_from, f) refl
        | inr (other e, f) ↦ rw (publish_from, f) refl
        | inr (already_exists, f) ↦
            let (x, g) = lawful.exists name (candidate name number) d f in
            let clash : none ≡ some x = sym free ∙ g in absurd cc
      ]

  publish_from-Found :
      (taken : List Name) (fuel : ℕ) (name : Name) (before : ℕ) (d : fs.Dir)
      → all_taken fs name before d ≡ true
      → suc before + length taken < 2 ^ 64
      → length taken < fuel
      → ((n : ℕ)
          → before < n
          → n < 2 ^ 64
          → IsTaken fs (candidate name n) d
          → mem (candidate name n) taken)
      → Found name (suc before + length taken) d (publish_from fs fuel name (suc before) d)
  unfolding publish_from
  publish_from-Found taken zero name before d full small enough covers = absurd (omega arith)
  publish_from-Found taken (suc fuel) name before d full small enough covers =
      let number = suc before in
      elim (Option-cases (fs.find (candidate name number) d)) [
        | inl free ↦ record {
          before = before;
          bounded = omega arith;
          free = free;
          taken_before = full;
          moved = publish_from-free_here fuel name number d free;
        }
        | inr (x, e) ↦
            let refused = lawful.refuses name (candidate name number) d x e in
            let here = covers number (omega arith) (omega arith) (x, e) in
            let rest = without (candidate name number) taken here in
            let size = length-without (candidate name number) taken here in
            let fits : ltb (suc number) (2 ^ 64) ≡ true =
              lt→ltb (suc number) (2 ^ 64) (omega arith) in
            let f =
              publish_from-Found rest fuel name number d (rw (e, full) refl) (omega arith)
                (omega arith)
                (λ n later bound is_taken.
                  mem-without (candidate name number) (candidate name n) taken here
                    (candidate-injective name number n (omega arith) (omega arith) bound)
                    (covers n (omega arith) bound is_taken)) in
            record {
              before = f.before;
              bounded = omega (arith, f.bounded);
              free = f.free;
              taken_before = f.taken_before;
              moved = rw (publish_from, refused, fits) f.moved;
            }
      ]

  -- An item is tried under its own and then its numbered names until the first of them that is free, which is one of the
  -- first suc (length taken) if the names in the receiver's directory are among those of the list `taken`, which has
  -- fewer than 2 ^ 64 - 1: all names before it are taken, and the item is published under it, or publication fails with
  -- the system's error for that rename.
  pub publish_from-free :
      (taken : List Name) (name : Name) (d : fs.Dir)
      → suc (length taken) < 2 ^ 64
      → ((n : Name) → IsTaken fs n d → mem n taken)
      → (before : ℕ) × (before ≤ length taken)
        × (fs.find (candidate name (suc before)) d ≡ none)
        × (all_taken fs name before d ≡ true)
        × (publish_from fs (suc (length taken)) name 1 d
            ≡ outcome (fs.rename name (candidate name (suc before)) d))
  publish_from-free taken name d small covers =
      let f =
        publish_from-Found taken (suc (length taken)) name 0 d refl (omega arith) (omega arith)
          (λ n later bound t. covers (candidate name n) t) in
      (f.before, omega (arith, f.bounded), f.free, f.taken_before, f.moved)
