-- ===== src/Examples/Shelves.antt =====
-- The publication of items at concrete inputs, over a directory that is the list of its names, of at most 255 bytes each.
use adhoc_cross_device_conne.Prelude.{
  ℕ, suc, ◌≤◌, ◌≡◌, refl, leb, length, Bool, true, false, ◌||◌, List, [], ◌∷◌, Option, none, some,
  if◌then◌else◌, bytes_eq, bytes_eq→eq, arith, inl, inr, Bool-cases,
}
use adhoc_cross_device_conne.Prelude.Bytes.{codes}
use adhoc_cross_device_conne.Prelude.Digits.{digits, digits_fuel, digit_char}
use adhoc_cross_device_conne.Prelude.Result.{Result, ok, err}
use adhoc_cross_device_conne.Airdrop.Paths.{Name}
use adhoc_cross_device_conne.Airdrop.Cpio.{IoError, already_exists, other}
use adhoc_cross_device_conne.Airdrop.Staging.{stem_and_extension, rsplit_dot}
use adhoc_cross_device_conne.Airdrop.Publish.{
  Shelf, IsNoReplace, candidate, with_number, publish_from, publish,
}
use adhoc_cross_device_conne.Airdrop.Names.{mem, outcome, all_taken, publish_from-free}

abbrev member : Name → List Name → Bool
member n [] = false
member n (m ∷ ms) = bytes_eq m n || member n ms

abbrev find : Name → List Name → Option ℕ
find n d = if member n d then some 0 else none

abbrev rename : Name → Name → List Name → Result IoError (List Name)
rename from to d =
    if member to d
    then err already_exists
    else if leb (length to) 255
    then ok (to ∷ d)
    else err (other 36)

abbrev shelf : Shelf
shelf = record { Dir = List Name; Content = ℕ; rename = rename; find = find }

find-member : (n : Name) (d : List Name) (x : ℕ) → find n d ≡ some x → member n d ≡ true
find-member n d x h = elim (Bool-cases (member n d)) [
  | inl e ↦ e
  | inr e ↦ (let bad : ◌≡◌ {A = Option ℕ} none (some x) = rw (find, e) at h in absurd cc)
]

shelf-exists :
    (from to : Name) (d : List Name)
    → rename from to d ≡ err already_exists
    → (x : ℕ) × (find to d ≡ some x)
shelf-exists from to d e = elim (Bool-cases (member to d)) [
  | inl f ↦ (0, rw (find, f) refl)
  | inr f ↦ elim (Bool-cases (leb (length to) 255)) [
    | inl g ↦
        (let bad : ◌≡◌ {A = Result IoError (List Name)} (ok (to ∷ d)) (err already_exists) =
            rw (rename, f, g) at e in
          absurd cc)
    | inr g ↦
        (let bad : ◌≡◌ {A = Result IoError (List Name)} (err (other 36)) (err already_exists) =
            rw (rename, f, g) at e in
          absurd cc)
  ]
]

shelf-IsNoReplace : IsNoReplace shelf
shelf-IsNoReplace = record {
  refuses = λ from to d x h. rw (rename, find-member to d x h) refl;
  exists = shelf-exists;
}

abbrev taken : List Name
taken = codes "photo.jpg" ∷ codes "notes" ∷ []

member-mem : (n : Name) (d : List Name) → member n d ≡ true → mem n d
member-mem n [] h = cc
member-mem n (m ∷ ms) h = elim (Bool-cases (bytes_eq m n)) [
  | inl e ↦ inl (bytes_eq→eq m n e)
  | inr e ↦ inr (member-mem n ms (rw (member, e) at h))
]

publish_from-free_example :
    (before : ℕ) × (before ≤ 2)
    × (find (candidate (codes "photo.jpg") (suc before)) taken ≡ none)
    × (all_taken shelf (codes "photo.jpg") before taken ≡ true)
    × (publish_from shelf 3 (codes "photo.jpg") 1 taken
        ≡ outcome (rename (codes "photo.jpg") (candidate (codes "photo.jpg") (suc before)) taken))
publish_from-free_example =
    publish_from-free shelf shelf-IsNoReplace taken (codes "photo.jpg") taken (omega arith)
      (λ n h. member-mem n taken (find-member n taken h.0 h.1))

published :
    publish shelf 9 (codes "photo.jpg" ∷ codes "notes" ∷ codes "list.txt" ∷ []) taken
    ≡ ok (codes "list.txt" ∷ codes "notes 2" ∷ codes "photo 2.jpg" ∷ taken)
unfolding publish publish_from candidate with_number stem_and_extension rsplit_dot digits
    digits_fuel digit_char
published = refl
