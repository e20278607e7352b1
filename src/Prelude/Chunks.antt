-- ===== src/Prelude/Chunks.antt =====
-- `slice.chunks(n)` of the standard library: consecutive parts of `n` elements, the last of which
-- may be shorter. Each part takes an element at least, so the length of the slice is enough fuel.
use adhoc_cross_device_conne.Prelude.Lists.{
  length, take, drop, length-take, length-drop, take-append-drop, length-append, take-append,
  drop-append, take_long, drop_long,
}
use Prim.Native.Nat.{ℕ, zero, suc, ◌≤◌}
use mathlib.Core.Path.{◌≡◌, refl, sym, ap, ◌∙◌}
use mathlib.Core.Logic.{◌⊎◌, inl, inr}
use mathlib.Core.List.{List, [], ◌∷◌, ◌++◌, append-nil}
use native.Mathlib.Omega.{arith}

module _ {ℓ} {A : Type ℓ} where
  chunks_loop : ℕ → ℕ → List A → List (List A)
  chunks_loop zero n xs = []
  chunks_loop (suc f) n [] = []
  chunks_loop (suc f) n (x ∷ xs) = take n (x ∷ xs) ∷ chunks_loop f n (drop n (x ∷ xs))

  unfoldable pub chunks : ℕ → List A → List (List A)
  unfolding chunks_loop
  chunks n xs = chunks_loop (length xs) n xs

  abbrev pub concat : List (List A) → List A
  concat [] = []
  concat (c ∷ cs) = c ++ concat cs

  -- Every part has between 1 and `n` elements.
  abbrev pub Fit : ℕ → List (List A) → Type 0
  Fit n [] = Unit
  Fit n (c ∷ cs) = (1 ≤ length c) × (length c ≤ n) × Fit n cs

  chunks_loop-concat :
      (f n : ℕ) (xs : List A) → length xs ≤ f → concat (chunks_loop f (suc n) xs) ≡ xs
  unfolding chunks_loop
  chunks_loop-concat zero n [] h = refl
  chunks_loop-concat zero n (x ∷ xs) h = absurd (omega arith)
  chunks_loop-concat (suc f) n [] h = refl
  chunks_loop-concat (suc f) n (x ∷ xs) h =
      ap (λ (r : List A). x ∷ (take n xs ++ r))
        (chunks_loop-concat f n (drop n xs) (omega (arith, length-drop n xs)))
      ∙ ap (λ (r : List A). x ∷ r) (take-append-drop n xs)

  chunks_loop-Fit : (f n : ℕ) (xs : List A) → Fit (suc n) (chunks_loop f (suc n) xs)
  unfolding chunks_loop
  chunks_loop-Fit zero n xs = tt
  chunks_loop-Fit (suc f) n [] = tt
  chunks_loop-Fit (suc f) n (x ∷ xs) =
      (omega arith, omega (arith, length-take n xs), chunks_loop-Fit f n (drop n xs))

  pub concat-chunks : (n : ℕ) (xs : List A) → concat (chunks (suc n) xs) ≡ xs
  unfolding chunks
  concat-chunks n xs = chunks_loop-concat (length xs) n xs (omega arith)

  pub chunks-Fit : (n : ℕ) (xs : List A) → Fit (suc n) (chunks (suc n) xs)
  unfolding chunks
  chunks-Fit n xs = chunks_loop-Fit (length xs) n xs

  chunks_loop_enough :
      (f g n : ℕ) (xs : List A)
      → length xs ≤ f
      → length xs ≤ g
      → chunks_loop f (suc n) xs ≡ chunks_loop g (suc n) xs
  unfolding chunks_loop
  chunks_loop_enough zero zero n [] h k = refl
  chunks_loop_enough zero (suc g) n [] h k = refl
  chunks_loop_enough (suc f) zero n [] h k = refl
  chunks_loop_enough (suc f) (suc g) n [] h k = refl
  chunks_loop_enough zero g n (x ∷ xs) h k = absurd (omega arith)
  chunks_loop_enough (suc f) zero n (x ∷ xs) h k = absurd (omega arith)
  chunks_loop_enough (suc f) (suc g) n (x ∷ xs) h k =
      ap (λ (r : List (List A)). take (suc n) (x ∷ xs) ∷ r)
        (chunks_loop_enough f g n (drop n xs) (omega (arith, length-drop n xs))
          (omega (arith, length-drop n xs)))

  pub chunks-cons :
      (n : ℕ) (xs : List A)
      → 1 ≤ length xs
      → chunks (suc n) xs ≡ take (suc n) xs ∷ chunks (suc n) (drop (suc n) xs)
  unfolding chunks chunks_loop
  chunks-cons n [] h = absurd (omega arith)
  chunks-cons n (x ∷ xs) h =
      ap (λ (r : List (List A)). take (suc n) (x ∷ xs) ∷ r)
        (chunks_loop_enough (length xs) (length (drop n xs)) n (drop n xs)
          (omega (arith, length-drop n xs)) (omega arith))

  -- The chunks of a text that begins with a full chunk, or has one chunk only.
  pub chunks-append :
      (n : ℕ) (xs ys : List A)
      → 1 ≤ length xs
      → (length xs ≡ suc n) ⊎ ((length xs ≤ suc n) × (ys ≡ []))
      → chunks (suc n) (xs ++ ys) ≡ xs ∷ chunks (suc n) ys
  chunks-append n xs ys h (inl e) =
      chunks-cons n (xs ++ ys) (omega (arith, length-append xs ys))
      ∙ rw (sym e, take-append xs ys, drop-append xs ys) refl
  chunks-append n xs ys h (inr (k, e)) =
      let all : xs ++ ys ≡ xs = rw e (append-nil xs) in
      chunks-cons n (xs ++ ys) (omega (arith, length-append xs ys))
      ∙ rw (all, e, take_long (suc n) xs k, drop_long (suc n) xs k) refl
