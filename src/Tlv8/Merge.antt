-- ===== src/Tlv8/Merge.antt =====
-- What the loop of `decode` builds, described from the front: runs of one type become one item.
use adhoc_cross_device_conne.Prelude.{
  ℕ, zero, suc, ◌≤◌, ◌<◌, ◌≡◌, refl, sym, ap, ◌∙◌, false, List, [], ◌∷◌, ◌++◌, ◌==◌, if◌then◌else◌,
  arith, append_assoc, length, take, drop, length-take, length-drop, length-append, leb, leb→le,
  Bool-cases, inl, inr, take-append-drop, take-append, drop-append, subst,
}
use adhoc_cross_device_conne.Tlv8.{Tlv8, push_fragment, decode_loop, decode}

unfoldable pub join : ℕ → List ℕ → Tlv8 → Tlv8
join t p [] = (t, p) ∷ []
join t p ((u, q) ∷ r) = if t == u then (t, p ++ q) ∷ r else (t, p) ∷ (u, q) ∷ r

unfoldable pub group : Tlv8 → Tlv8
unfolding join
group [] = []
group ((t, p) ∷ r) = join t p (group r)

-- The fragments of data, one after the other. The last may be cut short, and a single byte behind
-- it is left over.
pub data Fragments : List ℕ → Tlv8 → Type 0 where
  done : Fragments [] []
  left_over : (b : ℕ) → Fragments (b ∷ []) []
  whole :
      (t : ℕ) (p rest : List ℕ) (r : Tlv8)
      → Fragments rest r
      → Fragments (t ∷ length p ∷ (p ++ rest)) ((t, p) ∷ r)
  cut : (t n : ℕ) (p : List ℕ) → length p < n → Fragments (t ∷ n ∷ p) ((t, p) ∷ [])

-- Behind items whose last is `(t, b)`, further fragments group as if they followed it.
abbrev fold : Tlv8 → Tlv8 → Tlv8
fold items [] = items
fold items ((t, p) ∷ r) = fold (push_fragment items t p) r

pub join_same : (t : ℕ) (p q : List ℕ) (g : Tlv8) → join t p (join t q g) ≡ join t (p ++ q) g
unfolding join
join_same t p q [] = ground arith
join_same t p q ((u, s) ∷ g) = ground (arith, append_assoc p q s)

pub join_ne :
    (t u : ℕ) (p q : List ℕ) (g : Tlv8)
    → (t == u) ≡ false
    → join t p (join u q g) ≡ (t, p) ∷ join u q g
unfolding join
join_ne t u p q [] h = ground arith
join_ne t u p q ((w, s) ∷ g) h = ground arith

push_last :
    (init : Tlv8) (t u : ℕ) (b p : List ℕ)
    → push_fragment (init ++ (t, b) ∷ []) u p
      ≡ (if t == u then init ++ (t, b ++ p) ∷ [] else (init ++ (t, b) ∷ []) ++ (u, p) ∷ [])
unfolding push_fragment
push_last [] t u b p = ground arith
push_last (i ∷ []) t u b p = ground arith
push_last (i ∷ j ∷ init) t u b p = ground (arith, push_last (j ∷ init) t u b p)

-- Folding the fragments into items whose last is `(t, b)` groups them behind it.
fold_last :
    (init : Tlv8) (t : ℕ) (b : List ℕ) (r : Tlv8)
    → fold (init ++ (t, b) ∷ []) r ≡ init ++ join t b (group r)
unfolding group
fold_last init t b [] = refl
fold_last init t b ((u, p) ∷ r) = elim (Bool-cases (t == u)) [
  | inl e ↦
      let q : t ≡ u = ground arith in
      rw (push_last init t u b p, e, fold_last init t (b ++ p) r)
        (ap (λ (g : Tlv8). init ++ g)
          (sym (join_same t b p (group r)) ∙ ap (λ (k : ℕ). join t b (join k p (group r))) q))
  | inr e ↦ rw (
    push_last init t u b p,
    e,
    fold_last (init ++ (t, b) ∷ []) u p r,
    append_assoc,
    join_ne t u b p (group r) e,
  )
]

fold-group : (r : Tlv8) → fold [] r ≡ group r
unfolding push_fragment group
fold-group [] = refl
fold-group ((t, p) ∷ r) = fold_last [] t p r

decode_loop_done : (f : ℕ) (items : Tlv8) → decode_loop f items [] ≡ items
unfolding decode_loop
decode_loop_done zero items = refl
decode_loop_done (suc f) items = refl

take_cut : (n : ℕ) (p : List ℕ) → length p < n → (take n p ≡ p) × (drop n p ≡ [])
take_cut zero p h = absurd (omega arith)
take_cut (suc n) [] h = (refl, refl)
take_cut (suc n) (x ∷ p) h =
    let (a, b) = take_cut n p (omega arith) in (ap (λ (r : List ℕ). x ∷ r) a, b)

-- The fragments of any data.
split : (f : ℕ) (d : List ℕ) → length d ≤ f → (r : Tlv8) × Fragments d r
split f [] h = ([], done)
split zero (b ∷ d) h = absurd (omega arith)
split (suc f) (b ∷ []) h = ([], left_over b)
split (suc f) (t ∷ n ∷ p) h = elim (Bool-cases (leb n (length p))) [
  | inl e ↦
      let (r, fr) = split f (drop n p) (omega (arith, length-drop n p)) in
      let m : length (take n p) ≡ n = omega (arith, length-take n p, leb→le _ _ e) in
      (
        (t, take n p) ∷ r,
        subst (λ (k : ℕ). Fragments (t ∷ k ∷ p) ((t, take n p) ∷ r)) m
            (subst (λ (q : List ℕ). Fragments (t ∷ length (take n p) ∷ q) ((t, take n p) ∷ r))
              (take-append-drop n p) (whole t (take n p) (drop n p) r fr)),
      )
  | inr e ↦ ((t, p) ∷ [], cut t n p (ground arith))
]

decode_loop-Fragments :
    (f : ℕ) (items : Tlv8) (d : List ℕ) (r : Tlv8)
    → Fragments d r
    → length d ≤ f
    → decode_loop f items d ≡ fold items r
unfolding decode_loop
decode_loop-Fragments f items _ _ done h = decode_loop_done f items
decode_loop-Fragments zero items _ _ (left_over b) h = refl
decode_loop-Fragments (suc f) items _ _ (left_over b) h = refl
decode_loop-Fragments zero items _ _ (whole t p rest r fr) h = absurd (omega arith)
decode_loop-Fragments (suc f) items _ _ (whole t p rest r fr) h =
    rw (take-append p rest, drop-append p rest)
      (decode_loop-Fragments f (push_fragment items t p) rest r fr
        (omega (arith, length-append p rest)))
decode_loop-Fragments zero items _ _ (cut t n p l) h = absurd (omega arith)
decode_loop-Fragments (suc f) items _ _ (cut t n p l) h =
    let (a, b) = take_cut n p l in rw (a, b) (decode_loop_done f (push_fragment items t p))

pub Fragments-decode : (d : List ℕ) (r : Tlv8) → Fragments d r → decode d ≡ group r
unfolding decode
Fragments-decode d r fr = decode_loop-Fragments (length d) [] d r fr (omega arith) ∙ fold-group r

-- Any data splits into fragments (a last one may be cut short, and a byte left over), and `decode`
-- returns exactly those, each run of one type merged into one item.
pub decode_lem : (d : List ℕ) → (r : Tlv8) × Fragments d r × (decode d ≡ group r)
decode_lem d = let (r, fr) = split (length d) d (omega arith) in (r, fr, Fragments-decode d r fr)
