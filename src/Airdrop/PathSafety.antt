-- ===== src/Airdrop/PathSafety.antt =====
-- src/airdrop/storage.rs: the components that `relative` accepts.
use adhoc_cross_device_conne.Prelude.{
  ℕ, ◌≤◌, ◌≡◌, ◌≢◌, refl, ap, ◌∙◌, true, false, Bool-cases, inl, inr, List, [], ◌∷◌, ◌++◌, ◌==◌,
  leb, arith, All,
}
use adhoc_cross_device_conne.Prelude.Result.{ok, err, ensure, ◌>>=◌, ◌>>◌, >>=-eq-ok}
use adhoc_cross_device_conne.Airdrop.Paths.{
  unsafe_component, Name, len, slash, starts_with_slash, has_backslash, extend, split, is_skipped,
  is_allowed, components, nonempty, relative,
}
use adhoc_cross_device_conne.Airdrop.SafeNames.{
  has_slash, IsSafe, tested-IsSafe, no_slash, no_backslash, is_skipped-IsSafe, is_allowed-IsSafe,
}

abbrev Plain : Name → Type 0
Plain p = (has_slash p ≡ false) × (has_backslash p ≡ false)

extend-Plain :
    (c : ℕ) (ps : List Name)
    → (c == slash) ≡ false
    → (c == 0x5c) ≡ false
    → All Plain ps
    → All Plain (extend c ps)
unfolding extend
extend-Plain c [] e f h = ((ground arith, ground arith), tt)
extend-Plain c (p ∷ ps) e f h = (let q = h.0 in ((ground arith, ground arith), h.1))

split-Plain : (name : Name) → has_backslash name ≡ false → All Plain (split name)
unfolding split
split-Plain [] h = ((refl, refl), tt)
split-Plain (c ∷ cs) h =
    let rest = split-Plain cs (ground arith) in
    elim (Bool-cases (c == slash)) [
      | inl e ↦ rw e ((refl, refl), rest)
      | inr e ↦ rw e (extend-Plain c (split cs) e (ground arith) rest)
    ]

components-IsSafe : (ps r : List Name) → All Plain ps → components ps ≡ ok r → All IsSafe r
unfolding components
components-IsSafe [] [] h e = tt
components-IsSafe [] (p ∷ r) h e = cc
components-IsSafe (p ∷ ps) r h e = elim (Bool-cases (is_skipped p)) [
  | inl k ↦ components-IsSafe ps r h.1 (rw k at e)
  | inr k ↦
      let e' : (ensure (is_allowed p) unsafe_component >> components ps >>= λ r. ok (p ∷ r))
          ≡ ok r =
        rw k at e in
      elim (Bool-cases (is_allowed p)) [
        | inr a ↦ (let bad : err unsafe_component ≡ ok r = rw a at e' in cc)
        | inl a ↦
            let e'' : (components ps >>= λ r. ok (p ∷ r)) ≡ ok r = rw a at e' in
            let (t, f, g) = >>=-eq-ok (components ps) _ e'' in
            let same : r ≡ p ∷ t = cc in
            rw same (tested-IsSafe p k a h.0.0 h.0.1, components-IsSafe ps t h.1 f)
      ]
]

relative_inv :
    (name : Name) (parts : List Name)
    → relative name ≡ ok parts
    → (has_backslash name ≡ false) × (components (split name) ≡ ok parts) × (parts ≢ [])
unfolding relative nonempty
relative_inv name parts h = (ground arith, ground arith, ground arith)

-- Every component of a path that is accepted is safe, and there is one at least.
pub relative-IsSafe :
    (name : Name) (parts : List Name) → relative name ≡ ok parts → All IsSafe parts × (parts ≢ [])
relative-IsSafe name parts h =
    let (plain, e, some_part) = relative_inv name parts h in
    (components-IsSafe (split name) parts (split-Plain name plain) e, some_part)

-- The components with a slash between each two.
abbrev pub join : List Name → Name
join [] = []
join (p ∷ []) = p
join (p ∷ q ∷ ps) = p ++ slash ∷ join (q ∷ ps)

split_last : (p : Name) → has_slash p ≡ false → split p ≡ p ∷ []
unfolding split extend
split_last [] h = refl
split_last (c ∷ cs) h =
    let e : (c == slash) ≡ false = ground arith in
    let k : has_slash cs ≡ false = ground arith in rw (e, split_last cs k) refl

split_cons : (p rest : Name) → has_slash p ≡ false → split (p ++ slash ∷ rest) ≡ p ∷ split rest
unfolding split extend
split_cons [] rest h = refl
split_cons (c ∷ cs) rest h =
    let e : (c == slash) ≡ false = ground arith in
    let k : has_slash cs ≡ false = ground arith in rw (e, split_cons cs rest k) refl

pub split-join : (p : Name) (ps : List Name) → All IsSafe (p ∷ ps) → split (join (p ∷ ps)) ≡ p ∷ ps
split-join p [] h = split_last p (no_slash p h.0.plain)
split-join p (q ∷ ps) h =
    split_cons p (join (q ∷ ps)) (no_slash p h.0.plain)
    ∙ ap (λ (t : List Name). p ∷ t) (split-join q ps h.1)

pub components_safe : (ps : List Name) → All IsSafe ps → components ps ≡ ok ps
unfolding components
components_safe [] h = refl
components_safe (p ∷ ps) h =
    rw (is_skipped-IsSafe p h.0, is_allowed-IsSafe p h.0, components_safe ps h.1) refl

pub has_backslash-append :
    (p q : Name)
    → has_backslash p ≡ false
    → has_backslash q ≡ false
    → has_backslash (p ++ q) ≡ false
has_backslash-append [] q h k = k
has_backslash-append (c ∷ p) q h k = (let r = has_backslash-append p q in ground arith)

pub has_backslash-join : (ps : List Name) → All IsSafe ps → has_backslash (join ps) ≡ false
has_backslash-join [] h = refl
has_backslash-join (p ∷ []) h = no_backslash p h.0.plain
has_backslash-join (p ∷ q ∷ ps) h =
    has_backslash-append p (slash ∷ join (q ∷ ps)) (no_backslash p h.0.plain)
      (has_backslash-join (q ∷ ps) h.1)

starts_with_slash-append :
    (p q : Name) → is_skipped p ≡ false → has_slash p ≡ false → starts_with_slash (p ++ q) ≡ false
unfolding is_skipped
starts_with_slash-append [] q h k = cc
starts_with_slash-append (c ∷ p) q h k = ground arith

starts_with_slash-join :
    (p : Name) (ps : List Name) → All IsSafe (p ∷ ps) → starts_with_slash (join (p ∷ ps)) ≡ false
starts_with_slash-join [] [] h = refl
starts_with_slash-join (c ∷ p) [] h = (let k = no_slash (c ∷ p) h.0.plain in ground arith)
starts_with_slash-join p (q ∷ ps) h =
    starts_with_slash-append p (slash ∷ join (q ∷ ps)) (is_skipped-IsSafe p h.0)
      (no_slash p h.0.plain)

-- The other way about, the name that joins one or more safe components by slashes, and has at most 4096 bytes, is
-- accepted, and gives those components.
pub relative-join :
    (p : Name) (ps : List Name)
    → All IsSafe (p ∷ ps)
    → len (join (p ∷ ps)) ≤ 4096
    → relative (join (p ∷ ps)) ≡ ok (p ∷ ps)
unfolding relative nonempty
relative-join p ps h k =
    let e : leb (len (join (p ∷ ps))) 4096 ≡ true = ground arith in
    rw
      (
        starts_with_slash-join p ps h,
        has_backslash-join (p ∷ ps) h,
        e,
        split-join p ps h,
        components_safe (p ∷ ps) h,
      )
      refl
