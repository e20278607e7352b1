-- ===== src/Airdrop/SafeNames.antt =====
-- src/airdrop/storage.rs: the names that may be components of a path, and what `relative` tests of a part.
use adhoc_cross_device_conne.Prelude.{
  ℕ, ◌≤◌, ◌≡◌, ◌≢◌, refl, Bool, true, false, ◌||◌, Bool-cases, ◌⊎◌, inl, inr, List, [], ◌∷◌, ◌==◌,
  le→leb, bytes_eq, bytes_eq→eq, arith, All,
}
use adhoc_cross_device_conne.Airdrop.Paths.{
  Name, len, slash, has_backslash, is_forbidden, has_forbidden, is_skipped, is_allowed,
}

abbrev pub has_slash : Name → Bool
has_slash [] = false
has_slash (c ∷ cs) = c == slash || has_slash cs

-- A character that a component may have: neither kind of slash, no control character (up to U+001F, and from U+007F
-- to U+009F), and none of those that set the direction of text (U+202A to U+202E, and U+2066 to U+2069).
pub record IsPlain (c : ℕ) : Type 0 where
  pub not_slash : c ≢ 0x2f
  pub not_backslash : c ≢ 0x5c
  pub visible : 0x20 ≤ c
  pub not_control : (c ≤ 0x7e) ⊎ (0xa0 ≤ c)
  pub not_embedding : (c ≤ 0x2029) ⊎ (0x202f ≤ c)
  pub not_isolate : (c ≤ 0x2065) ⊎ (0x206a ≤ c)

-- A component that names a file or directory right below another: neither empty, "." nor "..", of at most 255 bytes,
-- and of plain characters.
pub record IsSafe (p : Name) : Type 0 where
  pub not_empty : p ≢ []
  pub not_dot : p ≢ 0x2e ∷ []
  pub not_dot_dot : p ≢ 0x2e ∷ 0x2e ∷ []
  pub short : len p ≤ 255
  pub plain : All IsPlain p

IsPlain-intro :
    (c : ℕ) → (c == slash) ≡ false → (c == 0x5c) ≡ false → is_forbidden c ≡ false → IsPlain c
IsPlain-intro c h k l = record {
  not_slash = ground arith;
  not_backslash = ground arith;
  visible = ground arith;
  not_control = ground arith;
  not_embedding = ground arith;
  not_isolate = ground arith;
}

All-IsPlain :
    (p : Name)
    → has_slash p ≡ false
    → has_backslash p ≡ false
    → has_forbidden p ≡ false
    → All IsPlain p
All-IsPlain [] h k l = tt
All-IsPlain (c ∷ cs) h k l = (
  IsPlain-intro c (ground arith) (ground arith) (ground arith),
  All-IsPlain cs (ground arith) (ground arith) (ground arith),
)

-- What the code tests of a part is enough.
pub tested-IsSafe :
    (p : Name)
    → is_skipped p ≡ false
    → is_allowed p ≡ true
    → has_slash p ≡ false
    → has_backslash p ≡ false
    → IsSafe p
unfolding is_allowed is_skipped
tested-IsSafe p h k l m = record {
  not_empty = λ e. (let h' : is_skipped [] ≡ false = rw e at h in cc);
  not_dot = λ e. (let h' : is_skipped (0x2e ∷ []) ≡ false = rw e at h in cc);
  not_dot_dot = λ e. (let k' : is_allowed (0x2e ∷ 0x2e ∷ []) ≡ true = rw e at k in cc);
  short = ground arith;
  plain = All-IsPlain p l m (ground arith);
}

pub no_slash : (p : Name) → All IsPlain p → has_slash p ≡ false
no_slash [] h = refl
no_slash (c ∷ cs) h = (let r = no_slash cs h.1 in let q = h.0.not_slash in ground arith)

pub no_backslash : (p : Name) → All IsPlain p → has_backslash p ≡ false
no_backslash [] h = refl
no_backslash (c ∷ cs) h = (let r = no_backslash cs h.1 in let q = h.0.not_backslash in ground arith)

is_forbidden-IsPlain : (c : ℕ) → IsPlain c → is_forbidden c ≡ false
is_forbidden-IsPlain c h = ground (arith, h.visible, h.not_control, h.not_embedding, h.not_isolate)

no_forbidden : (p : Name) → All IsPlain p → has_forbidden p ≡ false
no_forbidden [] h = refl
no_forbidden (c ∷ cs) h =
    (let r = no_forbidden cs h.1 in let q = is_forbidden-IsPlain c h.0 in ground arith)

bytes_eq-false : (p q : List ℕ) → p ≢ q → bytes_eq p q ≡ false
bytes_eq-false p q h = elim (Bool-cases (bytes_eq p q)) [
  | inl e ↦ absurd (h (bytes_eq→eq p q e))
  | inr e ↦ e
]

pub is_skipped-IsSafe : (p : Name) → IsSafe p → is_skipped p ≡ false
unfolding is_skipped
is_skipped-IsSafe [] h = absurd (h.not_empty refl)
is_skipped-IsSafe (c ∷ cs) h = bytes_eq-false (c ∷ cs) (0x2e ∷ []) h.not_dot

pub is_allowed-IsSafe : (p : Name) → IsSafe p → is_allowed p ≡ true
unfolding is_allowed
is_allowed-IsSafe p h =
    rw
      (
        bytes_eq-false p (0x2e ∷ 0x2e ∷ []) h.not_dot_dot,
        le→leb (len p) 255 h.short,
        no_forbidden p h.plain,
      )
      refl
