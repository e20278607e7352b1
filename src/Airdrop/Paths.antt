-- ===== src/Airdrop/Paths.antt =====
-- src/airdrop/storage.rs: `relative`, which turns the name of an archive's entry into the components of a relative path.
-- A name is its Unicode scalar values.
use adhoc_cross_device_conne.Prelude.{
  ℕ, ◌+◌, Bool, true, false, not, ◌&&◌, ◌||◌, List, [], ◌∷◌, ◌==◌, ltb, leb, in_range,
  if◌then◌else◌, bytes_eq,
}
use adhoc_cross_device_conne.Prelude.Result.{Result, ok, err, ensure, ◌>>=◌, ◌>>◌}

pub data Error : Type 0 where
  unsafe_path unsafe_component empty_path : Error

abbrev pub Name : Type 0
Name = List ℕ

-- The bytes of a scalar value, and of a name, in UTF-8.
abbrev pub width : ℕ → ℕ
width c = if ltb c 0x80 then 1 else if ltb c 0x800 then 2 else if ltb c 0x10000 then 3 else 4

abbrev pub len : Name → ℕ
len [] = 0
len (c ∷ cs) = width c + len cs

abbrev pub slash : ℕ
slash = 0x2f

abbrev pub starts_with_slash : Name → Bool
starts_with_slash [] = false
starts_with_slash (c ∷ cs) = c == slash

abbrev pub has_backslash : Name → Bool
has_backslash [] = false
has_backslash (c ∷ cs) = c == 0x5c || has_backslash cs

-- `c.is_control()`, or one of the marks that change the direction of text.
abbrev pub is_forbidden : ℕ → Bool
is_forbidden c =
    leb c 0x1f || in_range 0x7f 0x9f c || in_range 0x202a 0x202e c || in_range 0x2066 0x2069 c

abbrev pub has_forbidden : Name → Bool
has_forbidden [] = false
has_forbidden (c ∷ cs) = is_forbidden c || has_forbidden cs

-- `name.split('/')`
unfoldable pub extend : ℕ → List Name → List Name
extend c [] = (c ∷ []) ∷ []
extend c (p ∷ ps) = (c ∷ p) ∷ ps

unfoldable pub split : Name → List Name
split [] = [] ∷ []
split (c ∷ cs) = if c == slash then [] ∷ split cs else extend c (split cs)

-- `part == "." || part.is_empty()`
unfoldable pub is_skipped : Name → Bool
is_skipped [] = true
is_skipped (c ∷ cs) = bytes_eq (c ∷ cs) (0x2e ∷ [])

unfoldable pub is_allowed : Name → Bool
is_allowed part =
    not (bytes_eq part (0x2e ∷ 0x2e ∷ [])) && leb (len part) 255 && not (has_forbidden part)

-- The loop over the parts; the path that it pushes to is its components.
unfoldable pub components : List Name → Result Error (List Name)
components [] = ok []
components (p ∷ ps) =
    let rest = components ps in
    if is_skipped p
    then rest
    else (ensure (is_allowed p) unsafe_component >> rest >>= λ r. ok (p ∷ r))

unfoldable pub nonempty : List Name → Result Error (List Name)
nonempty [] = err empty_path
nonempty (p ∷ ps) = ok (p ∷ ps)

unfoldable pub relative : Name → Result Error (List Name)
relative name = do
  ensure (not (starts_with_slash name) && not (has_backslash name) && leb (len name) 4096)
      unsafe_path
  result ← components (split name)
  nonempty result
