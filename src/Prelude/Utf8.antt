-- ===== src/Prelude/Utf8.antt =====
-- What `std::str::from_utf8` accepts: the well-formed UTF-8 of the Unicode standard (table 3-7),
-- as a machine over bytes. A `String` of the source is a list of bytes that this accepts.
use Prim.Native.Nat.{ℕ, zero, suc, ◌<◌}
use mathlib.Core.Path.{◌≡◌, refl}
use mathlib.Core.Bool.{Bool, true, false}
use mathlib.Core.List.{List, [], ◌∷◌}
use adhoc_cross_device_conne.Prelude.Tests.{ltb, ◌==◌, in_range, if◌then◌else◌, lt→ltb}
use adhoc_cross_device_conne.Prelude.Lists.{All}

-- `more k lo hi`: the next byte must lie in lo..=hi, and k continuation bytes follow it.
pub data Scan : Type 0 where
  boundary bad : Scan
  more : ℕ → ℕ → ℕ → Scan

lead : ℕ → Scan
lead b =
    if ltb b 0x80
    then boundary
    else if in_range 0xc2 0xdf b
    then more 0 0x80 0xbf
    else if b == 0xe0
    then more 1 0xa0 0xbf
    else if b == 0xed
    then more 1 0x80 0x9f
    else if in_range 0xe1 0xef b
    then more 1 0x80 0xbf
    else if b == 0xf0
    then more 2 0x90 0xbf
    else if in_range 0xf1 0xf3 b
    then more 2 0x80 0xbf
    else if b == 0xf4
    then more 2 0x80 0x8f
    else bad

scan : Scan → ℕ → Scan
scan boundary b = lead b
scan bad b = bad
scan (more zero lo hi) b = if in_range lo hi b then boundary else bad
scan (more (suc k) lo hi) b = if in_range lo hi b then more k 0x80 0xbf else bad

scan_all : Scan → List ℕ → Bool
scan_all boundary [] = true
scan_all bad [] = false
scan_all (more k lo hi) [] = false
scan_all s (b ∷ bs) = scan_all (scan s b) bs

unfoldable pub valid_utf8 : List ℕ → Bool
unfolding lead scan scan_all
valid_utf8 bs = scan_all boundary bs

ascii-scan : (bs : List ℕ) → All (λ (b : ℕ). b < 0x80) bs → scan_all boundary bs ≡ true
unfolding lead scan scan_all
ascii-scan [] h = refl
ascii-scan (b ∷ bs) h = (let e = lt→ltb b 0x80 h.0 in rw e (ascii-scan bs h.1))

pub ascii-valid_utf8 : (bs : List ℕ) → All (λ (b : ℕ). b < 0x80) bs → valid_utf8 bs ≡ true
unfolding valid_utf8
ascii-valid_utf8 bs h = ascii-scan bs h

euro_sign : valid_utf8 (0x61 ∷ 0xe2 ∷ 0x82 ∷ 0xac ∷ []) ≡ true
unfolding valid_utf8
euro_sign = refl

surrogate : valid_utf8 (0xed ∷ 0xa0 ∷ 0x80 ∷ []) ≡ false
unfolding valid_utf8
surrogate = refl
