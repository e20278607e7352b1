-- ===== src/Opack/Total.antt =====
-- src/opack.rs: `decode` on any input of bytes.
use adhoc_cross_device_conne.Prelude.{
  ℕ, ◌*◌, ◌≤◌, ◌≡◌, ◌≢◌, List, [], ◌∷◌, arith, length, All, leb, leb→le, Bool-cases, subst, inl,
  inr,
}
use adhoc_cross_device_conne.Prelude.Bytes.{IsByte}
use adhoc_cross_device_conne.Prelude.Result.{Result, ok, err}
use adhoc_cross_device_conne.Opack.{Value}
use adhoc_cross_device_conne.Opack.Decode.{
  Error, stuck, input_too_long, trailing_bytes, Decoder, parse, decode, fuel_for, start,
}
use adhoc_cross_device_conne.Opack.Measure.{IsWellFormed, nodes, height}
use adhoc_cross_device_conne.Opack.Ensures.{Ensures, returns, raises}
use adhoc_cross_device_conne.Opack.Terminates.{parse-Ensures, ParsePost}

-- The last two steps of `decode`.
abbrev finish : Result Error (Value × Decoder) → Result Error Value
finish r = elim r [
  | err e ↦ err e
  | ok (v, d) ↦ elim d.rest [ [] ↦ ok v | b ∷ r ↦ err trailing_bytes ]
]

trailing-ne-stuck :
    (v : Value) (r : List ℕ)
    → ◌≢◌ {A = Result Error Value} (elim r [ [] ↦ ok v | b ∷ bs ↦ err trailing_bytes ]) (err stuck)
trailing-ne-stuck v [] e = cc
trailing-ne-stuck v (b ∷ bs) e = cc

finish-ne-stuck :
    (Q : Value → Decoder → Type 0) (r : Result Error (Value × Decoder))
    → Ensures Q r
    → finish r ≢ err stuck
finish-ne-stuck Q _ (returns {a = v} {d = d} q) e = trailing-ne-stuck v d.rest e
finish-ne-stuck Q _ (raises {e = x} n) e = n (err_injective x stuck e)
  where
    err_injective : (x y : Error) → ◌≡◌ {A = Result Error Value} (err x) (err y) → x ≡ y
    err_injective x y p = cc

trailing-eq-ok :
    (v w : Value) (r : List ℕ)
    → ◌≡◌ {A = Result Error Value} (elim r [ [] ↦ ok v | b ∷ bs ↦ err trailing_bytes ]) (ok w)
    → v ≡ w
trailing-eq-ok v w [] e = cc
trailing-eq-ok v w (b ∷ bs) e = cc

finish-eq-ok :
    (Q : Value → Decoder → Type 0) (r : Result Error (Value × Decoder)) (w : Value)
    → Ensures Q r
    → finish r ≡ ok w
    → (d : Decoder) × Q w d
finish-eq-ok Q _ w (returns {a = v} {d = d} q) e =
    (d, subst (λ x. Q x d) (trailing-eq-ok v w d.rest e) q)
finish-eq-ok Q _ w (raises n) e = cc

start-Ensures :
    (bs : List ℕ)
    → All IsByte bs
    → Ensures (ParsePost 0 (start bs)) (parse (fuel_for bs) 0 (start bs))
start-Ensures bs h =
    parse-Ensures (fuel_for bs) 0 (start bs)
      (record { input = h; known = tt; counted = omega arith }) (omega arith)

-- `decode` ends on every input of bytes: the bound on the depth of its calls is never met.
pub decode-ne-stuck : (bs : List ℕ) → All IsByte bs → decode bs ≢ err stuck
unfolding decode
decode-ne-stuck bs h = elim (Bool-cases (leb (length bs) (4 * 1024 * 1024))) [
  | inl e ↦ rw e (finish-ne-stuck _ _ (start-Ensures bs h))
  | inr e ↦ rw e (λ p. cc)
]

-- Whatever bytes `decode` accepts, the value that it returns has fields in the ranges of their
-- types (its strings are UTF-8), at most 65536 nodes and at most 64 levels of nesting; and they
-- are no more than 4 MiB.
pub decode_limits :
    (bs : List ℕ) (v : Value)
    → All IsByte bs
    → decode bs ≡ ok v
    → IsWellFormed v × (nodes v ≤ 65536) × (height v ≤ 64) × (length bs ≤ 4 * 1024 * 1024)
unfolding decode
decode_limits bs v h e = elim (Bool-cases (leb (length bs) (4 * 1024 * 1024))) [
  | inl t ↦
      let (d, p) = finish-eq-ok _ _ v (start-Ensures bs h) (rw t at e) in
      let c : d.count ≤ 65536 = p.2.inv.counted in
      (p.0, omega (arith, p.2.count), omega (arith, p.1), leb→le _ _ t)
  | inr t ↦ absurd (too_long (rw t at e))
]
  where
    too_long : ◌≡◌ {A = Result Error Value} (err input_too_long) (ok v) → ⊥
    too_long q = cc
