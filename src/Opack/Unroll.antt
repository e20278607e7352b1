-- ===== src/Opack/Unroll.antt =====
-- One round of each function of the decoder's recursion, from what its parts return.
use adhoc_cross_device_conne.Prelude.{
  ℕ, suc, ◌+◌, ◌%◌, ◌≤◌, ◌<◌, ◌≡◌, refl, true, false, some, none, arith, in_range, if◌then◌else◌,
}
use adhoc_cross_device_conne.Prelude.Result.{ok}
use adhoc_cross_device_conne.Prelude.Exec.{◌>>=◌, pure}
use adhoc_cross_device_conne.Opack.{Value, array, dict, Items, nil, cons, Pairs, end, pair}
use adhoc_cross_device_conne.Opack.Decode.{
  Decoder, scalar, enter, remember, closes, parse, body, items, pairs,
}

module _ (f depth : ℕ) (d : Decoder) where
  pub parse_step :
      parse (suc f) depth d ≡ (enter depth >>= λ t. (body f depth t >>= λ v. remember t v)) d
  unfolding parse
  parse_step = refl

  pub parse_by :
      (t : ℕ) (v w : Value) (d1 d2 d3 : Decoder)
      → enter depth d ≡ ok (t, d1)
      → body f depth t d1 ≡ ok (v, d2)
      → remember t v d2 ≡ ok (w, d3)
      → parse (suc f) depth d ≡ ok (w, d3)
  parse_by t v w d1 d2 d3 p q r = rw parse_step (ground (arith, p, q, r))

  pub body_step :
      (t : ℕ)
      → body (suc f) depth t d ≡ (
          if in_range 0xd0 0xdf t
          then (items f depth (t % 16) 0 >>= λ vs. pure (array vs)) d
          else if in_range 0xe0 0xef t
          then (pairs f depth (t % 16) 0 >>= λ ps. pure (dict ps)) d
          else scalar t d)
  unfolding parse
  body_step t = refl

  pub body_scalar : (t : ℕ) → t < 0xd0 → body (suc f) depth t d ≡ scalar t d
  unfolding parse
  body_scalar t h =
      let lo : in_range 0xd0 0xdf t ≡ false = ground arith in
      let hi : in_range 0xe0 0xef t ≡ false = ground arith in rw (lo, hi)

  pub body_array :
      (n : ℕ) (vs : Items) (d1 : Decoder)
      → n ≤ 15
      → items f depth n 0 d ≡ ok (vs, d1)
      → body (suc f) depth (0xd0 + n) d ≡ ok (array vs, d1)
  unfolding parse
  body_array n vs d1 h p =
      let lo : in_range 0xd0 0xdf (0xd0 + n) ≡ true = ground arith in
      let m : (0xd0 + n) % 16 ≡ n = omega arith in rw (lo, m, p)

  pub body_dict :
      (n : ℕ) (ps : Pairs) (d1 : Decoder)
      → n ≤ 15
      → pairs f depth n 0 d ≡ ok (ps, d1)
      → body (suc f) depth (0xe0 + n) d ≡ ok (dict ps, d1)
  unfolding parse
  body_dict n ps d1 h p =
      let no : in_range 0xd0 0xdf (0xe0 + n) ≡ false = ground arith in
      let lo : in_range 0xe0 0xef (0xe0 + n) ≡ true = ground arith in
      let m : (0xe0 + n) % 16 ≡ n = omega arith in rw (no, lo, m, p)

  pub items_step :
      (n done : ℕ)
      → items (suc f) depth n done d ≡ elim (closes n done d) [
        | some d' ↦ ok (nil, d')
        | none ↦
            (parse f (depth + 1) >>= λ v. (items f depth n (done + 1) >>= λ vs. pure (cons v vs))) d
      ]
  unfolding parse
  items_step n done = refl

  pub pairs_step :
      (n done : ℕ)
      → pairs (suc f) depth n done d ≡ elim (closes n done d) [
        | some d' ↦ ok (end, d')
        | none ↦
            (parse f (depth + 1) >>= λ k.
            (parse f (depth + 1) >>= λ v.
            (pairs f depth n (done + 1) >>= λ ps. pure (pair k v ps))))
              d
      ]
  unfolding parse
  pairs_step n done = refl

  pub items_done :
      (n done : ℕ) (d1 : Decoder)
      → closes n done d ≡ some d1
      → items (suc f) depth n done d ≡ ok (nil, d1)
  items_done n done d1 p = rw (items_step n done, p)

  pub items_next :
      (n done : ℕ) (v : Value) (vs : Items) (d1 d2 : Decoder)
      → closes n done d ≡ none
      → parse f (depth + 1) d ≡ ok (v, d1)
      → items f depth n (done + 1) d1 ≡ ok (vs, d2)
      → items (suc f) depth n done d ≡ ok (cons v vs, d2)
  items_next n done v vs d1 d2 c p q = rw (items_step n done, c) (ground (arith, p, q))

  pub pairs_done :
      (n done : ℕ) (d1 : Decoder)
      → closes n done d ≡ some d1
      → pairs (suc f) depth n done d ≡ ok (end, d1)
  pairs_done n done d1 p = rw (pairs_step n done, p)

  pub pairs_next :
      (n done : ℕ) (k v : Value) (ps : Pairs) (d1 d2 d3 : Decoder)
      → closes n done d ≡ none
      → parse f (depth + 1) d ≡ ok (k, d1)
      → parse f (depth + 1) d1 ≡ ok (v, d2)
      → pairs f depth n (done + 1) d2 ≡ ok (ps, d3)
      → pairs (suc f) depth n done d ≡ ok (pair k v ps, d3)
  pairs_next n done k v ps d1 d2 d3 c p q r = rw (pairs_step n done, c) (ground (arith, p, q, r))
