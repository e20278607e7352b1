-- ===== src/Opack/Members.antt =====
-- `parse` of src/opack.rs on a leaf and on a container, from what it does on the members.
use adhoc_cross_device_conne.Prelude.{
  ℕ, zero, suc, ◌+◌, ◌-◌, ◌*◌, ◌≤◌, ◌≡◌, ap, List, ◌∷◌, ◌++◌, arith, append_assoc, ◌∙◌,
}
use adhoc_cross_device_conne.Prelude.Result.{ok}
use adhoc_cross_device_conne.Opack.{Value, Items, nil, cons, Pairs, end, pair}
use adhoc_cross_device_conne.Opack.Encode.{
  encode, encode_items, encode_pairs, count_items, count_pairs,
}
use adhoc_cross_device_conne.Opack.Decode.{parse, body, items, pairs}
use adhoc_cross_device_conne.Opack.Measure.{
  nodes, nodes_items, nodes_pairs, cost, cost_items, cost_pairs,
}
use adhoc_cross_device_conne.Opack.Steps.{at, enter_lem, remember_lem}
use adhoc_cross_device_conne.Opack.Unroll.{
  parse_by, body_scalar, items_done, items_next, pairs_done, pairs_next,
}
use adhoc_cross_device_conne.Opack.Leaf.{IsLeaf}
use adhoc_cross_device_conne.Opack.Framing.{ClosesWith, closes_now, Starts, Framed, closes_member}

-- What a part of a value needs of the decoder: `k` fuel, `h` levels, `m` objects, `x` budget,
-- and `l` bytes of input.
pub record Room (k h m x l f depth c b : ℕ) : Type 0 where
  pub fuel : k ≤ f
  pub levels : h + depth ≤ 64
  pub objects : c + m ≤ 65536
  pub budget : x ≤ b
  pub size : l ≤ 4 * 1024 * 1024

abbrev pub Reads : Value → ℕ → ℕ → List ℕ → List Value → ℕ → ℕ → Type 0
Reads v f depth r o c b =
    (o' : List Value) × (parse f depth (at (encode v ++ r) o c b)
      ≡ ok (v, at r o' (c + nodes v) (b - cost v)))

-- `parse` of a leaf, from its form.
pub parse_leaf :
    (e : List ℕ) (v : Value) (x : ℕ) (l : IsLeaf e v x) (f depth : ℕ) (r : List ℕ) (o : List Value)
    (c b : ℕ)
    → Room 2 0 1 (32 + x) 0 f depth c b
    → (o' : List Value) × (parse f depth (at (e ++ r) o c b)
        ≡ ok (v, at r o' (c + 1) (b - (32 + x))))
parse_leaf e v x l zero depth r o c b h = absurd (omega arith)
parse_leaf e v x l (suc zero) depth r o c b h = absurd (omega arith)
parse_leaf e v x l (suc (suc f)) depth r o c b h =
    let left : b - 32 - x ≡ b - (32 + x) = omega arith in
    let (o', w) = remember_lem l.tag v r o (c + 1) (b - (32 + x)) in
    (
      o',
      rw l.encoded (
          parse_by (suc f) depth (at (l.tag ∷ (l.payload ++ r)) o c b) l.tag v v
            (at (l.payload ++ r) o (c + 1) (b - 32)) (at r o (c + 1) (b - (32 + x)))
            (at r o' (c + 1) (b - (32 + x)))
            (enter_lem l.tag (l.payload ++ r) o c b depth (omega arith) (omega arith) (omega arith))
            (body_scalar f depth _ l.tag l.low
              ∙ l.read r o (c + 1) (b - 32) (omega arith)
              ∙ ap (λ (k : ℕ). ok (v, at r o (c + 1) k)) left)
            w),
    )

-- `parse` of a container, from its members.
pub parse_container :
    (base n : ℕ) (p e : List ℕ) (v : Value) (fr : Framed base n p e) (f depth m x : ℕ) (r : List ℕ)
    (o o' : List Value) (c b : ℕ)
    → Room 2 0 (suc m) (32 + x) 0 (suc (suc f)) depth c b
    → body (suc f) depth (base + fr.k) (at (p ++ (fr.closing ++ r)) o (c + 1) (b - 32))
      ≡ ok (v, at r o' (c + 1 + m) (b - 32 - x))
    → (o'' : List Value) × (parse (suc (suc f)) depth (at (e ++ r) o c b)
        ≡ ok (v, at r o'' (c + suc m) (b - (32 + x))))
parse_container base n p e v fr f depth m x r o o' c b h q =
    let cs : c + 1 + m ≡ c + suc m = omega arith in
    let bs : b - 32 - x ≡ b - (32 + x) = omega arith in
    let (o'', w) = remember_lem (base + fr.k) v r o' (c + suc m) (b - (32 + x)) in
    let q' : body (suc f) depth (base + fr.k) (at (p ++ (fr.closing ++ r)) o (c + 1) (b - 32))
        ≡ ok (v, at r o' (c + suc m) (b - (32 + x))) =
      rw (cs, bs) at q in
    (
      o'',
      rw (fr.framed, append_assoc)
          (parse_by (suc f) depth _ (base + fr.k) v v _ _ _
            (enter_lem (base + fr.k) (p ++ (fr.closing ++ r)) o c b depth (omega arith)
              (omega arith) (omega arith))
            q' w),
    )

pub items_nil :
    (f depth n done : ℕ) (e r : List ℕ) (o : List Value) (c b : ℕ)
    → ClosesWith n done e
    → items (suc f) depth n done (at (e ++ r) o c b) ≡ ok (nil, at r o (c + 0) (b - 0))
items_nil f depth n done e r o c b k =
    let ec : c + 0 ≡ c = omega arith in
    let eb : b - 0 ≡ b = omega arith in
    rw (ec, eb) (items_done f depth _ n done _ (closes_now n done e r o c b k))

pub pairs_end :
    (f depth n done : ℕ) (e r : List ℕ) (o : List Value) (c b : ℕ)
    → ClosesWith n done e
    → pairs (suc f) depth n done (at (e ++ r) o c b) ≡ ok (end, at r o (c + 0) (b - 0))
pairs_end f depth n done e r o c b k =
    let ec : c + 0 ≡ c = omega arith in
    let eb : b - 0 ≡ b = omega arith in
    rw (ec, eb) (pairs_done f depth _ n done _ (closes_now n done e r o c b k))

pub items_cons :
    (v : Value) (vs : Items) (f depth n done total : ℕ) (e r : List ℕ) (o o1 o2 : List Value)
    (c b : ℕ)
    → Starts (encode v)
    → total ≡ done + suc (count_items vs)
    → ClosesWith n total e
    → parse f (depth + 1) (at (encode v ++ (encode_items vs ++ (e ++ r))) o c b)
      ≡ ok (v, at (encode_items vs ++ (e ++ r)) o1 (c + nodes v) (b - cost v))
    → items f depth n (done + 1) (at (encode_items vs ++ (e ++ r)) o1 (c + nodes v) (b - cost v))
      ≡ ok (vs, at r o2 (c + nodes v + nodes_items vs) (b - cost v - cost_items vs))
    → items (suc f) depth n done (at ((encode v ++ encode_items vs) ++ (e ++ r)) o c b)
      ≡ ok (cons v vs, at r o2 (c + (nodes v + nodes_items vs)) (b - (cost v + cost_items vs)))
items_cons v vs f depth n done total e r o o1 o2 c b s t k p q =
    let ec : c + (nodes v + nodes_items vs) ≡ c + nodes v + nodes_items vs = omega arith in
    let eb : b - (cost v + cost_items vs) ≡ b - cost v - cost_items vs = omega arith in
    rw (append_assoc, ec, eb)
      (items_next f depth _ n done v vs _ _
        (closes_member _ _ n done total (count_items vs) e o c b s t k) p q)

pub pairs_cons :
    (x v : Value) (ps : Pairs) (f depth n done total : ℕ) (e r : List ℕ) (o o1 o2 o3 : List Value)
    (c b : ℕ)
    → Starts (encode x)
    → total ≡ done + suc (count_pairs ps)
    → ClosesWith n total e
    → parse f (depth + 1) (at (encode x ++ (encode v ++ (encode_pairs ps ++ (e ++ r)))) o c b)
      ≡ ok (x, at (encode v ++ (encode_pairs ps ++ (e ++ r))) o1 (c + nodes x) (b - cost x))
    → parse f
        (depth + 1)
        (at (encode v ++ (encode_pairs ps ++ (e ++ r))) o1 (c + nodes x) (b - cost x))
      ≡ ok (v, at (encode_pairs ps ++ (e ++ r)) o2 (c + nodes x + nodes v) (b - cost x - cost v))
    → pairs f depth n
        (done + 1)
        (at (encode_pairs ps ++ (e ++ r)) o2 (c + nodes x + nodes v) (b - cost x - cost v))
      ≡ ok (
        ps,
        at r o3 (c + nodes x + nodes v + nodes_pairs ps) (b - cost x - cost v - cost_pairs ps),
      )
    → pairs
        (suc f)
        depth
        n
        done
        (at ((encode x ++ (encode v ++ encode_pairs ps)) ++ (e ++ r)) o c b)
      ≡ ok (
        pair x v ps,
        at r o3 (c + (nodes x + nodes v + nodes_pairs ps)) (b - (cost x + cost v + cost_pairs ps)),
      )
pairs_cons x v ps f depth n done total e r o o1 o2 o3 c b s t k p q q' =
    let ec : c + (nodes x + nodes v + nodes_pairs ps) ≡ c + nodes x + nodes v + nodes_pairs ps =
      omega arith in
    let eb : b - (cost x + cost v + cost_pairs ps) ≡ b - cost x - cost v - cost_pairs ps =
      omega arith in
    let a : (encode x ++ (encode v ++ encode_pairs ps)) ++ (e ++ r)
        ≡ encode x ++ (encode v ++ (encode_pairs ps ++ (e ++ r))) =
      simp append_assoc in
    rw (a, ec, eb)
      (pairs_next f depth _ n done x v ps _ _ _
        (closes_member _ _ n done total (count_pairs ps) e o c b s t k) p q q')
