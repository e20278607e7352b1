-- ===== src/Opack/Framing.antt =====
-- How the encoding of a container begins and ends, and when `closes` of src/opack.rs ends it.
use adhoc_cross_device_conne.Prelude.{
  ℕ, suc, ◌+◌, ◌*◌, ◌%◌, ◌≤◌, ◌<◌, ◌≡◌, ◌≢◌, refl, List, [], ◌∷◌, ◌++◌, inl, inr, ◌⊎◌, some, none,
  ltb, ltb→lt, Bool-cases, length, arith, append-nil,
}
use adhoc_cross_device_conne.Opack.{
  Value, null, float, uuid, time, bool, int, str, bytes, array, dict,
}
use adhoc_cross_device_conne.Opack.Encode.{encode, count_items, count_pairs, frame}
use adhoc_cross_device_conne.Opack.Decode.{closes}
use adhoc_cross_device_conne.Opack.Measure.{IsWellFormed}
use adhoc_cross_device_conne.Opack.Steps.{at}
use adhoc_cross_device_conne.Opack.Leaf.{
  IsLeaf, null_form, float_form, uuid_form, time_form, bool_form, int_form, str_form, bytes_form,
  length-encode_str, length-encode_bytes,
}

-- `e` closes a container with tag count `n` after `total` members.
abbrev pub ClosesWith : ℕ → ℕ → List ℕ → Type 0
ClosesWith n total e = ((n < 15) × (total ≡ n) × (e ≡ [])) ⊎ ((n ≡ 15) × (e ≡ 3 ∷ []))

pub closes_now :
    (n done : ℕ) (e r : List ℕ) (o : List Value) (c b : ℕ)
    → ClosesWith n done e
    → closes n done (at (e ++ r) o c b) ≡ some (at r o c b)
unfolding closes
closes_now n done e r o c b (inl h) = ground (arith, h.2)
closes_now n done e r o c b (inr h) = rw h.1 (ground arith)

pub closes_later :
    (n done k : ℕ) (e : List ℕ) (t : ℕ) (p : List ℕ) (o : List Value) (c b : ℕ)
    → ClosesWith n (done + suc k) e
    → t ≢ 3
    → closes n done (at (t ∷ p) o c b) ≡ none
unfolding closes
closes_later n done k e t p o c b h ne = ground arith

-- No encoding begins with the terminator.
pub record Starts (e : List ℕ) : Type 0 where
  pub first : ℕ
  pub tail : List ℕ
  pub starts : e ≡ first ∷ tail
  pub not_end : first ≢ 3

pub leaf-Starts : (e : List ℕ) (v : Value) (x : ℕ) → IsLeaf e v x → Starts e
leaf-Starts e v x l = record {
  first = l.tag;
  tail = l.payload;
  starts = l.encoded;
  not_end = l.open_end;
}

pub frame-Starts : (base n : ℕ) (p : List ℕ) → 0xd0 ≤ base → Starts (frame base n p)
unfolding frame
frame-Starts base n p h = elim (Bool-cases (ltb n 0x0f)) [
  | inl e ↦ rw e (record { first = base + n % 256; tail = p; starts = refl; not_end = omega arith })
  | inr e ↦
      rw e
        (record { first = base + 0x0f; tail = p ++ 3 ∷ []; starts = refl; not_end = omega arith })
]

pub encode-Starts :
    (v : Value) → IsWellFormed v → length (encode v) ≤ 4 * 1024 * 1024 → Starts (encode v)
unfolding encode
encode-Starts null w h = leaf-Starts _ _ _ null_form
encode-Starts (float x) w h = leaf-Starts _ _ _ (float_form x w)
encode-Starts (uuid x) w h = leaf-Starts _ _ _ (uuid_form x w.1)
encode-Starts (time x) w h = leaf-Starts _ _ _ (time_form x w)
encode-Starts (bool x) w h = leaf-Starts _ _ _ (bool_form x)
encode-Starts (int x) w h = leaf-Starts _ _ _ (int_form x w)
encode-Starts (str x) w h = leaf-Starts _ _ _ (str_form x w.1 (omega (arith, length-encode_str x)))
encode-Starts (bytes x) w h =
    leaf-Starts _ _ _ (bytes_form x (omega (arith, length-encode_bytes x)))
encode-Starts (array x) w h = frame-Starts 0xd0 (count_items x) _ (omega arith)
encode-Starts (dict x) w h = frame-Starts 0xe0 (count_pairs x) _ (omega arith)

-- The tag, the members and the closing bytes of a container.
pub record Framed (base n : ℕ) (p e : List ℕ) : Type 0 where
  pub k : ℕ
  pub k_small : k ≤ 15
  pub closing : List ℕ
  pub closes_at : ClosesWith k n closing
  pub framed : e ≡ (base + k) ∷ (p ++ closing)

pub frame_form : (base n : ℕ) (p : List ℕ) → Framed base n p (frame base n p)
unfolding frame
frame_form base n p = elim (Bool-cases (ltb n 0x0f)) [
  | inl e ↦
      let small : n < 15 = ltb→lt _ _ e in
      let m : n % 256 ≡ n = omega arith in
      rw (e, m)
        (record {
          k = n;
          k_small = omega arith;
          closing = [];
          closes_at = inl (small, refl, refl);
          framed = rw append-nil;
        })
  | inr e ↦ rw e (record {
    k = 15;
    k_small = omega arith;
    closing = 3 ∷ [];
    closes_at = inr (refl, refl);
    framed = refl;
  })
]

-- Input that begins with a member does not close its container.
pub closes_member :
    (x p : List ℕ) (n done total k : ℕ) (e : List ℕ) (o : List Value) (c b : ℕ)
    → Starts x
    → total ≡ done + suc k
    → ClosesWith n total e
    → closes n done (at (x ++ p) o c b) ≡ none
closes_member x p n done total k e o c b s t h =
    rw s.starts (closes_later n done k e s.first (s.tail ++ p) o c b (rw t at h) s.not_end)
