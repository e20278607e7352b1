-- ===== src/Airdrop/SentTree.antt =====
-- src/airdrop/outgoing.rs: the archive of a tree is the list of its files and folders.
use adhoc_cross_device_conne.Prelude.{
  ℕ, suc, ◌+◌, ◌-◌, ◌≤◌, ◌<◌, ◌^◌, ◌≡◌, ◌≢◌, refl, sym, ap, ◌∙◌, Bool, true, false, not, ◌&&◌, List,
  [], ◌∷◌, ◌++◌, none, some, ltb, leb, leb→le, ltb→lt, bytes_eq, length, length-append,
  append_assoc, append-nil, All, All-append, arith, inl,
}
use adhoc_cross_device_conne.Prelude.Bytes.{codes}
use adhoc_cross_device_conne.Prelude.Scalars.{IsScalar, from_utf8}
use adhoc_cross_device_conne.Prelude.ScalarValues.{from_utf8-IsScalar}
use adhoc_cross_device_conne.Prelude.Result.{
  ok, ensure, context, >>=-eq-ok, context-eq-ok, ensure-true, ok-injective,
}
use adhoc_cross_device_conne.Airdrop.Paths.{
  Name, len, slash, has_forbidden, has_backslash, is_skipped, is_allowed,
}
use adhoc_cross_device_conne.Airdrop.SafeNames.{IsSafe, tested-IsSafe, has_slash}
use adhoc_cross_device_conne.Airdrop.PathSafety.{join}
use adhoc_cross_device_conne.Airdrop.Staging.{max_transfer}
use adhoc_cross_device_conne.Airdrop.Extract.{max_entries}
use adhoc_cross_device_conne.Airdrop.Outgoing.{
  Node, file, folder, special, Children, nil, cons, header_bytes, header, file_too_large, utf8_name,
  filename, has_unsupported, unsupported_filename, not_utf8, too_deep, path_too_long,
  too_many_files, transfer_too_large, Archive, begin_entry, add_file, add, add_children, dot_slash,
}
use adhoc_cross_device_conne.Airdrop.Listing.{
  Listed, directory, regular, path_of, contents_of, written_entry, written, IsSendable,
}

abbrev is_nonempty : Name → Bool
is_nonempty [] = false
is_nonempty (c ∷ cs) = true

-- The name of a file, as the file system allows it (some byte, and no slash), if the receiver takes it too: it shows no
-- character that the receiver forbids. What is no UTF-8 is refused by the sender.
abbrev pub is_portable : List ℕ → Bool
is_portable base = elim (from_utf8 base) [
  | none ↦ true
  | some b ↦ is_nonempty b && not (has_slash b) && not (has_forbidden b)
]

abbrev mutual
  pub all_portable : Node → Bool
  all_portable (file contents) = true
  all_portable (folder cs) = children_portable cs
  all_portable special = true

  pub children_portable : Children → Bool
  children_portable nil = true
  children_portable (cons base node cs) =
      is_portable base && (all_portable node && children_portable cs)

abbrev pub name_of : List ℕ → Name
name_of base = elim (from_utf8 base) [ none ↦ [] | some b ↦ b ]

-- The files and folders of a tree at a path, each folder before what it holds.
abbrev mutual
  pub listing : List Name → Node → List Listed
  listing path (file contents) = regular path contents ∷ []
  listing path (folder cs) = directory path ∷ listing_children path cs
  listing path special = []

  pub listing_children : List Name → Children → List Listed
  listing_children path nil = []
  listing_children path (cons base node cs) =
      listing (path ++ name_of base ∷ []) node ++ listing_children path cs

has_unsupported-backslash : (b : Name) → has_unsupported b ≡ false → has_backslash b ≡ false
unfolding has_unsupported
has_unsupported-backslash [] h = refl
has_unsupported-backslash (c ∷ cs) h =
    (let rest : has_unsupported cs ≡ false = ground arith in
      let r = has_unsupported-backslash cs rest in ground arith)

is_skipped-nonempty :
    (b : Name) → is_nonempty b ≡ true → bytes_eq b (codes ".") ≡ false → is_skipped b ≡ false
unfolding is_skipped
is_skipped-nonempty [] h k = cc
is_skipped-nonempty (c ∷ cs) h k = k

-- What the sender asks of a name.
abbrev accepted : Name → Bool
accepted name =
    leb (len name) 255
    && not (has_unsupported name)
    && not (bytes_eq name (codes "."))
    && not (bytes_eq name (codes ".."))

filename_inv :
    (base : List ℕ) (b : Name)
    → filename (some base) ≡ ok b
    → (from_utf8 base ≡ some b) × (accepted b ≡ true)
unfolding filename utf8_name
filename_inv base b h =
    let (name, e, f) = >>=-eq-ok (context (from_utf8 base) not_utf8) _ h in
    let (u, g, same) = >>=-eq-ok (ensure (accepted name) unsupported_filename) _ f in
    let same' : name ≡ b = cc in
    let decoded = context-eq-ok (from_utf8 base) not_utf8 e in
    let tests = ensure-true (accepted name) unsupported_filename g in
    (rw same' at decoded, rw same' at tests)

-- A file's name that the sender accepts, and whose characters the receiver takes, is a safe component.
pub filename-IsSafe :
    (base : List ℕ) (b : Name)
    → filename (some base) ≡ ok b
    → is_portable base ≡ true
    → IsSafe b × All IsScalar b × (name_of base ≡ b)
unfolding is_allowed
filename-IsSafe base b h k =
    let (e, tests) = filename_inv base b h in
    let k' : is_nonempty b && not (has_slash b) && not (has_forbidden b) ≡ true =
      rw (is_portable, e) at k in
    (
      tested-IsSafe b (is_skipped-nonempty b (ground arith) (ground arith)) (ground arith)
          (ground arith) (has_unsupported-backslash b (ground arith)),
      from_utf8-IsScalar base b e,
      rw (name_of, e) refl,
    )

join-snoc :
    (path : List Name) (b : Name) → path ≢ [] → join (path ++ b ∷ []) ≡ join path ++ slash ∷ b
join-snoc [] b h = absurd (h refl)
join-snoc (p ∷ []) b h = refl
join-snoc (p ∷ q ∷ ps) b h =
    ap (λ (t : Name). p ++ slash ∷ t) (join-snoc (q ∷ ps) b λ z. cc)
    ∙ sym (append_assoc p (slash ∷ join (q ∷ ps)) (slash ∷ b))

written-append :
    (count : ℕ) (xs ys : List Listed)
    → written count (xs ++ ys) ≡ written count xs ++ written (count + length xs) ys
written-append count [] ys = (let z : count + 0 ≡ count = omega arith in rw z refl)
written-append count (x ∷ xs) ys =
    let one : count + suc (length xs) ≡ suc count + length xs = omega arith in
    rw (one, written-append (suc count) xs ys)
      (sym (
        append_assoc (written_entry (suc count) x) (written (suc count) xs)
          (written (suc count + length xs) ys)))

-- What the sender added to an archive are these entries, within the limit on their number.
pub record Adds (es : List Listed) (a a' : Archive) : Type 0 where
  pub written_out : a'.out ≡ a.out ++ written a.count es
  pub counted : a'.count ≡ a.count + length es
  pub sendable : All IsSendable es
  pub within : a'.count < max_entries

-- A path as the sender has it: of safe components, and of scalar values.
pub record IsSent (path : List Name) : Type 0 where
  pub has_path : path ≢ []
  pub path_safe : All IsSafe path
  pub path_scalar : All IsScalar (join path)

begin_entry_inv :
    (depth : ℕ) (name : Name) (a : Archive) (n : ℕ)
    → begin_entry depth name a ≡ ok n
    → (n ≡ suc a.count) × (len name ≤ 4095) × (suc a.count < max_entries)
unfolding begin_entry
begin_entry_inv depth name a n h =
    let (u, e, f) = >>=-eq-ok (ensure (leb depth 64) too_deep) _ h in
    let (v, g, k) = >>=-eq-ok (ensure (leb (len name) 4095) path_too_long) _ f in
    let (w, i, same) = >>=-eq-ok (ensure (ltb (suc a.count) max_entries) too_many_files) _ k in
    (
      cc,
      leb→le (len name) 4095 (ensure-true (leb (len name) 4095) path_too_long g),
      ltb→lt (suc a.count) max_entries
          (ensure-true (ltb (suc a.count) max_entries) too_many_files i),
    )

pub header_inv :
    (name : Name) (size mode ino : ℕ) (h : List ℕ)
    → header name size mode ino ≡ ok h
    → (size < 8 ^ 11) × (h ≡ header_bytes name size mode ino)
unfolding header
header_inv name size mode ino h e =
    let (u, f, same) = >>=-eq-ok (ensure (ltb size (8 ^ 11)) file_too_large) _ e in
    (ltb→lt size (8 ^ 11) (ensure-true (ltb size (8 ^ 11)) file_too_large f), cc)

add_file_inv :
    (contents : List ℕ) (name : Name) (count : ℕ) (a a' : Archive)
    → add_file contents name count a ≡ ok a'
    → (length contents < 8 ^ 11)
      × (a'.out ≡ a.out ++ header_bytes name (length contents) 0x8180 count ++ contents)
      × (a'.count ≡ count)
unfolding add_file
add_file_inv contents name count a a' e =
    let (u, f, g) =
      >>=-eq-ok (ensure (leb (length contents) (max_transfer - a.total)) transfer_too_large) _ e in
    let (h, k, same) = >>=-eq-ok (header name (length contents) 0x8180 count) _ g in
    let (fits, bytes) = header_inv name (length contents) 0x8180 count h k in
    let out_same : a.out ++ h ++ contents ≡ a'.out =
      ap (λ (x : Archive). x.out) (ok-injective same) in
    let count_same : count ≡ a'.count = ap (λ (x : Archive). x.count) (ok-injective same) in
    (fits, sym out_same ∙ rw bytes refl, sym count_same)

pub Adds-nil : (a : Archive) → a.count < max_entries → Adds [] a a
Adds-nil a small = record {
  written_out = sym (append-nil a.out);
  counted = omega arith;
  sendable = tt;
  within = small;
}

Adds-one :
    (e : Listed) (a a' : Archive)
    → IsSendable e
    → a'.out ≡ a.out ++ written_entry (suc a.count) e
    → a'.count ≡ suc a.count
    → suc a.count < max_entries
    → Adds (e ∷ []) a a'
Adds-one e a a' h out count small = record {
  written_out = out ∙ rw (append-nil (written_entry (suc a.count) e)) refl;
  counted = omega arith;
  sendable = (h, tt);
  within = rw count small;
}

pub Adds-append :
    (xs ys : List Listed) (a b c : Archive) → Adds xs a b → Adds ys b c → Adds (xs ++ ys) a c
Adds-append xs ys a b c h k = record {
  written_out =
      k.written_out
      ∙ rw (h.written_out, h.counted, written-append a.count xs ys)
          (append_assoc a.out (written a.count xs) (written (a.count + length xs) ys));
  counted = omega (arith, h.counted, k.counted, length-append xs ys);
  sendable = All-append IsSendable xs ys h.sendable k.sendable;
  within = k.within;
}

snoc_nonempty : (path : List Name) (b : Name) → path ++ b ∷ [] ≢ []
snoc_nonempty [] b e = cc
snoc_nonempty (p ∷ ps) b e = cc

-- An entry at a path that the sender has.
sendable :
    (path : List Name) (e : Listed)
    → path_of e ≡ path
    → IsSent path
    → len (dot_slash (join path)) ≤ 4095
    → length (contents_of e) < 8 ^ 11
    → IsSendable e
sendable path e same h short fits = record {
  has_path = rw same h.has_path;
  path_safe = rw same h.path_safe;
  name_scalar = (inl (omega arith), (inl (omega arith), rw same h.path_scalar));
  name_short = rw same short;
  size_fits = fits;
}

IsSent-snoc :
    (path : List Name) (b : Name)
    → IsSent path
    → IsSafe b
    → All IsScalar b
    → IsSent (path ++ b ∷ [])
IsSent-snoc path b h k l = record {
  has_path = snoc_nonempty path b;
  path_safe = All-append IsSafe path (b ∷ []) h.path_safe (k, tt);
  path_scalar =
      rw (join-snoc path b h.has_path)
        (All-append IsScalar (join path) (slash ∷ b) h.path_scalar (inl (omega arith), l));
}

mutual
  unfolding add

  pub add-Adds :
      (node : Node) (path : List Name) (depth : ℕ) (a a' : Archive)
      → IsSent path
      → all_portable node ≡ true
      → add node (dot_slash (join path)) depth a ≡ ok a'
      → Adds (listing path node) a a'
  add-Adds special path depth a a' h k e =
      let (n, f, g) = >>=-eq-ok (begin_entry depth (dot_slash (join path)) a) _ e in absurd cc
  add-Adds (file contents) path depth a a' h k e =
      let (n, f, g) = >>=-eq-ok (begin_entry depth (dot_slash (join path)) a) _ e in
      let (count, short, small) = begin_entry_inv depth (dot_slash (join path)) a n f in
      let (fits, out, same) = add_file_inv contents (dot_slash (join path)) n a a' g in
      Adds-one (regular path contents) a a'
        (sendable path (regular path contents) refl h short fits)
        (out
          ∙ rw count (
              append_assoc a.out
                (header_bytes (dot_slash (join path)) (length contents) 0x8180 (suc a.count))
                contents))
        (same ∙ count) small
  add-Adds (folder cs) path depth a a' h k e =
      let name = dot_slash (join path) in
      let (n, f, g) = >>=-eq-ok (begin_entry depth name a) _ e in
      let (count, short, small) = begin_entry_inv depth name a n f in
      let (bytes, i, j) = >>=-eq-ok (header name 0 0x41c0 n) _ g in
      let (fits, same) = header_inv name 0 0x41c0 n bytes i in
      let b : Archive = record { out = a.out ++ bytes; count = n; total = a.total } in
      let first : Adds (directory path ∷ []) a b =
        Adds-one (directory path) a b (sendable path (directory path) refl h short fits)
          (rw (same, count, append-nil (header_bytes name 0 0x41c0 (suc a.count))) refl) count
          small in
      let rest : Adds (listing_children path cs) b a' =
        children-Adds cs path (suc depth) b a' h k (rw count small) j in
      Adds-append (directory path ∷ []) (listing_children path cs) a b a' first rest

  children-Adds :
      (cs : Children) (path : List Name) (depth : ℕ) (a a' : Archive)
      → IsSent path
      → children_portable cs ≡ true
      → a.count < max_entries
      → add_children cs (dot_slash (join path)) depth a ≡ ok a'
      → Adds (listing_children path cs) a a'
  children-Adds nil path depth a a' h k small e =
      (let same : a ≡ a' = ok-injective e in rw (sym same) (Adds-nil a small))
  children-Adds (cons base node cs) path depth a a' h k small e =
      let (b, f, g) = >>=-eq-ok (filename (some base)) _ e in
      let (safe, scalars, same) = filename-IsSafe base b f (ground arith) in
      let (mid, i, j) = >>=-eq-ok (add node (dot_slash (join path) ++ slash ∷ b) depth a) _ g in
      let name_eq : dot_slash (join path) ++ slash ∷ b ≡ dot_slash (join (path ++ b ∷ [])) =
        ap dot_slash (sym (join-snoc path b h.has_path)) in
      let i' : add node (dot_slash (join (path ++ b ∷ []))) depth a ≡ ok mid = rw name_eq at i in
      let first =
        add-Adds node (path ++ b ∷ []) depth a mid (IsSent-snoc path b h safe scalars)
          (ground arith) i' in
      let rest = children-Adds cs path depth mid a' h (ground arith) first.within j in
      rw same
        (Adds-append (listing (path ++ b ∷ []) node) (listing_children path cs) a mid a' first rest)
