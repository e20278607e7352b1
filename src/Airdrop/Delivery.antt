-- ===== src/Airdrop/Delivery.antt =====
-- src/airdrop/outgoing.rs, src/airdrop/storage.rs: from the files that the user selects to the receiver's staging directory.
use adhoc_cross_device_conne.Prelude.{
  ℕ, ◌≤◌, ◌<◌, ◌≡◌, refl, sym, ap, ◌∙◌, Bool, true, false, not, leb, ◌&&◌, List, [], ◌∷◌, ◌++◌,
  Option, none, some, ltb, length, take, bytes_eq, append-nil, All, arith, Bool-cases, inl, inr,
  in_range,
}
use adhoc_cross_device_conne.Prelude.Bytes.{codes}
use adhoc_cross_device_conne.Prelude.Chunks.{chunks}
use adhoc_cross_device_conne.Prelude.Result.{ok, ensure, ◌>>=◌, ◌>>◌, >>=-eq-ok, ok-injective}
use adhoc_cross_device_conne.Airdrop.Paths.{Name}
use adhoc_cross_device_conne.Airdrop.Cpio.{no_files}
use adhoc_cross_device_conne.Airdrop.Staging.{FileSystem, at, nothing_saved, max_transfer}
use adhoc_cross_device_conne.Airdrop.Extract.{max_entries, trailer_name, extract}
use adhoc_cross_device_conne.Airdrop.Outgoing.{
  Node, file, folder, special, Children, nil, cons, header, utf8_name, filename, before, insert,
  sorted, sort_by_key, Archive, add, Item, Metadata, contains, duplicate_names, item_count,
  archive_too_large, add_items, archive_items, dot_slash,
}
use adhoc_cross_device_conne.Airdrop.DvZip.{
  Flate, IsLawful, decoded, block_length, write_blocks, prepare,
}
use adhoc_cross_device_conne.Airdrop.Listing.{
  Listed, written, trailer, IsSendable, receive_each, extract-written,
}
use adhoc_cross_device_conne.Airdrop.SentTree.{
  is_portable, all_portable, children_portable, name_of, listing, Adds, Adds-nil, Adds-append,
  IsSent, filename-IsSafe, header_inv, add-Adds,
}
use adhoc_cross_device_conne.Airdrop.Blocks.{decoded-write_blocks}

abbrev pub is_item_portable : Item → Bool
is_item_portable i = elim i.base [
  | none ↦ true
  | some base ↦ is_portable base && all_portable i.node
]

abbrev pub items_portable : List Item → Bool
items_portable [] = true
items_portable (i ∷ items) = is_item_portable i && items_portable items

abbrev pub item_name : Item → Name
item_name i = elim i.base [ none ↦ [] | some base ↦ name_of base ]

-- The files and folders of the items, in the order of the archive.
abbrev pub listing_items : List Item → List Listed
listing_items [] = []
listing_items (i ∷ items) = listing (item_name i ∷ []) (sorted i.node) ++ listing_items items

insert-portable :
    (base : List ℕ) (node : Node) (cs : Children)
    → is_portable base ≡ true
    → all_portable node ≡ true
    → children_portable cs ≡ true
    → children_portable (insert base node cs) ≡ true
unfolding insert
insert-portable base node nil h k l = ground arith
insert-portable base node (cons b n cs) h k l = elim (Bool-cases (before base b)) [
  | inl e ↦ rw e (ground arith)
  | inr e ↦
      let rest : children_portable cs ≡ true = ground arith in
      let ih = insert-portable base node cs h k rest in rw e (ground arith)
]

mutual
  unfolding sorted

  sorted-portable : (node : Node) → all_portable node ≡ true → all_portable (sorted node) ≡ true
  sorted-portable (file contents) h = refl
  sorted-portable (folder cs) h = sort_by_key-portable cs h
  sorted-portable special h = refl

  sort_by_key-portable :
      (cs : Children) → children_portable cs ≡ true → children_portable (sort_by_key cs) ≡ true
  sort_by_key-portable nil h = refl
  sort_by_key-portable (cons base node cs) h =
      insert-portable base (sorted node) (sort_by_key cs) (ground arith)
        (sorted-portable node (ground arith)) (sort_by_key-portable cs (ground arith))

item-IsSent :
    (base : List ℕ) (name : Name)
    → filename (some base) ≡ ok name
    → is_portable base ≡ true
    → IsSent (name ∷ []) × (name_of base ≡ name)
item-IsSent base name h k =
    let (safe, scalars, same) = filename-IsSafe base name h k in
    (record { has_path = λ e. cc; path_safe = (safe, tt); path_scalar = scalars }, same)

filename-none : (name : Name) → filename none ≡ ok name → ⊥
unfolding filename utf8_name
filename-none name h = cc

-- What an item's name leads to, if the sender accepts it.
item_base-IsSent :
    (base : Option (List ℕ)) (node : Node) (name : Name)
    → filename base ≡ ok name
    → is_item_portable (record { base = base; node = node }) ≡ true
    → IsSent (name ∷ [])
      × (item_name (record { base = base; node = node }) ≡ name)
      × (all_portable node ≡ true)
item_base-IsSent none node name h k = absurd (filename-none name h)
item_base-IsSent (some base) node name h k =
    let (sent, same) = item-IsSent base name h (ground arith) in (sent, same, ground arith)

add_items-Adds :
    (items : List Item) (names : List Name) (a a' : Archive) (m : List Metadata)
    → items_portable items ≡ true
    → a.count < max_entries
    → add_items items names a ≡ ok (m, a')
    → Adds (listing_items items) a a'
unfolding add_items
add_items-Adds [] names a a' m h small e =
    let same : a ≡ a' = ap (λ (r : List Metadata × Archive). r.1) (ok-injective e) in
    rw (sym same) (Adds-nil a small)
add_items-Adds (i ∷ items) names a a' m h small e =
    let (name, f, g) = >>=-eq-ok (filename i.base) _ e in
    let (u, fresh, k) = >>=-eq-ok (ensure (not (contains names name)) duplicate_names) _ g in
    let (mid, added, l) = >>=-eq-ok (add (sorted i.node) (dot_slash name) 0 a) _ k in
    let ((m', last), rest, same) = >>=-eq-ok (add_items items (name ∷ names) mid) _ l in
    let (sent, named, portable) = item_base-IsSent i.base i.node name f (ground arith) in
    let first : Adds (listing (name ∷ []) (sorted i.node)) a mid =
      add-Adds (sorted i.node) (name ∷ []) 0 a mid sent (sorted-portable i.node portable) added in
    let last_same : last ≡ a' = ap (λ (r : List Metadata × Archive). r.1) (ok-injective same) in
    let more = add_items-Adds items (name ∷ names) mid last m' (ground arith) first.within rest in
    rw (named, sym last_same)
      (Adds-append (listing (name ∷ []) (sorted i.node)) (listing_items items) a mid last first
        more)

archive_items-written :
    (items : List Item) (m : List Metadata) (cpio : List ℕ)
    → items_portable items ≡ true
    → archive_items items ≡ ok (m, cpio)
    → (cpio ≡ written 0 (listing_items items) ++ (trailer ++ []))
      × All IsSendable (listing_items items)
      × (length (listing_items items) < max_entries)
unfolding archive_items
archive_items-written items m cpio h e =
    let start : Archive = record { out = []; count = 0; total = 0 } in
    let (u, bounded, f) = >>=-eq-ok (ensure (in_range 1 4096 (length items)) item_count) _ e in
    let ((m', a), added, g) = >>=-eq-ok (add_items items [] start) _ f in
    let (end, k, same) = >>=-eq-ok (header trailer_name 0 0 0) _ g in
    let (fits, end_same) = header_inv trailer_name 0 0 0 end k in
    let adds = add_items-Adds items [] start a m' h (omega arith) added in
    let out_same : a.out ++ end ≡ cpio =
      ap (λ (r : List Metadata × List ℕ). r.1) (ok-injective same) in
    (
      sym out_same ∙ rw (adds.written_out, end_same, append-nil trailer) refl,
      adds.sendable,
      omega (arith, adds.counted, adds.within),
    )

-- Of items whose names the receiver takes, the archive that the sender prepares is decoded by the receiver, if it does not
-- begin with the two bytes of gzip and has at most 32 GiB before compression, and extracting it does for each of the items' files and folders in turn what its path
-- and contents call for, and then needs at least one file, failing as the first of these that fails.
pub extract-prepare :
    (z : Flate) (lawful : IsLawful z) (fs : FileSystem) (staging : fs.Dir) (items : List Item)
    (m : List Metadata) (archive : List ℕ)
    → items_portable items ≡ true
    → prepare z items ≡ ok (m, archive)
    → bytes_eq (take 2 archive) (31 ∷ 139 ∷ []) ≡ false
    → length (written 0 (listing_items items) ++ trailer) ≤ max_transfer
    → (at staging (decoded z (codes "application/x-dvzip") archive) >>= λ cpio.
        extract fs staging cpio)
      ≡ (receive_each fs (listing_items items) (nothing_saved staging) >>= λ s.
          (ensure (ltb 0 s.files) (no_files, s.staging) >> ok s))
unfolding prepare
extract-prepare z lawful fs staging items m archive h e plain small =
    let ((m', cpio), archived, f) = >>=-eq-ok (archive_items items) _ e in
    let (out, blocks, g) = >>=-eq-ok (write_blocks z (chunks block_length cpio)) _ f in
    let (u, bounded, same) =
      >>=-eq-ok (ensure (leb (length out) max_transfer) archive_too_large) _ g in
    let out_same : out ≡ archive = ap (λ (r : List Metadata × List ℕ). r.1) (ok-injective same) in
    let (cpio_same, sendable, within) = archive_items-written items m' cpio h archived in
    let whole : cpio ≡ written 0 (listing_items items) ++ trailer =
      cpio_same ∙ rw (append-nil trailer) refl in
    let read : decoded z (codes "application/x-dvzip") out ≡ ok cpio =
      decoded-write_blocks z lawful cpio out blocks (rw out_same plain) (rw whole small) in
    rw (sym out_same, read, cpio_same)
      (extract-written fs (listing_items items) [] staging sendable within)
