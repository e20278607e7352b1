-- ===== src/Airdrop/Limits.antt =====
-- src/airdrop/storage.rs: what a successful transfer keeps for the clipboard.
use adhoc_cross_device_conne.Prelude.{
  ℕ, ◌+◌, ◌-◌, ◌≤◌, ◌≡◌, refl, sym, ap, ◌∙◌, List, [], ◌∷◌, ◌++◌, leb, leb→le, ◌==◌, ==_iff, length,
  arith, Bool-cases, inl, inr,
}
use adhoc_cross_device_conne.Prelude.Result.{
  Result, ok, err, ensure, ◌>>=◌, ◌>>◌, >>=-eq-ok, ensure-true, ok-injective,
}
use adhoc_cross_device_conne.Airdrop.Paths.{Name}
use adhoc_cross_device_conne.Airdrop.Cpio.{
  IoError, io_result, too_large, directory_payload, truncated_file, truncated_metadata,
  special_file,
}
use adhoc_cross_device_conne.Airdrop.Staging.{
  FileSystem, Failable, at, io_left, Saved, Entry, with_file, with_clipboard_entry, with_staging,
  file_type, file_name, parent, max_transfer, max_clipboard, clipboard_entry, count_size,
  goes_to_clipboard, starts_with_dot_underscore, make_directory, copy_to_clipboard, make_file,
  regular_entry, path_entry,
}
use adhoc_cross_device_conne.Airdrop.Extract.{extract}
use adhoc_cross_device_conne.Airdrop.Steps.{at_inv, Step, stopped, counted, placed, extract-keeps}

-- What a file system documents: a file that was written and synchronised is read back.
pub record IsFaithful (fs : FileSystem) : Type 0 where
  pub reads_back :
      (path : List Name) (contents : List ℕ) (d d' d'' : fs.Dir) (c : List ℕ)
      → fs.write path contents d ≡ ok d'
      → fs.sync_all path d' ≡ ok d''
      → fs.read path d'' ≡ ok c
      → c ≡ contents

io_left_inv : {D A : Type 0} (r : Result (IoError × D) A) (a : A) → io_left r ≡ ok a → r ≡ ok a
io_left_inv (ok x) a h = (let same : x ≡ a = ok-injective h in rw same refl)
io_left_inv (err (e, d)) a h = cc

io_result_inv : {A : Type 0} (r : Result IoError A) (a : A) → io_result r ≡ ok a → r ≡ ok a
unfolding io_result
io_result_inv (ok x) a h = (let same : x ≡ a = ok-injective h in rw same refl)
io_result_inv (err e) a h = cc

-- The bytes of the entries that go to the clipboard.
abbrev pub contents_length : List Entry → ℕ
contents_length [] = 0
contents_length (e ∷ es) = length e.contents + contents_length es

contents_length-snoc :
    (es : List Entry) (e : Entry)
    → contents_length (es ++ e ∷ []) ≡ contents_length es + length e.contents
contents_length-snoc [] e = omega arith
contents_length-snoc (x ∷ es) e = omega (arith, contents_length-snoc es e)

-- What holds while the loop runs.
pub record Limited (D : Type 0) (s : Saved D) : Type 0 where
  pub total_limited : s.total ≤ max_transfer
  pub clipboard_counted : contents_length s.clipboard ≡ s.clipboard_bytes
  pub clipboard_limited : s.clipboard_bytes ≤ max_clipboard

count_size-Limited :
    {D : Type 0} (size : ℕ) (s s' : Saved D)
    → count_size size s ≡ ok s'
    → Limited D s
    → Limited D s'
unfolding count_size
count_size-Limited size s s' e h =
    let (u, f, same) =
      >>=-eq-ok (ensure (leb size (max_transfer - s.total)) (too_large, s.staging)) _ e in
    let fits =
      leb→le size (max_transfer - s.total)
        (ensure-true (leb size (max_transfer - s.total)) (too_large, s.staging) f) in
    rw (sym (ok-injective same)) (record {
      total_limited = omega (arith, h.total_limited);
      clipboard_counted = h.clipboard_counted;
      clipboard_limited = h.clipboard_limited;
    })

module _ (fs : FileSystem) where
  copy_to_clipboard-Limited :
      (size : ℕ) (path : List Name) (contents : List ℕ) (s s' : Saved fs.Dir)
      → ((c : List ℕ) → fs.read path s.staging ≡ ok c → c ≡ contents)
      → length contents ≡ size
      → copy_to_clipboard fs size path s ≡ ok s'
      → Limited fs.Dir s
      → Limited fs.Dir s'
  unfolding copy_to_clipboard goes_to_clipboard
  copy_to_clipboard-Limited size path contents s s' reads len e h =
      elim (Bool-cases (goes_to_clipboard size path s)) [
        | inr g ↦ (let e' : ok s ≡ ok s' = rw g at e in rw (sym (ok-injective e')) h)
        | inl g ↦
            let e' : (at s.staging (io_result (fs.read path s.staging)) >>= λ c.
            ok (with_clipboard_entry path c s))
                ≡ ok s' =
              rw g at e in
            let (c, f, same) = >>=-eq-ok (at s.staging (io_result (fs.read path s.staging))) _ e' in
            let read : c ≡ contents = reads c (
              io_result_inv (fs.read path s.staging) c
                (at_inv s.staging (io_result (fs.read path s.staging)) c f)) in
            let room : s.clipboard_bytes + size ≤ max_clipboard = ground arith in
            rw (sym (ok-injective same)) (record {
              total_limited = h.total_limited;
              clipboard_counted =
                  contents_length-snoc s.clipboard (clipboard_entry path c)
                  ∙ ap (λ (n : ℕ). n + length c) h.clipboard_counted;
              clipboard_limited = rw read (omega arith);
            })
      ]

  -- A file that was made: the directory after each call, and the bytes that came.
  pub record Made (path : List Name) (size : ℕ) (contents : List ℕ) (s s' : Saved fs.Dir)
      : Type 0 where
    pub above : fs.Dir
    pub opened : fs.Dir
    pub filled : fs.Dir
    pub synced : fs.Dir
    pub created_dirs : fs.create_dir_all (parent path) s.staging ≡ ok above
    pub created : fs.create_new path 0x180 above ≡ ok opened
    pub wrote : fs.write path contents opened ≡ ok filled
    pub whole : length contents ≡ size
    pub synchronised : fs.sync_all path filled ≡ ok synced
    pub copied : copy_to_clipboard fs size path (with_file synced s) ≡ ok s'

  make_file-Made :
      (path : List Name) (size : ℕ) (contents : List ℕ) (s s' : Saved fs.Dir)
      → make_file fs path size contents s ≡ ok s'
      → Made path size contents s s'
  unfolding make_file
  make_file-Made path size contents s s' e =
      let (above, f1, e1) = >>=-eq-ok (io_left (fs.create_dir_all (parent path) s.staging)) _ e in
      let (opened, f2, e2) = >>=-eq-ok (io_left (fs.create_new path 0x180 above)) _ e1 in
      let (filled, f3, e3) = >>=-eq-ok (io_left (fs.write path contents opened)) _ e2 in
      let (u, f4, e4) =
        >>=-eq-ok (ensure (length contents == size) (truncated_file, filled)) _ e3 in
      let (synced, f5, e5) = >>=-eq-ok (io_left (fs.sync_all path filled)) _ e4 in
      record {
        above = above;
        opened = opened;
        filled = filled;
        synced = synced;
        created_dirs = io_left_inv _ above f1;
        created = io_left_inv _ opened f2;
        wrote = io_left_inv _ filled f3;
        whole =
            (==_iff (length contents) size).0
              (ensure-true (length contents == size) (truncated_file, filled) f4);
        synchronised = io_left_inv _ synced f5;
        copied = e5;
      }

  -- What an entry at a path did: a directory, nothing, or a file.
  pub data Placed (path : List Name) (size : ℕ) (contents : List ℕ) (s s' : Saved fs.Dir)
      : Type 0 where
    a_directory :
        (d d' : fs.Dir)
        → fs.create_dir_all path s.staging ≡ ok d
        → fs.set_permissions path 0x1c0 d ≡ ok d'
        → with_staging s d' ≡ s'
        → Placed path size contents s s'
    skipped : s ≡ s' → Placed path size contents s s'
    a_file : Made path size contents s s' → Placed path size contents s s'

  regular_entry-Placed :
      (path : List Name) (size : ℕ) (contents : List ℕ) (s s' : Saved fs.Dir)
      → regular_entry fs path size contents s ≡ ok s'
      → Placed path size contents s s'
  unfolding regular_entry
  regular_entry-Placed path size contents s s' e =
      elim (Bool-cases (starts_with_dot_underscore (file_name path))) [
        | inl g ↦
            let e' : (ensure (length contents == size) (truncated_metadata, s.staging) >> ok s)
                ≡ ok s' =
              rw g at e in
            let (u, f, same) =
              >>=-eq-ok (ensure (length contents == size) (truncated_metadata, s.staging)) _ e' in
            skipped (ok-injective same)
        | inr g ↦ a_file (make_file-Made path size contents s s' (rw g at e))
      ]

  path_entry-Placed :
      (mode : ℕ) (path : List Name) (size : ℕ) (contents : List ℕ) (s s' : Saved fs.Dir)
      → path_entry fs mode path size contents s ≡ ok s'
      → Placed path size contents s s'
  unfolding path_entry make_directory
  path_entry-Placed mode path size contents s s' e = elim (Bool-cases (file_type mode == 4)) [
    | inl g ↦
        let e' : make_directory fs path size s ≡ ok s' = rw g at e in
        let (u, f, e1) = >>=-eq-ok (ensure (size == 0) (directory_payload, s.staging)) _ e' in
        let (d, f1, e2) = >>=-eq-ok (io_left (fs.create_dir_all path s.staging)) _ e1 in
        let (d', f2, same) = >>=-eq-ok (io_left (fs.set_permissions path 0x1c0 d)) _ e2 in
        a_directory d d' (io_left_inv _ d f1) (io_left_inv _ d' f2) (ok-injective same)
    | inr g ↦ elim (Bool-cases (file_type mode == 8)) [
      | inl k ↦ regular_entry-Placed path size contents s s' (rw (g, k) at e)
      | inr k ↦
          (let bad : ◌≡◌ {A = Failable fs.Dir (Saved fs.Dir)} (err (special_file, s.staging))
                (ok s') =
              rw (g, k) at e in
            absurd cc)
    ]
  ]

  Placed-Limited :
      IsFaithful fs
      → (path : List Name) (size : ℕ) (contents : List ℕ) (s s' : Saved fs.Dir)
      → Placed path size contents s s'
      → Limited fs.Dir s
      → Limited fs.Dir s'
  Placed-Limited l path size contents s s' (a_directory d d' e f same) h = rw (sym same) (record {
    total_limited = h.total_limited;
    clipboard_counted = h.clipboard_counted;
    clipboard_limited = h.clipboard_limited;
  })
  Placed-Limited l path size contents s s' (skipped same) h = rw (sym same) h
  Placed-Limited l path size contents s s' (a_file m) h =
      copy_to_clipboard-Limited size path contents (with_file m.synced s) s'
        (λ c r. l.reads_back path contents m.opened m.filled m.synced c m.wrote m.synchronised r)
        m.whole m.copied
        (record {
          total_limited = h.total_limited;
          clipboard_counted = h.clipboard_counted;
          clipboard_limited = h.clipboard_limited;
        })

  Step-Limited :
      IsFaithful fs → (s s' : Saved fs.Dir) → Step fs s s' → Limited fs.Dir s → Limited fs.Dir s'
  Step-Limited l s s' stopped h = h
  Step-Limited l s s' (counted size e) h = (count_size-Limited size s s' e h)
  Step-Limited l s s'' (placed {s' = s'} mode path size contents e f) h =
      Placed-Limited l path size contents s' s''
        (path_entry-Placed mode path size contents s' s'' f) (count_size-Limited size s s' e h)

  -- An archive that is extracted, over a file system that reads back what was written, has one file at least, and what
  -- goes to the clipboard is counted and has at most 8 MiB.
  pub extract_clipboard :
      IsFaithful fs
      → (staging : fs.Dir) (input : List ℕ) (s : Saved fs.Dir) → extract fs staging input ≡ ok s
      → (1 ≤ s.files)
        × (contents_length s.clipboard ≡ s.clipboard_bytes)
        × (s.clipboard_bytes ≤ max_clipboard)
  extract_clipboard l staging input s e =
      let (h, some_file) =
        extract-keeps fs (Limited fs.Dir) (Step-Limited l) staging input s e (record {
          total_limited = omega arith;
          clipboard_counted = refl;
          clipboard_limited = omega arith;
        }) in
      (some_file, h.clipboard_counted, h.clipboard_limited)
