-- ===== src/Airdrop/Outcomes.antt =====
-- src/airdrop/storage.rs: what extracting an archive leaves in the staging directory, whether it succeeds or fails.
use adhoc_cross_device_conne.Prelude.{
  ℕ, ◌+◌, ◌≤◌, ◌≡◌, ◌≢◌, refl, Bool, true, false, List, [], ◌∷◌, ◌==◌, length, All, arith,
  Bool-cases, inl, inr,
}
use adhoc_cross_device_conne.Prelude.Result.{Result, ok, err, ensure, ◌>>=◌}
use adhoc_cross_device_conne.Airdrop.Paths.{Name}
use adhoc_cross_device_conne.Airdrop.SafeNames.{IsSafe}
use adhoc_cross_device_conne.Airdrop.Cpio.{
  Error, IoError, io_result, directory_payload, truncated_file, truncated_metadata,
}
use adhoc_cross_device_conne.Airdrop.Staging.{
  FileSystem, Failable, at, io_left, Saved, with_file, with_staging, with_clipboard_entry,
  file_type, file_name, parent, max_transfer, goes_to_clipboard, starts_with_dot_underscore,
  make_directory, copy_to_clipboard, make_file, regular_entry, path_entry,
}

-- The directory that a call of the file system leaves, with or without an error.
abbrev pub dir_of : {D : Type 0} → Result (IoError × D) D → D
dir_of (ok d) = d
dir_of (err (e, d)) = d

-- The staging directory that extracting leaves, with or without an error.
abbrev pub left_by : {D : Type 0} → Failable D (Saved D) → D
left_by (ok s) = s.staging
left_by (err (e, d)) = d

-- What holds of the result, or of the directory that a failure leaves.
abbrev pub Ends : {D A : Type 0} → (A → Type 0) → (D → Type 0) → Failable D A → Type 0
Ends Q P (ok a) = Q a
Ends Q P (err (e, d)) = P d

pub Ends-bind :
    {D A B : Type 0} (Q : A → Type 0) (R : B → Type 0) (P : D → Type 0) (r : Failable D A)
    (next : A → Failable D B)
    → Ends Q P r
    → ((a : A) → Q a → Ends R P (next a))
    → Ends R P (r >>= next)
Ends-bind Q R P (ok a) next h k = k a h
Ends-bind Q R P (err (e, d)) next h k = h

pub Ends-at :
    {D A : Type 0} (P : D → Type 0) (d : D) (r : Result Error A)
    → P d
    → Ends (λ a. r ≡ ok a) P (at d r)
Ends-at P d (ok a) h = refl
Ends-at P d (err e) h = h

pub Ends-ensure :
    {D : Type 0} (P : D → Type 0) (d : D) (test : Bool) (e : Error)
    → P d
    → Ends (λ u. test ≡ true) P (ensure test (e, d))
Ends-ensure P d true e h = refl
Ends-ensure P d false e h = h

Ends-io :
    {D : Type 0} (Q P : D → Type 0) (r : Result (IoError × D) D)
    → Q (dir_of r)
    → ((d : D) → Q d → P d)
    → Ends Q P (io_left r)
Ends-io Q P (ok d) h k = h
Ends-io Q P (err (e, d)) h k = k d h

parent-IsSafe : (path : List Name) → All IsSafe path → All IsSafe (parent path)
unfolding parent
parent-IsSafe [] h = tt
parent-IsSafe (p ∷ []) h = tt
parent-IsSafe (p ∷ q ∷ ps) h = (h.0, parent-IsSafe (q ∷ ps) h.1)

-- A property of the staging directory and of a number of bytes that every operation keeps which is given a path of safe
-- components, whether it succeeds or fails, where writing adds the bytes that it is given to the number.
pub record Counts (fs : FileSystem) (I : ℕ → fs.Dir → Type 0) : Type 0 where
  pub grows : (n m : ℕ) (d : fs.Dir) → n ≤ m → I n d → I m d
  pub creates_dirs :
      (path : List Name) (n : ℕ) (d : fs.Dir)
      → All IsSafe path
      → I n d
      → I n (dir_of (fs.create_dir_all path d))
  pub sets_permissions :
      (path : List Name) (mode n : ℕ) (d : fs.Dir)
      → All IsSafe path
      → path ≢ []
      → I n d
      → I n (dir_of (fs.set_permissions path mode d))
  pub creates :
      (path : List Name) (mode n : ℕ) (d : fs.Dir)
      → All IsSafe path
      → path ≢ []
      → I n d
      → I n (dir_of (fs.create_new path mode d))
  pub writes :
      (path : List Name) (contents : List ℕ) (n : ℕ) (d : fs.Dir)
      → All IsSafe path
      → path ≢ []
      → I n d
      → I (n + length contents) (dir_of (fs.write path contents d))
  pub syncs :
      (path : List Name) (n : ℕ) (d : fs.Dir)
      → All IsSafe path
      → path ≢ []
      → I n d
      → I n (dir_of (fs.sync_all path d))

module _ (fs : FileSystem) (I : ℕ → fs.Dir → Type 0) (k : Counts fs I) where
  -- What holds between two entries, and of the directory at a failure.
  abbrev Good : Saved fs.Dir → Type 0
  Good s = I s.total s.staging × (s.total ≤ max_transfer)

  abbrev Bad : fs.Dir → Type 0
  Bad d = I max_transfer d

  to_bad : (n : ℕ) → n ≤ max_transfer → (d : fs.Dir) → I n d → Bad d
  to_bad n h d i = k.grows n max_transfer d h i

  copy_to_clipboard-Ends :
      (size : ℕ) (path : List Name) (s : Saved fs.Dir)
      → Good s
      → Ends Good Bad (copy_to_clipboard fs size path s)
  unfolding copy_to_clipboard
  copy_to_clipboard-Ends size path s h = elim (Bool-cases (goes_to_clipboard size path s)) [
    | inr g ↦ rw g h
    | inl g ↦ rw g (
        Ends-bind _ Good Bad (at s.staging (io_result (fs.read path s.staging)))
          (λ contents. ok (with_clipboard_entry path contents s))
          (Ends-at Bad s.staging (io_result (fs.read path s.staging))
            (to_bad s.total h.1 s.staging h.0))
          λ c q. h)
  ]

  make_directory-Ends :
      (path : List Name) (size : ℕ) (s : Saved fs.Dir)
      → All IsSafe path
      → path ≢ []
      → Good s
      → Ends Good Bad (make_directory fs path size s)
  unfolding make_directory
  make_directory-Ends path size s safe some_part h =
      let bad = to_bad s.total h.1 in
      Ends-bind _ Good Bad (ensure (size == 0) (directory_payload, s.staging)) _
        (Ends-ensure Bad s.staging (size == 0) directory_payload (bad s.staging h.0))
        λ u q.
          Ends-bind (I s.total) Good Bad (io_left (fs.create_dir_all path s.staging)) _
            (Ends-io (I s.total) Bad (fs.create_dir_all path s.staging)
              (k.creates_dirs path s.total s.staging safe h.0) bad)
            λ made i.
              Ends-bind (I s.total) Good Bad (io_left (fs.set_permissions path 0x1c0 made))
                (λ closed. ok (with_staging s closed))
                (Ends-io (I s.total) Bad (fs.set_permissions path 0x1c0 made)
                  (k.sets_permissions path 0x1c0 s.total made safe some_part i) bad)
                λ closed j. (j, h.1)

  make_file-Ends :
      (path : List Name) (size : ℕ) (contents : List ℕ) (n : ℕ) (s : Saved fs.Dir)
      → All IsSafe path
      → path ≢ []
      → I n s.staging
      → n + length contents ≤ s.total
      → s.total ≤ max_transfer
      → Ends Good Bad (make_file fs path size contents s)
  unfolding make_file
  make_file-Ends path size contents n s safe some_part h room limit =
      let here : (m : ℕ) → m ≤ s.total → (d : fs.Dir) → I m d → Bad d =
        λ m l. to_bad m (omega arith) in
      Ends-bind (I n) Good Bad (io_left (fs.create_dir_all (parent path) s.staging)) _
        (Ends-io (I n) Bad (fs.create_dir_all (parent path) s.staging)
          (k.creates_dirs (parent path) n s.staging (parent-IsSafe path safe) h)
          (here n (omega arith)))
        λ above h1.
          Ends-bind (I n) Good Bad (io_left (fs.create_new path 0x180 above)) _
            (Ends-io (I n) Bad (fs.create_new path 0x180 above)
              (k.creates path 0x180 n above safe some_part h1) (here n (omega arith)))
            λ opened h2.
              Ends-bind (I (n + length contents)) Good Bad (io_left (fs.write path contents opened))
                _
                (Ends-io (I (n + length contents)) Bad (fs.write path contents opened)
                  (k.writes path contents n opened safe some_part h2)
                  (here (n + length contents) room))
                λ written h3.
                  Ends-bind _ Good Bad (ensure (length contents == size) (truncated_file, written))
                    _
                    (Ends-ensure Bad written (length contents == size) truncated_file
                      (here (n + length contents) room written h3))
                    λ u q.
                      Ends-bind (I s.total) Good Bad (io_left (fs.sync_all path written)) _
                        (Ends-io (I s.total) Bad (fs.sync_all path written)
                          (k.syncs path s.total written safe some_part
                            (k.grows (n + length contents) s.total written room h3))
                          (here s.total (omega arith)))
                        λ synced h4.
                          copy_to_clipboard-Ends size path (with_file synced s) (h4, limit)

  pub path_entry-Ends :
      (mode : ℕ) (path : List Name) (size : ℕ) (contents : List ℕ) (n : ℕ) (s : Saved fs.Dir)
      → All IsSafe path
      → path ≢ []
      → I n s.staging
      → n + length contents ≤ s.total
      → s.total ≤ max_transfer
      → Ends Good Bad (path_entry fs mode path size contents s)
  unfolding path_entry regular_entry
  path_entry-Ends mode path size contents n s safe some_part h room limit =
      let good : Good s = (k.grows n s.total s.staging (omega arith) h, limit) in
      let bad : Bad s.staging = to_bad s.total limit s.staging good.0 in
      elim (Bool-cases (file_type mode == 4)) [
        | inl e ↦ rw e (make_directory-Ends path size s safe some_part good)
        | inr e ↦ elim (Bool-cases (file_type mode == 8)) [
          | inr f ↦ rw (e, f) bad
          | inl f ↦ elim (Bool-cases (starts_with_dot_underscore (file_name path))) [
            | inr g ↦
                rw (e, f, g) (make_file-Ends path size contents n s safe some_part h room limit)
            | inl g ↦
                rw (e, f, g)
                  (Ends-bind _ Good Bad
                    (ensure (length contents == size) (truncated_metadata, s.staging)) (λ u. ok s)
                    (Ends-ensure Bad s.staging (length contents == size) truncated_metadata bad)
                    λ u q. good)
          ]
        ]
      ]
