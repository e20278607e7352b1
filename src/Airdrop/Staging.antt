-- ===== src/Airdrop/Staging.antt =====
-- src/airdrop/storage.rs: what the receiver does with the entries of an archive, below the directory
-- that it stages them in.
use adhoc_cross_device_conne.Prelude.{
  ℕ, suc, ◌+◌, ◌-◌, ◌*◌, ◌/◌, ◌%◌, ◌^◌, Bool, false, ◌&&◌, ◌||◌, List, [], ◌∷◌, ◌++◌, Option, some,
  none, ◌==◌, leb, if◌then◌else◌, bytes_eq, length,
}
use adhoc_cross_device_conne.Prelude.Bytes.{codes}
use adhoc_cross_device_conne.Prelude.Result.{Result, ok, err, ensure, ◌>>=◌, ◌>>◌}
use adhoc_cross_device_conne.Airdrop.Paths.{Name}
use adhoc_cross_device_conne.Airdrop.PathSafety.{join}
use adhoc_cross_device_conne.Airdrop.Cpio.{
  Error, IoError, io_error, io_result, too_large, directory_payload, truncated_metadata,
  truncated_file, special_file,
}

-- What fails leaves an error and the staging directory as it is then.
abbrev pub Failable : Type 0 → Type 0 → Type 0
Failable D A = Result (Error × D) A

-- What failed without touching the directory `d`, and what the file system failed at.
abbrev pub at : {D A : Type 0} → D → Result Error A → Failable D A
at d (ok a) = ok a
at d (err e) = err (e, d)

abbrev pub io_left : {D A : Type 0} → Result (IoError × D) A → Failable D A
io_left (ok a) = ok a
io_left (err (e, d)) = err (io_error e, d)

-- The file system below the staging directory, which paths are relative to: `create_dir_all`,
-- `set_permissions`, opening with `create_new`, writing to the file that was opened, `sync_all`, and
-- `read`. A call that fails may have changed the directory too: it may have made the first directories of a path,
-- or written the first bytes of a file.
pub record FileSystem : Type 1 where
  pub Dir : Type 0
  pub create_dir_all : List Name → Dir → Result (IoError × Dir) Dir
  pub set_permissions : List Name → ℕ → Dir → Result (IoError × Dir) Dir
  pub create_new : List Name → ℕ → Dir → Result (IoError × Dir) Dir
  pub write : List Name → List ℕ → Dir → Result (IoError × Dir) Dir
  pub sync_all : List Name → Dir → Result (IoError × Dir) Dir
  pub read : List Name → Dir → Result IoError (List ℕ)

abbrev pub max_transfer : ℕ
max_transfer = 32 * 2 ^ 30

abbrev pub max_clipboard : ℕ
max_clipboard = 8 * 2 ^ 20

pub record Entry : Type 0 where
  pub name : Name
  pub contents : List ℕ

abbrev pub clipboard_entry : List Name → List ℕ → Entry
clipboard_entry path contents = record { name = join path; contents = contents }

pub record Saved (D : Type 0) : Type 0 where
  pub total : ℕ
  pub files : ℕ
  pub clipboard : List Entry
  pub clipboard_bytes : ℕ
  pub staging : D

abbrev pub nothing_saved : {D : Type 0} → D → Saved D
nothing_saved staging = record {
  total = 0;
  files = 0;
  clipboard = [];
  clipboard_bytes = 0;
  staging = staging;
}

-- `file_name().unwrap()` of a path that is not empty, and `parent()`.
unfoldable pub file_name : List Name → Name
file_name [] = []
file_name (p ∷ []) = p
file_name (p ∷ q ∷ ps) = file_name (q ∷ ps)

unfoldable pub parent : List Name → List Name
parent [] = []
parent (p ∷ []) = []
parent (p ∷ q ∷ ps) = p ∷ parent (q ∷ ps)

-- The last dot of a name, and what stands before and behind it.
unfoldable pub rsplit_dot : Name → Option (Name × Name)
rsplit_dot [] = none
rsplit_dot (c ∷ cs) = elim (rsplit_dot cs) [
  | some (before, after) ↦ some (c ∷ before, after)
  | none ↦ if c == 0x2e then some ([], cs) else none
]

-- `Path::file_stem` and `Path::extension` of a name; a dot at the front only begins no extension.
unfoldable pub stem_and_extension : Name → Name × Option Name
stem_and_extension name = elim (rsplit_dot name) [
  | none ↦ (name, none)
  | some ([], after) ↦ (name, none)
  | some (c ∷ before, after) ↦ (c ∷ before, some after)
]

unfoldable pub one_of : List Name → Option Name → Bool
one_of names none = false
one_of [] (some e) = false
one_of (n ∷ names) (some e) = bytes_eq n e || one_of names (some e)

abbrev pub clipboard_types : List Name
clipboard_types =
    codes "txt" ∷ codes "png" ∷ codes "jpg" ∷ codes "jpeg" ∷ codes "gif" ∷ codes "webp" ∷ []

unfoldable pub starts_with_dot_underscore : Name → Bool
starts_with_dot_underscore (a ∷ b ∷ rest) = a == 0x2e && b == 0x5f
starts_with_dot_underscore short = false

-- The file type in a mode, `mode & 0o170000`: 4 for a directory, 8 for a regular file.
abbrev pub file_type : ℕ → ℕ
file_type mode = mode / 4096 % 16

-- A size is counted before anything is done with its entry.
unfoldable pub count_size : {D : Type 0} → ℕ → Saved D → Failable D (Saved D)
count_size size s = do
  ensure (leb size (max_transfer - s.total)) (too_large, s.staging)
  ok (record {
    total = s.total + size;
    files = s.files;
    clipboard = s.clipboard;
    clipboard_bytes = s.clipboard_bytes;
    staging = s.staging;
  })

abbrev pub with_staging : {D : Type 0} → Saved D → D → Saved D
with_staging s d = record {
  total = s.total;
  files = s.files;
  clipboard = s.clipboard;
  clipboard_bytes = s.clipboard_bytes;
  staging = d;
}

-- One more file, after which the directory is `d`; and one more entry of the clipboard.
abbrev pub with_file : {D : Type 0} → D → Saved D → Saved D
with_file d s = record {
  total = s.total;
  files = suc s.files;
  clipboard = s.clipboard;
  clipboard_bytes = s.clipboard_bytes;
  staging = d;
}

abbrev pub with_clipboard_entry : {D : Type 0} → List Name → List ℕ → Saved D → Saved D
with_clipboard_entry path contents s = record {
  total = s.total;
  files = s.files;
  clipboard = s.clipboard ++ clipboard_entry path contents ∷ [];
  clipboard_bytes = s.clipboard_bytes + length contents;
  staging = s.staging;
}

unfoldable pub goes_to_clipboard : {D : Type 0} → ℕ → List Name → Saved D → Bool
goes_to_clipboard size path s =
    leb size max_clipboard
    && leb (s.clipboard_bytes + size) max_clipboard
    && one_of clipboard_types (stem_and_extension (file_name path)).1

module _ (fs : FileSystem) where
  -- A directory; its entry has no contents.
  unfoldable pub make_directory : List Name → ℕ → Saved fs.Dir → Failable fs.Dir (Saved fs.Dir)
  make_directory path size s = do
    ensure (size == 0) (directory_payload, s.staging)
    made ← io_left (fs.create_dir_all path s.staging)
    closed ← io_left (fs.set_permissions path 0x1c0 made)
    ok (with_staging s closed)

  unfoldable pub copy_to_clipboard : ℕ → List Name → Saved fs.Dir → Failable fs.Dir (Saved fs.Dir)
  copy_to_clipboard size path s =
      if goes_to_clipboard size path s
      then (do
        contents ← at s.staging (io_result (fs.read path s.staging))
        ok (with_clipboard_entry path contents s))
      else ok s

  -- A file of `size` bytes, of which `contents` could be read.
  unfoldable pub make_file : List Name → ℕ → List ℕ → Saved fs.Dir → Failable fs.Dir (Saved fs.Dir)
  make_file path size contents s = do
    above ← io_left (fs.create_dir_all (parent path) s.staging)
    opened ← io_left (fs.create_new path 0x180 above)
    written ← io_left (fs.write path contents opened)
    ensure (length contents == size) (truncated_file, written)
    synced ← io_left (fs.sync_all path written)
    copy_to_clipboard size path (with_file synced s)

  -- The metadata that macOS keeps beside a file is read over.
  unfoldable pub regular_entry :
      List Name → ℕ → List ℕ → Saved fs.Dir → Failable fs.Dir (Saved fs.Dir)
  regular_entry path size contents s =
      if starts_with_dot_underscore (file_name path)
      then (ensure (length contents == size) (truncated_metadata, s.staging) >> ok s)
      else make_file path size contents s

  unfoldable pub path_entry :
      ℕ → List Name → ℕ → List ℕ → Saved fs.Dir → Failable fs.Dir (Saved fs.Dir)
  path_entry mode path size contents s =
      if file_type mode == 4
      then make_directory path size s
      else if file_type mode == 8
      then regular_entry path size contents s
      else err (special_file, s.staging)
