-- ===== src/Airdrop/Disk.antt =====
-- src/airdrop/storage.rs: the paths and the number of bytes that reach the disk, whatever an archive's bytes are.
use adhoc_cross_device_conne.Prelude.{ℕ, ◌+◌, ◌≤◌, ◌≢◌, List, [], length, All, arith}
use adhoc_cross_device_conne.Airdrop.Paths.{Name}
use adhoc_cross_device_conne.Airdrop.SafeNames.{IsSafe}
use adhoc_cross_device_conne.Airdrop.Staging.{FileSystem, max_transfer}
use adhoc_cross_device_conne.Airdrop.Extract.{extract}
use adhoc_cross_device_conne.Airdrop.Outcomes.{dir_of, left_by, Counts}
use adhoc_cross_device_conne.Airdrop.AnyArchive.{extract-Counts}

-- A property of the staging directory that every operation keeps which is given a path of safe components, whether it
-- succeeds or fails.
pub record KeepsSafe (fs : FileSystem) (P : fs.Dir → Type 0) : Type 0 where
  pub creates_dirs :
      (path : List Name) (d : fs.Dir)
      → All IsSafe path
      → P d
      → P (dir_of (fs.create_dir_all path d))
  pub sets_permissions :
      (path : List Name) (mode : ℕ) (d : fs.Dir)
      → All IsSafe path
      → path ≢ []
      → P d
      → P (dir_of (fs.set_permissions path mode d))
  pub creates :
      (path : List Name) (mode : ℕ) (d : fs.Dir)
      → All IsSafe path
      → path ≢ []
      → P d
      → P (dir_of (fs.create_new path mode d))
  pub writes :
      (path : List Name) (contents : List ℕ) (d : fs.Dir)
      → All IsSafe path
      → path ≢ []
      → P d
      → P (dir_of (fs.write path contents d))
  pub syncs :
      (path : List Name) (d : fs.Dir)
      → All IsSafe path
      → path ≢ []
      → P d
      → P (dir_of (fs.sync_all path d))

-- A measure of what the files of a directory hold: a write adds at most the bytes that it is given, and nothing
-- else adds any.
pub record Measures (fs : FileSystem) (used : fs.Dir → ℕ) : Type 0 where
  pub creates_dirs :
      (path : List Name) (d : fs.Dir) → used (dir_of (fs.create_dir_all path d)) ≤ used d
  pub sets_permissions :
      (path : List Name) (mode : ℕ) (d : fs.Dir)
      → used (dir_of (fs.set_permissions path mode d)) ≤ used d
  pub creates :
      (path : List Name) (mode : ℕ) (d : fs.Dir)
      → used (dir_of (fs.create_new path mode d)) ≤ used d
  pub writes :
      (path : List Name) (contents : List ℕ) (d : fs.Dir)
      → used (dir_of (fs.write path contents d)) ≤ used d + length contents
  pub syncs : (path : List Name) (d : fs.Dir) → used (dir_of (fs.sync_all path d)) ≤ used d

KeepsSafe-Counts :
    (fs : FileSystem) (P : fs.Dir → Type 0)
    → KeepsSafe fs P
    → Counts fs (λ (n : ℕ) (d : fs.Dir). P d)
KeepsSafe-Counts fs P k = record {
  grows = λ n m d h p. p;
  creates_dirs = λ path n d safe p. k.creates_dirs path d safe p;
  sets_permissions =
      λ path mode n d safe some_part p. k.sets_permissions path mode d safe some_part p;
  creates = λ path mode n d safe some_part p. k.creates path mode d safe some_part p;
  writes = λ path contents n d safe some_part p. k.writes path contents d safe some_part p;
  syncs = λ path n d safe some_part p. k.syncs path d safe some_part p;
}

Measures-Counts :
    (fs : FileSystem) (used : fs.Dir → ℕ) (base : ℕ)
    → Measures fs used
    → Counts fs (λ (n : ℕ) (d : fs.Dir). used d ≤ base + n)
Measures-Counts fs used base k = record {
  grows = λ n m d h p. omega arith;
  creates_dirs = λ path n d safe p. omega (arith, k.creates_dirs path d);
  sets_permissions =
      λ path mode n d safe some_part p. omega (arith, k.sets_permissions path mode d);
  creates = λ path mode n d safe some_part p. omega (arith, k.creates path mode d);
  writes = λ path contents n d safe some_part p. omega (arith, k.writes path contents d);
  syncs = λ path n d safe some_part p. omega (arith, k.syncs path d);
}

-- Whatever the bytes of an archive are, and whether extracting it succeeds or fails, it keeps every property of the
-- staging directory that the file system's operations keep when they are given paths of safe components.
pub extract-KeepsSafe :
    (fs : FileSystem) (P : fs.Dir → Type 0)
    → KeepsSafe fs P
    → (staging : fs.Dir) (input : List ℕ) → P staging
    → P (left_by (extract fs staging input))
extract-KeepsSafe fs P k staging input h =
    extract-Counts fs (λ (n : ℕ) (d : fs.Dir). P d) (KeepsSafe-Counts fs P k) staging input h

-- Whatever the bytes of an archive are, and whether extracting it succeeds or fails, the files that it leaves in the
-- staging directory hold at most 32 GiB more than the directory's files held before, where the measure is of a file
-- system of which a write adds at most the bytes that it is given.
pub extract_limits :
    (fs : FileSystem) (used : fs.Dir → ℕ)
    → Measures fs used
    → (staging : fs.Dir) (input : List ℕ)
    → used (left_by (extract fs staging input)) ≤ used staging + max_transfer
extract_limits fs used k staging input =
    extract-Counts fs (λ (n : ℕ) (d : fs.Dir). used d ≤ used staging + n)
      (Measures-Counts fs used (used staging) k) staging input (omega arith)
