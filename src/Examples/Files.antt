-- ===== src/Examples/Files.antt =====
-- Archives and transfers at concrete inputs, over a file system in memory and a compression that only adds a header.
use adhoc_cross_device_conne.Prelude.{
  ℕ, ◌+◌, ◌≤◌, ◌≡◌, refl, sym, ◌∙◌, Bool, true, false, ◌&&◌, List, [], ◌∷◌, ◌++◌, Option, none,
  some, if◌then◌else◌, bytes_eq, bytes_eq_refl, take, length, All, arith,
}
use adhoc_cross_device_conne.Prelude.Result.{Result, ok, err, ok-injective}
use adhoc_cross_device_conne.Airdrop.Paths.{Name}
use adhoc_cross_device_conne.Airdrop.SafeNames.{IsSafe}
use adhoc_cross_device_conne.Airdrop.Cpio.{IoError, already_exists, other}
use adhoc_cross_device_conne.Airdrop.Staging.{FileSystem}
use adhoc_cross_device_conne.Airdrop.Limits.{IsFaithful}
use adhoc_cross_device_conne.Airdrop.Disk.{KeepsSafe, Measures}
use adhoc_cross_device_conne.Airdrop.Outcomes.{dir_of}
use adhoc_cross_device_conne.Airdrop.DvZip.{Flate, IsLawful}

abbrev path_eq : List Name → List Name → Bool
path_eq [] [] = true
path_eq [] (q ∷ qs) = false
path_eq (p ∷ ps) [] = false
path_eq (p ∷ ps) (q ∷ qs) = bytes_eq p q && path_eq ps qs

path_eq_refl : (p : List Name) → path_eq p p ≡ true
path_eq_refl [] = refl
path_eq_refl (p ∷ ps) = rw (bytes_eq_refl p, path_eq_refl ps) refl

abbrev pub Disk : Type 0
Disk = List (List Name × List ℕ)

abbrev find_file : List Name → Disk → Option (List ℕ)
find_file path [] = none
find_file path ((p, c) ∷ d) = if path_eq path p then some c else find_file path d

abbrev create : List Name → ℕ → Disk → Result (IoError × Disk) Disk
create path mode d = elim (find_file path d) [
  | none ↦ ok ((path, []) ∷ d)
  | some c ↦ err (already_exists, d)
]

abbrev read_file : List Name → Disk → Result IoError (List ℕ)
read_file path d = elim (find_file path d) [ none ↦ err (other 2) | some c ↦ ok c ]

abbrev pub memory : FileSystem
memory = record {
  Dir = Disk;
  create_dir_all = λ path d. ok d;
  set_permissions = λ path mode d. ok d;
  create_new = create;
  write = λ path contents d. ok ((path, contents) ∷ d);
  sync_all = λ path d. ok d;
  read = read_file;
}

memory-reads_back :
    (path : List Name) (contents : List ℕ) (d d' d'' : Disk) (c : List ℕ)
    → ◌≡◌ {A = Result (IoError × Disk) Disk} (ok ((path, contents) ∷ d)) (ok d')
    → ◌≡◌ {A = Result (IoError × Disk) Disk} (ok d') (ok d'')
    → read_file path d'' ≡ ok c
    → c ≡ contents
memory-reads_back path contents d d' d'' c e f h =
    let same : (path, contents) ∷ d ≡ d'' = ok-injective e ∙ ok-injective f in
    let h' : read_file path ((path, contents) ∷ d) ≡ ok c = rw (sym same) at h in
    let found : ◌≡◌ {A = Result IoError (List ℕ)} (ok contents) (ok c) =
      rw (read_file, path_eq_refl path) at h' in
    sym (ok-injective found)

pub memory-IsFaithful : IsFaithful memory
memory-IsFaithful = record { reads_back = memory-reads_back }

-- All paths on the disk are safe.
abbrev pub AllSafe : Disk → Type 0
AllSafe d = All (λ (e : List Name × List ℕ). All IsSafe e.0) d

create-AllSafe :
    (path : List Name) (mode : ℕ) (d : Disk)
    → All IsSafe path
    → AllSafe d
    → AllSafe (dir_of (create path mode d))
create-AllSafe path mode d safe h = go (find_file path d)
  where
    go :
        (o : Option (List ℕ))
        → AllSafe
            (dir_of (elim o [ none ↦ ok ((path, []) ∷ d) | some c ↦ err (already_exists, d) ]))
    go none = (safe, h)
    go (some c) = h

pub memory-KeepsSafe : KeepsSafe memory AllSafe
memory-KeepsSafe = record {
  creates_dirs = λ path d safe h. h;
  sets_permissions = λ path mode d safe some_part h. h;
  creates = λ path mode d safe some_part h. create-AllSafe path mode d safe h;
  writes = λ path contents d safe some_part h. (safe, h);
  syncs = λ path d safe some_part h. h;
}

-- The bytes of all files on the disk.
abbrev pub used : Disk → ℕ
used [] = 0
used ((path, contents) ∷ d) = length contents + used d

create-used : (path : List Name) (mode : ℕ) (d : Disk) → used (dir_of (create path mode d)) ≤ used d
create-used path mode d = go (find_file path d)
  where
    go :
        (o : Option (List ℕ))
        → used (dir_of (elim o [ none ↦ ok ((path, []) ∷ d) | some c ↦ err (already_exists, d) ]))
          ≤ used d
    go none = omega arith
    go (some c) = omega arith

pub memory-Measures : Measures memory used
memory-Measures = record {
  creates_dirs = λ path d. omega arith;
  sets_permissions = λ path mode d. omega arith;
  creates = λ path mode d. create-used path mode d;
  writes = λ path contents d. omega arith;
  syncs = λ path d. omega arith;
}

abbrev stream_header : List ℕ
stream_header = 0x78 ∷ 0x01 ∷ 0 ∷ 0 ∷ 0 ∷ 0 ∷ []

abbrev inflate : ℕ → List ℕ → Result IoError (List ℕ)
inflate n (a ∷ b ∷ c ∷ d ∷ e ∷ f ∷ text) = ok (take n text)
inflate n short = err (other 22)

abbrev pub toy_flate : Flate
toy_flate = record {
  zlib_encode = λ text. stream_header ++ text;
  zlib_decode = inflate;
  gz_decode = inflate;
}

pub toy_flate-IsLawful : IsLawful toy_flate
toy_flate-IsLawful = record {
  decode-encode = λ n text. refl;
  encode_nonempty = λ text. omega arith;
}
