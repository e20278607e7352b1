-- ===== src/Airdrop/Publish.antt =====
-- src/airdrop/storage.rs: the publication of the staged items in the receiver's directory, under names that are free.
use adhoc_cross_device_conne.Prelude.{
  ℕ, zero, suc, ◌^◌, ◌≡◌, List, [], ◌∷◌, ◌++◌, Option, none, some, ◌==◌, ltb, if◌then◌else◌,
}
use adhoc_cross_device_conne.Prelude.Digits.{digits}
use adhoc_cross_device_conne.Prelude.Result.{Result, ok, err, ◌>>=◌}
use adhoc_cross_device_conne.Airdrop.Paths.{Name}
use adhoc_cross_device_conne.Airdrop.Cpio.{IoError, already_exists, other}
use adhoc_cross_device_conne.Airdrop.Staging.{stem_and_extension}

-- The file system that holds the staging directory and the receiver's: `renameat2` with `RENAME_NOREPLACE`, from a
-- name in the one to a name in the other; and what stands at a name in the receiver's directory.
pub record Shelf : Type 1 where
  pub Dir : Type 0
  pub Content : Type 0
  pub rename : Name → Name → Dir → Result IoError Dir
  pub find : Name → Dir → Option Content

-- What the system documents of the call: it fails with `EEXIST` if and only if the new name is taken. It may fail
-- otherwise (a name that is too long, a full disk), and then with another error.
pub record IsNoReplace (fs : Shelf) : Type 0 where
  pub refuses :
      (from to : Name) (d : fs.Dir) (x : fs.Content)
      → fs.find to d ≡ some x
      → fs.rename from to d ≡ err already_exists
  pub exists :
      (from to : Name) (d : fs.Dir)
      → fs.rename from to d ≡ err already_exists
      → (x : fs.Content) × (fs.find to d ≡ some x)

pub data Error : Type 0 where
  too_many_collisions stuck : Error
  publish_failed : ℕ → Error

-- The name with a number before its extension: "photo 2.jpg".
unfoldable pub with_number : ℕ → Name × Option Name → Name
with_number number (stem, none) = stem ++ (0x20 ∷ digits 10 number)
with_number number (stem, some e) = stem ++ (0x20 ∷ (digits 10 number ++ (0x2e ∷ e)))

unfoldable pub candidate : Name → ℕ → Name
candidate name number = if number == 1 then name else with_number number (stem_and_extension name)

module _ (fs : Shelf) where
  -- The loop over the numbers from one on; a directory with that many names is enough fuel.
  unfoldable pub publish_from : ℕ → Name → ℕ → fs.Dir → Result Error fs.Dir
  publish_from zero name number d = err stuck
  publish_from (suc fuel) name number d = elim (fs.rename name (candidate name number) d) [
    | ok d' ↦ ok d'
    | err (other e) ↦ err (publish_failed e)
    | err already_exists ↦
        if ltb (suc number) (2 ^ 64)
        then publish_from fuel name (suc number) d
        else err too_many_collisions
  ]

  -- The staged items, in the order of `read_dir`.
  unfoldable pub publish : ℕ → List Name → fs.Dir → Result Error fs.Dir
  publish fuel [] d = ok d
  publish fuel (n ∷ names) d = publish_from fuel n 1 d >>= λ d'. publish fuel names d'
