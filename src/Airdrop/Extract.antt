-- ===== src/Airdrop/Extract.antt =====
-- src/airdrop/storage.rs: the loop of `receive_cancel` over the entries of an archive.
use adhoc_cross_device_conne.Prelude.{
  ℕ, zero, suc, ◌+◌, Bool, ◌&&◌, ◌||◌, List, ◌==◌, ltb, if◌then◌else◌, bytes_eq, take, drop,
}
use adhoc_cross_device_conne.Prelude.Bytes.{codes}
use adhoc_cross_device_conne.Prelude.Result.{ok, err, ensure, ◌>>=◌, ◌>>◌}
use adhoc_cross_device_conne.Airdrop.Paths.{Name, relative}
use adhoc_cross_device_conne.Airdrop.Cpio.{
  Head, path_result, bad_trailer, bad_root, too_many_entries, no_files, read_head, read_name, pad,
}
use adhoc_cross_device_conne.Airdrop.Staging.{
  FileSystem, Failable, at, Saved, nothing_saved, file_type, count_size, path_entry,
}

pub record Progress (D : Type 0) : Type 0 where
  pub rest : List ℕ
  pub offset : ℕ
  pub saved : Saved D

-- What an entry leads to: the end of the loop, or its next round.
pub data Next (D : Type 0) : Type 0 where
  finished : Progress D → Next D
  continued : Progress D → Next D

abbrev pub max_entries : ℕ
max_entries = 65536

abbrev pub trailer_name : Name
trailer_name = codes "TRAILER!!!"

unfoldable pub is_root : Name → Bool
is_root name = bytes_eq name (codes ".") || bytes_eq name (codes "./")

module _ (fs : FileSystem) where
  -- An entry of a file or directory: its path, its contents and their padding.
  unfoldable pub payload : Head → Name → ℕ → List ℕ → Saved fs.Dir → Failable fs.Dir (Next fs.Dir)
  payload h name offset rest s = do
    path ← at s.staging (path_result (relative name))
    done ← path_entry fs h.mode path h.size (take h.size rest) s
    let after = if file_type h.mode == 4 then rest else drop h.size rest
    (offset', rest') ← at done.staging (pad (offset + h.size) h.align after)
    ok (continued (record { rest = rest'; offset = offset'; saved = done }))

  -- The entry of the directory that is sent has no path of its own.
  unfoldable pub root_entry : Head → ℕ → List ℕ → Saved fs.Dir → Failable fs.Dir (Next fs.Dir)
  root_entry h offset rest s = do
    ensure (file_type h.mode == 4 && h.size == 0) (bad_root, s.staging)
    ok (continued (record { rest = rest; offset = offset; saved = s }))

  unfoldable pub named_entry :
      Head → Name → ℕ → List ℕ → Saved fs.Dir → Failable fs.Dir (Next fs.Dir)
  named_entry h name offset rest s =
      if bytes_eq name trailer_name
      then (ensure (h.size == 0) (bad_trailer, s.staging)
          >> ok (finished (record { rest = rest; offset = offset; saved = s })))
      else (count_size h.size s >>= λ counted.
          if is_root name
          then root_entry h offset rest counted
          else payload h name offset rest counted)

  unfoldable pub entry : Progress fs.Dir → Failable fs.Dir (Next fs.Dir)
  entry p = do
    (h, after_head) ← at p.saved.staging (read_head p.rest)
    (name, after_name) ← at p.saved.staging (read_name h.namesize after_head)
    (offset, rest) ← at p.saved.staging (pad (p.offset + (h.hlen + h.namesize)) h.align after_name)
    named_entry h name offset rest p.saved

  unfoldable pub entries : ℕ → Progress fs.Dir → Failable fs.Dir (Progress fs.Dir)
  entries zero p = err (too_many_entries, p.saved.staging)
  entries (suc n) p =
      entry p >>= λ next. elim next [ finished q ↦ ok q | continued q ↦ entries n q ]

  -- The decoded archive is read into an empty staging directory.
  unfoldable pub extract : fs.Dir → List ℕ → Failable fs.Dir (Saved fs.Dir)
  extract staging input = do
    p ← entries max_entries (record { rest = input; offset = 0; saved = nothing_saved staging })
    ensure (ltb 0 p.saved.files) (no_files, p.saved.staging)
    ok p.saved
