-- ===== src/Airdrop/Steps.antt =====
-- src/airdrop/storage.rs: what the loop over an archive's entries leaves as it was, on any input.
use adhoc_cross_device_conne.Prelude.{
  ℕ, zero, suc, ◌+◌, ◌≤◌, ◌≡◌, refl, sym, ◌&&◌, List, ltb, ltb→lt, ◌==◌, if◌then◌else◌, bytes_eq,
  take, drop, Bool-cases, inl, inr,
}
use adhoc_cross_device_conne.Prelude.Result.{
  Result, ok, err, ensure, ◌>>=◌, ◌>>◌, >>=-eq-ok, ensure-true, ok-injective,
}
use adhoc_cross_device_conne.Airdrop.Paths.{Name, relative}
use adhoc_cross_device_conne.Airdrop.Cpio.{
  Error, Head, path_result, bad_trailer, bad_root, no_files, read_head, read_name, pad,
}
use adhoc_cross_device_conne.Airdrop.Staging.{
  FileSystem, at, Saved, nothing_saved, file_type, count_size, path_entry,
}
use adhoc_cross_device_conne.Airdrop.Extract.{
  Progress, Next, finished, continued, max_entries, trailer_name, is_root, payload, root_entry,
  named_entry, entry, entries, extract,
}

pub at_inv : {D A : Type 0} (d : D) (r : Result Error A) (a : A) → at d r ≡ ok a → r ≡ ok a
at_inv d (ok x) a h = (let same : x ≡ a = ok-injective h in rw same refl)
at_inv d (err e) a h = cc

module _ (fs : FileSystem) where
  -- What an entry does to what is saved: it counts its size, and may then make a file or directory.
  pub data Step : Saved fs.Dir → Saved fs.Dir → Type 0 where
    stopped : {s : Saved fs.Dir} → Step s s
    counted : {s s' : Saved fs.Dir} (size : ℕ) → count_size size s ≡ ok s' → Step s s'
    placed :
        {s s' s'' : Saved fs.Dir} (mode : ℕ) (path : List Name) (size : ℕ) (contents : List ℕ)
        → count_size size s ≡ ok s'
        → path_entry fs mode path size contents s' ≡ ok s''
        → Step s s''

  abbrev saved_next : Next fs.Dir → Saved fs.Dir
  saved_next (finished q) = q.saved
  saved_next (continued q) = q.saved

  payload-Step :
      (h : Head) (name : Name) (offset : ℕ) (rest : List ℕ) (s s' : Saved fs.Dir)
      (next : Next fs.Dir)
      → count_size h.size s ≡ ok s'
      → payload fs h name offset rest s' ≡ ok next
      → Step s (saved_next next)
  unfolding payload
  payload-Step h name offset rest s s' next count e =
      let (path, f, g) = >>=-eq-ok (at s'.staging (path_result (relative name))) _ e in
      let (done, i, j) = >>=-eq-ok (path_entry fs h.mode path h.size (take h.size rest) s') _ g in
      let ((offset', rest'), k, same) =
        >>=-eq-ok
          (at done.staging (
            pad (offset + h.size) h.align
              (if file_type h.mode == 4 then rest else drop h.size rest)))
          _ j in
      rw (sym (ok-injective same)) (placed h.mode path h.size (take h.size rest) count i)

  named_entry-Step :
      (h : Head) (name : Name) (offset : ℕ) (rest : List ℕ) (s : Saved fs.Dir) (next : Next fs.Dir)
      → named_entry fs h name offset rest s ≡ ok next
      → Step s (saved_next next)
  unfolding named_entry root_entry
  named_entry-Step h name offset rest s next e = elim (Bool-cases (bytes_eq name trailer_name)) [
    | inl t ↦
        let e' : (ensure (h.size == 0) (bad_trailer, s.staging)
              >> ok (finished (record { rest = rest; offset = offset; saved = s })))
            ≡ ok next =
          rw t at e in
        let (u, f, same) = >>=-eq-ok (ensure (h.size == 0) (bad_trailer, s.staging)) _ e' in
        let same' : finished (record { rest = rest; offset = offset; saved = s }) ≡ next =
          ok-injective same in
        rw (sym same') stopped
    | inr t ↦
        let e' : (count_size h.size s >>= λ counted.
        if is_root name
        then root_entry fs h offset rest counted
        else payload fs h name offset rest counted)
            ≡ ok next =
          rw t at e in
        let (s', f, g) = >>=-eq-ok (count_size h.size s) _ e' in
        elim (Bool-cases (is_root name)) [
          | inr r ↦ payload-Step h name offset rest s s' next f (rw r at g)
          | inl r ↦
              let g' : root_entry fs h offset rest s' ≡ ok next = rw r at g in
              let (u, i, same) =
                >>=-eq-ok (ensure (file_type h.mode == 4 && h.size == 0) (bad_root, s'.staging)) _
                  g' in
              let same' : continued (record { rest = rest; offset = offset; saved = s' }) ≡ next =
                ok-injective same in
              rw (sym same') (counted h.size f)
        ]
  ]

  entry-Step :
      (p : Progress fs.Dir) (next : Next fs.Dir)
      → entry fs p ≡ ok next
      → Step p.saved (saved_next next)
  unfolding entry
  entry-Step p next e =
      let ((h, after_head), f, g) = >>=-eq-ok (at p.saved.staging (read_head p.rest)) _ e in
      let ((name, after_name), i, j) =
        >>=-eq-ok (at p.saved.staging (read_name h.namesize after_head)) _ g in
      let ((offset, rest), k, l) =
        >>=-eq-ok (at p.saved.staging (pad (p.offset + (h.hlen + h.namesize)) h.align after_name)) _
          j in
      named_entry-Step h name offset rest p.saved next l

  next-keeps :
      (Q : Saved fs.Dir → Type 0)
      → ((s s' : Saved fs.Dir) → Step s s' → Q s → Q s')
      → (n : ℕ) (next : Next fs.Dir) (q : Progress fs.Dir)
      → (elim next [ finished r ↦ ok r | continued r ↦ entries fs n r ]) ≡ ok q
      → Q (saved_next next)
      → ((p q : Progress fs.Dir) → entries fs n p ≡ ok q → Q p.saved → Q q.saved)
      → Q q.saved
  next-keeps Q keep n (finished r) q e h ih = rw (sym (ok-injective e)) h
  next-keeps Q keep n (continued r) q e h ih = ih r q e h

  -- What every step keeps, the loop keeps.
  entries-keeps :
      (Q : Saved fs.Dir → Type 0)
      → ((s s' : Saved fs.Dir) → Step s s' → Q s → Q s')
      → (n : ℕ) (p q : Progress fs.Dir) → entries fs n p ≡ ok q
      → Q p.saved
      → Q q.saved
  unfolding entries
  entries-keeps Q keep zero p q e h = absurd cc
  entries-keeps Q keep (suc n) p q e h =
      let (next, f, g) = >>=-eq-ok (entry fs p) _ e in
      let here = keep p.saved (saved_next next) (entry-Step p next f) h in
      next-keeps Q keep n next q g here (entries-keeps Q keep n)

  pub extract-keeps :
      (Q : Saved fs.Dir → Type 0)
      → ((s s' : Saved fs.Dir) → Step s s' → Q s → Q s')
      → (staging : fs.Dir) (input : List ℕ) (s : Saved fs.Dir) → extract fs staging input ≡ ok s
      → Q (nothing_saved staging)
      → Q s × (1 ≤ s.files)
  unfolding extract
  extract-keeps Q keep staging input s e h =
      let p0 : Progress fs.Dir = record {
        rest = input;
        offset = 0;
        saved = nothing_saved staging;
      } in
      let (p, f, g) = >>=-eq-ok (entries fs max_entries p0) _ e in
      let (u, some_file, same) =
        >>=-eq-ok (ensure (ltb 0 p.saved.files) (no_files, p.saved.staging)) _ g in
      let saved_same : p.saved ≡ s = ok-injective same in
      let kept = entries-keeps Q keep max_entries p0 p f h in
      let files =
        ltb→lt 0 p.saved.files
          (ensure-true (ltb 0 p.saved.files) (no_files, p.saved.staging) some_file) in
      rw (sym saved_same) (kept, files)
