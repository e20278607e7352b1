-- ===== src/Airdrop/AnyArchive.antt =====
-- src/airdrop/storage.rs: what the loop over an archive's entries leaves in the staging directory, whether it succeeds or
-- fails.
use adhoc_cross_device_conne.Prelude.{
  ℕ, zero, suc, ◌+◌, ◌-◌, ◌≤◌, ◌≡◌, refl, ◌&&◌, ltb, leb, leb→le, List, [], ◌∷◌, take, drop, ◌==◌,
  if◌then◌else◌, bytes_eq, length, arith, Bool-cases, inl, inr,
}
use adhoc_cross_device_conne.Prelude.Result.{Result, ok, err, ensure, ok-injective}
use adhoc_cross_device_conne.Airdrop.Paths.{Name, relative}
use adhoc_cross_device_conne.Airdrop.PathSafety.{relative-IsSafe}
use adhoc_cross_device_conne.Airdrop.Cpio.{
  Head, path_result, too_large, bad_trailer, bad_root, no_files, read_head, read_name, pad,
}
use adhoc_cross_device_conne.Airdrop.Staging.{
  FileSystem, Failable, at, Saved, nothing_saved, file_type, max_transfer, count_size, path_entry,
}
use adhoc_cross_device_conne.Airdrop.Extract.{
  Progress, Next, finished, continued, max_entries, trailer_name, is_root, payload, root_entry,
  named_entry, entry, entries, extract,
}
use adhoc_cross_device_conne.Airdrop.Outcomes.{
  left_by, Ends, Ends-bind, Ends-at, Ends-ensure, Counts, path_entry-Ends,
}

path_result_inv : {A : Type 0} (r : Result _ A) (a : A) → path_result r ≡ ok a → r ≡ ok a
unfolding path_result
path_result_inv (ok x) a h = (let same : x ≡ a = ok-injective h in rw same refl)
path_result_inv (err e) a h = cc

module _ (fs : FileSystem) (I : ℕ → fs.Dir → Type 0) (k : Counts fs I) where
  -- What holds between two entries, and of the directory at a failure.
  abbrev Good : Saved fs.Dir → Type 0
  Good s = I s.total s.staging × (s.total ≤ max_transfer)

  abbrev Bad : fs.Dir → Type 0
  Bad d = I max_transfer d

  to_bad : (n : ℕ) → n ≤ max_transfer → (d : fs.Dir) → I n d → Bad d
  to_bad n h d i = k.grows n max_transfer d h i

  -- A size that was counted: the directory is as it was, and there is room for as many bytes.
  abbrev Counted : ℕ → Saved fs.Dir → Saved fs.Dir → Type 0
  Counted size s s' =
      (s'.staging ≡ s.staging) × (s'.total ≡ s.total + size) × (s'.total ≤ max_transfer)

  count_size-Ends :
      (size : ℕ) (s : Saved fs.Dir) → Good s → Ends (Counted size s) Bad (count_size size s)
  unfolding count_size
  count_size-Ends size s h =
      let test = leb size (max_transfer - s.total) in
      Ends-bind _ (Counted size s) Bad (ensure test (too_large, s.staging)) _
        (Ends-ensure Bad s.staging test too_large (to_bad s.total h.1 s.staging h.0))
        λ u q.
          (let fits = leb→le size (max_transfer - s.total) q in
            (refl, refl, omega (arith, fits, h.1)))

  abbrev next_saved : Next fs.Dir → Saved fs.Dir
  next_saved (finished q) = q.saved
  next_saved (continued q) = q.saved

  abbrev GoodNext : Next fs.Dir → Type 0
  GoodNext next = Good (next_saved next)

  length-take_size : (n : ℕ) (xs : List ℕ) → length (take n xs) ≤ n
  length-take_size zero xs = omega arith
  length-take_size (suc n) [] = omega arith
  length-take_size (suc n) (x ∷ xs) = omega (arith, length-take_size n xs)

  payload-Ends :
      (h : Head) (name : Name) (offset : ℕ) (rest : List ℕ) (s s' : Saved fs.Dir)
      → Good s
      → Counted h.size s s'
      → Ends GoodNext Bad (payload fs h name offset rest s')
  unfolding payload
  payload-Ends h name offset rest s s' good (same, total, limit) =
      let i : I s.total s'.staging = rw same good.0 in
      Ends-bind _ GoodNext Bad (at s'.staging (path_result (relative name))) _
        (Ends-at Bad s'.staging (path_result (relative name)) (to_bad s.total good.1 s'.staging i))
        λ path e.
          (let (safe, some_part) =
              relative-IsSafe name path (path_result_inv (relative name) path e) in
            let contents = take h.size rest in
            let room : s.total + length contents ≤ s'.total =
              omega (arith, length-take_size h.size rest) in
            Ends-bind Good GoodNext Bad (path_entry fs h.mode path h.size contents s') _
              (path_entry-Ends fs I k h.mode path h.size contents s.total s' safe some_part i room
                limit)
              λ done good'.
                Ends-bind _ GoodNext Bad
                  (at done.staging (
                    pad (offset + h.size) h.align
                      (if file_type h.mode == 4 then rest else drop h.size rest)))
                  _ (Ends-at Bad done.staging _ (to_bad done.total good'.1 done.staging good'.0))
                  λ padded q. good')

  named_entry-Ends :
      (h : Head) (name : Name) (offset : ℕ) (rest : List ℕ) (s : Saved fs.Dir)
      → Good s
      → Ends GoodNext Bad (named_entry fs h name offset rest s)
  unfolding named_entry root_entry
  named_entry-Ends h name offset rest s good =
      let bad = to_bad s.total good.1 s.staging good.0 in
      elim (Bool-cases (bytes_eq name trailer_name)) [
        | inl t ↦ rw t (
            Ends-bind _ GoodNext Bad (ensure (h.size == 0) (bad_trailer, s.staging)) _
              (Ends-ensure Bad s.staging (h.size == 0) bad_trailer bad) λ u q. good)
        | inr t ↦ rw t (
            Ends-bind (Counted h.size s) GoodNext Bad (count_size h.size s) _
              (count_size-Ends h.size s good) λ s' c. counted_entry s' c)
      ]
    where
      counted_entry :
          (s' : Saved fs.Dir)
          → Counted h.size s s'
          → Ends GoodNext Bad (
              if is_root name
              then root_entry fs h offset rest s'
              else payload fs h name offset rest s')
      counted_entry s' c = elim (Bool-cases (is_root name)) [
        | inr r ↦ rw r (payload-Ends h name offset rest s s' good c)
        | inl r ↦
            let good' : Good s' =
              (rw c.0 (k.grows s.total s'.total s.staging (omega (arith, c.1)) good.0), c.2) in
            rw r (
              Ends-bind _ GoodNext Bad
                (ensure (file_type h.mode == 4 && h.size == 0) (bad_root, s'.staging)) _
                (Ends-ensure Bad s'.staging (file_type h.mode == 4 && h.size == 0) bad_root
                  (to_bad s'.total good'.1 s'.staging good'.0))
                λ u q. good')
      ]

  entry-Ends : (p : Progress fs.Dir) → Good p.saved → Ends GoodNext Bad (entry fs p)
  unfolding entry
  entry-Ends p good =
      let bad = to_bad p.saved.total good.1 p.saved.staging good.0 in
      Ends-bind _ GoodNext Bad (at p.saved.staging (read_head p.rest)) _
        (Ends-at Bad p.saved.staging (read_head p.rest) bad)
        λ (h, after_head) q.
          Ends-bind _ GoodNext Bad (at p.saved.staging (read_name h.namesize after_head)) _
            (Ends-at Bad p.saved.staging (read_name h.namesize after_head) bad)
            λ (name, after_name) q'.
              Ends-bind _ GoodNext Bad
                (at p.saved.staging (pad (p.offset + (h.hlen + h.namesize)) h.align after_name)) _
                (Ends-at Bad p.saved.staging _ bad)
                λ (offset, rest) q''. named_entry-Ends h name offset rest p.saved good

  abbrev GoodEnd : Progress fs.Dir → Type 0
  GoodEnd q = Good q.saved

  next-Ends :
      (n : ℕ) (next : Next fs.Dir)
      → GoodNext next
      → ((q : Progress fs.Dir) → Good q.saved → Ends GoodEnd Bad (entries fs n q))
      → Ends GoodEnd Bad (elim next [ finished q ↦ ok q | continued q ↦ entries fs n q ])
  next-Ends n (finished q) h more = h
  next-Ends n (continued q) h more = more q h

  entries-Ends : (n : ℕ) (p : Progress fs.Dir) → Good p.saved → Ends GoodEnd Bad (entries fs n p)
  unfolding entries
  entries-Ends zero p good = to_bad p.saved.total good.1 p.saved.staging good.0
  entries-Ends (suc n) p good =
      Ends-bind GoodNext GoodEnd Bad (entry fs p) _ (entry-Ends p good)
        λ next h. next-Ends n next h λ q i. entries-Ends n q i

  left_by-Ends : (r : Failable fs.Dir (Saved fs.Dir)) → Ends Good Bad r → Bad (left_by r)
  left_by-Ends (ok s) h = to_bad s.total h.1 s.staging h.0
  left_by-Ends (err (e, d)) h = h

  extract-Ends :
      (staging : fs.Dir) (input : List ℕ) → I 0 staging → Ends Good Bad (extract fs staging input)
  unfolding extract
  extract-Ends staging input i =
      let p0 : Progress fs.Dir = record {
        rest = input;
        offset = 0;
        saved = nothing_saved staging;
      } in
      Ends-bind GoodEnd Good Bad (entries fs max_entries p0) _
        (entries-Ends max_entries p0 (i, omega arith))
        λ p good.
          Ends-bind _ Good Bad (ensure (ltb 0 p.saved.files) (no_files, p.saved.staging)) _
            (Ends-ensure Bad p.saved.staging (ltb 0 p.saved.files) no_files
              (to_bad p.saved.total good.1 p.saved.staging good.0))
            λ u q. good

  pub extract-Counts :
      (staging : fs.Dir) (input : List ℕ) → I 0 staging → Bad (left_by (extract fs staging input))
  extract-Counts staging input i =
      left_by-Ends (extract fs staging input) (extract-Ends staging input i)
