-- ===== src/Airdrop/Listing.antt =====
-- src/airdrop/storage.rs, src/airdrop/outgoing.rs: an archive as the list of its files and directories, the bytes that
-- hold it, and what a receiver does with it.
use adhoc_cross_device_conne.Prelude.{
  ℕ, zero, suc, ◌+◌, ◌≤◌, ◌<◌, ◌^◌, ◌≡◌, ◌≢◌, refl, ap, ◌∙◌, true, false, List, [], ◌∷◌, ◌++◌, ltb,
  leb, length, take-append, drop-append, append_assoc, All, arith, inl, inr,
}
use adhoc_cross_device_conne.Prelude.Scalars.{IsScalar}
use adhoc_cross_device_conne.Prelude.Result.{ok, err, ensure, ◌>>=◌, ◌>>◌, >>=-eq-ok, Result-cases}
use adhoc_cross_device_conne.Airdrop.Paths.{
  Name, len, relative, split, extend, components, nonempty, is_skipped,
}
use adhoc_cross_device_conne.Airdrop.SafeNames.{IsSafe}
use adhoc_cross_device_conne.Airdrop.PathSafety.{
  join, has_backslash-join, split-join, components_safe,
}
use adhoc_cross_device_conne.Airdrop.Cpio.{Error, Head, path_result, no_files}
use adhoc_cross_device_conne.Airdrop.Staging.{
  FileSystem, Failable, Saved, nothing_saved, count_size, make_directory, regular_entry, path_entry,
}
use adhoc_cross_device_conne.Airdrop.Extract.{
  Progress, finished, continued, max_entries, trailer_name, is_root, payload, named_entry, entry,
  entries, extract,
}
use adhoc_cross_device_conne.Airdrop.Outgoing.{header_bytes, dot_slash}
use adhoc_cross_device_conne.Airdrop.Headers.{read_head-header_bytes, pad_one}

pub data Listed : Type 0 where
  directory : List Name → Listed
  regular : List Name → List ℕ → Listed

abbrev pub path_of : Listed → List Name
path_of (directory path) = path
path_of (regular path contents) = path

abbrev pub contents_of : Listed → List ℕ
contents_of (directory path) = []
contents_of (regular path contents) = contents

abbrev pub mode_of : Listed → ℕ
mode_of (directory path) = 0x41c0
mode_of (regular path contents) = 0x8180

abbrev pub sent_name : Listed → Name
sent_name e = dot_slash (join (path_of e))

-- The header and the contents of the entry with a number.
abbrev pub written_entry : ℕ → Listed → List ℕ
written_entry ino e =
    header_bytes (sent_name e) (length (contents_of e)) (mode_of e) ino ++ contents_of e

-- The entries behind the first `count` of an archive.
abbrev pub written : ℕ → List Listed → List ℕ
written count [] = []
written count (e ∷ es) = written_entry (suc count) e ++ written (suc count) es

abbrev pub trailer : List ℕ
trailer = header_bytes trailer_name 0 0 0

-- An entry that an archive can hold: it has a path of safe components, of at most 4095 bytes as it is sent,
-- and fewer than 8 GiB.
pub record IsSendable (e : Listed) : Type 0 where
  pub has_path : path_of e ≢ []
  pub path_safe : All IsSafe (path_of e)
  pub name_scalar : All IsScalar (sent_name e)
  pub name_short : len (sent_name e) ≤ 4095
  pub size_fits : length (contents_of e) < 8 ^ 11

mode_fits : (e : Listed) → mode_of e < 8 ^ 6
mode_fits (directory path) = omega arith
mode_fits (regular path contents) = omega arith

trailer-IsScalar : All IsScalar trailer_name
trailer-IsScalar = (
  inl (omega arith),
  (
    inl (omega arith),
    (
      inl (omega arith),
      (
        inl (omega arith),
        (
          inl (omega arith),
          (
            inl (omega arith),
            (inl (omega arith), (inl (omega arith), (inl (omega arith), (inl (omega arith), tt)))),
          ),
        ),
      ),
    ),
  ),
)

relative-dot_slash :
    (path : List Name)
    → path ≢ []
    → All IsSafe path
    → len (dot_slash (join path)) ≤ 4095
    → relative (dot_slash (join path)) ≡ ok path
unfolding relative nonempty split extend components is_skipped
relative-dot_slash [] some_part h k = absurd (some_part refl)
relative-dot_slash (p ∷ ps) some_part h k =
    let e : leb (len (dot_slash (join (p ∷ ps)))) 4096 ≡ true = ground arith in
    rw (has_backslash-join (p ∷ ps) h, e, split-join p ps h, components_safe (p ∷ ps) h) refl

is_root-dot_slash :
    (path : List Name) → path ≢ [] → All IsSafe path → is_root (dot_slash (join path)) ≡ false
unfolding is_root
is_root-dot_slash [] some_part h = absurd (some_part refl)
is_root-dot_slash ([] ∷ ps) some_part h = absurd (h.0.not_empty refl)
is_root-dot_slash ((c ∷ p) ∷ []) some_part h = refl
is_root-dot_slash ((c ∷ p) ∷ q ∷ ps) some_part h = refl

module _ (fs : FileSystem) where
  -- What the receiver does for an entry, and for one entry after another.
  abbrev pub place : Listed → Saved fs.Dir → Failable fs.Dir (Saved fs.Dir)
  place (directory path) s = make_directory fs path 0 s
  place (regular path contents) s = regular_entry fs path (length contents) contents s

  abbrev pub receive_one : Listed → Saved fs.Dir → Failable fs.Dir (Saved fs.Dir)
  receive_one e s = count_size (length (contents_of e)) s >>= λ counted. place e counted

  abbrev pub receive_each : List Listed → Saved fs.Dir → Failable fs.Dir (Saved fs.Dir)
  receive_each [] s = ok s
  receive_each (e ∷ es) s = receive_one e s >>= λ s'. receive_each es s'

  abbrev head_of : Listed → Head
  head_of e = record {
    mode = mode_of e;
    size = length (contents_of e);
    namesize = len (sent_name e) + 1;
    align = 1;
    hlen = 76;
  }

  payload-place :
      (e : Listed) (offset : ℕ) (rest : List ℕ) (s s' : Saved fs.Dir)
      → IsSendable e
      → place e s ≡ ok s'
      → payload fs (head_of e) (sent_name e) offset (contents_of e ++ rest) s
        ≡ ok (
            continued
              (record { rest = rest; offset = offset + length (contents_of e) + 0; saved = s' }))
  unfolding payload path_entry path_result
  payload-place (directory path) offset rest s s' h e =
      rw (relative-dot_slash path h.has_path h.path_safe h.name_short, e, pad_one (offset + 0) rest)
        refl
  payload-place (regular path contents) offset rest s s' h e =
      rw
        (
          relative-dot_slash path h.has_path h.path_safe h.name_short,
          take-append contents rest,
          e,
          drop-append contents rest,
          pad_one (offset + length contents) rest,
        )
        refl

  payload-fails :
      (e : Listed) (offset : ℕ) (rest : List ℕ) (s : Saved fs.Dir) (x : Error × fs.Dir)
      → IsSendable e
      → place e s ≡ err x
      → payload fs (head_of e) (sent_name e) offset (contents_of e ++ rest) s ≡ err x
  unfolding payload path_entry path_result
  payload-fails (directory path) offset rest s x h e =
      rw (relative-dot_slash path h.has_path h.path_safe h.name_short, e) refl
  payload-fails (regular path contents) offset rest s x h e =
      rw (relative-dot_slash path h.has_path h.path_safe h.name_short, take-append contents rest, e)
        refl

  -- An entry that was written leads the loop to the entry behind it, with what the receiver does for it done.
  entry-named :
      (e : Listed) (ino : ℕ) (rest : List ℕ) (offset : ℕ) (s : Saved fs.Dir)
      → IsSendable e
      → ino < 8 ^ 6
      → (o : ℕ) × (entry fs
            (record { rest = written_entry ino e ++ rest; offset = offset; saved = s })
          ≡ named_entry fs (head_of e) (sent_name e) o (contents_of e ++ rest) s)
  unfolding entry
  entry-named e ino rest offset s h small =
      let (head_read, name_read) =
        read_head-header_bytes (sent_name e) (length (contents_of e)) (mode_of e) ino
          (contents_of e ++ rest) h.name_scalar h.name_short h.size_fits (mode_fits e) small in
      let apart : written_entry ino e ++ rest
          ≡ header_bytes (sent_name e) (length (contents_of e)) (mode_of e) ino
            ++ (contents_of e ++ rest) =
        append_assoc (header_bytes (sent_name e) (length (contents_of e)) (mode_of e) ino)
          (contents_of e) rest in
      (
        offset + (76 + (len (sent_name e) + 1)) + 0,
        rw
            (
              apart,
              head_read,
              name_read,
              pad_one (offset + (76 + (len (sent_name e) + 1))) (contents_of e ++ rest),
            )
            refl,
      )

  named_entry-ok :
      (e : Listed) (o : ℕ) (rest : List ℕ) (s s' : Saved fs.Dir)
      → IsSendable e
      → receive_one e s ≡ ok s'
      → (o' : ℕ) × (named_entry fs (head_of e) (sent_name e) o (contents_of e ++ rest) s
          ≡ ok (continued (record { rest = rest; offset = o'; saved = s' })))
  unfolding named_entry
  named_entry-ok e o rest s s' h k =
      let (counted, f, g) = >>=-eq-ok (count_size (length (contents_of e)) s) _ k in
      (
        o + length (contents_of e) + 0,
        rw (f, is_root-dot_slash (path_of e) h.has_path h.path_safe)
            (payload-place e o rest counted s' h g),
      )

  named_entry-fails :
      (e : Listed) (o : ℕ) (rest : List ℕ) (s : Saved fs.Dir) (x : Error × fs.Dir)
      → IsSendable e
      → receive_one e s ≡ err x
      → named_entry fs (head_of e) (sent_name e) o (contents_of e ++ rest) s ≡ err x
  unfolding named_entry
  named_entry-fails e o rest s x h k = elim (Result-cases (count_size (length (contents_of e)) s)) [
    | inr (y, f) ↦
        (let same : ◌≡◌ {A = Failable fs.Dir (Saved fs.Dir)} (err y) (err x) = rw f at k in
          let same' : y ≡ x = cc in rw (f, same') refl)
    | inl (counted, f) ↦
        let g : place e counted ≡ err x = rw f at k in
        rw (f, is_root-dot_slash (path_of e) h.has_path h.path_safe)
          (payload-fails e o rest counted x h g)
  ]

  entry-ok :
      (e : Listed) (ino : ℕ) (rest : List ℕ) (offset : ℕ) (s s' : Saved fs.Dir)
      → IsSendable e
      → ino < 8 ^ 6
      → receive_one e s ≡ ok s'
      → (o : ℕ) × (entry fs
            (record { rest = written_entry ino e ++ rest; offset = offset; saved = s })
          ≡ ok (continued (record { rest = rest; offset = o; saved = s' })))
  entry-ok e ino rest offset s s' h small k =
      let (o, f) = entry-named e ino rest offset s h small in
      let (o', g) = named_entry-ok e o rest s s' h k in (o', f ∙ g)

  entry-fails :
      (e : Listed) (ino : ℕ) (rest : List ℕ) (offset : ℕ) (s : Saved fs.Dir) (x : Error × fs.Dir)
      → IsSendable e
      → ino < 8 ^ 6
      → receive_one e s ≡ err x
      → entry fs (record { rest = written_entry ino e ++ rest; offset = offset; saved = s }) ≡ err x
  entry-fails e ino rest offset s x h small k =
      let (o, f) = entry-named e ino rest offset s h small in f ∙ named_entry-fails e o rest s x h k

  entry-trailer :
      (junk : List ℕ) (offset : ℕ) (s : Saved fs.Dir)
      → (o : ℕ) × (entry fs (record { rest = trailer ++ junk; offset = offset; saved = s })
          ≡ ok (finished (record { rest = junk; offset = o; saved = s })))
  unfolding entry named_entry
  entry-trailer junk offset s =
      let (head_read, name_read) =
        read_head-header_bytes trailer_name 0 0 0 junk trailer-IsScalar (omega arith) (omega arith)
          (omega arith) (omega arith) in
      (offset + (76 + 11) + 0, rw (head_read, name_read, pad_one (offset + (76 + 11)) junk) refl)

  -- The saved part of a loop's result.
  abbrev saved_of : Failable fs.Dir (Progress fs.Dir) → Failable fs.Dir (Saved fs.Dir)
  saved_of r = r >>= λ p. ok p.saved

  entries-written :
      (es : List Listed) (n count : ℕ) (junk : List ℕ) (offset : ℕ) (s : Saved fs.Dir)
      → All IsSendable es
      → length es < n
      → count + length es < 8 ^ 6
      → saved_of (
          entries fs n
            (record { rest = written count es ++ (trailer ++ junk); offset = offset; saved = s }))
        ≡ receive_each es s
  unfolding entries
  entries-written es zero count junk offset s h k l = absurd (omega arith)
  entries-written [] (suc n) count junk offset s h k l =
      (let (o, f) = entry-trailer junk offset s in rw f refl)
  entries-written (e ∷ es) (suc n) count junk offset s h k l =
      let rest = written (suc count) es ++ (trailer ++ junk) in
      let apart : written count (e ∷ es) ++ (trailer ++ junk)
          ≡ written_entry (suc count) e ++ rest =
        append_assoc (written_entry (suc count) e) (written (suc count) es) (trailer ++ junk) in
      elim (Result-cases (receive_one e s)) [
        | inr (x, f) ↦
            let g = entry-fails e (suc count) rest offset s x h.0 (omega arith) f in
            rw (apart, g, f) refl
        | inl (s', f) ↦
            let (o, g) = entry-ok e (suc count) rest offset s s' h.0 (omega arith) f in
            rw (apart, g, f)
              (entries-written es n (suc count) junk o s' h.1 (omega arith) (omega arith))
      ]

  saved_of-then :
      (r : Failable fs.Dir (Progress fs.Dir)) (f : Saved fs.Dir → Failable fs.Dir (Saved fs.Dir))
      → (r >>= λ p. f p.saved) ≡ (saved_of r >>= f)
  saved_of-then (ok p) f = refl
  saved_of-then (err x) f = refl

  -- The receiver of an archive with fewer than 65536 sendable entries, whatever follows the trailer, does for each of its
  -- entries in turn what its path and its contents call for, and then needs at least one file; it fails as the first of
  -- these that fails.
  pub extract-written :
      (es : List Listed) (junk : List ℕ) (staging : fs.Dir)
      → All IsSendable es
      → length es < max_entries
      → extract fs staging (written 0 es ++ (trailer ++ junk)) ≡ (
          receive_each es (nothing_saved staging) >>= λ s.
          (ensure (ltb 0 s.files) (no_files, s.staging) >> ok s))
  unfolding extract
  extract-written es junk staging h k =
      let r = entries fs max_entries (record {
        rest = written 0 es ++ (trailer ++ junk);
        offset = 0;
        saved = nothing_saved staging;
      }) in
      let e = entries-written es max_entries 0 junk 0 (nothing_saved staging) h k (omega arith) in
      saved_of-then r (λ s. (ensure (ltb 0 s.files) (no_files, s.staging) >> ok s))
      ∙ ap
          (λ (x : Failable fs.Dir (Saved fs.Dir)).
            x >>= λ s. (ensure (ltb 0 s.files) (no_files, s.staging) >> ok s))
          e
