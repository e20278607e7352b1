-- ===== src/Airdrop/Outgoing.antt =====
-- src/airdrop/outgoing.rs: the archive of the selected files and folders. What is read from the disk is a
-- tree; that a file changes or cannot be read while it is archived, and the cancellation, are left out.
use adhoc_cross_device_conne.Prelude.{
  ℕ, suc, ◌+◌, ◌-◌, ◌^◌, Bool, true, false, not, ◌&&◌, ◌||◌, List, [], ◌∷◌, ◌++◌, Option, some,
  none, ltb, leb, in_range, ◌==◌, if◌then◌else◌, bytes_eq, length, parts,
}
use adhoc_cross_device_conne.Prelude.Bytes.{codes}
use adhoc_cross_device_conne.Prelude.Digits.{padded}
use adhoc_cross_device_conne.Prelude.Scalars.{as_bytes, from_utf8}
use adhoc_cross_device_conne.Prelude.Result.{Result, ok, err, ensure, context, ◌>>=◌, ◌>>◌}
use adhoc_cross_device_conne.Airdrop.Paths.{Name, len, slash}
use adhoc_cross_device_conne.Airdrop.Staging.{max_transfer, stem_and_extension}
use adhoc_cross_device_conne.Airdrop.Extract.{max_entries, trailer_name}

pub data Error : Type 0 where
  file_too_large too_deep path_too_long too_many_files unsupported_kind transfer_too_large not_utf8
        unsupported_filename item_count duplicate_names block_too_large archive_too_large :
      Error

-- A name on the disk is its bytes; a folder's children come in any order.
mutual
  pub data Node : Type 0 where
    file : List ℕ → Node
    folder : Children → Node
    special : Node

  pub data Children : Type 0 where
    nil : Children
    cons : List ℕ → Node → Children → Children

abbrev octal6 : ℕ → List ℕ
octal6 n = padded 6 8 n

abbrev octal11 : ℕ → List ℕ
octal11 n = padded 11 8 n

-- The numbers of a header, its name and its final zero.
unfoldable pub header_bytes : Name → ℕ → ℕ → ℕ → List ℕ
header_bytes name size mode ino =
    codes "070707"
    ++ parts
        (octal6 0
          ∷ octal6 ino
          ∷ octal6 mode
          ∷ octal6 0
          ∷ octal6 0
          ∷ octal6 1
          ∷ octal6 0
          ∷ octal11 0
          ∷ octal6 (len name + 1)
          ∷ octal11 size
          ∷ [])
        (as_bytes name ++ 0 ∷ [])

unfoldable pub header : Name → ℕ → ℕ → ℕ → Result Error (List ℕ)
header name size mode ino =
    ensure (ltb size (8 ^ 11)) file_too_large >> ok (header_bytes name size mode ino)

-- `file_name()` of a path, if it has one.
unfoldable pub has_unsupported : Name → Bool
has_unsupported [] = false
has_unsupported (c ∷ cs) = (leb c 0x1f || in_range 0x7f 0x9f c || c == 0x5c) || has_unsupported cs

unfoldable pub utf8_name : Option (List ℕ) → Option Name
utf8_name none = none
utf8_name (some base) = from_utf8 base

unfoldable pub filename : Option (List ℕ) → Result Error Name
filename base = do
  name ← context (utf8_name base) not_utf8
  ensure
      (leb (len name) 255
        && not (has_unsupported name)
        && not (bytes_eq name (codes "."))
        && not (bytes_eq name (codes "..")))
      unsupported_filename
  ok name

-- The order of two names, byte by byte.
unfoldable pub before : List ℕ → List ℕ → Bool
before [] ys = true
before (x ∷ xs) [] = false
before (x ∷ xs) (y ∷ ys) = ltb x y || (x == y && before xs ys)

unfoldable pub insert : List ℕ → Node → Children → Children
insert base node nil = cons base node nil
insert base node (cons b n cs) =
    let rest = insert base node cs in
    if before base b then cons base node (cons b n cs) else cons b n rest

-- `children.sort_by_key(|e| e.file_name())`, in every folder.
unfoldable mutual
  pub sorted : Node → Node
  sorted (file contents) = file contents
  sorted (folder cs) = folder (sort_by_key cs)
  sorted special = special

  pub sort_by_key : Children → Children
  sort_by_key nil = nil
  sort_by_key (cons base node cs) = insert base (sorted node) (sort_by_key cs)

-- The archive so far, the number of its entries and the size of its files.
pub record Archive : Type 0 where
  pub out : List ℕ
  pub count : ℕ
  pub total : ℕ

unfoldable pub begin_entry : ℕ → Name → Archive → Result Error ℕ
begin_entry depth name a = do
  ensure (leb depth 64) too_deep
  ensure (leb (len name) 4095) path_too_long
  ensure (ltb (suc a.count) max_entries) too_many_files
  ok (suc a.count)

unfoldable pub add_file : List ℕ → Name → ℕ → Archive → Result Error Archive
add_file contents name count a = do
  ensure (leb (length contents) (max_transfer - a.total)) transfer_too_large
  h ← header name (length contents) 0x8180 count
  ok (record { out = a.out ++ h ++ contents; count = count; total = a.total + length contents })

unfoldable mutual
  -- The children of the node are in order.
  pub add : Node → Name → ℕ → Archive → Result Error Archive
  add special name depth a = begin_entry depth name a >>= λ count. err unsupported_kind
  add (file contents) name depth a =
      begin_entry depth name a >>= λ count. add_file contents name count a
  add (folder cs) name depth a = begin_entry depth name a >>= λ count.
      header name 0 0x41c0 count >>= λ h.
      add_children cs name (suc depth) (record { out = a.out ++ h; count = count; total = a.total })

  pub add_children : Children → Name → ℕ → Archive → Result Error Archive
  add_children nil name depth a = ok a
  add_children (cons base node cs) name depth a = filename (some base) >>= λ b.
      add node (name ++ slash ∷ b) depth a >>= λ a'. add_children cs name depth a'

-- An item that the user selected: the `file_name()` of its path, and what stands there.
pub record Item : Type 0 where
  pub base : Option (List ℕ)
  pub node : Node

pub data FileType : Type 0 where
  public_folder public_png public_jpeg public_plain_text com_adobe_pdf com_apple_quicktime_movie
        public_mpeg_4 public_data :
      FileType

-- The dictionary that announces an item; `ConvertMediaFormats` is always 0.
pub record Metadata : Type 0 where
  pub file_name : Name
  pub file_bom_path : Name
  pub file_is_directory : Bool
  pub file_type : FileType

unfoldable pub is_dir : Node → Bool
is_dir (folder cs) = true
is_dir (file contents) = false
is_dir special = false

unfoldable pub to_ascii_lowercase : List ℕ → List ℕ
to_ascii_lowercase [] = []
to_ascii_lowercase (c ∷ cs) = (if in_range 0x41 0x5a c then c + 0x20 else c) ∷ to_ascii_lowercase cs

abbrev extension_type : Name → FileType
extension_type e =
    if bytes_eq e (codes "png")
    then public_png
    else if bytes_eq e (codes "jpg") || bytes_eq e (codes "jpeg")
    then public_jpeg
    else if bytes_eq e (codes "txt")
    then public_plain_text
    else if bytes_eq e (codes "pdf")
    then com_adobe_pdf
    else if bytes_eq e (codes "mov")
    then com_apple_quicktime_movie
    else if bytes_eq e (codes "mp4")
    then public_mpeg_4
    else public_data

-- The type of an item that is no folder.
unfoldable pub type_of : Name → FileType
type_of name = elim ((stem_and_extension name).1) [
  | none ↦ public_data
  | some e ↦ extension_type (to_ascii_lowercase e)
]

abbrev pub dot_slash : Name → Name
dot_slash name = 0x2e ∷ slash ∷ name

unfoldable pub describe : Name → Node → Metadata
describe name node = record {
  file_name = name;
  file_bom_path = dot_slash name;
  file_is_directory = is_dir node;
  file_type = if is_dir node then public_folder else type_of name;
}

unfoldable pub contains : List Name → Name → Bool
contains [] name = false
contains (n ∷ names) name = bytes_eq n name || contains names name

-- The loop over the items, with the names that were taken before.
unfoldable pub add_items : List Item → List Name → Archive → Result Error (List Metadata × Archive)
add_items [] names a = ok ([], a)
add_items (i ∷ items) names a = do
  name ← filename i.base
  ensure (not (contains names name)) duplicate_names
  a' ← add (sorted i.node) (dot_slash name) 0 a
  (metadata, a'') ← add_items items (name ∷ names) a'
  ok (describe name i.node ∷ metadata, a'')

-- The archive of all items, with its trailer.
unfoldable pub archive_items : List Item → Result Error (List Metadata × List ℕ)
archive_items items = do
  ensure (in_range 1 4096 (length items)) item_count
  (metadata, a) ← add_items items [] (record { out = []; count = 0; total = 0 })
  trailer ← header trailer_name 0 0 0
  ok (metadata, a.out ++ trailer)
