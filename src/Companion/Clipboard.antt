-- ===== src/Companion/Clipboard.antt =====
-- src/companion_client.rs: the `uc` module, Universal Clipboard payloads as OPACK values.
use adhoc_cross_device_conne.Prelude.{
  ℕ, ◌≡◌, refl, Bool, ◌||◌, List, [], ◌∷◌, Option, some, none, bytes_eq, if◌then◌else◌,
}
use adhoc_cross_device_conne.Prelude.Bytes.{codes}
use adhoc_cross_device_conne.Prelude.Utf8.{valid_utf8}
use adhoc_cross_device_conne.Prelude.Result.{Result, ok, context, ◌>>=◌}
use adhoc_cross_device_conne.Opack.{
  Value, int, str, bytes, array, Items, nil, cons, dict_of, get, as_str, as_bytes,
}
use adhoc_cross_device_conne.Companion.{
  Error, missing_items, items_not_array, missing_item_type, missing_item_data,
}
use Prim.Native.String.{String}

abbrev pub msg_request : ℕ
msg_request = 1

abbrev pub msg_response : ℕ
msg_response = 2

pub record PasteboardItem : Type 0 where
  pub uti : List ℕ
  pub data_bytes : List ℕ

abbrev pub Pasteboard : Type 0
Pasteboard = List PasteboardItem

is_text : PasteboardItem → Bool
is_text it =
    bytes_eq it.uti (codes "public.utf8-plain-text") || bytes_eq it.uti (codes "public.text")

-- The first item of a text type, when its data is UTF-8.
unfoldable pub plain_text : Pasteboard → Option (List ℕ)
unfolding is_text
plain_text [] = none
plain_text (it ∷ items) =
    if is_text it
    then (if valid_utf8 it.data_bytes then some it.data_bytes else none)
    else plain_text items

pub record SystemInfo : Type 0 where
  pub name : List ℕ
  pub model : List ℕ
  pub os_version : List ℕ

unfoldable pub to_value : SystemInfo → ℕ → Value
to_value s msg_type = dict_of (
    ("_t", int msg_type)
    ∷ ("_i", str (codes "SystemInfo"))
    ∷ ("name", str s.name)
    ∷ ("model", str s.model)
    ∷ ("os", str s.os_version)
    ∷ [])

string_at : Value → String → List ℕ
string_at v key = elim (get v key) [
  | none ↦ []
  | some x ↦ elim (as_str x) [ some s ↦ s | none ↦ [] ]
]

unfoldable pub from_value : Value → SystemInfo
unfolding string_at
from_value v = record {
  name = string_at v "name";
  model = string_at v "model";
  os_version = string_at v "os";
}

unfoldable pub build_pasteboard_request : ℕ → Value
build_pasteboard_request xid =
    dict_of (("_t", int msg_request) ∷ ("_i", str (codes "FetchPasteboard")) ∷ ("_x", int xid) ∷ [])

item_value : PasteboardItem → Value
item_value it = dict_of (("type", str it.uti) ∷ ("data", bytes it.data_bytes) ∷ [])

item_values : Pasteboard → Items
item_values [] = nil
item_values (it ∷ items) = cons (item_value it) (item_values items)

unfoldable pub build_pasteboard_response : ℕ → Pasteboard → Value
unfolding item_values item_value
build_pasteboard_response xid pb =
    dict_of (("_t", int msg_response) ∷ ("_x", int xid) ∷ ("items", array (item_values pb)) ∷ [])

parse_item : Value → Result Error PasteboardItem
parse_item it = do
  t ← context (get it "type") missing_item_type
  uti ← context (as_str t) missing_item_type
  d ← context (get it "data") missing_item_data
  contents ← context (as_bytes d) missing_item_data
  ok (record { uti = uti; data_bytes = contents })

-- The loop over the array's items; the first that is malformed ends it.
parse_items : Items → Result Error Pasteboard
parse_items nil = ok []
parse_items (cons it items) = do i ← parse_item it; rest ← parse_items items; ok (i ∷ rest)

as_array : Value → Option Items
as_array (array items) = some items
as_array _ = none

unfoldable pub parse_pasteboard_response : Value → Result Error Pasteboard
unfolding parse_items parse_item as_array
parse_pasteboard_response v = do
  items_val ← context (get v "items") missing_items
  items ← context (as_array items_val) items_not_array
  parse_items items

-- System information is read back from the value that is made of it, as a request and as a response.
from_value-to_value : (s : SystemInfo) (msg_type : ℕ) → from_value (to_value s msg_type) ≡ s
unfolding from_value to_value string_at get as_str
from_value-to_value s msg_type = refl

parse_items-item_values : (pb : Pasteboard) → parse_items (item_values pb) ≡ ok pb
unfolding parse_items parse_item item_values item_value get as_str as_bytes
parse_items-item_values [] = refl
parse_items-item_values (it ∷ items) = rw (parse_items-item_values items) refl

-- A pasteboard is read back, in order, from the response that is made of it.
pub parse-build_pasteboard_response :
    (xid : ℕ) (pb : Pasteboard)
    → parse_pasteboard_response (build_pasteboard_response xid pb) ≡ ok pb
unfolding parse_pasteboard_response build_pasteboard_response get as_array
parse-build_pasteboard_response xid pb = parse_items-item_values pb
