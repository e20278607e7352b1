-- ===== src/Airdrop/Http.antt =====
-- src/airdrop/http.rs: the reader of requests, over the bytes that arrive. A text is its scalar values. The time limits
-- of reading are left out.
use adhoc_cross_device_conne.Prelude.{
  ℕ, zero, suc, ◌+◌, ◌-◌, ◌*◌, ◌^◌, Bool, true, false, not, ◌&&◌, ◌||◌, List, [], ◌∷◌, ◌++◌, Option,
  none, some, ◌==◌, leb, in_range, if◌then◌else◌, bytes_eq, length, take, drop,
}
use adhoc_cross_device_conne.Prelude.Bytes.{codes}
use adhoc_cross_device_conne.Prelude.Digits.{digits, from_str_radix}
use adhoc_cross_device_conne.Prelude.Scalars.{from_utf8}
use adhoc_cross_device_conne.Prelude.Result.{Result, ok, err, ensure, context, ◌>>=◌, ◌>>◌}
use adhoc_cross_device_conne.Airdrop.Paths.{Name, len}
use adhoc_cross_device_conne.Airdrop.Outgoing.{to_ascii_lowercase}
use adhoc_cross_device_conne.Airdrop.Staging.{max_transfer}

pub data Error : Type 0 where
  connection_closed line_too_long bad_line_ending not_utf8 unsupported_request unknown_endpoint
        headers_too_large malformed_header duplicate_header not_accepted ambiguous_framing
        unsupported_encoding bad_length body_too_large bad_chunk_size chunked_too_large
        trailers_too_large bad_chunk_end cut_short stuck :
      Error

pub data Endpoint : Type 0 where
  discover ask upload : Endpoint

abbrev pub Headers : Type 0
Headers = List (Name × Name)

pub record Request : Type 0 where
  pub path : Endpoint
  pub headers : Headers
  pub body : List ℕ
  pub spooled : Option (List ℕ)

abbrev pub crlf : List ℕ
crlf = 0x0d ∷ 0x0a ∷ []

-- The bytes up to a line feed, without it, and those behind it.
unfoldable pub split_line : List ℕ → Option (List ℕ × List ℕ)
split_line [] = none
split_line (b ∷ bs) =
    let more = split_line bs in
    if b == 0x0a
    then some ([], bs)
    else elim more [ none ↦ none | some (front, rest) ↦ some (b ∷ front, rest) ]

-- The text before a final carriage return.
unfoldable pub strip_cr : List ℕ → Option (List ℕ)
strip_cr [] = none
strip_cr (b ∷ []) = if b == 0x0d then some [] else none
strip_cr (b ∷ c ∷ cs) = elim (strip_cr (c ∷ cs)) [ none ↦ none | some front ↦ some (b ∷ front) ]

abbrev pub line_limit : ℕ
line_limit = 8192

-- A line that does not end within the limit is too long, and one that the end of the connection cuts is lost.
unfoldable pub line : List ℕ → Result Error (Name × List ℕ)
line input = elim (split_line input) [
  | none ↦ if leb (length input) line_limit then err connection_closed else err line_too_long
  | some (front, rest) ↦
      ensure (leb (suc (length front)) line_limit) line_too_long
      >> context (strip_cr front) bad_line_ending
      >>= λ bs. context (from_utf8 bs) not_utf8 >>= λ text. ok (text, rest)
]

-- `char::is_whitespace`
unfoldable pub is_whitespace : ℕ → Bool
is_whitespace c =
    in_range 0x09 0x0d c
    || c == 0x20
    || c == 0x85
    || c == 0xa0
    || c == 0x1680
    || in_range 0x2000 0x200a c
    || in_range 0x2028 0x2029 c
    || c == 0x202f
    || c == 0x205f
    || c == 0x3000

unfoldable pub finish_word : Name × List Name → List Name
finish_word ([], ws) = ws
finish_word (c ∷ cs, ws) = (c ∷ cs) ∷ ws

-- `str::split_whitespace`: a word that begins, and the words behind it.
unfoldable pub words : Name → Name × List Name
words [] = ([], [])
words (c ∷ cs) =
    let rest = words cs in if is_whitespace c then ([], finish_word rest) else (c ∷ rest.0, rest.1)

unfoldable pub split_whitespace : Name → List Name
split_whitespace text = finish_word (words text)

unfoldable pub trim_start : Name → Name
trim_start [] = []
trim_start (c ∷ cs) = if is_whitespace c then trim_start cs else c ∷ cs

unfoldable pub trim_end : Name → Name
trim_end [] = []
trim_end (c ∷ cs) = elim (trim_end cs) [
  | [] ↦ if is_whitespace c then [] else c ∷ []
  | d ∷ ds ↦ c ∷ d ∷ ds
]

abbrev pub trim : Name → Name
trim text = trim_start (trim_end text)

-- What stands before the first of a character, and behind it if it is there.
unfoldable pub split_once : ℕ → Name → Name × Option Name
split_once x [] = ([], none)
split_once x (c ∷ cs) =
    let rest = split_once x cs in if c == x then ([], some cs) else (c ∷ rest.0, rest.1)

unfoldable pub get : Name → Headers → Option Name
get k [] = none
get k ((n, v) ∷ hs) = if bytes_eq k n then some v else get k hs

unfoldable pub endpoint : Name → Result Error Endpoint
endpoint path =
    if bytes_eq path (codes "/Discover")
    then ok discover
    else if bytes_eq path (codes "/Ask")
    then ok ask
    else if bytes_eq path (codes "/Upload")
    then ok upload
    else err unknown_endpoint

unfoldable pub request_line : Name → Result Error Endpoint
request_line first = elim (split_whitespace first) [
  | method ∷ path ∷ version ∷ [] ↦
      ensure (bytes_eq method (codes "POST") && bytes_eq version (codes "HTTP/1.1"))
        unsupported_request
      >> endpoint path
  | _ ↦ err unsupported_request
]

unfoldable pub insert_header : Name → Option Name → Headers → Result Error Headers
insert_header k none headers = err malformed_header
insert_header k (some v) headers =
    let key = to_ascii_lowercase k in
    elim (get key headers) [ some old ↦ err duplicate_header | none ↦ ok ((key, trim v) ∷ headers) ]

unfoldable pub add_header : Name → Headers → Result Error Headers
add_header text headers = let parts = split_once 0x3a text in insert_header parts.0 parts.1 headers

-- Each line takes a byte at least, so one unit of fuel more than the input has bytes is enough.
unfoldable pub read_headers : ℕ → ℕ → Headers → List ℕ → Result Error (Headers × List ℕ)
read_headers zero total headers input = err stuck
read_headers (suc fuel) total headers input = do
  (text, rest) ← line input
  ensure (leb (total + len text) 32768) headers_too_large
  if length text == 0
      then ok (headers, rest)
      else (add_header text headers >>= λ more. read_headers fuel (total + len text) more rest)

unfoldable pub limit_of : Bool → Endpoint → ℕ
limit_of true upload = max_transfer
limit_of false upload = 64 * 2 ^ 20
limit_of spool discover = 2 ^ 20
limit_of spool ask = 2 ^ 20

unfoldable pub is_some : Option Name → Bool
is_some none = false
is_some (some v) = true

unfoldable pub eq_ignore_ascii_case : Name → Option Name → Bool
eq_ignore_ascii_case word none = false
eq_ignore_ascii_case word (some v) = bytes_eq (to_ascii_lowercase v) word

-- `content-length`, which is zero if it is missing.
unfoldable pub content_length : Option Name → Result Error ℕ
content_length none = ok 0
content_length (some v) = context (from_str_radix 10 v) bad_length

-- Whether the body comes in chunks, and its length if it does not.
unfoldable pub framing : ℕ → Headers → Result Error (Bool × ℕ)
framing limit headers = do
  let te = get (codes "transfer-encoding") headers
  let cl = get (codes "content-length") headers
  ensure (not (is_some te && is_some cl)) ambiguous_framing
  ensure (not (is_some te) || eq_ignore_ascii_case (codes "chunked") te) unsupported_encoding
  n ← content_length cl
  ensure (leb n limit) body_too_large
  ok (is_some te, n)

-- `copy_body`: the next `n` bytes of the stream.
unfoldable pub copy_body : ℕ → List ℕ → Result Error (List ℕ × List ℕ)
copy_body n input = if leb n (length input) then ok (take n input, drop n input) else err cut_short

unfoldable pub chunk_size : Name → Result Error ℕ
chunk_size text = context (from_str_radix 16 (trim (split_once 0x3b text).0)) bad_chunk_size

unfoldable pub read_trailers : ℕ → ℕ → List ℕ → Result Error (List ℕ)
read_trailers zero total input = err stuck
read_trailers (suc fuel) total input = do
  (text, rest) ← line input
  ensure (leb (total + len text) 8192) trailers_too_large
  if length text == 0 then ok rest else read_trailers fuel (total + len text) rest

-- One chunk of `n` bytes, and the end of its line.
unfoldable pub read_chunk : ℕ → ℕ → ℕ → List ℕ → Result Error (List ℕ × List ℕ)
read_chunk limit consumed n input = do
  ensure (leb n (limit - consumed)) chunked_too_large
  (contents, after) ← copy_body n input
  (end, rest) ← copy_body 2 after
  ensure (bytes_eq end crlf) bad_chunk_end
  ok (contents, rest)

unfoldable pub read_chunks : ℕ → ℕ → ℕ → List ℕ → Result Error (List ℕ × List ℕ)
read_chunks zero limit consumed input = err stuck
read_chunks (suc fuel) limit consumed input = do
  (text, after) ← line input
  n ← chunk_size text
  if n == 0
      then (read_trailers (suc (length after)) 0 after >>= λ rest. ok ([], rest))
      else (read_chunk limit consumed n after >>= λ c.
          read_chunks fuel limit (consumed + n) c.1 >>= λ more. ok (c.0 ++ more.0, more.1))

unfoldable pub read_body : ℕ → Bool × ℕ → List ℕ → Result Error (List ℕ × List ℕ)
read_body limit (true, n) input = read_chunks (suc (length input)) limit 0 input
read_body limit (false, n) input = copy_body n input

unfoldable pub reason : ℕ → List ℕ
reason status =
    if status == 200
    then codes "OK"
    else if status == 400
    then codes "Bad Request"
    else if status == 403
    then codes "Forbidden"
    else if status == 415
    then codes "Unsupported Media Type"
    else codes "Internal Server Error"

-- The bytes of a response whose connection is kept, or closed.
unfoldable pub response : List ℕ → ℕ → List ℕ → List ℕ
response connection status body =
    codes "HTTP/1.1 "
    ++ digits 10 status
    ++ codes " "
    ++ reason status
    ++ crlf
    ++ codes "Content-Type: application/octet-stream"
    ++ crlf
    ++ codes "Content-Length: "
    ++ digits 10 (length body)
    ++ crlf
    ++ codes "Connection: "
    ++ connection
    ++ crlf
    ++ crlf
    ++ body

unfoldable pub respond : ℕ → List ℕ → List ℕ
respond status body = response (codes "keep-alive") status body

unfoldable pub respond_close : ℕ → List ℕ → List ℕ
respond_close status body = response (codes "close") status body

unfoldable pub refused : Endpoint → Bool → Bool
refused upload authorized = not authorized
refused discover authorized = false
refused ask authorized = false

-- The request, whose body is spooled or not.
unfoldable pub request : Bool → Endpoint → Headers → List ℕ → Request
request true upload headers body = record {
  path = upload;
  headers = headers;
  body = [];
  spooled = some body;
}
request spool path headers body = record {
  path = path;
  headers = headers;
  body = body;
  spooled = none;
}

unfoldable pub interim : Headers → List ℕ
interim headers =
    if eq_ignore_ascii_case (codes "100-continue") (get (codes "expect") headers)
    then codes "HTTP/1.1 100 Continue" ++ crlf ++ crlf
    else []

-- What follows the headers: the bytes that are sent, and the request or an error.
unfoldable pub receive_body :
    Bool → Endpoint → Headers → List ℕ → List ℕ × Result Error (Request × List ℕ)
receive_body spool path headers input = elim (framing (limit_of spool path) headers) [
  | err e ↦ ([], err e)
  | ok f ↦ (
    interim headers,
    read_body (limit_of spool path) f input >>= λ b. ok (request spool path headers b.0, b.1),
  )
]

unfoldable pub read_head : List ℕ → Result Error (Endpoint × (Headers × List ℕ))
read_head input = do
  (first, after) ← line input
  path ← request_line first
  (headers, rest) ← read_headers (suc (length after)) 0 [] after
  ok (path, (headers, rest))

-- `authorized` is what `authorize` answers, if it is asked.
unfoldable pub read_inner : Bool → Bool → List ℕ → List ℕ × Result Error (Request × List ℕ)
read_inner spool authorized input = elim (read_head input) [
  | err e ↦ ([], err e)
  | ok (path, (headers, rest)) ↦
      if refused path authorized
      then (respond 403 [], err not_accepted)
      else receive_body spool path headers rest
]
