-- ===== src/Examples/Requests.antt =====
-- Requests at concrete inputs.
use adhoc_cross_device_conne.Prelude.{
  ℕ, ◌≤◌, ◌≡◌, ◌≢◌, ◌⊎◌, refl, true, false, List, [], ◌∷◌, ◌++◌, some, arith, length,
}
use adhoc_cross_device_conne.Prelude.Bytes.{codes}
use adhoc_cross_device_conne.Prelude.Digits.{
  digits, digits_fuel, digit_char, from_str_radix, read_digits, push_digit, to_digit,
}
use adhoc_cross_device_conne.Prelude.Scalars.{from_utf8, read_text, read_byte, lead, and_then}
use adhoc_cross_device_conne.Prelude.Result.{ok, err}
use adhoc_cross_device_conne.Airdrop.Outgoing.{to_ascii_lowercase}
use adhoc_cross_device_conne.Airdrop.Http.{
  crlf, upload, Request, not_accepted, split_line, strip_cr, line, is_whitespace, finish_word,
  words, split_whitespace, trim_start, trim_end, split_once, get, endpoint, request_line,
  insert_header, add_header, read_headers, limit_of, is_some, eq_ignore_ascii_case, content_length,
  framing, copy_body, chunk_size, read_trailers, read_chunk, read_chunks, read_body, reason,
  response, respond, refused, request, interim, receive_body, read_head, read_inner,
}
use adhoc_cross_device_conne.Airdrop.HttpBodies.{chunked, read_body-chunked}
use adhoc_cross_device_conne.Airdrop.HttpLimits.{body_of, read_inner_limits}

read_body-chunked_example :
    read_body 100 (true, 0) (chunked (codes "hello" ∷ codes "hi" ∷ []) (codes "POST"))
    ≡ ok (codes "hellohi", codes "POST")
read_body-chunked_example =
    read_body-chunked (codes "hello" ∷ codes "hi" ∷ []) 100 0 (codes "POST")
      (omega arith, (omega arith, tt)) (omega arith) (omega arith)

abbrev upload_head : List ℕ
upload_head =
    codes "POST /Upload HTTP/1.1" ++ crlf ++ codes "Transfer-Encoding: chunked" ++ crlf ++ crlf

abbrev upload_input : List ℕ
upload_input =
    upload_head ++ (codes "5" ++ crlf ++ codes "hello" ++ crlf ++ codes "0" ++ crlf ++ crlf)

abbrev upload_request : Request
upload_request = record {
  path = upload;
  headers = (codes "transfer-encoding", codes "chunked") ∷ [];
  body = [];
  spooled = some (codes "hello");
}

read_upload : read_inner true true upload_input ≡ ([], ok (upload_request, []))
unfolding read_inner read_head line split_line strip_cr from_utf8 read_text read_byte lead and_then
    request_line split_whitespace words finish_word is_whitespace endpoint read_headers add_header
    insert_header split_once to_ascii_lowercase get trim_start trim_end refused receive_body framing
    limit_of is_some eq_ignore_ascii_case content_length read_body read_chunks chunk_size
    from_str_radix read_digits push_digit to_digit read_chunk copy_body read_trailers request
    interim
read_upload = refl

refuse_upload : read_inner true false upload_input ≡ (respond 403 [], err not_accepted)
unfolding read_inner read_head line split_line strip_cr from_utf8 read_text read_byte lead and_then
    request_line split_whitespace words finish_word is_whitespace endpoint read_headers add_header
    insert_header split_once to_ascii_lowercase get trim_start trim_end refused respond response
    reason digits digits_fuel digit_char
refuse_upload = refl

read_inner_limits_example :
    ((upload ≢ upload) ⊎ (true ≡ true)) × (length (body_of upload_request) ≤ limit_of true upload)
read_inner_limits_example =
    read_inner_limits true true upload_input [] upload_request [] read_upload
