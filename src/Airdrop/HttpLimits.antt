-- ===== src/Airdrop/HttpLimits.antt =====
-- src/airdrop/http.rs: what holds of every request that is read.
use adhoc_cross_device_conne.Prelude.{
  ℕ, zero, suc, ◌+◌, ◌-◌, ◌≤◌, ◌≡◌, ◌≢◌, ◌⊎◌, refl, sym, ap, ◌∙◌, Bool, true, false, not, ◌&&◌,
  ◌||◌, List, [], ◌++◌, none, some, ◌==◌, leb, leb→le, bytes_eq, length, length-append, length-take,
  take, drop, arith, Bool-cases, inl, inr,
}
use adhoc_cross_device_conne.Prelude.Bytes.{codes}
use adhoc_cross_device_conne.Prelude.Result.{
  Result, ok, err, ensure, ◌>>=◌, >>=-eq-ok, ensure-true, ok-injective, Result-cases,
}
use adhoc_cross_device_conne.Airdrop.Http.{
  Error, Endpoint, discover, ask, upload, Headers, Request, get, is_some, eq_ignore_ascii_case,
  content_length, framing, limit_of, line, chunk_size, copy_body, crlf, ambiguous_framing,
  unsupported_encoding, body_too_large, cut_short, chunked_too_large, bad_chunk_end, not_accepted,
  read_trailers, read_chunk, read_chunks, read_body, refused, request, interim, receive_body,
  read_head, read_inner, respond,
}

copy_body-length : (n : ℕ) (input x rest : List ℕ) → copy_body n input ≡ ok (x, rest) → length x ≡ n
unfolding copy_body
copy_body-length n input x rest e = elim (Bool-cases (leb n (length input))) [
  | inl f ↦
      let e' : ◌≡◌ {A = Result Error (List ℕ × List ℕ)} (ok (take n input, drop n input))
          (ok (x, rest)) =
        rw (copy_body, f) at e in
      let same : take n input ≡ x = ap (λ (p : List ℕ × List ℕ). p.0) (ok-injective e') in
      let enough = leb→le n (length input) f in rw (sym same) (omega (arith, length-take n input))
  | inr f ↦
      (let bad : ◌≡◌ {A = Result Error (List ℕ × List ℕ)} (err cut_short) (ok (x, rest)) =
          rw (copy_body, f) at e in
        absurd cc)
]

read_chunk-limit :
    (limit consumed n : ℕ) (input c rest : List ℕ)
    → read_chunk limit consumed n input ≡ ok (c, rest)
    → (length c ≡ n) × (n ≤ limit - consumed)
unfolding read_chunk
read_chunk-limit limit consumed n input c rest e =
    let (u, f, e1) = >>=-eq-ok (ensure (leb n (limit - consumed)) chunked_too_large) _ e in
    let ((contents, after), g, e2) = >>=-eq-ok (copy_body n input) _ e1 in
    let ((end, rest'), h, e3) = >>=-eq-ok (copy_body 2 after) _ e2 in
    let (v, i, same) = >>=-eq-ok (ensure (bytes_eq end crlf) bad_chunk_end) _ e3 in
    let first : contents ≡ c = ap (λ (p : List ℕ × List ℕ). p.0) (ok-injective same) in
    (
      ap length (sym first) ∙ copy_body-length n input contents after g,
      leb→le n (limit - consumed) (ensure-true (leb n (limit - consumed)) chunked_too_large f),
    )

read_chunks-limit :
    (fuel limit consumed : ℕ) (input b rest : List ℕ)
    → consumed ≤ limit
    → read_chunks fuel limit consumed input ≡ ok (b, rest)
    → consumed + length b ≤ limit
unfolding read_chunks
read_chunks-limit zero limit consumed input b rest h e = absurd cc
read_chunks-limit (suc fuel) limit consumed input b rest h e =
    let ((text, after), f, e1) = >>=-eq-ok (line input) _ e in
    let (n, g, e2) = >>=-eq-ok (chunk_size text) _ e1 in
    elim (Bool-cases (n == 0)) [
      | inl z ↦
          let e3 : (read_trailers (suc (length after)) 0 after >>= λ r. ok ([], r)) ≡ ok (b, rest) =
            rw z at e2 in
          let (r, i, same) = >>=-eq-ok (read_trailers (suc (length after)) 0 after) _ e3 in
          let first : [] ≡ b = ap (λ (p : List ℕ × List ℕ). p.0) (ok-injective same) in
          rw (sym first) (omega arith)
      | inr z ↦
          let e3 : (read_chunk limit consumed n after >>= λ c.
          read_chunks fuel limit (consumed + n) c.1 >>= λ more. ok (c.0 ++ more.0, more.1))
              ≡ ok (b, rest) =
            rw z at e2 in
          let ((c, tail), i, e4) = >>=-eq-ok (read_chunk limit consumed n after) _ e3 in
          let ((more, end), j, same) =
            >>=-eq-ok (read_chunks fuel limit (consumed + n) tail) _ e4 in
          let first : c ++ more ≡ b = ap (λ (p : List ℕ × List ℕ). p.0) (ok-injective same) in
          let (size, room) = read_chunk-limit limit consumed n after c tail i in
          let ih = read_chunks-limit fuel limit (consumed + n) tail more end (omega arith) j in
          rw (sym first) (omega (arith, length-append c more))
    ]

framing-limit :
    (limit : ℕ) (headers : Headers) (f : Bool × ℕ) → framing limit headers ≡ ok f → f.1 ≤ limit
unfolding framing
framing-limit limit headers f e =
    let te = get (codes "transfer-encoding") headers in
    let cl = get (codes "content-length") headers in
    let (u, g, e1) = >>=-eq-ok (ensure (not (is_some te && is_some cl)) ambiguous_framing) _ e in
    let (v, h, e2) =
      >>=-eq-ok
        (ensure (not (is_some te) || eq_ignore_ascii_case (codes "chunked") te)
          unsupported_encoding)
        _ e1 in
    let (n, i, e3) = >>=-eq-ok (content_length cl) _ e2 in
    let (w, j, same) = >>=-eq-ok (ensure (leb n limit) body_too_large) _ e3 in
    let second : n ≡ f.1 = ap (λ (p : Bool × ℕ). p.1) (ok-injective same) in
    rw (sym second) (leb→le n limit (ensure-true (leb n limit) body_too_large j))

read_body-limit :
    (limit : ℕ) (f : Bool × ℕ) (input b rest : List ℕ)
    → f.1 ≤ limit
    → read_body limit f input ≡ ok (b, rest)
    → length b ≤ limit
unfolding read_body
read_body-limit limit (true, n) input b rest h e =
    (let q = read_chunks-limit (suc (length input)) limit 0 input b rest (omega arith) e in
      omega arith)
read_body-limit limit (false, n) input b rest h e =
    (let q = copy_body-length n input b rest e in omega arith)

-- The body of a request, where it was put.
abbrev pub body_of : Request → List ℕ
body_of r = elim r.spooled [ none ↦ r.body | some b ↦ b ]

request-body :
    (spool : Bool) (path : Endpoint) (headers : Headers) (b : List ℕ)
    → (body_of (request spool path headers b) ≡ b) × ((request spool path headers b).path ≡ path)
unfolding request
request-body true upload headers b = (refl, refl)
request-body true discover headers b = (refl, refl)
request-body true ask headers b = (refl, refl)
request-body false upload headers b = (refl, refl)
request-body false discover headers b = (refl, refl)
request-body false ask headers b = (refl, refl)

receive_body-limit :
    (spool : Bool) (path : Endpoint) (headers : Headers) (input sent : List ℕ) (r : Request)
    (rest : List ℕ)
    → receive_body spool path headers input ≡ (sent, ok (r, rest))
    → (r.path ≡ path) × (length (body_of r) ≤ limit_of spool path)
unfolding receive_body
receive_body-limit spool path headers input sent r rest e =
    elim (Result-cases (framing (limit_of spool path) headers)) [
      | inr (x, f) ↦
          let e' : ◌≡◌ {A = List ℕ × Result Error (Request × List ℕ)} ([], err x)
              (sent, ok (r, rest)) =
            rw (receive_body, f) at e in
          let bad : ◌≡◌ {A = Result Error (Request × List ℕ)} (err x) (ok (r, rest)) =
            ap (λ (p : List ℕ × Result Error (Request × List ℕ)). p.1) e' in
          absurd cc
      | inl (fr, f) ↦
          let e' : ◌≡◌ {A = List ℕ × Result Error (Request × List ℕ)}
              (
                interim headers,
                read_body (limit_of spool path) fr input >>= λ b.
                    ok (request spool path headers b.0, b.1),
              )
              (sent, ok (r, rest)) =
            rw (receive_body, f) at e in
          let e2 : (read_body (limit_of spool path) fr input >>= λ b.
          ok (request spool path headers b.0, b.1))
              ≡ ok (r, rest) =
            ap (λ (p : List ℕ × Result Error (Request × List ℕ)). p.1) e' in
          let ((b, rest'), g, same) = >>=-eq-ok (read_body (limit_of spool path) fr input) _ e2 in
          let req : request spool path headers b ≡ r =
            ap (λ (p : Request × List ℕ). p.0) (ok-injective same) in
          let (body_same, path_same) = request-body spool path headers b in
          let limit =
            read_body-limit (limit_of spool path) fr input b rest'
              (framing-limit (limit_of spool path) headers fr f) g in
          rw (sym req) (path_same, rw body_same limit)
    ]

refused_inv :
    (path : Endpoint) (authorized : Bool)
    → refused path authorized ≡ false
    → (path ≢ upload) ⊎ (authorized ≡ true)
unfolding refused
refused_inv upload true h = inr refl
refused_inv upload false h = cc
refused_inv discover authorized h = inl λ e. cc
refused_inv ask authorized h = inl λ e. cc

-- A request that is read is no upload unless uploads are authorized, and its body, spooled or not, is within the limit
-- of its endpoint.
pub read_inner_limits :
    (spool authorized : Bool) (input sent : List ℕ) (r : Request) (rest : List ℕ)
    → read_inner spool authorized input ≡ (sent, ok (r, rest))
    → ((r.path ≢ upload) ⊎ (authorized ≡ true)) × (length (body_of r) ≤ limit_of spool r.path)
unfolding read_inner
read_inner_limits spool authorized input sent r rest e = elim (Result-cases (read_head input)) [
  | inr (x, f) ↦
      let e' : ◌≡◌ {A = List ℕ × Result Error (Request × List ℕ)} ([], err x) (sent, ok (r, rest)) =
        rw (read_inner, f) at e in
      let bad : ◌≡◌ {A = Result Error (Request × List ℕ)} (err x) (ok (r, rest)) =
        ap (λ (p : List ℕ × Result Error (Request × List ℕ)). p.1) e' in
      absurd cc
  | inl ((path, (headers, after)), f) ↦ elim (Bool-cases (refused path authorized)) [
    | inl g ↦
        let e' : ◌≡◌ {A = List ℕ × Result Error (Request × List ℕ)}
            (respond 403 [], err not_accepted) (sent, ok (r, rest)) =
          rw (read_inner, f, g) at e in
        let bad : ◌≡◌ {A = Result Error (Request × List ℕ)} (err not_accepted) (ok (r, rest)) =
          ap (λ (p : List ℕ × Result Error (Request × List ℕ)). p.1) e' in
        absurd cc
    | inr g ↦
        let e' : receive_body spool path headers after ≡ (sent, ok (r, rest)) =
          rw (read_inner, f, g) at e in
        let (path_same, limit) = receive_body-limit spool path headers after sent r rest e' in
        rw path_same (refused_inv path authorized g, limit)
  ]
]
