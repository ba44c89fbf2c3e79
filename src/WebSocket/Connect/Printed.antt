-- ===== src/WebSocket/Connect/Printed.antt =====
-- `RawWebSocket.connect` on an answer of HTTP: a status line, headers and an empty line.
use tg_ws_proxy_rust.Prelude.{
  ◌<◌, ◌≡◌, ◌≢◌, refl, sym, ap, subst, ◌∙◌, true, false, List, [], ◌∷◌, ◌++◌, append_assoc, Option,
  map, All, ◌==◌, ==_iff, if◌then◌else◌, ◌⊎◌, inl, inr, Bool-cases,
}
use tg_ws_proxy_rust.Prelude.Bytes.{Bytes}
use tg_ws_proxy_rust.Prelude.Int.{ℤ, pos, negsuc}
use tg_ws_proxy_rust.Prelude.Text.{Text, codes}
use tg_ws_proxy_rust.WebSocket.Connect.{
  End, Connected, Writer, opened, refused, is_101, header, request, response_line, status_code,
  headers_of, connect,
}
use tg_ws_proxy_rust.WebSocket.Connect.Answered.{
  IsBody, print_lines, with_newline, connect-print_lines,
}
use tg_ws_proxy_rust.WebSocket.Connect.Lines.{
  Status, IsStatus, request-lines, contains-append, no_blank, header-LastNamed, IsLine, header_line,
  IsHeader, status_line, crlf_lines, request_lines, LastNamed,
}
use tg_ws_proxy_rust.WebSocket.Connect.Read.{
  lowered, status_of, response_line-crlf, headers_of-lines, status_code-line,
}

-- What a session or an error is made of.
abbrev pub made : ℤ → Bytes → List (Text × Text) → Bytes → Bytes → Connected × Writer
made status first headers sent rest =
    if is_101 status
    then (
      opened (record { input = rest; output = sent; closed = false; writer_closed = false }),
      record { output = sent; writer_closed = false },
    )
    else (
      refused status first headers (header (codes "location") headers),
      record { output = sent; writer_closed = true },
    )

-- A session with the status 101, its request sent, its writer open and its input what follows the
-- answer; or, with any other one, the error with the answer's status, first line, headers and the
-- last location, and the writer closed.
abbrev pub Made : ℤ → Bytes → List (Text × Text) → Bytes → Bytes → Connected × Writer → Type 0
Made status first headers sent rest r =
    ((status ≡ pos 101)
      × (r ≡ (
        opened (record { input = rest; output = sent; closed = false; writer_closed = false }),
        record { output = sent; writer_closed = false },
      )))
    ⊎ ((status ≢ pos 101)
        × (location : Option Text) × LastNamed (codes "location") headers location
        × (r ≡ (
          refused status first headers location,
          record { output = sent; writer_closed = true },
        )))

made-Made :
    (status : ℤ) (first : Bytes) (headers : List (Text × Text)) (sent rest : Bytes)
    → Made status first headers sent rest (made status first headers sent rest)
made-Made (negsuc n) first headers sent rest =
    inr (
      λ e. cc,
      header (codes "location") headers,
      header-LastNamed (codes "location") headers,
      refl,
    )
made-Made (pos n) first headers sent rest = elim (Bool-cases (n == 101)) [
  | inl e ↦ rw e (inl (ap pos ((==_iff n 101).0 e), refl))
  | inr e ↦ rw e (
      inr (
        λ q. let z : n ≡ 101 = cc in let no : true ≡ false = sym ((==_iff n 101).1 z) ∙ e in cc,
        header (codes "location") headers,
        header-LastNamed (codes "location") headers,
        refl,
      ))
]

abbrev pub returned : Bytes → Bytes
returned l = l ++ (13 ∷ [])

module _ (decode : Bytes → Text) (int_of : Text → Option ℤ) (lower : Text → Text)
    (utf_8 : (b : Bytes) → All (λ x. x < 128) b → decode b ≡ b) where
  print_lines-returned :
      (ls : List Bytes) (tail : Bytes) → print_lines (map returned ls) tail ≡ crlf_lines ls ++ tail
  print_lines-returned [] tail = refl
  print_lines-returned (l ∷ ls) tail =
      append_assoc l (13 ∷ []) (10 ∷ print_lines (map returned ls) tail)
      ∙ ap (λ (t : Bytes). l ++ (13 ∷ (10 ∷ t))) (print_lines-returned ls tail)
      ∙ sym (append_assoc l (13 ∷ (10 ∷ crlf_lines ls)) tail)

  returned-IsBody : (l : Bytes) → IsLine l → IsBody (returned l)
  returned-IsBody [] h = absurd h
  returned-IsBody (c ∷ cs) h = (
    contains-append 10 (c ∷ cs) (13 ∷ []) h.2 refl,
    rw (no_blank c 13 h.0 refl, no_blank c 10 h.0 refl) refl,
  )

  returned-read :
      (l : Bytes) → IsLine l → response_line decode int_of lower (with_newline (returned l)) ≡ l
  returned-read l h =
      ap (response_line decode int_of lower) (append_assoc l (13 ∷ []) (10 ∷ []))
      ∙ response_line-crlf decode int_of lower utf_8 l h

  map-returned-IsBody : (ls : List Bytes) → All IsLine ls → All IsBody (map returned ls)
  map-returned-IsBody [] h = tt
  map-returned-IsBody (l ∷ ls) h = (returned-IsBody l h.0, map-returned-IsBody ls h.1)

  map-returned-read :
      (ls : List Bytes)
      → All IsLine ls
      → map (response_line decode int_of lower) (map with_newline (map returned ls)) ≡ ls
  map-returned-read [] h = refl
  map-returned-read (l ∷ ls) h =
      ap
        (λ (t : Bytes).
          t ∷ map (response_line decode int_of lower) (map with_newline (map returned ls)))
        (returned-read l h.0)
      ∙ ap (◌∷◌ l) (map-returned-read ls h.1)

  header_lines : (hs : List (Bytes × Bytes)) → All IsHeader hs → All IsLine (map header_line hs)
  header_lines [] h = tt
  header_lines ((name, value) ∷ hs) ((colon, n, v, l), more) = (l, header_lines hs more)

  -- `connect` is what is made of the lines, read back.
  connect-made :
      (path domain ws_key : Bytes) (end : End) (first : Bytes) (ls : List Bytes) (rest : Bytes)
      → IsLine first
      → All IsLine ls
      → connect decode int_of lower path domain ws_key end
          (crlf_lines (first ∷ ls) ++ (13 ∷ (10 ∷ rest)))
        ≡ made
            (status_code decode int_of lower first)
            first
            (headers_of decode int_of lower ls)
            (crlf_lines (request_lines path domain ws_key))
            rest
  connect-made path domain ws_key end first ls rest h k =
      let sent = request path domain ws_key in
      let status = status_code decode int_of lower in
      let read = response_line decode int_of lower in
      let headers = headers_of decode int_of lower in
      let lines = map read (map with_newline (map returned ls)) in
      ap (connect decode int_of lower path domain ws_key end)
        (sym (print_lines-returned (first ∷ ls) (13 ∷ (10 ∷ rest))))
      ∙ connect-print_lines decode int_of lower path domain ws_key end (returned first)
          (map returned ls) (13 ∷ []) rest (returned-IsBody first h, map-returned-IsBody ls k)
          (refl, refl)
      ∙ ap (λ (t : Bytes). made (status t) t (headers lines) sent rest) (returned-read first h)
      ∙ ap (λ (ts : List Bytes). made (status first) first (headers ts) sent rest)
          (map-returned-read ls k)
      ∙ ap (λ (t : Bytes). made (status first) first (headers ls) t rest)
          (request-lines path domain ws_key)

-- The decoder leaves ASCII as it is. The server answers with a status line, headers with a name and a
-- value, and an empty line, in ASCII. The status is what `int` makes of the second part of the status
-- line, or zero if it is no number or there is none. If it is 101, the session starts right behind the answer with its writer open.
-- Otherwise the error has the status, the status line, the headers with their names in lower case,
-- and the value of the last one named location, if there is one, and the writer is closed. What was
-- sent is the request line and the headers of an upgrade to a WebSocket, with the path, the host and
-- the key that were given.
pub connect-print_answer :
    (decode : Bytes → Text) (int_of : Text → Option ℤ) (lower : Text → Text)
    (path domain ws_key : Bytes) (end : End) (status : Status) (headers : List (Bytes × Bytes))
    (rest : Bytes)
    → ((b : Bytes) → All (λ x. x < 128) b → decode b ≡ b)
    → IsStatus status
    → IsLine (status_line status)
    → All IsHeader headers
    → Made
        (status_of int_of status)
        (status_line status)
        (lowered lower headers)
        (crlf_lines (request_lines path domain ws_key))
        rest
        (connect decode int_of lower path domain ws_key end
          (crlf_lines (status_line status ∷ map header_line headers) ++ (13 ∷ (10 ∷ rest))))
connect-print_answer decode int_of lower path domain ws_key end status headers rest utf_8 h l hs =
    let first = status_line status in
    let n = status_of int_of status in
    let sent = crlf_lines (request_lines path domain ws_key) in
    let lines = header_lines decode int_of lower utf_8 headers hs in
    subst (Made n first (lowered lower headers) sent rest)
      (sym (
        connect-made decode int_of lower utf_8 path domain ws_key end first
          (map header_line headers) rest l lines
        ∙ ap
            (λ m. made m first (headers_of decode int_of lower (map header_line headers)) sent rest)
            (status_code-line decode int_of lower utf_8 status h)
        ∙ ap (λ ts. made n first ts sent rest)
            (headers_of-lines decode int_of lower utf_8 headers hs)))
      (made-Made n first (lowered lower headers) sent rest)
