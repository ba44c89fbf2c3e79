-- ===== src/WebSocket/Connect/Answered.antt =====
-- What `RawWebSocket.connect` makes of an answer.
use tg_ws_proxy_rust.Prelude.{
  ℕ, zero, suc, ◌≤◌, ◌<◌, ◌≡◌, refl, ◌∙◌, true, false, List, [], ◌∷◌, ◌++◌, Option, some, length,
  length-append, map, All, ◌==◌, if◌then◌else◌, inl, inr, Bool-cases, arith,
}
use tg_ws_proxy_rust.Prelude.Bytes.{Bytes}
use tg_ws_proxy_rust.Prelude.Int.{ℤ}
use tg_ws_proxy_rust.Prelude.Text.{Text, codes, contains}
use tg_ws_proxy_rust.WebSocket.Connect.{
  End, line, take_line, readline, Head, head, head_line, is_end_line, read_head, opened, refused,
  is_101, header, request, response_line, status_code, headers_of, answer, after_head, connect,
}

-- A line of the head, without its newline, and the last line, which is empty.
abbrev pub IsBody : Bytes → Type 0
IsBody b = (contains 10 b ≡ false) × (is_end_line (b ++ (10 ∷ [])) ≡ false)

abbrev pub IsLast : Bytes → Type 0
IsLast b = (contains 10 b ≡ false) × (is_end_line (b ++ (10 ∷ [])) ≡ true)

abbrev pub print_lines : List Bytes → Bytes → Bytes
print_lines [] rest = rest
print_lines (b ∷ bs) rest = b ++ (10 ∷ print_lines bs rest)

abbrev pub with_newline : Bytes → Bytes
with_newline b = b ++ (10 ∷ [])

take_line-append :
    (b rest : Bytes)
    → contains 10 b ≡ false
    → take_line (b ++ (10 ∷ rest)) ≡ some (with_newline b, rest)
unfolding take_line
take_line-append [] rest h = refl
take_line-append (c ∷ cs) rest h = elim (Bool-cases (c == 10)) [
  | inl e ↦ let no : true ≡ false = rw e at h in absurd (cc)
  | inr e ↦ let k : contains 10 cs ≡ false = rw e at h in rw (e, take_line-append cs rest k) refl
]

read_head_step :
    (fuel : ℕ) (end : End) (b rest : Bytes)
    → contains 10 b ≡ false
    → read_head (suc fuel) end (b ++ (10 ∷ rest))
      ≡ head_line (read_head fuel end) (line (with_newline b), rest)
unfolding read_head readline
read_head_step fuel end b rest h = rw (take_line-append b rest h) refl

head_line-more :
    (again : Bytes → Head) (l rest : Bytes) (lines : List Bytes) (after : Bytes)
    → is_end_line l ≡ false
    → again rest ≡ head lines after
    → head_line again (line l, rest) ≡ head (l ∷ lines) after
unfolding head_line
head_line-more again l rest lines after e f = rw (e, f, head_line) refl

head_line-last :
    (again : Bytes → Head) (l rest : Bytes)
    → is_end_line l ≡ true
    → head_line again (line l, rest) ≡ head [] rest
unfolding head_line
head_line-last again l rest e = rw (e, head_line) refl

read_head-print_lines :
    (fuel : ℕ) (end : End) (bodies : List Bytes) (last rest : Bytes)
    → All IsBody bodies
    → IsLast last
    → length bodies < fuel
    → read_head fuel end (print_lines bodies (last ++ (10 ∷ rest)))
      ≡ head (map with_newline bodies) rest
read_head-print_lines zero end bodies last rest h k enough = absurd (omega arith)
read_head-print_lines (suc fuel) end [] last rest h k enough =
    read_head_step fuel end last rest k.0
    ∙ head_line-last (read_head fuel end) (with_newline last) rest k.1
read_head-print_lines (suc fuel) end (b ∷ bs) last rest h k enough =
    let others = print_lines bs (last ++ (10 ∷ rest)) in
    read_head_step fuel end b others h.0.0
    ∙ head_line-more (read_head fuel end) (with_newline b) others (map with_newline bs) rest h.0.1
        (read_head-print_lines fuel end bs last rest h.1 k (omega arith))

length-print_lines :
    (bodies : List Bytes) (rest : Bytes) → length bodies ≤ length (print_lines bodies rest)
length-print_lines [] rest = omega arith
length-print_lines (b ∷ bs) rest =
    omega (arith, length-append b (10 ∷ print_lines bs rest), length-print_lines bs rest)

-- The server answers with a status line, more lines and an empty one. If the status is 101, the
-- session starts right behind the empty line, its request sent and its writer open; otherwise
-- the error has the status, the headers and the location of the answer, and the writer is closed.
pub connect-print_lines :
    (decode : Bytes → Text) (int_of : Text → Option ℤ) (lower : Text → Text)
    (path domain ws_key : Bytes) (end : End) (first : Bytes) (bodies : List Bytes)
    (last rest : Bytes)
    → All IsBody (first ∷ bodies)
    → IsLast last
    → let first_line = response_line decode int_of lower (with_newline first) in
      let lines = map (response_line decode int_of lower) (map with_newline bodies) in
      let code = status_code decode int_of lower first_line in
      let headers = headers_of decode int_of lower lines in
      connect decode int_of lower path domain ws_key end
        (print_lines (first ∷ bodies) (last ++ (10 ∷ rest)))
      ≡ (if is_101 code
          then (
            opened (record {
              input = rest;
              output = request path domain ws_key;
              closed = false;
              writer_closed = false;
            }),
            record { output = request path domain ws_key; writer_closed = false },
          )
          else (
            refused code first_line headers (header (codes "location") headers),
            record { output = request path domain ws_key; writer_closed = true },
          ))
unfolding connect after_head answer
connect-print_lines decode int_of lower path domain ws_key end first bodies last rest h k =
    let input = print_lines (first ∷ bodies) (last ++ (10 ∷ rest)) in
    let enough : suc (length bodies) < suc (length input) =
      omega (arith, length-print_lines (first ∷ bodies) (last ++ (10 ∷ rest))) in
    rw (read_head-print_lines (suc (length input)) end (first ∷ bodies) last rest h k enough) refl
