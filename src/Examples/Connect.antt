-- ===== src/Examples/Connect.antt =====
-- Runs of `RawWebSocket.connect` on answers of a server.
use tg_ws_proxy_rust.Prelude.{
  ◌≡◌, ◌≢◌, refl, ◌<◌, All, all, ltb, ltb→lt, true, false, inl, inr, Bool-cases, List, not, Option,
  none, some, [], ◌∷◌, ◌++◌, if◌then◌else◌,
}
use tg_ws_proxy_rust.Prelude.Bytes.{Bytes, bytes_eq}
use tg_ws_proxy_rust.Prelude.Int.{ℤ, pos}
use tg_ws_proxy_rust.Prelude.Text.{Text, codes}
use tg_ws_proxy_rust.WebSocket.Connect.{eof, stalls, out_of_fuel, read_head, connect}
use tg_ws_proxy_rust.WebSocket.Connect.Lines.{three, crlf_lines, request_lines}
use tg_ws_proxy_rust.WebSocket.Connect.Printed.{Made, connect-print_answer}
use tg_ws_proxy_rust.WebSocket.Connect.Total.{is_left_open, connect-writer_closed}

abbrev number : Text → Option ℤ
number t =
    if bytes_eq t (codes "101")
    then some (pos 101)
    else if bytes_eq t (codes "302")
    then some (pos 302)
    else none

abbrev moved : List (Bytes × Bytes)
moved = (codes "Date", codes "today") ∷ (codes "location", codes "/x y") ∷ []

abbrev answer : Bytes
answer =
    crlf_lines (codes "HTTP/1.1 302 Found" ∷ codes "Date: today" ∷ codes "location: /x y" ∷ [])
    ++ codes "\r\nrest"

ascii : (b : Bytes) → all (λ x. ltb x 128) b ≡ true → All (λ x. x < 128) b
ascii [] h = tt
ascii (x ∷ xs) h = elim (Bool-cases (ltb x 128)) [
  | inl e ↦ (ltb→lt x 128 e, ascii xs (rw e at h))
  | inr e ↦ let no : false ≡ true = rw e at h in absurd (cc)
]

connect-print_answer_example :
    Made
      (pos 302)
      (codes "HTTP/1.1 302 Found")
      moved
      (crlf_lines (request_lines (codes "/apiws") (codes "kws2") (codes "key")))
      (codes "rest")
      (connect (λ l. l) number (λ t. t) (codes "/apiws") (codes "kws2") (codes "key") eof answer)
connect-print_answer_example =
    connect-print_answer (λ l. l) number (λ t. t) (codes "/apiws") (codes "kws2") (codes "key") eof
      (three (codes "HTTP/1.1") (codes "302") (codes "Found")) moved (codes "rest") (λ b h. refl)
      (refl, refl) (refl, ascii (codes "HTTP/1.1 302 Found") refl, refl, refl)
      (
        (refl, refl, refl, (refl, ascii (codes "Date: today") refl, refl, refl)),
        ((refl, refl, refl, (refl, ascii (codes "location: /x y") refl, refl, refl)), tt),
      )

connect-writer_closed_example :
    (read_head 5 stalls (codes "HTTP") ≢ out_of_fuel)
    × (let (c, w) =
          connect
            (λ l. l)
            number
            (λ t. t)
            (codes "/apiws")
            (codes "kws2")
            (codes "key")
            stalls
            (codes "HTTP") in
        w.writer_closed ≡ not (is_left_open c))
connect-writer_closed_example =
    connect-writer_closed (λ l. l) number (λ t. t) (codes "/apiws") (codes "kws2") (codes "key")
      stalls (codes "HTTP")
