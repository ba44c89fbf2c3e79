-- ===== src/WebSocket/Connect.antt =====
-- `RawWebSocket.connect` of proxy/raw_websocket.py, with `WsHandshakeError`. The socket options have
-- no effect here, and `ws_key`, the random key in base64, `decode` (UTF-8 with replacement), `int_of`
-- (Python's `int`) and `lower` are arguments. Texts that are sent are byte strings. A line that is
-- longer than the reader allows is left out.
pub mod Answered
pub mod Lines
pub mod Printed
pub mod Read
pub mod Total
use tg_ws_proxy_rust.Prelude.{
  ℕ, zero, suc, ◌+◌, Bool, true, false, ◌&&◌, ◌||◌, List, [], ◌∷◌, ◌++◌, Option, none, some, length,
  map, ◌==◌, if◌then◌else◌,
}
use tg_ws_proxy_rust.Prelude.Bytes.{Bytes, bytes_eq}
use tg_ws_proxy_rust.Prelude.Int.{ℤ, pos, negsuc}
use tg_ws_proxy_rust.Prelude.Text.{Text, codes, is_space, strip, split_once}
use tg_ws_proxy_rust.WebSocket.Session.{RawWebSocket}
use tg_ws_proxy_rust.Route.{Attempt, session, redirect, handshake_error, failed}

-- What the reader comes to when its input has run out.
pub data End : Type 0 where
  eof stalls fails : End

pub data LineRead : Type 0 where
  line : Bytes → LineRead
  timed_out broken : LineRead

-- A line with its newline, and the rest.
abbrev pub onto_line : ℕ → Option (Bytes × Bytes) → Option (Bytes × Bytes)
onto_line c none = none
onto_line c (some (l, rest)) = some (c ∷ l, rest)

pub take_line : Bytes → Option (Bytes × Bytes)
take_line [] = none
take_line (c ∷ cs) =
    let rest = take_line cs in if c == 10 then some (10 ∷ [], cs) else onto_line c rest

abbrev pub at_end : End → Bytes → LineRead × Bytes
at_end eof s = (line s, [])
at_end stalls s = (timed_out, s)
at_end fails s = (broken, s)

abbrev pub line_or_end : End → Bytes → Option (Bytes × Bytes) → LineRead × Bytes
line_or_end end s none = at_end end s
line_or_end end s (some (l, rest)) = (line l, rest)

-- reader.readline()
pub readline : End → Bytes → LineRead × Bytes
readline end s = line_or_end end s (take_line s)

-- The lines before the empty one, and the input after it; `out_of_fuel` is no outcome of the source.
pub data Head : Type 0 where
  head : List Bytes → Bytes → Head
  head_timed_out head_broken out_of_fuel : Head

abbrev pub onto_head : Bytes → Head → Head
onto_head l (head lines rest) = head (l ∷ lines) rest
onto_head l head_timed_out = head_timed_out
onto_head l head_broken = head_broken
onto_head l out_of_fuel = out_of_fuel

abbrev pub is_end_line : Bytes → Bool
is_end_line l = bytes_eq l (13 ∷ 10 ∷ []) || bytes_eq l (10 ∷ []) || bytes_eq l []

-- A round of the loop; `again` is the rounds that follow.
pub head_line : (Bytes → Head) → LineRead × Bytes → Head
head_line again (timed_out, rest) = head_timed_out
head_line again (broken, rest) = head_broken
head_line again (line l, rest) = elim (is_end_line l) [
  | true ↦ head [] rest
  | false ↦ onto_head l (again rest)
]

pub read_head : ℕ → End → Bytes → Head
read_head zero end s = out_of_fuel
read_head (suc fuel) end s = head_line (read_head fuel end) (readline end s)

-- `opened` is a session; `timed_out` and `failed` are the exceptions that are passed on. The
-- headers of a WsHandshakeError are in the order of the lines.
pub data Connected : Type 0 where
  opened : RawWebSocket → Connected
  refused : ℤ → Text → List (Text × Text) → Option Text → Connected
  timeout failed_read : Connected

-- The writer: what it has sent, and whether it is closed.
pub record Writer : Type 0 where
  pub output : Bytes
  pub writer_closed : Bool

abbrev pub is_101 : ℤ → Bool
is_101 (pos n) = n == 101
is_101 (negsuc n) = false

abbrev pub is_redirect : ℤ → Bool
is_redirect (pos n) = n == 301 || n == 302 || n == 303 || n == 307 || n == 308
is_redirect (negsuc n) = false

-- headers.get(key): the last line with the key counts.
abbrev pub header : Text → List (Text × Text) → Option Text
header key [] = none
header key ((k, v) ∷ rest) = elim (header key rest) [
  | some w ↦ some w
  | none ↦ if bytes_eq k key then some v else none
]

pub request : Bytes → Bytes → Bytes → Bytes
request path domain ws_key =
    codes "GET "
    ++ path
    ++ codes " HTTP/1.1\r\nHost: "
    ++ domain
    ++ codes "\r\nUpgrade: websocket\r\nConnection: Upgrade\r\nSec-WebSocket-Key: "
    ++ ws_key
    ++ codes "\r\nSec-WebSocket-Version: 13\r\nSec-WebSocket-Protocol: binary\r\n\r\n"

module _ (decode : Bytes → Text) (int_of : Text → Option ℤ) (lower : Text → Text) where
  abbrev pub response_line : Bytes → Text
  response_line l = strip is_space (decode l)

  -- first_line.split(' ', 2)[1], if there is one
  abbrev pub second_part : Text → Option Text
  second_part first_line = elim (split_once 32 first_line) [
    | none ↦ none
    | some (version, rest) ↦ elim (split_once 32 rest) [
      | none ↦ some rest
      | some (code, reason) ↦ some code
    ]
  ]

  unfoldable pub status_code : Text → ℤ
  status_code first_line = elim (second_part first_line) [
    | none ↦ pos 0
    | some code ↦ elim (int_of code) [ none ↦ pos 0 | some n ↦ n ]
  ]

  pub headers_of : List Text → List (Text × Text)
  headers_of [] = []
  headers_of (hl ∷ lines) = elim (split_once b':' hl) [
    | none ↦ headers_of lines
    | some (k, v) ↦ (lower (strip is_space k), strip is_space v) ∷ headers_of lines
  ]

  abbrev pub close_writer : Writer → Writer
  close_writer w = record w { writer_closed = true }

  pub answer : List Text → Bytes → Writer → Connected × Writer
  answer [] rest w = (refused (pos 0) (codes "empty response") [] none, close_writer w)
  answer (first_line ∷ lines) rest w =
      if is_101 (status_code first_line)
      then (
        opened (record {
          input = rest;
          output = w.output;
          closed = false;
          writer_closed = w.writer_closed;
        }),
        w,
      )
      else (
        refused (status_code first_line) first_line (headers_of lines)
            (header (codes "location") (headers_of lines)),
        close_writer w,
      )

  pub after_head : Head → Writer → Connected × Writer
  unfolding answer
  after_head (head lines rest) w = answer (map response_line lines) rest w
  after_head head_timed_out w = (timeout, close_writer w)
  after_head head_broken w = (failed_read, w)
  after_head out_of_fuel w = (failed_read, w)

  -- The connection is open; `input` is all that the server sends. Each round of the loop takes a byte.
  pub connect : Bytes → Bytes → Bytes → End → Bytes → Connected × Writer
  unfolding after_head request read_head head_line readline take_line headers_of status_code
  connect path domain ws_key end input =
      after_head (read_head (suc (length input)) end input)
        (record { output = request path domain ws_key; writer_closed = false })

-- What the handlers of `_handle_client` tell apart.
pub attempt_of : ℕ → Connected → Attempt
attempt_of ws (opened s) = session ws
attempt_of ws (refused status_code status_line headers location) =
    if is_redirect status_code then redirect else handshake_error
attempt_of ws timeout = failed
attempt_of ws failed_read = failed
