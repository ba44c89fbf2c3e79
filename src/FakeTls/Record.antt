-- ===== src/FakeTls/Record.antt =====
-- `wrap_tls_record` and `FakeTlsStream` of proxy/fake_tls.py.
pub mod Stream
pub mod Wrap
use tg_ws_proxy_rust.Prelude.{
  ℕ, zero, suc, ◌+◌, ◌-◌, ◌≡◌, refl, Bool, List, [], ◌∷◌, ◌++◌, Option, none, some, length, take,
  drop, slice, get_or, concat, ltb, leb, ◌==◌, min, is_empty, if◌then◌else◌,
}
use tg_ws_proxy_rust.Prelude.Bytes.{Bytes, be, from_be}
use tg_ws_proxy_rust.Source
use tg_ws_proxy_rust.Source.{Source}

abbrev pub record_ccs : ℕ
record_ccs = 0x14

abbrev pub record_appdata : ℕ
record_appdata = 0x17

abbrev pub appdata_max : ℕ
appdata_max = 16384

-- One round for each chunk; `parts` are the records so far.
wrap_loop : ℕ → Bytes → ℕ → List Bytes → List Bytes
wrap_loop zero xs offset parts = parts
wrap_loop (suc fuel) xs offset parts =
    let chunk = slice offset (offset + appdata_max) xs in
    let more =
      wrap_loop fuel xs (offset + length chunk)
        (parts ++ ((0x17 ∷ 0x03 ∷ 0x03 ∷ (be 2 (length chunk) ++ chunk)) ∷ [])) in
    if ltb offset (length xs) then more else parts

-- Each round takes a byte at least.
pub wrap_tls_record : Bytes → Bytes
unfolding wrap_loop
wrap_tls_record xs = concat (wrap_loop (length xs) xs 0 [])

pub record FakeTlsStream : Type 0 where
  pub reader : Source
  pub written : Bytes
  pub read_buf : Bytes
  pub read_left : ℕ

-- `incomplete` is the IncompleteReadError; `stuck` is no outcome of the source.
pub data Outcome : Type 0 where
  got : Bytes → Outcome
  incomplete stuck : Outcome

-- The part of `_read_tls_payload` behind a record header of application data.
pub appdata : ℕ → FakeTlsStream → Outcome × FakeTlsStream
appdata rec_len s =
    let (xs, reader) = Source.read (min rec_len 65536) s.reader in
    let s' = record s { reader = reader } in
    if is_empty xs
    then (got [], s')
    else let remaining = rec_len - length xs in
      if ltb 0 remaining then (got xs, record s' { read_left = remaining }) else (got xs, s')

abbrev Step : Type 0
Step = FakeTlsStream → Outcome × FakeTlsStream

-- The body of a change-cipher-spec record has been read; `again` is the next round.
skip : Step → FakeTlsStream → Option Bytes × Source → Outcome × FakeTlsStream
skip again s (none, reader) = (incomplete, record s { reader = reader })
skip again s (some xs, reader) = again (record s { reader = reader })

-- A record header has been read.
header : Step → FakeTlsStream → Option Bytes × Source → Outcome × FakeTlsStream
unfolding skip appdata
header again s (none, reader) = (incomplete, record s { reader = reader })
header again s (some hdr, reader) =
    let s' = record s { reader = reader } in
    let rec_len = from_be (slice 3 5 hdr) in
    let skipped = skip again s' (Source.readexactly rec_len reader) in
    let continued = again s' in
    if get_or hdr 0 0 == record_ccs
    then (if ltb 0 rec_len then skipped else continued)
    else if get_or hdr 0 0 == record_appdata
    then appdata rec_len s'
    else (got [], s')

-- The `while True` loop: change-cipher-spec records are skipped.
pub record_loop : ℕ → FakeTlsStream → Outcome × FakeTlsStream
unfolding header
record_loop zero s = (stuck, s)
record_loop (suc fuel) s = header (record_loop fuel) s (Source.readexactly 5 s.reader)

-- The rest of a record that an earlier read has begun.
pub begun : FakeTlsStream → Bytes × Source → Outcome × FakeTlsStream
begun s (xs, reader) =
    if is_empty xs
    then (got [], record s { reader = reader })
    else (got xs, record s { reader = reader; read_left = s.read_left - length xs })

pub read_tls_payload : FakeTlsStream → Outcome × FakeTlsStream
unfolding record_loop begun
read_tls_payload s =
    if ltb 0 s.read_left
    then begun s (Source.read s.read_left s.reader)
    else record_loop (suc (length s.reader.pending)) s

-- A payload has been read for `readexactly`; `again` is the next round.
extend : Step → Outcome × FakeTlsStream → Outcome × FakeTlsStream
extend again (got [], s) = (incomplete, s)
extend again (got (x ∷ xs), s) = again (record s { read_buf = s.read_buf ++ (x ∷ xs) })
extend again (r, s) = (r, s)

readexactly_loop : ℕ → ℕ → FakeTlsStream → Outcome × FakeTlsStream
readexactly_loop zero n s = (stuck, s)
readexactly_loop (suc fuel) n s =
    let more = extend (readexactly_loop fuel n) (read_tls_payload s) in
    if ltb (length s.read_buf) n
    then more
    else (got (take n s.read_buf), record s { read_buf = drop n s.read_buf })

-- Each round takes a byte from the reader.
pub readexactly : ℕ → FakeTlsStream → Outcome × FakeTlsStream
unfolding readexactly_loop
readexactly n s = readexactly_loop (suc (length s.reader.pending)) n s

-- The part of `read` behind a payload.
deliver : ℕ → Outcome × FakeTlsStream → Outcome × FakeTlsStream
deliver n (got xs, s) =
    if is_empty xs
    then (got [], s)
    else if ltb n (length xs)
    then (got (take n xs), record s { read_buf = s.read_buf ++ drop n xs })
    else (got xs, s)
deliver n (r, s) = (r, s)

pub read : ℕ → FakeTlsStream → Outcome × FakeTlsStream
unfolding deliver
read n s =
    if is_empty s.read_buf
    then deliver n (read_tls_payload s)
    else (got (take n s.read_buf), record s { read_buf = drop n s.read_buf })

pub write : Bytes → FakeTlsStream → FakeTlsStream
write xs s = record s { written = s.written ++ wrap_tls_record xs }
