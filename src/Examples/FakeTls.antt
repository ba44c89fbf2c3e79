-- ===== src/Examples/FakeTls.antt =====
-- Runs of the record layer.
use tg_ws_proxy_rust.Prelude.{ℕ, ◌≡◌, refl, [], ◌∷◌, arith}
use tg_ws_proxy_rust.Prelude.Bytes.{Bytes}
use tg_ws_proxy_rust.FakeTls.Record.{FakeTlsStream, got, readexactly, wrap_tls_record}
use tg_ws_proxy_rust.FakeTls.Record.Stream.{ccs, app, Holds}
use tg_ws_proxy_rust.FakeTls.Record.Stream.Delivery.{readexactly-Holds}
use tg_ws_proxy_rust.FakeTls.Record.Stream.Reads.{Delivered, read-Holds}
use tg_ws_proxy_rust.FakeTls.Record.Wrap.{readexactly-wrap_tls_record}

-- A change-cipher-spec record and two of application data, which arrive in small pieces.
abbrev arriving : FakeTlsStream
arriving = record {
  reader = record {
    pending =
        0x14 ∷ 3 ∷ 3 ∷ 0 ∷ 1 ∷ 1 ∷ 0x17 ∷ 3 ∷ 3 ∷ 0 ∷ 3 ∷ 7 ∷ 8 ∷ 9 ∷ 0x17 ∷ 3 ∷ 3 ∷ 0 ∷ 2 ∷ 5 ∷ 6
        ∷ [];
    sizes = 2 ∷ 1 ∷ 1 ∷ [];
  };
  written = [];
  read_buf = [];
  read_left = 0;
}

abbrev content : Bytes
content = 7 ∷ 8 ∷ 9 ∷ 5 ∷ 6 ∷ []

arriving-Holds : Holds arriving content
arriving-Holds = record {
  tail = [];
  records = ccs (1 ∷ []) ∷ app (7 ∷ 8 ∷ 9 ∷ []) ∷ app (5 ∷ 6 ∷ []) ∷ [];
  pending = refl;
  left = refl;
  valid = (omega arith, ((omega arith, omega arith), ((omega arith, omega arith), tt)));
  shows = refl;
}

readexactly-Holds_example :
    (s' : FakeTlsStream) × (readexactly 4 arriving ≡ (got (7 ∷ 8 ∷ 9 ∷ 5 ∷ []), s'))
    × Holds s' (6 ∷ [])
readexactly-Holds_example = readexactly-Holds 4 arriving content arriving-Holds (omega arith)

read-Holds_example : (k : ℕ) × (s' : FakeTlsStream) × Delivered 4 k arriving content s'
read-Holds_example = read-Holds 4 arriving content arriving-Holds (omega arith) (omega arith)

abbrev wrapped : FakeTlsStream
wrapped = record {
  reader = record { pending = wrap_tls_record content; sizes = 2 ∷ [] };
  written = [];
  read_buf = [];
  read_left = 0;
}

readexactly-wrap_tls_record_example :
    (s' : FakeTlsStream) × (readexactly 5 wrapped ≡ (got content, s')) × Holds s' []
readexactly-wrap_tls_record_example = readexactly-wrap_tls_record content wrapped refl refl refl
