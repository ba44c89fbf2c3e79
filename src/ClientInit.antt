-- ===== src/ClientInit.antt =====
-- `_read_client_init` of proxy/tg_ws_proxy.py without a PROXY line. HMAC, the clock and the random
-- bytes are arguments. Timeouts and the label are left out; what follows a failed hello, the masking
-- domain, and the redirect for a client that speaks no TLS are outcomes.
pub mod Reading
use tg_ws_proxy_rust.Prelude.{
  ℕ, Bool, true, false, ◌&&◌, Option, none, some, List, [], ◌∷◌, ◌++◌, slice, get_or, ◌==◌,
  if◌then◌else◌,
}
use tg_ws_proxy_rust.Prelude.Bytes.{Bytes, from_be}
use tg_ws_proxy_rust.Source
use tg_ws_proxy_rust.Source.{Source}
use tg_ws_proxy_rust.FakeTls.Hello.{verify_client_hello, build_server_hello}
use tg_ws_proxy_rust.FakeTls.Record
use tg_ws_proxy_rust.FakeTls.Record.{FakeTlsStream, Outcome, got, incomplete, stuck}

-- `out_of_fuel` is no outcome of the source.
pub data Init : Type 0 where
  direct : Bytes → Source → Init
  over_tls : Bytes → FakeTlsStream → Init
  masked : Bytes → Source → Init
  redirected : Init
  disconnected : Init
  out_of_fuel : Init

pub init_of : Outcome × FakeTlsStream → Init
init_of (got handshake, s) = over_tls handshake s
init_of (incomplete, s) = disconnected
init_of (stuck, s) = out_of_fuel

module _ (hmac : Bytes → Bytes → Bytes) (now : ℕ) (secret public_key payload : Bytes) where
  pub answer_hello : Bytes → Source → Option (Bytes × Bytes × ℕ) → Init
  unfolding init_of
  answer_hello client_hello s none = masked client_hello s
  answer_hello client_hello s (some (client_random, session_id, ts)) = init_of (
      Record.readexactly 64 (record {
        reader = s;
        written = build_server_hello hmac secret client_random session_id public_key payload;
        read_buf = [];
        read_left = 0;
      }))

  pub hello_body : Bytes → Option Bytes × Source → Init
  unfolding answer_hello
  hello_body tls_header (none, s) = disconnected
  hello_body tls_header (some record_body, s) =
      answer_hello (tls_header ++ record_body) s
        (verify_client_hello hmac now (tls_header ++ record_body) secret)

  pub hello_header : Bytes → Option Bytes × Source → Init
  unfolding hello_body
  hello_header first_byte (none, s) = disconnected
  hello_header first_byte (some hdr_rest, s) =
      let tls_header = first_byte ++ hdr_rest in
      hello_body tls_header (Source.readexactly (from_be (slice 3 5 tls_header)) s)

  pub direct_rest : Bytes → Option Bytes × Source → Init
  direct_rest first_byte (none, s) = disconnected
  direct_rest first_byte (some rest, s) = direct (first_byte ++ rest) s

  pub first_read : Bool → Option Bytes × Source → Init
  unfolding hello_header direct_rest
  first_read masking (none, s) = disconnected
  first_read masking (some first_byte, s) =
      if (get_or first_byte 0 0 == 0x16) && masking
      then hello_header first_byte (Source.readexactly 4 s)
      else if masking
      then redirected
      else direct_rest first_byte (Source.readexactly 63 s)

  -- `masking` is whether there is a fake TLS domain.
  pub read_client_init : Bool → Source → Init
  unfolding first_read
  read_client_init masking s = first_read masking (Source.readexactly 1 s)
