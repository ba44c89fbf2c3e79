-- ===== src/FakeTls/Hello.antt =====
-- `verify_client_hello` and `build_server_hello` of proxy/fake_tls.py. HMAC-SHA256, the clock and the
-- random bytes are arguments. The HMAC has 32 bytes; the source raises if it has fewer.
pub mod Client
pub mod Server
use tg_ws_proxy_rust.Prelude.{
  ℕ, ◌+◌, ◌-◌, Bool, true, false, not, ◌||◌, ◌&&◌, Option, none, some, List, [], ◌∷◌, ◌++◌, length,
  take, drop, slice, get_or, replicate, assign, ltb, leb, ◌==◌, if◌then◌else◌,
}
use tg_ws_proxy_rust.Prelude.Bytes.{Bytes, be, from_le, xor_bytes, bytes_eq}

abbrev pub timestamp_tolerance : ℕ
timestamp_tolerance = 120

abbrev pub zero_32 : Bytes
zero_32 = replicate 32 0

abbrev pub server_hello_template : Bytes
server_hello_template =
    (0x16 ∷ 0x03 ∷ 0x03 ∷ 0x00 ∷ 0x7a ∷ 0x02 ∷ 0x00 ∷ 0x00 ∷ 0x76 ∷ 0x03 ∷ 0x03 ∷ [])
    ++ (zero_32
        ++ ((32 ∷ [])
            ++ (zero_32
                ++ ((0x13 ∷ 0x01 ∷ 0x00 ∷ 0x00 ∷ 0x2e ∷ 0x00 ∷ 0x33 ∷ 0x00 ∷ 0x24 ∷ 0x00 ∷ 0x1d
                      ∷ 0x00 ∷ 0x20 ∷ [])
                    ++ (zero_32 ++ (0x00 ∷ 0x2b ∷ 0x00 ∷ 0x02 ∷ 0x03 ∷ 0x04 ∷ []))))))

abbrev pub ccs_frame : Bytes
ccs_frame = 0x14 ∷ 0x03 ∷ 0x03 ∷ 0x00 ∷ 0x01 ∷ 0x01 ∷ []

module _ (hmac : Bytes → Bytes → Bytes) where
  -- The HMAC of a hello with its random zeroed.
  abbrev pub expected_random : Bytes → Bytes → Bytes
  expected_random xs secret = hmac secret (assign 11 43 xs zero_32)

  abbrev pub session_id_of : Bytes → Bytes
  session_id_of xs =
      if leb 76 (length xs) && (get_or xs 43 0 == 32) then slice 44 76 xs else zero_32

  -- Client random, session id and timestamp.
  pub verify_client_hello : ℕ → Bytes → Bytes → Option (Bytes × Bytes × ℕ)
  verify_client_hello now xs secret =
      let client_random = slice 11 43 xs in
      let expected = expected_random xs secret in
      let timestamp = from_le (xor_bytes (slice 28 32 client_random) (slice 28 32 expected)) in
      if ltb (length xs) 43
      then none
      else if not (get_or xs 0 0 == 0x16)
      then none
      else if not (get_or xs 5 0 == 0x01)
      then none
      else if not (bytes_eq (take 28 expected) (take 28 client_random))
      then none
      else if ltb timestamp_tolerance (now - timestamp) || ltb timestamp_tolerance (timestamp - now)
      then none
      else some (client_random, session_id_of xs, timestamp)

  -- The answer before its random is set; `payload` are the 1900 to 2100 random bytes.
  pub response : Bytes → Bytes → Bytes → Bytes
  response session_id public_key payload =
      assign 89 121 (assign 44 76 server_hello_template session_id) public_key
      ++ (ccs_frame ++ (0x17 ∷ 0x03 ∷ 0x03 ∷ (be 2 (length payload) ++ payload)))

  pub build_server_hello : Bytes → Bytes → Bytes → Bytes → Bytes → Bytes
  unfolding response
  build_server_hello secret client_random session_id public_key payload =
      let r = response session_id public_key payload in
      assign 11 43 r (hmac secret (client_random ++ r))
