-- ===== src/FakeTls/Hello/Client.antt =====
-- A client that knows the secret is let in.
use tg_ws_proxy_rust.Prelude.{
  ℕ, ◌+◌, ◌-◌, ◌^◌, ◌<◌, ◌≤◌, ◌≡◌, refl, sym, ap, ap₂, ◌∙◌, true, false, ◌||◌, some, ◌++◌, length,
  take, drop, slice, get_or, assign, ltb, ◌==◌, ==_iff, arith, take-append, drop-append,
  length-take, length-drop, length-append, take_all, assign_get, assign_twice,
}
use tg_ws_proxy_rust.Prelude.Bytes.{
  Bytes, le, length-le, from_le, from_le-le, xor_bytes, length-xor_bytes, xor_bytes_cancel,
  bytes_eq, bytes_eq_refl,
}
use tg_ws_proxy_rust.FakeTls.Hello.{
  verify_client_hello, expected_random, session_id_of, zero_32, timestamp_tolerance,
}

not_less : (a b : ℕ) → b ≤ a → ltb a b ≡ false
not_less a b h = ground arith

recent_lem :
    (now timestamp : ℕ)
    → now ≤ timestamp + timestamp_tolerance
    → timestamp ≤ now + timestamp_tolerance
    → ltb timestamp_tolerance (now - timestamp) || ltb timestamp_tolerance (timestamp - now) ≡ false
recent_lem now timestamp h1 h2 =
    rw
      (
        not_less timestamp_tolerance (now - timestamp) (omega (arith, h1)),
        not_less timestamp_tolerance (timestamp - now) (omega (arith, h2)),
      )
      refl

module _ (hmac : Bytes → Bytes → Bytes) (digest : (k xs : Bytes) → length (hmac k xs) ≡ 32) where
  -- The random of a client: the HMAC, with the time on its last four bytes.
  abbrev pub client_random : Bytes → Bytes → ℕ → Bytes
  client_random hello secret timestamp =
      let mac = expected_random hmac hello secret in
      take 28 mac ++ xor_bytes (le 4 timestamp) (drop 28 mac)

  length-client_random :
      (hello secret : Bytes) (timestamp : ℕ) → length (client_random hello secret timestamp) ≡ 32
  length-client_random hello secret timestamp =
      let mac = expected_random hmac hello secret in
      let d = digest secret (assign 11 43 hello zero_32) in
      let last : length (drop 28 mac) ≡ 4 = omega (arith, length-drop 28 mac, d) in
      omega (
        arith,
        length-append (take 28 mac) (xor_bytes (le 4 timestamp) (drop 28 mac)),
        length-take 28 mac,
        length-xor_bytes (le 4 timestamp) (drop 28 mac) (length-le 4 timestamp ∙ sym last),
        length-le 4 timestamp,
        d,
      )

  accept_lem :
      (now timestamp : ℕ) (xs secret r mac : Bytes)
      → 43 ≤ length xs
      → get_or xs 0 0 ≡ 0x16
      → get_or xs 5 0 ≡ 0x01
      → slice 11 43 xs ≡ r
      → expected_random hmac xs secret ≡ mac
      → take 28 mac ≡ take 28 r
      → from_le (xor_bytes (slice 28 32 r) (slice 28 32 mac)) ≡ timestamp
      → now ≤ timestamp + timestamp_tolerance
      → timestamp ≤ now + timestamp_tolerance
      → verify_client_hello hmac now xs secret ≡ some (r, session_id_of hmac xs, timestamp)
  unfolding verify_client_hello
  accept_lem now timestamp xs secret r mac h43 h0 h5 er em same et h1 h2 =
      let long = not_less (length xs) 43 h43 in
      let kind : (get_or xs 0 0 == 0x16) ≡ true = (==_iff (get_or xs 0 0) 0x16).1 h0 in
      let hello : (get_or xs 5 0 == 0x01) ≡ true = (==_iff (get_or xs 5 0) 0x01).1 h5 in
      let digest_ok : bytes_eq (take 28 mac) (take 28 r) ≡ true =
        ap (λ (t : Bytes). bytes_eq t (take 28 r)) same ∙ bytes_eq_refl (take 28 r) in
      rw (er, em, long, kind, hello, digest_ok, et, recent_lem now timestamp h1 h2) refl

  -- The HMAC has 32 bytes. A client sends a hello of at least 43 bytes with the right type bytes, and
  -- with the random that the secret and its clock give; the clocks differ by 120 seconds at most. Then
  -- `verify_client_hello` accepts it and returns that random and the client's time.
  pub verify_client_hello-client_random :
      (hello secret : Bytes) (now timestamp : ℕ)
      → let sent = assign 11 43 hello (client_random hello secret timestamp) in
        43 ≤ length hello
        → timestamp < 256 ^ 4
        → get_or sent 0 0 ≡ 0x16
        → get_or sent 5 0 ≡ 0x01
        → now ≤ timestamp + timestamp_tolerance
        → timestamp ≤ now + timestamp_tolerance
        → verify_client_hello hmac now sent secret
          ≡ some (client_random hello secret timestamp, session_id_of hmac sent, timestamp)
  verify_client_hello-client_random hello secret now timestamp hl ht h0 h5 h1 h2 =
      let mac = expected_random hmac hello secret in
      let r = client_random hello secret timestamp in
      let sent = assign 11 43 hello r in
      let lr = length-client_random hello secret timestamp in
      let d = digest secret (assign 11 43 hello zero_32) in
      let first : length (take 28 mac) ≡ 28 = omega (arith, length-take 28 mac, d) in
      let last : length (drop 28 mac) ≡ 4 = omega (arith, length-drop 28 mac, d) in
      let len : length sent ≡ length hello = omega (
        arith,
        length-append (take 11 hello) (r ++ drop 43 hello),
        length-append r (drop 43 hello),
        length-take 11 hello,
        length-drop 43 hello,
        lr,
        hl,
      ) in
      let clock = xor_bytes (le 4 timestamp) (drop 28 mac) in
      let lc : length clock ≡ 4 =
        length-xor_bytes (le 4 timestamp) (drop 28 mac) (length-le 4 timestamp ∙ sym last)
        ∙ length-le 4 timestamp in
      let ts : xor_bytes (slice 28 32 r) (slice 28 32 mac) ≡ le 4 timestamp =
        ap₂ xor_bytes
          (ap (take 4) (drop-append 28 (take 28 mac) clock first)
            ∙ take_all 4 clock (omega (arith, lc)))
          (take_all 4 (drop 28 mac) (omega (arith, last)))
        ∙ xor_bytes_cancel (le 4 timestamp) (drop 28 mac) (length-le 4 timestamp ∙ sym last) in
      accept_lem now timestamp sent secret r mac (omega (arith, len, hl)) h0 h5
        (assign_get 11 43 hello r (omega (arith, hl)) lr)
        (ap (hmac secret) (assign_twice 11 43 hello r zero_32 (omega arith) (omega (arith, hl)) lr))
        (sym (take-append 28 (take 28 mac) clock first)) (ap from_le ts ∙ from_le-le 4 timestamp ht)
        h1 h2
