-- ===== src/FakeTls/Hello/Server.antt =====
-- A client that knows the secret can check the answer.
use tg_ws_proxy_rust.Prelude.{
  ◌≤◌, ◌≡◌, sym, ap, ◌∙◌, ◌∷◌, ◌++◌, length, take, drop, slice, assign, arith, length-take,
  length-drop, length-append, slice-append, slice-assign, assign_get, assign_twice, assign_same,
}
use tg_ws_proxy_rust.Prelude.Bytes.{Bytes, be}
use tg_ws_proxy_rust.FakeTls.Hello.{
  build_server_hello, response, server_hello_template, ccs_frame, zero_32,
}

module _ (hmac : Bytes → Bytes → Bytes) (digest : (k xs : Bytes) → length (hmac k xs) ≡ 32) where
  abbrev hello_of : Bytes → Bytes → Bytes
  hello_of session_id public_key =
      assign 89 121 (assign 44 76 server_hello_template session_id) public_key

  length-hello_of :
      (session_id public_key : Bytes)
      → length session_id ≡ 32
      → length public_key ≡ 32
      → (length (assign 44 76 server_hello_template session_id) ≡ 127)
        × (length (hello_of session_id public_key) ≡ 127)
  length-hello_of session_id public_key hs hk =
      let t = server_hello_template in
      let a = assign 44 76 t session_id in
      let la : length a ≡ 127 = omega (
        arith,
        length-append (take 44 t) (session_id ++ drop 76 t),
        length-append session_id (drop 76 t),
        hs,
      ) in
      (
        la,
        omega (
          arith,
          length-append (take 89 a) (public_key ++ drop 121 a),
          length-append public_key (drop 121 a),
          length-take 89 a,
          length-drop 121 a,
          la,
          hk,
        ),
      )

  response_random :
      (session_id public_key payload : Bytes)
      → length session_id ≡ 32
      → length public_key ≡ 32
      → (slice 11 43 (response hmac session_id public_key payload) ≡ zero_32)
        × (43 ≤ length (response hmac session_id public_key payload))
  unfolding response
  response_random session_id public_key payload hs hk =
      let a = assign 44 76 server_hello_template session_id in
      let l = length-hello_of session_id public_key hs hk in
      let more = ccs_frame ++ (0x17 ∷ 0x03 ∷ 0x03 ∷ (be 2 (length payload) ++ payload)) in
      (
        slice-append 11 43 (hello_of session_id public_key) more (omega arith) (omega (arith, l.1))
            ∙ slice-assign 11 43 89 121 a public_key (omega arith) (omega arith)
                (omega (arith, l.0))
            ∙ slice-assign 11 43 44 76 server_hello_template session_id (omega arith) (omega arith)
                (omega arith),
        omega (arith, length-append (hello_of session_id public_key) more, l.1),
      )

  -- For a session id and a public key of 32 bytes, the random in the server's hello is the HMAC,
  -- under the secret, of the client's random and the whole answer with its random zeroed.
  pub build_server_hello-random :
      (secret client_random session_id public_key payload : Bytes)
      → length session_id ≡ 32
      → length public_key ≡ 32
      → let answer = build_server_hello hmac secret client_random session_id public_key payload in
        slice 11 43 answer ≡ hmac secret (client_random ++ assign 11 43 answer zero_32)
  unfolding build_server_hello
  build_server_hello-random secret client_random session_id public_key payload hs hk =
      let r = response hmac session_id public_key payload in
      let mac = hmac secret (client_random ++ r) in
      let z = response_random session_id public_key payload hs hk in
      let back : assign 11 43 (assign 11 43 r mac) zero_32 ≡ r =
        assign_twice 11 43 r mac zero_32 (omega arith) (omega (arith, z.1))
          (digest secret (client_random ++ r))
        ∙ ap (λ (t : Bytes). assign 11 43 r t) (sym z.0)
        ∙ assign_same 11 43 r (omega arith) in
      assign_get 11 43 r mac (omega (arith, z.1)) (digest secret (client_random ++ r))
      ∙ ap (λ (t : Bytes). hmac secret (client_random ++ t)) (sym back)
