-- ===== src/Examples/Hello.antt =====
-- Runs of the TLS hellos, under a digest that is always the same.
use tg_ws_proxy_rust.Prelude.{◌≡◌, refl, some, [], ◌∷◌, ◌++◌, replicate, assign, arith}
use tg_ws_proxy_rust.Prelude.Bytes.{Bytes}
use tg_ws_proxy_rust.FakeTls.Hello.{verify_client_hello, session_id_of, zero_32}
use tg_ws_proxy_rust.FakeTls.Hello.Client.{client_random, verify_client_hello-client_random}

abbrev pub mac : Bytes → Bytes → Bytes
mac key xs = replicate 32 9

-- A hello of 76 bytes with a session id.
abbrev pub hello : Bytes
hello = (0x16 ∷ 3 ∷ 1 ∷ 0 ∷ 71 ∷ 1 ∷ 0 ∷ 0 ∷ 67 ∷ 3 ∷ 3 ∷ []) ++ (zero_32 ++ (32 ∷ replicate 32 5))

verify_client_hello-client_random_example :
    verify_client_hello mac 1100
      (assign 11 43 hello (client_random mac (λ k xs. refl) hello [] 1000))
      []
    ≡ some (
      client_random mac (λ k xs. refl) hello [] 1000,
      session_id_of mac (assign 11 43 hello (client_random mac (λ k xs. refl) hello [] 1000)),
      1000,
    )
verify_client_hello-client_random_example =
    verify_client_hello-client_random mac (λ k xs. refl) hello [] 1100 1000 (omega arith)
      (omega arith) refl refl (omega arith) (omega arith)
