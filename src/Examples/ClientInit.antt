-- ===== src/Examples/ClientInit.antt =====
-- Runs of reading a client's init.
use tg_ws_proxy_rust.Prelude.{
  ◌≡◌, refl, true, false, List, [], ◌∷◌, ◌++◌, replicate, drop, slice, assign, arith,
}
use tg_ws_proxy_rust.Prelude.Bytes.{Bytes}
use tg_ws_proxy_rust.Source.{Source}
use tg_ws_proxy_rust.FakeTls.Hello.{session_id_of}
use tg_ws_proxy_rust.FakeTls.Hello.Client.{client_random, verify_client_hello-client_random}
use tg_ws_proxy_rust.FakeTls.Record.{FakeTlsStream}
use tg_ws_proxy_rust.FakeTls.Record.Stream.{Rec, ccs, app, wire, Holds}
use tg_ws_proxy_rust.ClientInit.{direct, over_tls, read_client_init}
use tg_ws_proxy_rust.ClientInit.Reading.{read_client_init-direct, read_client_init-over_tls}
use tg_ws_proxy_rust.Examples.Hello.{mac, hello}

read_client_init-direct_example :
    read_client_init mac 0 [] [] [] false (record { pending = replicate 70 2; sizes = [] })
    ≡ direct (replicate 64 2) (record { pending = replicate 6 2; sizes = [] })
read_client_init-direct_example =
    read_client_init-direct mac 0 [] [] [] 2 (replicate 63 2) (replicate 6 2)
      (record { pending = replicate 70 2; sizes = [] }) refl refl

abbrev sent : Bytes
sent = assign 11 43 hello (client_random mac (λ k xs. refl) hello [] 1000)

abbrev records : List Rec
records = ccs (1 ∷ []) ∷ app (replicate 60 3) ∷ app (replicate 10 4) ∷ []

abbrev arriving : Source
arriving = record { pending = sent ++ wire records; sizes = 1 ∷ 2 ∷ [] }

read_client_init-over_tls_example :
    (t : FakeTlsStream) × (read_client_init mac 1100 [] [] [] true arriving
      ≡ over_tls (replicate 60 3 ++ replicate 4 4) t)
    × Holds t (replicate 6 4)
read_client_init-over_tls_example =
    read_client_init-over_tls mac 1100 [] [] [] 3 1 (drop 5 sent) (slice 11 43 sent)
      (session_id_of mac sent) 1000 records arriving refl (omega arith)
      (verify_client_hello-client_random mac (λ k xs. refl) hello [] 1100 1000 (omega arith)
        (omega arith) refl refl (omega arith) (omega arith))
      (omega arith, ((omega arith, omega arith), ((omega arith, omega arith), tt))) (omega arith)
