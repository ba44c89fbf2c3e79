-- ===== src/Examples/Server.antt =====
-- Sessions of `_handle_client`, under the toy cipher.
use tg_ws_proxy_rust.Prelude.{◌≡◌, refl, true, false, some, none, [], ◌∷◌, ◌++◌, replicate}
use tg_ws_proxy_rust.Prelude.Bytes.{Bytes, xor_bytes}
use tg_ws_proxy_rust.Stats.{new}
use tg_ws_proxy_rust.Cipher.{pad_bytes, update, encryptor}
use tg_ws_proxy_rust.Handshake.{
  dc_idx, tag_abridged, draw, pack_h, seal, generate_relay_init, CryptoCtx, build_crypto_ctx,
}
use tg_ws_proxy_rust.Route.{failed}
use tg_ws_proxy_rust.ClientInit.{direct}
use tg_ws_proxy_rust.Server.World.{
  done, Link, relayed, bridged, client_closed, Config, Proxy, Answers,
}
use tg_ws_proxy_rust.Server.Handler.{handle_client}
use tg_ws_proxy_rust.Server.Handler.Accounted.{Accounted, handle_client-Accounted}
use tg_ws_proxy_rust.Server.Handler.Live.{handle_client-Bridged}
use tg_ws_proxy_rust.Examples.Toy.{toy, toy_pad}
use tg_ws_proxy_rust.Examples.Handshake.{digest, client_init, client_hello, is_accepted, draws}

abbrev config : Config
config = record {
  secret = [];
  in_redirects = λ dc. true;
  fallback_cfproxy = true;
  cfproxy_worker_domains = [];
}

abbrev pub started_proxy : Proxy
started_proxy = record {
  stats = new 0;
  memory = λ dc is_media. record { blacklisted = false; fail_until = none };
  balancer = record { domains = []; dc_to_domain = λ dc. none };
  ws_pool = record {
    idle = λ k. [];
    refilling = [];
    closing = [];
    spawned = [];
    hits = 0;
    misses = 0;
  };
  cf_worker_pool = record {
    idle = λ k. [];
    refilling = [];
    closing = [];
    spawned = [];
    hits = 0;
    misses = 0;
  };
  trace = [];
}

-- No WebSocket can be opened.
abbrev only_tcp : Answers
only_tcp = record {
  options = done tt;
  init = done (direct client_init (record { pending = []; sizes = [] }));
  masked = false;
  drained = done tt;
  draws = draws;
  salt = 5 ∷ 6 ∷ [];
  now = 10;
  gone = λ ws. false;
  connect = λ timeout domain. failed;
  shuffled_workers = [];
  connect_worker = λ domain. failed;
  shuffled_domains = [];
  connect_cf = λ domain. failed;
  connect_tcp = true;
  relay = λ link. done tt;
  bridge = λ link. done tt;
  moved = λ link. (100, 200);
}

abbrev relay_init : Bytes
relay_init =
    replicate 56 1
    ++ xor_bytes (tag_abridged ++ (0xFE ∷ 0xFF ∷ 5 ∷ 6 ∷ [])) (pad_bytes (toy_pad 2) 56 8)

relay_made :
    generate_relay_init toy draws (5 ∷ 6 ∷ []) tag_abridged (dc_idx client_hello) ≡ some relay_init
unfolding generate_relay_init draw encryptor pack_h seal update
relay_made = refl

abbrev ctx : CryptoCtx toy digest
ctx = record { clt_dec = 71; clt_enc = 7; tg_enc = 66; tg_dec = 2 }

ctx_built : build_crypto_ctx toy digest (replicate 48 0) [] relay_init ≡ some ctx
unfolding build_crypto_ctx encryptor update
ctx_built = refl

handle_client-Accounted_example :
    Accounted toy digest config only_tcp started_proxy
      (handle_client toy digest config only_tcp started_proxy)
handle_client-Accounted_example =
    handle_client-Accounted toy digest config only_tcp started_proxy refl

handle_client-Bridged_example :
    (link : Link) × ((handle_client toy digest config only_tcp started_proxy).trace
      ≡ relayed link relay_init ∷ bridged link ∷ client_closed ∷ [])
handle_client-Bridged_example =
    handle_client-Bridged toy digest config only_tcp started_proxy client_hello client_init
      relay_init ctx refl is_accepted relay_made ctx_built refl refl (λ link. refl) refl
      (record { direct = λ t d. tt; worker = λ d. tt; proxied = λ d. tt })
      (record { ws = λ n. refl; worker = λ n. refl })
