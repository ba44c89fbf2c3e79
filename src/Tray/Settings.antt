-- ===== src/Tray/Settings.antt =====
-- utils/tray_common.py: `load_config` and `apply_proxy_config`, with the defaults of
-- utils/default_config.py, against `main` of proxy/tg_ws_proxy.py. A setting that the file lacks is `none`. Numbers of
-- seconds are milliseconds; `random` is os.urandom(16).
use tg_ws_proxy_rust.Prelude.{
  ◌*◌, ◌≡◌, refl, sym, ap, ◌∙◌, Bool, true, false, not, List, [], ◌∷◌, Option, none, some,
}
use tg_ws_proxy_rust.Prelude.Bytes.{Bytes}
use tg_ws_proxy_rust.Prelude.Int.{ℤ, pos}
use tg_ws_proxy_rust.Prelude.Text.{Text, codes, is_space, strip}
use tg_ws_proxy_rust.Prelude.Hex.{hex}
use tg_ws_proxy_rust.Config.Domains.{Value, items_of_entries, coerce_items, coerce_domain_list}
use tg_ws_proxy_rust.Config.DcIp.{Parsed, bad_format, bad_entry, redirects, parse_dc_ip_list}
use tg_ws_proxy_rust.Config.Options.{
  Options, ProxyConfig, at_least, dc_ip_2, dc_ip_4, dc_ip_or_default, secret_of, config_of,
  with_secret, with_redirects, configure,
}

pub record Settings : Type 0 where
  pub port : Option ℤ
  pub host : Option Text
  pub secret : Option Text
  pub dc_ip : Option (List Text)
  pub buf_kb : Option ℤ
  pub pool_size : Option ℤ
  pub cfproxy : Option Bool
  pub cfproxy_user_domain : Option Value
  pub cfproxy_worker_domain : Option Value
  pub fake_tls_domain : Option Text
  pub proxy_protocol : Option Bool
  pub shutdown_timeout : Option ℤ

-- cfg.get(key, DEFAULT_CONFIG[key])
abbrev pub setting : {A : Type 0} → Option A → A → A
setting none d = d
setting (some a) d = a

-- The settings that the proxy reads, of `default_tray_config`.
abbrev pub default_tray_config : Bytes → Settings
default_tray_config random = record {
  port = some (pos 1443);
  host = some (codes "127.0.0.1");
  secret = some (hex random);
  dc_ip = some (dc_ip_2 ∷ dc_ip_4 ∷ []);
  buf_kb = some (pos 256);
  pool_size = some (pos 4);
  cfproxy = some true;
  cfproxy_user_domain = some (Value.seq []);
  cfproxy_worker_domain = some (Value.seq []);
  fake_tls_domain = some [];
  proxy_protocol = some false;
  shutdown_timeout = some (pos 10000);
}

-- data.setdefault(k, v)
abbrev pub setdefault : {A : Type 0} → Option A → Option A → Option A
setdefault none v = v
setdefault (some a) v = some a

-- The settings of the file; `none` if there is no file, or none that can be read.
abbrev pub load_config : Bytes → Option Settings → Settings
load_config random none = default_tray_config random
load_config random (some stored) =
    let v = default_tray_config random in
    record {
      port = setdefault stored.port v.port;
      host = setdefault stored.host v.host;
      secret = setdefault stored.secret v.secret;
      dc_ip = setdefault stored.dc_ip v.dc_ip;
      buf_kb = setdefault stored.buf_kb v.buf_kb;
      pool_size = setdefault stored.pool_size v.pool_size;
      cfproxy = setdefault stored.cfproxy v.cfproxy;
      cfproxy_user_domain = setdefault stored.cfproxy_user_domain v.cfproxy_user_domain;
      cfproxy_worker_domain = setdefault stored.cfproxy_worker_domain v.cfproxy_worker_domain;
      fake_tls_domain = setdefault stored.fake_tls_domain v.fake_tls_domain;
      proxy_protocol = setdefault stored.proxy_protocol v.proxy_protocol;
      shutdown_timeout = setdefault stored.shutdown_timeout v.shutdown_timeout;
    }

-- What argparse makes of an empty command line.
abbrev pub no_options : Options
no_options = record {
  port = pos 1443;
  host = codes "127.0.0.1";
  secret = none;
  dc_ip = [];
  buf_kb = pos 256;
  pool_size = pos 4;
  cfproxy_domain = Value.other;
  cfproxy_worker_domain = Value.other;
  no_cfproxy = false;
  fake_tls_domain = [];
  proxy_protocol = false;
  shutdown_timeout = pos 10000;
}

-- The settings that say what the options do.
abbrev pub settings_of : Options → Text → Settings
settings_of args secret_hex = record {
  port = some args.port;
  host = some args.host;
  secret = some secret_hex;
  dc_ip = some (dc_ip_or_default args.dc_ip);
  buf_kb = some args.buf_kb;
  pool_size = some args.pool_size;
  cfproxy = some (not args.no_cfproxy);
  cfproxy_user_domain = some args.cfproxy_domain;
  cfproxy_worker_domain = some args.cfproxy_worker_domain;
  fake_tls_domain = some args.fake_tls_domain;
  proxy_protocol = some args.proxy_protocol;
  shutdown_timeout = some args.shutdown_timeout;
}

module _ (int_of : Text → Option ℤ) (same : ℤ → ℤ → Bool) (is_ip : Text → Bool)
    (lower : Text → Text) (random : Bytes) where
  abbrev pub settings_config : Settings → (ℤ → Option Text) → ProxyConfig
  settings_config cfg dc_redirects = record {
    port = setting cfg.port (pos 1443);
    host = setting cfg.host (codes "127.0.0.1");
    secret = setting cfg.secret (hex random);
    dc_redirects = dc_redirects;
    buffer_size = at_least 4 (setting cfg.buf_kb (pos 256)) * 1024;
    pool_size = at_least 0 (setting cfg.pool_size (pos 4));
    fallback_cfproxy = setting cfg.cfproxy true;
    cfproxy_user_domains =
        coerce_domain_list lower (setting cfg.cfproxy_user_domain (Value.seq []));
    cfproxy_worker_domains =
        coerce_domain_list lower (setting cfg.cfproxy_worker_domain (Value.seq []));
    fake_tls_domain = setting cfg.fake_tls_domain [];
    proxy_protocol = setting cfg.proxy_protocol false;
    shutdown_timeout = at_least 500 (setting cfg.shutdown_timeout (pos 10000));
  }

  abbrev pub with_parsed : Settings → Parsed ℤ → Option ProxyConfig
  with_parsed cfg (bad_format entry) = none
  with_parsed cfg (bad_entry entry) = none
  with_parsed cfg (redirects dc_redirects) = some (settings_config cfg dc_redirects)

  -- `none` is the result False.
  pub apply_proxy_config : Settings → Option ProxyConfig
  apply_proxy_config cfg =
      with_parsed cfg
        (parse_dc_ip_list same int_of is_ip (setting cfg.dc_ip (dc_ip_2 ∷ dc_ip_4 ∷ [])))

  with_parsed-with_redirects :
      (args : Options) (secret_hex : Text) (parsed : Parsed ℤ)
      → secret_of random args.secret ≡ some secret_hex
      → strip is_space args.fake_tls_domain ≡ args.fake_tls_domain
      → with_parsed (settings_of args secret_hex) parsed
        ≡ with_redirects int_of same is_ip lower random args parsed
  unfolding with_redirects with_secret config_of
  with_parsed-with_redirects args secret_hex (bad_format entry) e f = refl
  with_parsed-with_redirects args secret_hex (bad_entry entry) e f = refl
  with_parsed-with_redirects args secret_hex (redirects d) e f =
      ap
        (λ (t : Text).
          some (record (settings_config (settings_of args secret_hex) d) { fake_tls_domain = t }))
        (sym f)
      ∙ ap (with_secret int_of same is_ip lower random args d) (sym e)

  with_parsed-no_options :
      (parsed : Parsed ℤ)
      → with_parsed (default_tray_config random) parsed
        ≡ with_redirects int_of same is_ip lower random no_options parsed
  unfolding with_redirects with_secret config_of secret_of coerce_domain_list coerce_items
      items_of_entries
  with_parsed-no_options (bad_format entry) = refl
  with_parsed-no_options (bad_entry entry) = refl
  with_parsed-no_options (redirects d) = refl

-- The secret of the settings is the one that `main` takes, and the fake TLS domain has no blanks
-- around it. Then a file with settings that say what the options do leads to the configuration that
-- `main` makes of the options, and is refused just when `main` exits; and without a file that can be
-- read, the configuration is the one that `main` makes of no options.
pub apply_proxy_config-configure :
    (int_of : Text → Option ℤ) (same : ℤ → ℤ → Bool) (is_ip : Text → Bool) (lower : Text → Text)
    (random : Bytes) (args : Options) (secret_hex : Text)
    → secret_of random args.secret ≡ some secret_hex
    → strip is_space args.fake_tls_domain ≡ args.fake_tls_domain
    → (apply_proxy_config int_of same is_ip lower random
          (load_config random (some (settings_of args secret_hex)))
        ≡ configure int_of same is_ip lower random args)
      × (apply_proxy_config int_of same is_ip lower random (load_config random none)
          ≡ configure int_of same is_ip lower random no_options)
unfolding apply_proxy_config configure
apply_proxy_config-configure int_of same is_ip lower random args secret_hex e f = (
  with_parsed-with_redirects int_of same is_ip lower random args secret_hex _ e f,
  with_parsed-no_options int_of same is_ip lower random _,
)
