-- ===== src/Config/Options.antt =====
-- `main` of proxy/tg_ws_proxy.py: from the options to `ProxyConfig` of proxy/config.py. Numbers of
-- seconds are milliseconds here. `random` is os.urandom(16); `int_of`, `is_ip` and `lower` are the
-- arguments of `Config`. The log and the run that follows are left out.
pub mod Configured
use tg_ws_proxy_rust.Prelude.{
  ℕ, ◌+◌, ◌*◌, ◌≤◌, Bool, true, false, not, List, [], ◌∷◌, Option, none, some, length, is_empty,
  max, ◌==◌, if◌then◌else◌,
}
use tg_ws_proxy_rust.Prelude.Bytes.{Bytes}
use tg_ws_proxy_rust.Prelude.Int.{ℤ, pos, negsuc}
use tg_ws_proxy_rust.Prelude.Text.{Text, is_space, strip}
use tg_ws_proxy_rust.Prelude.Hex.{from_hex, hex}
use tg_ws_proxy_rust.Config.Domains.{Value, coerce_domain_list}
use tg_ws_proxy_rust.Config.DcIp.{Parsed, bad_format, bad_entry, redirects, parse_dc_ip_list}

pub record Options : Type 0 where
  pub port : ℤ
  pub host : Text
  pub secret : Option Text
  pub dc_ip : List Text
  pub buf_kb : ℤ
  pub pool_size : ℤ
  pub cfproxy_domain : Value
  pub cfproxy_worker_domain : Value
  pub no_cfproxy : Bool
  pub fake_tls_domain : Text
  pub proxy_protocol : Bool
  pub shutdown_timeout : ℤ

pub record ProxyConfig : Type 0 where
  pub port : ℤ
  pub host : Text
  pub secret : Text
  pub dc_redirects : ℤ → Option Text
  pub buffer_size : ℕ
  pub pool_size : ℕ
  pub fallback_cfproxy : Bool
  pub cfproxy_user_domains : List Text
  pub cfproxy_worker_domains : List Text
  pub fake_tls_domain : Text
  pub proxy_protocol : Bool
  pub shutdown_timeout : ℕ

-- max(n, z), for a bound that is not negative
abbrev pub at_least : ℕ → ℤ → ℕ
at_least n (pos k) = max n k
at_least n (negsuc k) = n

abbrev pub dc_ip_2 : Text
dc_ip_2 =
    b'2' ∷ b':' ∷ b'1' ∷ b'4' ∷ b'9' ∷ b'.' ∷ b'1' ∷ b'5' ∷ b'4' ∷ b'.' ∷ b'1' ∷ b'6' ∷ b'7' ∷ b'.'
    ∷ b'2' ∷ b'2' ∷ b'0' ∷ []

abbrev pub dc_ip_4 : Text
dc_ip_4 =
    b'4' ∷ b':' ∷ b'1' ∷ b'4' ∷ b'9' ∷ b'.' ∷ b'1' ∷ b'5' ∷ b'4' ∷ b'.' ∷ b'1' ∷ b'6' ∷ b'7' ∷ b'.'
    ∷ b'2' ∷ b'2' ∷ b'0' ∷ []

abbrev pub dc_ip_or_default : List Text → List Text
dc_ip_or_default [] = dc_ip_2 ∷ dc_ip_4 ∷ []
dc_ip_or_default (entry ∷ entries) = entry ∷ entries

-- The secret to use; `none` is sys.exit(1).
unfoldable pub check_hex : Text → Option Bytes → Option Text
check_hex secret_hex none = none
check_hex secret_hex (some secret) = some secret_hex

unfoldable pub check_length : Text → Bool → Option Text
unfolding check_hex
check_length secret_hex false = none
check_length secret_hex true = check_hex secret_hex (from_hex secret_hex)

unfoldable pub secret_of : Bytes → Option Text → Option Text
unfolding check_length
secret_of random none = some (hex random)
secret_of random (some []) = some (hex random)
secret_of random (some (c ∷ cs)) =
    let secret_hex = strip is_space (c ∷ cs) in check_length secret_hex (length secret_hex == 32)

module _ (int_of : Text → Option ℤ) (same : ℤ → ℤ → Bool) (is_ip : Text → Bool)
    (lower : Text → Text) (random : Bytes) where
  -- The assignments to the fields of `proxy_config`.
  unfoldable pub config_of : Options → (ℤ → Option Text) → Text → ProxyConfig
  config_of args dc_redirects secret_hex = record {
    port = args.port;
    host = args.host;
    secret = secret_hex;
    dc_redirects = dc_redirects;
    buffer_size = at_least 4 args.buf_kb * 1024;
    pool_size = at_least 0 args.pool_size;
    fallback_cfproxy = not args.no_cfproxy;
    cfproxy_user_domains = coerce_domain_list lower args.cfproxy_domain;
    cfproxy_worker_domains = coerce_domain_list lower args.cfproxy_worker_domain;
    fake_tls_domain = strip is_space args.fake_tls_domain;
    proxy_protocol = args.proxy_protocol;
    shutdown_timeout = at_least 500 args.shutdown_timeout;
  }

  unfoldable pub with_secret : Options → (ℤ → Option Text) → Option Text → Option ProxyConfig
  unfolding config_of
  with_secret args dc_redirects none = none
  with_secret args dc_redirects (some secret_hex) = some (config_of args dc_redirects secret_hex)

  unfoldable pub with_redirects : Options → Parsed ℤ → Option ProxyConfig
  unfolding with_secret
  with_redirects args (bad_format entry) = none
  with_redirects args (bad_entry entry) = none
  with_redirects args (redirects dc_redirects) =
      with_secret args dc_redirects (secret_of random args.secret)

  -- `none` is sys.exit(1).
  unfoldable pub configure : Options → Option ProxyConfig
  unfolding with_redirects
  configure args =
      with_redirects args (parse_dc_ip_list same int_of is_ip (dc_ip_or_default args.dc_ip))
