-- ===== src/Examples/Config.antt =====
-- Runs of the configuration, with the ASCII letters and digits.
use tg_ws_proxy_rust.Prelude.{
  ℕ, ◌+◌, ◌-◌, ◌≡◌, refl, ap₂, Bool, true, false, ◌&&◌, ◌||◌, List, [], ◌∷◌, ◌++◌, Option, none,
  some, leb, ◌==◌, if◌then◌else◌, replicate, inl, inr, arith,
}
use tg_ws_proxy_rust.Prelude.Int.{ℤ, pos, negsuc}
use tg_ws_proxy_rust.Prelude.Hex.{from_hex}
use tg_ws_proxy_rust.Prelude.Text.{Text, codes, is_space}
use tg_ws_proxy_rust.Balancer.{Balancer}
use tg_ws_proxy_rust.Config.Domains.{Value, coerce_domain_list, normalize_domain_pool}
use tg_ws_proxy_rust.Config.Domains.Normalize.{ValidFrom, normalize_domain_pool-Valid}
use tg_ws_proxy_rust.Config.Decode.{dd, co_uk, encode, is_letter, dd-encode}
use tg_ws_proxy_rust.Config.Refresh.{Round, timed_out, stopped}
use tg_ws_proxy_rust.Config.DcIp.{
  Parsed, Redirect, parse_from, parse_dc_ip_list, last_for, parse_dc_ip_list-print,
}
use tg_ws_proxy_rust.Config.Options.{
  Options, ProxyConfig, configure, with_redirects, with_secret, config_of, secret_of, check_length,
  check_hex,
}
use tg_ws_proxy_rust.Examples.Toy.{ok_bytes}
use tg_ws_proxy_rust.Config.Options.Configured.{InBounds, configure-InBounds}

abbrev is_alnum : ℕ → Bool
is_alnum c = is_letter c || (leb 48 c && leb c 57)

abbrev pub lower : Text → Text
lower [] = []
lower (c ∷ cs) = (if leb 65 c && leb c 90 then c + 32 else c) ∷ lower cs

lower_char :
    (c : ℕ)
    → (if leb 65 (if leb 65 c && leb c 90 then c + 32 else c)
          && leb (if leb 65 c && leb c 90 then c + 32 else c) 90
        then (if leb 65 c && leb c 90 then c + 32 else c) + 32
        else if leb 65 c && leb c 90
        then c + 32
        else c)
      ≡ (if leb 65 c && leb c 90 then c + 32 else c)
lower_char c = ground arith

lower_again : (t : Text) → lower (lower t) ≡ lower t
lower_again [] = refl
lower_again (c ∷ cs) = ap₂ ◌∷◌ (lower_char c) (lower_again cs)

alnum_not_space : (c : ℕ) → is_alnum c ≡ true → is_space c ≡ false
alnum_not_space c h = ground arith

abbrev listed : Value
listed = Value.str (codes "a.com, B.org;;A.com")

abbrev fetched : List Text
fetched = codes " Kws.One.COM " ∷ codes "-bad.com" ∷ codes "kws.one.com" ∷ []

normalize_domain_pool-Valid_example :
    ValidFrom is_alnum is_letter lower [] (normalize_domain_pool is_alnum is_letter lower fetched)
    × (normalize_domain_pool is_alnum is_letter lower
          (normalize_domain_pool is_alnum is_letter lower fetched)
        ≡ normalize_domain_pool is_alnum is_letter lower fetched)
normalize_domain_pool-Valid_example =
    normalize_domain_pool-Valid is_alnum is_letter lower alnum_not_space lower_again fetched

dd-encode_example : dd is_letter (encode is_letter (codes "Ab-z")) ≡ codes "Ab-z" ++ co_uk
dd-encode_example =
    dd-encode is_letter (λ c h. h) (codes "Ab-z") (inl refl, (inl refl, (inr refl, (inl refl, tt))))

abbrev empty : Balancer
empty = record { domains = []; dc_to_domain = λ dc. none }

abbrev rounds : List Round
rounds = timed_out none ∷ timed_out (some (codes "#\nabc.com\nabd.com\nabe.com")) ∷ stopped ∷ []

-- Numbers of one digit.
abbrev pub one_digit : Text → Option ℤ
one_digit [] = none
one_digit (c ∷ []) = if leb 48 c && leb c 57 then some (pos (c - 48)) else none
one_digit (c ∷ d ∷ cs) = none

abbrev pub same : ℤ → ℤ → Bool
same (pos m) (pos n) = m == n
same (pos m) (negsuc n) = false
same (negsuc m) (pos n) = false
same (negsuc m) (negsuc n) = m == n

abbrev redirect_2 : Redirect same one_digit (λ ip. true)
redirect_2 = record { dc_text = codes "2"; ip = codes "1.2.3.4"; dc = pos 2 }

parse_dc_ip_list-print_example :
    (d : ℤ → Option Text) × (parse_dc_ip_list same one_digit (λ ip. true) (codes "2:1.2.3.4" ∷ [])
      ≡ Parsed.redirects d)
    × ((k : ℤ) → d k ≡ last_for same one_digit (λ ip. true) k (redirect_2 ∷ []) none)
    × (parse_dc_ip_list same one_digit (λ ip. true) (codes "2:1.2.3.4" ∷ codes "3" ∷ [])
        ≡ Parsed.bad_format (codes "3"))
parse_dc_ip_list-print_example =
    parse_dc_ip_list-print same one_digit (λ ip. true) (redirect_2 ∷ []) (codes "3") []
      ((refl, refl, refl), tt) refl

abbrev pub options : Options
options = record {
  port = pos 1443;
  host = codes "127.0.0.1";
  secret = some (codes "00112233445566778899aabbccddeeff");
  dc_ip = [];
  buf_kb = negsuc 0;
  pool_size = pos 4;
  cfproxy_domain = Value.other;
  cfproxy_worker_domain = Value.other;
  no_cfproxy = false;
  fake_tls_domain = [];
  proxy_protocol = false;
  shutdown_timeout = pos 10000;
}

abbrev configured : ProxyConfig
configured = record {
  port = pos 1443;
  host = codes "127.0.0.1";
  secret = codes "00112233445566778899aabbccddeeff";
  dc_redirects = λ dc.
      if same dc (pos 4)
      then some (codes "149.154.167.220")
      else if same dc (pos 2)
      then some (codes "149.154.167.220")
      else none;
  buffer_size = 4096;
  pool_size = 4;
  fallback_cfproxy = true;
  cfproxy_user_domains = [];
  cfproxy_worker_domains = [];
  fake_tls_domain = [];
  proxy_protocol = false;
  shutdown_timeout = 10000;
}

is_configured :
    configure one_digit same (λ ip. true) lower (replicate 16 1) options ≡ some configured
unfolding configure with_redirects with_secret config_of secret_of check_length check_hex from_hex
    parse_dc_ip_list parse_from coerce_domain_list
is_configured = refl

configure-InBounds_example : InBounds lower configured
configure-InBounds_example =
    configure-InBounds one_digit same (λ ip. true) lower (replicate 16 1) options configured refl
      (ok_bytes (replicate 16 1) refl) is_configured
