-- ===== src/Config/Options/Configured.antt =====
-- The configuration that the options lead to is in bounds.
use tg_ws_proxy_rust.Prelude.{
  ℕ, ◌≤◌, ◌≡◌, ◌⊎◌, refl, sym, ap, ◌∙◌, Bool, true, false, [], ◌∷◌, Option, none, some, length, All,
  subst, ◌==◌, ==_iff, inl, inr, Bool-cases, arith,
}
use tg_ws_proxy_rust.Prelude.Bytes.{Bytes, IsByte}
use tg_ws_proxy_rust.Prelude.Int.{ℤ, pos, negsuc}
use tg_ws_proxy_rust.Prelude.Text.{Text, is_space, strip}
use tg_ws_proxy_rust.Prelude.Hex.{
  from_hex, hex, is_blank, from_hex-hex, length-hex, length-from_hex, length-from_hex_plain,
}
use tg_ws_proxy_rust.Config.Domains.{any}
use tg_ws_proxy_rust.Config.Domains.Coerce.{Clean, coerce_domain_list-Clean}
use tg_ws_proxy_rust.Config.DcIp.{Parsed, bad_format, bad_entry, redirects}
use tg_ws_proxy_rust.Config.Options.{
  Options, ProxyConfig, at_least, check_hex, check_length, secret_of, config_of, with_secret,
  with_redirects, configure,
}

-- 32 characters that bytes.fromhex takes; they are 16 bytes, or fewer if there is a blank.
pub record IsSecret (s : Text) : Type 0 where
  pub secret : Bytes
  pub read : from_hex s ≡ some secret
  pub chars : length s ≡ 32
  pub short : length secret ≤ 16
  pub whole : (any is_blank s ≡ true) ⊎ (length secret ≡ 16)

pub record InBounds (lower : Text → Text) (c : ProxyConfig) : Type 0 where
  pub key : IsSecret c.secret
  pub buffer : 4096 ≤ c.buffer_size
  pub timeout : 500 ≤ c.shutdown_timeout
  pub user : Clean lower [] c.cfproxy_user_domains
  pub worker : Clean lower [] c.cfproxy_worker_domains

at_least-le : (n : ℕ) (z : ℤ) → n ≤ at_least n z
at_least-le n (pos k) = omega arith
at_least-le n (negsuc k) = omega arith

any_none : (p : ℕ → Bool) (s : Text) → any p s ≡ false → All (λ c. p c ≡ false) s
any_none p [] h = tt
any_none p (c ∷ cs) h = elim (Bool-cases (p c)) [
  | inl e ↦ let no : true ≡ false = rw e at h in absurd (cc)
  | inr e ↦ (e, any_none p cs (rw e at h))
]

read-IsSecret : (s : Text) (secret : Bytes) → from_hex s ≡ some secret → length s ≡ 32 → IsSecret s
read-IsSecret s secret read chars = record {
  secret = secret;
  read = read;
  chars = chars;
  short = omega (arith, length-from_hex s secret read);
  whole = elim (Bool-cases (any is_blank s)) [
    | inl blank ↦ inl blank
    | inr plain ↦
        inr (omega (arith, length-from_hex_plain s secret (any_none is_blank s plain) read))
  ];
}

check_hex-IsSecret :
    (t s : Text) (o : Option Bytes)
    → from_hex t ≡ o
    → length t ≡ 32
    → check_hex t o ≡ some s
    → IsSecret s
unfolding check_hex
check_hex-IsSecret t s none e l h = cc
check_hex-IsSecret t s (some secret) e l h =
    let same : t ≡ s = cc in
    let read : from_hex s ≡ some secret = ap from_hex (sym same) ∙ e in
    read-IsSecret s secret read (ap (λ (x : Text). length x) (sym same) ∙ l)

generated-IsSecret :
    (random : Bytes) (s : Text)
    → length random ≡ 16
    → All IsByte random
    → some (hex random) ≡ some s
    → IsSecret s
generated-IsSecret random s l octets h =
    let same : hex random ≡ s = cc in
    subst IsSecret same (
      read-IsSecret (hex random) random (from_hex-hex random octets)
        (omega (arith, length-hex random)))

secret_of-IsSecret :
    (random : Bytes) (o : Option Text) (s : Text)
    → length random ≡ 16
    → All IsByte random
    → secret_of random o ≡ some s
    → IsSecret s
unfolding secret_of check_length
secret_of-IsSecret random none s l octets h = generated-IsSecret random s l octets h
secret_of-IsSecret random (some []) s l octets h = generated-IsSecret random s l octets h
secret_of-IsSecret random (some (c ∷ cs)) s l octets h =
    let t = strip is_space (c ∷ cs) in
    elim (Bool-cases (length t == 32)) [
      | inl e ↦ check_hex-IsSecret t s _ refl ((==_iff (length t) 32).0 e) (rw e at h)
      | inr e ↦ let no : none ≡ some s = rw e at h in absurd (cc)
    ]

module _ (int_of : Text → Option ℤ) (same : ℤ → ℤ → Bool) (is_ip : Text → Bool)
    (lower : Text → Text) (random : Bytes) (args : Options) (c : ProxyConfig) where
  config_of-InBounds :
      (d : ℤ → Option Text) (s : Text)
      → IsSecret s
      → InBounds lower (config_of int_of same is_ip lower random args d s)
  unfolding config_of
  config_of-InBounds d s h = record {
    key = h;
    buffer = omega (arith, at_least-le 4 args.buf_kb);
    timeout = at_least-le 500 args.shutdown_timeout;
    user = (coerce_domain_list-Clean lower args.cfproxy_domain).0;
    worker = (coerce_domain_list-Clean lower args.cfproxy_worker_domain).0;
  }

  with_secret-InBounds :
      (d : ℤ → Option Text) (o : Option Text)
      → ((s : Text) → o ≡ some s → IsSecret s)
      → with_secret int_of same is_ip lower random args d o ≡ some c
      → InBounds lower c
  unfolding with_secret
  with_secret-InBounds d none h e = cc
  with_secret-InBounds d (some s) h e =
      let made : config_of int_of same is_ip lower random args d s ≡ c = cc in
      subst (InBounds lower) made (config_of-InBounds d s (h s refl))

  with_redirects-InBounds :
      (parsed : Parsed ℤ)
      → length random ≡ 16
      → All IsByte random
      → with_redirects int_of same is_ip lower random args parsed ≡ some c
      → InBounds lower c
  unfolding with_redirects
  with_redirects-InBounds (bad_format entry) l octets e = cc
  with_redirects-InBounds (bad_entry entry) l octets e = cc
  with_redirects-InBounds (redirects d) l octets e =
      with_secret-InBounds d (secret_of random args.secret)
        (λ s f. secret_of-IsSecret random args.secret s l octets f) e

-- The random source yields 16 bytes. Then the options, if the program does not exit on them, lead to
-- a secret of 32 characters that decodes to 16 bytes, or to fewer when it has a blank in it, to
-- buffers of 4096 bytes at least and half a second at least for the shutdown, and to clean lists of
-- domains.
pub configure-InBounds :
    (int_of : Text → Option ℤ) (same : ℤ → ℤ → Bool) (is_ip : Text → Bool) (lower : Text → Text)
    (random : Bytes) (args : Options) (c : ProxyConfig)
    → length random ≡ 16
    → All IsByte random
    → configure int_of same is_ip lower random args ≡ some c
    → InBounds lower c
unfolding configure
configure-InBounds int_of same is_ip lower random args c l octets e =
    with_redirects-InBounds int_of same is_ip lower random args c _ l octets e
