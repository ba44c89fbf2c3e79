-- ===== src/Config/DcIp.antt =====
-- proxy/config.py: `parse_dc_ip_list`. `int_of` and `is_ip` stand for Python's `int` and for
-- socket.inet_aton, with `none` and `false` for what they raise; `K` is the type of the integers.
use tg_ws_proxy_rust.Prelude.{
  ◌≡◌, refl, sym, ap, ◌∙◌, Bool, true, false, List, [], ◌∷◌, ◌++◌, Option, none, some, map,
  append-nil, All, ◌==◌, if◌then◌else◌, inl, inr, Bool-cases,
}
use tg_ws_proxy_rust.Prelude.Text.{Text, contains, split_once}

pub data Parsed (K : Type 0) : Type 0 where
  bad_format : Text → Parsed K
  bad_entry : Text → Parsed K
  redirects : (K → Option Text) → Parsed K

module _ {K : Type 0} (same : K → K → Bool) (int_of : Text → Option K) (is_ip : Text → Bool) where
  unfoldable pub parse_from : (K → Option Text) → List Text → Parsed K
  parse_from dc_redirects [] = Parsed.redirects dc_redirects
  parse_from dc_redirects (entry ∷ entries) = elim (split_once b':' entry) [
    | none ↦ Parsed.bad_format entry
    | some (dc_s, ip_s) ↦ elim (int_of dc_s) [
      | none ↦ Parsed.bad_entry entry
      | some dc_n ↦ elim (is_ip ip_s) [
        | false ↦ Parsed.bad_entry entry
        | true ↦ parse_from (λ dc. if same dc dc_n then some ip_s else dc_redirects dc) entries
      ]
    ]
  ]

  unfoldable pub parse_dc_ip_list : List Text → Parsed K
  unfolding parse_from
  parse_dc_ip_list dc_ip_list = parse_from (λ dc. none) dc_ip_list

  -- The parts of an entry that is written as it should be.
  pub record Redirect : Type 0 where
    pub dc_text : Text
    pub ip : Text
    pub dc : K

  abbrev pub IsWritten : Redirect → Type 0
  IsWritten e =
      (contains b':' e.dc_text ≡ false) × (int_of e.dc_text ≡ some e.dc) × (is_ip e.ip ≡ true)

  abbrev pub print : Redirect → Text
  print e = e.dc_text ++ (b':' ∷ e.ip)

  -- The address of the last entry for a data centre.
  abbrev pub last_for : K → List Redirect → Option Text → Option Text
  last_for dc [] o = o
  last_for dc (e ∷ es) o = last_for dc es (if same dc e.dc then some e.ip else o)

  split_once-print :
      (s t : Text) → contains b':' s ≡ false → split_once b':' (s ++ (b':' ∷ t)) ≡ some (s, t)
  split_once-print [] t h = refl
  split_once-print (c ∷ cs) t h = elim (Bool-cases (c == b':')) [
    | inl e ↦ let f : true ≡ false = rw e at h in absurd (cc)
    | inr e ↦
        let rest : contains b':' cs ≡ false = rw e at h in rw (e, split_once-print cs t rest) refl
  ]

  split_once-none : (s : Text) → contains b':' s ≡ false → split_once b':' s ≡ none
  split_once-none [] h = refl
  split_once-none (c ∷ cs) h = elim (Bool-cases (c == b':')) [
    | inl e ↦ let f : true ≡ false = rw e at h in absurd (cc)
    | inr e ↦
        let rest : contains b':' cs ≡ false = rw e at h in rw (e, split_once-none cs rest) refl
  ]

  parse_from-print :
      (d : K → Option Text) (es : List Redirect) (rest : List Text)
      → All IsWritten es
      → (d' : K → Option Text) × (parse_from d (map print es ++ rest) ≡ parse_from d' rest)
        × ((k : K) → d' k ≡ last_for k es (d k))
  unfolding parse_from
  parse_from-print d [] rest h = (d, refl, λ k. refl)
  parse_from-print d (e ∷ es) rest h =
      let (d', same_parse, looked_up) =
        parse_from-print (λ dc. if same dc e.dc then some e.ip else d dc) es rest h.1 in
      let (no_colon, number, address) = h.0 in
      (
        d',
        rw (split_once-print e.dc_text e.ip no_colon, number, address, parse_from) same_parse,
        looked_up,
      )

  -- Entries that are written as they should be are all read, and a data centre gets the address of
  -- its last entry; the first entry after them that has no colon is the one reported.
  pub parse_dc_ip_list-print :
      (es : List Redirect) (bad : Text) (rest : List Text)
      → All IsWritten es
      → contains b':' bad ≡ false
      → (d : K → Option Text) × (parse_dc_ip_list (map print es) ≡ Parsed.redirects d)
        × ((k : K) → d k ≡ last_for k es none)
        × (parse_dc_ip_list (map print es ++ (bad ∷ rest)) ≡ Parsed.bad_format bad)
  unfolding parse_dc_ip_list
  parse_dc_ip_list-print es bad rest h no_colon =
      let (d, whole, looked_up) = parse_from-print (λ dc. none) es [] h in
      let (d', before, looked_up') = parse_from-print (λ dc. none) es (bad ∷ rest) h in
      (
        d,
        ap (parse_from (λ dc. none)) (sym (append-nil (map print es))) ∙ whole,
        looked_up,
        before ∙ rw (split_once-none bad no_colon, parse_from) refl,
      )
