-- ===== src/Config/Decode.antt =====
-- proxy/config.py: the encoded domains, `_dd`, which decodes one, and the reading of a fetched list.
use tg_ws_proxy_rust.Prelude.{
  ℕ, suc, ◌+◌, ◌-◌, ◌*◌, ◌%◌, ◌≤◌, ◌<◌, ◌≡◌, refl, ap, ap₂, ◌∙◌, ◌⊎◌, Bool, true, false, not, ◌&&◌,
  ◌||◌, List, [], ◌∷◌, ◌++◌, Option, none, some, length, take, drop, length-append, take-append,
  drop-append, map, is_empty, All, ltb, leb, ◌==◌, if◌then◌else◌, inl, inr, arith,
}
use tg_ws_proxy_rust.Prelude.Bytes.{bytes_eq}
use tg_ws_proxy_rust.Prelude.Text.{Text, is_space, strip, split_where}

abbrev pub dot_com : Text
dot_com = b'.' ∷ b'c' ∷ b'o' ∷ b'm' ∷ []

abbrev pub co_uk : Text
co_uk = 46 ∷ 99 ∷ 111 ∷ 46 ∷ 117 ∷ 107 ∷ []

abbrev pub base_of : ℕ → ℕ
base_of c = if ltb b'`' c then 97 else 65

-- (ord(c) - base - n) % 26 + base, where a multiple of 26 keeps the difference from being negative.
abbrev pub shift_back : ℕ → ℕ → ℕ
shift_back n c = (c + 26 * (n + base_of c) - (base_of c + n)) % 26 + base_of c

module _ (is_alpha : ℕ → Bool) where
  abbrev pub alpha_count : Text → ℕ
  alpha_count [] = 0
  alpha_count (c ∷ cs) = if is_alpha c then suc (alpha_count cs) else alpha_count cs

  abbrev pub decode_char : ℕ → ℕ → ℕ
  decode_char n c = if is_alpha c then shift_back n c else c

  pub dd : Text → Text
  dd s =
      if bytes_eq (drop (length s - 4) s) dot_com
      then (let p = take (length s - 4) s in map (decode_char (alpha_count p)) p ++ co_uk)
      else s

  -- The characters at which str.splitlines breaks a line.
  abbrev pub is_line_break : ℕ → Bool
  is_line_break c =
      (leb 10 c && leb c 13) || (leb 28 c && leb c 30) || (c == 133) || (c == 8232) || (c == 8233)

  abbrev pub is_comment : Text → Bool
  is_comment [] = false
  is_comment (c ∷ cs) = c == b'#'

  abbrev pub encoded_lines : List Text → List Text
  encoded_lines [] = []
  encoded_lines (line ∷ lines) =
      let rest = encoded_lines lines in
      if not (is_empty (strip is_space line)) && not (is_comment line)
      then strip is_space line ∷ rest
      else rest

  -- `response` is the decoded body, or `none` for any exception. A `\r\n` is two breaks here, and
  -- the empty line between them is left out like any other.
  pub fetch_cfproxy_domain_list : Option Text → List Text
  fetch_cfproxy_domain_list none = []
  fetch_cfproxy_domain_list (some text) = map dd (encoded_lines (split_where is_line_break text))

-- The letters of the alphabet, and their shift by `n` places.
abbrev pub is_letter : ℕ → Bool
is_letter c = (leb 65 c && leb c 90) || (leb 97 c && leb c 122)

abbrev pub shift : ℕ → ℕ → ℕ
shift n c = (c - base_of c + n) % 26 + base_of c

shift_small : (n k b : ℕ) → k < 26 → 1 ≤ b → ((k + n) % 26 + b + 26 * (n + b) - (b + n)) % 26 ≡ k
shift_small n k b h hb = omega arith

shift-is_letter : (n c : ℕ) → is_letter c ≡ true → is_letter (shift n c) ≡ true
shift-is_letter n c h = ground arith

base_of-shift : (n c : ℕ) → is_letter c ≡ true → base_of (shift n c) ≡ base_of c
base_of-shift n c h = ground arith

base_of-range :
    (c : ℕ) → is_letter c ≡ true → (1 ≤ base_of c) × (base_of c ≤ c) × (c - base_of c < 26)
base_of-range c h = ground arith

shift_back-shift : (n c : ℕ) → is_letter c ≡ true → shift_back n (shift n c) ≡ c
shift_back-shift n c h =
    let (pos, low, high) = base_of-range c h in
    ap (λ b. (shift n c + 26 * (n + b) - (b + n)) % 26 + b) (base_of-shift n c h)
    ∙ omega (arith, shift_small n (c - base_of c) (base_of c) high pos, low)

module _ (is_alpha : ℕ → Bool) where
  abbrev encode_char : ℕ → ℕ → ℕ
  encode_char n c = if is_alpha c then shift n c else c

  -- The encoder: letters are shifted by the number of letters in the name.
  abbrev pub encode : Text → Text
  encode p = map (encode_char (alpha_count is_alpha p)) p ++ dot_com

  module _ (letters : (c : ℕ) → is_letter c ≡ true → is_alpha c ≡ true) where
    abbrev IsCodable : ℕ → Type 0
    IsCodable c = (is_letter c ≡ true) ⊎ (is_alpha c ≡ false)

    is_alpha-encode_char : (n c : ℕ) → IsCodable c → is_alpha (encode_char n c) ≡ is_alpha c
    is_alpha-encode_char n c (inl h) =
        rw (letters c h) (letters (shift n c) (shift-is_letter n c h))
    is_alpha-encode_char n c (inr h) = rw h h

    alpha_count-encode :
        (n : ℕ) (p : Text)
        → All IsCodable p
        → alpha_count is_alpha (map (encode_char n) p) ≡ alpha_count is_alpha p
    alpha_count-encode n [] h = refl
    alpha_count-encode n (c ∷ cs) h =
        ap₂ (λ b k. if b then suc k else k) (is_alpha-encode_char n c h.0)
          (alpha_count-encode n cs h.1)

    decode_char-encode_char : (n c : ℕ) → IsCodable c → decode_char is_alpha n (encode_char n c) ≡ c
    decode_char-encode_char n c (inl h) =
        rw (letters c h) (rw (letters (shift n c) (shift-is_letter n c h)) (shift_back-shift n c h))
    decode_char-encode_char n c (inr h) = rw h (rw h refl)

    decode-encode :
        (n : ℕ) (p : Text)
        → All IsCodable p
        → map (decode_char is_alpha n) (map (encode_char n) p) ≡ p
    decode-encode n [] h = refl
    decode-encode n (c ∷ cs) h = ap₂ ◌∷◌ (decode_char-encode_char n c h.0) (decode-encode n cs h.1)

    dd-append :
        (q : Text)
        → dd is_alpha (q ++ dot_com)
          ≡ map (decode_char is_alpha (alpha_count is_alpha q)) q ++ co_uk
    unfolding dd
    dd-append q =
        let e : length q ≡ length (q ++ dot_com) - 4 = omega (arith, length-append q dot_com) in
        rw (drop-append (length (q ++ dot_com) - 4) q dot_com e) (
          ap (λ (t : Text). map (decode_char is_alpha (alpha_count is_alpha t)) t ++ co_uk)
            (take-append (length (q ++ dot_com) - 4) q dot_com e))

-- The 26 letters of both cases are letters. Then decoding gives back the name that was encoded,
-- under `.co.uk`, for every name of such letters and of characters that are no letters.
pub dd-encode :
    (is_alpha : ℕ → Bool)
    → ((c : ℕ) → is_letter c ≡ true → is_alpha c ≡ true)
    → (p : Text) → All (λ c. (is_letter c ≡ true) ⊎ (is_alpha c ≡ false)) p
    → dd is_alpha (encode is_alpha p) ≡ p ++ co_uk
dd-encode is_alpha letters p h =
    let n = alpha_count is_alpha p in
    dd-append is_alpha letters (map (encode_char is_alpha n) p)
    ∙ ap (λ k. map (decode_char is_alpha k) (map (encode_char is_alpha n) p) ++ co_uk)
        (alpha_count-encode is_alpha letters n p h)
    ∙ ap (λ (t : Text). t ++ co_uk) (decode-encode is_alpha letters n p h)
