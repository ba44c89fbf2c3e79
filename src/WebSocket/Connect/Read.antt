-- ===== src/WebSocket/Connect/Read.antt =====
-- How `RawWebSocket.connect` reads the lines of an answer.
use tg_ws_proxy_rust.Prelude.{
  ◌<◌, ◌≡◌, refl, ap, ◌∙◌, List, [], ◌∷◌, ◌++◌, Option, none, some, map, All,
}
use tg_ws_proxy_rust.Prelude.Bytes.{Bytes}
use tg_ws_proxy_rust.Prelude.Int.{ℤ, pos}
use tg_ws_proxy_rust.Prelude.Text.{Text, is_space, strip, split_once}
use tg_ws_proxy_rust.WebSocket.Connect.{response_line, second_part, status_code, headers_of}
use tg_ws_proxy_rust.WebSocket.Connect.Lines.{
  Status, three, two, one, code_of, IsStatus, split_once-eq-none, All-crlf, split_once-append,
  strip-crlf, IsLine, header_line, IsHeader, status_line,
}

abbrev pub lowered : (Text → Text) → List (Bytes × Bytes) → List (Text × Text)
lowered lower [] = []
lowered lower ((name, value) ∷ hs) = (lower name, value) ∷ lowered lower hs

-- The status: zero where there is no code, or no number in it.
abbrev pub number_or_zero : Option ℤ → ℤ
number_or_zero o = elim o [ none ↦ pos 0 | some n ↦ n ]

abbrev pub status_of : (Text → Option ℤ) → Status → ℤ
status_of int_of (three version code reason) = number_or_zero (int_of code)
status_of int_of (two version code) = number_or_zero (int_of code)
status_of int_of (one version) = pos 0

-- The second part of a line that is split at its first blank.
abbrev pub second_of : Option (Text × Text) → Option Text
second_of o = elim o [
  | none ↦ none
  | some (v, rest) ↦ elim (split_once 32 rest) [ none ↦ some rest | some (c, r) ↦ some c ]
]

module _ (decode : Bytes → Text) (int_of : Text → Option ℤ) (lower : Text → Text)
    (utf_8 : (b : Bytes) → All (λ x. x < 128) b → decode b ≡ b) where
  pub response_line-crlf :
      (b : Bytes) → IsLine b → response_line decode int_of lower (b ++ (13 ∷ (10 ∷ []))) ≡ b
  response_line-crlf [] h = absurd h
  response_line-crlf (c ∷ cs) h =
      ap (strip is_space) (utf_8 ((c ∷ cs) ++ (13 ∷ (10 ∷ []))) (All-crlf (c ∷ cs) h.1))
      ∙ strip-crlf c cs h.0
      ∙ h.3

  pub headers_of-lines :
      (hs : List (Bytes × Bytes))
      → All IsHeader hs
      → headers_of decode int_of lower (map header_line hs) ≡ lowered lower hs
  unfolding headers_of
  headers_of-lines [] h = refl
  headers_of-lines ((name, value) ∷ hs) ((colon, n, v, l), more) =
      let others = headers_of decode int_of lower (map header_line hs) in
      ap
        (λ (o : Option (Text × Text)). elim o [
          | none ↦ others
          | some (k, w) ↦ (lower (strip is_space k), strip is_space w) ∷ others
        ])
        (split_once-append b':' name (32 ∷ value) colon)
      ∙ ap (λ (t : Text). (lower t, strip is_space value) ∷ others) n
      ∙ ap (λ (t : Text). (lower name, t) ∷ others) v
      ∙ ap (◌∷◌ (lower name, value)) (headers_of-lines hs more)

  -- The second part of a status line is its code.
  second_part-line :
      (s : Status) → IsStatus s → second_part decode int_of lower (status_line s) ≡ code_of s
  second_part-line (three version code reason) (h, k) =
      let tail = code ++ (32 ∷ reason) in
      ap second_of (split_once-append 32 version tail h)
      ∙ ap (λ (o : Option (Text × Text)). elim o [ none ↦ some tail | some (c, r) ↦ some c ])
          (split_once-append 32 code reason k)
  second_part-line (two version code) (h, k) =
      ap second_of (split_once-append 32 version code h)
      ∙ ap (λ (o : Option (Text × Text)). elim o [ none ↦ some code | some (c, r) ↦ some c ])
          (split_once-eq-none 32 code k)
  second_part-line (one version) h = ap second_of (split_once-eq-none 32 version h)

  pub status_code-line :
      (s : Status)
      → IsStatus s
      → status_code decode int_of lower (status_line s) ≡ status_of int_of s
  unfolding status_code
  status_code-line s h =
      ap
        (λ (o : Option Text). elim o [
          | none ↦ pos 0
          | some c ↦ elim (int_of c) [ none ↦ pos 0 | some n ↦ n ]
        ])
        (second_part-line s h)
      ∙ of_code s
    where
      of_code :
          (t : Status)
          → (elim (code_of t) [
            | none ↦ pos 0
            | some c ↦ elim (int_of c) [ none ↦ pos 0 | some n ↦ n ]
          ])
            ≡ status_of int_of t
      of_code (three version code reason) = refl
      of_code (two version code) = refl
      of_code (one version) = refl
