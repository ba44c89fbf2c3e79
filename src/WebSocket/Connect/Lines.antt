-- ===== src/WebSocket/Connect/Lines.antt =====
-- The lines of the request and of the answer of `RawWebSocket.connect`, and how they are read.
use tg_ws_proxy_rust.Prelude.{
  ℕ, ◌<◌, ◌≡◌, ◌≢◌, refl, sym, ap, subst, ◌∙◌, true, false, List, [], ◌∷◌, ◌++◌, append_assoc,
  Option, none, some, reverse, All, ◌==◌, ==_iff, if◌then◌else◌, inl, inr, Bool-cases, arith,
}
use tg_ws_proxy_rust.Prelude.Bytes.{Bytes, bytes_eq, bytes_eq_iff}
use tg_ws_proxy_rust.Prelude.Text.{Text, codes, contains, is_space, strip, drop_while, split_once}
use tg_ws_proxy_rust.WebSocket.Connect.{header, request}

-- A line: ASCII, without a newline in it or blanks around it, and not empty.
abbrev pub IsLine : Bytes → Type 0
IsLine [] = ⊥
IsLine (c ∷ cs) =
    (is_space c ≡ false)
    × All (λ x. x < 128) (c ∷ cs)
    × (contains 10 (c ∷ cs) ≡ false)
    × (strip is_space (c ∷ cs) ≡ c ∷ cs)

-- A header is its name and its value.
abbrev pub header_line : Bytes × Bytes → Bytes
header_line (name, value) = name ++ (b':' ∷ (32 ∷ value))

abbrev pub IsHeader : Bytes × Bytes → Type 0
IsHeader (name, value) =
    (contains b':' name ≡ false)
    × (strip is_space name ≡ name)
    × (strip is_space value ≡ value)
    × IsLine (header_line (name, value))

-- A status line of a version, a code and a reason, without the reason, or without both.
pub data Status : Type 0 where
  three : Bytes → Bytes → Bytes → Status
  two : Bytes → Bytes → Status
  one : Bytes → Status

abbrev pub status_line : Status → Bytes
status_line (three version code reason) = version ++ (32 ∷ (code ++ (32 ∷ reason)))
status_line (two version code) = version ++ (32 ∷ code)
status_line (one version) = version

abbrev pub code_of : Status → Option Bytes
code_of (three version code reason) = some code
code_of (two version code) = some code
code_of (one version) = none

-- The version and the code have no blank in them.
abbrev pub IsStatus : Status → Type 0
IsStatus (three version code reason) = (contains 32 version ≡ false) × (contains 32 code ≡ false)
IsStatus (two version code) = (contains 32 version ≡ false) × (contains 32 code ≡ false)
IsStatus (one version) = contains 32 version ≡ false

-- Lines that end with a carriage return and a newline.
abbrev pub crlf_lines : List Bytes → Bytes
crlf_lines [] = []
crlf_lines (l ∷ ls) = l ++ (13 ∷ (10 ∷ crlf_lines ls))

-- The request: its method, the five headers of RFC 6455 and the empty line.
abbrev pub request_lines : Bytes → Bytes → Bytes → List Bytes
request_lines path domain ws_key =
    (codes "GET " ++ (path ++ codes " HTTP/1.1"))
    ∷ (codes "Host: " ++ domain)
    ∷ codes "Upgrade: websocket"
    ∷ codes "Connection: Upgrade"
    ∷ (codes "Sec-WebSocket-Key: " ++ ws_key)
    ∷ codes "Sec-WebSocket-Version: 13"
    ∷ codes "Sec-WebSocket-Protocol: binary"
    ∷ []
    ∷ []

-- The value of the last header with a name.
pub data LastNamed (key : Text) : List (Text × Text) → Option Text → Type 0 where
  absent : (hs : List (Text × Text)) → All (λ h. h.0 ≢ key) hs → LastNamed key hs none
  present :
      (before after : List (Text × Text)) (value : Text)
      → All (λ h. h.0 ≢ key) after
      → LastNamed key (before ++ ((key, value) ∷ after)) (some value)

pub append_right :
    (a b c d e f g : Bytes)
    → (((((a ++ b) ++ c) ++ d) ++ e) ++ f) ++ g ≡ a ++ (b ++ (c ++ (d ++ (e ++ (f ++ g)))))
append_right a b c d e f g =
    append_assoc ((((a ++ b) ++ c) ++ d) ++ e) f g
    ∙ append_assoc (((a ++ b) ++ c) ++ d) e (f ++ g)
    ∙ append_assoc ((a ++ b) ++ c) d (e ++ (f ++ g))
    ∙ append_assoc (a ++ b) c (d ++ (e ++ (f ++ g)))
    ∙ append_assoc a b (c ++ (d ++ (e ++ (f ++ g))))

pub request-lines :
    (path domain ws_key : Bytes)
    → request path domain ws_key ≡ crlf_lines (request_lines path domain ws_key)
unfolding request
request-lines path domain ws_key =
    let others : Bytes =
      13
      ∷ (10
          ∷ crlf_lines (
              (codes "Host: " ++ domain)
              ∷ codes "Upgrade: websocket"
              ∷ codes "Connection: Upgrade"
              ∷ (codes "Sec-WebSocket-Key: " ++ ws_key)
              ∷ codes "Sec-WebSocket-Version: 13"
              ∷ codes "Sec-WebSocket-Protocol: binary"
              ∷ []
              ∷ [])) in
    append_right (codes "GET ") path (codes " HTTP/1.1\r\nHost: ") domain
      (codes "\r\nUpgrade: websocket\r\nConnection: Upgrade\r\nSec-WebSocket-Key: ") ws_key
      (codes "\r\nSec-WebSocket-Version: 13\r\nSec-WebSocket-Protocol: binary\r\n\r\n")
    ∙ sym (ap (λ (t : Bytes). codes "GET " ++ t) (append_assoc path (codes " HTTP/1.1") others))

pub contains-append :
    (x : ℕ) (s t : Bytes)
    → contains x s ≡ false
    → contains x t ≡ false
    → contains x (s ++ t) ≡ false
contains-append x [] t h k = k
contains-append x (c ∷ cs) t h k = elim (Bool-cases (c == x)) [
  | inl e ↦ let no : true ≡ false = rw e at h in absurd (cc)
  | inr e ↦ let rest : contains x cs ≡ false = rw e at h in rw e (contains-append x cs t rest k)
]

pub split_once-append :
    (sep : ℕ) (s t : Bytes) → contains sep s ≡ false → split_once sep (s ++ (sep ∷ t)) ≡ some (s, t)
split_once-append sep [] t h = rw ((==_iff sep sep).1 refl) refl
split_once-append sep (c ∷ cs) t h = elim (Bool-cases (c == sep)) [
  | inl e ↦ let no : true ≡ false = rw e at h in absurd (cc)
  | inr e ↦
      let rest : contains sep cs ≡ false = rw e at h in rw (e, split_once-append sep cs t rest) refl
]

pub All-crlf : (s : Bytes) → All (λ x. x < 128) s → All (λ x. x < 128) (s ++ (13 ∷ (10 ∷ [])))
All-crlf [] h = (omega arith, (omega arith, tt))
All-crlf (c ∷ cs) h = (h.0, All-crlf cs h.1)

pub reverse-crlf : (s : Bytes) → reverse (s ++ (13 ∷ (10 ∷ []))) ≡ 10 ∷ (13 ∷ reverse s)
reverse-crlf [] = refl
reverse-crlf (c ∷ cs) = ap (λ (t : Bytes). t ++ (c ∷ [])) (reverse-crlf cs)

pub no_blank : (c x : ℕ) → is_space c ≡ false → is_space x ≡ true → (c == x) ≡ false
no_blank c x h k = elim (Bool-cases (c == x)) [
  | inl e ↦ let no : false ≡ true = sym h ∙ (ap is_space ((==_iff c x).0 e) ∙ k) in absurd (cc)
  | inr e ↦ e
]

-- Stripping takes the end of a line off.
pub strip-crlf :
    (c : ℕ) (cs : Bytes)
    → is_space c ≡ false
    → strip is_space ((c ∷ cs) ++ (13 ∷ (10 ∷ []))) ≡ strip is_space (c ∷ cs)
strip-crlf c cs h =
    let crlf = 13 ∷ (10 ∷ []) in
    let kept : (t : Bytes) → drop_while is_space (c ∷ t) ≡ c ∷ t =
      λ t. ap (λ b. if b then drop_while is_space t else c ∷ t) h in
    ap (λ (t : Bytes). reverse (drop_while is_space (reverse t))) (kept (cs ++ crlf))
    ∙ ap (λ (t : Bytes). reverse (drop_while is_space t)) (reverse-crlf (c ∷ cs))
    ∙ sym (ap (λ (t : Bytes). reverse (drop_while is_space (reverse t))) (kept cs))

pub cons-LastNamed :
    (key k v : Text) (rest : List (Text × Text)) (r : Option Text)
    → LastNamed key rest r
    → LastNamed key
        ((k, v) ∷ rest)
        (elim r [ some w ↦ some w | none ↦ if bytes_eq k key then some v else none ])
cons-LastNamed key k v rest r (present before after w h) = present ((k, v) ∷ before) after w h
cons-LastNamed key k v rest r (absent hs h) = elim (Bool-cases (bytes_eq k key)) [
  | inl e ↦ rw e (
      subst (λ x. LastNamed key ((x, v) ∷ rest) (some v)) (sym ((bytes_eq_iff k key).0 e))
        (present [] rest v h))
  | inr e ↦ rw e (
      absent ((k, v) ∷ rest)
        ((λ q. let no : true ≡ false = sym ((bytes_eq_iff k key).1 q) ∙ e in cc), h))
]

pub header-LastNamed : (key : Text) (hs : List (Text × Text)) → LastNamed key hs (header key hs)
header-LastNamed key [] = absent [] tt
header-LastNamed key ((k, v) ∷ rest) =
    cons-LastNamed key k v rest (header key rest) (header-LastNamed key rest)

pub split_once-eq-none : (sep : ℕ) (s : Bytes) → contains sep s ≡ false → split_once sep s ≡ none
split_once-eq-none sep [] h = refl
split_once-eq-none sep (c ∷ cs) h = elim (Bool-cases (c == sep)) [
  | inl e ↦ let no : true ≡ false = rw e at h in absurd (cc)
  | inr e ↦
      let rest : contains sep cs ≡ false = rw e at h in rw (e, split_once-eq-none sep cs rest) refl
]
