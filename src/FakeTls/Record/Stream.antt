-- ===== src/FakeTls/Record/Stream.antt =====
-- Through `FakeTlsStream` a reader sees the application data of the records, without the framing
-- and however the bytes arrive.
pub mod Delivery
pub mod Reads
use tg_ws_proxy_rust.Prelude.{
  ℕ, zero, suc, ◌+◌, ◌-◌, ◌≤◌, ◌<◌, ◌≡◌, refl, sym, ap, ◌∙◌, Bool, true, false, List, [], ◌∷◌, ◌++◌,
  append_assoc, append-nil, Option, some, none, length, take, drop, All, ltb, ◌==◌, min, is_empty,
  if◌then◌else◌, arith, ◌⊎◌, inl, inr, Bool-cases, lt→ltb, is_empty-eq-false, length-take,
  length-drop, take-append-drop, length-append, take-append_le, drop-append_le,
}
use tg_ws_proxy_rust.Prelude.Bytes.{Bytes, be, from_be, length-be, from_be-be}
use tg_ws_proxy_rust.Source
use tg_ws_proxy_rust.Source.{Source, Part, read-Part, readexactly-pending}
use tg_ws_proxy_rust.FakeTls.Record.{
  FakeTlsStream, Outcome, got, incomplete, stuck, appdata, header, skip, record_loop, begun,
  read_tls_payload, extend, readexactly_loop, readexactly,
}

-- The records that a stream may carry: change-cipher-spec, and application data that is not empty.
pub data Rec : Type 0 where
  ccs app : Bytes → Rec

abbrev pub IsRec : Rec → Type 0
IsRec (ccs xs) = length xs < 65536
IsRec (app xs) = (1 ≤ length xs) × (length xs < 65536)

abbrev pub wire : List Rec → Bytes
wire [] = []
wire (ccs xs ∷ rs) = (0x14 ∷ 0x03 ∷ 0x03 ∷ be 2 (length xs)) ++ (xs ++ wire rs)
wire (app xs ∷ rs) = (0x17 ∷ 0x03 ∷ 0x03 ∷ be 2 (length xs)) ++ (xs ++ wire rs)

abbrev pub plain : List Rec → Bytes
plain [] = []
plain (ccs xs ∷ rs) = plain rs
plain (app xs ∷ rs) = xs ++ plain rs

-- `s` holds the data `content`: what is buffered, the rest of a record, and whole records.
pub record Holds (s : FakeTlsStream) (content : Bytes) : Type 0 where
  pub tail : Bytes
  pub records : List Rec
  pub pending : s.reader.pending ≡ tail ++ wire records
  pub left : s.read_left ≡ length tail
  pub valid : All IsRec records
  pub shows : content ≡ s.read_buf ++ (tail ++ plain records)

-- A payload that is not empty was split off the data that `s` had behind its buffer.
pub record Payload (s : FakeTlsStream) (behind : Bytes) (o : Outcome) (s' : FakeTlsStream)
    : Type 0 where
  pub chunk : Bytes
  pub outcome : o ≡ got chunk
  pub nonempty : 1 ≤ length chunk
  pub tail : Bytes
  pub records : List Rec
  pub pending : s'.reader.pending ≡ tail ++ wire records
  pub left : s'.read_left ≡ length tail
  pub valid : All IsRec records
  pub buffer : s'.read_buf ≡ s.read_buf
  pub splits : behind ≡ chunk ++ (tail ++ plain records)
  pub shrinks : length s'.reader.pending < length s.reader.pending

pub begun_lem :
    (s : FakeTlsStream) (tail : Bytes) (rs : List Rec)
    → s.reader.pending ≡ tail ++ wire rs
    → s.read_left ≡ length tail
    → 1 ≤ length tail
    → All IsRec rs
    → let r = begun s (Source.read s.read_left s.reader) in Payload s (tail ++ plain rs) r.0 r.1
unfolding begun
begun_lem s tail rs hp hl h1 hv =
    let p = read-Part s.read_left tail (wire rs) s.reader hp (sym hl) (omega arith) in
    let r = Source.read s.read_left s.reader in
    let len : length r.0 ≡ p.size =
      ap length p.taken ∙ omega (arith, length-take p.size tail, p.size_le) in
    rw (is_empty-eq-false r.0 (omega (arith, p.size_pos))) (record {
      chunk = r.0;
      outcome = refl;
      nonempty = omega (arith, p.size_pos);
      tail = drop p.size tail;
      records = rs;
      pending = p.left;
      left = omega (arith, length-drop p.size tail);
      valid = hv;
      buffer = refl;
      splits =
          ap (λ (t : Bytes). t ++ plain rs) (sym (take-append-drop p.size tail))
          ∙ append_assoc (take p.size tail) (drop p.size tail) (plain rs)
          ∙ ap (λ (t : Bytes). t ++ (drop p.size tail ++ plain rs)) (sym p.taken);
      shrinks = omega (
        arith,
        ap length p.left,
        ap length hp,
        length-append (drop p.size tail) (wire rs),
        length-append tail (wire rs),
        length-drop p.size tail,
        p.size_pos,
      );
    })

pub appdata_lem :
    (s : FakeTlsStream) (xs : Bytes) (rs : List Rec)
    → s.reader.pending ≡ xs ++ wire rs
    → s.read_left ≡ 0
    → IsRec (app xs)
    → All IsRec rs
    → let r = appdata (length xs) s in Payload s (xs ++ plain rs) r.0 r.1
unfolding appdata
appdata_lem s xs rs hp hl hx hv =
    let m = min (length xs) 65536 in
    let p = read-Part m xs (wire rs) s.reader hp (omega arith) (omega arith) in
    let r = Source.read m s.reader in
    let len : length r.0 ≡ p.size =
      ap length p.taken ∙ omega (arith, length-take p.size xs, p.size_le) in
    let pos : 1 ≤ length r.0 = omega (arith, p.size_pos) in
    let parts : xs ++ plain rs ≡ r.0 ++ (drop p.size xs ++ plain rs) =
      ap (λ (t : Bytes). t ++ plain rs) (sym (take-append-drop p.size xs))
      ∙ append_assoc (take p.size xs) (drop p.size xs) (plain rs)
      ∙ ap (λ (t : Bytes). t ++ (drop p.size xs ++ plain rs)) (sym p.taken) in
    let less : length r.1.pending < length s.reader.pending = omega (
      arith,
      ap length p.left,
      ap length hp,
      length-append (drop p.size xs) (wire rs),
      length-append xs (wire rs),
      length-drop p.size xs,
      p.size_pos,
    ) in
    elim (Bool-cases (ltb 0 (length xs - length r.0))) [
      | inl more ↦
          rw (is_empty-eq-false r.0 pos, more)
            (record {
              chunk = r.0;
              outcome = refl;
              nonempty = pos;
              tail = drop p.size xs;
              records = rs;
              pending = p.left;
              left = omega (arith, length-drop p.size xs);
              valid = hv;
              buffer = refl;
              splits = parts;
              shrinks = less;
            })
      | inr all ↦
          let over : length xs - length r.0 ≡ 0 = ground arith in
          rw (is_empty-eq-false r.0 pos, all)
            (record {
              chunk = r.0;
              outcome = refl;
              nonempty = pos;
              tail = drop p.size xs;
              records = rs;
              pending = p.left;
              left = omega (arith, length-drop p.size xs);
              valid = hv;
              buffer = refl;
              splits = parts;
              shrinks = less;
            })
    ]

abbrev pub at : FakeTlsStream → Bytes → FakeTlsStream
at s pending = record s { reader = record s.reader { pending = pending } }

pub ccs_step :
    (fuel : ℕ) (s : FakeTlsStream) (xs : Bytes) (rs : List Rec)
    → s.reader.pending ≡ wire (ccs xs ∷ rs)
    → IsRec (ccs xs)
    → record_loop (suc fuel) s ≡ record_loop fuel (at s (wire rs))
unfolding record_loop header skip
ccs_step fuel s [] rs hp hx =
    rw (readexactly-pending 5 (0x14 ∷ 0x03 ∷ 0x03 ∷ be 2 0) (wire rs) s.reader hp refl) refl
ccs_step fuel s (x ∷ xs) rs hp hx =
    let n = length (x ∷ xs) in
    let reader = record s.reader { pending = (x ∷ xs) ++ wire rs } in
    rw (readexactly-pending 5 (0x14 ∷ 0x03 ∷ 0x03 ∷ be 2 n) ((x ∷ xs) ++ wire rs) s.reader hp refl)
      (rw (from_be-be 2 n hx) (
        rw (readexactly-pending n (x ∷ xs) (wire rs) reader refl refl)
          (rw (lt→ltb 0 n (omega arith)) refl)))

pub app_step :
    (fuel : ℕ) (s : FakeTlsStream) (xs : Bytes) (rs : List Rec)
    → s.reader.pending ≡ wire (app xs ∷ rs)
    → IsRec (app xs)
    → record_loop (suc fuel) s ≡ appdata (length xs) (at s (xs ++ wire rs))
unfolding record_loop header
app_step fuel s xs rs hp hx =
    rw
      (readexactly-pending 5 (0x17 ∷ 0x03 ∷ 0x03 ∷ be 2 (length xs)) (xs ++ wire rs) s.reader hp
        refl)
      (rw (from_be-be 2 (length xs) hx.1) refl)
