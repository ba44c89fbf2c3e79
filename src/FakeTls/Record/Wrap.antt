-- ===== src/FakeTls/Record/Wrap.antt =====
-- `wrap_tls_record` writes application-data records, and a `FakeTlsStream` at the other end reads
-- the data back.
use tg_ws_proxy_rust.Prelude.{
  ℕ, zero, suc, ◌+◌, ◌-◌, ◌≤◌, ◌<◌, ◌≡◌, refl, sym, ap, subst, ◌∙◌, List, [], ◌∷◌, ◌++◌,
  append_assoc, append-nil, length, take, drop, concat, All, ltb, min, arith, inl, inr, Bool-cases,
  length-take, length-drop, drop-drop, drop_all, take_all, slice,
}
use tg_ws_proxy_rust.Prelude.Bytes.{Bytes, be}
use tg_ws_proxy_rust.FakeTls.Record.{
  FakeTlsStream, got, wrap_loop, wrap_tls_record, readexactly, appdata_max,
}
use tg_ws_proxy_rust.FakeTls.Record.Stream.{Rec, ccs, app, IsRec, wire, plain, Holds}
use tg_ws_proxy_rust.FakeTls.Record.Stream.Delivery.{readexactly-Holds}

-- Application data of at most `appdata_max` bytes.
abbrev pub IsAppdata : Rec → Type 0
IsAppdata (ccs xs) = ⊥
IsAppdata (app xs) = (1 ≤ length xs) × (length xs ≤ appdata_max)

-- `bs` is a row of such records, with the data `xs`.
pub record Wrapped (bs xs : Bytes) : Type 0 where
  pub records : List Rec
  pub wired : bs ≡ wire records
  pub small : All IsAppdata records
  pub shows : plain records ≡ xs

abbrev tls_record : Bytes → Bytes
tls_record chunk = 0x17 ∷ 0x03 ∷ 0x03 ∷ (be 2 (length chunk) ++ chunk)

Wrapped-cons :
    (chunk bs xs : Bytes)
    → 1 ≤ length chunk
    → length chunk ≤ appdata_max
    → Wrapped bs xs
    → Wrapped (tls_record chunk ++ bs) (chunk ++ xs)
Wrapped-cons chunk bs xs h1 hm w = record {
  records = app chunk ∷ w.records;
  wired = ap (λ (t : Bytes). tls_record chunk ++ t) w.wired;
  small = ((h1, hm), w.small);
  shows = ap (λ (t : Bytes). chunk ++ t) w.shows;
}

take_then_drop : (n : ℕ) (xs : Bytes) → take n xs ++ drop (length (take n xs)) xs ≡ xs
take_then_drop zero xs = refl
take_then_drop (suc n) [] = refl
take_then_drop (suc n) (x ∷ xs) = ap (◌∷◌ x) (take_then_drop n xs)

concat_snoc :
    (parts : List Bytes) (r bs : Bytes)
    → concat (parts ++ (r ∷ [])) ++ bs ≡ concat parts ++ (r ++ bs)
concat_snoc [] r bs = ap (λ (t : Bytes). t ++ bs) (append-nil r)
concat_snoc (p ∷ parts) r bs =
    append_assoc p (concat (parts ++ (r ∷ []))) bs
    ∙ ap (λ (t : Bytes). p ++ t) (concat_snoc parts r bs)
    ∙ sym (append_assoc p (concat parts) (r ++ bs))

wrap_loop_lem :
    (fuel : ℕ) (xs : Bytes) (offset : ℕ) (parts : List Bytes)
    → length (drop offset xs) ≤ fuel
    → (bs : Bytes) × (concat (wrap_loop fuel xs offset parts) ≡ concat parts ++ bs)
      × Wrapped bs (drop offset xs)
unfolding wrap_loop
wrap_loop_lem zero xs offset parts h = (
  [],
  sym (append-nil (concat parts)),
  record {
    records = [];
    wired = refl;
    small = tt;
    shows = sym (drop_all offset xs (omega (arith, length-drop offset xs)));
  },
)
wrap_loop_lem (suc fuel) xs offset parts h = elim (Bool-cases (ltb offset (length xs))) [
  | inr done ↦
      let le : length xs ≤ offset = ground arith in
      (
        [],
        rw done (sym (append-nil (concat parts))),
        record { records = []; wired = refl; small = tt; shows = sym (drop_all offset xs le) },
      )
  | inl more ↦
      let lt : offset < length xs = ground arith in
      let chunk = slice offset (offset + appdata_max) xs in
      let len : length chunk ≡ min appdata_max (length xs - offset) = omega (
        arith,
        length-take (offset + appdata_max - offset) (drop offset xs),
        length-drop offset xs,
      ) in
      let next = drop (offset + length chunk) xs in
      let split : chunk ++ next ≡ drop offset xs =
        ap (λ (t : Bytes). chunk ++ t) (sym (drop-drop offset (length chunk) xs))
        ∙ take_then_drop (offset + appdata_max - offset) (drop offset xs) in
      let (bs, e, w) =
        wrap_loop_lem fuel xs (offset + length chunk) (parts ++ (tls_record chunk ∷ []))
          (omega (arith, length-drop offset xs, length-drop (offset + length chunk) xs)) in
      (
        tls_record chunk ++ bs,
        rw more (e ∙ concat_snoc parts (tls_record chunk) bs),
        subst (λ (t : Bytes). Wrapped (tls_record chunk ++ bs) t) split
            (Wrapped-cons chunk bs next (omega arith) (omega arith) w),
      )
]

-- `wrap_tls_record` writes a row of application-data records, none empty and none with more than
-- 16384 bytes, whose data together is its argument.
pub wrap_tls_record-Wrapped : (xs : Bytes) → Wrapped (wrap_tls_record xs) xs
unfolding wrap_tls_record
wrap_tls_record-Wrapped xs =
    let (bs, e, w) = wrap_loop_lem (length xs) xs 0 [] (omega arith) in
    subst (λ (t : Bytes). Wrapped t xs) (sym e) w

IsAppdata-IsRec : (rs : List Rec) → All IsAppdata rs → All IsRec rs
IsAppdata-IsRec [] h = tt
IsAppdata-IsRec (app xs ∷ rs) h = ((h.0.0, omega arith), IsAppdata-IsRec rs h.1)
IsAppdata-IsRec (ccs xs ∷ rs) h = absurd h.0

-- A stream with nothing buffered that receives what `wrap_tls_record` wrote, in reads of any sizes,
-- yields by one `readexactly` of its length the data that was wrapped.
pub readexactly-wrap_tls_record :
    (xs : Bytes) (s : FakeTlsStream)
    → s.reader.pending ≡ wrap_tls_record xs
    → s.read_buf ≡ []
    → s.read_left ≡ 0
    → (s' : FakeTlsStream) × (readexactly (length xs) s ≡ (got xs, s')) × Holds s' []
readexactly-wrap_tls_record xs s hp hb hl =
    let w = wrap_tls_record-Wrapped xs in
    let held : Holds s xs = record {
      tail = [];
      records = w.records;
      pending = hp ∙ w.wired;
      left = hl;
      valid = IsAppdata-IsRec w.records w.small;
      shows = sym w.shows ∙ ap (λ (t : Bytes). t ++ plain w.records) (sym hb);
    } in
    let (s', e, h) = readexactly-Holds (length xs) s xs held (omega arith) in
    (
      s',
      e ∙ ap (λ (t : Bytes). (got t, s')) (take_all (length xs) xs (omega arith)),
      subst (λ (t : Bytes). Holds s' t) (drop_all (length xs) xs (omega arith)) h,
    )
