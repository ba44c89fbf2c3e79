-- ===== src/FakeTls/Record/Stream/Delivery.antt =====
-- `_read_tls_payload` splits off data, and `readexactly` returns exactly the data asked for.
use tg_ws_proxy_rust.Prelude.{
  ℕ, zero, suc, ◌≤◌, ◌<◌, ◌≡◌, refl, sym, ap, ◌∙◌, false, List, [], ◌∷◌, ◌++◌, append_assoc, length,
  take, drop, All, ltb, arith, inl, inr, Bool-cases, length-append, take-append_le, drop-append_le,
  lt→ltb,
}
use tg_ws_proxy_rust.Prelude.Bytes.{Bytes}
use tg_ws_proxy_rust.FakeTls.Record.{
  FakeTlsStream, Outcome, got, record_loop, read_tls_payload, extend, readexactly_loop, readexactly,
}
use tg_ws_proxy_rust.FakeTls.Record.Stream.{
  Rec, ccs, app, IsRec, wire, plain, Holds, Payload, begun_lem, appdata_lem, ccs_step, app_step, at,
}

length-wire : (rs : List Rec) → length rs ≤ length (wire rs)
length-wire [] = omega arith
length-wire (ccs xs ∷ rs) = omega (arith, length-wire rs, length-append xs (wire rs))
length-wire (app xs ∷ rs) = omega (arith, length-wire rs, length-append xs (wire rs))

-- The same split, from an earlier state with the same buffer and more to come.
Payload-earlier :
    (s t : FakeTlsStream) (behind : Bytes) (o : Outcome) (s' : FakeTlsStream)
    → t.read_buf ≡ s.read_buf
    → length t.reader.pending ≤ length s.reader.pending
    → Payload t behind o s'
    → Payload s behind o s'
Payload-earlier s t behind o s' hb hl p = record {
  chunk = p.chunk;
  outcome = p.outcome;
  nonempty = p.nonempty;
  tail = p.tail;
  records = p.records;
  pending = p.pending;
  left = p.left;
  valid = p.valid;
  buffer = p.buffer ∙ hb;
  splits = p.splits;
  shrinks = omega (arith, p.shrinks);
}

record_loop_lem :
    (fuel : ℕ) (rs : List Rec) (s : FakeTlsStream)
    → s.reader.pending ≡ wire rs
    → s.read_left ≡ 0
    → All IsRec rs
    → length rs ≤ fuel
    → 1 ≤ length (plain rs)
    → Payload s (plain rs) (record_loop fuel s).0 (record_loop fuel s).1
record_loop_lem fuel [] s hp hl hv hf h1 = absurd (omega arith)
record_loop_lem zero (r ∷ rs) s hp hl hv hf h1 = absurd (omega arith)
record_loop_lem (suc fuel) (ccs xs ∷ rs) s hp hl hv hf h1 = rw (ccs_step fuel s xs rs hp hv.0) (
    Payload-earlier s (at s (wire rs)) (plain rs) _ _ refl
      (omega (arith, ap length hp, length-append xs (wire rs)))
      (record_loop_lem fuel rs (at s (wire rs)) refl hl hv.1 (omega arith) h1))
record_loop_lem (suc fuel) (app xs ∷ rs) s hp hl hv hf h1 = rw (app_step fuel s xs rs hp hv.0) (
    Payload-earlier s (at s (xs ++ wire rs)) (xs ++ plain rs) _ _ refl (omega (arith, ap length hp))
      (appdata_lem (at s (xs ++ wire rs)) xs rs refl hl hv.0 hv.1))

pub payload_lem :
    (s : FakeTlsStream) (tail : Bytes) (rs : List Rec)
    → s.reader.pending ≡ tail ++ wire rs
    → s.read_left ≡ length tail
    → All IsRec rs
    → 1 ≤ length (tail ++ plain rs)
    → Payload s (tail ++ plain rs) (read_tls_payload s).0 (read_tls_payload s).1
unfolding read_tls_payload
payload_lem s [] rs hp hl hv h1 =
    let none_left : ltb 0 s.read_left ≡ false = ground arith in
    rw none_left (
      record_loop_lem (suc (length s.reader.pending)) rs s hp hl hv
        (omega (arith, ap length hp, length-wire rs)) h1)
payload_lem s (x ∷ tail) rs hp hl hv h1 =
    rw (lt→ltb 0 s.read_left (omega arith)) (begun_lem s (x ∷ tail) rs hp hl (omega arith) hv)

extend_got :
    (again : FakeTlsStream → Outcome × FakeTlsStream) (chunk : Bytes) (s : FakeTlsStream)
    → 1 ≤ length chunk
    → extend again (got chunk, s) ≡ again (record s { read_buf = s.read_buf ++ chunk })
unfolding extend
extend_got again [] s h = absurd (omega arith)
extend_got again (x ∷ chunk) s h = refl

-- After a payload the stream holds the same data, with the payload in the buffer.
Holds-Payload :
    (s s' : FakeTlsStream) (o : Outcome) (content behind : Bytes)
    → content ≡ s.read_buf ++ behind
    → (p : Payload s behind o s') → Holds (record s' { read_buf = s'.read_buf ++ p.chunk }) content
Holds-Payload s s' o content behind hc p = record {
  tail = p.tail;
  records = p.records;
  pending = p.pending;
  left = p.left;
  valid = p.valid;
  shows =
      hc
      ∙ ap (λ (t : Bytes). s.read_buf ++ t) p.splits
      ∙ sym (append_assoc s.read_buf p.chunk (p.tail ++ plain p.records))
      ∙ ap (λ (t : Bytes). (t ++ p.chunk) ++ (p.tail ++ plain p.records)) (sym p.buffer);
}

-- Taking from the buffer what it holds.
pub Holds-buffer :
    (n : ℕ) (s : FakeTlsStream) (content : Bytes)
    → Holds s content
    → n ≤ length s.read_buf
    → (take n content ≡ take n s.read_buf)
      × Holds (record s { read_buf = drop n s.read_buf }) (drop n content)
Holds-buffer n s content h hn =
    let behind = h.tail ++ plain h.records in
    (
      ap (λ t. take n t) h.shows ∙ take-append_le n s.read_buf behind hn,
      record {
        tail = h.tail;
        records = h.records;
        pending = h.pending;
        left = h.left;
        valid = h.valid;
        shows = ap (λ t. drop n t) h.shows ∙ drop-append_le n s.read_buf behind hn;
      },
    )

-- The rest of the data, where the buffer does not hold all of it.
behind_pos :
    (s : FakeTlsStream) (content : Bytes) (h : Holds s content)
    → length s.read_buf < length content
    → 1 ≤ length (h.tail ++ plain h.records)
behind_pos s content h lt =
    omega (arith, ap length h.shows, length-append s.read_buf (h.tail ++ plain h.records))

readexactly_loop_lem :
    (fuel n : ℕ) (s : FakeTlsStream) (content : Bytes)
    → Holds s content
    → n ≤ length content
    → length s.reader.pending < fuel
    → (s' : FakeTlsStream) × (readexactly_loop fuel n s ≡ (got (take n content), s'))
      × Holds s' (drop n content)
unfolding readexactly_loop
readexactly_loop_lem zero n s content h hn hf = absurd (omega arith)
readexactly_loop_lem (suc fuel) n s content h hn hf =
    elim (Bool-cases (ltb (length s.read_buf) n)) [
      | inl short ↦
          let lt : length s.read_buf < n = ground arith in
          let p =
            payload_lem s h.tail h.records h.pending h.left h.valid
              (behind_pos s content h (omega arith)) in
          let r = read_tls_payload s in
          let t = record r.1 { read_buf = r.1.read_buf ++ p.chunk } in
          let (s', e, h') =
            readexactly_loop_lem fuel n t content
              (Holds-Payload s r.1 r.0 content (h.tail ++ plain h.records) h.shows p) hn
              (omega (arith, p.shrinks)) in
          (
            s',
            rw short (
                ap (λ (o : Outcome). extend (readexactly_loop fuel n) (o, r.1)) p.outcome
                ∙ extend_got (readexactly_loop fuel n) p.chunk r.1 p.nonempty
                ∙ e),
            h',
          )
      | inr enough ↦
          let b = Holds-buffer n s content h (ground arith) in
          (
            _,
            rw enough
                (ap (λ (t : Bytes). (got t, record s { read_buf = drop n s.read_buf })) (sym b.0)),
            b.1,
          )
    ]

-- A stream holds at least `n` bytes of data, and what is to come of it in change-cipher-spec records
-- and in application-data records that are not empty. Then, with any sizes of the reads below it,
-- `readexactly` returns the first `n` of them, and the stream holds the others, in such records.
pub readexactly-Holds :
    (n : ℕ) (s : FakeTlsStream) (content : Bytes)
    → Holds s content
    → n ≤ length content
    → (s' : FakeTlsStream) × (readexactly n s ≡ (got (take n content), s'))
      × Holds s' (drop n content)
unfolding readexactly
readexactly-Holds n s content h hn =
    readexactly_loop_lem (suc (length s.reader.pending)) n s content h hn (omega arith)
