-- ===== src/FakeTls/Record/Stream/Reads.antt =====
-- `read` of `FakeTlsStream` returns data as it comes.
use tg_ws_proxy_rust.Prelude.{
  ℕ, zero, suc, ◌≤◌, ◌≡◌, refl, sym, ap, subst, ◌∙◌, true, false, [], ◌∷◌, ◌++◌, length, take, drop,
  ltb, min, is_empty, arith, inl, inr, Bool-cases, is_empty-eq-false, take_all, drop_all,
}
use tg_ws_proxy_rust.Prelude.Bytes.{Bytes}
use tg_ws_proxy_rust.FakeTls.Record.{FakeTlsStream, Outcome, got, read_tls_payload, read, deliver}
use tg_ws_proxy_rust.FakeTls.Record.Stream.{plain, Holds}
use tg_ws_proxy_rust.FakeTls.Record.Stream.Delivery.{payload_lem, Holds-buffer}

take-min : (n : ℕ) (xs : Bytes) → take n xs ≡ take (min n (length xs)) xs
take-min zero xs = let e : 0 ≡ min 0 (length xs) = omega arith in ap (λ k. take k xs) e
take-min (suc n) [] = let e : 0 ≡ min (suc n) 0 = omega arith in ap (λ k. take {A = ℕ} k []) e
take-min (suc n) (x ∷ xs) =
    let e : suc (min n (length xs)) ≡ min (suc n) (suc (length xs)) = omega arith in
    ap (◌∷◌ x) (take-min n xs) ∙ ap (λ k. take k (x ∷ xs)) e

drop-min : (n : ℕ) (xs : Bytes) → drop n xs ≡ drop (min n (length xs)) xs
drop-min zero xs = let e : 0 ≡ min 0 (length xs) = omega arith in ap (λ k. drop k xs) e
drop-min (suc n) [] = let e : 0 ≡ min (suc n) 0 = omega arith in ap (λ k. drop {A = ℕ} k []) e
drop-min (suc n) (x ∷ xs) =
    let e : suc (min n (length xs)) ≡ min (suc n) (suc (length xs)) = omega arith in
    drop-min n xs ∙ ap (λ k. drop k (x ∷ xs)) e

not_empty : (xs : Bytes) → is_empty xs ≡ false → 1 ≤ length xs
not_empty [] h = cc
not_empty (x ∷ xs) h = omega arith

empty_nil : (xs : Bytes) → is_empty xs ≡ true → xs ≡ []
empty_nil [] h = refl
empty_nil (x ∷ xs) h = cc

-- A `read` of at most `n` bytes took `k` bytes of the data.
pub record Delivered (n k : ℕ) (s : FakeTlsStream) (content : Bytes) (s' : FakeTlsStream)
    : Type 0 where
  pub some_bytes : 1 ≤ k
  pub at_most : k ≤ n
  pub result : read n s ≡ (got (take k content), s')
  pub holds : Holds s' (drop k content)

read_buffered :
    (n : ℕ) (s : FakeTlsStream) (content : Bytes)
    → Holds s content
    → 1 ≤ n
    → 1 ≤ length s.read_buf
    → (k : ℕ) × (s' : FakeTlsStream) × Delivered n k s content s'
unfolding read
read_buffered n s content h hn hb =
    let k = min n (length s.read_buf) in
    let b = Holds-buffer k s content h (omega arith) in
    let s' = record s { read_buf = drop k s.read_buf } in
    (
      k,
      s',
      record {
        some_bytes = omega arith;
        at_most = omega arith;
        result = rw (is_empty-eq-false s.read_buf hb) (
            ap (λ (t : Bytes). (got (take n s.read_buf), record s { read_buf = t }))
              (drop-min n s.read_buf)
            ∙ ap (λ (t : Bytes). (got t, s')) (take-min n s.read_buf ∙ sym b.0));
        holds = b.1;
      },
    )

deliver_lem :
    (n : ℕ) (chunk rest : Bytes) (s : FakeTlsStream)
    → s.read_buf ≡ []
    → 1 ≤ n
    → 1 ≤ length chunk
    → Holds (record s { read_buf = chunk }) (chunk ++ rest)
    → (k : ℕ) × (s' : FakeTlsStream) × (1 ≤ k)
      × (k ≤ n)
      × (deliver n (got chunk, s) ≡ (got (take k (chunk ++ rest)), s'))
      × Holds s' (drop k (chunk ++ rest))
unfolding deliver
deliver_lem n chunk rest s hb hn hc h =
    let k = min n (length chunk) in
    let b = Holds-buffer k (record s { read_buf = chunk }) (chunk ++ rest) h (omega arith) in
    let s' = record s { read_buf = drop k chunk } in
    (
      k,
      s',
      omega arith,
      omega arith,
      elim (Bool-cases (ltb n (length chunk))) [
        | inl long ↦
            rw (is_empty-eq-false chunk hc, long)
              (ap (λ (t : Bytes). (got (take n chunk), record s { read_buf = t }))
                  (ap (λ (t : Bytes). t ++ drop n chunk) hb ∙ drop-min n chunk)
                ∙ ap (λ (t : Bytes). (got t, s')) (take-min n chunk ∙ sym b.0))
        | inr whole ↦
            let le : length chunk ≤ n = ground arith in
            let none_left : s.read_buf ≡ drop k chunk = hb ∙ sym (drop_all k chunk (omega arith)) in
            rw (is_empty-eq-false chunk hc, whole)
              (ap (λ (t : Bytes). (got chunk, record s { read_buf = t })) none_left
                ∙ ap (λ (t : Bytes). (got t, s')) (sym (take_all k chunk (omega arith)) ∙ sym b.0))
      ],
      b.1,
    )

-- A stream holds some data, and what is to come of it in change-cipher-spec records and in
-- application-data records that are not empty. Then `read` of at most `n` bytes, one at least,
-- returns at least one byte and at most `n`, the first ones of the data, and the stream holds the
-- others, in such records: on them it reports no end of file while there is data.
pub read-Holds :
    (n : ℕ) (s : FakeTlsStream) (content : Bytes)
    → Holds s content
    → 1 ≤ n
    → 1 ≤ length content
    → (k : ℕ) × (s' : FakeTlsStream) × Delivered n k s content s'
unfolding read
read-Holds n s content h hn hc = elim (Bool-cases (is_empty s.read_buf)) [
  | inr buffered ↦ read_buffered n s content h hn (not_empty s.read_buf buffered)
  | inl empty ↦
      let nil = empty_nil s.read_buf empty in
      let behind = h.tail ++ plain h.records in
      let same : content ≡ behind = h.shows ∙ ap (λ (t : Bytes). t ++ behind) nil in
      let p =
        payload_lem s h.tail h.records h.pending h.left h.valid (omega (arith, ap length same)) in
      let r = read_tls_payload s in
      let rest = p.tail ++ plain p.records in
      let parts : p.chunk ++ rest ≡ content = sym (same ∙ p.splits) in
      let held : Holds (record r.1 { read_buf = p.chunk }) (p.chunk ++ rest) = record {
        tail = p.tail;
        records = p.records;
        pending = p.pending;
        left = p.left;
        valid = p.valid;
        shows = refl;
      } in
      let (k, s', k1, kn, e, h') =
        deliver_lem n p.chunk rest r.1 (p.buffer ∙ nil) hn p.nonempty held in
      (
        k,
        s',
        record {
          some_bytes = k1;
          at_most = kn;
          result = rw empty (
              ap (λ (o : Outcome). deliver n (o, r.1)) p.outcome
              ∙ e
              ∙ ap (λ (t : Bytes). (got (take k t), s')) parts);
          holds = subst (λ (t : Bytes). Holds s' (drop k t)) parts h';
        },
      )
]
