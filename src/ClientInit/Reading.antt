-- ===== src/ClientInit/Reading.antt =====
-- What is read of a client's stream.
use tg_ws_proxy_rust.Prelude.{
  ℕ, ◌≤◌, ◌<◌, ◌≡◌, refl, sym, ap, ◌∙◌, true, false, some, List, [], ◌∷◌, ◌++◌, append_assoc,
  length, take, drop, All, arith,
}
use tg_ws_proxy_rust.Prelude.Bytes.{Bytes, be, from_be, length-be, from_be-be}
use tg_ws_proxy_rust.Source
use tg_ws_proxy_rust.Source.{Source, readexactly-pending}
use tg_ws_proxy_rust.FakeTls.Hello.{verify_client_hello, build_server_hello}
use tg_ws_proxy_rust.FakeTls.Record.{FakeTlsStream}
use tg_ws_proxy_rust.FakeTls.Record.Stream.{Rec, IsRec, wire, plain, Holds}
use tg_ws_proxy_rust.FakeTls.Record.Stream.Delivery.{readexactly-Holds}
use tg_ws_proxy_rust.ClientInit.{
  direct, over_tls, init_of, answer_hello, hello_body, hello_header, direct_rest, first_read,
  read_client_init,
}

module _ (hmac : Bytes → Bytes → Bytes) (now : ℕ) (secret public_key payload : Bytes) where
  -- Without a fake TLS domain the first 64 bytes are the client's init, and the others are left.
  pub read_client_init-direct :
      (b : ℕ) (bs rest : Bytes) (s : Source)
      → s.pending ≡ (b ∷ bs) ++ rest
      → length bs ≡ 63
      → read_client_init hmac now secret public_key payload false s
        ≡ direct (b ∷ bs) (record s { pending = rest })
  unfolding read_client_init first_read direct_rest
  read_client_init-direct b bs rest s hp hl =
      let one = readexactly-pending 1 (b ∷ []) (bs ++ rest) s hp refl in
      let s1 = record s { pending = bs ++ rest } in
      let more = readexactly-pending 63 bs rest s1 refl hl in
      ap (first_read hmac now secret public_key payload false) one
      ∙ no_tls b s1
      ∙ ap (direct_rest hmac now secret public_key payload (b ∷ [])) more
    where
      no_tls :
          (x : ℕ) (t : Source)
          → first_read hmac now secret public_key payload false (some (x ∷ []), t)
            ≡ direct_rest hmac now secret public_key payload (x ∷ []) (Source.readexactly 63 t)
      no_tls x t = ground arith

  -- With a fake TLS domain: the client sends a hello record that `verify_client_hello` accepts, and
  -- behind it change-cipher-spec records and application-data records that are not empty, with at
  -- least 64 bytes of data, in reads of any sizes. Then the first 64 bytes of the data are the
  -- client's init, and the stream holds the others, in such records.
  pub read_client_init-over_tls :
      (v1 v2 : ℕ) (body client_random session_id : Bytes) (ts : ℕ) (records : List Rec) (s : Source)
      → let hello = 0x16 ∷ v1 ∷ v2 ∷ (be 2 (length body) ++ body) in
        s.pending ≡ hello ++ wire records
        → length body < 65536
        → verify_client_hello hmac now hello secret ≡ some (client_random, session_id, ts)
        → All IsRec records
        → 64 ≤ length (plain records)
        → (t : FakeTlsStream) × (read_client_init hmac now secret public_key payload true s
            ≡ over_tls (take 64 (plain records)) t)
          × Holds t (drop 64 (plain records))
  unfolding read_client_init first_read hello_header hello_body answer_hello init_of
  read_client_init-over_tls v1 v2 body client_random session_id ts records s hp hb hv hr h64 =
      let len = be 2 (length body) in
      let after = body ++ wire records in
      let s1 = record s { pending = (v1 ∷ v2 ∷ len) ++ after } in
      let s2 = record s { pending = after } in
      let s3 = record s { pending = wire records } in
      let start : FakeTlsStream = record {
        reader = s3;
        written = build_server_hello hmac secret client_random session_id public_key payload;
        read_buf = [];
        read_left = 0;
      } in
      let held : Holds start (plain records) = record {
        tail = [];
        records = records;
        pending = refl;
        left = refl;
        valid = hr;
        shows = refl;
      } in
      let (t, e, h) = readexactly-Holds 64 start (plain records) held h64 in
      let shape : s.pending ≡ (0x16 ∷ []) ++ ((v1 ∷ v2 ∷ len) ++ after) =
        hp ∙ ap (λ (x : Bytes). 0x16 ∷ v1 ∷ v2 ∷ x) (append_assoc len body (wire records)) in
      let one = readexactly-pending 1 (0x16 ∷ []) ((v1 ∷ v2 ∷ len) ++ after) s shape refl in
      let four =
        readexactly-pending 4 (v1 ∷ v2 ∷ len) after s1 refl
          (omega (arith, length-be 2 (length body))) in
      let size : from_be len ≡ length body = from_be-be 2 (length body) (omega (arith, hb)) in
      let rest = readexactly-pending (from_be len) body (wire records) s2 refl (sym size) in
      (
        t,
        ap (first_read hmac now secret public_key payload true) one
            ∙ ap (hello_header hmac now secret public_key payload (0x16 ∷ [])) four
            ∙ ap (hello_body hmac now secret public_key payload (0x16 ∷ v1 ∷ v2 ∷ len)) rest
            ∙ ap
                (answer_hello hmac now secret public_key payload (0x16 ∷ v1 ∷ v2 ∷ (len ++ body))
                  s3)
                hv
            ∙ ap init_of e,
        h,
      )
