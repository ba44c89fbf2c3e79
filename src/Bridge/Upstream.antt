-- ===== src/Bridge/Upstream.antt =====
-- From the client to Telegram.
use tg_ws_proxy_rust.Prelude.{
  ℕ, ◌+◌, ◌≤◌, ◌≡◌, refl, sym, ap, ◌∙◌, true, false, List, [], ◌∷◌, ◌++◌, append_assoc, append-nil,
  Option, none, some, length, concat, concat-append, is_empty, is_empty-eq-false, All, arith, inl,
  inr, Bool-cases, length-append,
}
use tg_ws_proxy_rust.Prelude.Bytes.{Bytes}
use tg_ws_proxy_rust.Cipher.{Evp, IsCtr, update}
use tg_ws_proxy_rust.Cipher.Laws.{update-append}
use tg_ws_proxy_rust.Splitter.{MsgSplitter, split, flush}
use tg_ws_proxy_rust.Splitter.Conserve.{IsValid, split_conserves, empty_nil}
use tg_ws_proxy_rust.WebSocket.Frame.{build_frame, op_binary}
use tg_ws_proxy_rust.WebSocket.Session.{RawWebSocket, Sent, sent}
use tg_ws_proxy_rust.WebSocket.Session.Closed.{frames_of, open-send, open-send_batch}
use tg_ws_proxy_rust.Bridge.{
  Up, Forward, reencrypt, forward, send_parts, up_chunk, up_end, go_on, first_part, tcp_to_ws,
}

pub frames_of-append :
    (mask_key : Bytes) (ps qs : List Bytes)
    → frames_of mask_key (ps ++ qs) ≡ frames_of mask_key ps ++ frames_of mask_key qs
frames_of-append mask_key [] qs = refl
frames_of-append mask_key (p ∷ ps) qs =
    ap (λ (t : Bytes). build_frame mask_key op_binary p true ++ t) (frames_of-append mask_key ps qs)
    ∙ sym (
        append_assoc (build_frame mask_key op_binary p true) (frames_of mask_key ps)
          (frames_of mask_key qs))

module _ (evp : Evp) (ctr : IsCtr evp) where
  open evp use {Ctx}

  -- Two calls are one call on both chunks.
  pub reencrypt-append :
      (d e : Ctx) (xs ys : Bytes)
      → let (out, d', e') = reencrypt evp d e xs in
        (reencrypt evp d e (xs ++ ys)).0 ≡ out ++ (reencrypt evp d' e' ys).0
  unfolding reencrypt
  reencrypt-append d e xs ys =
      let plain = (update evp d xs).0 in
      let more = (update evp (update evp d xs).1 ys).0 in
      ap (λ (t : Bytes). (update evp e t).0) (update-append evp ctr d xs ys).0
      ∙ (update-append evp ctr e plain more).0

  pub reencrypt_nil : (d e : Ctx) → (reencrypt evp d e []).0 ≡ []
  unfolding reencrypt update
  reencrypt_nil d e = refl

  -- Between two TCP connections all the bytes that are read go out, in order, decrypted with the one
  -- stream and encrypted with the other, as if in one piece; the counter grows by their number.
  pub forward-reencrypt :
      (chunks : List Bytes) (s : Forward evp)
      → All (λ (c : Bytes). 1 ≤ length c) chunks
      → let r = forward evp chunks s in
        (r.written ≡ s.written ++ (reencrypt evp s.dec s.enc (concat chunks)).0)
        × (r.count ≡ s.count + length (concat chunks))
  unfolding forward
  forward-reencrypt [] s h = (
    sym (ap (λ (t : Bytes). s.written ++ t) (reencrypt_nil s.dec s.enc) ∙ append-nil s.written),
    omega arith,
  )
  forward-reencrypt (chunk ∷ chunks) s h =
      let (out, d', e') = reencrypt evp s.dec s.enc chunk in
      let t : Forward evp = record {
        dec = d';
        enc = e';
        written = s.written ++ out;
        count = s.count + length chunk;
      } in
      let ih = forward-reencrypt chunks t h.1 in
      rw (is_empty-eq-false chunk h.0, forward)
        (
          ih.0
              ∙ append_assoc s.written out (reencrypt evp d' e' (concat chunks)).0
              ∙ ap (λ (b : Bytes). s.written ++ b)
                  (sym (reencrypt-append s.dec s.enc chunk (concat chunks))),
          omega (arith, ih.1, length-append chunk (concat chunks)),
        )

  -- What a splitter, if there is one, holds back.
  abbrev pub held : Option (MsgSplitter evp) → Bytes
  held none = []
  held (some m) = m.cipher_buf

  abbrev pub Fits : Option (MsgSplitter evp) → Type 0
  Fits none = Unit
  Fits (some m) = IsValid evp m

  module _ (mask_key : Bytes) where
    abbrev wrote : RawWebSocket → List Bytes → RawWebSocket
    wrote ws parts = record ws { output = ws.output ++ frames_of mask_key parts }

    send_parts_lem :
        (ws : RawWebSocket) (parts : List Bytes)
        → ws.closed ≡ false
        → send_parts evp mask_key ws parts ≡ (sent, wrote ws parts)
    unfolding send_parts
    send_parts_lem ws [] c =
        ap (λ (t : Bytes). (sent, record ws { output = t })) (sym (append-nil ws.output))
    send_parts_lem ws (part ∷ []) c = open-send mask_key ws part c
    send_parts_lem ws (part ∷ other ∷ parts) c =
        open-send_batch mask_key ws (part ∷ other ∷ parts) c

    abbrev up : RawWebSocket → Ctx → Ctx → Option (MsgSplitter evp) → ℕ → Up evp
    up ws d e m n = record { ws = ws; clt_dec = d; tg_enc = e; splitter = m; bytes_up = n }

    up_chunk_lem :
        (chunk : Bytes) (ws : RawWebSocket) (d e : Ctx) (m : Option (MsgSplitter evp)) (n : ℕ)
        → ws.closed ≡ false
        → Fits m
        → let (out, d', e') = reencrypt evp d e chunk in
          (parts : List Bytes) × (m' : Option (MsgSplitter evp)) × (up_chunk evp mask_key chunk
              (up ws d e m n)
            ≡ (sent, up (wrote ws parts) d' e' m' (n + length chunk)))
          × (concat parts ++ held m' ≡ held m ++ out)
          × Fits m'
    unfolding up_chunk
    up_chunk_lem chunk ws d e none n c v =
        let (out, d', e') = reencrypt evp d e chunk in
        (
          out ∷ [],
          none,
          ap (λ (r : Sent × RawWebSocket). (r.0, up r.1 d' e' none (n + length chunk)))
              (open-send mask_key ws out c),
          append-nil (out ++ []) ∙ append-nil out,
          tt,
        )
    up_chunk_lem chunk ws d e (some m) n c v =
        let (out, d', e') = reencrypt evp d e chunk in
        let (parts, m') = split evp m out in
        let k = split_conserves evp m out ctr v in
        (
          parts,
          some m',
          ap (λ (r : Sent × RawWebSocket). (r.0, up r.1 d' e' (some m') (n + length chunk)))
              (send_parts_lem ws parts c),
          k.0,
          k.1,
        )

    up_end_lem :
        (ws : RawWebSocket) (d e : Ctx) (m : Option (MsgSplitter evp)) (n : ℕ)
        → ws.closed ≡ false
        → let r = up_end evp mask_key (up ws d e m n) in
          (parts : List Bytes) × (r.ws ≡ wrote ws parts)
          × (concat parts ≡ held m)
          × (r.bytes_up ≡ n)
    unfolding up_end flush first_part
    up_end_lem ws d e none n c =
        ([], ap (λ (t : Bytes). record ws { output = t }) (sym (append-nil ws.output)), refl, refl)
    up_end_lem ws d e (some m) n c = elim (Bool-cases (is_empty m.cipher_buf)) [
      | inl empty ↦ (
        [],
        rw empty (ap (λ (t : Bytes). record ws { output = t }) (sym (append-nil ws.output))),
        sym (empty_nil m.cipher_buf empty),
        refl,
      )
      | inr some_bytes ↦ (
        m.cipher_buf ∷ [],
        rw some_bytes
            (ap (λ (r : Sent × RawWebSocket). r.1) (open-send mask_key ws m.cipher_buf c)),
        append-nil m.cipher_buf,
        refl,
      )
    ]

    -- `tcp_to_ws` wrote frames of `parts`, and the parts are the bytes `sent_bytes`.
    pub record Uploaded (s r : Up evp) (xs : Bytes) : Type 0 where
      pub parts : List Bytes
      pub output : r.ws.output ≡ s.ws.output ++ frames_of mask_key parts
      pub carries : concat parts ≡ held s.splitter ++ (reencrypt evp s.clt_dec s.tg_enc xs).0
      pub counted : r.bytes_up ≡ s.bytes_up + length xs

    upload_lem :
        (chunks : List Bytes) (ws : RawWebSocket) (d e : Ctx) (m : Option (MsgSplitter evp)) (n : ℕ)
        → ws.closed ≡ false
        → Fits m
        → All (λ (c : Bytes). 1 ≤ length c) chunks
        → Uploaded (up ws d e m n) (tcp_to_ws evp mask_key chunks (up ws d e m n)) (concat chunks)
    unfolding tcp_to_ws
    upload_lem [] ws d e m n c v h =
        let (parts, out, whole, count) = up_end_lem ws d e m n c in
        record {
          parts = parts;
          output = ap (λ (w : RawWebSocket). w.output) out;
          carries =
              whole
              ∙ sym (ap (λ (t : Bytes). held m ++ t) (reencrypt_nil d e) ∙ append-nil (held m));
          counted = omega (arith, count);
        }
    upload_lem (chunk ∷ chunks) ws d e m n c v h =
        let (out, d', e') = reencrypt evp d e chunk in
        let (parts, m', step, kept, v') = up_chunk_lem chunk ws d e m n c v in
        let next = up (wrote ws parts) d' e' m' (n + length chunk) in
        let ih = upload_lem chunks (wrote ws parts) d' e' m' (n + length chunk) c v' h.1 in
        let more = (reencrypt evp d' e' (concat chunks)).0 in
        let same : tcp_to_ws evp mask_key (chunk ∷ chunks) (up ws d e m n)
            ≡ tcp_to_ws evp mask_key chunks next =
          rw (is_empty-eq-false chunk h.0, tcp_to_ws)
            (ap (go_on evp mask_key (tcp_to_ws evp mask_key chunks)) step) in
        record {
          parts = parts ++ ih.parts;
          output =
              ap (λ (r : Up evp). r.ws.output) same
              ∙ ih.output
              ∙ append_assoc ws.output (frames_of mask_key parts) (frames_of mask_key ih.parts)
              ∙ ap (λ (t : Bytes). ws.output ++ t) (sym (frames_of-append mask_key parts ih.parts));
          carries =
              concat-append parts ih.parts
              ∙ ap (λ (t : Bytes). concat parts ++ t) ih.carries
              ∙ sym (append_assoc (concat parts) (held m') more)
              ∙ ap (λ (t : Bytes). t ++ more) kept
              ∙ append_assoc (held m) out more
              ∙ ap (λ (t : Bytes). held m ++ t) (sym (reencrypt-append d e chunk (concat chunks)));
          counted =
              ap (λ (r : Up evp). r.bytes_up) same
              ∙ omega (arith, ih.counted, length-append chunk (concat chunks));
        }

    -- On an open session, from any valid splitter or none, `tcp_to_ws` writes binary frames and
    -- nothing else, for all the chunks up to the end of the client's stream. Their payloads in a row
    -- are what the splitter held back, followed by the client's bytes decrypted with the one stream
    -- and encrypted with the other, as if in one piece; the counter grows by the client's bytes.
    pub tcp_to_ws-Uploaded :
        (chunks : List Bytes) (s : Up evp)
        → s.ws.closed ≡ false
        → Fits s.splitter
        → All (λ (c : Bytes). 1 ≤ length c) chunks
        → Uploaded s (tcp_to_ws evp mask_key chunks s) (concat chunks)
    tcp_to_ws-Uploaded chunks s c v h =
        upload_lem chunks s.ws s.clt_dec s.tg_enc s.splitter s.bytes_up c v h
