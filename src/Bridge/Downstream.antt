-- ===== src/Bridge/Downstream.antt =====
-- From Telegram to the client.
use tg_ws_proxy_rust.Prelude.{
  ℕ, zero, suc, ◌+◌, ◌≤◌, ◌<◌, ◌≡◌, sym, ap, ◌∙◌, Bool, List, [], ◌∷◌, ◌++◌, append_assoc,
  append-nil, length, All, arith, length-append,
}
use tg_ws_proxy_rust.Prelude.Bytes.{Bytes}
use tg_ws_proxy_rust.Cipher.{Evp, IsCtr}
use tg_ws_proxy_rust.WebSocket.Frame.RoundTrip.{IsKey}
use tg_ws_proxy_rust.WebSocket.Session.Receive.{
  Control, payload_of, IsPayload, IsData, stream, pongs, open_session, recv_data,
  length-stream_rest, recv_eof,
}
use tg_ws_proxy_rust.Bridge.{Down, reencrypt, down_loop, down_payload, ws_to_tcp}
use tg_ws_proxy_rust.Bridge.Upstream.{reencrypt-append, reencrypt_nil}

-- Control frames and the data frame behind them.
pub record Message : Type 0 where
  pub controls : List Control
  pub opcode : ℕ
  pub content : Bytes

abbrev pub IsMessage : Message → Type 0
IsMessage m = IsData m.opcode × All (λ c. IsPayload (payload_of c)) m.controls × IsPayload m.content

abbrev pub contents : List Message → Bytes
contents [] = []
contents (m ∷ ms) = m.content ++ contents ms

abbrev pub answers : Bytes → List Message → Bytes
answers mask_key [] = []
answers mask_key (m ∷ ms) = pongs mask_key m.controls ++ answers mask_key ms

module _ (their_key : Bytes) (masked : Bool) where
  abbrev pub messages : List Message → Bytes
  messages [] = []
  messages (m ∷ ms) = stream their_key masked m.controls m.opcode m.content (messages ms)

module _ (evp : Evp) (ctr : IsCtr evp) (mask_key their_key : Bytes) (masked : Bool)
    (k : IsKey their_key) where
  open evp use {Ctx}

  abbrev pub down : Bytes → Bytes → Bool → Ctx → Ctx → Bytes → ℕ → Down evp
  down input output w d e written n = record {
    ws = open_session input output w;
    tg_dec = d;
    clt_enc = e;
    written = written;
    bytes_down = n;
  }

  length-messages :
      (ms : List Message) → All IsMessage ms → length ms ≤ length (messages their_key masked ms)
  length-messages [] h = omega arith
  length-messages (m ∷ ms) h = omega (
    arith,
    length-messages ms h.1,
    length-stream_rest mask_key their_key masked k m.opcode m.controls m.content
        (messages their_key masked ms) h.0.0 h.0.1 h.0.2,
  )

  -- What the client gets, the pongs that Telegram gets, and the counter.
  pub record Downloaded (s r : Down evp) (ms : List Message) : Type 0 where
    pub delivered : r.written ≡ s.written ++ (reencrypt evp s.tg_dec s.clt_enc (contents ms)).0
    pub answered : r.ws.output ≡ s.ws.output ++ answers mask_key ms
    pub counted : r.bytes_down ≡ s.bytes_down + length (contents ms)

  down_lem :
      (fuel : ℕ) (ms : List Message) (output : Bytes) (w : Bool) (d e : Ctx) (written : Bytes)
      (n : ℕ)
      → length ms < fuel
      → All IsMessage ms
      → let s = down (messages their_key masked ms) output w d e written n in
        Downloaded s (down_loop evp mask_key fuel s) ms
  unfolding down_loop
  down_lem zero ms output w d e written n hf h = absurd (omega arith)
  down_lem (suc fuel) [] output w d e written n hf h =
      let s = down [] output w d e written n in
      let same : down_loop evp mask_key (suc fuel) s ≡ s =
        ap (down_payload evp mask_key (down_loop evp mask_key fuel) s)
          (recv_eof mask_key output w) in
      record {
        delivered =
            ap (λ (r : Down evp). r.written) same
            ∙ sym
                (ap (λ (t : Bytes). written ++ t) (reencrypt_nil evp ctr d e) ∙ append-nil written);
        answered = ap (λ (r : Down evp). r.ws.output) same ∙ sym (append-nil output);
        counted = ap (λ (r : Down evp). r.bytes_down) same ∙ omega arith;
      }
  down_lem (suc fuel) (m ∷ ms) output w d e written n hf h =
      let (out, d', e') = reencrypt evp d e m.content in
      let s = down (messages their_key masked (m ∷ ms)) output w d e written n in
      let output' = output ++ pongs mask_key m.controls in
      let n' = n + length m.content in
      let ih = down_lem fuel ms output' w d' e' (written ++ out) n' (omega arith) h.1 in
      let next = down (messages their_key masked ms) output' w d' e' (written ++ out) n' in
      let same : down_loop evp mask_key (suc fuel) s ≡ down_loop evp mask_key fuel next =
        ap (down_payload evp mask_key (down_loop evp mask_key fuel) s) (
          recv_data mask_key their_key masked k m.opcode m.controls m.content
            (messages their_key masked ms) output w h.0.0 h.0.1 h.0.2) in
      record {
        delivered =
            ap (λ (r : Down evp). r.written) same
            ∙ ih.delivered
            ∙ append_assoc written out (reencrypt evp d' e' (contents ms)).0
            ∙ ap (λ (t : Bytes). written ++ t)
                (sym (reencrypt-append evp ctr d e m.content (contents ms)));
        answered =
            ap (λ (r : Down evp). r.ws.output) same
            ∙ ih.answered
            ∙ append_assoc output (pongs mask_key m.controls) (answers mask_key ms);
        counted =
            ap (λ (r : Down evp). r.bytes_down) same
            ∙ omega (arith, ih.counted, length-append m.content (contents ms));
      }

  -- Telegram sends text and binary frames with pings and pongs between them, and then its stream
  -- ends. `ws_to_tcp` on an open session writes to the client the payloads of the data frames in a
  -- row, decrypted with the one stream and encrypted with the other, as if in one piece; it answers
  -- each ping with one pong, and the counter grows by the bytes of the payloads.
  pub ws_to_tcp-Downloaded :
      (ms : List Message) (output : Bytes) (w : Bool) (d e : Ctx) (written : Bytes) (n : ℕ)
      → All IsMessage ms
      → let s = down (messages their_key masked ms) output w d e written n in
        Downloaded s (ws_to_tcp evp mask_key s) ms
  unfolding ws_to_tcp
  ws_to_tcp-Downloaded ms output w d e written n h =
      down_lem (suc (length (messages their_key masked ms))) ms output w d e written n
        (omega (arith, length-messages ms h)) h
