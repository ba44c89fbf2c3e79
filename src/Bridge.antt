-- ===== src/Bridge.antt =====
-- `bridge_ws_reencrypt` and `_bridge_tcp_reencrypt` of proxy/bridge.py, one direction at a time: the
-- directions share no state but `ws`, whose two ends they use apart. `chunks` is what the reads find,
-- the empty one at the end of the stream included. `drain`, the log and the cancellation of one
-- direction when the other one ends are left out.
pub mod Upstream
pub mod EndToEnd
pub mod Downstream
use tg_ws_proxy_rust.Prelude.{
  ℕ, zero, suc, ◌+◌, Bool, true, false, List, [], ◌∷◌, ◌++◌, Option, none, some, length, is_empty,
}
use tg_ws_proxy_rust.Prelude.Bytes.{Bytes}
use tg_ws_proxy_rust.Cipher.{Evp, update}
use tg_ws_proxy_rust.Splitter.{MsgSplitter, split, flush}
use tg_ws_proxy_rust.WebSocket.Session.{
  RawWebSocket, Sent, sent, connection_error, Received, payload, ended, incomplete, stuck, send,
  send_batch, recv,
}

module _ (evp : Evp) where
  open evp use {Ctx}

  -- ctx.tg_enc.update(ctx.clt_dec.update(chunk)), and the other way round.
  pub reencrypt : Ctx → Ctx → Bytes → Bytes × Ctx × Ctx
  reencrypt dec enc chunk =
      let (plain, dec') = update evp dec chunk in
      let (out, enc') = update evp enc plain in (out, dec', enc')

  pub record Up : Type 0 where
    pub ws : RawWebSocket
    pub clt_dec : Ctx
    pub tg_enc : Ctx
    pub splitter : Option (MsgSplitter evp)
    pub bytes_up : ℕ

  pub record Down : Type 0 where
    pub ws : RawWebSocket
    pub tg_dec : Ctx
    pub clt_enc : Ctx
    pub written : Bytes
    pub bytes_down : ℕ

  -- A direction of the bridge between two TCP connections.
  pub record Forward : Type 0 where
    pub dec : Ctx
    pub enc : Ctx
    pub written : Bytes
    pub count : ℕ

  pub forward : List Bytes → Forward → Forward
  forward [] s = s
  forward (chunk ∷ chunks) s =
      let (out, dec', enc') = reencrypt s.dec s.enc chunk in
      let again = forward chunks (record {
        dec = dec';
        enc = enc';
        written = s.written ++ out;
        count = s.count + length chunk;
      }) in
      elim (is_empty chunk) [ true ↦ s | false ↦ again ]

  module _ (mask_key : Bytes) where
    pub send_parts : RawWebSocket → List Bytes → Sent × RawWebSocket
    send_parts ws [] = (sent, ws)
    send_parts ws (part ∷ []) = send mask_key ws part
    send_parts ws (part ∷ other ∷ parts) = send_batch mask_key ws (part ∷ other ∷ parts)

    -- The body of `tcp_to_ws` for a chunk, after the counters.
    pub up_chunk : Bytes → Up → Sent × Up
    up_chunk chunk s =
        let (out, clt_dec', tg_enc') = reencrypt s.clt_dec s.tg_enc chunk in
        let s' = record s {
          clt_dec = clt_dec';
          tg_enc = tg_enc';
          bytes_up = s.bytes_up + length chunk;
        } in
        elim s.splitter [
          | none ↦ let (r, ws') = send mask_key s.ws out in (r, record s' { ws = ws' })
          | some m ↦
              let (parts, m') = split evp m out in
              let (r, ws') = send_parts s.ws parts in
              (r, record s' { ws = ws'; splitter = some m' })
        ]

    pub first_part : RawWebSocket → List Bytes → RawWebSocket
    first_part ws [] = ws
    first_part ws (tail ∷ parts) = (send mask_key ws tail).1

    -- The end of the client's stream.
    pub up_end : Up → Up
    unfolding first_part
    up_end s = elim s.splitter [
      | none ↦ s
      | some m ↦
          let (parts, m') = flush evp m in
          record s { ws = first_part s.ws parts; splitter = some m' }
    ]

    pub go_on : (Up → Up) → Sent × Up → Up
    go_on again (sent, s) = again s
    go_on again (connection_error, s) = s

    pub tcp_to_ws : List Bytes → Up → Up
    unfolding go_on
    tcp_to_ws [] s = up_end s
    tcp_to_ws (chunk ∷ chunks) s =
        let rest = go_on (tcp_to_ws chunks) (up_chunk chunk s) in
        elim (is_empty chunk) [ true ↦ up_end s | false ↦ rest ]

    -- A payload was received; anything else ends the direction.
    pub down_payload : (Down → Down) → Down → Received × RawWebSocket → Down
    down_payload again s (payload xs, ws') =
        let (out, tg_dec', clt_enc') = reencrypt s.tg_dec s.clt_enc xs in
        again (record {
          ws = ws';
          tg_dec = tg_dec';
          clt_enc = clt_enc';
          written = s.written ++ out;
          bytes_down = s.bytes_down + length xs;
        })
    down_payload again s (r, ws') = record s { ws = ws' }

    pub down_loop : ℕ → Down → Down
    unfolding down_payload
    down_loop zero s = s
    down_loop (suc fuel) s = down_payload (down_loop fuel) s (recv mask_key s.ws)

    -- Each payload takes two bytes of the input at least.
    pub ws_to_tcp : Down → Down
    unfolding down_loop
    ws_to_tcp s = down_loop (suc (length s.ws.input)) s
