-- ===== src/WebSocket/Session/Total.antt =====
-- `recv` ends on every input.
use tg_ws_proxy_rust.Prelude.{
  refl, ap, ℕ, zero, suc, ◌<◌, ◌≡◌, ◌≢◌, length, arith, Option-cases, inl, inr, Bool-cases,
}
use tg_ws_proxy_rust.Prelude.Bytes.{Bytes}
use tg_ws_proxy_rust.WebSocket.Frame.{read_frame, op_pong}
use tg_ws_proxy_rust.WebSocket.Frame.Consumes.{length-read_frame}
use tg_ws_proxy_rust.WebSocket.Session.{
  RawWebSocket, Received, stuck, recv_loop, handle_frame, write_frame, recv,
}

module _ (mask_key : Bytes) where
  handle_frame-ne-stuck :
      (again : RawWebSocket → Received × RawWebSocket) (op : ℕ) (xs : Bytes) (ws : RawWebSocket)
      → ((w : RawWebSocket) → w.input ≡ ws.input → (again w).0 ≢ stuck)
      → (handle_frame mask_key again op xs ws).0 ≢ stuck
  unfolding handle_frame
  handle_frame-ne-stuck again op xs ws h =
      ground (arith, h (write_frame mask_key ws op_pong xs) refl, h ws refl)

  recv_loop-ne-stuck :
      (fuel : ℕ) (ws : RawWebSocket)
      → length ws.input < fuel
      → (recv_loop mask_key fuel ws).0 ≢ stuck
  unfolding recv_loop
  recv_loop-ne-stuck zero ws h = absurd (omega arith)
  recv_loop-ne-stuck (suc fuel) ws h = elim (Bool-cases ws.closed) [
    | inl closed ↦ rw (closed, recv_loop) (λ e. cc)
    | inr open' ↦ elim (Option-cases (read_frame ws.input)) [
      | inl short ↦ rw (open', short, recv_loop) (λ e. cc)
      | inr (((op, xs), rest), e) ↦
          rw (open', e, recv_loop)
            (handle_frame-ne-stuck (recv_loop mask_key fuel) op xs (record ws { input = rest })
              (λ w same.
                recv_loop-ne-stuck fuel w
                  (omega (arith, ap length same, length-read_frame ws.input rest (op, xs) e))))
    ]
  ]

  -- `recv` returns or raises on every input: its loop never runs out of fuel.
  pub recv-ne-stuck : (ws : RawWebSocket) → (recv mask_key ws).0 ≢ stuck
  unfolding recv
  recv-ne-stuck ws = recv_loop-ne-stuck (suc (length ws.input)) ws (omega arith)
