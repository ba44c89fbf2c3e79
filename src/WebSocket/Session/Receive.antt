-- ===== src/WebSocket/Session/Receive.antt =====
-- What `recv` makes of a stream of frames.
use tg_ws_proxy_rust.Prelude.{
  ℕ, zero, suc, ◌+◌, ◌^◌, ◌<◌, ◌≤◌, ◌≡◌, refl, ap, ◌∙◌, Bool, true, false, List, [], ◌∷◌, ◌++◌,
  append_assoc, append-nil, length, All, ◌⊎◌, inl, inr, arith,
}
use tg_ws_proxy_rust.Prelude.Bytes.{Bytes, IsByte}
use tg_ws_proxy_rust.Reader
use tg_ws_proxy_rust.WebSocket.Frame.{build_frame, read_frame, op_text, op_binary, op_ping, op_pong}
use tg_ws_proxy_rust.WebSocket.Frame.Consumes.{length-read_frame}
use tg_ws_proxy_rust.WebSocket.Frame.RoundTrip.{IsKey, read_frame-build_frame}
use tg_ws_proxy_rust.WebSocket.Session.{
  RawWebSocket, payload, incomplete, recv_loop, handle_frame, write_frame, recv,
}

-- A control frame that the peer may send before data.
pub data Control : Type 0 where
  ping pong : Bytes → Control

abbrev pub opcode_of : Control → ℕ
opcode_of (ping xs) = op_ping
opcode_of (pong xs) = op_pong

abbrev pub payload_of : Control → Bytes
payload_of (ping xs) = xs
payload_of (pong xs) = xs

abbrev pub IsPayload : Bytes → Type 0
IsPayload xs = (length xs < 2 ^ 63) × All IsByte xs

module _ (their_key : Bytes) (masked : Bool) where
  -- The peer's control frames, and then its data frame.
  abbrev pub stream : List Control → ℕ → Bytes → Bytes → Bytes
  stream [] op xs rest = build_frame their_key op xs masked ++ rest
  stream (c ∷ cs) op xs rest =
      build_frame their_key (opcode_of c) (payload_of c) masked ++ stream cs op xs rest

-- The answers: a pong for each ping, with its payload.
abbrev pub pongs : Bytes → List Control → Bytes
pongs mask_key [] = []
pongs mask_key (ping xs ∷ cs) = build_frame mask_key op_pong xs true ++ pongs mask_key cs
pongs mask_key (pong xs ∷ cs) = pongs mask_key cs

abbrev pub open_session : Bytes → Bytes → Bool → RawWebSocket
open_session input output w = record {
  input = input;
  output = output;
  closed = false;
  writer_closed = w;
}

abbrev pub IsData : ℕ → Type 0
IsData op = (op ≡ op_text) ⊎ (op ≡ op_binary)

module _ (mask_key their_key : Bytes) (masked : Bool) (k : IsKey their_key) where
  recv_loop_frame :
      (fuel op : ℕ) (xs rest out : Bytes) (w : Bool)
      → op < 16
      → IsPayload xs
      → recv_loop mask_key
          (suc fuel)
          (open_session (build_frame their_key op xs masked ++ rest) out w)
        ≡ handle_frame mask_key (recv_loop mask_key fuel) op xs (open_session rest out w)
  unfolding recv_loop
  recv_loop_frame fuel op xs rest out w ho h =
      rw (read_frame-build_frame their_key xs rest op masked ho h.0 k h.1, recv_loop) refl

  recv_loop_data :
      (fuel op : ℕ) (cs : List Control) (xs rest out : Bytes) (w : Bool)
      → length cs < fuel
      → IsData op
      → All (λ c. IsPayload (payload_of c)) cs
      → IsPayload xs
      → recv_loop mask_key fuel (open_session (stream their_key masked cs op xs rest) out w)
        ≡ (payload xs, open_session rest (out ++ pongs mask_key cs) w)
  unfolding handle_frame write_frame
  recv_loop_data zero op cs xs rest out w hf ho hc hx = absurd (omega arith)
  recv_loop_data (suc fuel) op [] xs rest out w hf ho hc hx =
      recv_loop_frame fuel op xs rest out w (ground arith) hx
      ∙ elim ho [ inl e ↦ rw (e, append-nil out) refl | inr e ↦ rw (e, append-nil out) refl ]
  recv_loop_data (suc fuel) op (ping ys ∷ cs) xs rest out w hf ho hc hx =
      recv_loop_frame fuel op_ping ys (stream their_key masked cs op xs rest) out w (omega arith)
        hc.0
      ∙ recv_loop_data fuel op cs xs rest (out ++ build_frame mask_key op_pong ys true) w
          (omega arith) ho hc.1 hx
      ∙ ap (λ (t : Bytes). (payload xs, open_session rest t w))
          (append_assoc out (build_frame mask_key op_pong ys true) (pongs mask_key cs))
  recv_loop_data (suc fuel) op (pong ys ∷ cs) xs rest out w hf ho hc hx =
      recv_loop_frame fuel op_pong ys (stream their_key masked cs op xs rest) out w (omega arith)
        hc.0
      ∙ recv_loop_data fuel op cs xs rest out w (omega arith) ho hc.1 hx

  length-frame :
      (op : ℕ) (xs rest : Bytes)
      → op < 16
      → IsPayload xs
      → length rest + 2 ≤ length (build_frame their_key op xs masked ++ rest)
  length-frame op xs rest ho h =
      length-read_frame _ rest (op, xs)
        (read_frame-build_frame their_key xs rest op masked ho h.0 k h.1)

  length-stream :
      (op : ℕ) (cs : List Control) (xs rest : Bytes)
      → All (λ c. IsPayload (payload_of c)) cs
      → length cs ≤ length (stream their_key masked cs op xs rest)
  length-stream op [] xs rest hc = omega arith
  length-stream op (ping ys ∷ cs) xs rest hc = omega (
    arith,
    length-stream op cs xs rest hc.1,
    length-frame op_ping ys (stream their_key masked cs op xs rest) (omega arith) hc.0,
  )
  length-stream op (pong ys ∷ cs) xs rest hc = omega (
    arith,
    length-stream op cs xs rest hc.1,
    length-frame op_pong ys (stream their_key masked cs op xs rest) (omega arith) hc.0,
  )

  pub length-stream_rest :
      (op : ℕ) (cs : List Control) (xs rest : Bytes)
      → IsData op
      → All (λ c. IsPayload (payload_of c)) cs
      → IsPayload xs
      → length rest < length (stream their_key masked cs op xs rest)
  length-stream_rest op [] xs rest ho hc hx =
      omega (arith, length-frame op xs rest (ground arith) hx)
  length-stream_rest op (ping ys ∷ cs) xs rest ho hc hx = omega (
    arith,
    length-stream_rest op cs xs rest ho hc.1 hx,
    length-frame op_ping ys (stream their_key masked cs op xs rest) (omega arith) hc.0,
  )
  length-stream_rest op (pong ys ∷ cs) xs rest ho hc hx = omega (
    arith,
    length-stream_rest op cs xs rest ho hc.1 hx,
    length-frame op_pong ys (stream their_key masked cs op xs rest) (omega arith) hc.0,
  )

  -- On an open session `recv` passes over any number of pings and pongs and returns the payload of
  -- the text or binary frame behind them. It leaves the rest of the input, stays open, and has
  -- written exactly one pong for each ping, with its payload and in order.
  pub recv_data :
      (op : ℕ) (cs : List Control) (xs rest out : Bytes) (w : Bool)
      → IsData op
      → All (λ c. IsPayload (payload_of c)) cs
      → IsPayload xs
      → recv mask_key (open_session (stream their_key masked cs op xs rest) out w)
        ≡ (payload xs, open_session rest (out ++ pongs mask_key cs) w)
  unfolding recv
  recv_data op cs xs rest out w ho hc hx =
      recv_loop_data (suc (length (stream their_key masked cs op xs rest))) op cs xs rest out w
        (omega (arith, length-stream op cs xs rest hc)) ho hc hx

-- Where the stream has ended.
pub recv_eof :
    (mask_key output : Bytes) (w : Bool)
    → recv mask_key (open_session [] output w) ≡ (incomplete, open_session [] output w)
unfolding recv recv_loop read_frame Reader.readexactly
recv_eof mask_key output w = refl
