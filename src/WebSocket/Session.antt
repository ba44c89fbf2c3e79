-- ===== src/WebSocket/Session.antt =====
-- The methods `send`, `send_batch`, `recv` and `close` of `RawWebSocket`, proxy/raw_websocket.py.
-- `input` is what the reader has still to deliver, `output` all that `writer.write` has taken.
-- `drain` and `wait_closed` have no effect on these, and what they raise here is swallowed.
pub mod Total
pub mod Receive
pub mod Closed
use tg_ws_proxy_rust.Prelude.{
  ℕ, zero, suc, Bool, true, false, ◌||◌, List, [], ◌∷◌, ◌++◌, Option, none, some, length, take,
  ◌==◌, if◌then◌else◌,
}
use tg_ws_proxy_rust.Prelude.Bytes.{Bytes}
use tg_ws_proxy_rust.WebSocket.Frame.{
  build_frame, read_frame, op_text, op_binary, op_close, op_ping, op_pong,
}

pub record RawWebSocket : Type 0 where
  pub input : Bytes
  pub output : Bytes
  pub closed : Bool
  pub writer_closed : Bool

pub data Sent : Type 0 where
  sent connection_error : Sent

-- `None` is `ended`; `incomplete` is the IncompleteReadError of the reader; `stuck` is no outcome
-- of the source: the loop ran out of fuel.
pub data Received : Type 0 where
  payload : Bytes → Received
  ended incomplete stuck : Received

module _ (mask_key : Bytes) where
  write_frame : RawWebSocket → ℕ → Bytes → RawWebSocket
  write_frame ws opcode xs = record ws { output = ws.output ++ build_frame mask_key opcode xs true }

  pub send : RawWebSocket → Bytes → Sent × RawWebSocket
  unfolding write_frame
  send ws xs = if ws.closed then (connection_error, ws) else (sent, write_frame ws op_binary xs)

  pub batch : Bytes → List Bytes → Bytes
  batch buf [] = buf
  batch buf (part ∷ parts) = batch (buf ++ build_frame mask_key op_binary part true) parts

  pub send_batch : RawWebSocket → List Bytes → Sent × RawWebSocket
  unfolding batch
  send_batch ws parts =
      if ws.closed
      then (connection_error, ws)
      else (sent, record ws { output = ws.output ++ batch [] parts })

  -- One round of the loop of `recv`, after the frame was read; `again` is the next round.
  handle_frame :
      (RawWebSocket → Received × RawWebSocket) → ℕ → Bytes → RawWebSocket → Received × RawWebSocket
  unfolding write_frame
  handle_frame again opcode xs ws =
      let ponged = again (write_frame ws op_pong xs) in
      let skipped = again ws in
      if opcode == op_close
      then (ended, write_frame (record ws { closed = true }) op_close (take 2 xs))
      else if opcode == op_ping
      then ponged
      else if opcode == op_pong
      then skipped
      else if (opcode == op_text) || (opcode == op_binary)
      then (payload xs, ws)
      else skipped

  recv_loop : ℕ → RawWebSocket → Received × RawWebSocket
  recv_loop zero ws = (stuck, ws)
  recv_loop (suc fuel) ws = elim ws.closed [
    | true ↦ (ended, ws)
    | false ↦ elim (read_frame ws.input) [
      | none ↦ (incomplete, record ws { input = [] })
      | some ((opcode, xs), rest) ↦
          handle_frame (recv_loop fuel) opcode xs (record ws { input = rest })
    ]
  ]

  -- Each round reads a frame, of two bytes at least.
  pub recv : RawWebSocket → Received × RawWebSocket
  unfolding recv_loop handle_frame
  recv ws = recv_loop (suc (length ws.input)) ws

  pub close : RawWebSocket → RawWebSocket
  unfolding write_frame
  close ws =
      if ws.closed
      then ws
      else record (write_frame (record ws { closed = true }) op_close []) { writer_closed = true }
