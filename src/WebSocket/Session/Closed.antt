-- ===== src/WebSocket/Session/Closed.antt =====
-- Closing, and what a peer reads of the frames that were sent in one batch.
use tg_ws_proxy_rust.Prelude.{
  ℕ, if◌then◌else◌, zero, suc, ◌≡◌, refl, sym, ap, ◌∙◌, true, false, List, [], ◌∷◌, ◌++◌,
  append_assoc, append-nil, some, length, All, arith,
}
use tg_ws_proxy_rust.Prelude.Bytes.{Bytes}
use tg_ws_proxy_rust.Reader.{Reads, pure, ◌>>=◌, >>=-some}
use tg_ws_proxy_rust.WebSocket.Frame.{build_frame, read_frame, op_binary, op_close}
use tg_ws_proxy_rust.WebSocket.Frame.RoundTrip.{IsKey, read_frame-build_frame}
use tg_ws_proxy_rust.WebSocket.Session.Receive.{IsPayload}
use tg_ws_proxy_rust.WebSocket.Session.{
  RawWebSocket, sent, connection_error, ended, send, send_batch, batch, recv, close,
}

-- A closed session stays as it is: `send` and `send_batch` raise ConnectionError, `recv` returns
-- None and `close` returns, and none of them reads or writes anything.
pub closed_is_final :
    (mask_key : Bytes) (ws : RawWebSocket) (xs : Bytes) (parts : List Bytes)
    → ws.closed ≡ true
    → (send mask_key ws xs ≡ (connection_error, ws))
      × (send_batch mask_key ws parts ≡ (connection_error, ws))
      × (recv mask_key ws ≡ (ended, ws))
      × (close mask_key ws ≡ ws)
unfolding send send_batch recv close
closed_is_final mask_key ws xs parts h = (ground arith, ground arith, ground arith, ground arith)

-- Closing an open session writes one empty close frame, shuts the writer and marks the session;
-- closing it again changes nothing.
pub close_once :
    (mask_key : Bytes) (ws : RawWebSocket)
    → ws.closed ≡ false
    → ((close mask_key ws).output ≡ ws.output ++ build_frame mask_key op_close [] true)
      × ((close mask_key ws).closed ≡ true)
      × ((close mask_key ws).writer_closed ≡ true)
      × (close mask_key (close mask_key ws) ≡ close mask_key ws)
unfolding close
close_once mask_key ws h = (ground arith, ground arith, ground arith, ground arith)

-- A peer that reads `n` frames.
abbrev pub read_frames : ℕ → Reads (List (ℕ × Bytes))
read_frames zero = pure []
read_frames (suc n) = do frame ← read_frame; frames ← read_frames n; pure (frame ∷ frames)

abbrev pub binaries : List Bytes → List (ℕ × Bytes)
binaries [] = []
binaries (xs ∷ xss) = (op_binary, xs) ∷ binaries xss

abbrev pub frames_of : Bytes → List Bytes → Bytes
frames_of mask_key [] = []
frames_of mask_key (xs ∷ xss) = build_frame mask_key op_binary xs true ++ frames_of mask_key xss

pub batch_lem :
    (mask_key buf : Bytes) (parts : List Bytes)
    → batch mask_key buf parts ≡ buf ++ frames_of mask_key parts
unfolding batch
batch_lem mask_key buf [] = sym (append-nil buf)
batch_lem mask_key buf (xs ∷ xss) =
    batch_lem mask_key (buf ++ build_frame mask_key op_binary xs true) xss
    ∙ append_assoc buf (build_frame mask_key op_binary xs true) (frames_of mask_key xss)

read_frames_lem :
    (mask_key rest : Bytes) (parts : List Bytes)
    → IsKey mask_key
    → All IsPayload parts
    → read_frames (length parts) (frames_of mask_key parts ++ rest) ≡ some (binaries parts, rest)
read_frames_lem mask_key rest [] k h = refl
read_frames_lem mask_key rest (xs ∷ xss) k h =
    let tail = frames_of mask_key xss ++ rest in
    rw (append_assoc (build_frame mask_key op_binary xs true) (frames_of mask_key xss) rest) (
      >>=-some read_frame _ _
        (read_frame-build_frame mask_key xs tail op_binary true (omega arith) h.0.0 k h.0.1)
      ∙ >>=-some (read_frames (length xss)) _ tail (read_frames_lem mask_key rest xss k h.1))

-- What `send_batch` writes on an open session is the previous output followed by bytes in which a
-- peer reads the parts back: one binary frame for each part, in order, and nothing more.
pub read_frames-send_batch :
    (mask_key rest : Bytes) (ws : RawWebSocket) (parts : List Bytes)
    → ws.closed ≡ false
    → IsKey mask_key
    → All IsPayload parts
    → (wire : Bytes) × ((send_batch mask_key ws parts).1.output ≡ ws.output ++ wire)
      × (read_frames (length parts) (wire ++ rest) ≡ some (binaries parts, rest))
unfolding send_batch
read_frames-send_batch mask_key rest ws parts c k h = (
  frames_of mask_key parts,
  rw (c, batch_lem mask_key [] parts) refl,
  read_frames_lem mask_key rest parts k h,
)

pub open-send :
    (mask_key : Bytes) (ws : RawWebSocket) (xs : Bytes)
    → ws.closed ≡ false
    → send mask_key ws xs ≡ (sent, record ws { output = ws.output ++ frames_of mask_key (xs ∷ []) })
unfolding send
open-send mask_key ws xs c =
    let frame = build_frame mask_key op_binary xs true in
    ap
      (λ b. if b then (connection_error, ws) else (sent, record ws { output = ws.output ++ frame }))
      c
    ∙ ap (λ (t : Bytes). (sent, record ws { output = ws.output ++ t })) (sym (append-nil frame))

pub open-send_batch :
    (mask_key : Bytes) (ws : RawWebSocket) (parts : List Bytes)
    → ws.closed ≡ false
    → send_batch mask_key ws parts
      ≡ (sent, record ws { output = ws.output ++ frames_of mask_key parts })
unfolding send_batch
open-send_batch mask_key ws parts c =
    ap
      (λ b.
        if b
        then (connection_error, ws)
        else (sent, record ws { output = ws.output ++ batch mask_key [] parts }))
      c
    ∙ ap (λ (t : Bytes). (sent, record ws { output = ws.output ++ t }))
        (batch_lem mask_key [] parts)
