-- ===== src/Examples/WebSocket.antt =====
-- Runs of the WebSocket client.
use tg_ws_proxy_rust.Prelude.{◌≡◌, ◌≢◌, refl, true, false, [], ◌∷◌, ◌++◌, some, All, arith, inr}
use tg_ws_proxy_rust.Prelude.Bytes.{Bytes, IsByte}
use tg_ws_proxy_rust.WebSocket.Mask.{xor_mask, mask_from}
use tg_ws_proxy_rust.WebSocket.Mask.Rfc.{xor_mask-mask_from}
use tg_ws_proxy_rust.WebSocket.Frame.{build_frame, read_frame, op_binary}
use tg_ws_proxy_rust.WebSocket.Frame.RoundTrip.{read_frame-build_frame}
use tg_ws_proxy_rust.WebSocket.Session.{RawWebSocket, stuck, payload, send_batch, recv}
use tg_ws_proxy_rust.WebSocket.Session.Total.{recv-ne-stuck}
use tg_ws_proxy_rust.WebSocket.Session.Receive.{ping, pong, stream, pongs, open_session, recv_data}
use tg_ws_proxy_rust.WebSocket.Session.Closed.{read_frames, binaries, read_frames-send_batch}

abbrev mask_key : Bytes
mask_key = 0x10 ∷ 0xF0 ∷ 0x30 ∷ 0x40 ∷ []

abbrev hello : Bytes
hello = 0x68 ∷ 0xFF ∷ 0x6C ∷ 0x6C ∷ 0x6F ∷ []

key_bytes : All IsByte mask_key
key_bytes = (omega arith, (omega arith, (omega arith, (omega arith, tt))))

hello_bytes : All IsByte hello
hello_bytes = (omega arith, (omega arith, (omega arith, (omega arith, (omega arith, tt)))))

abbrev closed_session : RawWebSocket
closed_session = record { input = hello; output = []; closed = true; writer_closed = true }

xor_mask-mask_from_example : xor_mask hello mask_key ≡ mask_from 0 hello mask_key
xor_mask-mask_from_example = xor_mask-mask_from hello 0x10 0xF0 0x30 0x40 hello_bytes key_bytes

read_frame-build_frame_example :
    read_frame (build_frame mask_key op_binary hello true ++ hello)
    ≡ some ((op_binary, hello), hello)
read_frame-build_frame_example =
    read_frame-build_frame mask_key hello hello op_binary true (omega arith) (omega arith)
      (refl, key_bytes) hello_bytes

recv-ne-stuck_example : (recv mask_key (open_session hello [] false)).0 ≢ stuck
recv-ne-stuck_example = recv-ne-stuck mask_key (open_session hello [] false)

recv_data_example :
    recv mask_key
      (open_session (stream mask_key false (ping hello ∷ pong [] ∷ []) op_binary hello []) [] false)
    ≡ (payload hello, open_session [] (pongs mask_key (ping hello ∷ pong [] ∷ [])) false)
recv_data_example =
    recv_data mask_key mask_key false (refl, key_bytes) op_binary (ping hello ∷ pong [] ∷ []) hello
      [] [] false (inr refl) ((omega arith, hello_bytes), ((omega arith, tt), tt))
      (omega arith, hello_bytes)

read_frames-send_batch_example :
    (wire : Bytes) × ((send_batch mask_key (open_session [] hello false) (hello ∷ [] ∷ [])).1.output
      ≡ hello ++ wire)
    × (read_frames 2 (wire ++ hello) ≡ some (binaries (hello ∷ [] ∷ []), hello))
read_frames-send_batch_example =
    read_frames-send_batch mask_key hello (open_session [] hello false) (hello ∷ [] ∷ []) refl
      (refl, key_bytes) ((omega arith, hello_bytes), ((omega arith, tt), tt))
