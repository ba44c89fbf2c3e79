-- ===== src/Examples/Bridge.antt =====
-- Runs of the bridge, under the toy cipher.
use tg_ws_proxy_rust.Prelude.{◌≡◌, refl, false, List, [], ◌∷◌, some, concat, arith, inl, inr}
use tg_ws_proxy_rust.Prelude.Bytes.{Bytes}
use tg_ws_proxy_rust.Cipher.{update}
use tg_ws_proxy_rust.Splitter.{MsgSplitter, proto_abridged}
use tg_ws_proxy_rust.WebSocket.Frame.{op_binary, op_text}
use tg_ws_proxy_rust.WebSocket.Session.Receive.{ping, open_session}
use tg_ws_proxy_rust.WebSocket.Session.Closed.{frames_of}
use tg_ws_proxy_rust.Bridge.{Up, Forward, tcp_to_ws, ws_to_tcp}
use tg_ws_proxy_rust.Bridge.Upstream.{Uploaded, tcp_to_ws-Uploaded}
use tg_ws_proxy_rust.Bridge.Downstream.{Message, Downloaded, down, messages, ws_to_tcp-Downloaded}
use tg_ws_proxy_rust.Bridge.EndToEnd.{telegram_reads_client}
use tg_ws_proxy_rust.Examples.Toy.{toy, toy-IsCtr, ok_bytes}

abbrev key : Bytes
key = 1 ∷ 2 ∷ 3 ∷ 4 ∷ []

abbrev fresh : MsgSplitter toy
fresh = record {
  dec = 9;
  proto = proto_abridged;
  cipher_buf = [];
  plain_buf = [];
  disabled = false;
}

abbrev start : Up toy
start = record {
  ws = open_session [] [] false;
  clt_dec = 5;
  tg_enc = 9;
  splitter = some fresh;
  bytes_up = 0;
}

abbrev chunks : List Bytes
chunks = (5 ∷ 6 ∷ []) ∷ (7 ∷ []) ∷ []

abbrev halves : Forward toy
halves = record { dec = 5; enc = 9; written = []; count = 0 }

tcp_to_ws-Uploaded_example :
    Uploaded toy toy-IsCtr key start (tcp_to_ws toy key chunks start) (concat chunks)
tcp_to_ws-Uploaded_example =
    tcp_to_ws-Uploaded toy toy-IsCtr key chunks start refl
      (record { in_step = refl; passes = λ e. cc }) (omega arith, (omega arith, tt))

telegram_reads_client_example :
    (parts : List Bytes) × ((tcp_to_ws toy key
        (((update toy 5 (1 ∷ 2 ∷ 3 ∷ [])).0) ∷ [])
        start).ws.output
      ≡ frames_of key parts)
    × ((update toy 9 (concat parts)).0 ≡ 1 ∷ 2 ∷ 3 ∷ [])
unfolding update
telegram_reads_client_example =
    telegram_reads_client toy toy-IsCtr key (1 ∷ 2 ∷ 3 ∷ [])
      (((update toy 5 (1 ∷ 2 ∷ 3 ∷ [])).0) ∷ []) start 5 9 refl
      (record { in_step = refl; passes = λ e. cc }) refl (λ i. refl) (λ i. refl) (omega arith, tt)
      refl

abbrev arrived : List Message
arrived =
    record { controls = ping (1 ∷ []) ∷ []; opcode = op_binary; content = 8 ∷ 9 ∷ [] }
    ∷ record { controls = []; opcode = op_text; content = 10 ∷ [] }
    ∷ []

ws_to_tcp-Downloaded_example :
    Downloaded toy toy-IsCtr key key false
      (refl, ok_bytes key refl)
      (down toy toy-IsCtr key key false
        (refl, ok_bytes key refl)
        (messages key false arrived)
        []
        false
        5
        9
        []
        0)
      (ws_to_tcp toy key (
        down toy toy-IsCtr key key false
          (refl, ok_bytes key refl)
          (messages key false arrived)
          []
          false
          5
          9
          []
          0))
      arrived
ws_to_tcp-Downloaded_example =
    ws_to_tcp-Downloaded toy toy-IsCtr key key false (refl, ok_bytes key refl) arrived [] false 5 9
      [] 0
      (
        (
          inr refl,
          ((omega arith, ok_bytes (1 ∷ []) refl), tt),
          (omega arith, ok_bytes (8 ∷ 9 ∷ []) refl),
        ),
        ((inl refl, tt, (omega arith, ok_bytes (10 ∷ []) refl)), tt),
      )
