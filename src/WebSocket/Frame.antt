-- ===== src/WebSocket/Frame.antt =====
-- `_build_frame` and `_read_frame` of proxy/raw_websocket.py. A length is below 2 ^ 63, as `len` is.
pub mod RoundTrip
pub mod Consumes
use tg_ws_proxy_rust.Prelude.{
  ℕ, ◌==◌, Bool, true, false, [], ◌∷◌, ◌++◌, length, get_or, ltb, if◌then◌else◌, bit_and, bit_or,
}
use tg_ws_proxy_rust.Prelude.Bytes.{Bytes, be, from_be}
use tg_ws_proxy_rust.Reader.{Reads, pure, readexactly, ◌>>=◌}
use tg_ws_proxy_rust.WebSocket.Mask.{xor_mask}

abbrev pub op_text : ℕ
op_text = 0x1

abbrev pub op_binary : ℕ
op_binary = 0x2

abbrev pub op_close : ℕ
op_close = 0x8

abbrev pub op_ping : ℕ
op_ping = 0x9

abbrev pub op_pong : ℕ
op_pong = 0xA

-- `_MASK_KEY`, drawn once, is an argument.
unfoldable pub build_frame : Bytes → ℕ → Bytes → Bool → Bytes
build_frame mask_key opcode xs mask =
    let n = length xs in
    let fb = bit_or 0x80 opcode in
    if mask
    then (let masked = xor_mask xs mask_key in
        if ltb n 126
        then fb ∷ bit_or 0x80 n ∷ (mask_key ++ masked)
        else if ltb n 65536
        then fb ∷ bit_or 0x80 126 ∷ (be 2 n ++ (mask_key ++ masked))
        else fb ∷ bit_or 0x80 127 ∷ (be 8 n ++ (mask_key ++ masked)))
    else if ltb n 126
    then fb ∷ n ∷ xs
    else if ltb n 65536
    then fb ∷ 126 ∷ (be 2 n ++ xs)
    else fb ∷ 127 ∷ (be 8 n ++ xs)

-- The seven bits of the header, or the extended length that they announce.
read_length : ℕ → Reads ℕ
read_length n =
    if n == 126
    then (do bs ← readexactly 2; pure (from_be bs))
    else if n == 127
    then (do bs ← readexactly 8; pure (from_be bs))
    else pure n

read_payload : Bool → ℕ → ℕ → Reads (ℕ × Bytes)
read_payload false opcode n = do payload ← readexactly n; pure (opcode, payload)
read_payload true opcode n = do
  mask_key ← readexactly 4
  payload ← readexactly n
  pure (opcode, xor_mask payload mask_key)

unfoldable pub read_frame : Reads (ℕ × Bytes)
unfolding read_length read_payload
read_frame = do
  hdr ← readexactly 2
  n ← read_length (bit_and (get_or hdr 1 0) 0x7F)
  read_payload (if bit_and (get_or hdr 1 0) 0x80 == 0 then false else true)
      (bit_and (get_or hdr 0 0) 0x0F) n
