-- ===== src/Splitter/Packets.antt =====
-- The transport packets of the MTProto documentation, and that `split` returns one part for each.
use tg_ws_proxy_rust.Prelude.{ℕ, ◌*◌, ◌^◌, ◌≤◌, ◌<◌, ◌≡◌, List, [], ◌∷◌, ◌++◌, length, take, drop}
use tg_ws_proxy_rust.Prelude.Bytes.{Bytes, le}
use tg_ws_proxy_rust.Splitter.{proto_abridged, proto_intermediate, proto_padded_intermediate}

-- https://core.telegram.org/mtproto/mtproto-transports: the abridged header counts words of four
-- bytes, in one byte below 127 or behind 0x7F in three; the intermediate one counts bytes.
pub data Packet : ℕ → Bytes → Type 0 where
  short :
      (words : ℕ) (body : Bytes)
      → 1 ≤ words
      → words < 127
      → length body ≡ words * 4
      → Packet proto_abridged (words ∷ body)
  long :
      (words : ℕ) (body : Bytes)
      → 1 ≤ words
      → words < 2 ^ 24
      → length body ≡ words * 4
      → Packet proto_abridged (0x7F ∷ (le 3 words ++ body))
  counted :
      (body : Bytes)
      → 1 ≤ length body
      → length body < 2 ^ 31
      → Packet proto_intermediate (le 4 (length body) ++ body)
  padded :
      (body : Bytes)
      → 1 ≤ length body
      → length body < 2 ^ 31
      → Packet proto_padded_intermediate (le 4 (length body) ++ body)

-- `cipher` cut at the ends of the packets.
abbrev pub pieces : List Bytes → Bytes → List Bytes
pieces [] cipher = []
pieces (p ∷ ps) cipher = take (length p) cipher ∷ pieces ps (drop (length p) cipher)

abbrev pub after : List Bytes → Bytes → Bytes
after [] cipher = cipher
after (p ∷ ps) cipher = after ps (drop (length p) cipher)
