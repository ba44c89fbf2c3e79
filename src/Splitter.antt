-- ===== src/Splitter.antt =====
-- `MsgSplitter` of proxy/bridge.py, the Python class (the optional compiled one is absent): it cuts
-- the stream to Telegram into transport packets, so that each goes into a frame of its own.
pub mod Cut
pub mod Conserve
pub mod Packets
use tg_ws_proxy_rust.Prelude.{
  ℕ, zero, suc, ◌+◌, ◌-◌, ◌*◌, Bool, true, false, ◌||◌, Option, none, some, List, [], ◌∷◌, ◌++◌,
  length, take, drop, slice, get_or, replicate, is_empty, ltb, ◌==◌, bit_and, if◌then◌else◌,
}
use tg_ws_proxy_rust.Prelude.Bytes.{Bytes, from_le}
use tg_ws_proxy_rust.Cipher.{Evp, encryptor, update}

abbrev pub proto_abridged : ℕ
proto_abridged = 0xEFEFEFEF

abbrev pub proto_intermediate : ℕ
proto_intermediate = 0xEEEEEEEE

abbrev pub proto_padded_intermediate : ℕ
proto_padded_intermediate = 0xDDDDDDDD

abbrev pub zero_64 : Bytes
zero_64 = replicate 64 0

unfoldable pub next_abridged_len : Bytes → ℕ → ℕ → Option ℕ
next_abridged_len plain offset avail =
    let first = get_or plain offset 0 in
    let long = first == 0x7F || first == 0xFF in
    let payload_len =
      (if long then from_le (slice (offset + 1) (offset + 4) plain) else bit_and first 0x7F) * 4 in
    let header_len : ℕ = if long then 4 else 1 in
    if long
    then (if ltb avail 4
        then none
        else if payload_len == 0
        then some 0
        else if ltb avail (header_len + payload_len)
        then none
        else some (header_len + payload_len))
    else if payload_len == 0
    then some 0
    else if ltb avail (header_len + payload_len)
    then none
    else some (header_len + payload_len)

unfoldable pub next_intermediate_len : Bytes → ℕ → ℕ → Option ℕ
next_intermediate_len plain offset avail =
    let payload_len = bit_and (from_le (slice offset (offset + 4) plain)) 0x7FFFFFFF in
    if ltb avail 4
    then none
    else if payload_len == 0
    then some 0
    else if ltb avail (4 + payload_len)
    then none
    else some (4 + payload_len)

unfoldable pub next_packet_len : ℕ → Bytes → ℕ → ℕ → Option ℕ
unfolding next_abridged_len next_intermediate_len
next_packet_len proto plain offset avail =
    if avail == 0
    then none
    else if proto == proto_abridged
    then next_abridged_len plain offset avail
    else if proto == proto_intermediate || proto == proto_padded_intermediate
    then next_intermediate_len plain offset avail
    else some 0

-- What the loop of `split` has when it ends: the parts, the offset, and whether to give up.
pub record Loop : Type 0 where
  pub parts : List Bytes
  pub offset : ℕ
  pub gave_up : Bool

pub split_loop : ℕ → ℕ → Bytes → Bytes → ℕ → List Bytes → Loop
split_loop zero proto cipher plain offset parts = record {
  parts = parts;
  offset = offset;
  gave_up = false;
}
split_loop (suc fuel) proto cipher plain offset parts = elim (ltb offset (length cipher)) [
  | false ↦ record { parts = parts; offset = offset; gave_up = false }
  | true ↦ elim (next_packet_len proto plain offset (length cipher - offset)) [
    | none ↦ record { parts = parts; offset = offset; gave_up = false }
    | some zero ↦ record {
      parts = parts ++ (drop offset cipher ∷ []);
      offset = length cipher;
      gave_up = true;
    }
    | some (suc n) ↦
        split_loop fuel proto cipher plain (offset + suc n)
          (parts ++ (slice offset (offset + suc n) cipher ∷ []))
  ]
]

module _ (evp : Evp) where
  open evp use {Ctx}

  pub record MsgSplitter : Type 0 where
    pub dec : Ctx
    pub proto : ℕ
    pub cipher_buf : Bytes
    pub plain_buf : Bytes
    pub disabled : Bool

  -- MsgSplitter(relay_init, proto_int); `none` is the ValueError of the cipher.
  unfoldable pub new : Bytes → ℕ → Option MsgSplitter
  new relay_init proto_int = elim (encryptor evp (slice 8 40 relay_init) (slice 40 56 relay_init)) [
    | none ↦ none
    | some cipher ↦ some (record {
      dec = (update evp cipher zero_64).1;
      proto = proto_int;
      cipher_buf = [];
      plain_buf = [];
      disabled = false;
    })
  ]

  -- Each round of the loop takes a byte at least.
  pub split : MsgSplitter → Bytes → List Bytes × MsgSplitter
  unfolding split_loop
  split s chunk =
      if is_empty chunk
      then ([], s)
      else if s.disabled
      then (chunk ∷ [], s)
      else let cipher = s.cipher_buf ++ chunk in
        let (more, dec) = update evp s.dec chunk in
        let plain = s.plain_buf ++ more in
        let r = split_loop (length cipher) s.proto cipher plain 0 [] in
        (
          r.parts,
          record s {
            dec = dec;
            cipher_buf = drop r.offset cipher;
            plain_buf = drop r.offset plain;
            disabled = r.gave_up;
          },
        )

  unfoldable pub flush : MsgSplitter → List Bytes × MsgSplitter
  flush s =
      if is_empty s.cipher_buf
      then ([], s)
      else (s.cipher_buf ∷ [], record s { cipher_buf = []; plain_buf = [] })
