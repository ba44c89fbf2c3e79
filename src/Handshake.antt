-- ===== src/Handshake.antt =====
-- `_try_handshake`, `_generate_relay_init` and `_build_crypto_ctx` of proxy/tg_ws_proxy.py, and
-- `CryptoCtx` of proxy/bridge.py. SHA-256 and AES-CTR are arguments; `none` is a ValueError of the
-- cipher or a struct.error.
pub mod Relay
pub mod Context
use tg_ws_proxy_rust.Prelude.{
  ℕ, zero, suc, ◌-◌, Bool, true, false, ◌||◌, Option, none, some, List, [], ◌∷◌, ◌++◌, take, drop,
  slice, get_or, reverse, ltb, ◌==◌, if◌then◌else◌,
}
use tg_ws_proxy_rust.Prelude.Bytes.{Bytes, be, le, from_be, from_le, xor_bytes, bytes_eq, bytes_in}
use tg_ws_proxy_rust.Prelude.Int.{ℤ, pos, negsuc, abs, is_negative, neg}
use tg_ws_proxy_rust.Cipher.{Evp, encryptor, update}
use tg_ws_proxy_rust.Splitter.{zero_64}

-- A 16-bit pattern as a signed number (`signed=True`), and struct.pack('<h', n).
unfoldable pub signed_16 : ℕ → ℤ
signed_16 w = if ltb w 32768 then pos w else negsuc (65535 - w)

unfoldable pub pack_h : ℤ → Option Bytes
pack_h (pos n) = if ltb n 32768 then some (le 2 n) else none
pack_h (negsuc n) = if ltb n 32768 then some (le 2 (65535 - n)) else none

abbrev pub tag_abridged : Bytes
tag_abridged = 0xEF ∷ 0xEF ∷ 0xEF ∷ 0xEF ∷ []

abbrev pub tag_intermediate : Bytes
tag_intermediate = 0xEE ∷ 0xEE ∷ 0xEE ∷ 0xEE ∷ []

abbrev pub tag_secure : Bytes
tag_secure = 0xDD ∷ 0xDD ∷ 0xDD ∷ 0xDD ∷ []

abbrev pub reserved_starts : List Bytes
reserved_starts =
    (0x48 ∷ 0x45 ∷ 0x41 ∷ 0x44 ∷ [])
    ∷ (0x50 ∷ 0x4F ∷ 0x53 ∷ 0x54 ∷ [])
    ∷ (0x47 ∷ 0x45 ∷ 0x54 ∷ 0x20 ∷ [])
    ∷ tag_intermediate
    ∷ tag_secure
    ∷ (0x16 ∷ 0x03 ∷ 0x01 ∷ 0x02 ∷ [])
    ∷ []

pub record Hello : Type 0 where
  pub dc_id : ℕ
  pub is_media : Bool
  pub proto_tag : Bytes
  pub prekey_and_iv : Bytes

-- What `_handle_client` hands to `_generate_relay_init`.
abbrev pub dc_idx : Hello → ℤ
dc_idx h = if h.is_media then neg h.dc_id else pos h.dc_id

pub data Tried : Type 0 where
  accepted : Hello → Tried
  rejected value_error : Tried

-- The three `continue`s of the loop that draws the relay's init.
abbrev pub is_reserved : Bytes → Bool
is_reserved rnd =
    (get_or rnd 0 0 == 0xEF)
    || bytes_in (take 4 rnd) reserved_starts
    || bytes_eq (slice 4 8 rnd) (0 ∷ 0 ∷ 0 ∷ 0 ∷ [])

-- What os.urandom(64) yields, round after round; `none` if all of these are refused.
unfoldable pub draw : List Bytes → Option Bytes
draw [] = none
draw (rnd ∷ draws) = let again = draw draws in if is_reserved rnd then again else some rnd

module _ (evp : Evp) where
  open evp use {Ctx}

  -- The bytes that take the place of the last eight.
  unfoldable pub seal : Ctx → Bytes → Bytes → Bytes
  seal encryptor rnd tail_plain =
      let encrypted_full = (update evp encryptor rnd).0 in
      let keystream_tail = xor_bytes (slice 56 64 encrypted_full) (slice 56 64 rnd) in
      take 56 rnd ++ xor_bytes (take 8 tail_plain) keystream_tail

  -- `salt` is the last os.urandom(2).
  unfoldable pub generate_relay_init : List Bytes → Bytes → Bytes → ℤ → Option Bytes
  generate_relay_init draws salt proto_tag dc_idx = elim (draw draws) [
    | none ↦ none
    | some rnd ↦ elim (encryptor evp (slice 8 40 rnd) (slice 40 56 rnd)) [
      | none ↦ none
      | some c ↦ elim (pack_h dc_idx) [
        | none ↦ none
        | some dc_bytes ↦ some (seal c rnd (proto_tag ++ (dc_bytes ++ salt)))
      ]
    ]
  ]

module _ (evp : Evp) (sha256 : Bytes → Bytes) where
  open evp use {Ctx}

  unfoldable pub read_hello : Bytes → Bytes → Tried
  read_hello decrypted prekey_and_iv =
      let proto_tag = slice 56 60 decrypted in
      let dc_idx = signed_16 (from_le (slice 60 62 decrypted)) in
      if bytes_in proto_tag (tag_abridged ∷ tag_intermediate ∷ tag_secure ∷ [])
      then accepted (record {
        dc_id = abs dc_idx;
        is_media = is_negative dc_idx;
        proto_tag = proto_tag;
        prekey_and_iv = prekey_and_iv;
      })
      else rejected

  unfoldable pub try_handshake : Bytes → Bytes → Tried
  unfolding read_hello
  try_handshake handshake secret =
      let prekey_and_iv = slice 8 56 handshake in
      let dec_key = sha256 (take 32 prekey_and_iv ++ secret) in
      let dec_iv = be 16 (from_be (drop 32 prekey_and_iv)) in
      elim (encryptor evp dec_key dec_iv) [
        | none ↦ value_error
        | some decryptor ↦ read_hello (update evp decryptor handshake).0 prekey_and_iv
      ]

  pub record CryptoCtx : Type 0 where
    pub clt_dec : Ctx
    pub clt_enc : Ctx
    pub tg_enc : Ctx
    pub tg_dec : Ctx

  unfoldable pub build_crypto_ctx : Bytes → Bytes → Bytes → Option CryptoCtx
  build_crypto_ctx client_dec_prekey_iv secret relay_init =
      let clt_enc_prekey_iv = reverse client_dec_prekey_iv in
      let relay_dec_prekey_iv = reverse (slice 8 56 relay_init) in
      elim (encryptor evp (sha256 (take 32 client_dec_prekey_iv ++ secret))
        (drop 32 client_dec_prekey_iv)) [
          | none ↦ none
          | some clt_decryptor ↦
              elim (encryptor evp (sha256 (take 32 clt_enc_prekey_iv ++ secret))
                (drop 32 clt_enc_prekey_iv)) [
                  | none ↦ none
                  | some clt_encryptor ↦
                      elim (encryptor evp (slice 8 40 relay_init) (slice 40 56 relay_init)) [
                        | none ↦ none
                        | some tg_encryptor ↦
                            elim (encryptor evp (take 32 relay_dec_prekey_iv)
                              (drop 32 relay_dec_prekey_iv)) [
                                | none ↦ none
                                | some tg_decryptor ↦ some (record {
                                  clt_dec = (update evp clt_decryptor zero_64).1;
                                  clt_enc = clt_encryptor;
                                  tg_enc = (update evp tg_encryptor zero_64).1;
                                  tg_dec = tg_decryptor;
                                })
                              ]
                      ]
                ]
        ]
