-- ===== src/Examples/Handshake.antt =====
-- Runs of the handshake, under the toy cipher and a digest that is always the same.
use tg_ws_proxy_rust.Prelude.{◌≡◌, refl, true, some, List, [], ◌∷◌, ◌++◌, replicate}
use tg_ws_proxy_rust.Prelude.Bytes.{Bytes, xor_bytes}
use tg_ws_proxy_rust.Cipher.{pad_bytes, update, encryptor}
use tg_ws_proxy_rust.Splitter.{proto_abridged}
use tg_ws_proxy_rust.Handshake.{
  Hello, accepted, dc_idx, tag_abridged, draw, signed_16, generate_relay_init, read_hello,
  try_handshake, CryptoCtx, build_crypto_ctx,
}
use tg_ws_proxy_rust.Handshake.Relay.{Announces, relay_init-Announces}
use tg_ws_proxy_rust.Handshake.Context.{InStep, build_crypto_ctx-InStep}
use tg_ws_proxy_rust.Examples.Toy.{toy, toy_pad, toy-IsCtr, ok_bytes}

abbrev pub digest : Bytes → Bytes
digest m = replicate 32 7

-- The init of a client that asks for data centre 2, for media, in the abridged protocol.
abbrev pub client_init : Bytes
client_init =
    replicate 56 0
    ++ xor_bytes (tag_abridged ++ (0xFE ∷ 0xFF ∷ 0 ∷ 0 ∷ [])) (pad_bytes (toy_pad 7) 56 8)

abbrev pub client_hello : Hello
client_hello = record {
  dc_id = 2;
  is_media = true;
  proto_tag = tag_abridged;
  prekey_and_iv = replicate 48 0;
}

pub is_accepted : try_handshake toy digest client_init [] ≡ accepted client_hello
unfolding try_handshake read_hello encryptor update signed_16
is_accepted = refl

-- The first draw starts with a reserved byte.
abbrev pub draws : List Bytes
draws = replicate 64 0xEF ∷ replicate 64 1 ∷ []

drawn : draw draws ≡ some (replicate 64 1)
unfolding draw
drawn = refl

relay_init-Announces_example :
    (init : Bytes) × (generate_relay_init toy draws (5 ∷ 6 ∷ []) tag_abridged (dc_idx client_hello)
      ≡ some init)
    × Announces toy toy-IsCtr init tag_abridged (5 ∷ 6 ∷ []) (dc_idx client_hello)
relay_init-Announces_example =
    relay_init-Announces toy digest client_init [] (5 ∷ 6 ∷ []) (replicate 64 1) draws client_hello
      toy-IsCtr refl (ok_bytes client_init refl) is_accepted (refl, (refl, tt)) drawn refl

build_crypto_ctx-InStep_example :
    (x : CryptoCtx toy digest) × (build_crypto_ctx toy digest (replicate 48 3) [] (replicate 64 4)
      ≡ some x)
    × InStep toy toy-IsCtr digest
        (λ m. refl)
        (replicate 48 3)
        []
        client_init
        (replicate 64 4)
        proto_abridged
        x
build_crypto_ctx-InStep_example =
    build_crypto_ctx-InStep toy toy-IsCtr digest (λ m. refl) (replicate 48 3) [] client_init
      (replicate 64 4) proto_abridged refl refl refl
