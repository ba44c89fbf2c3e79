-- ===== src/Handshake/Context.antt =====
-- The four streams that a session starts with.
use tg_ws_proxy_rust.Prelude.{
  ℕ, ◌≡◌, refl, sym, ap, ◌∙◌, false, some, [], ◌∷◌, ◌++◌, reverse, length, take, drop, slice, arith,
  length-take, length-drop, length-append, append-nil, append_assoc, take-append-drop, take-append,
  drop-append,
}
use tg_ws_proxy_rust.Prelude.Bytes.{Bytes}
use tg_ws_proxy_rust.Cipher.{Evp, IsCtr, encryptor, update}
use tg_ws_proxy_rust.Cipher.Laws.{Same, update-Same}
use tg_ws_proxy_rust.Splitter.{MsgSplitter, new, zero_64}
use tg_ws_proxy_rust.Handshake.{CryptoCtx, build_crypto_ctx}

length-reverse : (xs : Bytes) → length (reverse xs) ≡ length xs
length-reverse [] = refl
length-reverse (x ∷ xs) = omega (arith, length-append (reverse xs) (x ∷ []), length-reverse xs)

reverse-append : (xs ys : Bytes) → reverse (xs ++ ys) ≡ reverse ys ++ reverse xs
reverse-append [] ys = sym (append-nil (reverse ys))
reverse-append (x ∷ xs) ys =
    ap (λ (t : Bytes). t ++ (x ∷ [])) (reverse-append xs ys)
    ∙ append_assoc (reverse ys) (reverse xs) (x ∷ [])

-- Of 48 bytes backwards the first 32 are the last 32, and the others the first 16.
parts_back :
    (xs : Bytes)
    → length xs ≡ 48
    → (take 32 (reverse xs) ≡ reverse (drop 16 xs)) × (drop 32 (reverse xs) ≡ reverse (take 16 xs))
parts_back xs h =
    let back : reverse xs ≡ reverse (drop 16 xs) ++ reverse (take 16 xs) =
      ap reverse (sym (take-append-drop 16 xs)) ∙ reverse-append (take 16 xs) (drop 16 xs) in
    let len : length (reverse (drop 16 xs)) ≡ 32 =
      length-reverse (drop 16 xs) ∙ omega (arith, length-drop 16 xs, h) in
    (
      ap (λ (t : Bytes). take 32 t) back
          ∙ take-append 32 (reverse (drop 16 xs)) (reverse (take 16 xs)) len,
      ap (λ (t : Bytes). drop 32 t) back
          ∙ drop-append 32 (reverse (drop 16 xs)) (reverse (take 16 xs)) len,
    )

module _ (evp : Evp) where
  encryptor-some :
      (key iv : Bytes)
      → length key ≡ 32
      → length iv ≡ 16
      → encryptor evp key iv ≡ some (evp.init key iv)
  unfolding encryptor
  encryptor-some key iv k i = rw (k, i) refl

  module _ (ctr : IsCtr evp) (sha256 : Bytes → Bytes)
      (digest : (m : Bytes) → length (sha256 m) ≡ 32) where
    -- Of a context: what the client encrypts after its init the proxy decrypts, and what the proxy
    -- encrypts after the relay's init Telegram decrypts, with the splitter's stream in step. The
    -- other way the streams start with the bytes of the inits from 55 down to 8: the key is the
    -- bytes from 55 to 24, with the secret for the client, and the IV those from 23 to 8.
    pub record InStep (prekey_iv secret handshake relay_init : Bytes) (proto : ℕ)
        (x : CryptoCtx evp sha256) : Type 0 where
      pub client :
          Same evp ctr
            (update evp
              (evp.init (sha256 (take 32 prekey_iv ++ secret)) (drop 32 prekey_iv))
              handshake).1
            x.clt_dec
      pub client_back :
          x.clt_enc
          ≡ evp.init (sha256 (reverse (drop 16 prekey_iv) ++ secret)) (reverse (take 16 prekey_iv))
      pub telegram_back :
          x.tg_dec
          ≡ evp.init
              (reverse (drop 16 (slice 8 56 relay_init)))
              (reverse (take 16 (slice 8 56 relay_init)))
      pub telegram :
          Same evp ctr x.tg_enc
            (update evp (evp.init (slice 8 40 relay_init) (slice 40 56 relay_init)) relay_init).1
      pub splitter : MsgSplitter evp
      pub made : new evp relay_init proto ≡ some splitter
      pub seen : Same evp ctr x.tg_enc splitter.dec
      pub empty : splitter.cipher_buf ≡ []

    -- With a digest of 32 bytes, a prekey and IV of 48 bytes and inits of 64 bytes
    -- `_build_crypto_ctx` and the constructor of the splitter raise nothing. The stream from the
    -- client goes on like the client's own after its init, and the one to Telegram like Telegram's
    -- after the relay's. The streams to the client and from Telegram are those of the reversed
    -- prekey and IV, with the key from the last 32 bytes, for the client hashed with the secret, and
    -- the IV from the first 16. The splitter starts empty, on the stream that its input is encrypted with.
    pub build_crypto_ctx-InStep :
        (prekey_iv secret handshake relay_init : Bytes) (proto : ℕ)
        → length prekey_iv ≡ 48
        → length handshake ≡ 64
        → length relay_init ≡ 64
        → (x : CryptoCtx evp sha256) × (build_crypto_ctx evp sha256 prekey_iv secret relay_init
            ≡ some x)
          × InStep prekey_iv secret handshake relay_init proto x
    unfolding build_crypto_ctx new
    build_crypto_ctx-InStep prekey_iv secret handshake relay_init proto hp hh hr =
        let back = reverse prekey_iv in
        let relay_back = reverse (slice 8 56 relay_init) in
        let zeros : length zero_64 ≡ 64 = refl in
        let lb = length-reverse prekey_iv in
        let lr : length relay_back ≡ 48 =
          length-reverse (slice 8 56 relay_init)
          ∙ omega (arith, length-take 48 (drop 8 relay_init), length-drop 8 relay_init, hr) in
        let clt_dec =
          encryptor-some (sha256 (take 32 prekey_iv ++ secret)) (drop 32 prekey_iv)
            (digest (take 32 prekey_iv ++ secret)) (omega (arith, length-drop 32 prekey_iv, hp)) in
        let clt_enc =
          encryptor-some (sha256 (take 32 back ++ secret)) (drop 32 back)
            (digest (take 32 back ++ secret)) (omega (arith, length-drop 32 back, lb, hp)) in
        let tg_enc =
          encryptor-some (slice 8 40 relay_init) (slice 40 56 relay_init)
            (omega (arith, length-take 32 (drop 8 relay_init), length-drop 8 relay_init, hr))
            (omega (arith, length-take 16 (drop 40 relay_init), length-drop 40 relay_init, hr)) in
        let tg_dec =
          encryptor-some (take 32 relay_back) (drop 32 relay_back)
            (omega (arith, length-take 32 relay_back, lr))
            (omega (arith, length-drop 32 relay_back, lr)) in
        let body : length (slice 8 56 relay_init) ≡ 48 =
          omega (arith, length-take 48 (drop 8 relay_init), length-drop 8 relay_init, hr) in
        let pc = parts_back prekey_iv hp in
        let pt = parts_back (slice 8 56 relay_init) body in
        let tg = evp.init (slice 8 40 relay_init) (slice 40 56 relay_init) in
        let clt = evp.init (sha256 (take 32 prekey_iv ++ secret)) (drop 32 prekey_iv) in
        (
          record {
            clt_dec = (update evp clt zero_64).1;
            clt_enc = evp.init (sha256 (take 32 back ++ secret)) (drop 32 back);
            tg_enc = (update evp tg zero_64).1;
            tg_dec = evp.init (take 32 relay_back) (drop 32 relay_back);
          },
          rw (clt_dec, clt_enc, tg_enc, tg_dec, build_crypto_ctx) refl,
          record {
            client = update-Same evp ctr clt clt handshake zero_64 (λ i. refl) (hh ∙ sym zeros);
            client_back =
                ap (λ (k : Bytes). evp.init (sha256 (k ++ secret)) (drop 32 back)) pc.0
                ∙ ap (evp.init (sha256 (reverse (drop 16 prekey_iv) ++ secret))) pc.1;
            telegram_back =
                ap (λ (k : Bytes). evp.init k (drop 32 relay_back)) pt.0
                ∙ ap (evp.init (reverse (drop 16 (slice 8 56 relay_init)))) pt.1;
            telegram = update-Same evp ctr tg tg zero_64 relay_init (λ i. refl) (zeros ∙ sym hr);
            splitter = record {
              dec = (update evp tg zero_64).1;
              proto = proto;
              cipher_buf = [];
              plain_buf = [];
              disabled = false;
            };
            made = rw (tg_enc, new) refl;
            seen = λ i. refl;
            empty = refl;
          },
        )
