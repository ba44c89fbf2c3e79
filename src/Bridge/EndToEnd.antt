-- ===== src/Bridge/EndToEnd.antt =====
-- What Telegram decrypts is what the client encrypted.
use tg_ws_proxy_rust.Prelude.{◌≤◌, ◌≡◌, ap, ◌∙◌, false, List, [], ◌++◌, length, concat, All}
use tg_ws_proxy_rust.Prelude.Bytes.{Bytes}
use tg_ws_proxy_rust.Cipher.{Evp, IsCtr, update}
use tg_ws_proxy_rust.Cipher.Laws.{Same, update-update}
use tg_ws_proxy_rust.WebSocket.Session.Closed.{frames_of}
use tg_ws_proxy_rust.Bridge.{Up, reencrypt, tcp_to_ws}
use tg_ws_proxy_rust.Bridge.Upstream.{held, Fits, tcp_to_ws-Uploaded}

-- The client's stream goes on like `clt_dec` and Telegram's like `tg_enc`, the session is open and
-- the splitter, if there is one, is valid and holds nothing back. Then, however the client's bytes
-- are cut into chunks, `tcp_to_ws` writes binary frames and nothing else, and what Telegram decrypts
-- of their payloads in a row is what the client encrypted.
pub telegram_reads_client :
    (evp : Evp) (ctr : IsCtr evp) (mask_key plain : Bytes) (chunks : List Bytes) (s : Up evp)
    (client telegram : evp.Ctx)
    → s.ws.closed ≡ false
    → Fits evp ctr s.splitter
    → held evp ctr s.splitter ≡ []
    → Same evp ctr client s.clt_dec
    → Same evp ctr s.tg_enc telegram
    → All (λ (c : Bytes). 1 ≤ length c) chunks
    → concat chunks ≡ (update evp client plain).0
    → (parts : List Bytes) × ((tcp_to_ws evp mask_key chunks s).ws.output
        ≡ s.ws.output ++ frames_of mask_key parts)
      × ((update evp telegram (concat parts)).0 ≡ plain)
unfolding reencrypt
telegram_reads_client evp ctr mask_key plain chunks s client telegram open' fits empty same same' h
      e =
    let u = tcp_to_ws-Uploaded evp ctr mask_key chunks s open' fits h in
    let seen : (update evp s.clt_dec (concat chunks)).0 ≡ plain =
      ap (λ (t : Bytes). (update evp s.clt_dec t).0) e
      ∙ update-update evp ctr client s.clt_dec plain same in
    let carried : concat u.parts ≡ (update evp s.tg_enc plain).0 =
      u.carries
      ∙ ap (λ (t : Bytes). t ++ (reencrypt evp s.clt_dec s.tg_enc (concat chunks)).0) empty
      ∙ ap (λ (t : Bytes). (update evp s.tg_enc t).0) seen in
    (
      u.parts,
      u.output,
      ap (λ (t : Bytes). (update evp telegram t).0) carried
          ∙ update-update evp ctr s.tg_enc telegram plain same',
    )
