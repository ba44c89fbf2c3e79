-- ===== src/Lib.antt =====
-- A model of tg-ws-proxy, a local MTProto proxy that carries Telegram's traffic over WebSockets.
--
-- A client's TCP stream starts with 64 bytes of the obfuscated2 protocol, on its own or inside
-- fake TLS records. The proxy reads the data centre and the protocol from them, opens a WebSocket
-- session (from a pool, by an attempt on each domain, or by a fallback), sends an init of its own,
-- and then decrypts, re-encrypts and forwards both directions; upward it puts each transport packet
-- into a frame of its own.
--
-- Prelude           lists, Boolean tests, bit operations, byte strings, texts, hexadecimal digits
-- Reader, Source    asyncio.StreamReader: readexactly as a parser of what is to come, and reads of
--                   any sizes as a list of the network's choices
-- WebSocket         proxy/raw_websocket.py. Mask: _xor_mask. Frame: _build_frame, _read_frame.
--                   Session: RawWebSocket.send, send_batch, recv, close. Connect: the request and
--                   the answer in RawWebSocket.connect
-- FakeTls           proxy/fake_tls.py. Record: wrap_tls_record, FakeTlsStream. Hello:
--                   verify_client_hello, build_server_hello
-- Cipher            proxy/_aes.py: Cipher(...).encryptor() and _CtrStream.update
-- Splitter          proxy/bridge.py, MsgSplitter
-- Handshake         proxy/tg_ws_proxy.py, _try_handshake, _generate_relay_init, _build_crypto_ctx
-- ClientInit        proxy/tg_ws_proxy.py, _read_client_init
-- Bridge            proxy/bridge.py, bridge_ws_reencrypt and _bridge_tcp_reencrypt
-- Pool              proxy/pool.py, _BasePool. Bound: its refill tasks turn by turn
-- Route             the attempts in _handle_client (proxy/tg_ws_proxy.py), do_fallback
--                   (proxy/bridge.py), ws_domains (proxy/utils.py)
-- Balancer          proxy/balancer.py, _Balancer
-- Config            proxy/config.py. Domains: coerce_domain_list, _is_valid_domain,
--                   _normalize_domain_pool. Decode: _dd, _fetch_cfproxy_domain_list. Refresh:
--                   refresh_cfproxy_domains and its task. DcIp: parse_dc_ip_list. Options: main
--                   of proxy/tg_ws_proxy.py, from the options to ProxyConfig
-- Server            proxy/tg_ws_proxy.py. World: the state that sessions share. Fallback: do_fallback
--                   (proxy/bridge.py) on it. Handler: _handle_client. Start and Shutdown: _run
-- Stats             proxy/stats.py, _Stats
-- Versions, Update  utils/update_check.py: _version_gt; run_check with its cache, get_update_asset
-- Tray              utils/tray_common.py, acquire_lock and release_lock. Lifecycle: start_proxy,
--                   stop_proxy and the thread. Settings: load_config and
--                   apply_proxy_config, with utils/default_config.py
-- Examples          a run of each theorem that has hypotheses
--
-- Bytes are lists of numbers below 256. The AES block cipher is an argument (Cipher.Evp), with what
-- counter mode documents as a hypothesis (Cipher.IsCtr); SHA-256, HMAC, the clock, os.urandom and
-- the outcomes of connection attempts are arguments too. Reads of the network come in any sizes.
-- Loops that read run on fuel: one round more than there are bytes to come, since each round takes
-- at least one; split_loop runs on the length of its buffer for the same reason. The orders of
-- connections, refills and the shutdown are step relations (Pool.Bound, Server.Shutdown, Tray.Lifecycle), and a whole
-- session is a function of the proxy's state and of what the network, the clock and the random source
-- answer it (Server.Handler); sessions run one after the other there. str.isalnum, str.isalpha,
-- str.lower, int and inet_aton are arguments, with what a theorem asks of them as its hypotheses.
--
-- Not modelled: the interleaving of a session's two directions and its shutdown, a PROXY line before
-- the client's stream, the relay to the masking domain, the listening socket, the warm-up of the
-- pools, the parser of the command line, the download of releases, and the desktop programs, which are
-- user interface and glue to the operating system; nor timeouts of reads, logs, drain and the optional
-- compiled routines.
pub mod Prelude
pub mod WebSocket
pub mod Reader
pub mod Source
pub mod FakeTls
pub mod Cipher
pub mod Config
pub mod Server
pub mod Splitter
pub mod Handshake
pub mod Bridge
pub mod ClientInit
pub mod Pool
pub mod Route
pub mod Versions
pub mod Update
pub mod Tray
pub mod Balancer
pub mod Stats
pub mod Examples
