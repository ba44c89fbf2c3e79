-- ===== src/Config.antt =====
-- proxy/config.py: the domain lists, their refresh, and the `--dc-ip` entries. Texts are lists of
-- code points. The Unicode tables behind `str.isalnum`, `str.isalpha` and `str.lower` are arguments.
pub mod Domains
pub mod Decode
pub mod Refresh
pub mod DcIp
pub mod Options
