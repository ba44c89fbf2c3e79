-- ===== src/FakeTls.antt =====
-- proxy/fake_tls.py: TLS records around the data, and the hellos that carry the secret's digests.
pub mod Record
pub mod Hello
