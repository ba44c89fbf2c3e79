-- ===== src/Cipher.antt =====
-- proxy/_aes.py: AES in counter mode. The block cipher is libcrypto's (or the `cryptography`
-- package's), an argument here; `IsCtr` states what counter mode documents of it. A key or an IV of
-- a wrong size raises ValueError; calls of libcrypto that fail for want of memory are left out.
pub mod Laws
use tg_ws_proxy_rust.Prelude.{
  ℕ, zero, suc, ◌+◌, ◌<◌, ◌≡◌, Bool, ◌||◌, ◌&&◌, Option, none, some, List, [], ◌∷◌, length,
  is_empty, ◌==◌, if◌then◌else◌,
}
use tg_ws_proxy_rust.Prelude.Bytes.{Bytes, xor_bytes}

-- EVP_EncryptInit_ex with an AES-CTR cipher, and EVP_EncryptUpdate.
pub record Evp : Type 1 where
  pub Ctx : Type 0
  pub init : Bytes → Bytes → Ctx
  pub encrypt : Ctx → Bytes → Bytes × Ctx

-- `n` octets of a pad from position `i` on.
abbrev pub pad_bytes : (ℕ → ℕ) → ℕ → ℕ → Bytes
pad_bytes pad i zero = []
pad_bytes pad i (suc n) = pad i ∷ pad_bytes pad (suc i) n

-- Counter mode (NIST SP 800-38A, 6.5): the output is the input xor a pad, which does not depend on
-- the input, and the next call goes on where this one ended.
pub record IsCtr (evp : Evp) : Type 0 where
  pub pad : evp.Ctx → ℕ → ℕ
  pub pad_octet : (c : evp.Ctx) (i : ℕ) → pad c i < 256
  pub output :
      (c : evp.Ctx) (xs : Bytes)
      → (evp.encrypt c xs).0 ≡ xor_bytes xs (pad_bytes (pad c) 0 (length xs))
  pub next : (c : evp.Ctx) (xs : Bytes) (i : ℕ) → pad (evp.encrypt c xs).1 i ≡ pad c (length xs + i)

module _ (evp : Evp) where
  open evp use {Ctx, init, encrypt}

  -- Cipher(algorithms.AES(key), modes.CTR(iv)).encryptor()
  unfoldable pub encryptor : Bytes → Bytes → Option Ctx
  encryptor key iv =
      if (length key == 16 || length key == 24 || length key == 32) && length iv == 16
      then some (init key iv)
      else none

  -- _CtrStream.update
  unfoldable pub update : Ctx → Bytes → Bytes × Ctx
  update c xs = if is_empty xs then ([], c) else encrypt c xs
