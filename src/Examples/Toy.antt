-- ===== src/Examples/Toy.antt =====
-- A stream cipher for the runs: the pad counts up from a number that the key and the IV give.
use tg_ws_proxy_rust.Prelude.{
  ℕ, ◌+◌, ◌%◌, ◌≡◌, refl, ap, arith, length, get_or, all, All, ltb, true, [], ◌∷◌,
}
use tg_ws_proxy_rust.Prelude.Bytes.{Bytes, IsByte, xor_bytes}
use tg_ws_proxy_rust.Cipher.{Evp, IsCtr, pad_bytes}

abbrev pub toy_pad : ℕ → ℕ → ℕ
toy_pad c i = (c + i) % 256

abbrev pub toy : Evp
toy = record {
  Ctx = ℕ;
  init = λ key iv. get_or key 0 0 + get_or iv 15 0;
  encrypt = λ c xs. (xor_bytes xs (pad_bytes (toy_pad c) 0 (length xs)), c + length xs);
}

pub toy-IsCtr : IsCtr toy
toy-IsCtr = record {
  pad = toy_pad;
  pad_octet = λ c i. omega arith;
  output = λ c xs. refl;
  next = λ c xs i.
      let e : c + length xs + i ≡ c + (length xs + i) = omega arith in ap (λ n. n % 256) e;
}

pub ok_bytes : (xs : Bytes) → all (λ b. ltb b 256) xs ≡ true → All IsByte xs
ok_bytes [] h = tt
ok_bytes (x ∷ xs) h = (ground arith, ok_bytes xs (ground arith))
