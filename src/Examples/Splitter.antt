-- ===== src/Examples/Splitter.antt =====
-- Runs of the splitter, under the toy cipher.
use tg_ws_proxy_rust.Prelude.{◌≡◌, refl, false, [], ◌∷◌, ◌++◌, concat}
use tg_ws_proxy_rust.Prelude.Bytes.{Bytes}
use tg_ws_proxy_rust.Cipher.{update}
use tg_ws_proxy_rust.Splitter.{MsgSplitter, flush, proto_abridged}
use tg_ws_proxy_rust.Splitter.Conserve.{IsValid, split_all, split_all-flush}
use tg_ws_proxy_rust.Examples.Toy.{toy, toy-IsCtr}

-- The pad starts at zero.
abbrev fresh : MsgSplitter toy
fresh = record {
  dec = 0;
  proto = proto_abridged;
  cipher_buf = [];
  plain_buf = [];
  disabled = false;
}

fresh-IsValid : IsValid toy fresh
fresh-IsValid = record { in_step = refl; passes = λ e. cc }

-- A packet of one word and the first byte of another one, encrypted.
abbrev chunk : Bytes
chunk = (update toy 0 (1 ∷ 9 ∷ 9 ∷ 9 ∷ 9 ∷ 2 ∷ [])).0

split_all-flush_example :
    let (parts, s') = split_all toy fresh (chunk ∷ chunk ∷ []) in
    (concat (parts ++ (flush toy s').0) ≡ chunk ++ (chunk ++ []))
    × ((flush toy s').1.cipher_buf ≡ [])
split_all-flush_example = split_all-flush toy fresh (chunk ∷ chunk ∷ []) toy-IsCtr fresh-IsValid
