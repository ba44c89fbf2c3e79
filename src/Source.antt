-- ===== src/Source.antt =====
-- An `asyncio.StreamReader`: the bytes to come before the end of file, and how many of them each
-- `read` finds. The sizes are the network's choice; a theorem about all of them holds for every
-- way in which the bytes may arrive.
use tg_ws_proxy_rust.Prelude.{
  ℕ, zero, suc, ◌≤◌, ◌≡◌, ap, ◌∙◌, [], ◌∷◌, ◌++◌, List, Option, none, some, length, take, drop, min,
  max, arith, take-append_le, drop-append_le,
}
use tg_ws_proxy_rust.Prelude.Bytes.{Bytes}
use tg_ws_proxy_rust.Reader

pub record Source : Type 0 where
  pub pending : Bytes
  pub sizes : List ℕ

-- A read is never empty before the end of file; with no size left it takes all that was asked for.
abbrev granted : ℕ → List ℕ → ℕ
granted n [] = n
granted zero (k ∷ ks) = 0
granted (suc n) (k ∷ ks) = max 1 (min k (suc n))

abbrev rest_sizes : List ℕ → List ℕ
rest_sizes [] = []
rest_sizes (k ∷ ks) = ks

-- reader.read(n)
unfoldable pub read : ℕ → Source → Bytes × Source
read n s =
    let k = granted n s.sizes in
    (take k s.pending, record { pending = drop k s.pending; sizes = rest_sizes s.sizes })

-- reader.readexactly(n); a short read raises, and has taken what there was.
unfoldable pub readexactly : ℕ → Source → Option Bytes × Source
readexactly n s = elim (Reader.readexactly n s.pending) [
  | none ↦ (none, record s { pending = [] })
  | some (xs, rest) ↦ (some xs, record s { pending = rest })
]

granted_bounds : (n : ℕ) (ks : List ℕ) → (granted (suc n) ks ≤ suc n) × (1 ≤ granted (suc n) ks)
granted_bounds n [] = omega arith
granted_bounds n (k ∷ ks) = omega arith

-- What a `read` of at most `n` bytes finds where the next `n` bytes are `xs`: a part of `xs` that
-- is not empty.
pub record Part (n : ℕ) (xs rest : Bytes) (s : Source) : Type 0 where
  pub size : ℕ
  pub size_le : size ≤ n
  pub size_pos : 1 ≤ size
  pub taken : (read n s).0 ≡ take size xs
  pub left : (read n s).1.pending ≡ drop size xs ++ rest

pub read-Part :
    (n : ℕ) (xs rest : Bytes) (s : Source)
    → s.pending ≡ xs ++ rest
    → length xs ≡ n
    → 1 ≤ n
    → Part n xs rest s
unfolding read
read-Part zero xs rest s hp hl h1 = absurd (omega arith)
read-Part (suc n) xs rest s hp hl h1 =
    let k = granted (suc n) s.sizes in
    let b = granted_bounds n s.sizes in
    record {
      size = k;
      size_le = b.0;
      size_pos = b.1;
      taken = rw hp (take-append_le k xs rest (omega arith));
      left = rw hp (drop-append_le k xs rest (omega arith));
    }

pub readexactly-pending :
    (n : ℕ) (xs rest : Bytes) (s : Source)
    → s.pending ≡ xs ++ rest
    → length xs ≡ n
    → readexactly n s ≡ (some xs, record s { pending = rest })
unfolding readexactly
readexactly-pending n xs rest s hp hl =
    let e : Reader.readexactly n s.pending ≡ some (xs, rest) =
      ap (λ (t : Bytes). Reader.readexactly n t) hp ∙ Reader.readexactly-append n xs rest hl in
    cc e
