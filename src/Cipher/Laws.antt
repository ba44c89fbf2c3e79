-- ===== src/Cipher/Laws.antt =====
-- Two streams with one pad undo each other, in any pieces.
use tg_ws_proxy_rust.Prelude.{
  ℕ, zero, suc, ◌+◌, ◌<◌, ◌≡◌, refl, sym, ap, ap₂, ◌∙◌, [], ◌∷◌, ◌++◌, length, arith, All, bit_xor,
  length-append,
}
use tg_ws_proxy_rust.Prelude.Bytes.{
  Bytes, IsByte, xor_bytes, xor_bytes_cancel, length-xor_bytes, xor_bytes-IsByte,
}
use tg_ws_proxy_rust.Cipher.{Evp, IsCtr, pad_bytes, update}

pub length-pad_bytes : (pad : ℕ → ℕ) (i n : ℕ) → length (pad_bytes pad i n) ≡ n
length-pad_bytes pad i zero = refl
length-pad_bytes pad i (suc n) = ap suc (length-pad_bytes pad (suc i) n)

pad_bytes_same : (p q : ℕ → ℕ) (i n : ℕ) → ((j : ℕ) → p j ≡ q j) → pad_bytes p i n ≡ pad_bytes q i n
pad_bytes_same p q i zero h = refl
pad_bytes_same p q i (suc n) h = ap₂ ◌∷◌ (h i) (pad_bytes_same p q (suc i) n h)

pad_bytes_shift :
    (p q : ℕ → ℕ) (i k n : ℕ)
    → ((j : ℕ) → p j ≡ q (k + j))
    → pad_bytes p i n ≡ pad_bytes q (k + i) n
pad_bytes_shift p q i k zero h = refl
pad_bytes_shift p q i k (suc n) h =
    let e : k + suc i ≡ suc (k + i) = omega arith in
    ap₂ ◌∷◌ (h i) (pad_bytes_shift p q (suc i) k n h ∙ ap (λ j. pad_bytes q j n) e)

pad_bytes-IsByte : (p : ℕ → ℕ) (i n : ℕ) → ((j : ℕ) → p j < 256) → All IsByte (pad_bytes p i n)
pad_bytes-IsByte p i zero h = tt
pad_bytes-IsByte p i (suc n) h = (h i, pad_bytes-IsByte p (suc i) n h)

xor_pad-append :
    (p : ℕ → ℕ) (i : ℕ) (xs ys : Bytes)
    → xor_bytes (xs ++ ys) (pad_bytes p i (length (xs ++ ys)))
      ≡ xor_bytes xs (pad_bytes p i (length xs))
        ++ xor_bytes ys (pad_bytes p (length xs + i) (length ys))
xor_pad-append p i [] ys =
    let e : i ≡ 0 + i = omega arith in ap (λ j. xor_bytes ys (pad_bytes p j (length ys))) e
xor_pad-append p i (x ∷ xs) ys =
    let e : length xs + suc i ≡ suc (length xs) + i = omega arith in
    ap (◌∷◌ (bit_xor x (p i))) (
      xor_pad-append p (suc i) xs ys
      ∙ ap
          (λ j.
            xor_bytes xs (pad_bytes p (suc i) (length xs))
            ++ xor_bytes ys (pad_bytes p j (length ys)))
          e)

module _ (evp : Evp) (ctr : IsCtr evp) where
  open evp use {Ctx}
  open ctr use {pad}

  -- The two streams will go on alike.
  abbrev pub Same : Ctx → Ctx → Type 0
  Same c d = (i : ℕ) → pad c i ≡ pad d i

  pub update-output :
      (c : Ctx) (xs : Bytes) → (update evp c xs).0 ≡ xor_bytes xs (pad_bytes (pad c) 0 (length xs))
  unfolding update
  update-output c [] = refl
  update-output c (x ∷ xs) = ctr.output c (x ∷ xs)

  pub update-next :
      (c : Ctx) (xs : Bytes) (i : ℕ) → pad (update evp c xs).1 i ≡ pad c (length xs + i)
  unfolding update
  update-next c [] i = let e : i ≡ 0 + i = omega arith in ap (λ j. pad c j) e
  update-next c (x ∷ xs) i = ctr.next c (x ∷ xs) i

  pub length-update : (c : Ctx) (xs : Bytes) → length (update evp c xs).0 ≡ length xs
  length-update c xs =
      ap length (update-output c xs)
      ∙ length-xor_bytes xs (pad_bytes (pad c) 0 (length xs))
          (sym (length-pad_bytes (pad c) 0 (length xs)))

  pub update-IsByte : (c : Ctx) (xs : Bytes) → All IsByte xs → All IsByte (update evp c xs).0
  update-IsByte c xs h = rw (update-output c xs) (
      xor_bytes-IsByte xs (pad_bytes (pad c) 0 (length xs)) h
        (pad_bytes-IsByte (pad c) 0 (length xs) (ctr.pad_octet c)))

  -- After inputs of one length the streams still go on alike.
  pub update-Same :
      (c d : Ctx) (xs ys : Bytes)
      → Same c d
      → length xs ≡ length ys
      → Same (update evp c xs).1 (update evp d ys).1
  update-Same c d xs ys h e i =
      update-next c xs i ∙ h (length xs + i) ∙ ap (λ n. pad d (n + i)) e ∙ sym (update-next d ys i)

  -- Decryption is encryption by a stream that goes on alike.
  pub update-update :
      (c d : Ctx) (xs : Bytes) → Same c d → (update evp d (update evp c xs).0).0 ≡ xs
  update-update c d xs h =
      let ks = pad_bytes (pad c) 0 (length xs) in
      let len : length xs ≡ length ks = sym (length-pad_bytes (pad c) 0 (length xs)) in
      let same : pad_bytes (pad d) 0 (length (update evp c xs).0) ≡ ks =
        ap (λ n. pad_bytes (pad d) 0 n) (length-update c xs)
        ∙ pad_bytes_same (pad d) (pad c) 0 (length xs) (λ j. sym (h j)) in
      update-output d (update evp c xs).0
      ∙ ap₂ xor_bytes (update-output c xs) same
      ∙ xor_bytes_cancel xs ks len

  -- One call on two pieces is two calls.
  pub update-append :
      (c : Ctx) (xs ys : Bytes)
      → ((update evp c (xs ++ ys)).0 ≡ (update evp c xs).0 ++ (update evp (update evp c xs).1 ys).0)
        × Same (update evp c (xs ++ ys)).1 (update evp (update evp c xs).1 ys).1
  update-append c xs ys =
      let c' = (update evp c xs).1 in
      let later : pad_bytes (pad c') 0 (length ys) ≡ pad_bytes (pad c) (length xs + 0) (length ys) =
        pad_bytes_shift (pad c') (pad c) 0 (length xs) (length ys) (update-next c xs) in
      (
        update-output c (xs ++ ys)
            ∙ xor_pad-append (pad c) 0 xs ys
            ∙ ap₂ (λ (s t : Bytes). s ++ xor_bytes ys t) (sym (update-output c xs)) (sym later)
            ∙ ap (λ (t : Bytes). (update evp c xs).0 ++ t) (sym (update-output c' ys)),
        λ i.
            let e : length (xs ++ ys) + i ≡ length xs + (length ys + i) =
              omega (arith, length-append xs ys) in
            update-next c (xs ++ ys) i
            ∙ ap (λ j. pad c j) e
            ∙ sym (update-next c xs (length ys + i))
            ∙ sym (update-next c' ys i),
      )
