-- ===== src/WebSocket/Mask/Rfc.antt =====
-- The word-at-a-time loops of `_xor_mask` compute the bytewise mask of RFC 6455.
use tg_ws_proxy_rust.Prelude.{
  ℕ, zero, suc, ◌+◌, ◌*◌, ◌/◌, ◌%◌, ◌≤◌, ◌<◌, ◌≡◌, refl, sym, ap, ap₂, ◌∙◌, [], ◌∷◌, ◌++◌,
  append_assoc, length, take, drop, replicate, get_or, All, bit_xor, arith, length-append,
  drop-append, take-append, take-append-drop, length-replicate, length-take, length-drop, drop-drop,
}
use tg_ws_proxy_rust.Prelude.Bits.{bit_xor_cancel, bit_xor-lt}
use tg_ws_proxy_rust.Prelude.Bytes.{Bytes, IsByte, be, from_be}
use tg_ws_proxy_rust.WebSocket.Mask.{
  xor_words, xor_rest, set_byte, pack_into, unpack_from, xor_mask, mask_from, word_xor,
}

-- 4 * k, as a number of constructors
abbrev quad : ℕ → ℕ
quad zero = 0
quad (suc k) = suc (suc (suc (suc (quad k))))

quad-eq : (k : ℕ) → quad k ≡ 4 * k
quad-eq zero = refl
quad-eq (suc k) = omega (arith, quad-eq k)

mask_from_shift :
    (i : ℕ) (xs mask : Bytes) → mask_from (suc (suc (suc (suc i)))) xs mask ≡ mask_from i xs mask
unfolding mask_from
mask_from_shift i [] mask = refl
mask_from_shift i (x ∷ xs) mask =
    let e : suc (suc (suc (suc i))) % 4 ≡ i % 4 = omega arith in
    ap₂ (λ j r. bit_xor x (get_or mask j 0) ∷ r) e (mask_from_shift (suc i) xs mask)

mask_from-quad : (k : ℕ) (xs mask : Bytes) → mask_from (quad k) xs mask ≡ mask_from 0 xs mask
mask_from-quad zero xs mask = refl
mask_from-quad (suc k) xs mask = mask_from_shift (quad k) xs mask ∙ mask_from-quad k xs mask

mask_from-append :
    (i : ℕ) (xs ys mask : Bytes)
    → mask_from i (xs ++ ys) mask ≡ mask_from i xs mask ++ mask_from (length xs + i) ys mask
unfolding mask_from
mask_from-append i [] ys mask = let e : i ≡ 0 + i = omega arith in ap (λ j. mask_from j ys mask) e
mask_from-append i (x ∷ xs) ys mask =
    let e : length xs + suc i ≡ suc (length xs) + i = omega arith in
    ap (◌∷◌ (bit_xor x (get_or mask (i % 4) 0))) (
      mask_from-append (suc i) xs ys mask
      ∙ ap (λ j. mask_from (suc i) xs mask ++ mask_from j ys mask) e)

pub length-mask_from : (i : ℕ) (xs mask : Bytes) → length (mask_from i xs mask) ≡ length xs
unfolding mask_from
length-mask_from i [] mask = refl
length-mask_from i (x ∷ xs) mask = ap suc (length-mask_from (suc i) xs mask)

unpack_from_lem :
    (pre post : Bytes) (a b c d off : ℕ)
    → length pre ≡ off
    → unpack_from (pre ++ (a ∷ b ∷ c ∷ d ∷ post)) off ≡ from_be (a ∷ b ∷ c ∷ d ∷ [])
unfolding unpack_from
unpack_from_lem pre post a b c d off h =
    ap (λ t. from_be (take 4 t)) (drop-append off pre (a ∷ b ∷ c ∷ d ∷ post) h)

pack_into_lem :
    (done zs : Bytes) (z1 z2 z3 z4 off v : ℕ)
    → length done ≡ off
    → pack_into (done ++ (z1 ∷ z2 ∷ z3 ∷ z4 ∷ zs)) off v ≡ done ++ (be 4 v ++ zs)
unfolding pack_into
pack_into_lem done zs z1 z2 z3 z4 off v h =
    let out = done ++ (z1 ∷ z2 ∷ z3 ∷ z4 ∷ zs) in
    let e : drop (off + 4) out ≡ zs =
      sym (drop-drop off 4 out)
      ∙ ap (λ t. drop 4 t) (drop-append off done (z1 ∷ z2 ∷ z3 ∷ z4 ∷ zs) h) in
    ap₂ (λ x y. x ++ (be 4 v ++ y)) (take-append off done (z1 ∷ z2 ∷ z3 ∷ z4 ∷ zs) h) e

module _ (m n o p : ℕ) where
  abbrev key : Bytes
  key = m ∷ n ∷ o ∷ p ∷ []

  -- One round on the first four bytes that are left.
  pack_lem :
      (pre post done zs : Bytes) (a b c d z1 z2 z3 z4 off : ℕ)
      → length pre ≡ off
      → length done ≡ off
      → All IsByte (a ∷ b ∷ c ∷ d ∷ [])
      → All IsByte key
      → pack_into
          (done ++ (z1 ∷ z2 ∷ z3 ∷ z4 ∷ zs))
          off
          (bit_xor (unpack_from (pre ++ (a ∷ b ∷ c ∷ d ∷ post)) off) (from_be key))
        ≡ (done ++ mask_from 0 (a ∷ b ∷ c ∷ d ∷ []) key) ++ zs
  unfolding mask_from
  pack_lem pre post done zs a b c d z1 z2 z3 z4 off hp hd h g =
      rw (unpack_from_lem pre post a b c d off hp) (
        pack_into_lem done zs z1 z2 z3 z4 off _ hd
        ∙ ap (λ (w : Bytes). done ++ (w ++ zs)) (word_xor a b c d m n o p h g)
        ∙ sym (append_assoc done _ zs))

  xor_words_lem :
      (k : ℕ) (pre post done zs : Bytes) (off : ℕ)
      → length pre ≡ off
      → length done ≡ off
      → length post ≡ length zs
      → quad k ≤ length post
      → All IsByte post
      → All IsByte key
      → xor_words k (pre ++ post) (from_be key) (done ++ zs) off
        ≡ (done ++ (mask_from 0 (take (quad k) post) key ++ drop (quad k) zs), off + quad k)
  unfolding xor_words mask_from
  xor_words_lem zero pre post done zs off hp hd hl hk h g =
      let e : off ≡ off + 0 = omega arith in ap (λ j. (done ++ zs, j)) e
  xor_words_lem (suc k) pre (a ∷ b ∷ c ∷ d ∷ post) done (z1 ∷ z2 ∷ z3 ∷ z4 ∷ zs) off hp hd hl hk h
        g =
      let h4 : All IsByte (a ∷ b ∷ c ∷ d ∷ []) = (h.0, (h.1.0, (h.1.1.0, (h.1.1.1.0, tt)))) in
      let four = a ∷ b ∷ c ∷ d ∷ [] in
      let masked = mask_from 0 four key in
      let ih =
        xor_words_lem k (pre ++ four) post (done ++ masked) zs (off + 4)
          (omega (arith, length-append pre four)) (omega (arith, length-append done masked))
          (omega arith) (omega arith) h.1.1.1.1 g in
      let e : off + 4 + quad k ≡ off + quad (suc k) = omega arith in
      let rest = take (quad k) post in
      let f : ((done ++ masked) ++ (mask_from 0 rest key ++ drop (quad k) zs))
          ≡ done ++ (masked ++ (mask_from 4 rest key ++ drop (quad k) zs)) =
        append_assoc done masked _
        ∙ ap (λ (t : Bytes). done ++ (masked ++ (t ++ drop (quad k) zs)))
            (sym (mask_from_shift 0 rest key)) in
      rw (pack_lem pre post done zs a b c d z1 z2 z3 z4 off hp hd h4 g) (
        ap (λ (t : Bytes). xor_words k t (from_be key) ((done ++ masked) ++ zs) (off + 4))
          (sym (append_assoc pre four post))
        ∙ ih
        ∙ ap₂ (λ (t : Bytes) (j : ℕ). (t, j)) f e)
  xor_words_lem (suc k) pre post done zs off hp hd hl hk h g = absurd (omega arith)

set_byte_lem :
    (done zs : Bytes) (z i v : ℕ)
    → length done ≡ i
    → set_byte (done ++ (z ∷ zs)) i v ≡ done ++ (v ∷ zs)
unfolding set_byte
set_byte_lem [] zs z zero v h = refl
set_byte_lem [] zs z (suc i) v h = absurd (omega arith)
set_byte_lem (x ∷ done) zs z zero v h = absurd (omega arith)
set_byte_lem (x ∷ done) zs z (suc i) v h = ap (◌∷◌ x) (set_byte_lem done zs z i v (omega arith))

get_or_lem : (pre post : Bytes) (x i : ℕ) → length pre ≡ i → get_or (pre ++ (x ∷ post)) i 0 ≡ x
get_or_lem [] post x zero h = refl
get_or_lem [] post x (suc i) h = absurd (omega arith)
get_or_lem (y ∷ pre) post x zero h = absurd (omega arith)
get_or_lem (y ∷ pre) post x (suc i) h = get_or_lem pre post x i (omega arith)

xor_rest_lem :
    (r i : ℕ) (pre post done zs mask : Bytes) (off : ℕ)
    → length pre ≡ off + i
    → length done ≡ off + i
    → length post ≡ r
    → length zs ≡ r
    → i + r ≤ 4
    → xor_rest r i (pre ++ post) mask (done ++ zs) off ≡ done ++ mask_from i post mask
unfolding xor_rest mask_from
xor_rest_lem zero i pre [] done [] mask off hp hd hl hz hi = refl
xor_rest_lem (suc r) i pre (x ∷ post) done (z ∷ zs) mask off hp hd hl hz hi =
    let v = bit_xor x (get_or mask i 0) in
    let e : i ≡ i % 4 = omega arith in
    let ih =
      xor_rest_lem r (suc i) (pre ++ (x ∷ [])) post (done ++ (v ∷ [])) zs mask off
        (omega (arith, length-append pre (x ∷ []))) (omega (arith, length-append done (v ∷ [])))
        (omega arith) (omega arith) (omega arith) in
    rw (get_or_lem pre post x (off + i) hp, set_byte_lem done zs z (off + i) v hd)
      (ap₂ (λ (s t : Bytes). xor_rest r (suc i) s mask t off) (sym (append_assoc pre (x ∷ []) post))
          (sym (append_assoc done (v ∷ []) zs))
        ∙ ih
        ∙ append_assoc done (v ∷ []) _
        ∙ ap (λ j. done ++ (bit_xor x (get_or mask j 0) ∷ mask_from (suc i) post mask)) e)
xor_rest_lem zero i pre (x ∷ post) done zs mask off hp hd hl hz hi = absurd (omega arith)
xor_rest_lem zero i pre [] done (z ∷ zs) mask off hp hd hl hz hi = absurd (omega arith)
xor_rest_lem (suc r) i pre [] done zs mask off hp hd hl hz hi = absurd (omega arith)
xor_rest_lem (suc r) i pre (x ∷ post) done [] mask off hp hd hl hz hi = absurd (omega arith)

loops_lem :
    (m n o p : ℕ) (ys : Bytes)
    → All IsByte ys
    → All IsByte (key m n o p)
    → (let r = xor_words (length ys / 4) ys (from_be (key m n o p)) (replicate (length ys) 0) 0 in
        xor_rest (length ys % 4) 0 ys (key m n o p) r.0 r.1)
      ≡ mask_from 0 ys (key m n o p)
loops_lem m n o p ys h g =
    let k = length ys / 4 in
    let q = quad k in
    let zeros : Bytes = replicate (length ys) 0 in
    let head = take q ys in
    let masked = mask_from 0 head (key m n o p) in
    let hq : q ≤ length ys = omega (arith, quad-eq k) in
    let hz : length zeros ≡ length ys = length-replicate (length ys) 0 in
    let hh : length head ≡ q = omega (arith, length-take q ys) in
    let words = xor_words_lem m n o p k [] ys [] zeros 0 refl refl (sym hz) hq h g in
    let rest =
      xor_rest_lem (length ys % 4) 0 head (drop q ys) masked (drop q zeros) (key m n o p) (0 + q)
        (omega arith) (omega (arith, length-mask_from 0 head (key m n o p)))
        (omega (arith, length-drop q ys, quad-eq k)) (omega (arith, length-drop q zeros, quad-eq k))
        (omega arith) in
    let at_q : mask_from (length head + 0) (drop q ys) (key m n o p)
        ≡ mask_from 0 (drop q ys) (key m n o p) =
      let e : length head + 0 ≡ q = omega arith in
      ap (λ j. mask_from j (drop q ys) (key m n o p)) e
      ∙ mask_from-quad k (drop q ys) (key m n o p) in
    ap (λ (r : Bytes × ℕ). xor_rest (length ys % 4) 0 ys (key m n o p) r.0 r.1) words
    ∙ ap
        (λ (t : Bytes). xor_rest (length ys % 4) 0 t (key m n o p) (masked ++ drop q zeros) (0 + q))
        (sym (take-append-drop q ys))
    ∙ rest
    ∙ ap (λ (t : Bytes). masked ++ t) (sym at_q)
    ∙ sym (mask_from-append 0 head (drop q ys) (key m n o p))
    ∙ ap (λ (t : Bytes). mask_from 0 t (key m n o p)) (take-append-drop q ys)

-- On any payload and any four-byte key, `_xor_mask` is the masking of RFC 6455: octet i of the
-- result is octet i of the payload xor octet i mod 4 of the key.
pub xor_mask-mask_from :
    (xs : Bytes) (m n o p : ℕ)
    → All IsByte xs
    → All IsByte (m ∷ n ∷ o ∷ p ∷ [])
    → xor_mask xs (m ∷ n ∷ o ∷ p ∷ []) ≡ mask_from 0 xs (m ∷ n ∷ o ∷ p ∷ [])
unfolding xor_mask mask_from
xor_mask-mask_from [] m n o p h g = refl
xor_mask-mask_from (x ∷ xs) m n o p h g = loops_lem m n o p (x ∷ xs) h g

mask_from_cancel : (i : ℕ) (xs mask : Bytes) → mask_from i (mask_from i xs mask) mask ≡ xs
unfolding mask_from
mask_from_cancel i [] mask = refl
mask_from_cancel i (x ∷ xs) mask =
    ap₂ ◌∷◌ (bit_xor_cancel x (get_or mask (i % 4) 0)) (mask_from_cancel (suc i) xs mask)

key_octet : (m n o p i : ℕ) → All IsByte (key m n o p) → get_or (key m n o p) i 0 < 256
key_octet m n o p zero g = g.0
key_octet m n o p (suc zero) g = g.1.0
key_octet m n o p (suc (suc zero)) g = g.1.1.0
key_octet m n o p (suc (suc (suc zero))) g = g.1.1.1.0
key_octet m n o p (suc (suc (suc (suc i)))) g = omega arith

pub mask_from-IsByte :
    (m n o p i : ℕ) (xs : Bytes)
    → All IsByte xs
    → All IsByte (key m n o p)
    → All IsByte (mask_from i xs (key m n o p))
unfolding mask_from
mask_from-IsByte m n o p i [] h g = tt
mask_from-IsByte m n o p i (x ∷ xs) h g = (
  bit_xor-lt 8 x (get_or (key m n o p) (i % 4) 0) h.0 (key_octet m n o p (i % 4) g),
  mask_from-IsByte m n o p (suc i) xs h.1 g,
)

-- `_xor_mask` with one key is its own inverse, keeps the length and yields bytes.
pub xor_mask_involution :
    (xs : Bytes) (m n o p : ℕ)
    → All IsByte xs
    → All IsByte (m ∷ n ∷ o ∷ p ∷ [])
    → (xor_mask (xor_mask xs (m ∷ n ∷ o ∷ p ∷ [])) (m ∷ n ∷ o ∷ p ∷ []) ≡ xs)
      × (length (xor_mask xs (m ∷ n ∷ o ∷ p ∷ [])) ≡ length xs)
      × All IsByte (xor_mask xs (m ∷ n ∷ o ∷ p ∷ []))
xor_mask_involution xs m n o p h g =
    let e = xor_mask-mask_from xs m n o p h g in
    let b = mask_from-IsByte m n o p 0 xs h g in
    rw e (
      xor_mask-mask_from (mask_from 0 xs (key m n o p)) m n o p b g
          ∙ mask_from_cancel 0 xs (key m n o p),
      length-mask_from 0 xs (key m n o p),
      b,
    )
