-- ===== src/WebSocket/Mask.antt =====
-- `_xor_mask` of proxy/raw_websocket.py, the Python path (the optional compiled module is absent).
-- `struct.unpack_from`, `struct.pack_into` and item assignment work on the output buffer as there.
pub mod Rfc
use tg_ws_proxy_rust.Prelude.{
  ℕ, zero, suc, ◌+◌, ◌*◌, ◌/◌, ◌%◌, ◌≤◌, ◌≡◌, refl, ap, ap₂, ◌∙◌, List, [], ◌∷◌, ◌++◌, append_assoc,
  append-nil, Bool, length, take, drop, replicate, get_or, is_empty, All, if◌then◌else◌, bit_xor,
  arith, length-append, drop-append, take-append, take-append-drop, length-replicate,
}
use tg_ws_proxy_rust.Prelude.Bits.{bit_xor_fields, bit_xor_cancel, bit_xor-lt}
use tg_ws_proxy_rust.Prelude.Bytes.{Bytes, IsByte, be, from_be}

-- struct.unpack_from('>I', data, off)[0]
unpack_from : Bytes → ℕ → ℕ
unpack_from data' off = from_be (take 4 (drop off data'))

-- struct.pack_into('>I', out, off, v)
pack_into : Bytes → ℕ → ℕ → Bytes
pack_into out off v = take off out ++ (be 4 v ++ drop (off + 4) out)

-- out[i] = v
set_byte : Bytes → ℕ → ℕ → Bytes
set_byte [] i v = []
set_byte (x ∷ xs) zero v = v ∷ xs
set_byte (x ∷ xs) (suc i) v = x ∷ set_byte xs i v

-- The loop over whole words, with the rounds that are left; it returns `out` and `off`.
xor_words : ℕ → Bytes → ℕ → Bytes → ℕ → Bytes × ℕ
unfolding unpack_from pack_into
xor_words zero xs m32 out off = (out, off)
xor_words (suc k) xs m32 out off =
    xor_words k xs m32 (pack_into out off (bit_xor (unpack_from xs off) m32)) (off + 4)

-- The loop over the remainder, `r` rounds from `i` on.
xor_rest : ℕ → ℕ → Bytes → Bytes → Bytes → ℕ → Bytes
unfolding set_byte
xor_rest zero i xs mask out off = out
xor_rest (suc r) i xs mask out off =
    xor_rest r (suc i) xs mask
      (set_byte out (off + i) (bit_xor (get_or xs (off + i) 0) (get_or mask i 0))) off

unfoldable pub xor_mask : Bytes → Bytes → Bytes
unfolding xor_words xor_rest
xor_mask xs mask =
    if is_empty xs
    then xs
    else let n = length xs in
      let m32 = from_be mask in
      let (out, off) = xor_words (n / 4) xs m32 (replicate n 0) 0 in
      xor_rest (n % 4) 0 xs mask out off

-- RFC 6455, section 5.3: octet i is masked by octet i MOD 4 of the key.
unfoldable pub mask_from : ℕ → Bytes → Bytes → Bytes
mask_from i [] mask = []
mask_from i (x ∷ xs) mask = bit_xor x (get_or mask (i % 4) 0) ∷ mask_from (suc i) xs mask

test_mask :
    xor_mask (1 ∷ 2 ∷ 3 ∷ 4 ∷ 5 ∷ 6 ∷ []) (0x10 ∷ 0x20 ∷ 0x30 ∷ 0x40 ∷ [])
    ≡ 0x11 ∷ 0x22 ∷ 0x33 ∷ 0x44 ∷ 0x15 ∷ 0x26 ∷ []
unfolding xor_mask
test_mask = refl

word_xor :
    (a b c d m n o p : ℕ)
    → All IsByte (a ∷ b ∷ c ∷ d ∷ [])
    → All IsByte (m ∷ n ∷ o ∷ p ∷ [])
    → be 4 (bit_xor (from_be (a ∷ b ∷ c ∷ d ∷ [])) (from_be (m ∷ n ∷ o ∷ p ∷ [])))
      ≡ bit_xor a m ∷ bit_xor b n ∷ bit_xor c o ∷ bit_xor d p ∷ []
word_xor a b c d m n o p h g =
    let x1 = bit_xor_fields 8 a b m n (omega arith) (omega arith) in
    let x2 = bit_xor_fields 8 (a * 256 + b) c (m * 256 + n) o (omega arith) (omega arith) in
    let x3 =
      bit_xor_fields 8 ((a * 256 + b) * 256 + c) d ((m * 256 + n) * 256 + o) p (omega arith)
        (omega arith) in
    let e1 : from_be (a ∷ b ∷ c ∷ d ∷ []) ≡ ((a * 256 + b) * 256 + c) * 256 + d = omega arith in
    let e2 : from_be (m ∷ n ∷ o ∷ p ∷ []) ≡ ((m * 256 + n) * 256 + o) * 256 + p = omega arith in
    let w : bit_xor (from_be (a ∷ b ∷ c ∷ d ∷ [])) (from_be (m ∷ n ∷ o ∷ p ∷ []))
        ≡ ((bit_xor a m * 256 + bit_xor b n) * 256 + bit_xor c o) * 256 + bit_xor d p =
      ap₂ bit_xor e1 e2 ∙ omega (arith, x1.0, x2.0, x3.0) in
    rw w (ground (arith, bit_xor-lt 8 a m h.0 g.0, x1.1, x2.1, x3.1))
