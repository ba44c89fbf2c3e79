-- ===== src/WebSocket/Frame/RoundTrip.antt =====
-- A frame that is built is read back.
use tg_ws_proxy_rust.Prelude.{
  ℕ, ◌^◌, ◌<◌, ◌≡◌, refl, ap, ◌∙◌, Bool, true, false, ◌&&◌, [], ◌∷◌, ◌++◌, append_assoc, some,
  length, All, ltb, ◌==◌, ==_iff, if◌then◌else◌, bit_and, bit_or, arith, inl, inr, Bool-cases,
}
use tg_ws_proxy_rust.Prelude.Bits.{all_below, all_below_sound}
use tg_ws_proxy_rust.Prelude.Bytes.{Bytes, IsByte, be, length-be, from_be-be}
use tg_ws_proxy_rust.Reader.{readexactly, readexactly-append, >>=-some}
use tg_ws_proxy_rust.WebSocket.Mask.{xor_mask}
use tg_ws_proxy_rust.WebSocket.Mask.Rfc.{xor_mask_involution}
use tg_ws_proxy_rust.WebSocket.Frame.{build_frame, read_length, read_payload, read_frame}

abbrev pub IsKey : Bytes → Type 0
IsKey mask_key = (length mask_key ≡ 4) × All IsByte mask_key

opcode_table : all_below 16 (λ x. bit_and (bit_or 0x80 x) 0x0F == x) ≡ true
unfolding all_below
opcode_table = refl

masked_length_table :
    all_below 128
      (λ x. (bit_and (bit_or 0x80 x) 0x7F == x) && (bit_and (bit_or 0x80 x) 0x80 == 128))
    ≡ true
unfolding all_below
masked_length_table = refl

plain_length_table : all_below 128 (λ x. (bit_and x 0x7F == x) && (bit_and x 0x80 == 0)) ≡ true
unfolding all_below
plain_length_table = refl

opcode_lem : (x : ℕ) → x < 16 → bit_and (bit_or 0x80 x) 0x0F ≡ x
opcode_lem x h = (==_iff _ x).0 (all_below_sound 16 _ x opcode_table h)

masked_length_lem :
    (x : ℕ) → x < 128 → (bit_and (bit_or 0x80 x) 0x7F ≡ x) × (bit_and (bit_or 0x80 x) 0x80 ≡ 128)
masked_length_lem x h = ground (arith, all_below_sound 128 _ x masked_length_table h)

plain_length_lem : (x : ℕ) → x < 128 → (bit_and x 0x7F ≡ x) × (bit_and x 0x80 ≡ 0)
plain_length_lem x h = ground (arith, all_below_sound 128 _ x plain_length_table h)

-- What `_read_frame` does with the header bytes and the extended length `ext`.
header_lem :
    (b0 b1 n l : ℕ) (masked : Bool) (ext t : Bytes)
    → bit_and b1 0x7F ≡ l
    → (if bit_and b1 0x80 == 0 then false else true) ≡ masked
    → read_length l (ext ++ t) ≡ some (n, t)
    → read_frame (b0 ∷ b1 ∷ (ext ++ t)) ≡ read_payload masked (bit_and b0 0x0F) n t
unfolding read_frame
header_lem b0 b1 n l masked ext t hl hm he =
    >>=-some (readexactly 2) _ _ (readexactly-append 2 (b0 ∷ b1 ∷ []) (ext ++ t) refl)
    ∙ rw (hl, hm) (>>=-some (read_length l) (read_payload masked (bit_and b0 0x0F)) (ext ++ t) he)

read_length_short : (n : ℕ) (t : Bytes) → n < 126 → read_length n t ≡ some (n, t)
unfolding read_length
read_length_short n t h = ground arith

read_length_16 : (n : ℕ) (t : Bytes) → n < 65536 → read_length 126 (be 2 n ++ t) ≡ some (n, t)
unfolding read_length
read_length_16 n t h =
    >>=-some (readexactly 2) _ _ (readexactly-append 2 (be 2 n) t (length-be 2 n))
    ∙ ap (λ k. some (k, t)) (from_be-be 2 n h)

read_length_64 : (n : ℕ) (t : Bytes) → n < 2 ^ 63 → read_length 127 (be 8 n ++ t) ≡ some (n, t)
unfolding read_length
read_length_64 n t h =
    >>=-some (readexactly 8) _ _ (readexactly-append 8 (be 8 n) t (length-be 8 n))
    ∙ ap (λ k. some (k, t)) (from_be-be 8 n (omega arith))

plain_payload :
    (op : ℕ) (xs rest : Bytes)
    → read_payload false op (length xs) (xs ++ rest) ≡ some ((op, xs), rest)
unfolding read_payload
plain_payload op xs rest =
    >>=-some (readexactly (length xs)) _ _ (readexactly-append (length xs) xs rest refl)

masked_payload :
    (op : ℕ) (xs mask_key rest : Bytes)
    → IsKey mask_key
    → All IsByte xs
    → read_payload true op (length xs) (mask_key ++ (xor_mask xs mask_key ++ rest))
      ≡ some ((op, xs), rest)
unfolding read_payload
masked_payload op xs (m ∷ n ∷ o ∷ p ∷ []) rest k h =
    let key = m ∷ n ∷ o ∷ p ∷ [] in
    let inv = xor_mask_involution xs m n o p h k.1 in
    >>=-some (readexactly 4) _ _ (readexactly-append 4 key (xor_mask xs key ++ rest) refl)
    ∙ >>=-some (readexactly (length xs)) _ _
        (readexactly-append (length xs) (xor_mask xs key) rest inv.1)
    ∙ ap (λ (t : Bytes). some ((op, t), rest)) inv.0
masked_payload op xs _ rest k h = absurd (omega arith)

masked_frame :
    (op b1 l : ℕ) (ext xs mask_key rest : Bytes)
    → op < 16
    → bit_and b1 0x7F ≡ l
    → bit_and b1 0x80 ≡ 128
    → ((t : Bytes) → read_length l (ext ++ t) ≡ some (length xs, t))
    → IsKey mask_key
    → All IsByte xs
    → read_frame (bit_or 0x80 op ∷ b1 ∷ ((ext ++ (mask_key ++ xor_mask xs mask_key)) ++ rest))
      ≡ some ((op, xs), rest)
masked_frame op b1 l ext xs mask_key rest ho hl hm he k h =
    let body = mask_key ++ (xor_mask xs mask_key ++ rest) in
    let e : (ext ++ (mask_key ++ xor_mask xs mask_key)) ++ rest ≡ ext ++ body =
      append_assoc ext _ rest ∙ ap (λ (t : Bytes). ext ++ t) (append_assoc mask_key _ rest) in
    rw e (
      header_lem (bit_or 0x80 op) b1 (length xs) l true ext body hl (rw hm refl) (he body)
      ∙ rw (opcode_lem op ho) (masked_payload op xs mask_key rest k h))

plain_frame :
    (op b1 l : ℕ) (ext xs rest : Bytes)
    → op < 16
    → bit_and b1 0x7F ≡ l
    → bit_and b1 0x80 ≡ 0
    → ((t : Bytes) → read_length l (ext ++ t) ≡ some (length xs, t))
    → read_frame (bit_or 0x80 op ∷ b1 ∷ ((ext ++ xs) ++ rest)) ≡ some ((op, xs), rest)
plain_frame op b1 l ext xs rest ho hl hm he = rw (append_assoc ext xs rest) (
    header_lem (bit_or 0x80 op) b1 (length xs) l false ext (xs ++ rest) hl (rw hm refl)
      (he (xs ++ rest))
    ∙ rw (opcode_lem op ho) (plain_payload op xs rest))

-- Reading what `_build_frame` wrote, masked or not and in each of the three length encodings, gives
-- the opcode and the payload back and leaves the bytes that follow; for an opcode below 16, a
-- payload of bytes shorter than 2 ^ 63, and a mask key of four bytes.
pub read_frame-build_frame :
    (mask_key xs rest : Bytes) (op : ℕ) (mask : Bool)
    → op < 16
    → length xs < 2 ^ 63
    → IsKey mask_key
    → All IsByte xs
    → read_frame (build_frame mask_key op xs mask ++ rest) ≡ some ((op, xs), rest)
unfolding build_frame
read_frame-build_frame mask_key xs rest op true ho hx k h =
    elim (Bool-cases (ltb (length xs) 126)) [
      | inl short ↦
          let n = masked_length_lem (length xs) (ground arith) in
          rw short (
            masked_frame op _ (length xs) [] xs mask_key rest ho n.0 n.1
              (λ t. read_length_short (length xs) t (ground arith)) k h)
      | inr long ↦ elim (Bool-cases (ltb (length xs) 65536)) [
        | inl two ↦
            rw (long, two)
              (masked_frame op 254 126 (be 2 (length xs)) xs mask_key rest ho refl refl
                (λ t. read_length_16 (length xs) t (ground arith)) k h)
        | inr eight ↦
            rw (long, eight)
              (masked_frame op 255 127 (be 8 (length xs)) xs mask_key rest ho refl refl
                (λ t. read_length_64 (length xs) t hx) k h)
      ]
    ]
read_frame-build_frame mask_key xs rest op false ho hx k h =
    elim (Bool-cases (ltb (length xs) 126)) [
      | inl short ↦
          let n = plain_length_lem (length xs) (ground arith) in
          rw short (
            plain_frame op _ (length xs) [] xs rest ho n.0 n.1
              (λ t. read_length_short (length xs) t (ground arith)))
      | inr long ↦ elim (Bool-cases (ltb (length xs) 65536)) [
        | inl two ↦
            rw (long, two)
              (plain_frame op 126 126 (be 2 (length xs)) xs rest ho refl refl
                (λ t. read_length_16 (length xs) t (ground arith)))
        | inr eight ↦
            rw (long, eight)
              (plain_frame op 127 127 (be 8 (length xs)) xs rest ho refl refl
                (λ t. read_length_64 (length xs) t hx))
      ]
    ]
