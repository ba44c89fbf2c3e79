-- ===== src/Handshake/Relay.antt =====
-- The init that goes to Telegram names the data centre that the client's init named.
use tg_ws_proxy_rust.Prelude.{
  ℕ, ◌-◌, ◌≤◌, ◌<◌, ◌≡◌, refl, sym, ap, ap₂, subst, ◌∙◌, true, false, ◌||◌, none, some, List, [],
  ◌∷◌, ◌++◌, length, take, drop, slice, slice-append, All, All-take, All-drop, ltb, ◌==◌,
  if◌then◌else◌, arith, inl, inr, Bool-cases, Option-cases, length-take, length-drop, length-append,
  take-append_le, take_all, take-append-drop, drop-append,
}
use tg_ws_proxy_rust.Prelude.Bytes.{
  Bytes, IsByte, be, from_be, le, from_le, from_le-le, length-le, xor_bytes, xor_bytes_cancel,
  xor_bytes_recover, drop-xor_bytes, length-xor_bytes, bytes_eq, bytes_in,
}
use tg_ws_proxy_rust.Cipher.{Evp, IsCtr, encryptor, update, pad_bytes}
use tg_ws_proxy_rust.Cipher.Laws.{update-output, update-IsByte, length-update, length-pad_bytes}
use tg_ws_proxy_rust.Prelude.Int.{ℤ, pos, negsuc, abs, is_negative, neg}
use tg_ws_proxy_rust.Handshake.{
  signed_16, pack_h, Hello, accepted, rejected, value_error, dc_idx, is_reserved, reserved_starts,
  draw, seal, generate_relay_init, read_hello, try_handshake, tag_abridged, tag_intermediate,
  tag_secure,
}

-- The sign and the size of an index give it back.
signed_lem : (z : ℤ) → (if is_negative z then neg (abs z) else pos (abs z)) ≡ z
signed_lem (pos n) = refl
signed_lem (negsuc n) = refl

pack_h-signed_16 : (w : ℕ) → w < 65536 → pack_h (signed_16 w) ≡ some (le 2 w)
unfolding signed_16 pack_h
pack_h-signed_16 w h = elim (Bool-cases (ltb w 32768)) [
  | inl small ↦ rw (small, small) refl
  | inr large ↦
      let back : 65535 - (65535 - w) ≡ w = omega (arith, h) in
      let fits : ltb (65535 - w) 32768 ≡ true = ground arith in
      rw (large, fits) (ap (λ n. some (le 2 n)) back)
]

from_le_two : (xs : Bytes) → length xs ≡ 2 → All IsByte xs → from_le xs < 65536
from_le_two [] e h = absurd (omega arith)
from_le_two (a ∷ []) e h = absurd (omega arith)
from_le_two (a ∷ b ∷ []) e h = omega (arith, h.0, h.1.0)
from_le_two (a ∷ b ∷ c ∷ xs) e h = absurd (omega arith)

-- Whether an init is refused is a matter of its first eight bytes.
is_reserved-append :
    (xs ys zs : Bytes) → 8 ≤ length xs → is_reserved (xs ++ ys) ≡ is_reserved (xs ++ zs)
is_reserved-append [] ys zs h = absurd (omega arith)
is_reserved-append (x ∷ xs) ys zs h =
    ap₂
      (λ (s t : Bytes).
        (x == 0xEF) || bytes_in s reserved_starts || bytes_eq t (0 ∷ 0 ∷ 0 ∷ 0 ∷ []))
      (take-append_le 4 (x ∷ xs) ys (omega arith)
        ∙ sym (take-append_le 4 (x ∷ xs) zs (omega arith)))
      (slice-append 4 8 (x ∷ xs) ys (omega arith) (omega arith)
        ∙ sym (slice-append 4 8 (x ∷ xs) zs (omega arith) (omega arith)))

draw_lem :
    (draws : List Bytes) (rnd : Bytes)
    → All (λ (d : Bytes). length d ≡ 64) draws
    → draw draws ≡ some rnd
    → (length rnd ≡ 64) × (is_reserved rnd ≡ false)
unfolding draw
draw_lem [] rnd h e = let absent : none ≡ some rnd = e in (cc, cc)
draw_lem (d ∷ draws) rnd h e = elim (Bool-cases (is_reserved d)) [
  | inl refused ↦
      draw_lem draws rnd h.1 (sym (ap (λ b. if b then draw draws else some d) refused) ∙ e)
  | inr taken ↦
      let first : some d ≡ some rnd = sym (ap (λ b. if b then draw draws else some d) taken) ∙ e in
      let same : d ≡ rnd = cc first in
      (ap length (sym same) ∙ h.0, ap is_reserved (sym same) ∙ taken)
]

module _ (evp : Evp) (ctr : IsCtr evp) where
  open evp use {Ctx}
  open ctr use {pad}

  -- The pad of 64 octets that `c` starts with.
  abbrev pad_64 : Ctx → Bytes
  pad_64 c = pad_bytes (pad c) 0 64

  output_64 :
      (c : Ctx) (xs : Bytes) → length xs ≡ 64 → (update evp c xs).0 ≡ xor_bytes xs (pad_64 c)
  output_64 c xs h = update-output evp ctr c xs ∙ ap (λ n. xor_bytes xs (pad_bytes (pad c) 0 n)) h

  tail_pad : (c : Ctx) → length (drop 56 (pad_64 c)) ≡ 8
  tail_pad c = omega (arith, length-drop 56 (pad_64 c), length-pad_bytes (pad c) 0 64)

  -- `seal` keeps 56 bytes and encrypts the others with the pad at their place.
  seal_lem :
      (c : Ctx) (rnd tail : Bytes)
      → length rnd ≡ 64
      → length tail ≡ 8
      → seal evp c rnd tail ≡ take 56 rnd ++ xor_bytes tail (drop 56 (pad_64 c))
  unfolding seal
  seal_lem c rnd tail hr ht =
      let ks = drop 56 (pad_64 c) in
      let last : length (drop 56 rnd) ≡ 8 = omega (arith, length-drop 56 rnd, hr) in
      let full : slice 56 64 (update evp c rnd).0 ≡ xor_bytes (drop 56 rnd) ks =
        take_all 8 (drop 56 (update evp c rnd).0)
          (omega (arith, length-drop 56 (update evp c rnd).0, length-update evp ctr c rnd, hr))
        ∙ ap (drop 56) (output_64 c rnd hr)
        ∙ drop-xor_bytes 56 rnd (pad_64 c) in
      let own : slice 56 64 rnd ≡ drop 56 rnd = take_all 8 (drop 56 rnd) (omega (arith, last)) in
      let keystream : xor_bytes (slice 56 64 (update evp c rnd).0) (slice 56 64 rnd) ≡ ks =
        ap₂ xor_bytes full own ∙ xor_bytes_recover (drop 56 rnd) ks (last ∙ sym (tail_pad c)) in
      ap₂ (λ (s t : Bytes). take 56 rnd ++ xor_bytes s t) (take_all 8 tail (omega (arith, ht)))
        keystream

  -- What Telegram finds behind the first 56 bytes.
  seal_decrypts :
      (c : Ctx) (rnd tail : Bytes)
      → length rnd ≡ 64
      → length tail ≡ 8
      → (length (seal evp c rnd tail) ≡ 64)
        × (drop 56 (update evp c (seal evp c rnd tail)).0 ≡ tail)
  seal_decrypts c rnd tail hr ht =
      let ks = drop 56 (pad_64 c) in
      let sealed = xor_bytes tail ks in
      let start : length (take 56 rnd) ≡ 56 = omega (arith, length-take 56 rnd, hr) in
      let e = seal_lem c rnd tail hr ht in
      let len : length (seal evp c rnd tail) ≡ 64 =
        ap length e
        ∙ omega (
          arith,
          length-append (take 56 rnd) sealed,
          length-xor_bytes tail ks (ht ∙ sym (tail_pad c)),
          start,
          ht,
        ) in
      (
        len,
        ap (drop 56) (output_64 c (seal evp c rnd tail) len)
            ∙ drop-xor_bytes 56 (seal evp c rnd tail) (pad_64 c)
            ∙ ap (λ (t : Bytes). xor_bytes (drop 56 t) ks) e
            ∙ ap (λ (t : Bytes). xor_bytes t ks) (drop-append 56 (take 56 rnd) sealed start)
            ∙ xor_bytes_cancel tail ks (ht ∙ sym (tail_pad c)),
      )

  -- `init` is what the proxy sends first: nothing in it is reserved, and with the key and the IV that
  -- it holds it decrypts to the tag, an index that reads as `dc`, and the salt.
  pub record Announces (init proto_tag salt : Bytes) (dc : ℤ) : Type 0 where
    pub whole : length init ≡ 64
    pub unreserved : is_reserved init ≡ false
    pub tg : Ctx
    pub keyed : encryptor evp (slice 8 40 init) (slice 40 56 init) ≡ some tg
    pub dc_bytes : Bytes
    pub tail : drop 56 (update evp tg init).0 ≡ proto_tag ++ (dc_bytes ++ salt)
    pub reads : (length dc_bytes ≡ 2) × (signed_16 (from_le dc_bytes) ≡ dc)

  relay_lem :
      (draws : List Bytes) (rnd salt proto_tag : Bytes) (w : ℕ)
      → All (λ (d : Bytes). length d ≡ 64) draws
      → draw draws ≡ some rnd
      → length salt ≡ 2
      → length proto_tag ≡ 4
      → w < 65536
      → (init : Bytes) × (generate_relay_init evp draws salt proto_tag (signed_16 w) ≡ some init)
        × Announces init proto_tag salt (signed_16 w)
  unfolding generate_relay_init encryptor
  relay_lem draws rnd salt proto_tag w hd e hs ht hw =
      let r = draw_lem draws rnd hd e in
      let key : length (slice 8 40 rnd) ≡ 32 =
        omega (arith, length-take 32 (drop 8 rnd), length-drop 8 rnd, r.0) in
      let iv : length (slice 40 56 rnd) ≡ 16 =
        omega (arith, length-take 16 (drop 40 rnd), length-drop 40 rnd, r.0) in
      let c = evp.init (slice 8 40 rnd) (slice 40 56 rnd) in
      let made : encryptor evp (slice 8 40 rnd) (slice 40 56 rnd) ≡ some c = rw (key, iv) refl in
      let tail = proto_tag ++ (le 2 w ++ salt) in
      let lt : length tail ≡ 8 = omega (
        arith,
        length-append proto_tag (le 2 w ++ salt),
        length-append (le 2 w) salt,
        length-le 2 w,
        hs,
        ht,
      ) in
      let init = seal evp c rnd tail in
      let sealed = seal_decrypts c rnd tail r.0 lt in
      let shape = seal_lem c rnd tail r.0 lt in
      let start : length (take 56 rnd) ≡ 56 = omega (arith, length-take 56 rnd, r.0) in
      let more = xor_bytes tail (drop 56 (pad_64 c)) in
      let as_drawn : (a b : ℕ) → a ≤ b → b ≤ 56 → slice a b init ≡ slice a b rnd = λ a b hab hb.
        ap (slice a b) shape
        ∙ slice-append a b (take 56 rnd) more hab (omega (arith, start, hb))
        ∙ sym (slice-append a b (take 56 rnd) (drop 56 rnd) hab (omega (arith, start, hb)))
        ∙ ap (slice a b) (take-append-drop 56 rnd) in
      (
        init,
        rw (e, made, pack_h-signed_16 w hw, generate_relay_init) refl,
        record {
          whole = sealed.0;
          unreserved =
              ap is_reserved shape
              ∙ is_reserved-append (take 56 rnd) more (drop 56 rnd) (omega (arith, start))
              ∙ ap is_reserved (take-append-drop 56 rnd)
              ∙ r.1;
          tg = c;
          keyed =
              ap₂ (encryptor evp) (as_drawn 8 40 (omega arith) (omega arith))
                (as_drawn 40 56 (omega arith) (omega arith))
              ∙ made;
          dc_bytes = le 2 w;
          tail = sealed.1;
          reads = (length-le 2 w, ap signed_16 (from_le-le 2 w (omega (arith, hw))));
        },
      )

module _ (evp : Evp) (sha256 : Bytes → Bytes) where
  Reads : Hello → Bytes → Bytes → Type 0
  Reads h decrypted prekey_and_iv =
      (dc_idx h ≡ signed_16 (from_le (slice 60 62 decrypted)))
      × (h.proto_tag ≡ slice 56 60 decrypted)
      × (h.prekey_and_iv ≡ prekey_and_iv)

  read_hello-Reads :
      (decrypted prekey_and_iv : Bytes) (h : Hello)
      → read_hello evp sha256 decrypted prekey_and_iv ≡ accepted h
      → Reads h decrypted prekey_and_iv
  unfolding read_hello Reads
  read_hello-Reads decrypted prekey_and_iv h e =
      let z = signed_16 (from_le (slice 60 62 decrypted)) in
      let known =
        bytes_in (slice 56 60 decrypted) (tag_abridged ∷ tag_intermediate ∷ tag_secure ∷ []) in
      let r : Hello = record {
        dc_id = abs z;
        is_media = is_negative z;
        proto_tag = slice 56 60 decrypted;
        prekey_and_iv = prekey_and_iv;
      } in
      elim (Bool-cases known) [
        | inl listed ↦
            let both : accepted r ≡ accepted h =
              sym (ap (λ b. if b then accepted r else rejected) listed) ∙ e in
            let same : h ≡ r = cc both in
            (
              ap dc_idx same ∙ signed_lem z,
              ap (λ (x : Hello). x.proto_tag) same,
              ap (λ (x : Hello). x.prekey_and_iv) same,
            )
        | inr other ↦
            let apart : rejected ≡ accepted h =
              sym (ap (λ b. if b then accepted r else rejected) other) ∙ e in
            (cc, cc, cc)
      ]

  -- A client's init of 64 bytes was accepted, and os.urandom has yielded inits of 64 bytes of which
  -- one is not reserved, and a salt of two bytes. Then `_generate_relay_init`, called as
  -- `_handle_client` does, raises nothing. Its result has 64 bytes and no reserved start, and
  -- Telegram, with the key and the IV in it, decrypts its end to the protocol tag of the client, the
  -- index of the same data centre, negative for media, and the salt.
  pub relay_init-Announces :
      (handshake secret salt rnd : Bytes) (draws : List Bytes) (h : Hello)
      → (ctr : IsCtr evp) → length handshake ≡ 64
      → All IsByte handshake
      → try_handshake evp sha256 handshake secret ≡ accepted h
      → All (λ (d : Bytes). length d ≡ 64) draws
      → draw draws ≡ some rnd
      → length salt ≡ 2
      → (init : Bytes) × (generate_relay_init evp draws salt h.proto_tag (dc_idx h) ≡ some init)
        × Announces evp ctr init h.proto_tag salt (dc_idx h)
  unfolding try_handshake Reads
  relay_init-Announces handshake secret salt rnd draws h ctr lh bh accept hd e hs =
      let prekey_and_iv = slice 8 56 handshake in
      let start =
        encryptor evp (sha256 (take 32 prekey_and_iv ++ secret))
          (be 16 (from_be (drop 32 prekey_and_iv))) in
      elim (Option-cases start) [
        | inl refused ↦
            let apart : value_error ≡ accepted h =
              sym (rw (refused, try_handshake) refl) ∙ accept in
            absurd (let no : ⊥ = cc in no)
        | inr (c, made) ↦
            let plain = (update evp c handshake).0 in
            let reads =
              read_hello-Reads plain prekey_and_iv h
                (sym (rw (made, try_handshake) refl) ∙ accept) in
            let bytes = update-IsByte evp ctr c handshake bh in
            let len = length-update evp ctr c handshake in
            let d = slice 60 62 plain in
            let w =
              from_le_two d
                (omega (arith, length-take 2 (drop 60 plain), length-drop 60 plain, len, lh))
                (All-take IsByte 2 (drop 60 plain) (All-drop IsByte 60 plain bytes)) in
            let tag : length h.proto_tag ≡ 4 =
              ap length reads.1
              ∙ omega (arith, length-take 4 (drop 56 plain), length-drop 56 plain, len, lh) in
            subst
              (λ (z : ℤ).
                (init : Bytes) × (generate_relay_init evp draws salt h.proto_tag z ≡ some init)
                × Announces evp ctr init h.proto_tag salt z)
              (sym reads.0) (relay_lem evp ctr draws rnd salt h.proto_tag (from_le d) hd e hs tag w)
      ]
