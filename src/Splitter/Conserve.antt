-- ===== src/Splitter/Conserve.antt =====
-- No byte is lost, added or reordered between the chunks that go in and the parts that come out.
use tg_ws_proxy_rust.Prelude.{
  ℕ, zero, suc, ◌≤◌, ◌≡◌, refl, sym, ap, ◌∙◌, true, false, List, [], ◌∷◌, ◌++◌, append_assoc,
  append-nil, length, take, drop, concat, is_empty, arith, inl, inr, Bool-cases, Option-cases,
  take-append-drop, length-drop, length-append, concat-append,
}
use tg_ws_proxy_rust.Prelude.Bytes.{Bytes}
use tg_ws_proxy_rust.Cipher.{Evp, IsCtr, update}
use tg_ws_proxy_rust.Cipher.Laws.{length-update}
use tg_ws_proxy_rust.Splitter.{MsgSplitter, split, flush, next_packet_len}
use tg_ws_proxy_rust.Splitter.Cut.{cut, split_loop-cut}

cut-concat :
    (fuel proto : ℕ) (cipher plain : Bytes)
    → concat (cut fuel proto cipher plain).parts ++ (cut fuel proto cipher plain).cipher ≡ cipher
unfolding cut
cut-concat zero proto cipher plain = refl
cut-concat (suc fuel) proto cipher plain =
    elim (Option-cases (next_packet_len proto plain 0 (length cipher))) [
      | inl e ↦ rw (e, cut) refl
      | inr (zero, e) ↦ rw (e, cut) (append-nil (cipher ++ []) ∙ append-nil cipher)
      | inr (suc n, e) ↦
          rw (e, cut)
            (append_assoc (take (suc n) cipher) _ _
              ∙ ap (λ (t : Bytes). take (suc n) cipher ++ t)
                  (cut-concat fuel proto (drop (suc n) cipher) (drop (suc n) plain))
              ∙ take-append-drop (suc n) cipher)
    ]

-- What is left of the two buffers stays in step.
cut-length :
    (fuel proto : ℕ) (cipher plain : Bytes)
    → length plain ≡ length cipher
    → (length (cut fuel proto cipher plain).plain ≡ length (cut fuel proto cipher plain).cipher)
      × ((cut fuel proto cipher plain).gave_up ≡ true → (cut fuel proto cipher plain).cipher ≡ [])
unfolding cut
cut-length zero proto cipher plain h = (h, λ e. cc)
cut-length (suc fuel) proto cipher plain h =
    elim (Option-cases (next_packet_len proto plain 0 (length cipher))) [
      | inl e ↦ rw (e, cut) (h, λ g. cc)
      | inr (zero, e) ↦ rw (e, cut) (refl, λ g. refl)
      | inr (suc n, e) ↦
          rw (e, cut)
            (cut-length fuel proto (drop (suc n) cipher) (drop (suc n) plain)
              (omega (arith, length-drop (suc n) cipher, length-drop (suc n) plain)))
    ]

pub empty_nil : (xs : Bytes) → is_empty xs ≡ true → xs ≡ []
empty_nil [] h = refl
empty_nil (x ∷ xs) h = cc

module _ (evp : Evp) where
  -- The decrypted buffer is as long as the other, and after giving up nothing is held back.
  pub record IsValid (s : MsgSplitter evp) : Type 0 where
    pub in_step : length s.plain_buf ≡ length s.cipher_buf
    pub passes : s.disabled ≡ true → s.cipher_buf ≡ []

  abbrev pub split_all : MsgSplitter evp → List Bytes → List Bytes × MsgSplitter evp
  split_all s [] = ([], s)
  split_all s (chunk ∷ chunks) =
      let (parts, s') = split evp s chunk in
      let (more, s'') = split_all s' chunks in (parts ++ more, s'')

  -- A chunk that is not empty, before giving up.
  pub split_enabled :
      (s : MsgSplitter evp) (chunk : Bytes)
      → IsCtr evp
      → IsValid s
      → s.disabled ≡ false
      → 1 ≤ length chunk
      → let cipher = s.cipher_buf ++ chunk in
        let more = update evp s.dec chunk in
        let c = cut (length cipher) s.proto cipher (s.plain_buf ++ more.0) in
        split evp s chunk ≡ (
          c.parts,
          record s {
            dec = more.1;
            cipher_buf = c.cipher;
            plain_buf = c.plain;
            disabled = c.gave_up;
          },
        )
  unfolding split
  split_enabled s [] ctr v h h1 = absurd (omega arith)
  split_enabled s (x ∷ chunk) ctr v h h1 =
      let cipher = s.cipher_buf ++ (x ∷ chunk) in
      let more = update evp s.dec (x ∷ chunk) in
      let plain = s.plain_buf ++ more.0 in
      let len : length plain ≡ length cipher = omega (
        arith,
        length-append s.cipher_buf (x ∷ chunk),
        length-append s.plain_buf more.0,
        length-update evp ctr s.dec (x ∷ chunk),
        v.in_step,
      ) in
      let a = split_loop-cut (length cipher) s.proto cipher plain 0 [] len (omega arith) in
      rw h (λ i. (
        a.same_parts i,
        record s {
          dec = more.1;
          cipher_buf = a.same_cipher i;
          plain_buf = a.same_plain i;
          disabled = a.same_end i;
        },
      ))

  split_disabled :
      (s : MsgSplitter evp) (chunk : Bytes)
      → s.disabled ≡ true
      → (concat (split evp s chunk).0 ≡ chunk) × ((split evp s chunk).1 ≡ s)
  unfolding split
  split_disabled s [] h = (refl, refl)
  split_disabled s (x ∷ chunk) h = (rw h (append-nil (x ∷ chunk)), simp h)

  -- `split` puts out, in order, exactly the bytes that it does not hold back: the parts followed by
  -- the buffer are the old buffer followed by the chunk. The buffers stay in step, and after giving
  -- up the buffer is empty.
  pub split_conserves :
      (s : MsgSplitter evp) (chunk : Bytes)
      → IsCtr evp
      → IsValid s
      → (concat (split evp s chunk).0 ++ (split evp s chunk).1.cipher_buf ≡ s.cipher_buf ++ chunk)
        × IsValid (split evp s chunk).1
  split_conserves s [] ctr v = unfold split in (sym (append-nil s.cipher_buf), v)
  split_conserves s (x ∷ chunk) ctr v = elim (Bool-cases s.disabled) [
    | inl off ↦
        let d = split_disabled s (x ∷ chunk) off in
        rw (d.0, d.1) (rw (v.passes off) (append-nil (x ∷ chunk)), v)
    | inr on ↦
        let cipher = s.cipher_buf ++ (x ∷ chunk) in
        let more = update evp s.dec (x ∷ chunk) in
        let plain = s.plain_buf ++ more.0 in
        let len : length plain ≡ length cipher = omega (
          arith,
          length-append s.cipher_buf (x ∷ chunk),
          length-append s.plain_buf more.0,
          length-update evp ctr s.dec (x ∷ chunk),
          v.in_step,
        ) in
        let c = cut-length (length cipher) s.proto cipher plain len in
        rw (split_enabled s (x ∷ chunk) ctr v on (omega arith))
          (cut-concat (length cipher) s.proto cipher plain, record { in_step = c.0; passes = c.1 })
  ]

  split_all_conserves :
      (s : MsgSplitter evp) (chunks : List Bytes)
      → IsCtr evp
      → IsValid s
      → (concat (split_all s chunks).0 ++ (split_all s chunks).1.cipher_buf
          ≡ s.cipher_buf ++ concat chunks)
        × IsValid (split_all s chunks).1
  split_all_conserves s [] ctr v = (sym (append-nil s.cipher_buf), v)
  split_all_conserves s (chunk ∷ chunks) ctr v =
      let (parts, s') = split evp s chunk in
      let (e, v') = split_conserves s chunk ctr v in
      let (e', v'') = split_all_conserves s' chunks ctr v' in
      let (more, t) = split_all s' chunks in
      (
        ap (λ (b : Bytes). b ++ t.cipher_buf) (concat-append parts more)
            ∙ append_assoc (concat parts) (concat more) t.cipher_buf
            ∙ ap (λ (b : Bytes). concat parts ++ b) e'
            ∙ sym (append_assoc (concat parts) s'.cipher_buf (concat chunks))
            ∙ ap (λ (b : Bytes). b ++ concat chunks) e
            ∙ append_assoc s.cipher_buf chunk (concat chunks),
        v'',
      )

  flush_lem :
      (s : MsgSplitter evp)
      → (concat (flush evp s).0 ≡ s.cipher_buf) × ((flush evp s).1.cipher_buf ≡ [])
  unfolding flush
  flush_lem s = elim (Bool-cases (is_empty s.cipher_buf)) [
    | inl e ↦ rw e (sym (empty_nil s.cipher_buf e), empty_nil s.cipher_buf e)
    | inr e ↦ rw e (append-nil s.cipher_buf, refl)
  ]

  -- Over a whole stream, from any valid state: all that `split` returns for the chunks, followed by
  -- what `flush` returns at the end, is what was held back before followed by the chunks, byte for
  -- byte, and nothing is held back after it. This is so whatever the stream contains, well formed
  -- packets or not.
  pub split_all-flush :
      (s : MsgSplitter evp) (chunks : List Bytes)
      → IsCtr evp
      → IsValid s
      → let (parts, s') = split_all s chunks in
        (concat (parts ++ (flush evp s').0) ≡ s.cipher_buf ++ concat chunks)
        × ((flush evp s').1.cipher_buf ≡ [])
  split_all-flush s chunks ctr v =
      let (parts, s') = split_all s chunks in
      let f = flush_lem s' in
      (
        concat-append parts (flush evp s').0
            ∙ ap (λ (b : Bytes). concat parts ++ b) f.0
            ∙ (split_all_conserves s chunks ctr v).0,
        f.1,
      )
