-- ===== src/Splitter/Cut.antt =====
-- The loop of `split`, whose offset walks over the buffers, as a recursion on what is left of them.
use tg_ws_proxy_rust.Prelude.{
  ℕ, zero, suc, ◌+◌, ◌-◌, ◌≤◌, ◌≡◌, refl, sym, ap, ap₂, ◌∙◌, Bool, true, false, none, some, List,
  [], ◌∷◌, ◌++◌, append_assoc, append-nil, length, take, drop, slice, get_or, ltb, arith, inl, inr,
  Bool-cases, Option-cases, drop-drop, drop_all, length-drop,
}
use tg_ws_proxy_rust.Prelude.Bytes.{Bytes}
use tg_ws_proxy_rust.Splitter.{Loop, split_loop, next_packet_len}

pub record Cutting : Type 0 where
  pub parts : List Bytes
  pub cipher : Bytes
  pub plain : Bytes
  pub gave_up : Bool

unfoldable pub cut : ℕ → ℕ → Bytes → Bytes → Cutting
cut zero proto cipher plain = record { parts = []; cipher = cipher; plain = plain; gave_up = false }
cut (suc fuel) proto cipher plain = elim (next_packet_len proto plain 0 (length cipher)) [
  | none ↦ record { parts = []; cipher = cipher; plain = plain; gave_up = false }
  | some zero ↦ record { parts = cipher ∷ []; cipher = []; plain = []; gave_up = true }
  | some (suc n) ↦
      let r = cut fuel proto (drop (suc n) cipher) (drop (suc n) plain) in
      record r { parts = take (suc n) cipher ∷ r.parts }
]

get_or-drop : (xs : Bytes) (i : ℕ) → get_or xs i 0 ≡ get_or (drop i xs) 0 0
get_or-drop [] zero = refl
get_or-drop [] (suc i) = refl
get_or-drop (x ∷ xs) zero = refl
get_or-drop (x ∷ xs) (suc i) = get_or-drop xs i

slice-drop : (xs : Bytes) (i a b : ℕ) → slice (i + a) (i + b) xs ≡ slice a b (drop i xs)
slice-drop xs i a b =
    let e : i + b - (i + a) ≡ b - a = omega arith in
    ap₂ (λ k t. take k t) e (sym (drop-drop i a xs))

slice-drop_zero : (xs : Bytes) (i b : ℕ) → slice i (i + b) xs ≡ slice 0 b (drop i xs)
slice-drop_zero xs i b = let e : i + b - i ≡ b - 0 = omega arith in ap (λ k. take k (drop i xs)) e

-- The length of the packet at an offset depends on what stands from there on.
next-drop :
    (proto : ℕ) (plain : Bytes) (offset avail : ℕ)
    → next_packet_len proto plain offset avail ≡ next_packet_len proto (drop offset plain) 0 avail
unfolding next_packet_len
next-drop proto plain offset avail =
    rw (get_or-drop plain offset, slice-drop plain offset 1 4, slice-drop_zero plain offset 4) refl

next_zero : (proto : ℕ) (plain : Bytes) → next_packet_len proto plain 0 0 ≡ none
unfolding next_packet_len
next_zero proto plain = refl

pub next-le-avail :
    (proto avail n : ℕ) (plain : Bytes) → next_packet_len proto plain 0 avail ≡ some n → n ≤ avail
unfolding next_packet_len
next-le-avail proto avail n plain h = ground arith

-- The loop ends with what `cut` makes of the rest of the buffers.
pub record Agrees (parts : List Bytes) (cipher plain : Bytes) (r : Loop) (c : Cutting)
    : Type 0 where
  pub same_parts : r.parts ≡ parts ++ c.parts
  pub same_cipher : drop r.offset cipher ≡ c.cipher
  pub same_plain : drop r.offset plain ≡ c.plain
  pub same_end : r.gave_up ≡ c.gave_up

pub split_loop-cut :
    (fuel proto : ℕ) (cipher plain : Bytes) (offset : ℕ) (parts : List Bytes)
    → length plain ≡ length cipher
    → offset ≤ length cipher
    → Agrees parts cipher plain
        (split_loop fuel proto cipher plain offset parts)
        (cut fuel proto (drop offset cipher) (drop offset plain))
unfolding split_loop cut
split_loop-cut zero proto cipher plain offset parts hl ho = record {
  same_parts = sym (append-nil parts);
  same_cipher = refl;
  same_plain = refl;
  same_end = refl;
}
split_loop-cut (suc fuel) proto cipher plain offset parts hl ho =
    elim (Bool-cases (ltb offset (length cipher))) [
      | inr done ↦
          let e : drop offset cipher ≡ [] = drop_all offset cipher (ground arith) in
          let z : next_packet_len proto (drop offset plain) 0 (length (drop offset cipher)) ≡ none =
            ap (λ (t : Bytes). next_packet_len proto (drop offset plain) 0 (length t)) e
            ∙ next_zero proto (drop offset plain) in
          rw (done, z, split_loop, cut)
            (record {
              same_parts = sym (append-nil parts);
              same_cipher = refl;
              same_plain = refl;
              same_end = refl;
            })
      | inl more ↦
          let e : next_packet_len proto (drop offset plain) 0 (length (drop offset cipher))
              ≡ next_packet_len proto plain offset (length cipher - offset) =
            ap (λ a. next_packet_len proto (drop offset plain) 0 a) (length-drop offset cipher)
            ∙ sym (next-drop proto plain offset (length cipher - offset)) in
          elim (Option-cases (next_packet_len proto plain offset (length cipher - offset))) [
            | inl more_bytes ↦
                rw (more, more_bytes, split_loop)
                  (rw (e ∙ more_bytes, cut)
                    (record {
                      same_parts = sym (append-nil parts);
                      same_cipher = refl;
                      same_plain = refl;
                      same_end = refl;
                    }))
            | inr (zero, bad) ↦
                rw (more, bad, split_loop)
                  (rw (e ∙ bad, cut)
                    (record {
                      same_parts = refl;
                      same_cipher = drop_all (length cipher) cipher (omega arith);
                      same_plain = drop_all (length cipher) plain (omega arith);
                      same_end = refl;
                    }))
            | inr (suc n, good) ↦
                let part = slice offset (offset + suc n) cipher in
                let fits : suc n ≤ length cipher - offset = omega (
                  arith,
                  next-le-avail proto (length (drop offset cipher)) (suc n) (drop offset plain)
                      (e ∙ good),
                  length-drop offset cipher,
                ) in
                let ih =
                  split_loop-cut fuel proto cipher plain (offset + suc n) (parts ++ (part ∷ [])) hl
                    (omega arith) in
                let rest =
                  (cut fuel proto (drop (offset + suc n) cipher)
                    (drop (offset + suc n) plain)).parts in
                let width : offset + suc n - offset ≡ suc n = omega arith in
                rw (more, good, split_loop)
                  (rw (e ∙ good, cut)
                    (rw (drop-drop offset (suc n) cipher, drop-drop offset (suc n) plain)
                      (record {
                        same_parts =
                            ih.same_parts
                            ∙ append_assoc parts (part ∷ []) rest
                            ∙ ap (λ k. parts ++ (take k (drop offset cipher) ∷ rest)) width;
                        same_cipher = ih.same_cipher;
                        same_plain = ih.same_plain;
                        same_end = ih.same_end;
                      })))
          ]
    ]
