-- ===== src/Reader.antt =====
-- The bytes that an `asyncio.StreamReader` has still to deliver before its end of file, and
-- `readexactly`, whose result does not depend on how they arrive. A reading coroutine is a function
-- of these bytes; `none` is the IncompleteReadError that it raises.
use tg_ws_proxy_rust.Prelude.{
  sym, ◌∙◌, ℕ, ◌≡◌, Option, none, some, false, ◌++◌, ltb, length, take, drop, if◌then◌else◌, arith,
  Option-cases, inl, inr, length-take, length-drop, ◌+◌, take-append, drop-append, length-append,
  ◌<◌,
}
use tg_ws_proxy_rust.Prelude.Bytes.{Bytes}

abbrev pub Reads : Type 0 → Type 0
Reads A = Bytes → Option (A × Bytes)

abbrev pub pure : {A : Type 0} → A → Reads A
pure a s = some (a, s)

infixl 5 ◌>>=◌
abbrev pub ◌>>=◌ : {A B : Type 0} → Reads A → (A → Reads B) → Reads B
◌>>=◌ m f s = elim (m s) [ none ↦ none | some (a, s') ↦ f a s' ]

-- reader.readexactly(n)
unfoldable pub readexactly : ℕ → Reads Bytes
readexactly n s = if ltb (length s) n then none else some (take n s, drop n s)

pub readexactly-append :
    (n : ℕ) (xs rest : Bytes) → length xs ≡ n → readexactly n (xs ++ rest) ≡ some (xs, rest)
unfolding readexactly
readexactly-append n xs rest h =
    let e : ltb (length (xs ++ rest)) n ≡ false = ground (arith, length-append xs rest) in
    rw (e, take-append n xs rest h, drop-append n xs rest h)

-- Short input raises.
pub readexactly_short : (n : ℕ) (s : Bytes) → length s < n → readexactly n s ≡ none
unfolding readexactly
readexactly_short n s h = ground arith

pub >>=-some :
    {A B : Type 0} (m : Reads A) (f : A → Reads B) (s : Bytes) {a : A} {t : Bytes}
    → m s ≡ some (a, t)
    → (m >>= f) s ≡ f a t
>>=-some m f s e = rw (e, ◌>>=◌)

pub >>=-none :
    {A B : Type 0} (m : Reads A) (f : A → Reads B) (s : Bytes) → m s ≡ none → (m >>= f) s ≡ none
>>=-none m f s e = rw (e, ◌>>=◌)

-- What is read and what is left make up the input.
pub length-readexactly :
    (n : ℕ) (s : Bytes) {xs t : Bytes}
    → readexactly n s ≡ some (xs, t)
    → (length xs ≡ n) × (n + length t ≡ length s)
unfolding readexactly
length-readexactly n s h = ground (arith, length-take n s, length-drop n s)

-- Inversion of a bind that did not raise.
pub >>=-cases :
    {A B : Type 0} (m : Reads A) (f : A → Reads B) (s : Bytes) {r : B × Bytes}
    → (m >>= f) s ≡ some r
    → (a : A) × (t : Bytes) × (m s ≡ some (a, t)) × (f a t ≡ some r)
>>=-cases m f s h = elim (Option-cases (m s)) [
  | inl e ↦ absurd (cc (>>=-none m f s e))
  | inr ((a, t), e) ↦ (a, t, e, sym (>>=-some m f s e) ∙ h)
]
