-- ===== src/WebSocket/Frame/Consumes.antt =====
-- A frame takes two bytes of the input at least.
use tg_ws_proxy_rust.Prelude.{
  ap, ℕ, ◌+◌, ◌≤◌, ◌≡◌, Bool, true, false, Option, none, some, length, ◌==◌, if◌then◌else◌, bit_and,
  get_or, arith, inl, inr, Bool-cases,
}
use tg_ws_proxy_rust.Prelude.Bytes.{Bytes}
use tg_ws_proxy_rust.Reader.{readexactly, >>=-cases, length-readexactly}
use tg_ws_proxy_rust.WebSocket.Frame.{read_frame, read_length, read_payload}

-- How much a reading coroutine has left over.
abbrev rest_length : {A : Type 0} → Option (A × Bytes) → ℕ
rest_length none = 0
rest_length (some (a, t)) = length t

length-read_length :
    (n : ℕ) (s t : Bytes) (k : ℕ) → read_length n s ≡ some (k, t) → length t ≤ length s
unfolding read_length
length-read_length n s t k h = elim (Bool-cases (n == 126)) [
  | inl two ↦
      let (bs, u, e, f) = >>=-cases (readexactly 2) _ s (rw two at h) in
      omega (arith, length-readexactly 2 s e, ap rest_length f)
  | inr more ↦ elim (Bool-cases (n == 127)) [
    | inl eight ↦
        let (bs, u, e, f) = >>=-cases (readexactly 8) _ s (rw (more, eight) at h) in
        omega (arith, length-readexactly 8 s e, ap rest_length f)
    | inr short ↦ omega (arith, ap rest_length (rw (more, short) at h))
  ]
]

length-read_payload :
    (masked : Bool) (op n : ℕ) (s t : Bytes) (p : ℕ × Bytes)
    → read_payload masked op n s ≡ some (p, t)
    → length t ≤ length s
unfolding read_payload
length-read_payload false op n s t p h =
    let (xs, u, e, f) = >>=-cases (readexactly n) _ s h in
    omega (arith, length-readexactly n s e, ap rest_length f)
length-read_payload true op n s t p h =
    let (k, u, e, f) = >>=-cases (readexactly 4) _ s h in
    let (xs, v, e', g) = >>=-cases (readexactly n) _ u f in
    omega (arith, length-readexactly 4 s e, length-readexactly n u e', ap rest_length g)

pub length-read_frame :
    (s t : Bytes) (p : ℕ × Bytes) → read_frame s ≡ some (p, t) → length t + 2 ≤ length s
unfolding read_frame
length-read_frame s t p h =
    let (hdr, u, e, f) = >>=-cases (readexactly 2) _ s h in
    let (n, v, e', g) = >>=-cases (read_length (bit_and (get_or hdr 1 0) 0x7F)) _ u f in
    omega (
      arith,
      length-readexactly 2 s e,
      length-read_length (bit_and (get_or hdr 1 0) 0x7F) u v n e',
      length-read_payload (if bit_and (get_or hdr 1 0) 0x80 == 0 then false else true)
          (bit_and (get_or hdr 0 0) 0x0F) n v t p g,
    )
