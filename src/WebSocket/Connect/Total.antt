-- ===== src/WebSocket/Connect/Total.antt =====
-- `RawWebSocket.connect` ends, and closes its writer.
use tg_ws_proxy_rust.Prelude.{
  ℕ, zero, suc, ◌≤◌, ◌<◌, ◌≡◌, ◌≢◌, refl, ap, Bool, true, false, not, List, [], ◌∷◌, Option, none,
  some, length, ◌==◌, inl, inr, Bool-cases, arith,
}
use tg_ws_proxy_rust.Prelude.Bytes.{Bytes}
use tg_ws_proxy_rust.Prelude.Int.{ℤ}
use tg_ws_proxy_rust.Prelude.Text.{Text}
use tg_ws_proxy_rust.WebSocket.Connect.{
  End, eof, stalls, fails, onto_line, take_line, at_end, line_or_end, readline, Head, head,
  head_timed_out, head_broken, out_of_fuel, onto_head, head_line, is_end_line, read_head, Connected,
  opened, refused, timeout, failed_read, Writer, is_101, status_code, answer, after_head, connect,
}

take_line-length : (s l rest : Bytes) → take_line s ≡ some (l, rest) → length rest < length s
unfolding take_line
take_line-length [] l rest h = cc
take_line-length (c ∷ cs) l rest h = elim (Bool-cases (c == 10)) [
  | inl e ↦
      let k : some (10 ∷ [], cs) ≡ some (l, rest) = rw e at h in
      let same : cs ≡ rest = cc in omega (arith, ap (λ (t : Bytes). length t) same)
  | inr e ↦ deeper (take_line-length cs) (take_line cs) refl (rw e at h)
]
  where
    deeper :
        ((l' rest' : Bytes) → take_line cs ≡ some (l', rest') → length rest' < length cs)
        → (o : Option (Bytes × Bytes)) → take_line cs ≡ o
        → onto_line c o ≡ some (l, rest)
        → length rest < length (c ∷ cs)
    deeper again none f k = cc
    deeper again (some (l', rest')) f k =
        let same : rest' ≡ rest = cc in
        omega (arith, again l' rest' f, ap (λ (t : Bytes). length t) same)

onto_head-ne : (l : Bytes) (h : Head) → h ≢ out_of_fuel → onto_head l h ≢ out_of_fuel
onto_head-ne l (head lines rest) h = λ e. cc
onto_head-ne l head_timed_out h = λ e. cc
onto_head-ne l head_broken h = λ e. cc
onto_head-ne l out_of_fuel h = λ e. h refl

head_line-end :
    (fuel : ℕ) (end : End) (s : Bytes)
    → (1 ≤ length s → read_head fuel end [] ≢ out_of_fuel)
    → head_line (read_head fuel end) (at_end end s) ≢ out_of_fuel
unfolding head_line
head_line-end fuel eof [] h = λ e. cc
head_line-end fuel eof (c ∷ cs) h = elim (Bool-cases (is_end_line (c ∷ cs))) [
  | inl blank ↦ rw (blank, head_line) (λ f. cc)
  | inr more ↦
      rw (more, head_line) (onto_head-ne (c ∷ cs) (read_head fuel eof []) (h (omega arith)))
]
head_line-end fuel stalls s h = λ e. cc
head_line-end fuel fails s h = λ e. cc

read_head-ne :
    (fuel : ℕ) (end : End) (s : Bytes) → length s < fuel → read_head fuel end s ≢ out_of_fuel
unfolding read_head readline head_line
read_head-ne zero end s h = absurd (omega arith)
read_head-ne (suc fuel) end s h = by_line (read_head-ne fuel end) (take_line s) refl
  where
    by_line :
        ((t : Bytes) → length t < fuel → read_head fuel end t ≢ out_of_fuel)
        → (o : Option (Bytes × Bytes)) → take_line s ≡ o
        → head_line (read_head fuel end) (line_or_end end s o) ≢ out_of_fuel
    by_line next (some (l, rest)) e = elim (Bool-cases (is_end_line l)) [
      | inl blank ↦ rw (blank, head_line) (λ f. cc)
      | inr more ↦
          rw (more, head_line)
            (onto_head-ne l (read_head fuel end rest)
              (next rest (omega (arith, take_line-length s l rest e))))
    ]
    by_line next none e = head_line-end fuel end s (λ some_left. next [] (omega arith))

-- What is known of the writer when `connect` ends.
abbrev pub is_left_open : Connected → Bool
is_left_open (opened s) = true
is_left_open (refused status_code status_line headers location) = false
is_left_open timeout = false
is_left_open failed_read = true

module _ (decode : Bytes → Text) (int_of : Text → Option ℤ) (lower : Text → Text)
    (path domain ws_key : Bytes) where
  answer-writer :
      (lines : List Text) (rest : Bytes) (w : Writer)
      → w.writer_closed ≡ false
      → let (c, w') = answer decode int_of lower lines rest w in
        w'.writer_closed ≡ not (is_left_open c)
  unfolding answer
  answer-writer [] rest w h = refl
  answer-writer (l ∷ ls) rest w h = elim (Bool-cases (is_101 (status_code decode int_of lower l))) [
    | inl e ↦ rw e h
    | inr e ↦ rw e refl
  ]

  after_head-writer :
      (found : Head) (w : Writer)
      → w.writer_closed ≡ false
      → let (c, w') = after_head decode int_of lower found w in
        w'.writer_closed ≡ not (is_left_open c)
  unfolding after_head
  after_head-writer (head lines rest) w h = answer-writer _ rest w h
  after_head-writer head_timed_out w h = refl
  after_head-writer head_broken w h = h
  after_head-writer out_of_fuel w h = h

-- Whatever the server sends and however its stream ends, the loop over the lines ends, and when
-- `connect` does, its writer is open for a session and for an exception of the reader that is no
-- timeout, and closed in all other cases.
pub connect-writer_closed :
    (decode : Bytes → Text) (int_of : Text → Option ℤ) (lower : Text → Text)
    (path domain ws_key : Bytes) (end : End) (input : Bytes)
    → (read_head (suc (length input)) end input ≢ out_of_fuel)
      × (let (c, w) = connect decode int_of lower path domain ws_key end input in
          w.writer_closed ≡ not (is_left_open c))
unfolding connect
connect-writer_closed decode int_of lower path domain ws_key end input = (
  read_head-ne (suc (length input)) end input (omega arith),
  after_head-writer decode int_of lower path domain ws_key
      (read_head (suc (length input)) end input) _ refl,
)
