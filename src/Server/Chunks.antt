-- ===== src/Server/Chunks.antt =====
-- examples/mock_server.rs: the decoding loop, and the stream that is cut into reads.
use ecapplog_rust.Base.{
  ℕ, zero, suc, ◌≤◌, ◌<◌, ◌≡◌, refl, ap, ◌∙◌, sym, List, [], ◌∷◌, ◌++◌, append_assoc, append-nil,
  length, length-append, length-drop, take, drop, ltb, true, false, arith, if◌then◌else◌,
  Bool-cases, inl, inr,
}
use ecapplog_rust.Base.Text.{Text}
use ecapplog_rust.Proto.{max_payload_size}
use ecapplog_rust.Server.{
  Frame, incomplete, oversized, frame, framed, next_frame, Session, too_long, hang_up, on_frame,
  decode, read, handle,
}

-- A frame takes its header and its payload off the buffer.
abbrev Shorter : Text → Frame → Type 0
Shorter buffer incomplete = Unit
Shorter buffer (oversized n) = Unit
Shorter buffer (frame c p rest) = length rest < length buffer

abbrev Extends : Text → Frame → Frame → Type 0
Extends more incomplete g = Unit
Extends more (oversized n) g = g ≡ oversized n
Extends more (frame c p rest) g = g ≡ frame c p (rest ++ more)

take-append {ℓ} :
    {A : Type ℓ} (n : ℕ) (xs ys : List A) → n ≤ length xs → take n (xs ++ ys) ≡ take n xs
take-append zero xs ys h = refl
take-append (suc n) [] ys h = elim h [ ]
take-append (suc n) (x ∷ xs) ys h = ap (◌∷◌ x) (take-append n xs ys (omega arith))

drop-append {ℓ} :
    {A : Type ℓ} (n : ℕ) (xs ys : List A) → n ≤ length xs → drop n (xs ++ ys) ≡ drop n xs ++ ys
drop-append zero xs ys h = refl
drop-append (suc n) [] ys h = elim h [ ]
drop-append (suc n) (x ∷ xs) ys h = drop-append n xs ys (omega arith)

framed-Extends :
    (c n : ℕ) (rest more : Text) → Extends more (framed c n rest) (framed c n (rest ++ more))
unfolding framed
framed-Extends c n rest more = elim (Bool-cases (ltb max_payload_size n)) [
  | inl big ↦ rw big refl
  | inr fits ↦ rw fits (elim (Bool-cases (ltb (length rest) n)) [
    | inl short ↦ rw short tt
    | inr full ↦
        let more_full : ltb (length (rest ++ more)) n ≡ false =
          ground (arith, length-append rest more) in
        let enough : n ≤ length rest = ground arith in
        rw (full, more_full, take-append n rest more enough, drop-append n rest more enough) refl
  ])
]

framed-Shorter :
    (c n k : ℕ) (rest buffer : Text)
    → length rest < length buffer
    → Shorter buffer (framed c n rest)
unfolding framed
framed-Shorter c n k rest buffer h = elim (Bool-cases (ltb max_payload_size n)) [
  | inl big ↦ rw big tt
  | inr fits ↦ rw fits (elim (Bool-cases (ltb (length rest) n)) [
    | inl short ↦ rw short tt
    | inr full ↦ rw full (omega (arith, length-drop n rest))
  ])
]

next_frame-Extends :
    (buffer more : Text) → Extends more (next_frame buffer) (next_frame (buffer ++ more))
unfolding next_frame
next_frame-Extends (c ∷ w ∷ x ∷ y ∷ z ∷ rest) more = framed-Extends c _ rest more
next_frame-Extends _ more = tt

next_frame-Shorter : (buffer : Text) → Shorter buffer (next_frame buffer)
unfolding next_frame
next_frame-Shorter (c ∷ w ∷ x ∷ y ∷ z ∷ rest) =
    framed-Shorter c _ 0 rest (c ∷ w ∷ x ∷ y ∷ z ∷ rest) (omega arith)
next_frame-Shorter _ = tt

-- The loop by what the buffer holds.
abbrev pub turn : ℕ → Session → Text → Frame → Session × Text
turn fuel s buffer incomplete = (s, buffer)
turn fuel s buffer (oversized n) = (hang_up s (too_long n), [])
turn fuel s buffer (frame c p rest) =
    if (on_frame s c p).closed then (on_frame s c p, []) else decode fuel (on_frame s c p) rest

pub decode-turn :
    (fuel : ℕ) (s : Session) (buffer : Text) (f : Frame)
    → next_frame buffer ≡ f
    → decode (suc fuel) s buffer ≡ turn fuel s buffer f
unfolding decode
decode-turn fuel s buffer incomplete e = rw (e, decode) refl
decode-turn fuel s buffer (oversized n) e = rw (e, decode) refl
decode-turn fuel s buffer (frame c p rest) e = rw (e, decode) refl

-- More fuel than bytes is enough: any two such amounts give the same.
pub same_fuel :
    (f g : ℕ) (s : Session) (buffer : Text)
    → length buffer < f
    → length buffer < g
    → decode f s buffer ≡ decode g s buffer
same_fuel zero g s buffer hf hg = absurd (omega arith)
same_fuel (suc f) zero s buffer hf hg = absurd (omega arith)
same_fuel (suc f) (suc g) s buffer hf hg =
    go (same_fuel f g) (next_frame buffer) refl (next_frame-Shorter buffer)
  where
    go :
        ((t : Session) (b : Text) → length b < f → length b < g → decode f t b ≡ decode g t b)
        → (n : Frame) → next_frame buffer ≡ n
        → Shorter buffer n
        → decode (suc f) s buffer ≡ decode (suc g) s buffer
    go ih incomplete e h =
        decode-turn f s buffer incomplete e ∙ sym (decode-turn g s buffer incomplete e)
    go ih (oversized n) e h =
        decode-turn f s buffer (oversized n) e ∙ sym (decode-turn g s buffer (oversized n) e)
    go ih (frame c p rest) e h =
        decode-turn f s buffer (frame c p rest) e
        ∙ ap (λ d. if (on_frame s c p).closed then (on_frame s c p, []) else d)
            (ih (on_frame s c p) rest (omega arith) (omega arith))
        ∙ sym (decode-turn g s buffer (frame c p rest) e)

abbrev pub whole : Session → Text → Session × Text
whole s buffer = decode (suc (length buffer)) s buffer

pub read_open :
    (s : Session) (buffer chunk : Text)
    → s.closed ≡ false
    → read (s, buffer) chunk ≡ whole s (buffer ++ chunk)
unfolding read
read_open s buffer chunk h = rw h refl

pub read_closed :
    (s : Session) (buffer chunk : Text) → s.closed ≡ true → read (s, buffer) chunk ≡ (s, buffer)
unfolding read
read_closed s buffer chunk h = rw h refl

-- Decoding a buffer and reading on is decoding the longer buffer.
read-decode :
    (f : ℕ) (s : Session) (buffer more : Text)
    → s.closed ≡ false
    → length buffer < f
    → read (decode f s buffer) more ≡ whole s (buffer ++ more)
read-decode zero s buffer more o h = absurd (omega arith)
read-decode (suc f) s buffer more o h =
    go (read-decode f) (next_frame buffer) refl (next_frame-Shorter buffer)
      (next_frame-Extends buffer more)
  where
    all : Text
    all = buffer ++ more

    go :
        ((t : Session) (b m : Text)
          → t.closed ≡ false
          → length b < f
          → read (decode f t b) m ≡ whole t (b ++ m))
        → (n : Frame) → next_frame buffer ≡ n
        → Shorter buffer n
        → Extends more n (next_frame all)
        → read (decode (suc f) s buffer) more ≡ whole s all
    go ih incomplete e sh x =
        ap (λ c. read c more) (decode-turn f s buffer incomplete e) ∙ read_open s buffer more o
    go ih (oversized n) e sh x =
        ap (λ c. read c more) (decode-turn f s buffer (oversized n) e)
        ∙ read_closed (hang_up s (too_long n)) [] more refl
        ∙ sym (decode-turn (length all) s all (oversized n) x)
    go ih (frame c p rest) e sh x =
        ap (λ d. read d more) (decode-turn f s buffer (frame c p rest) e)
        ∙ elim (Bool-cases (on_frame s c p).closed) [
          | inl shut ↦
              ap
                (λ b.
                  read (if b then (on_frame s c p, []) else decode f (on_frame s c p) rest) more)
                shut
              ∙ read_closed (on_frame s c p) [] more shut
              ∙ sym (decode-turn (length all) s all (frame c p (rest ++ more)) x ∙ rw shut refl)
          | inr goes ↦
              ap
                (λ b.
                  read (if b then (on_frame s c p, []) else decode f (on_frame s c p) rest) more)
                goes
              ∙ ih (on_frame s c p) rest more goes (omega arith)
              ∙ same_fuel (suc (length (rest ++ more))) (length all) (on_frame s c p) (rest ++ more)
                  (omega arith) (omega (arith, length-append rest more, length-append buffer more))
              ∙ sym (decode-turn (length all) s all (frame c p (rest ++ more)) x ∙ rw goes refl)
        ]

read-read : (c : Session × Text) (x y : Text) → read (read c x) y ≡ read c (x ++ y)
read-read (s, buffer) x y = elim (Bool-cases s.closed) [
  | inl shut ↦
      ap (λ c. read c y) (read_closed s buffer x shut)
      ∙ read_closed s buffer y shut
      ∙ sym (read_closed s buffer (x ++ y) shut)
  | inr o ↦
      ap (λ c. read c y) (read_open s buffer x o)
      ∙ read-decode (suc (length (buffer ++ x))) s (buffer ++ x) y o (omega arith)
      ∙ ap (whole s) (append_assoc buffer x y)
      ∙ sym (read_open s buffer (x ++ y) o)
]

abbrev pub concat : List Text → Text
concat [] = []
concat (x ∷ xs) = x ++ concat xs

-- Reading a stream in pieces, cut anywhere, leaves the connection as reading it in one piece does.
pub handle-concat :
    (c : Session × Text) (x : Text) (xs : List Text) → handle c (x ∷ xs) ≡ read c (concat (x ∷ xs))
unfolding handle
handle-concat c x [] = ap (read c) (sym (append-nil x))
handle-concat c x (y ∷ ys) = handle-concat (read c x) y ys ∙ read-read c x (concat (y ∷ ys))
