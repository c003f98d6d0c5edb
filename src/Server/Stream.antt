-- ===== src/Server/Stream.antt =====
-- src/proto.rs against examples/mock_server.rs: the frames of a connection and their decoding.
use ecapplog_rust.Base.{
  ℕ, zero, suc, ◌+◌, ◌≤◌, ◌<◌, ◌≡◌, refl, ap, ◌∙◌, List, [], ◌∷◌, ◌++◌, append_assoc, append-nil,
  length, length-append, map, take, take-length-append, drop-length-append, All, true, false, arith,
  if◌then◌else◌,
}
use ecapplog_rust.Base.Text.{Text}
use ecapplog_rust.Proto.{cmd_banner, cmd_log, max_payload_size, encode_frame, banner_payload}
use ecapplog_rust.Server.{
  incomplete, frame, framed, next_frame, named, entry, Session, connected, on_banner, on_frame,
  decode, handle,
}
use ecapplog_rust.Server.Chunks.{decode-turn, read_open, whole, concat, handle-concat}

framed-append :
    (c : ℕ) (p rest : Text)
    → length p ≤ max_payload_size
    → framed c (length p) (p ++ rest) ≡ frame c p rest
unfolding framed
framed-append c p rest h =
    ground (arith, length-append p rest, take-length-append p rest, drop-length-append p rest)

-- A frame within the limit is the first frame of any stream that begins with it.
pub next_frame-encode_frame :
    (c : ℕ) (p out rest : Text)
    → length p ≤ max_payload_size
    → next_frame (encode_frame c p out ++ rest) ≡ frame c p rest
unfolding next_frame encode_frame
next_frame-encode_frame c p out rest h =
    ap (λ n. framed c n (p ++ rest)) (omega arith) ∙ framed-append c p rest h

abbrev pub log_frames : List Text → Text
log_frames [] = []
log_frames (p ∷ ps) = encode_frame cmd_log p [] ++ log_frames ps

-- The bytes of one connection: the banner, then a frame for each payload.
abbrev pub stream : Text → List Text → Text
stream app_name payloads =
    encode_frame cmd_banner (banner_payload app_name) [] ++ log_frames payloads

abbrev pub Short : Text → Type 0
Short p = length p ≤ max_payload_size

-- What the server has after the payloads.
abbrev pub after_entries : Session → List Text → Session
after_entries s ps = record s { count = s.count + length ps; reports = s.reports ++ map entry ps }

on_log :
    (s : Session) (p : Text)
    → on_frame s cmd_log p ≡ record s { count = s.count + 1; reports = s.reports ++ entry p ∷ [] }
unfolding on_frame
on_log s p = refl

pub length-encode_frame : (c : ℕ) (p out : Text) → length (encode_frame c p out) ≡ 5 + length p
unfolding encode_frame
length-encode_frame c p out = omega arith

again :
    (s : Session) (p : Text) (ps : List Text)
    → after_entries (record s { count = s.count + 1; reports = s.reports ++ entry p ∷ [] }) ps
      ≡ after_entries s (p ∷ ps)
again s p ps = ground (arith, append_assoc s.reports (entry p ∷ []) (map entry ps))

decode-log_frames :
    (f : ℕ) (s : Session) (ps : List Text) (tail : Text)
    → s.closed ≡ false
    → All Short ps
    → next_frame tail ≡ incomplete
    → length (log_frames ps ++ tail) < f
    → decode f s (log_frames ps ++ tail) ≡ (after_entries s ps, tail)
decode-log_frames zero s ps tail o short t h = absurd (omega arith)
decode-log_frames (suc f) s [] tail o short t h =
    decode-turn f s tail incomplete t
    ∙ ap (λ (s' : Session). (s', tail)) (ground (arith, append-nil s.reports))
decode-log_frames (suc f) s (p ∷ ps) tail o short t h =
    decode-turn f s ((encode_frame cmd_log p [] ++ log_frames ps) ++ tail) (frame cmd_log p rest) (
      ap next_frame (append_assoc (encode_frame cmd_log p []) (log_frames ps) tail)
      ∙ next_frame-encode_frame cmd_log p [] rest short.0)
    ∙ ap (λ t. if t.closed then (t, []) else decode f t rest) (on_log s p)
    ∙ ap (λ b. if b then (s', []) else decode f s' rest) o
    ∙ decode-log_frames f s' ps tail o short.1 t (
        omega (
          arith,
          length-append (encode_frame cmd_log p [] ++ log_frames ps) tail,
          length-append (encode_frame cmd_log p []) (log_frames ps),
          length-encode_frame cmd_log p [],
          length-append (log_frames ps) tail,
        ))
    ∙ ap (λ (t : Session). (t, tail)) (again s p ps)
  where
    rest : Text
    rest = log_frames ps ++ tail

    s' : Session
    s' = record s { count = s.count + 1; reports = s.reports ++ entry p ∷ [] }

abbrev pub greeted : Text → Session
greeted app_name = record {
  seen_banner = true;
  count = 0;
  reports = named app_name ∷ [];
  closed = false;
}

on_first_banner :
    (app_name : Text) → on_frame connected cmd_banner (banner_payload app_name) ≡ greeted app_name
unfolding on_frame on_banner banner_payload
on_first_banner app_name = refl

-- The server greets the application by its name and takes each payload as one entry, in order, and
-- stays connected; a last frame that is cut off waits in the buffer.
pub whole-stream :
    (app_name : Text) (ps : List Text) (tail : Text)
    → Short (banner_payload app_name)
    → All Short ps
    → next_frame tail ≡ incomplete
    → whole connected (stream app_name ps ++ tail) ≡ (after_entries (greeted app_name) ps, tail)
whole-stream app_name ps tail b short t =
    decode-turn (length all) connected all (frame cmd_banner banner rest) (
      ap next_frame (append_assoc first (log_frames ps) tail)
      ∙ next_frame-encode_frame cmd_banner banner [] rest b)
    ∙ ap (λ s. if s.closed then (s, []) else decode (length all) s rest) (on_first_banner app_name)
    ∙ decode-log_frames (length all) (greeted app_name) ps tail refl short t (
        omega (
          arith,
          length-append (first ++ log_frames ps) tail,
          length-append first (log_frames ps),
          length-encode_frame cmd_banner banner [],
          length-append (log_frames ps) tail,
        ))
  where
    banner : Text
    banner = banner_payload app_name

    first : Text
    first = encode_frame cmd_banner banner []

    rest : Text
    rest = log_frames ps ++ tail

    all : Text
    all = stream app_name ps ++ tail

-- The bytes of a connection, however they are cut into reads, make the server greet the application
-- by its name and take each payload as one entry, in order, and stay connected; a last frame that is
-- cut off waits in the buffer. The banner and all payloads are within the limit.
pub handle-stream :
    (app_name : Text) (ps : List Text) (tail chunk : Text) (chunks : List Text)
    → Short (banner_payload app_name)
    → All Short ps
    → next_frame tail ≡ incomplete
    → concat (chunk ∷ chunks) ≡ stream app_name ps ++ tail
    → handle (connected, []) (chunk ∷ chunks) ≡ (after_entries (greeted app_name) ps, tail)
handle-stream app_name ps tail chunk chunks b short t e =
    handle-concat (connected, []) chunk chunks
    ∙ read_open connected [] (concat (chunk ∷ chunks)) refl
    ∙ ap (whole connected) e
    ∙ whole-stream app_name ps tail b short t

next_frame_header :
    (c n : ℕ) (rest : Text) → n ≤ max_payload_size → length rest < n → framed c n rest ≡ incomplete
unfolding framed
next_frame_header c n rest h k = ground arith

cut_payload : (k : ℕ) (p : Text) → k < length p → length (take k p) < length p
cut_payload zero p h = h
cut_payload (suc k) [] h = elim h [ ]
cut_payload (suc k) (x ∷ p) h = omega (arith, cut_payload k p (omega arith))

-- A frame that is cut off anywhere is incomplete.
pub next_frame-take :
    (k c : ℕ) (p out : Text)
    → Short p
    → k < length (encode_frame c p out)
    → next_frame (take k (encode_frame c p out)) ≡ incomplete
unfolding next_frame encode_frame
next_frame-take zero c p out h lt = refl
next_frame-take (suc zero) c p out h lt = refl
next_frame-take (suc (suc zero)) c p out h lt = refl
next_frame-take (suc (suc (suc zero))) c p out h lt = refl
next_frame-take (suc (suc (suc (suc zero)))) c p out h lt = refl
next_frame-take (suc (suc (suc (suc (suc k))))) c p out h lt =
    ap (λ n. framed c n (take k p)) (omega arith)
    ∙ next_frame_header c (length p) (take k p) h (cut_payload k p (omega arith))
