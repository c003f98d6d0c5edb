-- ===== src/Client/Wire/Carried.antt =====
-- src/client.rs with src/proto.rs: the bytes that a connection can hold, and what they carry.
use ecapplog_rust.Base.{
  ℕ, ◌≡◌, refl, ap, ◌∙◌, sym, List, [], ◌∷◌, ◌++◌, map, append_assoc, append-nil, arith, length,
  min, ◌-◌, All,
}
use ecapplog_rust.Error.{IoError}
use ecapplog_rust.Proto.{cmd_log, cmd_banner, encode_frame, banner_payload}
use ecapplog_rust.Server.{next_frame, incomplete, connected, Report, entry}
use ecapplog_rust.Server.Chunks.{whole, decode-turn}
use ecapplog_rust.Server.Stream.{
  stream, log_frames, length-encode_frame, Short, whole-stream, next_frame-take,
}
use ecapplog_rust.Client.{broken, accepted}
use ecapplog_rust.Base.Text.{Text}

-- A connection that carried the payloads: the banner and a frame for each, and at most the beginning
-- of one more frame; or the beginning of a banner.
pub data Carries (app : Text) (s : Text) (ps : List Text) : Type 0 where
  heard :
      (tail : Text)
      → All Short ps
      → next_frame tail ≡ incomplete
      → s ≡ stream app ps ++ tail
      → Carries app s ps
  unheard : next_frame s ≡ incomplete → ps ≡ [] → Carries app s ps

-- All connections, the newest first, and the payloads they carried, the oldest first.
abbrev pub Carried : Text → List Text → List Text → Type 0
Carried app [] ps = ps ≡ []
Carried app (s ∷ ss) ps =
    (older : List Text) × (newer : List Text) × (ps ≡ older ++ newer)
    × Carries app s newer
    × Carried app ss older

-- What is printed as entries.
abbrev pub entries_of : List Report → List Text
entries_of [] = []
entries_of (entry p ∷ rs) = p ∷ entries_of rs
entries_of (r ∷ rs) = entries_of rs

-- The entries that a server decodes from the connections.
abbrev pub received : List Text → List Text
received [] = []
received (s ∷ ss) = received ss ++ entries_of (whole connected s).0.reports

entries_of-map : (ps : List Text) → entries_of (map entry ps) ≡ ps
entries_of-map [] = refl
entries_of-map (p ∷ ps) = ap (◌∷◌ p) (entries_of-map ps)

module _ (app : Text) (b : Short (banner_payload app)) where
  Carries-received :
      (s : Text) (ps : List Text) → Carries app s ps → entries_of (whole connected s).0.reports ≡ ps
  Carries-received s ps (heard tail short t e) =
      rw (e, whole-stream app ps tail b short t) (entries_of-map ps)
  Carries-received s ps (unheard t e) = rw (decode-turn (length s) connected s incomplete t) (sym e)

  pub Carried-received : (ss ps : List Text) → Carried app ss ps → received ss ≡ ps
  Carried-received [] ps e = sym e
  Carried-received (s ∷ ss) ps (older, newer, e, k, rest) =
      rw (Carried-received ss older rest, Carries-received s newer k) (sym e)

pub next_frame-nil : next_frame [] ≡ incomplete
unfolding next_frame
next_frame-nil = refl

log_frames-append :
    (ps : List Text) (p : Text)
    → log_frames (ps ++ p ∷ []) ≡ log_frames ps ++ encode_frame cmd_log p []
log_frames-append [] p = append-nil (encode_frame cmd_log p [])
log_frames-append (q ∷ ps) p =
    ap (◌++◌ (encode_frame cmd_log q [])) (log_frames-append ps p)
    ∙ sym (append_assoc (encode_frame cmd_log q []) (log_frames ps) (encode_frame cmd_log p []))

pub stream-append :
    (app : Text) (ps : List Text) (p : Text)
    → stream app (ps ++ p ∷ []) ≡ stream app ps ++ encode_frame cmd_log p []
stream-append app ps p =
    ap (◌++◌ (encode_frame cmd_banner (banner_payload app) [])) (log_frames-append ps p)
    ∙ sym (
        append_assoc (encode_frame cmd_banner (banner_payload app) []) (log_frames ps)
          (encode_frame cmd_log p []))

pub All-append_one : (ps : List Text) (p : Text) → All Short ps → Short p → All Short (ps ++ p ∷ [])
All-append_one [] p h k = (k, tt)
All-append_one (q ∷ ps) p h k = (h.0, All-append_one ps p h.1 k)

pub map-append_one {ℓ κ} :
    {A : Type ℓ} {B : Type κ} (f : A → B) (xs : List A) (x : A)
    → map f (xs ++ x ∷ []) ≡ map f xs ++ f x ∷ []
map-append_one f [] x = refl
map-append_one f (y ∷ xs) x = ap (◌∷◌ (f y)) (map-append_one f xs x)

-- A write that failed leaves an incomplete frame.
pub accepted-broken :
    (n cmd : ℕ) (e : IoError) (p : Text)
    → Short p
    → next_frame (accepted (broken n e) (encode_frame cmd p [])) ≡ incomplete
unfolding accepted
accepted-broken n cmd e p h =
    next_frame-take (min n (length (encode_frame cmd p []) - 1)) cmd p [] h
      (omega (arith, length-encode_frame cmd p []))
