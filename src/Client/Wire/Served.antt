-- ===== src/Client/Wire/Served.antt =====
-- src/client.rs with examples/mock_server.rs: what the server prints for each connection.
use ecapplog_rust.Base.{ℕ, ◌≡◌, sym, ◌∙◌, ap, subst, List, [], ◌∷◌, ◌++◌, map, Option, length, All}
use ecapplog_rust.Base.Text.{Text}
use ecapplog_rust.Queue.{new}
use ecapplog_rust.Proto.{Object, banner_payload, encode_frame}
use ecapplog_rust.Server.{named, entry, next_frame, incomplete}
use ecapplog_rust.Server.Chunks.{concat}
use ecapplog_rust.Server.Stream.{Short, stream}
use ecapplog_rust.Server.Connections.{
  ReadResult, got, Line, connected_to, reported, disconnected, peer_name, Incoming, accepted, serve,
  Ends, HasBytes, serve-stream, serve-unheard,
}
use ecapplog_rust.Client.{Config, Serialized}
use ecapplog_rust.Client.Worker.{Event, start, run}
use ecapplog_rust.Client.Wire.Carried.{Carries, heard, unheard, Carried}
use ecapplog_rust.Client.Wire.Steps.{payload_of}
use ecapplog_rust.Client.Wire.Delivery.{run-start-Carried}

-- A connection whose bytes the server reads in some pieces, until its end or a reset.
pub data Reads (s : Text) : Incoming → Type 0 where
  in_pieces :
      (peer : Option Text) (chunks : List Text) (end : ReadResult) (rs : List ReadResult)
      → concat chunks ≡ s
      → All HasBytes chunks
      → Ends end
      → Reads s (accepted peer (map got chunks ++ end ∷ rs))

abbrev pub AllRead : List Text → List Incoming → Type 0
AllRead [] [] = Unit
AllRead [] (v ∷ vs) = ⊥
AllRead (s ∷ ss) [] = ⊥
AllRead (s ∷ ss) (v ∷ vs) = Reads s v × AllRead ss vs

-- The lines for a connection: its greeting and its entries, with no complaint, or neither, if it broke
-- within the banner.
pub data Shows (app : Text) : List Text → List Line → Type 0 where
  greeted :
      (peer : Option Text) (ps : List Text)
      → Shows app ps (
          connected_to (peer_name peer)
          ∷ reported (named app)
          ∷ (map reported (map entry ps) ++ disconnected (peer_name peer) (length ps) ∷ []))
  cut_short :
      (peer : Option Text)
      → Shows app [] (connected_to (peer_name peer) ∷ disconnected (peer_name peer) 0 ∷ [])

-- All connections, the newest first, and the payloads that are shown for them, the oldest first.
abbrev pub AllShown : Text → List Incoming → List Text → Type 0
AllShown app [] ps = ps ≡ []
AllShown app (v ∷ vs) ps =
    (older : List Text) × (newer : List Text) × (ps ≡ older ++ newer)
    × Shows app newer (serve v)
    × AllShown app vs older

module _ (app : Text) (b : Short (banner_payload app)) where
  heard-Shows :
      (peer : Option Text) (ps : List Text) (tail : Text) (chunks : List Text) (end : ReadResult)
      (rs : List ReadResult)
      → All Short ps
      → next_frame tail ≡ incomplete
      → concat chunks ≡ stream app ps ++ tail
      → All HasBytes chunks
      → Ends end
      → Shows app ps (serve (accepted peer (map got chunks ++ end ∷ rs)))
  unfolding encode_frame
  heard-Shows peer ps tail [] end rs k t e h x = cc e
  heard-Shows peer ps tail (chunk ∷ chunks) end rs k t e h x =
      subst (Shows app ps) (sym (serve-stream peer app ps tail chunk chunks end rs b k t e h x))
        (greeted peer ps)

  Carries-Shows :
      {s : Text} {ps : List Text} {v : Incoming}
      → Carries app s ps
      → Reads s v
      → Shows app ps (serve v)
  Carries-Shows (heard tail k t e) (in_pieces peer chunks end rs c h x) =
      heard-Shows peer _ tail chunks end rs k t (c ∙ e) h x
  Carries-Shows (unheard t e) (in_pieces peer chunks end rs c h x) =
      let quiet = serve-unheard peer chunks end rs (ap next_frame c ∙ t) h x in
      subst (λ q. Shows app q (serve (accepted peer (map got chunks ++ end ∷ rs)))) (sym e)
        (subst (Shows app []) (sym quiet) (cut_short peer))

  Carried-AllShown :
      (ss : List Text) (vs : List Incoming) (ps : List Text)
      → Carried app ss ps
      → AllRead ss vs
      → AllShown app vs ps
  Carried-AllShown [] [] ps e r = e
  Carried-AllShown [] (v ∷ vs) ps e r = absurd r
  Carried-AllShown (s ∷ ss) [] ps k r = absurd r
  Carried-AllShown (s ∷ ss) (v ∷ vs) ps (older, newer, e, k, rest) (r, rs) =
      (older, newer, e, Carries-Shows k r, Carried-AllShown ss vs older rest rs)

-- After any interleaving of the callers, the clock and the worker, and however connects and writes
-- came out, the mock server has nothing to complain of: it reads the bytes of each connection in any
-- pieces, until the end or a reset, and prints for the connection that it is there, its application's
-- name, some entries and their count, or, where it broke within its banner, that it came and went; and
-- the entries of all connections, the oldest first, are the JSON of exactly the written ones, in their
-- order. The banner is within the limit.
pub run-start-served :
    (c : Config) (to_writer : Object → Serialized) (n : ℕ) (es : List Event) (vs : List Incoming)
    → Short (banner_payload c.app_name)
    → AllRead (run c to_writer (start (new n)) es).streams vs
    → AllShown c.app_name vs
        (map (payload_of to_writer) (run c to_writer (start (new n)) es).written)
run-start-served c to_writer n es vs b r =
    let w = run c to_writer (start (new n)) es in
    Carried-AllShown c.app_name b w.streams vs (map (payload_of to_writer) w.written)
      (run-start-Carried c to_writer n es b) r
