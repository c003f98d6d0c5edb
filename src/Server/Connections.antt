-- ===== src/Server/Connections.antt =====
-- examples/mock_server.rs: the reads of a connection, its first and last lines, and the accepted
-- connections. Each connection has its own thread, and so its own lines. Those for standard error
-- stand among the others.
use ecapplog_rust.Base.{
  ℕ, true, false, List, [], ◌∷◌, ◌++◌, map, Option, none, some, ◌≡◌, refl, ap, ◌∙◌, arith, length,
  All, Bool-cases, inl, inr, is_nil, if◌then◌else◌,
}
use ecapplog_rust.Base.Text.{Text, codes}
use ecapplog_rust.Proto.{banner_payload}
use ecapplog_rust.Server.{
  Report, named, entry, Session, connected, next_frame, incomplete, read, handle,
}
use ecapplog_rust.Server.Chunks.{concat, handle-concat, read_open, read_closed, decode-turn}
use ecapplog_rust.Server.Stream.{stream, Short, handle-stream}

-- `main`'s argument, or the address at which clients connect by default.
unfoldable pub listen_address : List Text → Text
listen_address (program ∷ address ∷ rest) = address
listen_address _ = codes "127.0.0.1:13991"

-- What `stream.read` gives: bytes, none of them at the end, or an error.
pub data ReadResult : Type 0 where
  got : Text → ReadResult
  connection_reset : ReadResult
  failed : Text → ReadResult

pub data Line : Type 0 where
  connected_to : Text → Line
  reported : Report → Line
  read_failed : Text → Line
  disconnected : Text → ℕ → Line
  accept_failed : Text → Line

unfoldable pub peer_name : Option Text → Text
peer_name none = codes "<unknown>"
peer_name (some peer) = peer

abbrev pub said : Session → List Line
said s = map reported s.reports

unfoldable pub hung_up : Text → Session → List Line
hung_up peer s = said s ++ disconnected peer s.count ∷ []

-- The loop of `handle` over what the reads give. Without a next one it waits, and a session that was
-- closed returns at once.
unfoldable pub converse : Text → Session × Text → List ReadResult → List Line
unfolding hung_up
converse peer c [] = said c.0
converse peer c (got [] ∷ rs) = hung_up peer c.0
converse peer c (got (b ∷ bytes) ∷ rs) =
    let next = read c (b ∷ bytes) in
    let rest = converse peer next rs in if next.0.closed then said next.0 else rest
converse peer c (connection_reset ∷ rs) = hung_up peer c.0
converse peer c (failed e ∷ rs) = said c.0 ++ read_failed e ∷ disconnected peer c.0.count ∷ []

unfoldable pub attend : Option Text → List ReadResult → List Line
unfolding converse peer_name
attend peer rs = connected_to (peer_name peer) ∷ converse (peer_name peer) (connected, []) rs

-- What `listener.incoming` gives: a connection, with its peer where that is known, or an error.
pub data Incoming : Type 0 where
  accepted : Option Text → List ReadResult → Incoming
  refused : Text → Incoming

unfoldable pub serve : Incoming → List Line
unfolding attend
serve (accepted peer rs) = attend peer rs
serve (refused e) = accept_failed e ∷ []

-- How a connection ends when no read fails otherwise.
pub data Ends : ReadResult → Type 0 where
  at_end : Ends (got [])
  by_reset : Ends connection_reset

abbrev pub HasBytes : Text → Type 0
HasBytes chunk = is_nil chunk ≡ false

handle_closed : (c : Session × Text) (chunks : List Text) → c.0.closed ≡ true → handle c chunks ≡ c
unfolding handle
handle_closed c [] h = refl
handle_closed c (chunk ∷ chunks) h =
    let e = read_closed c.0 c.1 chunk h in ap (λ x. handle x chunks) e ∙ handle_closed c chunks h

converse-handle :
    (peer : Text) (c : Session × Text) (chunks : List Text) (rs : List ReadResult)
    → All HasBytes chunks
    → (handle c chunks).0.closed ≡ false
    → converse peer c (map got chunks ++ rs) ≡ converse peer (handle c chunks) rs
unfolding handle converse read
converse-handle peer c [] rs h k = refl
converse-handle peer c ([] ∷ chunks) rs (h, hs) k = cc
converse-handle peer c ((b ∷ bytes) ∷ chunks) rs (h, hs) k =
    elim (Bool-cases (read c (b ∷ bytes)).0.closed) [
      | inl e ↦ cc (ap (λ x. x.0.closed) (handle_closed (read c (b ∷ bytes)) chunks e))
      | inr e ↦ rw e (converse-handle peer (read c (b ∷ bytes)) chunks rs hs k)
    ]

converse-Ends :
    {r : ReadResult} (peer : Text) (c : Session × Text) (rs : List ReadResult)
    → Ends r
    → converse peer c (r ∷ rs) ≡ hung_up peer c.0
unfolding converse
converse-Ends peer c rs at_end = refl
converse-Ends peer c rs by_reset = refl

-- A client that sends its banner and its entries, and goes, whether it closes or the connection is
-- reset, is printed as connected, with its name, each of its entries in order, and as disconnected
-- after as many entries as it sent, however its bytes are cut into reads; a last frame that is cut off
-- is not printed. The banner and all payloads are within the limit.
pub serve-stream :
    (peer : Option Text) (app_name : Text) (ps : List Text) (tail chunk : Text) (chunks : List Text)
    (end : ReadResult) (rs : List ReadResult)
    → Short (banner_payload app_name)
    → All Short ps
    → next_frame tail ≡ incomplete
    → concat (chunk ∷ chunks) ≡ stream app_name ps ++ tail
    → All HasBytes (chunk ∷ chunks)
    → Ends end
    → serve (accepted peer (map got (chunk ∷ chunks) ++ end ∷ rs))
      ≡ connected_to (peer_name peer)
        ∷ reported (named app_name)
        ∷ (map reported (map entry ps) ++ disconnected (peer_name peer) (length ps) ∷ [])
unfolding serve hung_up
serve-stream peer app_name ps tail chunk chunks end rs b short t e h x =
    let name = peer_name peer in
    let s = handle-stream app_name ps tail chunk chunks b short t e in
    let k : (handle (connected, []) (chunk ∷ chunks)).0.closed ≡ false = ap (λ c. c.0.closed) s in
    ap (◌∷◌ (connected_to name)) (
      converse-handle name (connected, []) (chunk ∷ chunks) (end ∷ rs) h k
      ∙ converse-Ends name (handle (connected, []) (chunk ∷ chunks)) rs x
      ∙ ap (λ (c : Session × Text). hung_up name c.0) s
      ∙ ap
          (λ (n : ℕ).
            reported (named app_name) ∷ (map reported (map entry ps) ++ disconnected name n ∷ []))
          (omega arith))

nothing_yet :
    (chunks : List Text)
    → next_frame (concat chunks) ≡ incomplete
    → (handle (connected, []) chunks).0 ≡ connected
unfolding handle
nothing_yet [] h = refl
nothing_yet (x ∷ xs) h =
    let s = concat (x ∷ xs) in
    ap (λ c. c.0)
      (handle-concat (connected, []) x xs
        ∙ read_open connected [] s refl
        ∙ decode-turn (length s) connected s incomplete h)

-- A client that goes before its banner has arrived whole is printed as connected and as disconnected,
-- with no entry and no complaint.
pub serve-unheard :
    (peer : Option Text) (chunks : List Text) (end : ReadResult) (rs : List ReadResult)
    → next_frame (concat chunks) ≡ incomplete
    → All HasBytes chunks
    → Ends end
    → serve (accepted peer (map got chunks ++ end ∷ rs))
      ≡ connected_to (peer_name peer) ∷ disconnected (peer_name peer) 0 ∷ []
unfolding serve hung_up
serve-unheard peer chunks end rs t h x =
    let name = peer_name peer in
    let n = nothing_yet chunks t in
    ap (◌∷◌ (connected_to name)) (
      converse-handle name (connected, []) chunks (end ∷ rs) h (ap (λ (s : Session). s.closed) n)
      ∙ converse-Ends name (handle (connected, []) chunks) rs x
      ∙ ap (λ (s : Session). hung_up name s) n)
