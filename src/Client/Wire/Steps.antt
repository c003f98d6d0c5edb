-- ===== src/Client/Wire/Steps.antt =====
-- src/client.rs: the connections at each step of the worker.
use ecapplog_rust.Base.{
  ◌≡◌, refl, ap, ◌∙◌, sym, subst, List, [], ◌∷◌, ◌++◌, map, append_assoc, append-nil, true, arith,
  Bool-cases, inl, inr, ltb, length, All,
}
use ecapplog_rust.Base.Text.{Text}
use ecapplog_rust.Error.{Error}
use ecapplog_rust.Record.{Record}
use ecapplog_rust.Proto.{
  Object, cmd_log, cmd_banner, max_payload_size, fields, from_record, encode_frame, banner_payload,
}
use ecapplog_rust.Server.Stream.{stream, Short}
use ecapplog_rust.Client
use ecapplog_rust.Client.{
  Config, refused, Attempt, Serialized, json, unserializable, WriteOutcome, complete, broken,
  accepted, discard, connection, write_json,
}
use ecapplog_rust.Client.Worker.{
  Pc, greeting, checking, popping, finishing, done, writing, World, onto, after_connect,
  at_greeting, after_write,
}
use ecapplog_rust.Client.Calm.{Calm, is_resting, is_serving}
use ecapplog_rust.Client.Wire.Carried.{
  heard, unheard, Carried, next_frame-nil, stream-append, All-append_one, map-append_one,
  accepted-broken,
}

abbrev pub payload : Serialized → Text
payload (json bytes) = bytes
payload (unserializable e) = []

-- The JSON of an entry.
abbrev pub payload_of : (Object → Serialized) → Record → Text
payload_of to_writer r = payload (to_writer (fields (from_record r)))

module _ (c : Config) (to_writer : Object → Serialized) where
  abbrev pub sent : World → List Text
  sent w = map (payload_of to_writer) w.written

  -- No connection is in use.
  abbrev pub Shut : World → Type 0
  Shut w = Carried c.app_name w.streams (sent w)

  -- A connection was made, and nothing is sent on it yet.
  abbrev pub Fresh : World → Type 0
  Fresh w = (ss : List Text) × (w.streams ≡ [] ∷ ss) × Carried c.app_name ss (sent w)

  -- The newest connection is in use: it has the banner and whole frames.
  abbrev pub Open : World → Type 0
  Open w =
      (ss : List Text) × (older : List Text) × (newer : List Text) × (w.streams
        ≡ stream c.app_name newer ∷ ss)
      × Carried c.app_name ss older
      × All Short newer
      × (sent w ≡ older ++ newer)

  abbrev pub WireAt : World → Pc → Type 0
  WireAt w greeting = Fresh w
  WireAt w checking = Open w
  WireAt w popping = Open w
  WireAt w (writing r) = Open w
  WireAt w finishing = Open w
  WireAt w _ = Shut w

  pub Open-Shut : (w : World) → Open w → Shut w
  Open-Shut w (ss, older, newer, e, k, short, s) =
      subst (λ l. Carried c.app_name l (sent w)) (sym e)
        (older, newer, s, heard [] short next_frame-nil (sym (append-nil _)), k)

  pub Shut-resting : (w : World) (p : Pc) → is_resting p ≡ true → Shut w → WireAt w p
  Shut-resting w greeting h v = cc
  Shut-resting w checking h v = cc
  Shut-resting w popping h v = cc
  Shut-resting w (writing r) h v = cc
  Shut-resting w finishing h v = cc
  Shut-resting w _ h v = v

  pub Open-serving : (w : World) (p : Pc) → is_serving p ≡ true → Open w → WireAt w p
  Open-serving w checking h v = v
  Open-serving w popping h v = v
  Open-serving w done h v = Open-Shut w v
  Open-serving w _ h v = cc

  pub Calm-Shut : {w u : World} → Calm w u → Shut w → Shut u
  Calm-Shut k v = rw (k.streams_kept, k.written_kept) v

  pub Calm-Open : {w u : World} → Calm w u → Open w → Open u
  Calm-Open k v = rw (k.streams_kept, k.written_kept) v

  module _ (b : Short (banner_payload c.app_name)) (w : World) where
    pub after_connect-WireAt :
        (a : Attempt) → Shut w → WireAt (after_connect c w a) (after_connect c w a).pc
    unfolding after_connect
    after_connect-WireAt (Client.stream a) v = (w.streams, refl, v)
    after_connect-WireAt (refused e) v = v

    pub at_greeting-WireAt :
        (o : WriteOutcome) → Fresh w → WireAt (at_greeting c o w) (at_greeting c o w).pc
    unfolding at_greeting accepted
    at_greeting-WireAt complete (ss, e, k) = (
      ss,
      sent w,
      [],
      ap (onto banner) e ∙ ap (λ s. s ∷ ss) (sym (append-nil banner)),
      k,
      tt,
      sym (append-nil (sent w)),
    )
      where
        banner : Text
        banner = encode_frame cmd_banner (banner_payload c.app_name) []
    at_greeting-WireAt (broken n x) (ss, e, k) =
        subst
          (λ l.
            Carried c.app_name
              (onto (accepted (broken n x) (encode_frame cmd_banner (banner_payload c.app_name) []))
                l)
              (sent w))
          (sym e)
          (
            sent w,
            [],
            sym (append-nil (sent w)),
            unheard (accepted-broken n cmd_banner x (banner_payload c.app_name) b) refl,
            k,
          )

    -- An entry that is discarded leaves the connection as it is.
    discard-WireAt :
        (r : Record) (x : Error)
        → Open w
        → let u = after_write c w r (discard x, []) in WireAt u u.pc
    unfolding after_write
    discard-WireAt r x (ss, older, newer, e, k, short, s) =
        (ss, older, newer, ap (onto []) e ∙ ap (λ t. t ∷ ss) (append-nil _), k, short, s)

    write_frame-WireAt :
        (o : WriteOutcome) (r : Record) (bytes : Text)
        → payload_of to_writer r ≡ bytes
        → Short bytes
        → Open w
        → let u =
            after_write c w r (Client.write_all o, accepted o (encode_frame cmd_log bytes [])) in
          WireAt u u.pc
    unfolding after_write Client.write_all
    write_frame-WireAt complete r bytes p h (ss, older, newer, e, k, short, s) = (
      ss,
      older,
      newer ++ bytes ∷ [],
      ap (onto (accepted complete (encode_frame cmd_log bytes []))) e
          ∙ ap (λ t. t ∷ ss) (unfold accepted in sym (stream-append c.app_name newer bytes)),
      k,
      All-append_one newer bytes short h,
      map-append_one (payload_of to_writer) w.written r
          ∙ rw (s, p) (append_assoc older newer (bytes ∷ [])),
    )
    write_frame-WireAt (broken n x) r bytes p h (ss, older, newer, e, k, short, s) =
        subst
          (λ l.
            Carried c.app_name (onto (accepted (broken n x) (encode_frame cmd_log bytes [])) l)
              (sent w))
          (sym e) (older, newer, s, heard _ short (accepted-broken n cmd_log x bytes h) refl, k)

    pub after_write-WireAt :
        (o : WriteOutcome) (r : Record) (j : Serialized)
        → to_writer (fields (from_record r)) ≡ j
        → Open w
        → let u = after_write c w r (write_json o j) in WireAt u u.pc
    unfolding write_json
    after_write-WireAt o r (unserializable x) e v = discard-WireAt r _ v
    after_write-WireAt o r (json bytes) e v =
        elim (Bool-cases (ltb max_payload_size (length bytes))) [
          | inl big ↦ rw big (discard-WireAt r _ v)
          | inr fits ↦ rw fits (write_frame-WireAt o r bytes (ap payload e) (ground arith) v)
        ]
