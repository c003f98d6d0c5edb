-- ===== src/Client/Reports/Kinds.antt =====
-- src/client.rs with src/error.rs: which errors connects and writes come to.
use ecapplog_rust.Base.{
  ℕ, ◌+◌, ◌≡◌, refl, List, [], ◌∷◌, ◌++◌, arith, length, ltb, Bool-cases, inl, inr, Option, some,
  none, Option-cases,
}
use ecapplog_rust.Error.{Error, queue_full, serialize, payload_too_large, resolve, IoError}
use ecapplog_rust.Record.{Record}
use ecapplog_rust.Proto.{Object, max_payload_size, fields, from_record}
use ecapplog_rust.Client.{
  Config, Network, dial_timeout, Resolved, found, unresolved, Attempt, stream, refused, connect,
  dial_each, Serialized, json, unserializable, WriteOutcome, complete, broken, WriteResult, ok,
  discard, connection, write_all, write_json, write_record,
}

-- Whether an error tells of an entry that the queue dropped, or of one that cannot be sent.
abbrev pub is_full : Error → ℕ
is_full (queue_full capacity total) = 1
is_full _ = 0

abbrev pub is_unsendable : Error → ℕ
is_unsendable (serialize e) = 1
is_unsendable (payload_too_large size limit) = 1
is_unsendable _ = 0

abbrev pub count : (Error → ℕ) → List Error → ℕ
count f [] = 0
count f (e ∷ es) = f e + count f es

pub count-append_one :
    (f : Error → ℕ) (es : List Error) (e : Error) → count f (es ++ e ∷ []) ≡ count f es + f e
count-append_one f [] e = omega arith
count-append_one f (x ∷ es) e = omega (arith, count-append_one f es e)

-- An error that tells of no entry.
abbrev pub IsSilent : Error → Type 0
IsSilent e = (is_full e ≡ 0) × (is_unsendable e ≡ 0)

abbrev pub AttemptIsSilent : Attempt → Type 0
AttemptIsSilent (stream a) = Unit
AttemptIsSilent (refused e) = IsSilent e

abbrev pub ResultTells : WriteResult → Type 0
ResultTells ok = Unit
ResultTells (discard e) = (is_full e ≡ 0) × (is_unsendable e ≡ 1)
ResultTells (connection e) = IsSilent e

module _ (c : Config) where
  dial_each-IsSilent :
      (n : Network) (t : ℕ) (addresses : List ℕ) (last : Option IoError)
      → AttemptIsSilent (dial_each c n t addresses last)
  unfolding dial_each
  dial_each-IsSilent n t [] none = (refl, refl)
  dial_each-IsSilent n t [] (some e) = (refl, refl)
  dial_each-IsSilent n t (a ∷ addresses) last = elim (Option-cases (n.dial a t)) [
    | inl h ↦ rw (h, AttemptIsSilent) tt
    | inr (e, h) ↦ rw (h, AttemptIsSilent) (dial_each-IsSilent n t addresses (some e))
  ]

  abbrev resolved_attempt : Network → Option ℕ → ℕ → Resolved → Attempt
  resolved_attempt n d now (unresolved e) = refused (resolve c.address e)
  resolved_attempt n d now (found addresses) = dial_each c n (dial_timeout c d now) addresses none

  resolved :
      (n : Network) (d : Option ℕ) (now : ℕ) (r : Resolved)
      → AttemptIsSilent (resolved_attempt n d now r)
  resolved n d now (unresolved e) = (refl, refl)
  resolved n d now (found addresses) = dial_each-IsSilent n (dial_timeout c d now) addresses none

  pub connect-IsSilent :
      (n : Network) (d : Option ℕ) (now : ℕ) → AttemptIsSilent (connect c n d now)
  unfolding connect
  connect-IsSilent n d now = resolved n d now (n.to_socket_addrs c.address)

sent : (o : WriteOutcome) → ResultTells (write_all o)
unfolding write_all
sent complete = tt
sent (broken n e) = (refl, refl)

written : (o : WriteOutcome) (s : Serialized) → ResultTells (write_json o s).0
unfolding write_json write_all
written o (unserializable e) = (refl, refl)
written o (json b) = elim (Bool-cases (ltb max_payload_size (length b))) [
  | inl h ↦ rw h (refl, refl)
  | inr h ↦ rw h (sent o)
]

pub write_record-tells :
    (to_writer : Object → Serialized) (o : WriteOutcome) (r : Record)
    → ResultTells (write_record to_writer o r).0
unfolding write_record write_json write_all
write_record-tells to_writer o r = written o (to_writer (fields (from_record r)))
