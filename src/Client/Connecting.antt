-- ===== src/Client/Connecting.antt =====
-- src/client.rs: the choice among the addresses of a name, and the timeout of each attempt.
use ecapplog_rust.Base.{
  ℕ, ◌+◌, ◌≤◌, ◌≡◌, ◌↔◌, refl, sym, ap, ◌∙◌, subst, append_assoc, inl, inr, Option-cases, max, List,
  [], ◌∷◌, ◌++◌, Option, none, some, arith, All,
}
use ecapplog_rust.Error.{IoError, addr_not_available}
use ecapplog_rust.Error
use ecapplog_rust.Client.{
  millisecond, Config, Network, Resolved, found, unresolved, Attempt, stream, refused, dial_timeout,
  dial_each, connect,
}

-- The addresses that do not answer within the timeout.
abbrev pub Deaf : Network → ℕ → List ℕ → Type 0
Deaf n t = All (λ a. (e : IoError) × (n.dial a t ≡ some e))

module _ (c : Config) (n : Network) (t : ℕ) where
  dial_each-stream :
      (before : List ℕ) (a : ℕ) (after : List ℕ) (last : Option IoError)
      → Deaf n t before
      → n.dial a t ≡ none
      → dial_each c n t (before ++ a ∷ after) last ≡ stream a
  unfolding dial_each
  dial_each-stream [] a after last d h = rw h refl
  dial_each-stream (b ∷ before) a after last ((e, k), d) h =
      rw k (dial_each-stream before a after (some e) d h)

  dial_each-refused :
      (before : List ℕ) (a : ℕ) (e : IoError) (last : Option IoError)
      → Deaf n t before
      → n.dial a t ≡ some e
      → dial_each c n t (before ++ a ∷ []) last ≡ refused (Error.connect c.address e)
  unfolding dial_each
  dial_each-refused [] a e last d h = rw h refl
  dial_each-refused (b ∷ before) a e last ((e', k), d) h =
      rw k (dial_each-refused before a e (some e') d h)

-- The first address that answers.
connect-stream :
    (c : Config) (n : Network) (deadline : Option ℕ) (now : ℕ) (before : List ℕ) (a : ℕ)
    (after : List ℕ)
    → n.to_socket_addrs c.address ≡ found (before ++ a ∷ after)
    → Deaf n (dial_timeout c deadline now) before
    → n.dial a (dial_timeout c deadline now) ≡ none
    → connect c n deadline now ≡ stream a
unfolding connect
connect-stream c n deadline now before a after r d h =
    rw (connect, r) (dial_each-stream c n _ before a after none d h)

-- The last address that was tried.
connect-refused :
    (c : Config) (n : Network) (deadline : Option ℕ) (now : ℕ) (before : List ℕ) (a : ℕ)
    (e : IoError)
    → n.to_socket_addrs c.address ≡ found (before ++ a ∷ [])
    → Deaf n (dial_timeout c deadline now) before
    → n.dial a (dial_timeout c deadline now) ≡ some e
    → connect c n deadline now ≡ refused (Error.connect c.address e)
unfolding connect
connect-refused c n deadline now before a e r d h =
    rw (connect, r) (dial_each-refused c n _ before a e none d h)

-- What an attempt comes to, by the system's answers.
pub data Comes (c : Config) (n : Network) (t : ℕ) : Attempt → Type 0 where
  unknown :
      (e : IoError)
      → n.to_socket_addrs c.address ≡ unresolved e
      → Comes c n t (refused (Error.resolve c.address e))
  answered :
      (before : List ℕ) (a : ℕ) (after : List ℕ)
      → n.to_socket_addrs c.address ≡ found (before ++ a ∷ after)
      → Deaf n t before
      → n.dial a t ≡ none
      → Comes c n t (stream a)
  nowhere :
      n.to_socket_addrs c.address ≡ found []
      → Comes c n t (refused (Error.connect c.address addr_not_available))
  all_deaf :
      (before : List ℕ) (a : ℕ) (e : IoError)
      → n.to_socket_addrs c.address ≡ found (before ++ a ∷ [])
      → Deaf n t before
      → n.dial a t ≡ some e
      → Comes c n t (refused (Error.connect c.address e))

module _ (c : Config) (n : Network) (t : ℕ) where
  Deaf-append_one :
      (before : List ℕ) (a : ℕ) (e : IoError)
      → Deaf n t before
      → n.dial a t ≡ some e
      → Deaf n t (before ++ a ∷ [])
  Deaf-append_one [] a e d h = ((e, h), tt)
  Deaf-append_one (b ∷ before) a e (k, d) h = (k, Deaf-append_one before a e d h)

  -- With `before` and the address `b` dialled in vain, the last of them with `e`.
  dial_each-Comes :
      (before : List ℕ) (b : ℕ) (e : IoError) (rest : List ℕ)
      → n.to_socket_addrs c.address ≡ found (before ++ b ∷ rest)
      → Deaf n t before
      → n.dial b t ≡ some e
      → Comes c n t (dial_each c n t rest (some e))
  unfolding dial_each
  dial_each-Comes before b e [] r d h = all_deaf before b e r d h
  dial_each-Comes before b e (a ∷ rest) r d h =
      let r' = r ∙ ap found (sym (append_assoc before (b ∷ []) (a ∷ rest))) in
      let d' = Deaf-append_one before b e d h in
      elim (Option-cases (n.dial a t)) [
        | inl k ↦ rw (k, dial_each) (answered (before ++ b ∷ []) a rest r' d' k)
        | inr (e', k) ↦ rw (k, dial_each) (dial_each-Comes (before ++ b ∷ []) a e' rest r' d' k)
      ]

  dial_all-Comes :
      (addresses : List ℕ)
      → n.to_socket_addrs c.address ≡ found addresses
      → Comes c n t (dial_each c n t addresses none)
  unfolding dial_each
  dial_all-Comes [] r = nowhere r
  dial_all-Comes (a ∷ rest) r = elim (Option-cases (n.dial a t)) [
    | inl k ↦ rw (k, dial_each) (answered [] a rest r tt k)
    | inr (e, k) ↦ rw (k, dial_each) (dial_each-Comes [] a e rest r tt k)
  ]

module _ (c : Config) (n : Network) (deadline : Option ℕ) (now : ℕ) where
  connect-Comes :
      (answer : Resolved)
      → n.to_socket_addrs c.address ≡ answer
      → Comes c n (dial_timeout c deadline now) (connect c n deadline now)
  unfolding connect
  connect-Comes (unresolved e) r = rw (connect, r) (unknown e r)
  connect-Comes (found addresses) r = rw (connect, r) (dial_all-Comes c n _ addresses r)

  Comes-connect :
      {r : Attempt} → Comes c n (dial_timeout c deadline now) r → connect c n deadline now ≡ r
  unfolding connect dial_each
  Comes-connect (unknown e r) = rw (connect, r) refl
  Comes-connect (answered before a after r d h) =
      connect-stream c n deadline now before a after r d h
  Comes-connect (nowhere r) = rw (connect, r) refl
  Comes-connect (all_deaf before a e r d h) = connect-refused c n deadline now before a e r d h

-- An attempt comes to a connection exactly when some address of the name answers within the attempt's
-- timeout and none before it does, and the connection is to that one. It comes to an error exactly
-- when the name does not resolve, has no address, or has none that answers, and the error is then that
-- of resolving, that there is no address, or that of the last address.
pub connect_iff :
    (c : Config) (n : Network) (deadline : Option ℕ) (now : ℕ) (r : Attempt)
    → Comes c n (dial_timeout c deadline now) r ↔ (connect c n deadline now ≡ r)
connect_iff c n deadline now r = (
  Comes-connect c n deadline now,
  λ e. subst (Comes c n (dial_timeout c deadline now)) e (connect-Comes c n deadline now _ refl),
)

-- The timeout of each dial under a flush deadline: it is over by the deadline, or within a millisecond
-- where less than that is left, and is at most the connect timeout or a millisecond, and never zero.
pub dial_timeout-deadline :
    (c : Config) (deadline now : ℕ)
    → (now + dial_timeout c (some deadline) now ≤ max deadline (now + millisecond))
      × (dial_timeout c (some deadline) now ≤ max (dial_timeout c none now) millisecond)
      × (millisecond ≤ dial_timeout c (some deadline) now)
unfolding dial_timeout
dial_timeout-deadline c deadline now = (omega arith, omega arith, omega arith)
