-- ===== src/Client/Duration.antt =====
-- src/client.rs: the time that a connect spends on its dials. How long the system takes to dial an
-- address within a timeout is an argument; the time of resolving the name is not counted.
use ecapplog_rust.Base.{
  ℕ, zero, suc, ◌+◌, ◌*◌, ◌-◌, max, ◌≤◌, ◌≡◌, List, [], ◌∷◌, Option, none, some, arith, All, length,
  inl, inr, Option-cases,
}
use ecapplog_rust.Client.{millisecond, Config, Network, found, unresolved, dial_timeout}
use ecapplog_rust.Client.Connecting.{Deaf}

module _ (c : Config) (n : Network) (takes : ℕ → ℕ → ℕ) where
  -- The loop over the addresses ends with the first that answers.
  unfoldable pub dial_each_takes : ℕ → List ℕ → ℕ
  dial_each_takes timeout [] = 0
  dial_each_takes timeout (a ∷ others) =
      takes a timeout
      + elim (n.dial a timeout) [ none ↦ 0 | some e ↦ dial_each_takes timeout others ]

  unfoldable pub connect_takes : Option ℕ → ℕ → ℕ
  unfolding dial_timeout dial_each_takes
  connect_takes flush_deadline now = elim (n.to_socket_addrs c.address) [
    | unresolved e ↦ 0
    | found addresses ↦ dial_each_takes (dial_timeout c flush_deadline now) addresses
  ]

  dial_each_takes-le :
      (t : ℕ) (addresses : List ℕ)
      → ((a t : ℕ) → takes a t ≤ t)
      → dial_each_takes t addresses ≤ length addresses * t
  unfolding dial_each_takes
  dial_each_takes-le t [] h = omega arith
  dial_each_takes-le t (a ∷ others) h = elim (Option-cases (n.dial a t)) [
    | inl k ↦ rw k (omega (arith, h a t))
    | inr (e, k) ↦ rw k (omega (arith, h a t, dial_each_takes-le t others h))
  ]

dial_timeout-le :
    (c : Config) (deadline now : ℕ)
    → (dial_timeout c (some deadline) now ≤ max (deadline - now) millisecond)
      × (dial_timeout c (some deadline) now ≤ max c.connect_timeout millisecond)
unfolding dial_timeout
dial_timeout-le c deadline now = (omega arith, omega arith)

-- When no dial takes longer than its timeout, an attempt takes at most the timeout of one dial for
-- each address of the name.
connect_takes-le :
    (c : Config) (n : Network) (takes : ℕ → ℕ → ℕ) (deadline : Option ℕ) (now : ℕ)
    (addresses : List ℕ)
    → n.to_socket_addrs c.address ≡ found addresses
    → ((a t : ℕ) → takes a t ≤ t)
    → connect_takes c n takes deadline now ≤ length addresses * dial_timeout c deadline now
unfolding connect_takes
connect_takes-le c n takes deadline now addresses r h =
    rw (connect_takes, r) (dial_each_takes-le c n takes (dial_timeout c deadline now) addresses h)

scaled : (k t m : ℕ) → t ≤ m → k * t ≤ k * m
scaled zero t m h = omega arith
scaled (suc k) t m h = omega (arith, h, scaled k t m h)

-- The time that an attempt takes under a flush deadline, but for resolving the name, when no dial takes
-- longer than its timeout: for each address of the name, at most what was left to the deadline at the
-- start of the attempt, and at most the connect timeout, where either counts as a millisecond if it is
-- less.
pub connect_takes-bounded :
    (c : Config) (n : Network) (takes : ℕ → ℕ → ℕ) (deadline now : ℕ) (addresses : List ℕ)
    → n.to_socket_addrs c.address ≡ found addresses
    → ((a t : ℕ) → takes a t ≤ t)
    → (connect_takes c n takes (some deadline) now
        ≤ length addresses * max (deadline - now) millisecond)
      × (connect_takes c n takes (some deadline) now
          ≤ length addresses * max c.connect_timeout millisecond)
connect_takes-bounded c n takes deadline now addresses r h =
    let t = dial_timeout c (some deadline) now in
    let all = connect_takes-le c n takes (some deadline) now addresses r h in
    let (left, whole) = dial_timeout-le c deadline now in
    (
      omega (arith, all, scaled (length addresses) t _ left),
      omega (arith, all, scaled (length addresses) t _ whole),
    )

-- All addresses of the name let the timeout pass and do not answer.
pub record BlackHoled (c : Config) (n : Network) (takes : ℕ → ℕ → ℕ) (t : ℕ) (addresses : List ℕ)
    : Type 0 where
  pub resolved : n.to_socket_addrs c.address ≡ found addresses
  pub deaf : Deaf n t addresses
  pub waits : All (λ a. takes a t ≡ t) addresses
