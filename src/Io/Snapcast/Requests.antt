-- ===== src/Io/Snapcast/Requests.antt =====
-- handlers/io/bus/snapcast/snapcast.go, `request` and `connect`: a request over a connection that may be
-- lost. What the dials and the calls give is an argument: the n-th dial succeeds or not, and the n-th call
-- has a response or not.
use chik.Prelude.{
  Bool, Bool-cases, Option, Option-cases, ap, arith, false, if◌then◌else◌, inl, inr, none, refl,
  some, suc, true, zero, ℕ, ◌+◌, ◌-◌, ◌<◌, ◌∙◌, ◌≡◌, ◌≤◌, ◌⊎◌,
}

pub record Attempts (R : Type 0) : Type 0 where
  pub result : Option R
  pub connected : Bool
  pub dials : ℕ
  pub calls : ℕ

module _ {R : Type 0} (dial : ℕ → Bool) (call : ℕ → Option R) where
  -- The loop; `dials` and `calls` were made before it. A failed call is followed by a new connection.
  unfoldable pub tentatives : ℕ → ℕ → ℕ → Attempts R
  tentatives zero dials calls = record {
    result = none;
    connected = true;
    dials = dials;
    calls = calls;
  }
  tentatives (suc left) dials calls =
      let rest = tentatives left (dials + 1) (calls + 1) in
      elim (call calls) [
        | some r ↦ record { result = some r; connected = true; dials = dials; calls = calls + 1 }
        | none ↦
            if dial dials
            then rest
            else record { result = none; connected = false; dials = dials + 1; calls = calls + 1 }
      ]

  -- `request`, for a bus that has a client or not.
  unfoldable pub request : (connected : Bool) → Attempts R
  unfolding tentatives
  request connected =
      if connected
      then tentatives 2 0 0
      else if dial 0
      then tentatives 2 1 0
      else record { result = none; connected = false; dials = 1; calls = 0 }

  -- How a request ends: with the response of its last call; without a client, after a dial that failed;
  -- or after two calls that failed.
  abbrev pub Ended : Attempts R → Type 0
  Ended a =
      ((r : R) × (a.result ≡ some r)
        × (a.connected ≡ true)
        × (0 < a.calls)
        × (call (a.calls - 1) ≡ some r))
      ⊎ (((a.result ≡ none) × (a.connected ≡ false) × (0 < a.dials) × (dial (a.dials - 1) ≡ false))
          ⊎ ((a.result ≡ none) × (a.connected ≡ true) × (a.calls ≡ 2) × (call 1 ≡ none)))

  answered_at :
      (left dials calls : ℕ) (r : R)
      → call calls ≡ some r
      → tentatives (suc left) dials calls
        ≡ record { result = some r; connected = true; dials = dials; calls = calls + 1 }
  unfolding tentatives
  answered_at left dials calls r answered = ground arith

  lost_at :
      (left dials calls : ℕ)
      → call calls ≡ none
      → dial dials ≡ false
      → tentatives (suc left) dials calls
        ≡ record { result = none; connected = false; dials = dials + 1; calls = calls + 1 }
  unfolding tentatives
  lost_at left dials calls silent gone = ground arith

  again_at :
      (left dials calls : ℕ)
      → call calls ≡ none
      → dial dials ≡ true
      → tentatives (suc left) dials calls ≡ tentatives left (dials + 1) (calls + 1)
  unfolding tentatives
  again_at left dials calls silent back = ground arith

  abbrev Within : ℕ → Attempts R → Type 0
  Within most a = Ended a × (a.calls ≤ 2) × (a.dials ≤ most)

  -- With no tentative left, both calls were made.
  tentatives_out : (dials : ℕ) → call 1 ≡ none → Within dials (tentatives 0 dials 2)
  unfolding tentatives
  tentatives_out dials silent = (inr (inr (refl, refl, refl, silent)), omega arith, omega arith)

  answered-Within :
      (dials calls : ℕ) (r : R)
      → call calls ≡ some r
      → calls ≤ 1
      → Within dials
          (record { result = some r; connected = true; dials = dials; calls = calls + 1 })
  answered-Within dials calls r answered few =
      let back : calls + 1 - 1 ≡ calls = omega arith in
      (inl (r, refl, refl, omega arith, ap call back ∙ answered), omega arith, omega arith)

  lost-Within :
      (dials calls : ℕ)
      → dial dials ≡ false
      → calls ≤ 1
      → Within
          (dials + 1)
          (record { result = none; connected = false; dials = dials + 1; calls = calls + 1 })
  lost-Within dials calls gone few =
      let back : dials + 1 - 1 ≡ dials = omega arith in
      (inr (inl (refl, refl, omega arith, ap dial back ∙ gone)), omega arith, omega arith)

  widen : (few most : ℕ) (a : Attempts R) → few ≤ most → Within few a → Within most a
  widen few most a le (ends, calls, dials) = (ends, calls, omega arith)

  tentative-Within :
      (left dials calls : ℕ)
      → calls ≤ 1
      → (call calls ≡ none → Within (dials + suc left) (tentatives left (dials + 1) (calls + 1)))
      → Within (dials + suc left) (tentatives (suc left) dials calls)
  tentative-Within left dials calls few rest = elim (Option-cases (call calls)) [
    | inr (r, answered) ↦ rw (answered_at left dials calls r answered) (
        widen dials (dials + suc left) _ (omega arith) (answered-Within dials calls r answered few))
    | inl silent ↦ elim (Bool-cases (dial dials)) [
      | inl back ↦ rw (again_at left dials calls silent back) (rest silent)
      | inr gone ↦
          rw (lost_at left dials calls silent gone) (
            widen (dials + 1) (dials + suc left) _ (omega arith) (lost-Within dials calls gone few))
    ]
  ]

  tentatives-Within : (dials : ℕ) → Within (dials + 2) (tentatives 2 dials 0)
  tentatives-Within dials = tentative-Within 1 dials 0 (omega arith) λ silent.
      widen (dials + 1 + 1) (dials + 2) _ (omega arith) (
        tentative-Within 0 (dials + 1) 1 (omega arith) (λ silent'.
          widen (dials + 1 + 1) (dials + 1 + 1) _ (omega arith)
            (tentatives_out (dials + 1 + 1) silent')))

  -- A request makes at most two calls and three dials, and it ends with the response of its last call, or
  -- without a client after a dial that failed, or after two calls the second of which failed.
  pub request_ends :
      (connected : Bool)
      → Ended (request connected)
        × ((request connected).calls ≤ 2)
        × ((request connected).dials ≤ 3)
  unfolding request
  request_ends true = widen 2 3 _ (omega arith) (tentatives-Within 0)
  request_ends false = elim (Bool-cases (dial 0)) [
    | inl back ↦ rw back (tentatives-Within 1)
    | inr gone ↦ rw gone (inr (inl (refl, refl, omega arith, gone)), omega arith, omega arith)
  ]
