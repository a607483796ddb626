-- ===== src/Server/Connect.antt =====
-- cmd/server/main.go: the loops that connect to TigerBeetle and to Temporal.
use cloud_credit_system.Common.{
  ℕ, zero, suc, ◌+◌, ◌≤◌, ◌<◌, ◌≡◌, refl, inl, inr, Bool, true, false, Option, none, some, arith,
  nat_beq, if◌then◌else◌, Bool-cases,
}

-- How the loop ends: with a client, by a signal to the process, or by `os.Exit(1)`.
pub data Startup {ℓ} (C : Type ℓ) : Type ℓ where
  connected : C → Startup C
  interrupted : Startup C
  gave_up : Startup C

abbrev pub max_attempts : ℕ
max_attempts = 30

-- `dial k` is the k-th attempt; `done k` tells whether the context is done before it, and `waited k` whether
-- the five seconds after it pass before the context is done.
module _ {C : Type 0} (dial : ℕ → Option C) (done waited : ℕ → Bool) where
  -- The attempts from the k-th on, with `left` of them to go.
  unfoldable pub connect_from : ℕ → ℕ → Startup C
  connect_from zero k = gave_up
  connect_from (suc left) k =
      let rest = connect_from left (suc k) in
      if done k then interrupted else elim (dial k) [
        | some client ↦ connected client
        | none ↦ if nat_beq k max_attempts then gave_up else if waited k then rest else interrupted
      ]

  unfoldable pub connect : Startup C
  connect = connect_from max_attempts 1

  module _ (never_done : (k : ℕ) → done k ≡ false) (always_waits : (k : ℕ) → waited k ≡ true) where
    first_success :
        (left j k : ℕ) (client : C)
        → j + left ≡ 31
        → 1 ≤ j
        → j ≤ k
        → k ≤ 30
        → dial k ≡ some client
        → ((i : ℕ) → 1 ≤ i → i < k → dial i ≡ none)
        → connect_from left j ≡ connected client
    unfolding connect_from
    first_success zero j k client sum started le bound up down = absurd (omega arith)
    first_success (suc left) j k client sum started le bound up down =
        elim (Bool-cases (nat_beq j k)) [
          | inl now ↦
              let same : j ≡ k = ground arith in
              let here : dial j ≡ some client = rw same up in ground (arith, never_done j)
          | inr later ↦
              let before : j < k = ground arith in
              let rest =
                first_success left (suc j) k client (omega arith) (omega arith) before bound up
                  down in
              ground (arith, never_done j, always_waits j, down j started before, rest)
        ]

    all_fail :
        (left j : ℕ)
        → j + left ≡ 31
        → 1 ≤ j
        → ((i : ℕ) → 1 ≤ i → i ≤ 30 → dial i ≡ none)
        → connect_from left j ≡ gave_up
    unfolding connect_from
    all_fail zero j sum started down = refl
    all_fail (suc left) j sum started down =
        let rest = all_fail left (suc j) (omega arith) (omega arith) down in
        ground (arith, never_done j, always_waits j, down j started (omega arith), rest)

    -- While the process is not told to stop, a service that first answers at the k-th attempt, for a k from
    -- 1 to 30, is connected to.
    pub connect_in_time :
        (k : ℕ) (client : C)
        → 1 ≤ k
        → k ≤ max_attempts
        → dial k ≡ some client
        → ((i : ℕ) → 1 ≤ i → i < k → dial i ≡ none)
        → connect ≡ connected client
    unfolding connect
    connect_in_time k client started bound up down =
        first_success max_attempts 1 k client refl (omega arith) started bound up down

    -- One that answers at none of the 30 attempts ends the process.
    pub connect_gives_up : ((i : ℕ) → 1 ≤ i → i ≤ max_attempts → dial i ≡ none) → connect ≡ gave_up
    unfolding connect
    connect_gives_up down = all_fail max_attempts 1 refl (omega arith) down
