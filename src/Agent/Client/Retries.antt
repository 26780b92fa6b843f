-- ===== src/Agent/Client/Retries.antt =====
-- How `connect_with_retry` ends: with a limit on the attempts, and without one.
use aigis_zero.Agent.Client.{
  FleetClient, Dial, connect, delay, Retried, Retrying, returned, retry_loop, connect_with_retry,
}
use aigis_zero.Agent.Client.Attempts.{
  connects, failures, loop_connects, loop_fails, loop_gives_up, connect-connects,
}
use aigis_zero.Prelude.{
  ℕ, zero, suc, ◌+◌, ◌-◌, ◌*◌, ◌^◌, ◌≤◌, ◌<◌, min, String, Bool, true, false, List, [], ◌∷◌, ◌++◌,
  Option, is_ok, ◌≡◌, refl, arith, sym, ◌∙◌, ltb, leb, length, append-snoc, append-nil, Bool-cases,
  inl, inr, ◌⊎◌,
}

-- The sleeps after the given number of failed attempts, the first of them with this number.
abbrev pub sleeps : ℕ → ℕ → ℕ → List ℕ
sleeps base_delay n zero = []
sleeps base_delay n (suc k) = delay base_delay n ∷ sleeps base_delay (suc n) k

module _ (is_header : String → Bool) where
  module _ (max_attempts base_delay : ℕ) (token : Option String)
      (fits : base_delay * 32 < 2 ^ 64) where
    -- The loop returns with this verdict, after the sleeps of so many failed attempts.
    abbrev Returns : Bool → ℕ → ℕ → List ℕ → Retrying → Type 0
    Returns good n k delays o =
        (r : Retried) × (o ≡ returned r)
        × (is_ok r.result ≡ good)
        × (r.delays ≡ delays ++ sleeps base_delay n k)

    Returns-later :
        (good : Bool) (n k : ℕ) (delays : List ℕ) (o : Retrying)
        → Returns good (suc n) k (delays ++ delay base_delay n ∷ []) o
        → Returns good n (suc k) delays o
    Returns-later good n k delays o (r, e, g, l) =
        (r, e, g, l ∙ append-snoc delays (delay base_delay n) (sleeps base_delay (suc n) k))

    -- Without a limit, or with one that is not reached: the first attempt that connects ends it.
    retry_loop_ok :
        (ds : List Dial) (attempt : ℕ) (delays : List ℕ) (c : FleetClient)
        → failures is_header token ds < length ds
        → attempt + failures is_header token ds < 2 ^ 32 - 1
        → (max_attempts ≡ 0) ⊎ (attempt + failures is_header token ds < max_attempts)
        → Returns true
            (suc attempt)
            (failures is_header token ds)
            delays
            (retry_loop is_header max_attempts base_delay token ds attempt delays c)
    retry_loop_ok [] attempt delays c inside small limit = absurd (omega arith)
    retry_loop_ok (d ∷ ds) attempt delays c inside small limit =
        elim (Bool-cases (connects is_header token d)) [
          | inl e ↦
              rw (e, loop_connects is_header max_attempts base_delay token d ds attempt delays c e)
                (_, refl, refl, sym (append-nil delays))
          | inr e ↦
              let inside' : suc (failures is_header token ds) < suc (length ds) = rw e at inside in
              let small' : attempt + suc (failures is_header token ds) < 2 ^ 32 - 1 =
                rw e at small in
              let limit' : (max_attempts ≡ 0)
                  ⊎ (attempt + suc (failures is_header token ds) < max_attempts) =
                rw e at limit in
              rw
                (
                  e,
                  loop_fails is_header max_attempts base_delay token d ds attempt delays c
                      (omega arith) e (ground arith) fits,
                )
                (Returns-later true (suc attempt) (failures is_header token ds) delays _ (
                  retry_loop_ok ds (suc attempt) (delays ++ delay base_delay (suc attempt) ∷ [])
                    (connect is_header d token c).0 (omega arith) (omega arith) (ground arith)))
        ]

    -- With a limit that as many failures reach, the last attempt before it ends the loop.
    retry_loop_err :
        (ds : List Dial) (attempt : ℕ) (delays : List ℕ) (c : FleetClient)
        → attempt < max_attempts
        → max_attempts < 2 ^ 32
        → max_attempts ≤ attempt + length ds
        → max_attempts ≤ attempt + failures is_header token ds
        → Returns false
            (suc attempt)
            (max_attempts - 1 - attempt)
            delays
            (retry_loop is_header max_attempts base_delay token ds attempt delays c)
    retry_loop_err [] attempt delays c more small long fails = absurd (omega arith)
    retry_loop_err (d ∷ ds) attempt delays c more small long fails =
        elim (Bool-cases (connects is_header token d)) [
          | inl e ↦ let fails' : max_attempts ≤ attempt + 0 = rw e at fails in absurd (omega arith)
          | inr e ↦
              let fails' : max_attempts ≤ attempt + suc (failures is_header token ds) =
                rw e at fails in
              elim (Bool-cases (leb max_attempts (suc attempt))) [
                | inl last ↦
                    let none_left : max_attempts - 1 - attempt ≡ 0 = ground arith in
                    rw
                      (
                        none_left,
                        loop_gives_up is_header max_attempts base_delay token d ds attempt delays c
                            (omega arith) e (ground arith),
                      )
                      (_, refl, connect-connects is_header d token c ∙ e, sym (append-nil delays))
                | inr further ↦
                    let k = max_attempts - 1 - suc attempt in
                    let left : max_attempts - 1 - attempt ≡ suc k = ground arith in
                    rw
                      (
                        left,
                        loop_fails is_header max_attempts base_delay token d ds attempt delays c
                            (omega arith) e (ground arith) fits,
                      )
                      (Returns-later false (suc attempt) k delays _ (
                        retry_loop_err ds (suc attempt)
                          (delays ++ delay base_delay (suc attempt) ∷ [])
                          (connect is_header d token c).0 (ground arith) small (omega arith)
                          (omega arith)))
              ]
        ]

    -- If 32 times the base delay fits a `Duration`: with a limit of at least one attempt, `connect_with_retry` returns, after at most that many
    -- attempts: successfully just when one of them connects, and having slept once after each
    -- failed attempt but the last of the limit, the base delay doubled per attempt up to 32 times.
    pub connect_with_retry-returns :
        (ds : List Dial) (c : FleetClient)
        → 0 < max_attempts
        → max_attempts < 2 ^ 32
        → max_attempts ≤ length ds
        → (r : Retried) × (connect_with_retry is_header max_attempts base_delay token ds c
            ≡ returned r)
          × (is_ok r.result ≡ ltb (failures is_header token ds) max_attempts)
          × (r.delays ≡ sleeps base_delay 1 (min (failures is_header token ds) (max_attempts - 1)))
    unfolding connect_with_retry
    connect_with_retry-returns ds c positive small long =
        let k = failures is_header token ds in
        elim (Bool-cases (ltb k max_attempts)) [
          | inl soon ↦
              let least : min k (max_attempts - 1) ≡ k = ground arith in
              rw (soon, least)
                (retry_loop_ok ds 0 [] c (ground arith) (ground arith) (inr (ground arith)))
          | inr late ↦
              let least : min k (max_attempts - 1) ≡ max_attempts - 1 - 0 = ground arith in
              rw (late, least)
                (retry_loop_err ds 0 [] c positive small (omega arith) (ground arith))
        ]

  -- If 32 times the base delay fits a `Duration`: without a limit, `connect_with_retry` keeps on until the first attempt that connects, and then
  -- returns successfully, having slept once after each failed one, as long as fewer than 2^32 - 1
  -- attempts fail.
  pub connect_with_retry-connects :
      (base_delay : ℕ) (token : Option String) (ds : List Dial) (c : FleetClient)
      → base_delay * 32 < 2 ^ 64
      → failures is_header token ds < length ds
      → failures is_header token ds < 2 ^ 32 - 1
      → (r : Retried) × (connect_with_retry is_header 0 base_delay token ds c ≡ returned r)
        × (is_ok r.result ≡ true)
        × (r.delays ≡ sleeps base_delay 1 (failures is_header token ds))
  unfolding connect_with_retry
  connect_with_retry-connects base_delay token ds c fits inside small =
      retry_loop_ok 0 base_delay token fits ds 0 [] c inside (omega arith) (inl refl)
