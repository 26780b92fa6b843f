-- ===== src/Agent/Client/Attempts.antt =====
-- One attempt of `connect_with_retry`: whether it connects, and what the loop does after it.
use aigis_zero.Agent.Client.{
  FleetClient, Stream, Dial, bearer_value, connect, dialled, streaming, delay, Retrying, returned,
  retried, retry_loop,
}
use aigis_zero.Prelude.{
  ℕ, zero, suc, ◌+◌, ◌*◌, min, ◌^◌, ◌%◌, ◌<◌, String, Bool, true, false, ◌&&◌, List, [], ◌∷◌, ◌++◌,
  Option, none, some, Result, ok, err, is_ok, ◌≡◌, refl, arith, ◌∙◌, ltb, leb, if◌then◌else◌,
  Bool-cases, inl, inr,
}

-- Whether the stream that a token asks for opens: the token must fit a header.
abbrev pub opens : (String → Bool) → Option String → Result String Stream → Bool
opens is_header none stream = true
opens is_header (some t) stream = is_header (bearer_value t) && is_ok stream

-- Whether the attempt connects: the endpoint answers, and the stream opens.
abbrev pub connects : (String → Bool) → Option String → Dial → Bool
connects is_header token d = is_ok d.channel && opens is_header token d.stream

-- The attempts that fail before the first one that connects.
abbrev pub failures : (String → Bool) → Option String → List Dial → ℕ
failures is_header token [] = 0
failures is_header token (d ∷ ds) =
    let rest = failures is_header token ds in if connects is_header token d then 0 else suc rest

-- No delay overflows if the largest does not.
pub delay_fits :
    (base_delay n : ℕ) → base_delay * 32 < 2 ^ 64 → ltb (delay base_delay n) (2 ^ 64) ≡ true
delay_fits base_delay zero h = ground arith
delay_fits base_delay (suc zero) h = ground arith
delay_fits base_delay (suc (suc zero)) h = ground arith
delay_fits base_delay (suc (suc (suc zero))) h = ground arith
delay_fits base_delay (suc (suc (suc (suc zero)))) h = ground arith
delay_fits base_delay (suc (suc (suc (suc (suc n))))) h =
    let most : min (suc (suc (suc (suc (suc n))))) 5 ≡ 5 = ground arith in rw most (ground arith)

module _ (is_header : String → Bool) where
  streaming-opens :
      (stream : Result String Stream) (token : Option String) (c : FleetClient)
      → is_ok (streaming is_header stream token c).1 ≡ opens is_header token stream
  streaming-opens stream none c = refl
  streaming-opens (ok s) (some t) c = elim (Bool-cases (is_header (bearer_value t))) [
    | inl e ↦ rw e refl
    | inr e ↦ rw e refl
  ]
  streaming-opens (err m) (some t) c = elim (Bool-cases (is_header (bearer_value t))) [
    | inl e ↦ rw e refl
    | inr e ↦ rw e refl
  ]

  dialled-opens :
      (d : Dial) (token : Option String) (c : FleetClient) (r : Result String (Unit {0}))
      → is_ok (dialled is_header d token c r).1 ≡ (is_ok r && opens is_header token d.stream)
  dialled-opens d token c (ok u) =
      streaming-opens d.stream token (record c { client = some c.endpoint; token = token })
  dialled-opens d token c (err e) = refl

  -- An attempt returns `ok` just when it connects.
  pub connect-connects :
      (d : Dial) (token : Option String) (c : FleetClient)
      → is_ok (connect is_header d token c).1 ≡ connects is_header token d
  unfolding connect
  connect-connects d token c = dialled-opens d token c d.channel

  module _ (max_attempts base_delay : ℕ) (token : Option String) where
    retried_ok :
        (n wait : ℕ) (delays : List ℕ) (c : FleetClient) (r : Result String (Unit {0}))
        (rest : Retrying)
        → is_ok r ≡ true
        → retried max_attempts n wait delays c r rest
          ≡ returned (record { client = c; result = ok tt; delays = delays })
    retried_ok n wait delays c (ok u) rest h = refl
    retried_ok n wait delays c (err e) rest h = cc

    retried_on :
        (n wait : ℕ) (delays : List ℕ) (c : FleetClient) (r : Result String (Unit {0}))
        (rest : Retrying)
        → is_ok r ≡ false
        → (ltb 0 max_attempts && leb max_attempts n) ≡ false
        → ltb wait (2 ^ 64) ≡ true
        → retried max_attempts n wait delays c r rest ≡ rest
    retried_on n wait delays c (ok u) rest h k fits = cc
    retried_on n wait delays c (err e) rest h k fits = rw (k, fits) refl

    retried_out :
        (n wait : ℕ) (delays : List ℕ) (c : FleetClient) (r : Result String (Unit {0}))
        (rest : Retrying)
        → is_ok r ≡ false
        → (ltb 0 max_attempts && leb max_attempts n) ≡ true
        → retried max_attempts n wait delays c r rest
          ≡ returned (record { client = c; result = r; delays = delays })
    retried_out n wait delays c (ok u) rest h k = cc
    retried_out n wait delays c (err e) rest h k = rw k refl

    module _ (d : Dial) (ds : List Dial) (attempt : ℕ) (delays : List ℕ) (c : FleetClient) where
      pub loop_connects :
          connects is_header token d ≡ true
          → retry_loop is_header max_attempts base_delay token (d ∷ ds) attempt delays c
            ≡ returned (record {
              client = (connect is_header d token c).0;
              result = ok tt;
              delays = delays;
            })
      unfolding retry_loop
      loop_connects e =
          let n = (attempt + 1) % 2 ^ 32 in
          let (c', r) = connect is_header d token c in
          retried_ok n (delay base_delay n) delays c' r
            (retry_loop is_header max_attempts base_delay token ds n
              (delays ++ delay base_delay n ∷ []) c')
            (connect-connects d token c ∙ e)

      module _ (small : suc attempt < 2 ^ 32) (fails : connects is_header token d ≡ false) where
        pub loop_fails :
            (ltb 0 max_attempts && leb max_attempts (suc attempt)) ≡ false
            → base_delay * 32 < 2 ^ 64
            → retry_loop is_header max_attempts base_delay token (d ∷ ds) attempt delays c
              ≡ retry_loop is_header max_attempts base_delay token ds
                  (suc attempt)
                  (delays ++ delay base_delay (suc attempt) ∷ [])
                  (connect is_header d token c).0
        unfolding retry_loop
        loop_fails more fits =
            let n : (attempt + 1) % 2 ^ 32 ≡ suc attempt = omega arith in
            let (c', r) = connect is_header d token c in
            rw n (
              retried_on (suc attempt) (delay base_delay (suc attempt)) delays c' r
                (retry_loop is_header max_attempts base_delay token ds (suc attempt)
                  (delays ++ delay base_delay (suc attempt) ∷ []) c')
                (connect-connects d token c ∙ fails) more
                (delay_fits base_delay (suc attempt) fits))

        pub loop_gives_up :
            (ltb 0 max_attempts && leb max_attempts (suc attempt)) ≡ true
            → retry_loop is_header max_attempts base_delay token (d ∷ ds) attempt delays c
              ≡ returned (record {
                client = (connect is_header d token c).0;
                result = (connect is_header d token c).1;
                delays = delays;
              })
        unfolding retry_loop
        loop_gives_up last =
            let n : (attempt + 1) % 2 ^ 32 ≡ suc attempt = omega arith in
            let (c', r) = connect is_header d token c in
            rw n (
              retried_out (suc attempt) (delay base_delay (suc attempt)) delays c' r
                (retry_loop is_header max_attempts base_delay token ds (suc attempt)
                  (delays ++ delay base_delay (suc attempt) ∷ []) c')
                (connect-connects d token c ∙ fails) last)
