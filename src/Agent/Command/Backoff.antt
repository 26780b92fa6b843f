-- ===== src/Agent/Command/Backoff.antt =====
-- The delays of the command listener.
use aigis_zero.Agent.Command.{
  Isolation, Round, transport_error, Listener, saturating_suc, backoff_ms, round, listen,
}
use aigis_zero.Prelude.{
  ℕ, zero, suc, ◌*◌, ◌^◌, ◌≤◌, min, false, List, [], ◌∷◌, ◌++◌, ◌≡◌, refl, sym, ap, ◌∙◌, append-nil,
  append-snoc, arith,
}

-- The delays of a number of errors in a row, from an error counter on: each twice the one before,
-- up to the ceiling.
unfoldable pub doubling : ℕ → ℕ → List ℕ
doubling zero delay = []
doubling (suc n) delay = min (2 * delay) 12800 ∷ doubling n (min (2 * delay) 12800)

-- That many errors whose reconnections fail.
unfoldable pub failing : ℕ → List Round
failing zero = []
failing (suc n) = transport_error false ∷ failing n

min-ceiling : (n : ℕ) → 8 ≤ n → min n 8 ≡ 8
min-ceiling n h = omega arith

backoff_ms-ceiling : (n : ℕ) → 8 ≤ n → backoff_ms n ≡ 12800
backoff_ms-ceiling n h = ap (λ e. min (50 * 2 ^ e) 12800) (min-ceiling n h)

backoff_ms-suc : (n : ℕ) → backoff_ms (saturating_suc n) ≡ min (2 * backoff_ms n) 12800
backoff_ms-suc zero = refl
backoff_ms-suc (suc zero) = refl
backoff_ms-suc (suc (suc zero)) = refl
backoff_ms-suc (suc (suc (suc zero))) = refl
backoff_ms-suc (suc (suc (suc (suc zero)))) = refl
backoff_ms-suc (suc (suc (suc (suc (suc zero))))) = refl
backoff_ms-suc (suc (suc (suc (suc (suc (suc zero)))))) = refl
backoff_ms-suc (suc (suc (suc (suc (suc (suc (suc zero))))))) = refl
backoff_ms-suc (suc (suc (suc (suc (suc (suc (suc (suc n)))))))) =
    let m = suc (suc (suc (suc (suc (suc (suc (suc n))))))) in
    backoff_ms-ceiling (saturating_suc m) (omega arith)
    ∙ sym (ap (λ d. min (2 * d) 12800) (backoff_ms-ceiling m (omega arith)))

-- While every reconnection fails, each delay is twice the one before, from twice the delay of the
-- error counter on, and none is above 12.8 seconds.
pub listen-failing :
    (n : ℕ) (i : Isolation) (s : Listener)
    → (listen i (failing n) s).backoffs ≡ s.backoffs ++ doubling n (backoff_ms s.consecutive_errors)
unfolding listen failing doubling round
listen-failing zero i s = sym (append-nil s.backoffs)
listen-failing (suc n) i s =
    let d = backoff_ms (saturating_suc s.consecutive_errors) in
    let next = backoff_ms-suc s.consecutive_errors in
    listen-failing n i (round i (transport_error false) s)
    ∙ append-snoc s.backoffs d (doubling n d)
    ∙ ap (λ d'. s.backoffs ++ d' ∷ doubling n d') next
