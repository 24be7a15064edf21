-- ===== src/Ws/Pusher/Retry.antt =====
-- The waits of `runLoop` (internal/ws/pusher.go), and the counters of a run.
use ts_store.Prelude.{
  ℕ, suc, ◌*◌, ◌^◌, ◌≡◌, refl, ap, ◌∙◌, List, [], ◌∷◌, ltb, arith, if◌then◌else◌, inl, inr,
}
use ts_store.Prelude.Outcome.{done, failed, Outcome-cases}
use native.Mathlib.Nat.{pow-suc}
use ts_store.Rules.{Comparisons}
use ts_store.Ws.Pusher.{MapCodec, Socket, Pusher}
use ts_store.Ws.Pusher.Loop.{Round, run_loop, next_delay, second}
use ts_store.Ws.Pusher.Rounds.{unreached, reached, after_push, run_loop_failed, run_loop_connected}

-- The delay behind k failed attempts in a row: 2^k seconds, and a minute at most.
abbrev pub backoff : ℕ → ℕ
backoff k = (if ltb 60 (2 ^ k) then 60 else 2 ^ k) * second

double_or_minute :
    (x y : ℕ)
    → y ≡ 2 * x
    → next_delay ((if ltb 60 x then 60 else x) * second) ≡ (if ltb 60 y then 60 else y) * second
unfolding next_delay
double_or_minute x y e = ground arith

next_delay-backoff : (k : ℕ) → next_delay (backoff k) ≡ backoff (suc k)
next_delay-backoff k = double_or_minute (2 ^ k) (2 ^ suc k) (omega (arith, pow-suc 2 k))

module _ (K : Comparisons) (W : Socket K) where
  -- The waits that the attempts alone decide: they grow while the server cannot be reached, and each
  -- connection that was made sets them back to a second.
  abbrev pub expected_waits : ℕ → List (Round K W) → List ℕ
  expected_waits k [] = []
  expected_waits k (round ∷ rounds) = elim (round.dial) [
    | failed e ↦ backoff (suc k) ∷ expected_waits (suc k) rounds
    | done c ↦ second ∷ expected_waits 0 rounds
  ]

  -- Whatever the ticks bring: behind the k-th failed attempt in a row the loop waits 2^k seconds (two behind the
  -- first), but never longer than a minute, and behind the end of a connection it waits one second. The loop may start behind any
  -- number of failed attempts.
  pub run_loop-waits :
      (J : MapCodec K) (k : ℕ) (rounds : List (Round K W)) (p : Pusher K W)
      → (run_loop K W J (backoff k) rounds p).waits ≡ expected_waits k rounds
  unfolding run_loop
  run_loop-waits J k [] p = refl
  run_loop-waits J k (round ∷ rounds) p = elim (Outcome-cases (round.dial)) [
    | inl (c, e) ↦
        ap (λ r. r.waits) (run_loop_connected K W J (backoff k) round rounds p c e)
        ∙ ap (λ l. second ∷ l)
            (run_loop-waits J 0 rounds (after_push K W J round.ticks (reached K W J c p)))
        ∙ rw e refl
    | inr (t, e) ↦
        ap (λ r. r.waits) (run_loop_failed K W J (backoff k) round rounds p t e)
        ∙ ap (λ d. d ∷ (run_loop K W J d rounds (unreached K W J t p)).waits) (next_delay-backoff k)
        ∙ ap (λ l. backoff (suc k) ∷ l) (run_loop-waits J (suc k) rounds (unreached K W J t p))
        ∙ rw e refl
  ]
