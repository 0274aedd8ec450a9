-- ===== src/Telegram/Queue/Retries.antt =====
-- How often a call is tried, and when.
use herdr_telegram_agents.Common.{
  ℕ, zero, suc, ◌≤◌, ◌<◌, ◌≡◌, ◌≢◌, refl, subst, sym, true, false, ◌⊎◌, inl, inr, none, some, [],
  ◌∷◌, arith, nat_eq, Option-cases,
}
use herdr_telegram_agents.Telegram.Queue.{
  QueueConfig, Try, Outcome, backoff, round, execute_from, execute, once,
}
use herdr_telegram_agents.Telegram.Errors.{CallError, no_retry, is_retryable}

round-attempts :
    (cfg : QueueConfig) (left try : ℕ) (t : Try) (again : Outcome)
    → again.attempts ≤ left
    → (round cfg left try t again).attempts ≤ suc left
unfolding round backoff
round-attempts cfg left try t again h = ground arith

execute_from-attempts :
    (cfg : QueueConfig) (env : ℕ → Try) (left try : ℕ)
    → (execute_from cfg env left try).attempts ≤ left
unfolding execute_from
execute_from-attempts cfg env zero try = omega arith
execute_from-attempts cfg env (suc left) try =
    round-attempts cfg left try (env try) _ (execute_from-attempts cfg env left (suc try))

-- A call makes at most MaxTries attempts.
pub execute-attempts :
    (cfg : QueueConfig) (env : ℕ → Try) → (execute cfg env).attempts ≤ cfg.max_tries
unfolding execute
execute-attempts cfg env = execute_from-attempts cfg env cfg.max_tries 1

-- `isRetryable` refuses what noRetryError wraps.
is_retryable-no_retry : (err : CallError) → is_retryable (no_retry ∷ err) ≡ false
unfolding is_retryable
is_retryable-no_retry err = refl

-- What a job leaves that ran its operation at most once.
pub record IsSingle (cfg : QueueConfig) (t : Try) (o : Outcome) : Type 0 where
  pub once_only : o.attempts ≤ 1
  pub no_waits : o.waits ≡ []
  pub honest : (o.error ≢ none) ⊎ (cfg.max_tries ≡ 0) ⊎ (t.outcome ≡ none)

round-IsSingle :
    (cfg : QueueConfig) (left try : ℕ) (t : Try) (again : Outcome)
    → IsSingle cfg t (round cfg left try (once t) again)
unfolding round
round-IsSingle cfg left try t again = elim (Option-cases t.outcome) [
  | inl done ↦ record { once_only = ground arith; no_waits = ground arith; honest = inr (inr done) }
  | inr (err, failed) ↦
      let final = is_retryable-no_retry err in
      record { once_only = ground arith; no_waits = ground arith; honest = inl (ground arith) }
]

execute_from-IsSingle :
    (cfg : QueueConfig) (env : ℕ → Try) (left : ℕ)
    → cfg.max_tries ≡ left
    → IsSingle cfg (env 1) (execute_from cfg (λ n. once (env n)) left 1)
unfolding execute_from
execute_from-IsSingle cfg env zero none_left = record {
  once_only = omega arith;
  no_waits = refl;
  honest = inr (inl none_left);
}
execute_from-IsSingle cfg env (suc left) some_left = round-IsSingle cfg left 1 (env 1) _

-- An operation marked as not to be replayed is run at most once and never waited for, whatever its
-- error; if the queue allows an attempt and reports no error, the operation had none.
pub execute-once :
    (cfg : QueueConfig) (env : ℕ → Try) → IsSingle cfg (env 1) (execute cfg (λ n. once (env n)))
unfolding execute
execute-once cfg env = execute_from-IsSingle cfg env cfg.max_tries refl

-- A round that ends in success: every round before it failed in a way that is worth another try.
abbrev pub SucceedsAt : (ℕ → Try) → ℕ → ℕ → Type 0
SucceedsAt env try zero = ⊥
SucceedsAt env try (suc n) =
    ((n ≡ 0) × ((env try).outcome ≡ none))
    ⊎ (((err : CallError) × ((env try).outcome ≡ some err) × (is_retryable err ≡ true))
        × SucceedsAt env (suc try) n)

round-succeeds :
    (cfg : QueueConfig) (left try : ℕ) (t : Try) (again : Outcome)
    → (round cfg left try t again).error ≡ none
    → ((t.outcome ≡ none) × ((round cfg left try t again).attempts ≡ 1))
      ⊎ (((err : CallError) × (t.outcome ≡ some err) × (is_retryable err ≡ true))
          × ((round cfg left try t again).attempts ≡ suc again.attempts)
          × (again.error ≡ none)
          × (0 < left))
unfolding round backoff
round-succeeds cfg left try t again h = elim (Option-cases t.outcome) [
  | inl done ↦ inl (ground arith)
  | inr (err, failed) ↦ inr ((err, failed, ground arith), ground arith, ground arith, ground arith)
]

succeeds_from :
    (cfg : QueueConfig) (env : ℕ → Try) (left try : ℕ)
    → 0 < left
    → (execute_from cfg env left try).error ≡ none
    → SucceedsAt env try (execute_from cfg env left try).attempts
unfolding execute_from
succeeds_from cfg env zero try pos h = absurd (omega arith)
succeeds_from cfg env (suc left) try pos h =
    elim (round-succeeds cfg left try (env try) (execute_from cfg env left (suc try)) h) [
      | inl (done, n) ↦ subst (SucceedsAt env try) (sym n) (inl (refl, done))
      | inr (worth, n, ok, more) ↦
          subst (SucceedsAt env try) (sym n)
            (inr (worth, succeeds_from cfg env left (suc try) more ok))
    ]

-- If a queue allows at least one attempt and a call reports no error, its last attempt succeeded
-- and every attempt before it failed with an error that may be retried.
pub execute-succeeds :
    (cfg : QueueConfig) (env : ℕ → Try)
    → 0 < cfg.max_tries
    → (execute cfg env).error ≡ none
    → SucceedsAt env 1 (execute cfg env).attempts
unfolding execute
execute-succeeds cfg env pos h = succeeds_from cfg env cfg.max_tries 1 pos h
