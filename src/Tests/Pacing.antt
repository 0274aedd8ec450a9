-- ===== src/Tests/Pacing.antt =====
-- The queue on concrete configurations and calls.
use herdr_telegram_agents.Common.{
  ℕ, zero, suc, ◌≡◌, refl, false, Option, some, none, [], ◌∷◌, arith, ℕ_discrete,
}
use herdr_telegram_agents.Common.Slices.{last_of}
use herdr_telegram_agents.Telegram.Queue.{
  QueueConfig, Queue, Try, with_defaults, new_queue, pace, stamp, execute, execute_from, round,
  backoff, once,
}
use herdr_telegram_agents.Telegram.Queue.Ring.{IsRing, contents, contents-stamp}
use herdr_telegram_agents.Telegram.Queue.Pacing.{Run, start, attempt, IsPaced, IsPaced-Run}
use herdr_telegram_agents.Telegram.Errors.{
  CallError, plain, is_retryable, retry_after, as_api_error, as_too_many_requests,
}
use herdr_telegram_agents.Telegram.Queue.Retries.{
  SucceedsAt, IsSingle, execute-once, execute-succeeds,
}

abbrev config : QueueConfig
config = record {
  call_timeout = 0;
  min_gap = 10;
  window_limit = 2;
  window = 100;
  max_tries = 3;
  max_wait = 50;
}

abbrev q0 : Queue
q0 = new_queue config

three_calls : Run config (stamp (stamp (stamp q0 5) 15) 105) (5 ∷ 15 ∷ 105 ∷ [])
unfolding new_queue with_defaults stamp pace ℕ_discrete
three_calls =
    attempt (attempt (attempt start 5 5 (omega arith)) 6 15 (omega arith)) 16 105 (omega arith)

IsPaced-Run_example : IsPaced (with_defaults config) (5 ∷ 15 ∷ 105 ∷ [])
IsPaced-Run_example =
    IsPaced-Run config (stamp (stamp (stamp q0 5) 15) 105) (5 ∷ 15 ∷ 105 ∷ []) three_calls

abbrev full : Queue
full = record { cfg = config; stamps = 30 ∷ 20 ∷ []; head = 1; count = 2 }

full-IsRing : IsRing full
full-IsRing = record {
  has_room = ground arith;
  head_inside = ground arith;
  count_fits = ground arith;
  fills_first = ground arith;
}

contents-stamp_example : contents (stamp full 40) ≡ last_of 2 (20 ∷ 30 ∷ 40 ∷ [])
contents-stamp_example = contents-stamp full 40 full-IsRing

-- Two calls fail with an error that may be retried, the third goes through.
abbrev busy : CallError
busy = plain ∷ []

abbrev call : Option CallError → Try
call e = record {
  pace_err = none;
  outcome = e;
  interrupted = false;
  sleep_error = none;
  run_err = none;
  caller_err = none;
}

abbrev third_works : ℕ → Try
third_works zero = call (some busy)
third_works (suc zero) = call (some busy)
third_works (suc (suc zero)) = call (some busy)
third_works _ = call none

works : (execute config third_works).error ≡ none
unfolding execute execute_from round backoff is_retryable retry_after as_api_error
    as_too_many_requests ℕ_discrete
works = refl

execute-once_example : IsSingle config (third_works 1) (execute config (λ n. once (third_works n)))
execute-once_example = execute-once config third_works

execute-succeeds_example : SucceedsAt third_works 1 (execute config third_works).attempts
execute-succeeds_example = execute-succeeds config third_works (ground arith) works
