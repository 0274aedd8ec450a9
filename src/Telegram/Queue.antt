-- ===== src/Telegram/Queue.antt =====
-- internal/adapters/telegram/queue.go: pacing and retries of the Telegram calls. A duration is a
-- number of nanoseconds; a negative one, which takes the default as 0 does, is not represented.
pub mod Ring
pub mod Pacing
pub mod Retries
use herdr_telegram_agents.Common.{
  ℕ, zero, suc, ◌+◌, ◌-◌, ◌*◌, ◌%◌, Bool, true, false, not, ◌&&◌, ◌||◌, Option, none, some, List,
  [], ◌∷◌, nat_eq, ◌==◌, ltb, leb, if◌then◌else◌, length, get_or, set, replicate,
}
use herdr_telegram_agents.Telegram.Errors.{CallError, no_retry, is_retryable, retry_after}

abbrev pub second : ℕ
second = 1_000_000_000

pub record QueueConfig : Type 0 where
  pub call_timeout : ℕ
  pub min_gap : ℕ
  pub window_limit : ℕ
  pub window : ℕ
  pub max_tries : ℕ
  pub max_wait : ℕ

unfoldable pub default_queue_config : QueueConfig
default_queue_config = record {
  call_timeout = 0;
  min_gap = second;
  window_limit = 20;
  window = 60 * second;
  max_tries = 5;
  max_wait = 60 * second;
}

-- `stamps` is the ring; `head` is the oldest stamp when the ring is full.
pub record Queue : Type 0 where
  pub cfg : QueueConfig
  pub stamps : List ℕ
  pub head : ℕ
  pub count : ℕ

abbrev or_default : ℕ → ℕ → ℕ
or_default n d = if n == 0 then d else n

unfoldable pub with_defaults : QueueConfig → QueueConfig
unfolding default_queue_config
with_defaults cfg = record cfg {
  min_gap = or_default cfg.min_gap default_queue_config.min_gap;
  window_limit = or_default cfg.window_limit default_queue_config.window_limit;
  window = or_default cfg.window default_queue_config.window;
  max_tries = or_default cfg.max_tries default_queue_config.max_tries;
  max_wait = or_default cfg.max_wait default_queue_config.max_wait;
}

-- NewQueue; the ring starts with zero times.
unfoldable pub new_queue : QueueConfig → Queue
new_queue cfg =
    let cfg' = with_defaults cfg in
    record { cfg = cfg'; stamps = replicate cfg'.window_limit 0; head = 0; count = 0 }

-- q.stamps[i]
abbrev pub stamp_at : Queue → ℕ → ℕ
stamp_at q i = get_or q.stamps i 0

-- The wait for the gap: `-` stops at 0, and so does a wait that is not positive.
abbrev gap_wait : Queue → ℕ → ℕ
gap_wait q now =
    if ltb 0 q.count
    then q.cfg.min_gap + stamp_at q ((q.head + q.count - 1) % length q.stamps) - now
    else 0

-- The wait for the window.
abbrev window_wait : Queue → ℕ → ℕ
window_wait q now = if q.count == length q.stamps then q.cfg.window + stamp_at q q.head - now else 0

-- How long `pace` sleeps when it is called at `now`.
unfoldable pub pace : Queue → ℕ → ℕ
pace q now =
    let wait = gap_wait q now in let w = window_wait q now in if ltb wait w then w else wait

unfoldable pub stamp : Queue → ℕ → Queue
stamp q now =
    if q.count == length q.stamps
    then record q { stamps = set q.stamps q.head now; head = (q.head + 1) % length q.stamps }
    else record q {
      stamps = set q.stamps ((q.head + q.count) % length q.stamps) now;
      count = q.count + 1;
    }

-- The wait before the next attempt; `none` is the negative wait, which gives up.
unfoldable pub backoff : QueueConfig → CallError → ℕ → Option ℕ
unfolding retry_after
backoff cfg err try = elim (retry_after err) [
  | some ra ↦ if ltb cfg.max_wait ra then none else some ra
  | none ↦ some (try * try * second)
]

-- What one round of `execute` meets: an error of `pace`, the outcome of the call, whether the
-- context has ended by then, and an error of the sleep after it. The errors of an interruption are
-- attributed as `sleepErr` does, by the errors of the run's and the caller's contexts.
pub record Try : Type 0 where
  pub pace_err : Option CallError
  pub outcome : Option CallError
  pub interrupted : Bool
  pub sleep_error : Option CallError
  pub run_err : Option CallError
  pub caller_err : Option CallError

unfoldable pub sleep_err : Try → CallError → CallError
sleep_err t err = elim t.run_err [
  | some e ↦ e
  | none ↦ elim t.caller_err [ some e ↦ e | none ↦ err ]
]

-- How a job ends: its error if any, the number of attempts that reached the API, and the waits
-- between them.
pub record Outcome : Type 0 where
  pub error : Option CallError
  pub attempts : ℕ
  pub waits : List ℕ

abbrev pub stopped : Option CallError → ℕ → Outcome
stopped e n = record { error = e; attempts = n; waits = [] }

abbrev pub after_wait : ℕ → Outcome → Outcome
after_wait w o = record { error = o.error; attempts = suc o.attempts; waits = w ∷ o.waits }

-- What follows a failed call: `again` is the next round.
abbrev pub retry : QueueConfig → ℕ → ℕ → Try → CallError → Outcome → Outcome
retry cfg left try t err again =
    if t.interrupted
    then stopped (some (sleep_err t err)) 1
    else if not (is_retryable err) || left == 0
    then stopped (some err) 1
    else elim (backoff cfg err try) [
      | none ↦ stopped (some err) 1
      | some wait ↦ elim t.sleep_error [
        | some serr ↦ record { error = some (sleep_err t serr); attempts = 1; waits = wait ∷ [] }
        | none ↦ after_wait wait again
      ]
    ]

-- A round of the loop of `execute`.
unfoldable pub round : QueueConfig → ℕ → ℕ → Try → Outcome → Outcome
round cfg left try t again = elim t.pace_err [
  | some e ↦ stopped (some (sleep_err t e)) 0
  | none ↦ elim t.outcome [ none ↦ stopped none 1 | some err ↦ retry cfg left try t err again ]
]

-- The loop, with at most as many rounds as its first number; `try` counts from 1.
unfoldable pub execute_from : QueueConfig → (ℕ → Try) → ℕ → ℕ → Outcome
execute_from cfg env zero try = stopped none 0
execute_from cfg env (suc left) try =
    let again = execute_from cfg env left (suc try) in round cfg left try (env try) again

unfoldable pub execute : QueueConfig → (ℕ → Try) → Outcome
execute cfg env = execute_from cfg env cfg.max_tries 1

-- DoOnceGuard: an error of the operation is wrapped in noRetryError.
abbrev pub once : Try → Try
once t = record t { outcome = elim t.outcome [ none ↦ none | some err ↦ some (no_retry ∷ err) ] }
