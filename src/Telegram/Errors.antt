-- ===== src/Telegram/Errors.antt =====
-- internal/adapters/telegram/errors.go: what the queue reads off an error. The error types of the bot library
-- and of the context package are names here.
use herdr_telegram_agents.Common.{
  ℕ, ◌*◌, Bool, true, false, not, ◌||◌, Option, none, some, List, [], ◌∷◌, nat_eq, ◌==◌, leb, any,
  if◌then◌else◌,
}

-- One error of a chain. `api_error` has the code and the wait of APIError, `too_many_requests` the
-- seconds of the bot's error; `plain` is any error that is none of the others.
pub data ErrorLayer : Type 0 where
  no_retry canceled migrate plain : ErrorLayer
  api_error : ℕ → ℕ → ErrorLayer
  too_many_requests : ℕ → ErrorLayer
  bot_bad_request bot_unauthorized bot_forbidden bot_not_found bot_conflict : ErrorLayer
  err_forbidden err_bot_unauthorized err_poller_conflict err_topic_gone : ErrorLayer
  err_topic_closed err_message_gone err_chat_migrated : ErrorLayer

-- An error that is not nil, as the errors in its chain in the order in which errors.As tries them.
abbrev pub CallError : Type 0
CallError = List ErrorLayer

abbrev pub is_no_retry : ErrorLayer → Bool
is_no_retry no_retry = true
is_no_retry _ = false

abbrev pub is_canceled : ErrorLayer → Bool
is_canceled canceled = true
is_canceled _ = false

abbrev pub is_migrate : ErrorLayer → Bool
is_migrate migrate = true
is_migrate _ = false

-- The errors that `isRetryable` lists as final.
abbrev pub is_final : ErrorLayer → Bool
is_final bot_bad_request = true
is_final bot_unauthorized = true
is_final bot_forbidden = true
is_final bot_not_found = true
is_final bot_conflict = true
is_final err_forbidden = true
is_final err_bot_unauthorized = true
is_final err_poller_conflict = true
is_final err_topic_gone = true
is_final err_topic_closed = true
is_final err_message_gone = true
is_final err_chat_migrated = true
is_final _ = false

-- errors.As with an APIError, and with a TooManyRequestsError.
unfoldable pub as_api_error : CallError → Option (ℕ × ℕ)
as_api_error [] = none
as_api_error (api_error code wait ∷ ls) = some (code, wait)
as_api_error (l ∷ ls) = as_api_error ls

unfoldable pub as_too_many_requests : CallError → Option ℕ
as_too_many_requests [] = none
as_too_many_requests (too_many_requests seconds ∷ ls) = some seconds
as_too_many_requests (l ∷ ls) = as_too_many_requests ls

-- isRetryable
unfoldable pub is_retryable : CallError → Bool
unfolding as_api_error
is_retryable err =
    if any is_no_retry err
    then false
    else if any is_canceled err
    then false
    else elim (as_api_error err) [
      | some (code, wait) ↦ code == 429 || leb 500 code
      | none ↦ if any is_final err then false else not (any is_migrate err)
    ]

abbrev pub wait_of_bot : Option ℕ → Option ℕ
wait_of_bot none = none
wait_of_bot (some seconds) = some (seconds * 1_000_000_000)

-- retryAfter
unfoldable pub retry_after : CallError → Option ℕ
unfolding as_api_error as_too_many_requests
retry_after err = elim (as_api_error err) [
  | some (code, wait) ↦ if code == 429 then some wait else wait_of_bot (as_too_many_requests err)
  | none ↦ wait_of_bot (as_too_many_requests err)
]
