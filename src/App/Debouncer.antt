-- ===== src/App/Debouncer.antt =====
-- internal/app/debounce.go: one trailing timer for each key. A cancel channel is the number of the
-- goroutine that listens to it; `running` holds the goroutines that have not returned, with the key
-- and the time of their timers, and `due` what was sent. The channel's limit of 256 is left out: it
-- delays a goroutine that has already decided to send.
pub mod Timers
use herdr_telegram_agents.Common.{
  ℕ, ◌+◌, ◌-◌, Bool, true, false, not, ◌&&◌, ◌||◌, Option, none, some, List, [], ◌∷◌, ◌++◌, nat_eq,
  ◌==◌, leb, if◌then◌else◌, length,
}
use herdr_telegram_agents.Common.Text.{text_lt}
use herdr_telegram_agents.Common.GoMap.{GoMap, keys, lookup, insert, delete}
use herdr_telegram_agents.Common.Sort.{sort}
use herdr_telegram_agents.Domain.Key.{Key, key_eq, key_string}
use herdr_telegram_agents.Domain.Mapping.{Time}

pub record ScheduledEdit : Type 0 where
  pub cancel : ℕ
  pub due_at : Time

pub record Timer : Type 0 where
  pub key : Key
  pub fires_at : Time

pub record Debouncer : Type 0 where
  pub pending : GoMap Key ScheduledEdit
  pub running : GoMap ℕ Timer
  pub next_cancel : ℕ
  pub due : List Key

-- newDebouncer
unfoldable pub new_debouncer : Debouncer
new_debouncer = record { pending = []; running = []; next_cancel = 0; due = [] }

-- ScheduleAfter: an earlier edit of the key is replaced, and its goroutine finds that out.
unfoldable pub schedule_after : Key → ℕ → Time → Debouncer → Debouncer
schedule_after key delay now d = record d {
  pending = insert key (record { cancel = d.next_cancel; due_at = now + delay }) d.pending;
  running = insert d.next_cancel (record { key = key; fires_at = now + delay }) d.running;
  next_cancel = d.next_cancel + 1;
}

abbrev pub is_current : ℕ → Option ScheduledEdit → Bool
is_current id none = false
is_current id (some e) = e.cancel == id

-- The goroutine after its timer fired.
unfoldable pub wake : ℕ → Timer → Debouncer → Debouncer
wake id t d =
    if is_current id (lookup t.key d.pending)
    then record d {
      pending = delete t.key d.pending;
      running = delete id d.running;
      due = d.due ++ t.key ∷ [];
    }
    else record d { running = delete id d.running }

-- The goroutine after its channel was closed.
unfoldable pub quit : ℕ → Debouncer → Debouncer
quit id d = record d { running = delete id d.running }

-- Cancel
unfoldable pub cancel : Key → Debouncer → Debouncer × Bool
cancel key d = elim (lookup key d.pending) [
  | none ↦ (d, false)
  | some e ↦ (record d { pending = delete key d.pending }, true)
]

-- Move under the lock: what is left of the delay. A subtraction stops at 0, as the source writes out.
unfoldable pub move_out : Key → Key → Time → Debouncer → Debouncer × Option ℕ
move_out from_key to_key now d =
    if from_key == to_key then (d, none) else elim (lookup from_key d.pending) [
      | none ↦ (d, none)
      | some e ↦
          (record d { pending = delete to_key (delete from_key d.pending) }, some (e.due_at - now))
    ]

-- Move, with the two times that it reads.
unfoldable pub move : Key → Key → Time → Time → Debouncer → Debouncer × Bool
unfolding move_out schedule_after
move from_key to_key now later d =
    let (d', left) = move_out from_key to_key now d in
    elim left [ none ↦ (d', false) | some delay ↦ (schedule_after to_key delay later d', true) ]

-- Drain
unfoldable pub drain : Debouncer → Debouncer × List Key
drain d = (
  record d { pending = [] },
  sort (λ a b. text_lt (key_string a) (key_string b)) (keys d.pending),
)

-- Pending
unfoldable pub pending_count : Debouncer → ℕ
pending_count d = length d.pending
