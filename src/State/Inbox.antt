-- ===== src/State/Inbox.antt =====
-- internal/adapters/state/inbox.go: how room is made for a file. The sizes and the quota are small enough for
-- an int64; `removable` stands for what os.Remove answers.
pub mod Room
use herdr_telegram_agents.Common.{
  ℕ, ◌+◌, ◌-◌, ◌*◌, ◌/◌, Bool, true, false, not, ◌&&◌, ◌||◌, List, [], ◌∷◌, ltb, leb, if◌then◌else◌,
}
use herdr_telegram_agents.Common.Text.{Text}
use herdr_telegram_agents.Common.Sort.{sort}
use herdr_telegram_agents.Domain.Mapping.{Time}

pub record InboxFile : Type 0 where
  pub path : Text
  pub size : ℕ
  pub mod_time : Time
  pub shared : Bool

abbrev pub default_inbox_max_total : ℕ
default_inbox_max_total = 500 * 1048576

abbrev pub inbox_shared_share : ℕ
inbox_shared_share = 4

abbrev older : InboxFile → InboxFile → Bool
older a b = ltb a.mod_time b.mod_time

-- The order of `list`.
unfoldable pub oldest_first : List InboxFile → List InboxFile
oldest_first files = sort older files

-- The total that `list` adds up.
abbrev pub total_size : List InboxFile → ℕ
total_size [] = 0
total_size (f ∷ fs) = f.size + total_size fs

abbrev pub shared_size : List InboxFile → ℕ
shared_size [] = 0
shared_size (f ∷ fs) = let rest = shared_size fs in if f.shared then f.size + rest else rest

-- SharedQuota
abbrev pub shared_quota : ℕ → ℕ
shared_quota limit = limit / inbox_shared_share

module _ (removable : InboxFile → Bool) (limit need : ℕ) where
  -- The loop of `makeRoom`: the files that stay, and the running total.
  unfoldable pub room_loop : List InboxFile → ℕ → List InboxFile × ℕ
  room_loop [] total = ([], total)
  room_loop (f ∷ fs) total =
      let shorter = room_loop fs (total - f.size) in
      let stuck = room_loop fs total in
      if leb (total + need) limit
      then (f ∷ fs, total)
      else if removable f
      then shorter
      else (f ∷ stuck.0, stuck.1)

  -- makeRoom: the files that stay, and whether there is room.
  unfoldable pub make_room : List InboxFile → List InboxFile × Bool
  unfolding room_loop
  make_room listed =
      let files = oldest_first listed in
      if ltb limit need
      then (files, false)
      else let (kept, total) = room_loop files (total_size files) in
        (kept, not (ltb limit (total + need)))

  -- The loop of `makeSharedRoom`: the files that stay, and the two running counters.
  unfoldable pub shared_loop : List InboxFile → ℕ → ℕ → List InboxFile × ℕ × ℕ
  shared_loop [] shared total = ([], shared, total)
  shared_loop (f ∷ fs) shared total =
      let shorter = shared_loop fs (shared - f.size) (total - f.size) in
      let stuck = shared_loop fs shared total in
      if leb (shared + need) (shared_quota limit) && leb (total + need) limit
      then (f ∷ fs, shared, total)
      else if not f.shared
      then (f ∷ stuck.0, stuck.1, stuck.2)
      else if removable f
      then shorter
      else (f ∷ stuck.0, stuck.1, stuck.2)

  -- makeSharedRoom
  unfoldable pub make_shared_room : List InboxFile → List InboxFile × Bool
  unfolding shared_loop
  make_shared_room listed =
      let files = oldest_first listed in
      if ltb (shared_quota limit) need
      then (files, false)
      else if ltb limit (total_size files - shared_size files + need)
      then (files, false)
      else let (kept, shared, total) = shared_loop files (shared_size files) (total_size files) in
        (kept, not (ltb (shared_quota limit) (shared + need) || ltb limit (total + need)))
