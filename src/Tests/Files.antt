-- ===== src/Tests/Files.antt =====
-- The files of the inbox.
use herdr_telegram_agents.Common.{
  leb, ◌&&◌, ℕ, ◌+◌, ◌-◌, ◌≤◌, ◌<◌, ◌≡◌, ◌⊎◌, Bool, true, false, List, [], ◌∷◌, arith, select, drop,
}
use herdr_telegram_agents.Common.Text.{codes}
use herdr_telegram_agents.State.Inbox.{
  InboxFile, oldest_first, total_size, shared_size, shared_quota, make_room, make_shared_room,
}
use herdr_telegram_agents.State.Inbox.Room.{
  is_owner, owner_size, make_shared_room_keeps, make_room_oldest,
}

abbrev notes : InboxFile
notes = record { path = codes "notes"; size = 30; mod_time = 2; shared = false }

abbrev photo : InboxFile
photo = record { path = codes "shared-photo"; size = 20; mod_time = 1; shared = true }

abbrev inbox : List InboxFile
inbox = notes ∷ photo ∷ []

abbrev always : InboxFile → Bool
always f = true

make_shared_room_keeps_example :
    (select is_owner (make_shared_room always 100 10 inbox).0
      ≡ select is_owner (oldest_first inbox))
    × (((make_shared_room always 100 10 inbox).1 ≡ false)
        ⊎ ((shared_size (make_shared_room always 100 10 inbox).0 + 10 ≤ shared_quota 100)
            × (total_size (make_shared_room always 100 10 inbox).0 + 10 ≤ 100)))
    × ((make_shared_room always 100 10 inbox).1
        ≡ (leb 10 (shared_quota 100) && leb (owner_size (oldest_first inbox) + 10) 100))
make_shared_room_keeps_example = make_shared_room_keeps always 100 10 inbox

make_room_oldest_example :
    (n : ℕ) × (make_room always 40 10 inbox ≡ (drop n (oldest_first inbox), true))
    × (total_size (drop n (oldest_first inbox)) + 10 ≤ 40)
    × ((n ≡ 0) ⊎ (40 < total_size (drop (n - 1) (oldest_first inbox)) + 10))
make_room_oldest_example = make_room_oldest 40 10 inbox (omega arith)
