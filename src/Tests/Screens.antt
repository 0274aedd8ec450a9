-- ===== src/Tests/Screens.antt =====
-- Screens of an agent, put together, and versions.
use herdr_telegram_agents.Common.{
  ◌≤◌, ◌≡◌, ◌≢◌, ◌↔◌, ◌⊎◌, refl, false, some, none, List, [], ◌∷◌, ◌++◌, arith, ℕ_discrete, length,
}
use herdr_telegram_agents.Common.Text.{Text, codes, Text-discrete}
use herdr_telegram_agents.Common.Blanks.{is_blank, is_space}
use herdr_telegram_agents.Encoding.Utf8.{runes}
use herdr_telegram_agents.Domain.History.{
  History, new_history, append, append_snapshot, find_shift, aligned, mark_here, mark_start,
  line_bytes, history_max_lines, history_max_bytes,
}
use herdr_telegram_agents.Domain.History.Caps.{caps_hold, empty, visible, marked}
use herdr_telegram_agents.Domain.Version.{Version, compare, less, same}
use herdr_telegram_agents.Domain.Version.Order.{compare_order, opposite}
use herdr_telegram_agents.Domain.History.Scrolls.{append_scrolled}

abbrev old_lines : List Text
old_lines = codes "a" ∷ []

abbrev shared_lines : List Text
shared_lines = codes "b" ∷ codes "c" ∷ codes "d" ∷ []

abbrev fresh_lines : List Text
fresh_lines = codes "e" ∷ []

-- The screen showed a, b, c and d.
abbrev shown : History
shown = record {
  committed = old_lines ++ shared_lines;
  bytes = 8;
  prev = old_lines ++ shared_lines;
  tail = [];
  mark = none;
  truncated = false;
}

scroll_found : find_shift shown.prev (shared_lines ++ fresh_lines) 0 ≡ some (shared_lines, 1)
unfolding find_shift aligned is_blank is_space runes Text-discrete ℕ_discrete
scroll_found = refl

append_scrolled_example :
    ((append_snapshot (shared_lines ++ fresh_lines) [] false shown).0.committed
      ≡ shown.committed ++ fresh_lines)
    × ((append_snapshot (shared_lines ++ fresh_lines) [] false shown).1.added ≡ length fresh_lines)
    × ((append_snapshot (shared_lines ++ fresh_lines) [] false shown).1.gap ≡ false)
append_scrolled_example =
    append_scrolled shown old_lines shared_lines fresh_lines [] 1 refl refl scroll_found
      (omega arith) (omega arith)

abbrev noted : History
noted = mark_here (append (old_lines ++ shared_lines) new_history).0

caps_hold_example :
    (noted.bytes ≡ line_bytes noted.committed)
    × (length noted.committed ≤ history_max_lines)
    × (noted.bytes ≤ history_max_bytes)
    × (mark_start noted.mark ≤ length noted.committed)
caps_hold_example = caps_hold noted (marked (visible empty (old_lines ++ shared_lines)))

-- 1.2.0 and two candidates of it.
abbrev final_release : Version
final_release = record { major = 1; minor = 2; patch = 0; pre = [] }

abbrev rc_two : Version
rc_two = record final_release { pre = codes "rc" ∷ codes "2" ∷ [] }

abbrev rc_ten : Version
rc_ten = record final_release { pre = codes "rc" ∷ codes "10" ∷ [] }

compare_order_example :
    (compare rc_ten rc_two ≡ opposite (compare rc_two rc_ten))
    × ((compare rc_two rc_ten ≡ same) ↔ (rc_two ≡ rc_ten))
    × ((compare rc_two final_release ≡ less)
        ⊎ (compare rc_two rc_ten ≢ less)
        ⊎ (compare rc_ten final_release ≢ less))
compare_order_example = compare_order rc_two rc_ten final_release
