-- ===== src/Domain/History.antt =====
-- internal/domain/history.go: the output of an agent, put together from snapshots of its screen. The
-- byte count is an integer that never falls below 0, which Domain/History/Caps.antt shows.
pub mod Caps
pub mod Scrolls
use herdr_telegram_agents.Common.{
  ℕ, zero, suc, ◌+◌, ◌-◌, Bool, true, false, not, ◌&&◌, ◌||◌, Option, none, some, List, [], ◌∷◌,
  ◌++◌, nat_eq, ◌==◌, ltb, leb, if◌then◌else◌, length, take, drop, String,
}
use herdr_telegram_agents.Common.Text.{Text, text_eq, codes}
use herdr_telegram_agents.Common.Blanks.{is_blank}
use herdr_telegram_agents.Encoding.Utf8.{of_runes}

abbrev pub history_live_lines : ℕ
history_live_lines = 8

abbrev pub history_anchor_window : ℕ
history_anchor_window = 6

abbrev pub history_anchor_lines : ℕ
history_anchor_lines = 3

abbrev pub history_max_lines : ℕ
history_max_lines = 2000

abbrev pub history_max_bytes : ℕ
history_max_bytes = 262144

abbrev pub history_gap_marker : Text
unfolding of_runes
history_gap_marker = of_runes (codes "…")

-- `mark` is none where the source has -1.
pub record History : Type 0 where
  pub committed : List Text
  pub bytes : ℕ
  pub prev : List Text
  pub tail : List Text
  pub mark : Option ℕ
  pub truncated : Bool

unfoldable pub new_history : History
new_history = record {
  committed = [];
  bytes = 0;
  prev = [];
  tail = [];
  mark = none;
  truncated = false;
}

abbrev pub line_bytes : List Text → ℕ
line_bytes [] = 0
line_bytes (l ∷ ls) = length l + 1 + line_bytes ls

-- splitLive
unfoldable pub split_live : List Text → List Text × List Text
split_live lines = if leb (length lines) history_live_lines then ([], lines) else (
  take (length lines - history_live_lines) lines,
  drop (length lines - history_live_lines) lines,
)

-- The first loop of `aligned`: the lines with text, and those that are equal.
pub align_counts : ℕ → List Text → List Text → ℕ × ℕ
align_counts (suc n) (x ∷ xs) (y ∷ ys) =
    let (text, hits) = align_counts n xs ys in
    if is_blank x then (text, hits) else (suc text, if x == y then suc hits else hits)
align_counts _ _ _ = (0, 0)

unfoldable pub aligned : List Text → List Text → Bool
unfolding align_counts
aligned overlap stable =
    let (text, hits) = align_counts history_anchor_window overlap stable in
    if text == 0
    then false
    else leb (if ltb text history_anchor_lines then text else history_anchor_lines) hits

anchor_hits : ℕ → List Text → List Text → ℕ
anchor_hits (suc n) (x ∷ xs) (y ∷ ys) =
    let hits = anchor_hits n xs ys in if not (is_blank x) && x == y then suc hits else hits
anchor_hits _ _ _ = 0

-- hasThreeEqualNonblankAnchors
unfoldable pub has_three_equal_nonblank_anchors : List Text → List Text → Bool
unfolding anchor_hits
has_three_equal_nonblank_anchors a b =
    leb history_anchor_lines (anchor_hits history_anchor_window a b)

unfoldable pub equal_lines : List Text → List Text → Bool
equal_lines [] [] = true
equal_lines (x ∷ xs) (y ∷ ys) = x == y && equal_lines xs ys
equal_lines _ _ = false

unfoldable pub commit : List Text → History → History
commit lines h = record h { bytes = h.bytes + line_bytes lines; committed = h.committed ++ lines }

unfoldable pub cut : ℕ → History → History
cut n h = record h {
  bytes = h.bytes - line_bytes (drop n h.committed);
  committed = take n h.committed;
}

-- The loop of `trim`: what is left, its bytes, and how many lines go.
trim_loop : List Text → ℕ → List Text × ℕ × ℕ
trim_loop [] bytes = ([], bytes, 0)
trim_loop (l ∷ ls) bytes =
    let (kept, left, drops) = trim_loop ls (bytes - (length l + 1)) in
    if ltb history_max_lines (length (l ∷ ls)) || ltb history_max_bytes bytes
    then (kept, left, suc drops)
    else (l ∷ ls, bytes, 0)

-- The mark after `drops` lines went, and whether lines behind it did.
shift_mark : Option ℕ → Bool → ℕ → Option ℕ × Bool
shift_mark none truncated drops = (none, true)
shift_mark (some m) truncated drops =
    if ltb m drops then (some 0, true) else (some (m - drops), truncated)

unfoldable pub trim : History → History
unfolding trim_loop shift_mark
trim h =
    let (kept, left, drops) = trim_loop h.committed h.bytes in
    if drops == 0 then h else record h {
      committed = kept;
      bytes = left;
      mark = (shift_mark h.mark h.truncated drops).0;
      truncated = (shift_mark h.mark h.truncated drops).1;
    }

-- The smallest shift at which the rest of the last screen meets the new one: that rest, and the shift.
unfoldable pub find_shift : List Text → List Text → ℕ → Option (List Text × ℕ)
find_shift [] stable shift = none
find_shift (l ∷ ls) stable shift =
    let later = find_shift ls stable (suc shift) in
    if ltb (length stable) (length (l ∷ ls)) || not (aligned (l ∷ ls) stable)
    then later
    else some (l ∷ ls, shift)

-- The inner loop of `recentPrefixEnd`, at one offset.
recent_end_at : History → List Text → ℕ → List Text → Option ℕ
recent_end_at h stable offset [] = none
recent_end_at h stable offset (l ∷ ls) =
    let later = recent_end_at h stable offset ls in
    let overlap = l ∷ ls in
    let end = offset + length overlap in
    let found = take (length overlap) (drop offset stable) in
    if ltb (length stable - offset) (length overlap)
      || not (has_three_equal_nonblank_anchors overlap found)
      || not (equal_lines overlap found)
    then later
    else if ltb (length h.committed) end
        || not (equal_lines (drop (length h.committed - end) h.committed) (take end stable))
    then later
    else some end

-- Its outer loop: `left` offsets are to be tried.
recent_end_from : History → List Text → ℕ → ℕ → Option ℕ
recent_end_from h stable zero offset = none
recent_end_from h stable (suc left) offset =
    let later = recent_end_from h stable left (suc offset) in
    elim (recent_end_at h stable offset h.prev) [ none ↦ later | some end ↦ some end ]

unfoldable pub recent_prefix_end : History → List Text → Option ℕ
unfolding recent_end_from recent_end_at
recent_prefix_end h stable = recent_end_from h stable (length stable - 1) 1

-- What a merge answers: the lines added, the shift, and whether there is a gap.
pub record Merge : Type 0 where
  pub added : ℕ
  pub shift : ℕ
  pub gap : Bool

abbrev finish : List Text → History → History
finish stable h = trim (record h { prev = stable })

-- The overlap replaces the end of what is committed; the caps may have dropped a part of it.
splice : List Text → List Text → History → History
splice overlap stable h =
    let keep = length h.committed - length overlap in
    let skip = length overlap - length h.committed in commit (drop skip stable) (cut keep h)

merge_screen : List Text → History → History × Merge
merge_screen stable h =
    if length h.prev == 0
    then (commit stable h, record { added = length stable; shift = 0; gap = false })
    else elim (find_shift h.prev stable 0) [
      | some (overlap, shift) ↦ (
        splice overlap stable h,
        record { added = length stable - length overlap; shift = shift; gap = false },
      )
      | none ↦ (
        commit stable (commit (history_gap_marker ∷ []) h),
        record { added = length stable; shift = length h.prev; gap = true },
      )
    ]

merge_recent : Bool → List Text → History → Option ℕ
merge_recent allow_recent_prefix stable h =
    if allow_recent_prefix then recent_prefix_end h stable else none

-- appendSnapshot
unfoldable pub append_snapshot : List Text → List Text → Bool → History → History × Merge
unfolding find_shift splice merge_screen merge_recent
append_snapshot stable tail allow_recent_prefix h0 =
    let h = record h0 { tail = tail } in
    if length stable == 0
    then (h, record { added = 0; shift = 0; gap = false })
    else elim (merge_recent allow_recent_prefix stable h) [
      | some end ↦ (
        finish stable (commit (drop end stable) h),
        record { added = length stable - end; shift = length stable - end; gap = false },
      )
      | none ↦ let (h', m) = merge_screen stable h in (finish stable h', m)
    ]

-- Append
unfoldable pub append : List Text → History → History × Merge
append lines h = append_snapshot (split_live lines).0 (split_live lines).1 false h

-- AppendRecentAfterVisible
unfoldable pub append_recent_after_visible : List Text → History → History × Merge
append_recent_after_visible lines h =
    append_snapshot (split_live lines).0 (split_live lines).1 true h

-- Mark
unfoldable pub mark_here : History → History
mark_here h = record h { mark = some (length h.committed); truncated = false }

abbrev pub is_marked : History → Bool
is_marked h = elim h.mark [ none ↦ false | some m ↦ true ]

abbrev pub mark_start : Option ℕ → ℕ
mark_start none = 0
mark_start (some m) = m

-- Lines; a start behind the end takes nothing.
unfoldable pub lines_of : History → List Text
lines_of h =
    let rest = drop (mark_start h.mark) h.committed ++ h.tail in
    if h.truncated then history_gap_marker ∷ rest else rest
