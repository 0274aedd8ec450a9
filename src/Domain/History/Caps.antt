-- ===== src/Domain/History/Caps.antt =====
-- The caps of a history, and its byte count.
use herdr_telegram_agents.Common.{
  ℕ, zero, suc, ◌+◌, ◌-◌, ◌≤◌, ◌≡◌, refl, subst, ap, Bool, true, false, not, ◌||◌, inl, inr, some,
  List, [], ◌∷◌, ◌++◌, arith, nat_eq, ◌==◌, ltb, length, take, drop, length-append, Option-cases,
  Bool-cases,
}
use herdr_telegram_agents.Common.Text.{Text, text_eq}
use herdr_telegram_agents.Common.Slices.{length-take, length-drop}
use herdr_telegram_agents.Domain.History.{
  History, new_history, history_max_lines, history_max_bytes, history_gap_marker, line_bytes,
  split_live, commit, cut, trim_loop, shift_mark, trim, splice, find_shift, aligned, finish,
  merge_screen, merge_recent, append_snapshot, append, append_recent_after_visible, mark_here,
  mark_start,
}

-- The byte count is that of the lines.
abbrev pub IsCounted : History → Type 0
IsCounted h = h.bytes ≡ line_bytes h.committed

-- Both caps hold, the byte count is right, and the mark is inside.
pub record IsBounded (h : History) : Type 0 where
  pub counted : h.bytes ≡ line_bytes h.committed
  pub few_lines : length h.committed ≤ history_max_lines
  pub few_bytes : h.bytes ≤ history_max_bytes
  pub mark_inside : (m : ℕ) → h.mark ≡ some m → m ≤ length h.committed

pub line_bytes-append : (xs ys : List Text) → line_bytes (xs ++ ys) ≡ line_bytes xs + line_bytes ys
line_bytes-append [] ys = omega arith
line_bytes-append (x ∷ xs) ys = omega (arith, line_bytes-append xs ys)

line_bytes-take-drop :
    (n : ℕ) (xs : List Text) → line_bytes (take n xs) + line_bytes (drop n xs) ≡ line_bytes xs
line_bytes-take-drop zero xs = omega arith
line_bytes-take-drop (suc n) [] = refl
line_bytes-take-drop (suc n) (x ∷ xs) = omega (arith, line_bytes-take-drop n xs)

commit-IsCounted : (ls : List Text) (h : History) → IsCounted h → IsCounted (commit ls h)
unfolding commit
commit-IsCounted ls h c = omega (arith, line_bytes-append h.committed ls)

cut-IsCounted : (n : ℕ) (h : History) → IsCounted h → IsCounted (cut n h)
unfolding cut
cut-IsCounted n h c = omega (arith, line_bytes-take-drop n h.committed)

-- What the loop of `trim` leaves.
record IsTrimmed (ls : List Text) (out : List Text × ℕ × ℕ) : Type 0 where
  counted : out.1 ≡ line_bytes out.0
  few_lines : length out.0 ≤ history_max_lines
  few_bytes : out.1 ≤ history_max_bytes
  dropped : length ls ≡ out.2 + length out.0
  untouched : out.2 ≡ 0 → out.0 ≡ ls

trim_loop-IsTrimmed :
    (ls : List Text) (bytes : ℕ) → bytes ≡ line_bytes ls → IsTrimmed ls (trim_loop ls bytes)
unfolding trim_loop
trim_loop-IsTrimmed [] bytes h = record {
  counted = h;
  few_lines = omega arith;
  few_bytes = omega arith;
  dropped = omega arith;
  untouched = λ e. refl;
}
trim_loop-IsTrimmed (l ∷ ls) bytes h =
    let ih = trim_loop-IsTrimmed ls (bytes - (length l + 1)) (omega arith) in
    elim (Bool-cases (ltb history_max_lines (length (l ∷ ls)) || ltb history_max_bytes bytes)) [
      | inl over ↦ record {
        counted = ground (arith, ih.counted);
        few_lines = ground (arith, ih.few_lines);
        few_bytes = ground (arith, ih.few_bytes);
        dropped = ground (arith, ih.dropped);
        untouched = λ e. ground arith;
      }
      | inr fits ↦ record {
        counted = ground arith;
        few_lines = ground arith;
        few_bytes = ground arith;
        dropped = ground arith;
        untouched = λ e. ground arith;
      }
    ]

-- The mark is inside the list before the trim.
abbrev MarkInside : History → Type 0
MarkInside h = (m : ℕ) → h.mark ≡ some m → m ≤ length h.committed

trim-IsBounded : (h : History) → IsCounted h → MarkInside h → IsBounded (trim h)
unfolding trim shift_mark
trim-IsBounded h c inside =
    let t = trim_loop-IsTrimmed h.committed h.bytes c in
    record {
      counted = ground (arith, t.counted);
      few_lines = ground (arith, t.few_lines, t.untouched);
      few_bytes = ground (arith, t.few_bytes, t.untouched);
      mark_inside = λ m e. elim (Option-cases h.mark) [
        | inl unmarked ↦ ground (arith, t.dropped)
        | inr (k, marked) ↦ ground (arith, t.dropped, inside k)
      ];
    }

find_shift-length :
    (prev stable overlap : List Text) (shift at : ℕ)
    → find_shift prev stable shift ≡ some (overlap, at)
    → length overlap ≤ length stable
unfolding find_shift
find_shift-length [] stable overlap shift at h = absurd (ground arith)
find_shift-length (l ∷ ls) stable overlap shift at h =
    elim (Bool-cases (ltb (length stable) (length (l ∷ ls)) || not (aligned (l ∷ ls) stable))) [
      | inl no_fit ↦ find_shift-length ls stable overlap (suc shift) at (ground arith)
      | inr fits ↦
          let same : overlap ≡ l ∷ ls = ground arith in let size = ap length same in ground arith
    ]

-- A history before its trim.
record IsUntrimmed (h : History) : Type 0 where
  counted : IsCounted h
  inside : MarkInside h

commit-IsUntrimmed : (ls : List Text) (h : History) → IsUntrimmed h → IsUntrimmed (commit ls h)
commit-IsUntrimmed ls h u = record {
  counted = commit-IsCounted ls h u.counted;
  inside = λ m e.
      unfold commit in omega (arith, u.inside m (unfold commit in e), length-append h.committed ls);
}

splice-IsUntrimmed :
    (overlap stable : List Text) (h : History)
    → length overlap ≤ length stable
    → IsUntrimmed h
    → IsUntrimmed (splice overlap stable h)
unfolding splice
splice-IsUntrimmed overlap stable h fits u =
    let keep = length h.committed - length overlap in
    let skip = length overlap - length h.committed in
    record {
      counted = commit-IsCounted _ (cut keep h) (cut-IsCounted keep h u.counted);
      inside = λ m e.
          unfold commit cut in
          omega (
            arith,
            u.inside m (unfold commit cut in e),
            length-append (take keep h.committed) (drop skip stable),
            length-take keep h.committed (omega arith),
            length-drop skip stable,
          );
    }

merge_screen-IsUntrimmed :
    (stable : List Text) (h : History) → IsUntrimmed h → IsUntrimmed (merge_screen stable h).0
unfolding merge_screen
merge_screen-IsUntrimmed stable h u = elim (Bool-cases (length h.prev == 0)) [
  | inl first ↦
      let same : commit stable h ≡ (merge_screen stable h).0 = ground arith in
      subst IsUntrimmed same (commit-IsUntrimmed stable h u)
  | inr later ↦ elim (Option-cases (find_shift h.prev stable 0)) [
    | inl lost ↦
        let marked = commit (history_gap_marker ∷ []) h in
        let same : commit stable marked ≡ (merge_screen stable h).0 = ground arith in
        subst IsUntrimmed same
          (commit-IsUntrimmed stable marked (commit-IsUntrimmed (history_gap_marker ∷ []) h u))
    | inr ((overlap, shift), found) ↦
        let same : splice overlap stable h ≡ (merge_screen stable h).0 = ground arith in
        subst IsUntrimmed same (
          splice-IsUntrimmed overlap stable h
            (find_shift-length h.prev stable overlap 0 shift found) u)
  ]
]

finish-IsBounded : (stable : List Text) (h : History) → IsUntrimmed h → IsBounded (finish stable h)
finish-IsBounded stable h u =
    trim-IsBounded (record h { prev = stable }) u.counted (λ m e. u.inside m e)

append_snapshot-IsBounded :
    (stable tail : List Text) (recent : Bool) (h : History)
    → IsBounded h
    → IsBounded (append_snapshot stable tail recent h).0
unfolding append_snapshot
append_snapshot-IsBounded stable tail recent h b =
    let h1 = record h { tail = tail } in
    let u : IsUntrimmed h1 = record { counted = b.counted; inside = λ m e. b.mark_inside m e } in
    elim (Bool-cases (length stable == 0)) [
      | inl blank ↦
          let same : h1 ≡ (append_snapshot stable tail recent h).0 = ground arith in
          let b1 : IsBounded h1 = record {
            counted = b.counted;
            few_lines = b.few_lines;
            few_bytes = b.few_bytes;
            mark_inside = λ m e. b.mark_inside m e;
          } in
          subst IsBounded same b1
      | inr some_lines ↦ elim (Option-cases (merge_recent recent stable h1)) [
        | inl visible ↦
            let same : finish stable (merge_screen stable h1).0
                ≡ (append_snapshot stable tail recent h).0 =
              ground arith in
            subst IsBounded same (finish-IsBounded stable _ (merge_screen-IsUntrimmed stable h1 u))
        | inr (end, found) ↦
            let same : finish stable (commit (drop end stable) h1)
                ≡ (append_snapshot stable tail recent h).0 =
              ground arith in
            subst IsBounded same
              (finish-IsBounded stable _ (commit-IsUntrimmed (drop end stable) h1 u))
      ]
    ]

-- The calls of the owner, in any order.
pub data Recorded : History → Type 0 where
  empty : Recorded new_history
  visible : {h : History} → Recorded h → (lines : List Text) → Recorded (append lines h).0
  recent :
      {h : History}
      → Recorded h
      → (lines : List Text) → Recorded (append_recent_after_visible lines h).0
  marked : {h : History} → Recorded h → Recorded (mark_here h)

Recorded-IsBounded : (h : History) → Recorded h → IsBounded h
unfolding new_history append append_recent_after_visible mark_here
Recorded-IsBounded _ empty = record {
  counted = refl;
  few_lines = omega arith;
  few_bytes = omega arith;
  mark_inside = λ m e. ground arith;
}
Recorded-IsBounded _ (visible {h = h} r lines) =
    append_snapshot-IsBounded (split_live lines).0 (split_live lines).1 false h
      (Recorded-IsBounded h r)
Recorded-IsBounded _ (recent {h = h} r lines) =
    append_snapshot-IsBounded (split_live lines).0 (split_live lines).1 true h
      (Recorded-IsBounded h r)
Recorded-IsBounded _ (marked {h = h} r) =
    let b = Recorded-IsBounded h r in
    record {
      counted = b.counted;
      few_lines = b.few_lines;
      few_bytes = b.few_bytes;
      mark_inside = λ m e. ground arith;
    }

-- Whatever snapshots are appended and wherever marks are set, a history holds at most 2000 lines
-- and 262144 bytes, its byte count is exact, and its mark is inside.
pub caps_hold :
    (h : History)
    → Recorded h
    → (h.bytes ≡ line_bytes h.committed)
      × (length h.committed ≤ history_max_lines)
      × (h.bytes ≤ history_max_bytes)
      × (mark_start h.mark ≤ length h.committed)
caps_hold h r =
    let b = Recorded-IsBounded h r in
    (
      b.counted,
      b.few_lines,
      b.few_bytes,
      elim (Option-cases h.mark) [
        | inl unmarked ↦ ground arith
        | inr (m, is_set) ↦ let inside = b.mark_inside m is_set in ground arith
      ],
    )
