-- ===== src/Domain/History/Scrolls.antt =====
-- A screen that scrolled by whole lines adds exactly those lines.
use herdr_telegram_agents.Common.{
  ℕ, suc, ◌+◌, ◌-◌, ◌≤◌, ◌<◌, ◌≡◌, refl, sym, ap, ap₂, ◌∙◌, false, not, ◌||◌, inl, inr, some, List,
  [], ◌∷◌, ◌++◌, arith, nat_eq, ltb, length, take, drop, length-append, Bool-cases,
}
use herdr_telegram_agents.Common.Text.{Text}
use herdr_telegram_agents.Domain.History.{
  History, history_max_lines, history_max_bytes, line_bytes, commit, cut, trim_loop, trim, splice,
  find_shift, aligned, merge_screen, merge_recent, append_snapshot, finish,
}
use herdr_telegram_agents.Domain.History.Caps.{line_bytes-append}

take-length-append : (xs ys : List Text) → take (length xs) (xs ++ ys) ≡ xs
take-length-append [] ys = refl
take-length-append (x ∷ xs) ys = ap (λ t. x ∷ t) (take-length-append xs ys)

drop-length-append : (xs ys : List Text) → drop (length xs) (xs ++ ys) ≡ ys
drop-length-append [] ys = refl
drop-length-append (x ∷ xs) ys = drop-length-append xs ys

append_assoc_lem : (xs ys zs : List Text) → (xs ++ ys) ++ zs ≡ xs ++ (ys ++ zs)
append_assoc_lem [] ys zs = refl
append_assoc_lem (x ∷ xs) ys zs = ap (λ t. x ∷ t) (append_assoc_lem xs ys zs)

-- What fits the caps is not trimmed.
trim_loop_fits :
    (ls : List Text) (bytes : ℕ)
    → length ls ≤ history_max_lines
    → bytes ≤ history_max_bytes
    → (trim_loop ls bytes).2 ≡ 0
unfolding trim_loop
trim_loop_fits [] bytes few small = refl
trim_loop_fits (l ∷ ls) bytes few small = ground arith

trim_fits :
    (h : History)
    → length h.committed ≤ history_max_lines
    → h.bytes ≤ history_max_bytes
    → trim h ≡ h
unfolding trim
trim_fits h few small = let e = trim_loop_fits h.committed h.bytes few small in ground arith

splice_scrolled :
    (older overlap fresh : List Text) (h : History)
    → h.committed ≡ older ++ overlap
    → h.bytes ≡ line_bytes h.committed
    → ((splice overlap (overlap ++ fresh) h).committed ≡ h.committed ++ fresh)
      × ((splice overlap (overlap ++ fresh) h).bytes ≡ h.bytes + line_bytes fresh)
unfolding splice commit cut
splice_scrolled older overlap fresh h ends counted =
    let size = ap length ends ∙ length-append older overlap in
    let keep : length h.committed - length overlap ≡ length older = omega arith in
    let skip : length overlap - length h.committed ≡ 0 = omega arith in
    let front : take (length h.committed - length overlap) h.committed ≡ older =
      ap (λ n. take n h.committed) keep
      ∙ ap (take (length older)) ends
      ∙ take-length-append older overlap in
    let back : drop (length h.committed - length overlap) h.committed ≡ overlap =
      ap (λ n. drop n h.committed) keep
      ∙ ap (drop (length older)) ends
      ∙ drop-length-append older overlap in
    let rest : drop (length overlap - length h.committed) (overlap ++ fresh) ≡ overlap ++ fresh =
      ap (λ n. drop n (overlap ++ fresh)) skip in
    (
      ap₂ (λ a b. a ++ b) front rest
          ∙ sym (append_assoc_lem older overlap fresh)
          ∙ ap (λ t. t ++ fresh) (sym ends),
      omega (
        arith,
        ap line_bytes back,
        ap line_bytes rest,
        ap line_bytes ends,
        line_bytes-append older overlap,
        line_bytes-append overlap fresh,
      ),
    )

-- An overlap that is found has lines.
find_shift_nonempty :
    (prev stable overlap : List Text) (shift at : ℕ)
    → find_shift prev stable shift ≡ some (overlap, at)
    → (0 < length overlap) × (0 < length prev)
unfolding find_shift
find_shift_nonempty [] stable overlap shift at h = absurd (ground arith)
find_shift_nonempty (l ∷ ls) stable overlap shift at h =
    elim (Bool-cases (ltb (length stable) (length (l ∷ ls)) || not (aligned (l ∷ ls) stable))) [
      | inl no_fit ↦
          ((find_shift_nonempty ls stable overlap (suc shift) at (ground arith)).0, omega arith)
      | inr fits ↦
          let same : overlap ≡ l ∷ ls = ground arith in
          let size = ap length same in (omega arith, omega arith)
    ]

-- A merge that splices, when the result fits the caps.
append_snapshot-splice :
    (h : History) (overlap stable tail : List Text) (shift : ℕ)
    → find_shift h.prev stable 0 ≡ some (overlap, shift)
    → 0 < length stable
    → 0 < length h.prev
    → append_snapshot stable tail false h ≡ (
      finish stable (splice overlap stable (record h { tail = tail })),
      record { added = length stable - length overlap; shift = shift; gap = false },
    )
unfolding append_snapshot merge_recent merge_screen
append_snapshot-splice h overlap stable tail shift found some_lines later = ground arith

-- If the end of what is committed is found again at the start of a snapshot, and the result fits
-- both caps, appendSnapshot commits exactly the lines behind it, reports their number and no gap.
pub append_scrolled :
    (h : History) (older overlap fresh tail : List Text) (shift : ℕ)
    → h.committed ≡ older ++ overlap
    → h.bytes ≡ line_bytes h.committed
    → find_shift h.prev (overlap ++ fresh) 0 ≡ some (overlap, shift)
    → length h.committed + length fresh ≤ history_max_lines
    → h.bytes + line_bytes fresh ≤ history_max_bytes
    → ((append_snapshot (overlap ++ fresh) tail false h).0.committed ≡ h.committed ++ fresh)
      × ((append_snapshot (overlap ++ fresh) tail false h).1.added ≡ length fresh)
      × ((append_snapshot (overlap ++ fresh) tail false h).1.gap ≡ false)
append_scrolled h older overlap fresh tail shift ends counted found few small =
    let stable = overlap ++ fresh in
    let spliced = splice overlap stable (record h { tail = tail }) in
    let s = splice_scrolled older overlap fresh (record h { tail = tail }) ends counted in
    let some_lines = find_shift_nonempty h.prev stable overlap 0 shift found in
    let size = length-append overlap fresh in
    let grown = ap length s.0 ∙ length-append h.committed fresh in
    let t = trim_fits (record spliced { prev = stable }) (omega arith) (omega arith) in
    let e = append_snapshot-splice h overlap stable tail shift found (omega arith) some_lines.1 in
    (
      ap (λ r. r.0.committed) e ∙ ap (λ r. r.committed) t ∙ s.0,
      ap (λ r. r.1.added) e ∙ omega arith,
      ap (λ r. r.1.gap) e,
    )
