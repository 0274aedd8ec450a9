-- ===== src/Telegram/Queue/Ring.antt =====
-- The ring of stamps holds the last `window_limit` attempts, oldest first.
use native.Mathlib.Nat.{mod-eq_of_lt}
use mathlib.Core.List.{append-nil, append_assoc}
use herdr_telegram_agents.Common.{
  ℕ, suc, ◌+◌, ◌-◌, ◌%◌, ◌≤◌, ◌<◌, ◌≡◌, sym, ap, ap₂, ◌∙◌, List, [], ◌∷◌, ◌++◌, arith, nat_eq,
  length, length-append, take, drop, set, inl, inr, ◌⊎◌,
}
use herdr_telegram_agents.Common.Slices.{
  take_all, drop_all, drop-suc-set, take-suc-set, drop_cons, length-set, length-take, length-drop,
  last_of,
}
use herdr_telegram_agents.Telegram.Queue.{Queue, stamp}

pub record IsRing (q : Queue) : Type 0 where
  pub has_room : 0 < length q.stamps
  pub head_inside : q.head < length q.stamps
  pub count_fits : q.count ≤ length q.stamps
  pub fills_first : q.count < length q.stamps → q.head ≡ 0

abbrev pub rotated : ℕ → List ℕ → List ℕ
rotated h xs = drop h xs ++ take h xs

-- The stamps that count, oldest first.
abbrev pub contents : Queue → List ℕ
contents q = take q.count (rotated q.head q.stamps)

stamp_full :
    (q : Queue) (now : ℕ)
    → q.count ≡ length q.stamps
    → stamp q now
      ≡ record q { stamps = set q.stamps q.head now; head = (q.head + 1) % length q.stamps }
unfolding stamp
stamp_full q now h = ground arith

stamp_room :
    (q : Queue) (now : ℕ)
    → q.count < length q.stamps
    → q.head ≡ 0
    → stamp q now ≡ record q { stamps = set q.stamps q.count now; count = q.count + 1 }
unfolding stamp
stamp_room q now h e =
    let slot : (q.head + q.count) % length q.stamps ≡ q.count = grind (arith, mod-eq_of_lt) in
    ground arith

full_or_room : (q : Queue) → IsRing q → (q.count ≡ length q.stamps) ⊎ (q.count < length q.stamps)
full_or_room q r = ground arith

pub stamp-IsRing : (q : Queue) (now : ℕ) → IsRing q → IsRing (stamp q now)
stamp-IsRing q now r = elim (full_or_room q r) [
  | inl full ↦
      rw (stamp_full q now full) (let size = length-set q.stamps q.head now in ground arith)
  | inr room ↦
      rw (stamp_room q now room (r.fills_first room))
        (let size = length-set q.stamps q.count now in ground arith)
]

length-rotated : (h : ℕ) (xs : List ℕ) → h ≤ length xs → length (rotated h xs) ≡ length xs
length-rotated h xs le =
    omega (arith, length-append (drop h xs) (take h xs), length-drop h xs, length-take h xs)

inner_or_last :
    (h : ℕ) (xs : List ℕ)
    → h < length xs
    → (((h + 1) % length xs ≡ suc h) × (suc h < length xs))
      ⊎ (((h + 1) % length xs ≡ 0) × (suc h ≡ length xs))
inner_or_last h xs lt = grind (arith, mod-eq_of_lt)

-- A write over the oldest stamp, and a step of the head.
rotated-set :
    (h : ℕ) (xs : List ℕ) (now : ℕ)
    → h < length xs
    → rotated ((h + 1) % length xs) (set xs h now) ≡ drop (suc h) xs ++ (take h xs ++ now ∷ [])
rotated-set h xs now lt = elim (inner_or_last h xs lt) [
  | inl (next_head, _) ↦ rw next_head (ap₂ ◌++◌ (drop-suc-set h xs now) (take-suc-set h xs now lt))
  | inr (zero_head, last) ↦ rw zero_head (
      append-nil (set xs h now)
      ∙ sym (take_all (suc h) (set xs h now) (omega (arith, length-set xs h now)))
      ∙ take-suc-set h xs now lt
      ∙ rw (drop_all (suc h) xs (omega arith)))
]

contents_full :
    (q : Queue) → IsRing q → q.count ≡ length q.stamps → contents q ≡ rotated q.head q.stamps
contents_full q r full =
    take_all q.count (rotated q.head q.stamps)
      (omega (arith, length-rotated q.head q.stamps (omega arith)))

contents_room : (q : Queue) → q.head ≡ 0 → contents q ≡ take q.count q.stamps
contents_room q e = rw e (ap (take q.count) (append-nil q.stamps))

pub length-contents : (q : Queue) → IsRing q → length (contents q) ≡ q.count
length-contents q r =
    length-take q.count (rotated q.head q.stamps)
      (omega (arith, length-rotated q.head q.stamps (omega arith)))

-- The list that a stamp leaves, before the oldest entry goes.
abbrev pub appended : Queue → ℕ → List ℕ
appended q now = contents q ++ now ∷ []

length-appended : (q : Queue) (now : ℕ) → IsRing q → length (appended q now) ≡ suc q.count
length-appended q now r = omega (arith, length-append (contents q) (now ∷ []), length-contents q r)

last_of-full :
    (q : Queue) (now : ℕ)
    → IsRing q
    → q.count ≡ length q.stamps
    → last_of (length q.stamps) (appended q now)
      ≡ drop (suc q.head) q.stamps ++ (take q.head q.stamps ++ now ∷ [])
last_of-full q now r full =
    let over : length (appended q now) - length q.stamps ≡ 1 =
      omega (arith, length-appended q now r) in
    rw (over, contents_full q r full, drop_cons q.head q.stamps 0 r.head_inside)
      (append_assoc (drop (suc q.head) q.stamps) (take q.head q.stamps) (now ∷ []))

contents-stamp_full :
    (q : Queue) (now : ℕ)
    → IsRing q
    → q.count ≡ length q.stamps
    → contents (stamp q now) ≡ last_of (length q.stamps) (appended q now)
contents-stamp_full q now r full =
    let next = rotated ((q.head + 1) % length q.stamps) (set q.stamps q.head now) in
    let size : length next ≤ q.count = omega (
      arith,
      length-rotated ((q.head + 1) % length q.stamps) (set q.stamps q.head now)
          (grind (arith, length-set)),
      length-set q.stamps q.head now,
    ) in
    rw (stamp_full q now full) (
      take_all q.count next size
      ∙ rotated-set q.head q.stamps now r.head_inside
      ∙ sym (last_of-full q now r full))

contents-stamp_room :
    (q : Queue) (now : ℕ)
    → IsRing q
    → q.count < length q.stamps
    → contents (stamp q now) ≡ last_of (length q.stamps) (appended q now)
contents-stamp_room q now r room =
    let start = r.fills_first room in
    let one_more : q.count + 1 ≡ suc q.count = omega arith in
    let all : length (appended q now) - length q.stamps ≡ 0 =
      omega (arith, length-appended q now r) in
    rw (all, stamp_room q now room start, one_more, start)
      (ap (take (suc q.count)) (append-nil (set q.stamps q.count now))
        ∙ take-suc-set q.count q.stamps now room
        ∙ ap (λ t. take q.count t ++ now ∷ []) (sym (append-nil q.stamps)))

-- A stamp adds the newest attempt and, in a full ring, drops the oldest.
pub contents-stamp :
    (q : Queue) (now : ℕ)
    → IsRing q
    → contents (stamp q now) ≡ last_of (length q.stamps) (appended q now)
contents-stamp q now r = elim (full_or_room q r) [
  | inl full ↦ contents-stamp_full q now r full
  | inr room ↦ contents-stamp_room q now r room
]
