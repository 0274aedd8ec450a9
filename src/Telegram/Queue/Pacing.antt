-- ===== src/Telegram/Queue/Pacing.antt =====
-- The pace that the queue keeps over any run: the gap between two attempts, and at most
-- `window_limit` attempts in a window.
use native.Mathlib.Nat.{mod-eq_of_lt, mod-eq-sub-mod}
use herdr_telegram_agents.Common.{
  ℕ, suc, ◌+◌, ◌-◌, ◌%◌, ◌≤◌, ◌<◌, ◌≡◌, refl, sym, ap, ◌∙◌, subst, List, [], ◌∷◌, ◌++◌, arith,
  nat_eq, dec_lt, if◌then◌else◌, length, length-append, take, drop, get_or, inl, inr, ◌⊎◌, ltb,
}
use herdr_telegram_agents.Common.Slices.{
  length-drop, get_or-append, get_or-take, get_or-drop, last_of, length-set, length-replicate,
  drop-nil, drop-append, drop-drop,
}
use herdr_telegram_agents.Telegram.Queue.{
  QueueConfig, Queue, stamp_at, stamp, pace, default_queue_config, with_defaults, new_queue,
}
use herdr_telegram_agents.Telegram.Queue.Ring.{
  IsRing, stamp-IsRing, contents, rotated, length-contents, contents-stamp,
}

wrap :
    (h i n : ℕ)
    → h < n
    → i < n
    → ((h + i < n) × ((h + i) % n ≡ h + i)) ⊎ ((n ≤ h + i) × ((h + i) % n ≡ h + i - n))
wrap h i n hh hi = elim (dec_lt (h + i) n) [
  | yes inside ↦ inl (inside, mod-eq_of_lt inside)
  | no over ↦ inr (omega arith, mod-eq-sub-mod (omega arith) ∙ mod-eq_of_lt (omega arith))
]

get_or-rotated :
    (h : ℕ) (xs : List ℕ) (i : ℕ)
    → h < length xs
    → i < length xs
    → get_or (rotated h xs) i 0 ≡ get_or xs ((h + i) % length xs) 0
get_or-rotated h xs i hh hi =
    let size = length-drop h xs in
    let split = get_or-append (drop h xs) (take h xs) i 0 in
    elim (wrap h i (length xs) hh hi) [
      | inl (inside, same) ↦ ground (arith, get_or-drop h xs i 0)
      | inr (over, back) ↦
          let place : i - length (drop h xs) ≡ h + i - length xs = omega arith in
          ground (arith, get_or-take h xs (h + i - length xs) 0)
    ]

get_or-contents :
    (q : Queue) (i : ℕ)
    → IsRing q
    → i < q.count
    → get_or (contents q) i 0 ≡ stamp_at q ((q.head + i) % length q.stamps)
get_or-contents q i r h =
    get_or-take q.count (rotated q.head q.stamps) i 0 h
    ∙ get_or-rotated q.head q.stamps i r.head_inside (omega arith)

newest :
    (q : Queue)
    → IsRing q
    → 0 < q.count
    → get_or (contents q) (q.count - 1) 0 ≡ stamp_at q ((q.head + q.count - 1) % length q.stamps)
newest q r h =
    let place : q.head + (q.count - 1) ≡ q.head + q.count - 1 = omega arith in
    get_or-contents q (q.count - 1) r (omega arith)
    ∙ ap (λ i. stamp_at q (i % length q.stamps)) place

oldest :
    (q : Queue) → IsRing q → q.count ≡ length q.stamps → get_or (contents q) 0 0 ≡ stamp_at q q.head
oldest q r h =
    let r1 = r.has_room in
    let place : q.head + 0 ≡ q.head = omega arith in
    get_or-contents q 0 r (omega arith)
    ∙ ap (λ i. stamp_at q (i % length q.stamps)) place
    ∙ ap (λ i. stamp_at q i) (mod-eq_of_lt r.head_inside)

-- The wait covers the gap behind the newest stamp, and the window behind the oldest of a full ring.
pace_covers_gap :
    (q : Queue) (now : ℕ)
    → 0 < q.count
    → q.cfg.min_gap + stamp_at q ((q.head + q.count - 1) % length q.stamps) ≤ now + pace q now
unfolding pace
pace_covers_gap q now h = ground arith

pace_covers_window :
    (q : Queue) (now : ℕ)
    → q.count ≡ length q.stamps
    → q.cfg.window + stamp_at q q.head ≤ now + pace q now
unfolding pace
pace_covers_window q now h = ground arith

-- A life of the queue: each attempt is paced when it is asked for, at `now`, and stamped at `t`,
-- when the sleep is over. `log` holds the attempts, oldest first.
pub data Run (cfg : QueueConfig) : Queue → List ℕ → Type 0 where
  start : Run cfg (new_queue cfg) []
  attempt :
      {q : Queue} {log : List ℕ}
      → Run cfg q log
      → (now t : ℕ) → now + pace q now ≤ t
      → Run cfg (stamp q t) (log ++ t ∷ [])

-- What ties the queue to the log.
record Follows (cfg : QueueConfig) (q : Queue) (log : List ℕ) : Type 0 where
  ring : IsRing q
  config : q.cfg ≡ with_defaults cfg
  size : length q.stamps ≡ (with_defaults cfg).window_limit
  tail : contents q ≡ last_of (length q.stamps) log

limit_positive : (cfg : QueueConfig) → 0 < (with_defaults cfg).window_limit
unfolding with_defaults default_queue_config
limit_positive cfg = ground arith

Follows-start : (cfg : QueueConfig) → Follows cfg (new_queue cfg) []
unfolding new_queue
Follows-start cfg =
    let pos = limit_positive cfg in
    let size = length-replicate {A = ℕ} (with_defaults cfg).window_limit 0 in
    record {
      ring = record {
        has_room = subst (λ n. 0 < n) (sym size) pos;
        head_inside = subst (λ n. 0 < n) (sym size) pos;
        count_fits = omega arith;
        fills_first = λ h. refl;
      };
      config = refl;
      size = size;
      tail = sym (drop-nil _);
    }

stamp-cfg :
    (q : Queue) (t : ℕ) → ((stamp q t).cfg ≡ q.cfg) × (length (stamp q t).stamps ≡ length q.stamps)
unfolding stamp
stamp-cfg q t = ground (
  arith,
  length-set q.stamps q.head t,
  length-set q.stamps ((q.head + q.count) % length q.stamps) t,
)

-- The last `n` of a list and one more.
last_of-last_of :
    (n : ℕ) (log : List ℕ) (t : ℕ) → last_of n (last_of n log ++ t ∷ []) ≡ last_of n (log ++ t ∷ [])
last_of-last_of n log t =
    let whole : length (log ++ t ∷ []) ≡ suc (length log) =
      omega (arith, length-append log (t ∷ [])) in
    let part : length (last_of n log ++ t ∷ []) ≡ suc (length log - (length log - n)) =
      omega (arith, length-append (last_of n log) (t ∷ []), length-drop (length log - n) log) in
    let ends : length log - n + (length (last_of n log ++ t ∷ []) - n)
        ≡ length (log ++ t ∷ []) - n =
      omega arith in
    ap (drop (length (last_of n log ++ t ∷ []) - n))
      (sym (drop-append (length log - n) log (t ∷ []) (omega arith)))
    ∙ drop-drop (length (last_of n log ++ t ∷ []) - n) (length log - n) (log ++ t ∷ [])
    ∙ ap (λ j. drop j (log ++ t ∷ [])) ends

Follows-attempt :
    (cfg : QueueConfig) (q : Queue) (log : List ℕ) (t : ℕ)
    → Follows cfg q log
    → Follows cfg (stamp q t) (log ++ t ∷ [])
Follows-attempt cfg q log t f =
    let kept = stamp-cfg q t in
    record {
      ring = stamp-IsRing q t f.ring;
      config = kept.0 ∙ f.config;
      size = kept.1 ∙ f.size;
      tail =
          contents-stamp q t f.ring
          ∙ ap (λ c. last_of (length q.stamps) (c ++ t ∷ [])) f.tail
          ∙ last_of-last_of (length q.stamps) log t
          ∙ ap (λ n. last_of n (log ++ t ∷ [])) (sym kept.1);
    }

Run-Follows : (cfg : QueueConfig) {q : Queue} {log : List ℕ} → Run cfg q log → Follows cfg q log
Run-Follows cfg start = Follows-start cfg
Run-Follows cfg (attempt {q} {log} r now t late) = Follows-attempt cfg q log t (Run-Follows cfg r)

-- In every life of the queue the ring holds exactly the last WindowLimit attempts, oldest first.
pub contents-Run :
    (cfg : QueueConfig) (q : Queue) (log : List ℕ)
    → Run cfg q log
    → contents q ≡ last_of (with_defaults cfg).window_limit log
contents-Run cfg q log r = let f = Run-Follows cfg r in f.tail ∙ ap (λ n. last_of n log) f.size

-- Two attempts in a row are `min_gap` apart, and an attempt comes a whole `window` after the one
-- `window_limit` before it.
pub record IsPaced (cfg : QueueConfig) (log : List ℕ) : Type 0 where
  pub gaps : (i : ℕ) → suc i < length log → cfg.min_gap + get_or log i 0 ≤ get_or log (suc i) 0
  pub windows :
      (i : ℕ)
      → i + cfg.window_limit < length log
      → cfg.window + get_or log i 0 ≤ get_or log (i + cfg.window_limit) 0

module _ (cfg : QueueConfig) (q : Queue) (log : List ℕ) (f : Follows cfg q log) where
  abbrev limit : ℕ
  limit = (with_defaults cfg).window_limit

  count-log : (q.count ≡ length log) ⊎ ((q.count ≡ limit) × (limit ≤ length log))
  count-log = omega (
    arith,
    length-contents q f.ring,
    ap length f.tail,
    length-drop (length log - length q.stamps) log,
    f.size,
    f.ring.count_fits,
  )

  last-log : (i : ℕ) → i < q.count → get_or (contents q) i 0 ≡ get_or log (length log - limit + i) 0
  last-log i h = rw f.tail (
      get_or-drop (length log - length q.stamps) log i 0
      ∙ ap (λ n. get_or log (length log - n + i) 0) f.size)

  module _ (now t : ℕ) (late : now + pace q now ≤ t) where
    newest_gap : 0 < length log → (with_defaults cfg).min_gap + get_or log (length log - 1) 0 ≤ t
    newest_gap h =
        let some_limit = limit_positive cfg in
        let counted : 0 < q.count = omega (arith, count-log) in
        let place : length log - limit + (q.count - 1) ≡ length log - 1 =
          omega (arith, count-log) in
        let stampd : get_or log (length log - 1) 0
            ≡ stamp_at q ((q.head + q.count - 1) % length q.stamps) =
          ap (λ i. get_or log i 0) (sym place)
          ∙ sym (last-log (q.count - 1) (omega arith))
          ∙ newest q f.ring counted in
        let same : q.cfg.min_gap ≡ (with_defaults cfg).min_gap = ap (λ c. c.min_gap) f.config in
        omega (arith, pace_covers_gap q now counted)

    oldest_window :
        limit ≤ length log → (with_defaults cfg).window + get_or log (length log - limit) 0 ≤ t
    oldest_window h =
        let some_limit = limit_positive cfg in
        let full : q.count ≡ length q.stamps = omega (arith, count-log, f.size) in
        let place : length log - limit + 0 ≡ length log - limit = omega arith in
        let stampd : get_or log (length log - limit) 0 ≡ stamp_at q q.head =
          ap (λ i. get_or log i 0) (sym place)
          ∙ sym (last-log 0 (omega (arith, f.size)))
          ∙ oldest q f.ring full in
        let same : q.cfg.window ≡ (with_defaults cfg).window = ap (λ c. c.window) f.config in
        omega (arith, pace_covers_window q now full)

    log_at :
        (i : ℕ)
        → get_or (log ++ t ∷ []) i 0
          ≡ (if ltb i (length log) then get_or log i 0 else get_or (t ∷ []) (i - length log) 0)
    log_at i = get_or-append log (t ∷ []) i 0

    IsPaced-attempt : IsPaced (with_defaults cfg) log → IsPaced (with_defaults cfg) (log ++ t ∷ [])
    IsPaced-attempt p = record {
      gaps = λ i h.
          let size = length-append log (t ∷ []) in
          let ih = p.gaps i in ground (arith, log_at i, log_at (suc i), newest_gap);
      windows = λ i h.
          let size = length-append log (t ∷ []) in
          let some_limit = limit_positive cfg in
          let ih = p.windows i in ground (arith, log_at i, log_at (i + limit), oldest_window);
    }

-- In every life of the queue in which each attempt is made no sooner than its pace asks,
-- neighbouring attempts are at least MinGap apart, and an attempt comes at least Window after the
-- one WindowLimit before it.
pub IsPaced-Run :
    (cfg : QueueConfig) (q : Queue) (log : List ℕ) → Run cfg q log → IsPaced (with_defaults cfg) log
IsPaced-Run cfg q log start = omega arith
IsPaced-Run cfg q log (attempt {q = q'} {log = log'} r now t late) =
    IsPaced-attempt cfg q' log' (Run-Follows cfg r) now t late (IsPaced-Run cfg q' log' r)
