-- ===== src/App/Debouncer/Timers.antt =====
-- Timers are neither lost nor early.
use herdr_telegram_agents.Common.{
  ℕ, ◌+◌, ◌≤◌, ◌<◌, ◌≡◌, refl, false, ◌⊎◌, inl, inr, none, some, [], ◌∷◌, ◌++◌, arith, nat_eq, ◌==◌,
  Option-cases, Bool-cases,
}
use herdr_telegram_agents.Common.GoMap.{lookup, delete, lookup-insert, lookup-delete}
use herdr_telegram_agents.Domain.Key.{Key, key_eq}
use herdr_telegram_agents.Domain.Mapping.{Time}
use herdr_telegram_agents.App.Debouncer.{
  Debouncer, ScheduledEdit, Timer, new_debouncer, schedule_after, is_current, wake, quit, cancel,
  move_out, drain,
}

-- The owner's calls and the goroutines, in any order. A goroutine wakes when its time has come, and
-- quits only when its channel is closed: when its edit is no longer the pending one.
pub data Reachable : Debouncer → Type 0 where
  idle : Reachable new_debouncer
  scheduled :
      {d : Debouncer}
      → Reachable d
      → (key : Key) (delay : ℕ) (now : Time) → Reachable (schedule_after key delay now d)
  woken :
      {d : Debouncer}
      → Reachable d
      → (id : ℕ) (t : Timer) (now : Time) → lookup id d.running ≡ some t
      → t.fires_at ≤ now
      → Reachable (wake id t d)
  stopped :
      {d : Debouncer}
      → Reachable d
      → (id : ℕ) (t : Timer) → lookup id d.running ≡ some t
      → is_current id (lookup t.key d.pending) ≡ false
      → Reachable (quit id d)
  cancelled : {d : Debouncer} → Reachable d → (key : Key) → Reachable (cancel key d).0
  moved_out :
      {d : Debouncer}
      → Reachable d
      → (from_key to_key : Key) (now : Time) → Reachable (move_out from_key to_key now d).0
  drained : {d : Debouncer} → Reachable d → Reachable (drain d).0

-- Every pending edit has a goroutine of its own that will send the key, at the time of the edit.
pub record IsArmed (d : Debouncer) : Type 0 where
  pub armed :
      (k : Key) (e : ScheduledEdit)
      → lookup k d.pending ≡ some e
      → lookup e.cancel d.running ≡ some (record { key = k; fires_at = e.due_at })
  pub numbered : (id : ℕ) (t : Timer) → lookup id d.running ≡ some t → id < d.next_cancel

schedule_after-IsArmed :
    (key : Key) (delay : ℕ) (now : Time) (d : Debouncer)
    → IsArmed d
    → IsArmed (schedule_after key delay now d)
unfolding schedule_after
schedule_after-IsArmed key delay now d h = record {
  armed = λ k e found.
      let p =
        lookup-insert key k (record { cancel = d.next_cancel; due_at = now + delay }) d.pending in
      let r =
        lookup-insert d.next_cancel e.cancel (record { key = key; fires_at = now + delay })
          d.running in
      let old = h.armed k e in
      let new = h.numbered e.cancel (record { key = k; fires_at = e.due_at }) in ground arith;
  numbered = λ id t found.
      let r =
        lookup-insert d.next_cancel id (record { key = key; fires_at = now + delay }) d.running in
      let old = h.numbered id t in ground arith;
}

wake-IsArmed :
    (id : ℕ) (t : Timer) (d : Debouncer)
    → lookup id d.running ≡ some t
    → IsArmed d
    → IsArmed (wake id t d)
unfolding wake
wake-IsArmed id t d here h = elim (Bool-cases (is_current id (lookup t.key d.pending))) [
  | inl now ↦ record {
    armed = λ k e found.
        let p = lookup-delete t.key k d.pending in
        let r = lookup-delete id e.cancel d.running in let old = h.armed k e in ground arith;
    numbered = λ j u found.
        let r = lookup-delete id j d.running in let old = h.numbered j u in ground arith;
  }
  | inr late ↦ record {
    armed = λ k e found.
        let r = lookup-delete id e.cancel d.running in let old = h.armed k e in ground arith;
    numbered = λ j u found.
        let r = lookup-delete id j d.running in let old = h.numbered j u in ground arith;
  }
]

-- Fewer pending edits, the same goroutines.
fewer-IsArmed :
    (d d' : Debouncer)
    → d'.running ≡ d.running
    → d'.next_cancel ≡ d.next_cancel
    → ((k : Key) (e : ScheduledEdit) → lookup k d'.pending ≡ some e → lookup k d.pending ≡ some e)
    → IsArmed d
    → IsArmed d'
fewer-IsArmed d d' r n sub h = record {
  armed = λ k e found. let old = h.armed k e (sub k e found) in ground arith;
  numbered = λ j u found. let old = h.numbered j u in ground arith;
}

quit-IsArmed :
    (id : ℕ) (t : Timer) (d : Debouncer)
    → lookup id d.running ≡ some t
    → is_current id (lookup t.key d.pending) ≡ false
    → IsArmed d
    → IsArmed (quit id d)
unfolding quit
quit-IsArmed id t d here closed h = record {
  armed = λ k e found.
      let r = lookup-delete id e.cancel d.running in let old = h.armed k e found in ground arith;
  numbered =
      λ j u found. let r = lookup-delete id j d.running in let old = h.numbered j u in ground arith;
}

move_out-IsArmed :
    (from_key to_key : Key) (now : Time) (d : Debouncer)
    → IsArmed d
    → IsArmed (move_out from_key to_key now d).0
unfolding move_out
move_out-IsArmed from_key to_key now d h =
    fewer-IsArmed d _ (ground arith) (ground arith)
      (λ k e found.
        let a = lookup-delete from_key k d.pending in
        let b = lookup-delete to_key k (delete from_key d.pending) in ground arith)
      h

-- In every interleaving of the calls of the owner with the goroutines of the timers, each pending
-- edit has its own goroutine running, with the key and the time of the edit.
pub Reachable-IsArmed : (d : Debouncer) → Reachable d → IsArmed d
unfolding new_debouncer cancel drain
Reachable-IsArmed _ idle = record {
  armed = λ k e h. ground arith;
  numbered = λ j u h. ground arith;
}
Reachable-IsArmed _ (scheduled {d = d} r key delay now) =
    schedule_after-IsArmed key delay now d (Reachable-IsArmed d r)
Reachable-IsArmed _ (woken {d = d} r id t now here late) =
    wake-IsArmed id t d here (Reachable-IsArmed d r)
Reachable-IsArmed _ (stopped {d = d} r id t here closed) =
    quit-IsArmed id t d here closed (Reachable-IsArmed d r)
Reachable-IsArmed _ (cancelled {d = d} r key) =
    fewer-IsArmed d _ (ground arith) (ground arith)
      (λ k e found. let p = lookup-delete key k d.pending in ground arith) (Reachable-IsArmed d r)
Reachable-IsArmed _ (moved_out {d = d} r from_key to_key now) =
    move_out-IsArmed from_key to_key now d (Reachable-IsArmed d r)
Reachable-IsArmed _ (drained {d = d} r) =
    fewer-IsArmed d _ refl refl (λ k e found. ground arith) (Reachable-IsArmed d r)

-- In every reachable state, a goroutine whose timer fired sends nothing if its edit is not the
-- pending one of the key; otherwise it sends the key, whose pending edit is due, and leaves none
-- pending.
pub wake_in_time :
    (d : Debouncer) (id : ℕ) (t : Timer) (now : Time)
    → Reachable d
    → lookup id d.running ≡ some t
    → t.fires_at ≤ now
    → ((wake id t d).due ≡ d.due)
        × ((wake id t d).pending ≡ d.pending)
        × (is_current id (lookup t.key d.pending) ≡ false)
      ⊎ ((e : ScheduledEdit) × (lookup t.key d.pending ≡ some e)
          × (e.due_at ≤ now)
          × ((wake id t d).due ≡ d.due ++ t.key ∷ [])
          × (lookup t.key (wake id t d).pending ≡ none))
unfolding wake
wake_in_time d id t now r here late = elim (Option-cases (lookup t.key d.pending)) [
  | inl nothing ↦ inl (ground arith, ground arith, ground arith)
  | inr (e, found) ↦ elim (Bool-cases (e.cancel == id)) [
    | inl same ↦
        let own = (Reachable-IsArmed d r).armed t.key e found in
        let gone = lookup-delete t.key t.key d.pending in
        inr (e, found, ground arith, ground arith, ground arith)
    | inr other ↦ inl (ground arith, ground arith, ground arith)
  ]
]
