-- ===== src/Telegram/Admission/Budget.antt =====
-- What the limiter lets through, and what is remembered of the updates.
use herdr_telegram_agents.Common.{
  ◌+◌, ◌≤◌, ◌≡◌, refl, subst, sym, ◌⊎◌, inl, inr, Bool, true, false, not, ◌&&◌, List, [], ◌∷◌, ◌++◌,
  arith, nat_eq, ◌==◌, length, length-append, elem, elem-append,
}
use herdr_telegram_agents.Common.Int.{ℤ, int_eq}
use herdr_telegram_agents.Domain.Mapping.{Time}
use herdr_telegram_agents.Telegram.Admission.{
  PrivateIngress, new_ingress, max_seen, open_window, admit_in_window, admit_private_event,
  capacity_notice_allowed, private_busy, note_first, note_seen, without, add, drop_oldest,
}
use herdr_telegram_agents.Telegram.Admission.Windows.{
  Passed, logged, AreBefore, IsTallied, IsWithin, open_window-IsOpen, admit_in_window-IsAnswered,
  passed_in,
}

-- The calls of the limiter, in any order, and the requests that they let through.
pub data Reachable : PrivateIngress → List Passed → Type 0 where
  started : Reachable new_ingress []
  admitting :
      {p : PrivateIngress} {log : List Passed}
      → Reachable p log
      → (trusted : Bool) (actor : ℤ) (now : Time)
      → Reachable
          (admit_private_event trusted actor now p).0
          (logged trusted actor now (admit_private_event trusted actor now p) log)
  notifying :
      {p : PrivateIngress} {log : List Passed}
      → Reachable p log
      → (actor : ℤ) (now : Time) → Reachable (capacity_notice_allowed actor now p).0 log
  refusing :
      {p : PrivateIngress} {log : List Passed}
      → Reachable p log
      → (actor : ℤ) → Reachable (private_busy actor p).0 log
  meeting :
      {p : PrivateIngress} {log : List Passed}
      → Reachable p log
      → (id : ℤ) → Reachable (note_first id p) log
  seeing :
      {p : PrivateIngress} {log : List Passed}
      → Reachable p log
      → (id : ℤ) → Reachable (note_seen id p).0 log

-- What was seen is in the order, which is bounded.
pub record IsRemembered (p : PrivateIngress) : Type 0 where
  pub listed : (id : ℤ) → (elem id p.seen ≡ false) ⊎ (elem id p.order ≡ true)
  pub few : length p.order ≤ max_seen

elem-without : (a b : ℤ) (xs : List ℤ) → elem b (without a xs) ≡ (not (a == b) && elem b xs)
unfolding without
elem-without a b [] = ground arith
elem-without a b (x ∷ xs) = ground (arith, elem-without a b xs)

-- The oldest one is forgotten by both.
drop_oldest-lem :
    (seen order : List ℤ)
    → ((id : ℤ) → (elem id seen ≡ false) ⊎ (elem id order ≡ true))
    → length order ≤ max_seen + 1
    → ((id : ℤ)
        → (elem id (drop_oldest seen order).0 ≡ false)
          ⊎ (elem id (drop_oldest seen order).1 ≡ true))
      × (length (drop_oldest seen order).1 ≤ max_seen)
unfolding drop_oldest
drop_oldest-lem seen [] listed few = (listed, omega arith)
drop_oldest-lem seen (o ∷ order) listed few =
    (λ id. let e = elem-without o id seen in let l = listed id in ground arith, ground arith)

note_seen-IsRemembered :
    (id : ℤ) (p : PrivateIngress) → IsRemembered p → IsRemembered (note_seen id p).0
unfolding note_seen add
note_seen-IsRemembered id p r =
    let size = length-append p.order (id ∷ []) in
    let few = r.few in
    let added : (a : ℤ) → (elem a (add id p.seen) ≡ false) ⊎ (elem a (p.order ++ id ∷ []) ≡ true) =
      λ a. let e = elem-append a p.order (id ∷ []) in let l = r.listed a in ground arith in
    let d = drop_oldest-lem (add id p.seen) (p.order ++ id ∷ []) added (omega arith) in
    record { listed = d.0; few = d.1 }

-- The parts of the limiter that the other calls leave.
record Leaves (p q : PrivateIngress) : Type 0 where
  window : q.window ≡ p.window
  counts : q.counts ≡ p.counts
  total : q.total ≡ p.total
  strange : q.strange ≡ p.strange

Leaves-IsTallied :
    (p q : PrivateIngress) (log : List Passed) → Leaves p q → IsTallied p log → IsTallied q log
Leaves-IsTallied p q log l t =
    let w = l.window in
    let c = l.counts in
    record {
      actors = λ a. let n = t.actors a in ground arith;
      grantees = let n = t.grantees in let k = l.total in ground arith;
      strangers = let n = t.strangers in let k = l.strange in ground arith;
      before = subst (λ v. AreBefore v log) (sym w) t.before;
      unused = let u = t.unused in ground arith;
    }

-- What holds of the limiter and of the requests that it let through.
pub record IsKept (p : PrivateIngress) (log : List Passed) : Type 0 where
  pub tallied : IsTallied p log
  pub within : IsWithin log
  pub remembered : IsRemembered p

pub Reachable-IsKept : (p : PrivateIngress) (log : List Passed) → Reachable p log → IsKept p log
unfolding admit_private_event capacity_notice_allowed private_busy note_first note_seen
    admit_in_window passed_in
Reachable-IsKept _ _ started = record {
  tallied = record {
    actors = λ a. omega arith;
    grantees = refl;
    strangers = refl;
    before = tt;
    unused = inr refl;
  };
  within = record {
    per_actor = λ a w. omega arith;
    grantees = λ w. omega arith;
    strangers = λ w. omega arith;
    spaced = tt;
  };
  remembered = record { listed = λ id. inl refl; few = omega arith };
}
Reachable-IsKept _ _ (admitting {p = p} {log = log} r trusted actor now) =
    let k = Reachable-IsKept p log r in
    let m = k.remembered in
    let few = m.few in
    let a =
      admit_in_window-IsAnswered trusted actor now (open_window now p) log
        (open_window-IsOpen now p log k.tallied) k.within in
    record {
      tallied = a.tallied;
      within = a.within;
      remembered = record {
        listed = λ id. let l = m.listed id in ground arith;
        few = ground arith;
      };
    }
Reachable-IsKept _ _ (notifying {p = p} {log = log} r actor now) =
    let k = Reachable-IsKept p log r in
    let m = k.remembered in
    let few = m.few in
    let q = (capacity_notice_allowed actor now p).0 in
    let l : Leaves p q = ground arith in
    record {
      tallied = Leaves-IsTallied p q log l k.tallied;
      within = k.within;
      remembered = record {
        listed = λ id. let l = m.listed id in ground arith;
        few = ground arith;
      };
    }
Reachable-IsKept _ _ (refusing {p = p} {log = log} r actor) =
    let k = Reachable-IsKept p log r in
    let m = k.remembered in
    let few = m.few in
    let q = (private_busy actor p).0 in
    let l : Leaves p q = ground arith in
    record {
      tallied = Leaves-IsTallied p q log l k.tallied;
      within = k.within;
      remembered = record {
        listed = λ id. let l = m.listed id in ground arith;
        few = ground arith;
      };
    }
Reachable-IsKept _ _ (meeting {p = p} {log = log} r id) =
    let k = Reachable-IsKept p log r in
    let q = note_first id p in
    record {
      tallied = Leaves-IsTallied p q log (ground arith) k.tallied;
      within = k.within;
      remembered = record { listed = k.remembered.listed; few = k.remembered.few };
    }
Reachable-IsKept _ _ (seeing {p = p} {log = log} r id) =
    let k = Reachable-IsKept p log r in
    let q = (note_seen id p).0 in
    record {
      tallied = Leaves-IsTallied p q log (ground arith) k.tallied;
      within = k.within;
      remembered = note_seen-IsRemembered id p k.remembered;
    }

-- Whatever the calls, each request let through comes before the end of the window that counts it,
-- 10 seconds after its start, two such windows are the same or do not overlap, and of the requests
-- let through in a window at most 8 are of one actor, 32 of grantees and 8 of strangers. Every
-- update taken as seen is in the order of the noted ones, which holds at most 4096.
pub budgets_hold :
    (p : PrivateIngress) (log : List Passed) → Reachable p log → IsWithin log × IsRemembered p
budgets_hold p log r = let k = Reachable-IsKept p log r in (k.within, k.remembered)
