-- ===== src/Telegram/Admission/Windows.antt =====
-- What a window lets through, against its counters.
use herdr_telegram_agents.Common.{
  ℕ, suc, ◌+◌, ◌-◌, ◌≤◌, ◌<◌, ◌≡◌, refl, subst, ap, sym, ◌⊎◌, inl, inr, Bool, true, false, not,
  ◌&&◌, ◌||◌, some, List, [], ◌∷◌, arith, nat_eq, ◌==◌, leb, if◌then◌else◌, Bool-cases,
}
use herdr_telegram_agents.Common.Int.{ℤ, int_eq}
use herdr_telegram_agents.Common.GoMap.{lookup-insert}
use herdr_telegram_agents.Domain.Mapping.{Time}
use herdr_telegram_agents.Telegram.Admission.{
  PrivateIngress, private_window, private_per_actor, private_trusted_total, private_stranger_total,
  is_made, counts_of, count_of, open_window, admit_in_window,
}

-- A request that was let through: who made it, when, and the start of the window that counts it.
pub record Passed : Type 0 where
  pub actor : ℤ
  pub is_trusted : Bool
  pub at : Time
  pub window : Time

-- The record of the requests let through after an answer of `admit_private_event`.
abbrev pub logged : Bool → ℤ → Time → PrivateIngress × Bool → List Passed → List Passed
logged trusted actor now (p, false) log = log
logged trusted actor now (p, true) log =
    record { actor = actor; is_trusted = trusted; at = now; window = p.window } ∷ log

-- How many of the requests pass a test in the window that starts at a time.
unfoldable pub passed_in : (Passed → Bool) → Time → List Passed → ℕ
passed_in test w [] = 0
passed_in test w (e ∷ es) =
    let rest = passed_in test w es in if e.window == w && test e then suc rest else rest

abbrev pub by_actor : ℤ → Passed → Bool
by_actor a e = e.actor == a

abbrev pub by_grantee : Passed → Bool
by_grantee e = e.is_trusted

abbrev pub by_stranger : Passed → Bool
by_stranger e = not e.is_trusted

-- The windows of the requests are this one, or lie wholly before it.
abbrev pub AreBefore : Time → List Passed → Type 0
AreBefore w [] = Unit
AreBefore w (e ∷ es) = ((e.window ≡ w) ⊎ (e.window + private_window ≤ w)) × AreBefore w es

-- Each request comes before the end of its window, and two windows are the same or do not overlap.
abbrev pub AreSpaced : List Passed → Type 0
AreSpaced [] = Unit
AreSpaced (e ∷ es) = (e.at < e.window + private_window) × AreBefore e.window es × AreSpaced es

-- The counters are what the window of the limiter let through.
pub record IsTallied (p : PrivateIngress) (log : List Passed) : Type 0 where
  pub actors : (a : ℤ) → count_of a (counts_of p.counts) ≡ passed_in (by_actor a) p.window log
  pub grantees : p.total ≡ passed_in by_grantee p.window log
  pub strangers : p.strange ≡ passed_in by_stranger p.window log
  pub before : AreBefore p.window log
  pub unused : (is_made p.counts ≡ true) ⊎ (log ≡ [])

-- A window after all those of the requests has let none through.
passed_in-none :
    (test : Passed → Bool) (w v : Time) (log : List Passed)
    → AreBefore w log
    → w < v
    → passed_in test v log ≡ 0
unfolding passed_in
passed_in-none test w v [] b h = refl
passed_in-none test w v (e ∷ es) b h = let rest = passed_in-none test w v es b.1 h in ground arith

AreBefore-later :
    (w v : Time) (log : List Passed) → AreBefore w log → w + private_window ≤ v → AreBefore v log
AreBefore-later w v [] b h = tt
AreBefore-later w v (e ∷ es) b h =
    let first = b.0 in (inr (ground arith), AreBefore-later w v es b.1 h)

-- Nothing fell in a window that opens now.
none_yet :
    (test : Passed → Bool) (w now : Time) (log : List Passed)
    → AreBefore w log
    → (log ≡ []) ⊎ (w + private_window ≤ now)
    → (passed_in test now log ≡ 0) × AreBefore now log
unfolding passed_in
none_yet test w now log b (inl unused) =
    (ap (passed_in test now) unused, subst (AreBefore now) (sym unused) tt)
none_yet test w now log b (inr later) =
    (passed_in-none test w now log b (ground arith), AreBefore-later w now log b later)

abbrev fresh : Time → PrivateIngress → PrivateIngress
fresh now p = record p { window = now; counts = some []; busy = []; total = 0; strange = 0 }

fresh-IsTallied :
    (now : Time) (p : PrivateIngress) (log : List Passed)
    → IsTallied p log
    → (log ≡ []) ⊎ (p.window + private_window ≤ now)
    → IsTallied (fresh now p) log
fresh-IsTallied now p log t why = record {
  actors = λ a. let n = (none_yet (by_actor a) p.window now log t.before why).0 in ground arith;
  grantees = let n = (none_yet by_grantee p.window now log t.before why).0 in ground arith;
  strangers = let n = (none_yet by_stranger p.window now log t.before why).0 in ground arith;
  before = (none_yet by_grantee p.window now log t.before why).1;
  unused = inl refl;
}

-- The limiter in the window that counts a request at this time.
pub record IsOpen (now : Time) (p : PrivateIngress) (log : List Passed) : Type 0 where
  pub tallied : IsTallied p log
  pub inside : now < p.window + private_window
  pub made : is_made p.counts ≡ true

pub open_window-IsOpen :
    (now : Time) (p : PrivateIngress) (log : List Passed)
    → IsTallied p log
    → IsOpen now (open_window now p) log
open_window-IsOpen now p log t =
    elim (Bool-cases (not (is_made p.counts) || leb private_window (now - p.window))) [
      | inl over ↦
          let why : (log ≡ []) ⊎ (p.window + private_window ≤ now) =
            let u = t.unused in ground arith in
          let e : fresh now p ≡ open_window now p = ground arith in
          subst (λ q. IsOpen now q log) e
            (record {
              tallied = fresh-IsTallied now p log t why;
              inside = omega arith;
              made = refl;
            })
      | inr open_still ↦
          let e : p ≡ open_window now p = ground arith in
          subst (λ q. IsOpen now q log) e
            (record { tallied = t; inside = ground arith; made = ground arith })
    ]

-- The budgets of the windows, for all the requests that were let through.
pub record IsWithin (log : List Passed) : Type 0 where
  pub per_actor : (a : ℤ) (w : Time) → passed_in (by_actor a) w log ≤ private_per_actor
  pub grantees : (w : Time) → passed_in by_grantee w log ≤ private_trusted_total
  pub strangers : (w : Time) → passed_in by_stranger w log ≤ private_stranger_total
  pub spaced : AreSpaced log

-- What an answer in an open window leaves.
pub record IsAnswered (log : List Passed) (p : PrivateIngress) : Type 0 where
  pub tallied : IsTallied p log
  pub within : IsWithin log

pub admit_in_window-IsAnswered :
    (trusted : Bool) (actor : ℤ) (now : Time) (p : PrivateIngress) (log : List Passed)
    → IsOpen now p log
    → IsWithin log
    → IsAnswered
        (logged trusted actor now (admit_in_window trusted actor p) log)
        (admit_in_window trusted actor p).0
unfolding admit_in_window passed_in
admit_in_window-IsAnswered trusted actor now p log o w =
    let t = o.tallied in
    let own = t.actors actor in
    let inside = o.inside in
    let counts = counts_of p.counts in
    record {
      tallied = record {
        actors = λ a.
            let e = lookup-insert actor a (count_of actor counts + 1) counts in
            let n = t.actors a in ground arith;
        grantees = let n = t.grantees in ground arith;
        strangers = let n = t.strangers in ground arith;
        before = let b = t.before in ground arith;
        unused = let m = o.made in ground arith;
      };
      within = record {
        per_actor = λ a v. let n = t.actors a in let m = w.per_actor a v in ground arith;
        grantees = λ v. let n = t.grantees in let m = w.grantees v in ground arith;
        strangers = λ v. let n = t.strangers in let m = w.strangers v in ground arith;
        spaced = let b = t.before in let m = w.spaced in ground arith;
      };
    }
