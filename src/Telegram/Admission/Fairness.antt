-- ===== src/Telegram/Admission/Fairness.antt =====
-- Strangers cannot use up the budget of the grantees.
use herdr_telegram_agents.Common.{
  ◌≤◌, ◌<◌, ◌≡◌, ◌⊎◌, inl, inr, true, false, List, arith, nat_eq, leb, Bool-cases,
}
use herdr_telegram_agents.Common.Int.{ℤ, int_eq}
use herdr_telegram_agents.Domain.Mapping.{Time}
use herdr_telegram_agents.Telegram.Admission.{
  PrivateIngress, private_per_actor, private_trusted_total, open_window, counts_of, count_of,
  admit_in_window, admit_private_event,
}
use herdr_telegram_agents.Telegram.Admission.Windows.{
  Passed, passed_in, by_actor, by_grantee, open_window-IsOpen,
}
use herdr_telegram_agents.Telegram.Admission.Budget.{Reachable, Reachable-IsKept}

-- The window that counts a request of a grantee.
abbrev pub window_of : ℤ → Time → PrivateIngress → Time
window_of actor now p = (admit_private_event true actor now p).0.window

-- Whatever requests strangers and others made before, a request of a grantee is refused exactly if
-- in the window that counts it 8 requests of this actor or 32 requests of grantees were already
-- let through.
pub grantee_refused_exact :
    (p : PrivateIngress) (log : List Passed) (actor : ℤ) (now : Time)
    → Reachable p log
    → (((admit_private_event true actor now p).1 ≡ false)
        × ((private_per_actor ≤ passed_in (by_actor actor) (window_of actor now p) log)
            ⊎ (private_trusted_total ≤ passed_in by_grantee (window_of actor now p) log)))
      ⊎ (((admit_private_event true actor now p).1 ≡ true)
          × (passed_in (by_actor actor) (window_of actor now p) log < private_per_actor)
          × (passed_in by_grantee (window_of actor now p) log < private_trusted_total))
unfolding admit_private_event admit_in_window
grantee_refused_exact p log actor now r =
    let t = (open_window-IsOpen now p log (Reachable-IsKept p log r).tallied).tallied in
    let own = t.actors actor in
    let all = t.grantees in
    elim (Bool-cases
      (leb private_per_actor (count_of actor (counts_of (open_window now p).counts)))) [
        | inl spent ↦ inl (ground arith, inl (ground arith))
        | inr left ↦ elim (Bool-cases (leb private_trusted_total (open_window now p).total)) [
          | inl full ↦ inl (ground arith, inr (ground arith))
          | inr room ↦ inr (ground arith, ground arith, ground arith)
        ]
      ]
