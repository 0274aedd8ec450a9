-- ===== src/Tests/Commands.antt =====
-- Messages of the operator, and what a private chat may ask for.
use herdr_telegram_agents.Common.{
  ◌≤◌, ◌<◌, ◌⊎◌, ◌≡◌, ◌≢◌, ◌↔◌, true, false, elem, nat_eq, Option, none, List, [], ◌∷◌, ℕ_discrete,
}
use herdr_telegram_agents.Common.Text.{Text, codes}
use herdr_telegram_agents.Common.Int.{ℤ, pos, ℤ-discrete}
use herdr_telegram_agents.Common.Blanks.{trim_space}
use herdr_telegram_agents.Common.Case.{CaseTable}
use herdr_telegram_agents.Domain.Status.{blocked}
use herdr_telegram_agents.Domain.Command.{no_git, with_text, cmd_prompt}
use herdr_telegram_agents.Domain.Command.Args.{IsReadOnly, max_screen_lines}
use herdr_telegram_agents.Domain.Command.Parse.{parse_command, is_slash, short_reply, route}
use herdr_telegram_agents.Domain.Command.Texts.{dialog_text}
use herdr_telegram_agents.Domain.Command.Routing.{route_prompts}
use herdr_telegram_agents.Domain.Command.Bounds.{parse_command_bounds}
use herdr_telegram_agents.Domain.Command.Lines.{dialog_text_one_line}
use herdr_telegram_agents.Telegram.Admission.{
  PrivateIngress, new_ingress, private_per_actor, private_trusted_total, admit_private_event,
  admit_in_window,
}
use herdr_telegram_agents.Telegram.Admission.Windows.{
  Passed, passed_in, by_actor, by_grantee, IsWithin,
}
use herdr_telegram_agents.Telegram.Admission.Budget.{
  Reachable, IsRemembered, budgets_hold, admitting, started,
}
use herdr_telegram_agents.Telegram.Admission.Fairness.{window_of, grantee_refused_exact}

-- No letter outside ASCII has a case.
abbrev no_case : CaseTable
no_case = record { lower = λ r. r; fold = λ r. r }

abbrev no_durations : Text → Option ℤ
no_durations s = none

parse_command_bounds_example :
    ((parse_command no_case no_durations (codes "/git log 900") []).lines ≤ max_screen_lines)
    × (IsReadOnly (parse_command no_case no_durations (codes "/git log 900") []).git
        ⊎ ((parse_command no_case no_durations (codes "/git log 900") []).git ≡ no_git))
parse_command_bounds_example = parse_command_bounds no_case no_durations (codes "/git log 900") []

route_prompts_example :
    ((route no_case no_durations (codes "yes") [] blocked ≡ with_text cmd_prompt (codes "yes")) ↔ (
      (is_slash (trim_space (codes "yes")) ≡ false)
      × ((blocked ≢ blocked) ⊎ (short_reply no_case (codes "yes") ≡ none))))
    × ((route no_case no_durations (codes "yes") [] blocked ≡ with_text cmd_prompt (codes "yes"))
        ⊎ ((route no_case no_durations (codes "yes") [] blocked).kind ≢ cmd_prompt))
route_prompts_example = route_prompts no_case no_durations (codes "yes") [] blocked

-- Two lines with a carriage return between them.
abbrev two_lines : Text
two_lines = b'a' ∷ 13 ∷ 10 ∷ b'b' ∷ []

dialog_text_one_line_example :
    (elem 10 (dialog_text two_lines).0 ≡ false) × (elem 13 (dialog_text two_lines).0 ≡ false)
dialog_text_one_line_example = dialog_text_one_line two_lines

-- A stranger asks, and then a grantee.
abbrev asked : PrivateIngress
asked = (admit_private_event false (pos 7) 1 new_ingress).0

abbrev asked_twice : PrivateIngress
asked_twice = (admit_private_event true (pos 5) 2 asked).0

abbrev asks : List Passed
asks =
    record { actor = pos 5; is_trusted = true; at = 2; window = 1 }
    ∷ record { actor = pos 7; is_trusted = false; at = 1; window = 1 }
    ∷ []

asked-Reachable : Reachable asked_twice asks
unfolding admit_private_event admit_in_window ℤ-discrete ℕ_discrete
asked-Reachable = admitting (admitting started false (pos 7) 1) true (pos 5) 2

budgets_hold_example : IsWithin asks × IsRemembered asked_twice
budgets_hold_example = budgets_hold asked_twice asks asked-Reachable

grantee_refused_exact_example :
    (((admit_private_event true (pos 5) 3 asked_twice).1 ≡ false)
      × ((private_per_actor ≤ passed_in (by_actor (pos 5)) (window_of (pos 5) 3 asked_twice) asks)
          ⊎ (private_trusted_total ≤ passed_in by_grantee (window_of (pos 5) 3 asked_twice) asks)))
    ⊎ (((admit_private_event true (pos 5) 3 asked_twice).1 ≡ true)
        × (passed_in (by_actor (pos 5)) (window_of (pos 5) 3 asked_twice) asks < private_per_actor)
        × (passed_in by_grantee (window_of (pos 5) 3 asked_twice) asks < private_trusted_total))
grantee_refused_exact_example = grantee_refused_exact asked_twice asks (pos 5) 3 asked-Reachable
