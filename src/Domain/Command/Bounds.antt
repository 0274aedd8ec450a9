-- ===== src/Domain/Command/Bounds.antt =====
-- Bounds of every command: the lines of a screen and what git is called with.
use herdr_telegram_agents.Common.{
  ◌≤◌, ◌≡◌, refl, subst, ◌⊎◌, inl, inr, not, Option, List, [], ◌∷◌, arith, Option-cases,
}
use herdr_telegram_agents.Common.Text.{Text, text_eq}
use herdr_telegram_agents.Common.Case.{CaseTable}
use herdr_telegram_agents.Common.Decimal.{atoi}
use herdr_telegram_agents.Common.Int.{ℤ}
use herdr_telegram_agents.Domain.Key.{is_empty}
use herdr_telegram_agents.Domain.Command.{Command, forward_rule_for, no_git}
use herdr_telegram_agents.Domain.Command.Args.{
  parse_git, parse_observers, parse_new, parse_away, parse_screen, parse_screen_lines,
  max_screen_lines, IsReadOnly, parse_git-IsReadOnly, observers_command, observer_action,
}
use herdr_telegram_agents.Domain.Command.Parse.{
  keys_command, git_command, forward_command, parse_command,
}
use herdr_telegram_agents.Domain.Command.Routing.{parse_command_cases}

record IsBounded (c : Command) : Type 0 where
  few_lines : c.lines ≤ max_screen_lines
  git_safe : IsReadOnly c.git ⊎ (c.git ≡ no_git)

-- A command that asks for no lines and no git.
plain-IsBounded : (c : Command) → c.lines ≡ 0 → c.git ≡ no_git → IsBounded c
plain-IsBounded c no_lines nothing = record { few_lines = omega arith; git_safe = inr nothing }

parse_screen-IsBounded : (t : CaseTable) (args : List Text) → IsBounded (parse_screen t args)
unfolding parse_screen
parse_screen-IsBounded t args = record {
  few_lines = parse_screen_lines t args;
  git_safe = inr (no_git_of args);
}
  where
    no_git_of : (args : List Text) → (parse_screen t args).git ≡ no_git
    no_git_of [] = refl
    no_git_of (a ∷ more) = ground arith

parse_away-IsBounded :
    (t : CaseTable) (parse_duration : Text → Option ℤ) (args : List Text)
    → IsBounded (parse_away t parse_duration args)
unfolding parse_away
parse_away-IsBounded t parse_duration [] = plain-IsBounded _ refl refl
parse_away-IsBounded t parse_duration (a ∷ []) =
    plain-IsBounded (parse_away t parse_duration (a ∷ [])) (ground arith) (ground arith)
parse_away-IsBounded t parse_duration (a ∷ b ∷ args) = plain-IsBounded _ refl refl

parse_new-IsBounded : (t : CaseTable) (args : List Text) → IsBounded (parse_new t args)
unfolding parse_new
parse_new-IsBounded t [] = plain-IsBounded _ refl refl
parse_new-IsBounded t (a ∷ args) =
    plain-IsBounded (parse_new t (a ∷ args)) (ground arith) (ground arith)

parse_observers-IsBounded : (t : CaseTable) (args : List Text) → IsBounded (parse_observers t args)
unfolding parse_observers observers_command
parse_observers-IsBounded t [] = plain-IsBounded _ refl refl
parse_observers-IsBounded t (a ∷ []) = plain-IsBounded _ refl refl
parse_observers-IsBounded t (a ∷ b ∷ []) =
    let o = Option-cases (observer_action t a) in
    let v = Option-cases (atoi b) in
    plain-IsBounded (parse_observers t (a ∷ b ∷ [])) (ground arith) (ground arith)
parse_observers-IsBounded t (a ∷ b ∷ c ∷ args) = plain-IsBounded _ refl refl

git_command-IsBounded :
    (t : CaseTable) (args : List Text) → IsBounded (git_command (parse_git t args))
unfolding git_command
git_command-IsBounded t args = elim (Option-cases (parse_git t args)) [
  | inl refused ↦ plain-IsBounded (git_command (parse_git t args)) (ground arith) (ground arith)
  | inr (g, allowed) ↦
      let same : g ≡ (git_command (parse_git t args)).git = ground arith in
      record {
        few_lines = ground arith;
        git_safe = inl (subst IsReadOnly same (parse_git-IsReadOnly t args g allowed));
      }
]

keys_command-IsBounded : (args : List Text) → IsBounded (keys_command args)
unfolding keys_command
keys_command-IsBounded [] = plain-IsBounded _ refl refl
keys_command-IsBounded (k ∷ ks) = plain-IsBounded _ refl refl

forward_command-IsBounded : (word rest : Text) → IsBounded (forward_command word rest)
unfolding forward_command
forward_command-IsBounded word rest =
    let rule = Option-cases (forward_rule_for word (not (is_empty rest))) in
    plain-IsBounded (forward_command word rest) (ground arith) (ground arith)

-- Whatever the message, ParseCommand asks for at most 200 screen lines, and its git arguments are
-- none or one of four lists that only read, in which nothing but the number of log entries, from 1
-- to 50, varies.
pub parse_command_bounds :
    (t : CaseTable) (parse_duration : Text → Option ℤ) (text bot : Text)
    → ((parse_command t parse_duration text bot).lines ≤ max_screen_lines)
      × (IsReadOnly (parse_command t parse_duration text bot).git
          ⊎ ((parse_command t parse_duration text bot).git ≡ no_git))
parse_command_bounds t parse_duration text bot =
    let b =
      parse_command_cases IsBounded t parse_duration
        (λ kind line other. plain-IsBounded _ refl refl) (parse_screen-IsBounded t)
        keys_command-IsBounded (parse_away-IsBounded t parse_duration) (parse_new-IsBounded t)
        (git_command-IsBounded t) (parse_observers-IsBounded t) forward_command-IsBounded text bot
        (inl (plain-IsBounded _ refl refl)) in
    (b.few_lines, b.git_safe)
