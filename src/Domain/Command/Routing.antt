-- ===== src/Domain/Command/Routing.antt =====
-- What never happens to a message: a slash line is never a prompt, and no bound is passed.
use herdr_telegram_agents.Common.{
  ◌≡◌, ◌≢◌, ◌↔◌, ap, ◌⊎◌, inl, inr, true, false, not, Option, none, some, List, [], ◌∷◌, ◌++◌,
  arith, nat_eq, Bool-cases, Option-cases,
}
use herdr_telegram_agents.Common.Text.{Text, text_eq, codes, cut}
use herdr_telegram_agents.Common.Blanks.{trim_space, fields}
use herdr_telegram_agents.Common.Case.{CaseTable, to_lower}
use herdr_telegram_agents.Common.Decimal.{atoi}
use herdr_telegram_agents.Common.Int.{ℤ}
use herdr_telegram_agents.Domain.Status.{Status, status_eq, blocked}
use herdr_telegram_agents.Domain.Key.{is_empty}
use herdr_telegram_agents.Domain.Command.{
  Command, CommandKind, command_kind_eq, cmd_prompt, cmd_focus, cmd_status, cmd_help, cmd_options,
  cmd_here, cmd_stop, cmd_interrupt, cmd_close, cmd_unknown, cmd_share, cmd_shares,
  forward_rule_for, GitSpec, with_text, bare_command,
}
use herdr_telegram_agents.Domain.Command.Args.{
  parse_git, parse_observers, parse_new, parse_away, parse_screen, observers_command,
  observer_action,
}
use herdr_telegram_agents.Domain.Command.Parse.{
  is_slash, trim_prefix, keys_command, git_command, forward_command, word_command, slash_command,
  parse_command, short_reply, route,
}

-- What holds of every command that a slash line may come to holds of what it comes to.
module _ (P : Command → Type 0) (t : CaseTable) (parse_duration : Text → Option ℤ)
    (texts : (kind : CommandKind) (text : Text) → kind ≢ cmd_prompt → P (with_text kind text))
    (screens : (args : List Text) → P (parse_screen t args))
    (keys : (args : List Text) → P (keys_command args))
    (aways : (args : List Text) → P (parse_away t parse_duration args))
    (news : (args : List Text) → P (parse_new t args))
    (gits : (args : List Text) → P (git_command (parse_git t args)))
    (observes : (args : List Text) → P (parse_observers t args))
    (forwards : (word rest : Text) → P (forward_command word rest)) where
  bare_cases :
      (kind : CommandKind) (word : Text) (args : List Text)
      → kind ≢ cmd_prompt
      → P (bare_command kind word args)
  unfolding bare_command
  bare_cases kind word [] other = texts kind [] other
  bare_cases kind word (a ∷ args) other = texts cmd_unknown _ (ground arith)

  word_command_cases :
      (word : Text) (args : List Text) (rest : Text)
      → P (word_command t parse_duration word args rest)
  unfolding word_command
  word_command_cases word args rest =
      let share = texts cmd_share rest (ground arith) in
      let shares = texts cmd_shares rest (ground arith) in
      let screen = screens args in
      let key = keys args in
      let focus = texts cmd_focus [] (ground arith) in
      let status = texts cmd_status [] (ground arith) in
      let help = texts cmd_help [] (ground arith) in
      let options = texts cmd_options [] (ground arith) in
      let away = aways args in
      let here = bare_cases cmd_here word args (ground arith) in
      let stop = bare_cases cmd_stop word args (ground arith) in
      let interrupt = bare_cases cmd_interrupt word args (ground arith) in
      let close = bare_cases cmd_close word args (ground arith) in
      let new = news args in
      let git = gits args in
      let observe = observes args in let forward = forwards word rest in ground arith

  slash_command_cases :
      (bot trimmed : Text) (words : List Text)
      → P (slash_command t parse_duration bot trimmed words)
  unfolding slash_command
  slash_command_cases bot trimmed [] = texts cmd_unknown [] (ground arith)
  slash_command_cases bot trimmed (first ∷ args) =
      let word = trim_prefix (codes "/") first in
      let rest = trim_space (trim_prefix first trimmed) in
      elim (Option-cases (cut b'@' word)) [
        | inl plain ↦ let whole = word_command_cases (to_lower t word) args rest in ground arith
        | inr ((name, suffix), found) ↦
            let foreign = texts cmd_unknown (b'/' ∷ (name ++ (b'@' ∷ suffix))) (ground arith) in
            let own = word_command_cases (to_lower t name) args rest in ground arith
      ]

  pub parse_command_cases :
      (text bot : Text)
      → P (with_text cmd_prompt text) ⊎ (is_slash (trim_space text) ≡ true)
      → P (parse_command t parse_duration text bot)
  unfolding parse_command
  parse_command_cases text bot how =
      let slash = slash_command_cases bot (trim_space text) (fields (trim_space text)) in
      elim how [ inl prompt ↦ ground arith | inr h ↦ ground arith ]

record IsNoPrompt (c : Command) : Type 0 where
  no_prompt : c.kind ≢ cmd_prompt

parse_screen-IsNoPrompt : (t : CaseTable) (args : List Text) → IsNoPrompt (parse_screen t args)
unfolding parse_screen
parse_screen-IsNoPrompt t [] = record { no_prompt = ground arith }
parse_screen-IsNoPrompt t (a ∷ args) = elim (Option-cases (atoi a)) [
  | inl bad ↦ record { no_prompt = ground arith }
  | inr (v, good) ↦ record { no_prompt = ground arith }
]

parse_away-IsNoPrompt :
    (t : CaseTable) (parse_duration : Text → Option ℤ) (args : List Text)
    → IsNoPrompt (parse_away t parse_duration args)
unfolding parse_away
parse_away-IsNoPrompt t parse_duration [] = record { no_prompt = ground arith }
parse_away-IsNoPrompt t parse_duration (a ∷ []) =
    elim (Option-cases (parse_duration (to_lower t a))) [
      | inl bad ↦ record { no_prompt = ground arith }
      | inr (d, good) ↦ record { no_prompt = ground arith }
    ]
parse_away-IsNoPrompt t parse_duration (a ∷ b ∷ args) = record { no_prompt = ground arith }

parse_new-IsNoPrompt : (t : CaseTable) (args : List Text) → IsNoPrompt (parse_new t args)
unfolding parse_new
parse_new-IsNoPrompt t [] = record { no_prompt = ground arith }
parse_new-IsNoPrompt t (a ∷ args) = record { no_prompt = ground arith }

parse_observers-IsNoPrompt :
    (t : CaseTable) (args : List Text) → IsNoPrompt (parse_observers t args)
unfolding parse_observers observers_command
parse_observers-IsNoPrompt t [] = record { no_prompt = ground arith }
parse_observers-IsNoPrompt t (a ∷ []) = record { no_prompt = ground arith }
parse_observers-IsNoPrompt t (a ∷ b ∷ []) = elim (Option-cases (observer_action t a)) [
  | inl none_such ↦ record { no_prompt = ground arith }
  | inr (action, known) ↦ elim (Option-cases (atoi b)) [
    | inl bad ↦ record { no_prompt = ground arith }
    | inr (v, good) ↦ record { no_prompt = ground arith }
  ]
]
parse_observers-IsNoPrompt t (a ∷ b ∷ c ∷ args) = record { no_prompt = ground arith }

git_command-IsNoPrompt : (g : Option GitSpec) → IsNoPrompt (git_command g)
unfolding git_command
git_command-IsNoPrompt none = record { no_prompt = ground arith }
git_command-IsNoPrompt (some g) = record { no_prompt = ground arith }

keys_command-IsNoPrompt : (args : List Text) → IsNoPrompt (keys_command args)
unfolding keys_command
keys_command-IsNoPrompt [] = record { no_prompt = ground arith }
keys_command-IsNoPrompt (k ∷ ks) = record { no_prompt = ground arith }

forward_command-IsNoPrompt : (word rest : Text) → IsNoPrompt (forward_command word rest)
unfolding forward_command
forward_command-IsNoPrompt word rest =
    elim (Option-cases (forward_rule_for word (not (is_empty rest)))) [
      | inl none_such ↦ record { no_prompt = ground arith }
      | inr (rule, known) ↦ record { no_prompt = ground arith }
    ]

-- A message that starts with a slash, behind white space, is never a prompt.
pub slash_never_prompts :
    (t : CaseTable) (parse_duration : Text → Option ℤ) (text bot : Text)
    → is_slash (trim_space text) ≡ true
    → (parse_command t parse_duration text bot).kind ≢ cmd_prompt
slash_never_prompts t parse_duration text bot slash =
    (parse_command_cases IsNoPrompt t parse_duration
      (λ kind line other. record { no_prompt = other }) (parse_screen-IsNoPrompt t)
      keys_command-IsNoPrompt (parse_away-IsNoPrompt t parse_duration) (parse_new-IsNoPrompt t)
      (λ args. git_command-IsNoPrompt (parse_git t args)) (parse_observers-IsNoPrompt t)
      forward_command-IsNoPrompt text bot (inr slash)).no_prompt

-- Route passes a message to the agent as a prompt, exactly as typed, if and only if it does not
-- start with a slash behind white space and does not answer the dialog of a blocked agent; any
-- other message becomes no prompt at all.
pub route_prompts :
    (t : CaseTable) (parse_duration : Text → Option ℤ) (text bot : Text) (status : Status)
    → ((route t parse_duration text bot status ≡ with_text cmd_prompt text) ↔ (
        (is_slash (trim_space text) ≡ false) × ((status ≢ blocked) ⊎ (short_reply t text ≡ none))))
      × ((route t parse_duration text bot status ≡ with_text cmd_prompt text)
          ⊎ ((route t parse_duration text bot status).kind ≢ cmd_prompt))
unfolding route
route_prompts t parse_duration text bot status = elim (Bool-cases (is_slash (trim_space text))) [
  | inl slash ↦
      let other = slash_never_prompts t parse_duration text bot slash in
      (
        (
          λ same. absurd (
              other (
                ap (λ c. c.kind)
                  (let e : parse_command t parse_duration text bot ≡ with_text cmd_prompt text =
                      ground arith in
                    e))),
          λ h. absurd (ground arith),
        ),
        inr (ground arith),
      )
  | inr plain ↦ elim (status_eq.dec status blocked) [
    | no open_agent ↦ ((λ same. (plain, inl open_agent), λ h. ground arith), inl (ground arith))
    | yes stuck ↦ elim (Option-cases (short_reply t text)) [
      | inl no_reply ↦ ((λ same. (plain, inr no_reply), λ h. ground arith), inl (ground arith))
      | inr (key, reply) ↦ (
        (
          λ same. absurd (let e = ap (λ c. c.kind) same in ground arith),
          λ h. absurd (ground arith),
        ),
        inr (ground arith),
      )
    ]
  ]
]
