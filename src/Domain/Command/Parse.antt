-- ===== src/Domain/Command/Parse.antt =====
-- internal/domain/command.go: what a message means.
use herdr_telegram_agents.Common.{
  Bool, false, not, ◌&&◌, Option, none, some, List, [], ◌∷◌, ◌++◌, nat_eq, ◌==◌, leb, if◌then◌else◌,
}
use herdr_telegram_agents.Common.Text.{Text, text_eq, codes, cut, strip_prefix?}
use herdr_telegram_agents.Common.Blanks.{trim_space, fields}
use herdr_telegram_agents.Common.Case.{CaseTable, to_lower, equal_fold}
use herdr_telegram_agents.Common.Int.{ℤ}
use herdr_telegram_agents.Domain.Status.{Status, status_eq, blocked}
use herdr_telegram_agents.Domain.Key.{is_empty}
use herdr_telegram_agents.Domain.Command.{
  Command, command_kind_eq, cmd_prompt, cmd_keys, cmd_focus, cmd_status, cmd_help, cmd_options,
  cmd_here, cmd_forward, cmd_stop, cmd_interrupt, cmd_close, cmd_git, cmd_unknown, cmd_share,
  cmd_shares, forward_rule_for, GitSpec, only, with_text, bare_command, key_escape,
}
use herdr_telegram_agents.Domain.Command.Args.{
  parse_git, parse_observers, parse_new, parse_away, parse_screen,
}

-- strings.TrimPrefix
abbrev pub trim_prefix : Text → Text → Text
trim_prefix p s = elim (strip_prefix? p s) [ none ↦ s | some rest ↦ rest ]

-- strings.HasPrefix(s, "/")
abbrev pub is_slash : Text → Bool
is_slash [] = false
is_slash (b ∷ s) = b == b'/'

unfoldable pub keys_command : List Text → Command
keys_command [] = with_text cmd_unknown (codes "/keys")
keys_command (k ∷ ks) = record (only cmd_keys) { key_names = k ∷ ks }

unfoldable pub git_command : Option GitSpec → Command
git_command none = only cmd_git
git_command (some g) = record (only cmd_git) { git = g }

-- A word that is none of the plugin's.
unfoldable pub forward_command : Text → Text → Command
forward_command word rest = elim (forward_rule_for word (not (is_empty rest))) [
  | none ↦ with_text cmd_unknown (b'/' ∷ word)
  | some rule ↦ record (only cmd_forward) {
    text = b'/' ∷ (if is_empty rest then word else word ++ (b' ' ∷ rest));
    forward = rule;
  }
]

-- The `switch` of `ParseCommand`.
unfoldable pub word_command : CaseTable → (Text → Option ℤ) → Text → List Text → Text → Command
word_command t parse_duration word args rest =
    if word == codes "share"
    then with_text cmd_share rest
    else if word == codes "shares"
    then with_text cmd_shares rest
    else if word == codes "screen"
    then parse_screen t args
    else if word == codes "keys"
    then keys_command args
    else if word == codes "focus"
    then only cmd_focus
    else if word == codes "status"
    then only cmd_status
    else if word == codes "help"
    then only cmd_help
    else if word == codes "options"
    then only cmd_options
    else if word == codes "away"
    then parse_away t parse_duration args
    else if word == codes "here"
    then bare_command cmd_here word args
    else if word == codes "stop"
    then bare_command cmd_stop word args
    else if word == codes "interrupt"
    then bare_command cmd_interrupt word args
    else if word == codes "close"
    then bare_command cmd_close word args
    else if word == codes "new"
    then parse_new t args
    else if word == codes "git"
    then git_command (parse_git t args)
    else if word == codes "observers"
    then parse_observers t args
    else forward_command word rest

-- The words of a message that starts with a slash. A word cut at `@` names a bot.
unfoldable pub slash_command : CaseTable → (Text → Option ℤ) → Text → Text → List Text → Command
slash_command t parse_duration bot trimmed [] = only cmd_unknown
slash_command t parse_duration bot trimmed (first ∷ args) =
    let word = trim_prefix (codes "/") first in
    let rest = trim_space (trim_prefix first trimmed) in
    elim (cut b'@' word) [
      | none ↦ word_command t parse_duration (to_lower t word) args rest
      | some (name, suffix) ↦
          if not (is_empty bot) && not (equal_fold t suffix bot)
          then with_text cmd_unknown (b'/' ∷ (name ++ (b'@' ∷ suffix)))
          else word_command t parse_duration (to_lower t name) args rest
    ]

-- ParseCommand; the fields of a text with a slash are never empty.
unfoldable pub parse_command : CaseTable → (Text → Option ℤ) → Text → Text → Command
unfolding slash_command word_command keys_command git_command forward_command
parse_command t parse_duration text bot =
    if not (is_slash (trim_space text))
    then with_text cmd_prompt text
    else slash_command t parse_duration bot (trim_space text) (fields (trim_space text))

abbrev short_replies : List (Text × Text)
short_replies =
    (codes "y", codes "y")
    ∷ (codes "yes", codes "y")
    ∷ (codes "n", codes "n")
    ∷ (codes "no", codes "n")
    ∷ (codes "enter", codes "enter")
    ∷ (codes "ok", codes "enter")
    ∷ (codes "esc", key_escape)
    ∷ (codes "escape", key_escape)
    ∷ []

find_reply : Text → List (Text × Text) → Option Text
find_reply word [] = none
find_reply word ((w, key) ∷ replies) = if w == word then some key else find_reply word replies

is_choice : Text → Bool
is_choice (c ∷ []) = leb b'1' c && leb c b'9'
is_choice _ = false

-- ShortReply
unfoldable pub short_reply : CaseTable → Text → Option Text
unfolding find_reply is_choice
short_reply t text =
    let word = to_lower t (trim_space text) in
    if is_choice word then some word else find_reply word short_replies

-- Route
unfoldable pub route : CaseTable → (Text → Option ℤ) → Text → Text → Status → Command
route t parse_duration text bot status =
    if is_slash (trim_space text)
    then parse_command t parse_duration text bot
    else if status == blocked
    then elim (short_reply t text) [
      | none ↦ with_text cmd_prompt text
      | some key ↦ record (only cmd_keys) { key_names = key ∷ [] }
    ]
    else with_text cmd_prompt text
