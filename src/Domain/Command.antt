-- ===== src/Domain/Command.antt =====
-- internal/domain/command.go: the instructions of the operator.
pub mod Args
pub mod Parse
pub mod Texts
pub mod Workspaces
pub mod Routing
pub mod Bounds
pub mod Lines
use herdr_telegram_agents.Common.{
  ℕ, Bool, true, false, ◌&&◌, ◌||◌, Option, none, some, List, [], ◌∷◌, ◌++◌, ◌==◌, if◌then◌else◌,
  map, ℕ_discrete, DecEq,
}
use herdr_telegram_agents.Common.Text.{Text, Text-discrete, text_eq, text_lt, codes, join}
use herdr_telegram_agents.Common.Case.{CaseTable, equal_fold}
use herdr_telegram_agents.Common.Int.{ℤ, pos}
use herdr_telegram_agents.Common.Sort.{sort}
use herdr_telegram_agents.Domain.Key.{is_empty}

pub data CommandKind : Type 0 where
  cmd_prompt cmd_keys cmd_screen cmd_focus cmd_status cmd_help cmd_options : CommandKind
  cmd_away cmd_here cmd_forward cmd_stop cmd_interrupt cmd_close cmd_new : CommandKind
  cmd_git cmd_observers cmd_unknown cmd_share cmd_shares : CommandKind

unfoldable pub CommandKind-discrete : Discrete CommandKind
unfolding ℕ_discrete
CommandKind-discrete = hlevel ℕ_discrete

instance abbrev pub command_kind_eq : DecEq CommandKind
command_kind_eq = record { dec = CommandKind-discrete }

abbrev pub key_escape : Text
key_escape = codes "esc"

abbrev pub claude_kind : Text
claude_kind = codes "claude"

abbrev pub open_code_kind : Text
open_code_kind = codes "opencode"

abbrev pub default_agent_kind : Text
default_agent_kind = claude_kind

abbrev pub agent_kinds : List Text
agent_kinds =
    codes "pi"
    ∷ codes "claude"
    ∷ codes "codex"
    ∷ codes "gemini"
    ∷ codes "cursor"
    ∷ codes "devin"
    ∷ codes "agy"
    ∷ codes "cline"
    ∷ codes "omp"
    ∷ codes "mastracode"
    ∷ codes "opencode"
    ∷ codes "copilot"
    ∷ codes "kimi"
    ∷ codes "kiro"
    ∷ codes "droid"
    ∷ codes "amp"
    ∷ codes "grok"
    ∷ codes "hermes"
    ∷ codes "kilo"
    ∷ codes "qodercli"
    ∷ codes "qwen"
    ∷ codes "letta"
    ∷ codes "maki"
    ∷ codes "muse"
    ∷ []

any_fold : CaseTable → List Text → Text → Bool
any_fold t [] s = false
any_fold t (k ∷ ks) s = equal_fold t k s || any_fold t ks s

-- IsAgentKind
unfoldable pub is_agent_kind : CaseTable → Text → Bool
unfolding any_fold
is_agent_kind t s = any_fold t agent_kinds s

-- DismissesOverlay
unfoldable pub dismisses_overlay : CaseTable → Text → Bool
dismisses_overlay t kind = equal_fold t kind claude_kind

pub data ForwardPost : Type 0 where
  post_none post_tail post_screen : ForwardPost

pub record ForwardRule : Type 0 where
  pub post : ForwardPost
  pub dismiss : Bool
  pub kind : Text

-- ForwardRule.Fits
unfoldable pub fits : CaseTable → ForwardRule → Text → Bool
fits t r kind = is_empty r.kind || equal_fold t r.kind kind

abbrev pub rule_of : ForwardPost → Bool → Text → ForwardRule
rule_of post dismiss kind = record { post = post; dismiss = dismiss; kind = kind }

abbrev pub forward_rules : List (Text × ForwardRule)
forward_rules =
    (codes "clear", rule_of post_tail false [])
    ∷ (codes "compact", rule_of post_none false [])
    ∷ (codes "usage", rule_of post_screen true [])
    ∷ (codes "model", rule_of post_screen true [])
    ∷ (codes "models", rule_of post_screen true open_code_kind)
    ∷ []

find_rule : Text → List (Text × ForwardRule) → Option ForwardRule
find_rule word [] = none
find_rule word ((w, r) ∷ rules) = if w == word then some r else find_rule word rules

-- forwardRuleFor
unfoldable pub forward_rule_for : Text → Bool → Option ForwardRule
unfolding find_rule
forward_rule_for word has_args = elim (find_rule word forward_rules) [
  | none ↦ none
  | some rule ↦
      if word == codes "model" && has_args then some (rule_of post_tail false []) else some rule
]

rule_words : List (Text × ForwardRule) → List Text
rule_words [] = []
rule_words ((w, r) ∷ rules) = w ∷ rule_words rules

-- ForwardWords
unfoldable pub forward_words : List Text
unfolding rule_words
forward_words = sort text_lt (rule_words forward_rules)

pub data ObserverAction : Type 0 where
  observer_list observer_add observer_remove : ObserverAction

pub record ObserversSpec : Type 0 where
  pub action : ObserverAction
  pub id : ℤ

pub record GitSpec : Type 0 where
  pub sub : Text
  pub args : List Text

-- `keys` of the source is `key_names`. `away` is in nanoseconds.
pub record Command : Type 0 where
  pub kind : CommandKind
  pub text : Text
  pub key_names : List Text
  pub lines : ℕ
  pub all : Bool
  pub forward : ForwardRule
  pub away : ℤ
  pub workspace : Text
  pub agent_kind : Text
  pub git : GitSpec
  pub observers : ObserversSpec

abbrev pub no_rule : ForwardRule
no_rule = rule_of post_none false []

abbrev pub no_git : GitSpec
no_git = record { sub = []; args = [] }

-- A command with nothing but its kind.
abbrev pub only : CommandKind → Command
only kind = record {
  kind = kind;
  text = [];
  key_names = [];
  lines = 0;
  all = false;
  forward = no_rule;
  away = pos 0;
  workspace = [];
  agent_kind = [];
  git = no_git;
  observers = record { action = observer_list; id = pos 0 };
}

abbrev pub with_text : CommandKind → Text → Command
with_text kind text = record (only kind) { text = text }

-- A line that is no command of the plugin: the word and its arguments.
abbrev pub unknown_line : Text → List Text → Command
unknown_line word args = with_text cmd_unknown (word ++ (b' ' ∷ join b' ' args))

-- bareCommand
unfoldable pub bare_command : CommandKind → Text → List Text → Command
bare_command kind word [] = only kind
bare_command kind word (a ∷ args) = unknown_line (b'/' ∷ word) (a ∷ args)
