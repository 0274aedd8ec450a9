-- ===== src/Domain/Command/Workspaces.antt =====
-- internal/domain/command.go: the workspace that a typed label means. `Workspace` is from
-- internal/domain/agent.go.
use herdr_telegram_agents.Common.{
  Bool, true, false, not, ◌&&◌, none, some, List, [], ◌∷◌, ◌==◌, if◌then◌else◌, select,
}
use herdr_telegram_agents.Common.Text.{Text, text_eq, strip_prefix?}
use herdr_telegram_agents.Common.Blanks.{trim_space}
use herdr_telegram_agents.Common.Case.{CaseTable, to_lower}
use herdr_telegram_agents.Domain.Key.{is_empty}

pub record Workspace : Type 0 where
  pub id : Text
  pub label : Text

-- What a workspace is matched by.
have : CaseTable → Workspace → Text
have t ws =
    let label = to_lower t (trim_space ws.label) in
    if is_empty label then to_lower t ws.id else label

has_prefix : Text → Text → Bool
has_prefix p s = elim (strip_prefix? p s) [ none ↦ false | some rest ↦ true ]

-- MatchWorkspaces
unfoldable pub match_workspaces : CaseTable → Text → List Workspace → List Workspace
unfolding have has_prefix
match_workspaces t label workspaces =
    let want = to_lower t (trim_space label) in
    let exact = select (λ ws. have t ws == want) workspaces in
    let prefixed =
      select (λ ws. not (have t ws == want) && has_prefix want (have t ws)) workspaces in
    if is_empty want then [] else elim exact [ [] ↦ prefixed | ws ∷ more ↦ ws ∷ more ]

pub data MatchResult : Type 0 where
  match_none match_one match_many : MatchResult

abbrev zero_workspace : Workspace
zero_workspace = record { id = []; label = [] }

-- MatchWorkspace
unfoldable pub match_workspace : CaseTable → Text → List Workspace → Workspace × MatchResult
match_workspace t label workspaces = elim (match_workspaces t label workspaces) [
  | [] ↦ (zero_workspace, match_none)
  | ws ∷ more ↦ elim more [ [] ↦ (ws, match_one) | other ∷ rest ↦ (zero_workspace, match_many) ]
]
