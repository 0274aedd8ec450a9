-- ===== src/Domain/Command/Args.antt =====
-- internal/domain/command.go: the arguments of the slash words. `parse_duration` stands for
-- time.ParseDuration, which computes fractions in floating point; it answers nanoseconds.
use herdr_telegram_agents.Common.{
  ℕ, ◌-◌, ◌*◌, ◌≤◌, ◌≡◌, refl, subst, ◌⊎◌, inl, inr, true, ◌||◌, Option, none, some, List, [], ◌∷◌,
  arith, nat_eq, ◌==◌, ltb, if◌then◌else◌, length, take, Bool-cases, Option-cases,
}
use herdr_telegram_agents.Common.Text.{Text, text_eq, codes, join}
use herdr_telegram_agents.Common.Case.{CaseTable, to_lower, equal_fold}
use herdr_telegram_agents.Common.Int.{ℤ, pos, negsuc, is_nonpos, int_lt}
use herdr_telegram_agents.Common.Decimal.{itoa, atoi}
use herdr_telegram_agents.Domain.Command.{
  Command, cmd_screen, cmd_away, cmd_new, cmd_observers, GitSpec, ObserverAction, observer_add,
  observer_remove, only, unknown_line, is_agent_kind, default_agent_kind,
}

abbrev pub git_log_default : ℕ
git_log_default = 10

abbrev pub git_log_max : ℕ
git_log_max = 50

abbrev pub max_screen_lines : ℕ
max_screen_lines = 200

-- A number brought between 1 and a bound.
unfoldable pub clamp : ℕ → ℤ → ℕ
clamp top (pos n) = if ltb n 1 then 1 else if ltb top n then top else n
clamp top (negsuc n) = 1

abbrev pub git_spec : Text → List Text → Option GitSpec
git_spec sub args = some (record { sub = sub; args = args })

abbrev pub git_log : ℕ → List Text
git_log n = codes "log" ∷ codes "--oneline" ∷ codes "--decorate" ∷ codes "-n" ∷ itoa n ∷ []

abbrev pub git_status : List Text
git_status = codes "status" ∷ codes "--short" ∷ codes "--branch" ∷ []

abbrev pub git_diff : List Text
git_diff = codes "diff" ∷ codes "HEAD" ∷ []

abbrev pub git_diff_staged : List Text
git_diff_staged = codes "diff" ∷ codes "--cached" ∷ []

-- The arguments after the subcommand.
git_status_args : List Text → Option GitSpec
git_status_args [] = git_spec (codes "status") git_status
git_status_args (a ∷ args) = none

git_diff_args : CaseTable → List Text → Option GitSpec
git_diff_args t [] = git_spec (codes "diff") git_diff
git_diff_args t (a ∷ []) =
    if equal_fold t a (codes "staged") then git_spec (codes "diff") git_diff_staged else none
git_diff_args t (a ∷ b ∷ args) = none

git_log_args : List Text → Option GitSpec
git_log_args [] = git_spec (codes "log") (git_log git_log_default)
git_log_args (a ∷ []) = elim (atoi a) [
  | none ↦ none
  | some v ↦ git_spec (codes "log") (git_log (clamp git_log_max v))
]
git_log_args (a ∷ b ∷ args) = none

-- ParseGit; `none` is the answer false.
unfoldable pub parse_git : CaseTable → List Text → Option GitSpec
unfolding git_status_args git_diff_args git_log_args clamp
parse_git t [] = none
parse_git t (a ∷ args) =
    if to_lower t a == codes "status"
    then git_status_args args
    else if to_lower t a == codes "diff"
    then git_diff_args t args
    else if to_lower t a == codes "log"
    then git_log_args args
    else none

unfoldable pub observer_action : CaseTable → Text → Option ObserverAction
observer_action t a =
    if to_lower t a == codes "add"
    then some observer_add
    else if to_lower t a == codes "remove"
    then some observer_remove
    else none

unfoldable pub observers_command : Option ObserverAction → Option ℤ → Command → Command
observers_command (some action) (some id) unknown =
    if is_nonpos id
    then unknown
    else record (only cmd_observers) { observers = record { action = action; id = id } }
observers_command _ _ unknown = unknown

-- parseObservers
unfoldable pub parse_observers : CaseTable → List Text → Command
unfolding observer_action observers_command
parse_observers t [] = only cmd_observers
parse_observers t (a ∷ b ∷ []) =
    observers_command (observer_action t a) (atoi b)
      (unknown_line (codes "/observers") (a ∷ b ∷ []))
parse_observers t args = unknown_line (codes "/observers") args

unfoldable pub last_word : List Text → Text
last_word [] = []
last_word (a ∷ []) = a
last_word (a ∷ b ∷ args) = last_word (b ∷ args)

-- parseNew
unfoldable pub parse_new : CaseTable → List Text → Command
unfolding last_word
parse_new t [] = only cmd_new
parse_new t (a ∷ args) =
    let words = a ∷ args in
    if is_agent_kind t (last_word words)
    then record (only cmd_new) {
      agent_kind = to_lower t (last_word words);
      workspace = join b' ' (take (length words - 1) words);
    }
    else record (only cmd_new) { agent_kind = default_agent_kind; workspace = join b' ' words }

abbrev pub min_away : ℕ
min_away = 60 * 1000000000

abbrev pub max_away : ℕ
max_away = 7 * 24 * 3600 * 1000000000

-- parseAway
unfoldable pub parse_away : CaseTable → (Text → Option ℤ) → List Text → Command
parse_away t parse_duration [] = only cmd_away
parse_away t parse_duration (a ∷ []) = elim (parse_duration (to_lower t a)) [
  | none ↦ unknown_line (codes "/away") (a ∷ [])
  | some d ↦
      if int_lt d (pos min_away) || int_lt (pos max_away) d
      then unknown_line (codes "/away") (a ∷ [])
      else record (only cmd_away) { away = d }
]
parse_away t parse_duration (a ∷ b ∷ args) = unknown_line (codes "/away") (a ∷ b ∷ args)

-- parseScreen
unfoldable pub parse_screen : CaseTable → List Text → Command
unfolding clamp
parse_screen t [] = only cmd_screen
parse_screen t (a ∷ args) =
    if equal_fold t a (codes "all")
    then if ltb 0 (length args)
      then unknown_line (codes "/screen") (a ∷ args)
      else record (only cmd_screen) { all = true }
    else elim (atoi a) [
      | none ↦ unknown_line (codes "/screen") (a ∷ [])
      | some n ↦ record (only cmd_screen) { lines = clamp max_screen_lines n }
    ]

clamp_bounds : (top : ℕ) (n : ℤ) → 1 ≤ top → (1 ≤ clamp top n) × (clamp top n ≤ top)
unfolding clamp
clamp_bounds top (pos n) h = ground arith
clamp_bounds top (negsuc n) h = (omega arith, h)

-- The argument lists that may be run: four fixed ones, but for the number of log entries.
abbrev pub IsReadOnly : GitSpec → Type 0
IsReadOnly g =
    (g.args ≡ git_status)
    ⊎ (g.args ≡ git_diff)
    ⊎ (g.args ≡ git_diff_staged)
    ⊎ ((n : ℕ) × (1 ≤ n) × (n ≤ git_log_max) × (g.args ≡ git_log n))

git_log_args-IsReadOnly :
    (args : List Text) (g : GitSpec) → git_log_args args ≡ some g → IsReadOnly g
unfolding git_log_args
git_log_args-IsReadOnly [] g h =
    let same : record { sub = codes "log"; args = git_log git_log_default } ≡ g = ground arith in
    subst IsReadOnly same (inr (inr (inr (git_log_default, omega arith, omega arith, refl))))
git_log_args-IsReadOnly (a ∷ []) g h = elim (Option-cases (atoi a)) [
  | inl bad ↦ absurd (ground arith)
  | inr (v, good) ↦
      let bounds = clamp_bounds git_log_max v (omega arith) in
      let same : record { sub = codes "log"; args = git_log (clamp git_log_max v) } ≡ g =
        ground arith in
      subst IsReadOnly same (inr (inr (inr (clamp git_log_max v, bounds.0, bounds.1, refl))))
]
git_log_args-IsReadOnly (a ∷ b ∷ args) g h = absurd (ground arith)

git_diff_args-IsReadOnly :
    (t : CaseTable) (args : List Text) (g : GitSpec) → git_diff_args t args ≡ some g → IsReadOnly g
unfolding git_diff_args
git_diff_args-IsReadOnly t [] g h =
    let same : record { sub = codes "diff"; args = git_diff } ≡ g = ground arith in
    subst IsReadOnly same (inr (inl refl))
git_diff_args-IsReadOnly t (a ∷ []) g h = elim (Bool-cases (equal_fold t a (codes "staged"))) [
  | inl staged ↦
      let same : record { sub = codes "diff"; args = git_diff_staged } ≡ g = ground arith in
      subst IsReadOnly same (inr (inr (inl refl)))
  | inr other ↦ absurd (ground arith)
]
git_diff_args-IsReadOnly t (a ∷ b ∷ args) g h = absurd (ground arith)

git_status_args-IsReadOnly :
    (args : List Text) (g : GitSpec) → git_status_args args ≡ some g → IsReadOnly g
unfolding git_status_args
git_status_args-IsReadOnly [] g h =
    let same : record { sub = codes "status"; args = git_status } ≡ g = ground arith in
    subst IsReadOnly same (inl refl)
git_status_args-IsReadOnly (a ∷ args) g h = absurd (ground arith)

-- Whatever words come after /git, what is run is one of four fixed argument lists, in which only the
-- number of log entries varies, from 1 to 50.
pub parse_git-IsReadOnly :
    (t : CaseTable) (args : List Text) (g : GitSpec) → parse_git t args ≡ some g → IsReadOnly g
unfolding parse_git
parse_git-IsReadOnly t [] g h = absurd (ground arith)
parse_git-IsReadOnly t (a ∷ args) g h = elim (Bool-cases (to_lower t a == codes "status")) [
  | inl status ↦ git_status_args-IsReadOnly args g (ground arith)
  | inr no_status ↦ elim (Bool-cases (to_lower t a == codes "diff")) [
    | inl diff ↦ git_diff_args-IsReadOnly t args g (ground arith)
    | inr no_diff ↦ elim (Bool-cases (to_lower t a == codes "log")) [
      | inl log ↦ git_log_args-IsReadOnly args g (ground arith)
      | inr no_log ↦ absurd (ground arith)
    ]
  ]
]

pub parse_screen_lines :
    (t : CaseTable) (args : List Text) → (parse_screen t args).lines ≤ max_screen_lines
unfolding parse_screen
parse_screen_lines t [] = omega arith
parse_screen_lines t (a ∷ args) = elim (Option-cases (atoi a)) [
  | inl bad ↦ ground arith
  | inr (v, good) ↦ let bounds = clamp_bounds max_screen_lines v (omega arith) in ground arith
]
