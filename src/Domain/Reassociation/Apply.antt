-- ===== src/Domain/Reassociation/Apply.antt =====
-- internal/domain/mapping.go, ApplyReassociation: the entries that a plan names move to their new keys.
pub mod Moves
use herdr_telegram_agents.Common.{
  ℕ, Bool, true, false, not, ◌&&◌, ◌||◌, Option, none, some, List, [], ◌∷◌, ◌++◌, nat_eq, ◌==◌, ltb,
  if◌then◌else◌, elem, any, select, length, ◌⊎◌, inl, inr,
}
use herdr_telegram_agents.Common.Text.{Text, text_eq, text_lt}
use herdr_telegram_agents.Common.GoMap.{GoMap, lookup, insert, has}
use herdr_telegram_agents.Common.Sort.{sort}
use herdr_telegram_agents.Domain.Status.{live, strip_prefix}
use herdr_telegram_agents.Domain.Key.{
  Key, key_eq, key_string, parse_key, is_empty, same_session, conflicts_with, same_identity,
}
use herdr_telegram_agents.Domain.Agent.{Agent, desired}
use herdr_telegram_agents.Domain.Mapping.{Mapping, TopicEntry, sorted_keys}
use herdr_telegram_agents.Domain.Reassociation.{ReassociationAssignment, ReassociationPlan}

-- The errors of ApplyReassociation.
pub data ReassociationError : Type 0 where
  invalid_source invalid_destination source_repeated destination_repeated : ReassociationError
  source_missing destination_occupied : ReassociationError

abbrev pub source : ReassociationAssignment → Text
source a = key_string a.from_key

abbrev pub destination : ReassociationAssignment → Text
destination a = key_string a.to_key

abbrev is_nothing {ℓ} : {A : Type ℓ} → Option A → Bool
is_nothing none = true
is_nothing (some a) = false

-- The first loop: every assignment by itself, and against the ones before it.
check_one : Mapping → List Text → List Text → ReassociationAssignment → Option ReassociationError
check_one m sources destinations a =
    if is_nothing (parse_key (source a))
    then some invalid_source
    else if is_nothing (parse_key (destination a))
    then some invalid_destination
    else if elem (source a) sources
    then some source_repeated
    else if elem (destination a) destinations
    then some destination_repeated
    else if not (has (source a) m.topics)
    then some source_missing
    else none

check_loop :
    Mapping → List Text → List Text → List ReassociationAssignment → Option ReassociationError
check_loop m sources destinations [] = none
check_loop m sources destinations (a ∷ rest) = elim (check_one m sources destinations a) [
  | some err ↦ some err
  | none ↦ check_loop m (source a ∷ sources) (destination a ∷ destinations) rest
]

abbrev pub stays : ReassociationAssignment → Bool
stays a = source a == destination a

move_sources : List ReassociationAssignment → List Text
move_sources [] = []
move_sources (a ∷ rest) =
    let sources = move_sources rest in if stays a then sources else source a ∷ sources

abbrev is_blocked : Mapping → List Text → ReassociationAssignment → Bool
is_blocked m moving a =
    not (stays a || not (has (destination a) m.topics) || elem (destination a) moving)

without : List Text → GoMap Text TopicEntry → GoMap Text TopicEntry
without moving topics = select (λ kv. not (elem kv.0 moving)) topics

-- The last loop; a source without an entry does not come here.
move_loop :
    GoMap Text TopicEntry
    → GoMap Text TopicEntry
    → List ReassociationAssignment
    → ReassociationError ⊎ GoMap Text TopicEntry
move_loop topics next [] = inr next
move_loop topics next (a ∷ rest) = elim (stays a || is_nothing (lookup (source a) topics)) [
  | true ↦ move_loop topics next rest
  | false ↦ elim (has (destination a) next) [
    | true ↦ inl destination_occupied
    | false ↦ elim (lookup (source a) topics) [
      | none ↦ inr next
      | some e ↦ move_loop topics (insert (destination a) e next) rest
    ]
  ]
]

move_all : Mapping → List ReassociationAssignment → ReassociationError ⊎ Mapping
move_all m assignments =
    let moving = move_sources assignments in
    if any (is_blocked m moving) assignments
    then inl destination_occupied
    else elim (move_loop m.topics (without moving m.topics) assignments) [
      | inl err ↦ inl err
      | inr topics ↦ inr (record m { topics = topics })
    ]

-- ApplyReassociation: an error leaves the mapping as it is.
unfoldable pub apply_reassociation : Mapping → ReassociationPlan → ReassociationError ⊎ Mapping
unfolding check_loop check_one move_sources without move_loop move_all
apply_reassociation m plan = elim (check_loop m [] [] plan.assignments) [
  | some err ↦ inl err
  | none ↦ move_all m plan.assignments
]
