-- ===== src/Domain/Reassociation/Apply/Moves.antt =====
-- ApplyReassociation moves each entry to its new key, and touches no other.
use herdr_telegram_agents.Common.{
  ◌≡◌, refl, ◌∙◌, true, false, ◌⊎◌, inl, inr, none, List, [], ◌∷◌, arith, if◌then◌else◌, elem, All,
  Distinct, Option-cases, Bool-cases,
}
use herdr_telegram_agents.Common.Text.{Text, text_eq}
use herdr_telegram_agents.Common.GoMap.{GoMap, lookup, insert, has, lookup-insert, lookup_of_has}
use herdr_telegram_agents.Domain.Mapping.{Mapping, TopicEntry}
use herdr_telegram_agents.Domain.Reassociation.{ReassociationAssignment, ReassociationPlan}
use herdr_telegram_agents.Domain.Reassociation.Apply.{
  ReassociationError, source, destination, stays, check_one, check_loop, move_sources, without,
  move_loop, move_all, apply_reassociation,
}

abbrev Topics : Type 0
Topics = GoMap Text TopicEntry

abbrev pub sources : List ReassociationAssignment → List Text
sources [] = []
sources (a ∷ moves) = source a ∷ sources moves

abbrev pub destinations : List ReassociationAssignment → List Text
destinations [] = []
destinations (a ∷ moves) = destination a ∷ destinations moves

abbrev staying : List ReassociationAssignment → List Text
staying [] = []
staying (a ∷ moves) = let rest = staying moves in if stays a then source a ∷ rest else rest

abbrev HasSources : Topics → List ReassociationAssignment → Type 0
HasSources topics = All (λ a. has (source a) topics ≡ true)

record Checked (m : Mapping) (ss ds : List Text) (moves : List ReassociationAssignment)
    : Type 0 where
  stored : HasSources m.topics moves
  one_source : Distinct (sources moves)
  one_destination : Distinct (destinations moves)
  new_sources : (k : Text) → elem k ss ≡ true → elem k (sources moves) ≡ false
  new_destinations : (k : Text) → elem k ds ≡ true → elem k (destinations moves) ≡ false

check_loop-Checked :
    (m : Mapping) (ss ds : List Text) (moves : List ReassociationAssignment)
    → check_loop m ss ds moves ≡ none
    → Checked m ss ds moves
unfolding check_loop check_one
check_loop-Checked m ss ds [] h = record {
  stored = tt;
  one_source = tt;
  one_destination = tt;
  new_sources = λ k e. refl;
  new_destinations = λ k e. refl;
}
check_loop-Checked m ss ds (a ∷ moves) h =
    let rest = check_loop-Checked m (source a ∷ ss) (destination a ∷ ds) moves (ground arith) in
    let here = rest.new_sources (source a) (ground arith) in
    let there = rest.new_destinations (destination a) (ground arith) in
    record {
      stored = (ground arith, rest.stored);
      one_source = (here, rest.one_source);
      one_destination = (there, rest.one_destination);
      new_sources = λ k e. let r = rest.new_sources k (ground arith) in ground arith;
      new_destinations = λ k e. let r = rest.new_destinations k (ground arith) in ground arith;
    }

elem-move_sources :
    (moves : List ReassociationAssignment) (k : Text)
    → elem k (sources moves) ≡ false
    → elem k (move_sources moves) ≡ false
unfolding move_sources
elem-move_sources [] k h = refl
elem-move_sources (a ∷ moves) k h = ground (arith, elem-move_sources moves k)

elem-staying :
    (moves : List ReassociationAssignment) (k : Text)
    → elem k (sources moves) ≡ false
    → elem k (staying moves) ≡ false
elem-staying [] k h = refl
elem-staying (a ∷ moves) k h = ground (arith, elem-staying moves k)

-- What stays is its own destination.
elem-staying-destinations :
    (moves : List ReassociationAssignment) (k : Text)
    → elem k (staying moves) ≡ true
    → elem k (destinations moves) ≡ true
elem-staying-destinations [] k h = ground arith
elem-staying-destinations (a ∷ moves) k h = ground (arith, elem-staying-destinations moves k)

staying_stays :
    (moves : List ReassociationAssignment) (k : Text)
    → Distinct (sources moves)
    → elem k (staying moves) ≡ true
    → elem k (move_sources moves) ≡ false
unfolding move_sources
staying_stays [] k d h = refl
staying_stays (a ∷ moves) k d h = ground (
  arith,
  staying_stays moves k d.1,
  elem-move_sources moves (source a) d.0,
  elem-staying moves (source a) d.0,
)

lookup-without :
    (moving : List Text) (topics : Topics) (k : Text)
    → lookup k (without moving topics) ≡ (if elem k moving then none else lookup k topics)
unfolding without
lookup-without moving [] k = ground arith
lookup-without moving ((j, e) ∷ topics) k = ground (arith, lookup-without moving topics k)

move_loop-other :
    (topics next r : Topics) (moves : List ReassociationAssignment) (k : Text)
    → move_loop topics next moves ≡ inr r
    → elem k (destinations moves) ≡ false
    → lookup k r ≡ lookup k next
unfolding move_loop
move_loop-other topics next r [] k h n = ground arith
move_loop-other topics next r (a ∷ moves) k h n = elim (Option-cases (lookup (source a) topics)) [
  | inl absent ↦ move_loop-other topics next r moves k (ground arith) (ground arith)
  | inr (e, found) ↦ elim (Bool-cases (stays a)) [
    | inl stay ↦ move_loop-other topics next r moves k (ground arith) (ground arith)
    | inr go ↦
        let rest =
          move_loop-other topics (insert (destination a) e next) r moves k (ground arith)
            (ground arith) in
        let new = lookup-insert (destination a) k e next in ground arith
  ]
]

move_loop-moves :
    (topics next r : Topics) (moves : List ReassociationAssignment)
    → move_loop topics next moves ≡ inr r
    → HasSources topics moves
    → Distinct (destinations moves)
    → ((k : Text) → elem k (staying moves) ≡ true → lookup k next ≡ lookup k topics)
    → All (λ a. lookup (destination a) r ≡ lookup (source a) topics) moves
unfolding move_loop
move_loop-moves topics next r [] h s d kept = tt
move_loop-moves topics next r (a ∷ moves) h s d kept =
    let (e, found) = lookup_of_has (source a) topics s.0 in
    elim (Bool-cases (stays a)) [
      | inl stay ↦
          let same = move_loop-other topics next r moves (destination a) (ground arith) d.0 in
          let here = kept (source a) (ground arith) in
          (
            ground arith,
            move_loop-moves topics next r moves (ground arith) s.1 d.1
                (λ k t. kept k (ground arith)),
          )
      | inr go ↦
          let next' = insert (destination a) e next in
          let same = move_loop-other topics next' r moves (destination a) (ground arith) d.0 in
          let new = lookup-insert (destination a) (destination a) e next in
          (
            ground arith,
            move_loop-moves topics next' r moves (ground arith) s.1 d.1 (λ k t.
                let other = lookup-insert (destination a) k e next in
                let old = kept k (ground arith) in
                let not_it = elem-staying-destinations moves k t in ground arith),
          )
    ]

abbrev moved_topics : Mapping → List ReassociationAssignment → ReassociationError ⊎ Topics
moved_topics m moves = move_loop m.topics (without (move_sources moves) m.topics) moves

apply-move_loop :
    (m m' : Mapping) (plan : ReassociationPlan)
    → apply_reassociation m plan ≡ inr m'
    → (check_loop m [] [] plan.assignments ≡ none)
      × (moved_topics m plan.assignments ≡ inr m'.topics)
unfolding apply_reassociation move_all
apply-move_loop m m' plan h = elim (Option-cases (check_loop m [] [] plan.assignments)) [
  | inl fine ↦ (fine, ground arith)
  | inr (err, e) ↦ absurd (ground arith)
]

-- If ApplyReassociation succeeds, each assignment of the plan finds under its destination the
-- entry that stood under its source before.
pub apply_reassociation_moves :
    (m m' : Mapping) (plan : ReassociationPlan)
    → apply_reassociation m plan ≡ inr m'
    → All (λ a. lookup (destination a) m'.topics ≡ lookup (source a) m.topics) plan.assignments
apply_reassociation_moves m m' plan h =
    let (fine, done) = apply-move_loop m m' plan h in
    let c = check_loop-Checked m [] [] plan.assignments fine in
    move_loop-moves m.topics (without (move_sources plan.assignments) m.topics) m'.topics
      plan.assignments done c.stored c.one_destination
      (λ k t.
        let w = lookup-without (move_sources plan.assignments) m.topics k in
        let s = staying_stays plan.assignments k c.one_source t in ground arith)

-- If ApplyReassociation succeeds, a key that is neither a source nor a destination of the plan
-- keeps what it had.
pub apply_reassociation_keeps :
    (m m' : Mapping) (plan : ReassociationPlan) (k : Text)
    → apply_reassociation m plan ≡ inr m'
    → elem k (sources plan.assignments) ≡ false
    → elem k (destinations plan.assignments) ≡ false
    → lookup k m'.topics ≡ lookup k m.topics
apply_reassociation_keeps m m' plan k h s d =
    let (fine, done) = apply-move_loop m m' plan h in
    let w = lookup-without (move_sources plan.assignments) m.topics k in
    let n = elem-move_sources plan.assignments k s in
    move_loop-other m.topics (without (move_sources plan.assignments) m.topics) m'.topics
      plan.assignments k done d
    ∙ ground arith
