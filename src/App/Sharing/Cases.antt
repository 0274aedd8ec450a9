-- ===== src/App/Sharing/Cases.antt =====
-- What each call of the manager comes to: it refuses, or it does one of a few things to the grants. A
-- predicate that these keep is kept by the call.
use herdr_telegram_agents.Common.{
  ℕ, ◌+◌, ◌%◌, ◌^◌, ◌≡◌, refl, Bool, true, false, ◌⊎◌, inl, inr, none, some, arith, nat_eq,
  Bool-cases, Option-cases,
}
use herdr_telegram_agents.Common.Text.{Text, text_eq}
use herdr_telegram_agents.Common.Int.{int_eq}
use herdr_telegram_agents.Common.GoMap.{lookup}
use herdr_telegram_agents.Domain.Mapping.{Time, Topic}
use herdr_telegram_agents.Domain.Agent.{Agent}
use herdr_telegram_agents.Domain.Access.{ShareOrigin, ShareAction, authorize_share}
use herdr_telegram_agents.Domain.Sharing.{
  ShareGrant, GrantState, grant_state_eq, active, suspended, pending, revoked, needs_repair,
  transition,
}
use herdr_telegram_agents.App.Sharing.{Sharing, Store, save_locked, cancel_locked}
use herdr_telegram_agents.App.Sharing.Grants.{
  GrantRequest, AgentLookup, put_grant, rewrite_grant, replace_grant, write_grant, existing_grant,
  new_grant, grant, owner, by_retention, change_state,
}
use herdr_telegram_agents.App.Sharing.Sweeps.{retire_mirror}
use herdr_telegram_agents.App.Sharing.Mirrors.{
  activate_mirror, repair_mirror, missing_mirror, put_mirror, delete_mirror, pending_again,
  mirror_of,
}
use herdr_telegram_agents.App.Sharing.Dispatch.{begin, binding_guard, admit}

-- `Grant` refuses, or writes one grant.
pub grant_cases :
    (P : Sharing → Type 0) (store : Store) (fresh : Text) (r : GrantRequest) (now : Time)
    (s : Sharing)
    → P s
    → ((g : ShareGrant) → P (write_grant store fresh r now s g).0)
    → P (grant store fresh r now s).0
unfolding grant
grant_cases P store fresh r now s refused written =
    let old = written (existing_grant r.recipient_id r.key s.state.grants) in
    let new = written (new_grant fresh r) in ground arith

-- `ChangeState` refuses, or replaces one grant, which a failed save of an activation suspends.
pub change_state_cases :
    (P : Sharing → Type 0) (store : Store) (agent : AgentLookup) (id : Text) (revision : ℕ)
    (next : GrantState) (now : Time) (s : Sharing)
    → P s
    → ((c : ShareGrant) → P (save_locked store now (replace_grant id c s)).0)
    → ((c : ShareGrant)
        → P (
            rewrite_grant id
              (record c { state = suspended })
              (save_locked store now (replace_grant id c s)).0))
    → P (change_state store agent id revision next now s).0
unfolding change_state
change_state_cases P store agent id revision next now s refused done again =
    elim (Option-cases (lookup id s.state.grants)) [
      | inl unknown ↦ ground arith
      | inr (g, known) ↦ elim (Option-cases (transition g next)) [
        | inl no_transition ↦ ground arith
        | inr (moved, accepted) ↦
            let c = record moved { suspend_reason = owner } in
            let d = done c in let a = again c in ground arith
      ]
    ]

pub retire_mirror_cases :
    (P : Sharing → Type 0) (store : Store) (id : Text) (revision : ℕ) (now : Time) (s : Sharing)
    → P s
    → ((g : ShareGrant) → P (save_locked store now (replace_grant id g s)).0)
    → P (retire_mirror store id revision now s).0
unfolding retire_mirror
retire_mirror_cases P store id revision now s refused done =
    elim (Option-cases (lookup id s.state.grants)) [
      | inl unknown ↦ ground arith
      | inr (g, known) ↦
          let d = done (record g { suspend_reason = by_retention }) in
          elim (Option-cases (transition g revoked)) [
            | inl no_transition ↦ ground arith
            | inr (g', accepted) ↦
                let d' = done (record g' { suspend_reason = by_retention }) in ground arith
          ]
    ]

-- The grant is pending when its mirror is ready.
pub activate_mirror_cases :
    (P : Sharing → Type 0) (store : Store) (id : Text) (revision : ℕ) (topic : Topic) (now : Time)
    (s : Sharing)
    → P s
    → ((g g1 : ShareGrant) (s1 : Sharing)
        → lookup id s.state.grants ≡ some g
        → g.state ≡ pending
        → s1.state.grants ≡ s.state.grants
        → s1.inflight ≡ s.inflight
        → P (save_locked store now (put_grant id g1 s1)).0
          × P (
              rewrite_grant id
                (record g1 { state = needs_repair })
                (save_locked store now (put_grant id g1 s1)).0))
    → P (activate_mirror store id revision topic now s).0
unfolding activate_mirror
activate_mirror_cases P store id revision topic now s refused done =
    elim (Option-cases (lookup id s.state.grants)) [
      | inl unknown ↦ ground arith
      | inr (g, known) ↦ elim (grant_state_eq.dec g.state pending) [
        | no other ↦ ground arith
        | yes waiting ↦
            let m = record (mirror_of s id) {
              address = record { chat_id = g.recipient_id; thread_id = topic.thread_id };
              creating = false;
            } in
            let g1 = record g {
              state = active;
              revision = (g.revision + 1) % 2 ^ 64;
              activated_at = now;
            } in
            let d = done g g1 (put_mirror id m s) known waiting refl refl in ground arith
      ]
    ]

-- The grant waits or needs repair.
pub repair_mirror_cases :
    (P : Sharing → Type 0) (store : Store) (id : Text) (revision : ℕ) (now : Time) (s : Sharing)
    → P s
    → ((g : ShareGrant)
        → lookup id s.state.grants ≡ some g
        → (g.state ≡ needs_repair) ⊎ (g.state ≡ pending)
        → P (save_locked store now (put_grant id (pending_again g) (delete_mirror id s))).0)
    → P (repair_mirror store id revision now s).0
unfolding repair_mirror
repair_mirror_cases P store id revision now s refused done =
    elim (Option-cases (lookup id s.state.grants)) [
      | inl unknown ↦ ground arith
      | inr (g, known) ↦ elim (grant_state_eq.dec g.state pending) [
        | yes waiting ↦ let d = done g known (inr waiting) in ground arith
        | no other ↦ elim (grant_state_eq.dec g.state needs_repair) [
          | yes broken ↦ let d = done g known (inl broken) in ground arith
          | no neither ↦ ground arith
        ]
      ]
    ]

pub missing_mirror_cases :
    (P : Sharing → Type 0) (store : Store) (id : Text) (revision : ℕ) (now : Time) (s : Sharing)
    → P s
    → ((g : ShareGrant)
        → P (save_locked store now (put_grant id g (delete_mirror id (cancel_locked id s)))).0)
    → P (missing_mirror store id revision now s).0
unfolding missing_mirror
missing_mirror_cases P store id revision now s refused done =
    elim (Option-cases (lookup id s.state.grants)) [
      | inl unknown ↦ ground arith
      | inr (g, known) ↦ let d = done (pending_again g) in ground arith
    ]

pub binding_guard_cases :
    (P : Sharing → Type 0) (ended : Bool) (token id : Text) (revision : ℕ) (s : Sharing)
    → P s
    → ((n : ℕ) → P (admit id token (record { is_dispatch = false; admitted = n }) s))
    → P (binding_guard ended token id revision s).0
unfolding binding_guard
binding_guard_cases P ended token id revision s refused done =
    elim (Option-cases (lookup id s.state.grants)) [
      | inl unknown ↦ ground arith
      | inr (g, known) ↦ let d = done g.revision in ground arith
    ]

-- `Begin` refuses, or admits a call on what `AuthorizeShare` allows.
pub begin_cases :
    (P : Sharing → Type 0) (agent : AgentLookup) (ended : Bool) (token : Text) (o : ShareOrigin)
    (action : ShareAction) (now : Time) (s : Sharing)
    → P s
    → ((g : ShareGrant) (a : Agent)
        → lookup o.grant_id s.state.grants ≡ some g
        → (authorize_share g (mirror_of s g.id) o a.key action now).is_allowed ≡ true
        → P (admit g.id token (record { is_dispatch = true; admitted = g.revision }) s))
    → P (begin agent ended token o action now s).0
unfolding begin
begin_cases P none ended token o action now s refused done = refused
begin_cases P (some agent) ended token o action now s refused done =
    elim (Option-cases (lookup o.grant_id s.state.grants)) [
      | inl unknown ↦ ground arith
      | inr (g, known) ↦ elim (Option-cases (agent g.key)) [
        | inl dead ↦ ground arith
        | inr (a, live) ↦
            elim (Bool-cases (authorize_share g (mirror_of s g.id) o a.key action now).is_allowed) [
              | inl permitted ↦ let d = done g a known permitted in ground arith
              | inr denied ↦ ground arith
            ]
      ]
    ]
