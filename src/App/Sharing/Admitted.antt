-- ===== src/App/Sharing/Admitted.antt =====
-- Every call keeps the work in flight at the revision of its grant.
use herdr_telegram_agents.Common.{
  ℕ, ◌≡◌, refl, sym, subst, ap, Bool, false, inl, inr, some, arith, nat_eq, ◌==◌, Bool-cases,
  Option-cases,
}
use herdr_telegram_agents.Common.Text.{Text, text_eq}
use herdr_telegram_agents.Common.Int.{int_eq}
use herdr_telegram_agents.Common.GoMap.{GoMap, lookup, insert, delete, has}
use herdr_telegram_agents.Domain.Mapping.{Time, Topic}
use herdr_telegram_agents.Domain.Access.{ShareOrigin, ShareAction}
use herdr_telegram_agents.Domain.Access.Decision.{authorize_exact}
use herdr_telegram_agents.Domain.Sharing.{
  ShareGrant, GrantState, grant_state_eq, suspended, needs_repair, max_uint64,
}
use herdr_telegram_agents.App.Sharing.{Sharing, Store, Call, save_locked, cancel_locked}
use herdr_telegram_agents.App.Sharing.Grants.{
  GrantRequest, AgentLookup, put_grant, rewrite_grant, replace_grant, swap_grant, granted,
  write_grant, grant, change_state,
}
use herdr_telegram_agents.App.Sharing.Sweeps.{retire_mirror}
use herdr_telegram_agents.App.Sharing.Mirrors.{
  activate_mirror, repair_mirror, missing_mirror, delete_mirror, pending_again, mirror_of,
}
use herdr_telegram_agents.App.Sharing.Dispatch.{begin, binding_guard, release}
use herdr_telegram_agents.App.Sharing.Kept.{Keeps, save_locked-Keeps}
use herdr_telegram_agents.App.Sharing.Cases.{
  grant_cases, change_state_cases, retire_mirror_cases, activate_mirror_cases, repair_mirror_cases,
  missing_mirror_cases, begin_cases, binding_guard_cases,
}
use herdr_telegram_agents.App.Sharing.Current.{
  IsCurrent, IsIdle, is_running, halted-IsIdle, delete-IsIdle, insert-IsCurrent, delete-IsCurrent,
  replace-IsCurrent, admit-IsCurrent, release-IsCurrent,
}

pub record IsSound (s : Sharing) : Type 0 where
  pub current : IsCurrent s.state.grants s.inflight

pub equal-IsSound :
    (s : Sharing) (gs : GoMap Text ShareGrant) (fl : GoMap Text (GoMap Text Call))
    → s.state.grants ≡ gs
    → s.inflight ≡ fl
    → IsCurrent gs fl
    → IsSound s
equal-IsSound s gs fl same_grants same_work current = record {
  current =
      subst (λ x. IsCurrent x s.inflight) (sym same_grants)
        (subst (IsCurrent gs) (sym same_work) current);
}

pub Keeps-IsSound : (s s' : Sharing) → Keeps s s' → IsSound s → IsSound s'
Keeps-IsSound s s' k sound =
    equal-IsSound s' s.state.grants s.inflight k.grants k.inflight sound.current

write_grant-IsSound :
    (store : Store) (fresh : Text) (r : GrantRequest) (now : Time) (s : Sharing) (g0 : ShareGrant)
    → IsSound s
    → IsSound (write_grant store fresh r now s g0).0
unfolding write_grant cancel_locked
write_grant-IsSound store fresh r now s g0 sound =
    let g = granted r s.process_id now g0 in
    let gs = s.state.grants in
    let s1 = put_grant g.id g (record s { state = record s.state { bot_id = r.bot.id } }) in
    let s2 = cancel_locked g.id s1 in
    let k = save_locked-Keeps store now s2 in
    let out = (write_grant store fresh r now s g0).0 in
    elim (Bool-cases (g0.revision == max_uint64)) [
      | inl stuck ↦ equal-IsSound out gs s.inflight (ground arith) (ground arith) sound.current
      | inr fits ↦ elim (Option-cases (save_locked store now s2).1) [
        | inl done ↦
            equal-IsSound out (insert g.id g gs) (delete g.id s.inflight) (ground (arith, k.grants))
              (ground (arith, k.inflight)) (replace-IsCurrent gs s.inflight g.id g sound.current)
        | inr (e, refused) ↦ elim (Bool-cases (has g.id gs)) [
          | inl old ↦
              equal-IsSound out (insert g.id (record g { state = suspended }) gs)
                (delete g.id s.inflight) (ground arith) (ground (arith, k.inflight))
                (replace-IsCurrent gs s.inflight g.id (record g { state = suspended })
                  sound.current)
          | inr new ↦
              equal-IsSound out gs (delete g.id s.inflight) (ground arith)
                (ground (arith, k.inflight)) (delete-IsCurrent gs s.inflight g.id sound.current)
        ]
      ]
    ]

pub grant-IsSound :
    (store : Store) (fresh : Text) (r : GrantRequest) (now : Time) (s : Sharing)
    → IsSound s
    → IsSound (grant store fresh r now s).0
grant-IsSound store fresh r now s sound =
    grant_cases IsSound store fresh r now s sound
      (λ g. write_grant-IsSound store fresh r now s g sound)

-- A save does not matter.
pub saved-IsSound :
    (store : Store) (now : Time) (s : Sharing) → IsSound s → IsSound (save_locked store now s).0
saved-IsSound store now s sound =
    Keeps-IsSound s (save_locked store now s).0 (save_locked-Keeps store now s) sound

pub replace_grant-IsSound :
    (id : Text) (g : ShareGrant) (s : Sharing) → IsSound s → IsSound (replace_grant id g s)
unfolding cancel_locked
replace_grant-IsSound id g s sound = record {
  current = replace-IsCurrent s.state.grants s.inflight id g sound.current;
}

pub swap_grant-IsSound :
    (id : Text) (g : ShareGrant) (s : Sharing) → IsSound s → IsSound (swap_grant id g s)
unfolding cancel_locked
swap_grant-IsSound id g s sound = record {
  current = replace-IsCurrent s.state.grants s.inflight id g sound.current;
}

-- The grant that a failed save of `ChangeState` suspends has no work in flight.
replace_again-IsSound :
    (store : Store) (id : Text) (g g' : ShareGrant) (now : Time) (s : Sharing)
    → IsSound s
    → IsSound (rewrite_grant id g' (save_locked store now (replace_grant id g s)).0)
unfolding cancel_locked
replace_again-IsSound store id g g' now s sound =
    let s1 = replace_grant id g s in
    let k = save_locked-Keeps store now s1 in
    equal-IsSound (rewrite_grant id g' (save_locked store now s1).0)
      (insert id g' (insert id g s.state.grants)) (delete id s.inflight)
      (ap (insert id g') k.grants) k.inflight
      (insert-IsCurrent (insert id g s.state.grants) (delete id s.inflight) id g'
        (delete-IsIdle s.inflight id)
        (replace-IsCurrent s.state.grants s.inflight id g sound.current))

pub change_state-IsSound :
    (store : Store) (agent : AgentLookup) (id : Text) (revision : ℕ) (next : GrantState)
    (now : Time) (s : Sharing)
    → IsSound s
    → IsSound (change_state store agent id revision next now s).0
change_state-IsSound store agent id revision next now s sound =
    change_state_cases IsSound store agent id revision next now s sound
      (λ c. saved-IsSound store now _ (replace_grant-IsSound id c s sound))
      (λ c. replace_again-IsSound store id c (record c { state = suspended }) now s sound)

pub retire_mirror-IsSound :
    (store : Store) (id : Text) (revision : ℕ) (now : Time) (s : Sharing)
    → IsSound s
    → IsSound (retire_mirror store id revision now s).0
retire_mirror-IsSound store id revision now s sound =
    retire_mirror_cases IsSound store id revision now s sound
      (λ g. saved-IsSound store now _ (replace_grant-IsSound id g s sound))

-- A grant without work in flight may be written, and written again after a save.
put_idle-IsSound :
    (id : Text) (g : ShareGrant) (s : Sharing)
    → IsIdle id s.inflight
    → IsSound s
    → IsSound (put_grant id g s)
put_idle-IsSound id g s idle sound = record {
  current = insert-IsCurrent s.state.grants s.inflight id g idle sound.current;
}

rewrite_idle-IsSound :
    (id : Text) (g : ShareGrant) (s : Sharing)
    → IsIdle id s.inflight
    → IsSound s
    → IsSound (rewrite_grant id g s)
rewrite_idle-IsSound id g s idle sound = record {
  current = insert-IsCurrent s.state.grants s.inflight id g idle sound.current;
}

stopped-IsIdle :
    (id : Text) (g : ShareGrant) (s : Sharing)
    → lookup id s.state.grants ≡ some g
    → is_running g ≡ false
    → IsSound s
    → IsIdle id s.inflight
stopped-IsIdle id g s known stopped sound =
    halted-IsIdle s.state.grants s.inflight id g known stopped sound.current

pub activate_mirror-IsSound :
    (store : Store) (id : Text) (revision : ℕ) (topic : Topic) (now : Time) (s : Sharing)
    → IsSound s
    → IsSound (activate_mirror store id revision topic now s).0
activate_mirror-IsSound store id revision topic now s sound =
    activate_mirror_cases IsSound store id revision topic now s sound
      (λ g g1 s1 known waiting same_grants same_work.
        let idle = stopped-IsIdle id g s known (ground arith) sound in
        let idle1 : IsIdle id s1.inflight = subst (IsIdle id) (sym same_work) idle in
        let sound1 : IsSound s1 =
          Keeps-IsSound s s1 (record { grants = same_grants; inflight = same_work }) sound in
        let s2 = put_grant id g1 s1 in
        let sound2 : IsSound s2 = put_idle-IsSound id g1 s1 idle1 sound1 in
        let k = save_locked-Keeps store now s2 in
        let idle2 : IsIdle id (save_locked store now s2).0.inflight =
          subst (IsIdle id) (sym k.inflight) idle1 in
        let sound3 = saved-IsSound store now s2 sound2 in
        (sound3, rewrite_idle-IsSound id (record g1 { state = needs_repair }) _ idle2 sound3))

pub repair_mirror-IsSound :
    (store : Store) (id : Text) (revision : ℕ) (now : Time) (s : Sharing)
    → IsSound s
    → IsSound (repair_mirror store id revision now s).0
repair_mirror-IsSound store id revision now s sound =
    repair_mirror_cases IsSound store id revision now s sound (λ g known broken.
      let idle = stopped-IsIdle id g s known (ground arith) sound in
      let sound1 : IsSound (delete_mirror id s) = record { current = sound.current } in
      saved-IsSound store now _
        (put_idle-IsSound id (pending_again g) (delete_mirror id s) idle sound1))

pub missing_mirror-IsSound :
    (store : Store) (id : Text) (revision : ℕ) (now : Time) (s : Sharing)
    → IsSound s
    → IsSound (missing_mirror store id revision now s).0
unfolding cancel_locked
missing_mirror-IsSound store id revision now s sound =
    missing_mirror_cases IsSound store id revision now s sound (λ g.
      saved-IsSound store now _
        (record { current = replace-IsCurrent s.state.grants s.inflight id g sound.current }))

pub begin-IsSound :
    (agent : AgentLookup) (ended : Bool) (token : Text) (o : ShareOrigin) (action : ShareAction)
    (now : Time) (s : Sharing)
    → IsSound s
    → IsSound (begin agent ended token o action now s).0
begin-IsSound agent ended token o action now s sound =
    begin_cases IsSound agent ended token o action now s sound (λ g a known permitted.
      let auth = (authorize_exact g (mirror_of s g.id) o a.key action now).0 permitted in
      let here : lookup g.id s.state.grants ≡ some g =
        subst (λ i. lookup i s.state.grants ≡ some g) auth.own_grant known in
      let live = auth.live_grant in
      record {
        current =
            admit-IsCurrent s.state.grants s.inflight g.id token _
              (λ e. record {
                stored = g;
                found = here;
                same_revision = refl;
                running = ground arith;
              })
              sound.current;
      })

pub binding_guard-IsSound :
    (ended : Bool) (token id : Text) (revision : ℕ) (s : Sharing)
    → IsSound s
    → IsSound (binding_guard ended token id revision s).0
binding_guard-IsSound ended token id revision s sound =
    binding_guard_cases IsSound ended token id revision s sound (λ n. record {
      current =
          admit-IsCurrent s.state.grants s.inflight id token _ (λ e. absurd (ground arith))
            sound.current;
    })

pub release-IsSound : (id token : Text) (s : Sharing) → IsSound s → IsSound (release id token s)
unfolding release
release-IsSound id token s sound = elim (Option-cases (lookup id s.inflight)) [
  | inl unknown ↦
      equal-IsSound (release id token s) s.state.grants s.inflight (ground arith) (ground arith)
        sound.current
  | inr (calls, known) ↦
      equal-IsSound (release id token s) s.state.grants (insert id (delete token calls) s.inflight)
        (ground arith) (ground arith)
        (release-IsCurrent s.state.grants s.inflight id token calls known sound.current)
]
