-- ===== src/App/Sharing/Kept.antt =====
-- The calls that leave every grant and the work in flight as they are.
use herdr_telegram_agents.Common.{
  ℕ, ◌+◌, ◌%◌, ◌^◌, ◌≡◌, refl, Bool, true, ◌⊎◌, inl, inr, arith, nat_eq, Option-cases,
}
use herdr_telegram_agents.Common.Text.{Text, text_eq}
use herdr_telegram_agents.Common.Int.{ℤ, pos, int_eq}
use herdr_telegram_agents.Common.GoMap.{lookup, insert, delete}
use herdr_telegram_agents.Domain.Mapping.{Time}
use herdr_telegram_agents.Domain.Access.{ShareOrigin}
use herdr_telegram_agents.Domain.Sharing.{TopicAddress, MirrorPreferences, grant_state_eq}
use herdr_telegram_agents.Domain.Sharing.State.{MessageAddress}
use herdr_telegram_agents.App.Sharing.{
  Sharing, Store, SaveOutcome, saved, full, failed, save_locked, register, new_contact_allowed,
  flush, new_recipient, seen_again, put_recipient, bounded_contact,
}
use herdr_telegram_agents.App.Sharing.Contacts.{
  observe_update, reachability, hide_recipient, service_topic, dashboard, repair_service,
}
use herdr_telegram_agents.App.Sharing.Mirrors.{
  prepare_mirror, preferences, record_output, forget_mirror, zero_mirror, put_mirror, max_alias,
  delete_mirror, mirror_of,
}

-- A change that leaves the grants and the work in flight.
pub record Keeps (s s' : Sharing) : Type 0 where
  pub grants : s'.state.grants ≡ s.state.grants
  pub inflight : s'.inflight ≡ s.inflight

pub outcome_cases : (o : SaveOutcome) → (o ≡ saved) ⊎ (o ≡ full) ⊎ (o ≡ failed)
outcome_cases saved = inl refl
outcome_cases full = inr (inl refl)
outcome_cases failed = inr (inr refl)

pub save_locked-Keeps :
    (store : Store) (now : Time) (s : Sharing) → Keeps s (save_locked store now s).0
unfolding save_locked
save_locked-Keeps store now s =
    let o = outcome_cases (store (record s.state { revision = (s.state.revision + 1) % 2 ^ 64 })) in
    record { grants = ground arith; inflight = ground arith }

pub register-Keeps :
    (store : Store) (id chat_id : ℤ) (name username : Text) (now : Time) (s : Sharing)
    → Keeps s (register store id chat_id name username now s).0
unfolding register new_contact_allowed
register-Keeps store id chat_id name username now s =
    let s1 = (new_contact_allowed now s).0 in
    let k =
      save_locked-Keeps store now
        (put_recipient id (seen_again name username now (new_recipient id now)) s1) in
    record { grants = ground (arith, k.grants); inflight = ground (arith, k.inflight) }

pub flush-Keeps :
    (store : Store) (now : Time) (force : Bool) (s : Sharing) → Keeps s (flush store now force s).0
unfolding flush
flush-Keeps store now force s =
    let k = save_locked-Keeps store now s in
    record { grants = ground (arith, k.grants); inflight = ground (arith, k.inflight) }

pub observe_update-Keeps : (id : ℤ) (s : Sharing) → Keeps s (observe_update id s)
unfolding observe_update
observe_update-Keeps id s = record { grants = ground arith; inflight = ground arith }

pub reachability-Keeps :
    (store : Store) (id : ℤ) (away : Bool) (now : Time) (s : Sharing)
    → Keeps s (reachability store id away now s).0
unfolding reachability
reachability-Keeps store id away now s = elim (Option-cases (lookup id s.state.recipients)) [
  | inl unknown ↦ record { grants = ground arith; inflight = ground arith }
  | inr (r, known) ↦
      let k = save_locked-Keeps store now (put_recipient id (record r { unavailable = away }) s) in
      record { grants = ground (arith, k.grants); inflight = ground (arith, k.inflight) }
]

pub hide_recipient-Keeps :
    (store : Store) (id : ℤ) (hidden : Bool) (now : Time) (s : Sharing)
    → Keeps s (hide_recipient store id hidden now s).0
unfolding hide_recipient
hide_recipient-Keeps store id hidden now s = elim (Option-cases (lookup id s.state.recipients)) [
  | inl unknown ↦ record { grants = ground arith; inflight = ground arith }
  | inr (r, known) ↦
      let k = save_locked-Keeps store now (put_recipient id (record r { hidden = hidden }) s) in
      record { grants = ground (arith, k.grants); inflight = ground (arith, k.inflight) }
]

pub service_topic-Keeps :
    (store : Store) (id : ℤ) (address : TopicAddress) (now : Time) (s : Sharing)
    → Keeps s (service_topic store id address now s).0
unfolding service_topic
service_topic-Keeps store id address now s =
    let k = save_locked-Keeps store now (record s {
      state = record s.state { service_topics = insert id address s.state.service_topics };
      dirty = true;
    }) in
    record { grants = ground (arith, k.grants); inflight = ground (arith, k.inflight) }

pub dashboard-Keeps :
    (store : Store) (id : ℤ) (address : MessageAddress) (now : Time) (s : Sharing)
    → Keeps s (dashboard store id address now s).0
unfolding dashboard
dashboard-Keeps store id address now s =
    let gone = delete id s.state.dashboards in
    let k =
      save_locked-Keeps store now
        (record s { state = record s.state { dashboards = gone }; dirty = true }) in
    let written = insert id address s.state.dashboards in
    let k' =
      save_locked-Keeps store now
        (record s { state = record s.state { dashboards = written }; dirty = true }) in
    record {
      grants = ground (arith, k.grants, k'.grants);
      inflight = ground (arith, k.inflight, k'.inflight);
    }

pub repair_service-Keeps :
    (store : Store) (id : ℤ) (now : Time) (s : Sharing) → Keeps s (repair_service store id now s).0
unfolding repair_service
repair_service-Keeps store id now s = elim (Option-cases (lookup id s.state.service_topics)) [
  | inl unknown ↦ record { grants = ground arith; inflight = ground arith }
  | inr (a, known) ↦
      let k = save_locked-Keeps store now (record s {
        state = record s.state {
          service_topics = delete id s.state.service_topics;
          dashboards = delete id s.state.dashboards;
        };
        dirty = true;
      }) in
      record { grants = ground (arith, k.grants); inflight = ground (arith, k.inflight) }
]

pub prepare_mirror-Keeps :
    (store : Store) (fresh id : Text) (revision : ℕ) (now : Time) (s : Sharing)
    → Keeps s (prepare_mirror store fresh id revision now s).0
unfolding prepare_mirror
prepare_mirror-Keeps store fresh id revision now s =
    elim (Option-cases (lookup id s.state.grants)) [
      | inl unknown ↦ record { grants = ground arith; inflight = ground arith }
      | inr (g, known) ↦
          let m = record zero_mirror {
            grant_id = id;
            address = record { chat_id = g.recipient_id; thread_id = pos 0 };
            creating = true;
            navigation_id = fresh;
          } in
          let k = save_locked-Keeps store now (put_mirror id m s) in
          record { grants = ground (arith, k.grants); inflight = ground (arith, k.inflight) }
    ]

pub preferences-Keeps :
    (store : Store) (o : ShareOrigin) (p : MirrorPreferences) (now : Time) (s : Sharing)
    → Keeps s (preferences store o p now s).0
unfolding preferences
preferences-Keeps store o p now s = elim (Option-cases (lookup o.grant_id s.state.grants)) [
  | inl unknown ↦ record { grants = ground arith; inflight = ground arith }
  | inr (g, known) ↦
      let p1 = record p { alias = bounded_contact p.alias max_alias } in
      let m = record (mirror_of s o.grant_id) { preferences = p1 } in
      let k = save_locked-Keeps store now (put_mirror o.grant_id m s) in
      record { grants = ground (arith, k.grants); inflight = ground (arith, k.inflight) }
]

pub record_output-Keeps :
    (o : ShareOrigin) (hash : Text) (keyboard : ℤ) (s : Sharing)
    → Keeps s (record_output o hash keyboard s)
unfolding record_output
record_output-Keeps o hash keyboard s = elim (Option-cases (lookup o.grant_id s.state.grants)) [
  | inl unknown ↦ record { grants = ground arith; inflight = ground arith }
  | inr (g, known) ↦ record { grants = ground arith; inflight = ground arith }
]

pub forget_mirror-Keeps :
    (store : Store) (id : Text) (revision : ℕ) (now : Time) (s : Sharing)
    → Keeps s (forget_mirror store id revision now s).0
unfolding forget_mirror
forget_mirror-Keeps store id revision now s = elim (Option-cases (lookup id s.state.grants)) [
  | inl unknown ↦ record { grants = ground arith; inflight = ground arith }
  | inr (g, known) ↦
      let k = save_locked-Keeps store now (delete_mirror id s) in
      record { grants = ground (arith, k.grants); inflight = ground (arith, k.inflight) }
]
