-- ===== src/App/Sharing/Current.antt =====
-- Work in flight is work of the current revision of its grant.
use herdr_telegram_agents.Common.{
  ◌≡◌, sym, subst, ap, ◌∙◌, Bool, true, false, ◌||◌, none, some, [], arith, nat_eq, ◌==◌,
}
use herdr_telegram_agents.Common.Text.{Text, text_eq}
use herdr_telegram_agents.Common.GoMap.{GoMap, lookup, insert, delete, lookup-insert, lookup-delete}
use herdr_telegram_agents.Domain.Sharing.{ShareGrant, grant_state_eq, active, suspended}
use herdr_telegram_agents.App.Sharing.{Call}

-- A state in which work may be in flight.
abbrev pub is_running : ShareGrant → Bool
is_running g = g.state == active || g.state == suspended

abbrev pub calls_in : GoMap Text (GoMap Text Call) → Text → GoMap Text Call
calls_in flying id = elim (lookup id flying) [ none ↦ [] | some calls ↦ calls ]

-- The grant stands at the revision at which the call was let through.
pub record IsCurrentCall (grants : GoMap Text ShareGrant) (id : Text) (c : Call) : Type 0 where
  pub stored : ShareGrant
  pub found : lookup id grants ≡ some stored
  pub same_revision : stored.revision ≡ c.admitted
  pub running : is_running stored ≡ true

abbrev pub IsCurrent : GoMap Text ShareGrant → GoMap Text (GoMap Text Call) → Type 0
IsCurrent grants flying =
    (id token : Text) (c : Call)
    → lookup token (calls_in flying id) ≡ some c
    → c.is_dispatch ≡ true
    → IsCurrentCall grants id c

-- No dispatch is in flight for the grant.
abbrev pub IsIdle : Text → GoMap Text (GoMap Text Call) → Type 0
IsIdle id flying =
    (token : Text) (c : Call)
    → lookup token (calls_in flying id) ≡ some c
    → c.is_dispatch ≡ true
    → ⊥

pub halted-IsIdle :
    (grants : GoMap Text ShareGrant) (flying : GoMap Text (GoMap Text Call)) (id : Text)
    (g : ShareGrant)
    → lookup id grants ≡ some g
    → is_running g ≡ false
    → IsCurrent grants flying
    → IsIdle id flying
halted-IsIdle grants flying id g found stopped current token c has_call dispatch =
    let k = current id token c has_call dispatch in
    let same : k.stored ≡ g = ground (arith, k.found) in
    let running = subst (λ x. is_running x ≡ true) same k.running in ground arith

pub delete-IsIdle :
    (flying : GoMap Text (GoMap Text Call)) (id : Text) → IsIdle id (delete id flying)
delete-IsIdle flying id token c has_call dispatch =
    let e = lookup-delete id id flying in ground arith

-- A grant that is idle may be written.
pub insert-IsCurrent :
    (grants : GoMap Text ShareGrant) (flying : GoMap Text (GoMap Text Call)) (id : Text)
    (g : ShareGrant)
    → IsIdle id flying
    → IsCurrent grants flying
    → IsCurrent (insert id g grants) flying
insert-IsCurrent grants flying id g idle current j token c has_call dispatch =
    elim (text_eq.dec id j) [
      | yes same ↦ absurd (
          idle token c (subst (λ k. lookup token (calls_in flying k) ≡ some c) (sym same) has_call)
            dispatch)
      | no other ↦
          let k = current j token c has_call dispatch in
          record {
            stored = k.stored;
            found = let e = lookup-insert id j g grants in ground (arith, k.found);
            same_revision = k.same_revision;
            running = k.running;
          }
    ]

pub delete-IsCurrent :
    (grants : GoMap Text ShareGrant) (flying : GoMap Text (GoMap Text Call)) (id : Text)
    → IsCurrent grants flying
    → IsCurrent grants (delete id flying)
delete-IsCurrent grants flying id current j token c has_call dispatch =
    let e = lookup-delete id j flying in
    elim (text_eq.dec id j) [
      | yes same ↦ absurd (ground arith)
      | no other ↦ current j token c (ground arith) dispatch
    ]

-- A grant that is replaced, and whose work is called off.
pub replace-IsCurrent :
    (grants : GoMap Text ShareGrant) (flying : GoMap Text (GoMap Text Call)) (id : Text)
    (g : ShareGrant)
    → IsCurrent grants flying
    → IsCurrent (insert id g grants) (delete id flying)
replace-IsCurrent grants flying id g current =
    insert-IsCurrent grants (delete id flying) id g (delete-IsIdle flying id)
      (delete-IsCurrent grants flying id current)

-- A grant that stays at its revision, in a state in which work may be in flight.
pub insert-IsCurrent_same :
    (grants : GoMap Text ShareGrant) (flying : GoMap Text (GoMap Text Call)) (id : Text)
    (g' : ShareGrant)
    → ((g : ShareGrant) → lookup id grants ≡ some g → g'.revision ≡ g.revision)
    → is_running g' ≡ true
    → IsCurrent grants flying
    → IsCurrent (insert id g' grants) flying
insert-IsCurrent_same grants flying id g' same running current j token c has_call dispatch =
    let k = current j token c has_call dispatch in
    let e = lookup-insert id j g' grants in
    elim (text_eq.dec id j) [
      | yes here ↦ record {
        stored = g';
        found = ground arith;
        same_revision =
            same k.stored (subst (λ i. lookup i grants ≡ some k.stored) (sym here) k.found)
            ∙ k.same_revision;
        running = running;
      }
      | no other ↦ record {
        stored = k.stored;
        found = ground (arith, k.found);
        same_revision = k.same_revision;
        running = k.running;
      }
    ]

-- One more call, at the revision of a grant that may have work in flight.
pub admit-IsCurrent :
    (grants : GoMap Text ShareGrant) (flying : GoMap Text (GoMap Text Call)) (id token : Text)
    (c : Call)
    → (c.is_dispatch ≡ true → IsCurrentCall grants id c)
    → IsCurrent grants flying
    → IsCurrent grants (insert id (insert token c (calls_in flying id)) flying)
admit-IsCurrent grants flying id token c fits current j other_token d has_call dispatch =
    let e = lookup-insert id j (insert token c (calls_in flying id)) flying in
    elim (text_eq.dec id j) [
      | yes here ↦
          let e1 = lookup-insert token other_token c (calls_in flying id) in
          elim (text_eq.dec token other_token) [
            | yes new ↦
                let same : c ≡ d = ground arith in
                let k = fits (ap (λ x. x.is_dispatch) same ∙ dispatch) in
                subst (λ i. IsCurrentCall grants i d) here (subst (IsCurrentCall grants id) same k)
            | no old ↦
                let there : lookup other_token (calls_in flying id) ≡ some d = ground arith in
                subst (λ i. IsCurrentCall grants i d) here (current id other_token d there dispatch)
          ]
      | no other ↦ current j other_token d (ground arith) dispatch
    ]

-- One call fewer.
pub release-IsCurrent :
    (grants : GoMap Text ShareGrant) (flying : GoMap Text (GoMap Text Call)) (id token : Text)
    (calls : GoMap Text Call)
    → lookup id flying ≡ some calls
    → IsCurrent grants flying
    → IsCurrent grants (insert id (delete token calls) flying)
release-IsCurrent grants flying id token calls known current j other_token d has_call dispatch =
    let e = lookup-insert id j (delete token calls) flying in
    let e1 = lookup-delete token other_token calls in
    elim (text_eq.dec id j) [
      | yes here ↦
          let there : lookup other_token (calls_in flying id) ≡ some d = ground arith in
          subst (λ i. IsCurrentCall grants i d) here (current id other_token d there dispatch)
      | no other ↦ current j other_token d (ground arith) dispatch
    ]
