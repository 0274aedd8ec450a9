-- ===== src/State/SharingStore/Safety.antt =====
-- The file is never reset, never holds an invalid state, and follows the manager of the shares.
use herdr_telegram_agents.Common.{
  ℕ, ◌+◌, ◌%◌, ◌^◌, ◌≤◌, ◌≡◌, ◌≢◌, refl, ◌⊎◌, inl, inr, Bool, true, false, not, ◌&&◌, Option, none,
  arith, nat_eq, ◌==◌, if◌then◌else◌, Bool-cases, Option-cases,
}
use herdr_telegram_agents.Domain.Mapping.{Time}
use herdr_telegram_agents.Domain.Sharing.{max_uint64}
use herdr_telegram_agents.Domain.Sharing.State.{SharingState, validate}
use herdr_telegram_agents.App.Sharing.{Sharing, SharingError, save_locked}
use herdr_telegram_agents.State.SharingStore.{
  Content, missing, unreadable, undecodable, decoded, SharingStore, new_sharing_store, load, save,
  loaded_from, write,
}

-- The stores that calls of `Load` and `Save` make over a file.
pub data Run (c : Content) : SharingStore → Type 0 where
  opened : Run c (new_sharing_store c)
  loading : {s : SharingStore} → Run c s → (ended : Bool) → Run c (load ended s).0
  saving :
      {s : SharingStore}
      → Run c s
      → (size : SharingState → Option ℕ) (ended written : Bool) (st : SharingState)
      → Run c (save size ended written st s).0

-- A file that no load accepts.
abbrev pub is_corrupt : Content → Bool
is_corrupt missing = false
is_corrupt unreadable = true
is_corrupt undecodable = true
is_corrupt (decoded st) = not (validate st)

-- The file holds what the revision says.
abbrev pub is_settled : ℕ → Content → Bool
is_settled revision missing = revision == 0
is_settled revision unreadable = false
is_settled revision undecodable = false
is_settled revision (decoded st) = validate st && st.revision == revision

-- A corrupt file is not touched; otherwise the file is settled once it was loaded.
record IsCareful (c : Content) (s : SharingStore) : Type 0 where
  corrupt : (is_corrupt c ≡ false) ⊎ ((s.content ≡ c) × (s.loaded ≡ false))
  settled : (s.loaded ≡ false) ⊎ (is_settled s.revision s.content ≡ true)
  fresh : (s.loaded ≡ true) ⊎ (s.revision ≡ 0)

content_cases :
    (c : Content)
    → (c ≡ missing)
      ⊎ (c ≡ unreadable)
      ⊎ (c ≡ undecodable)
      ⊎ ((st : SharingState) × (c ≡ decoded st))
content_cases missing = inl refl
content_cases unreadable = inr (inl refl)
content_cases undecodable = inr (inr (inl refl))
content_cases (decoded st) = inr (inr (inr (st, refl)))

load-IsCareful :
    (c : Content) (ended : Bool) (s : SharingStore) → IsCareful c s → IsCareful c (load ended s).0
unfolding load loaded_from
load-IsCareful c ended s k =
    let cases = content_cases s.content in
    let a = k.corrupt in
    let b = k.settled in
    let f = k.fresh in
    record { corrupt = ground arith; settled = ground arith; fresh = ground arith }

save-IsCareful :
    (c : Content) (size : SharingState → Option ℕ) (ended written : Bool) (st : SharingState)
    (s : SharingStore)
    → IsCareful c s
    → IsCareful c (save size ended written st s).0
unfolding save write
save-IsCareful c size ended written st s k =
    let o = Option-cases (size st) in
    let a = k.corrupt in
    let b = k.settled in
    let f = k.fresh in
    record { corrupt = ground arith; settled = ground arith; fresh = ground arith }

Run-IsCareful : (c : Content) (s : SharingStore) → Run c s → IsCareful c s
unfolding new_sharing_store
Run-IsCareful c _ opened = record {
  corrupt = let b = Bool-cases (is_corrupt c) in ground arith;
  settled = inl refl;
  fresh = inr refl;
}
Run-IsCareful c _ (loading {s = s} r ended) = load-IsCareful c ended s (Run-IsCareful c s r)
Run-IsCareful c _ (saving {s = s} r size ended written st) =
    save-IsCareful c size ended written st s (Run-IsCareful c s r)

-- Whatever loads and saves follow, a sharing file that cannot be opened, decoded or validated is
-- never written.
pub corrupt_file_kept :
    (c : Content) (s : SharingStore)
    → Run c s
    → is_corrupt c ≡ true
    → (s.content ≡ c) × (s.loaded ≡ false)
corrupt_file_kept c s r corrupt = let k = (Run-IsCareful c s r).corrupt in ground arith

-- Whatever loads and saves came before, once a load succeeded there is no file and the revision is
-- 0, or the file holds a valid state at the revision that the store remembers.
pub loaded_file_settled :
    (c : Content) (s : SharingStore)
    → Run c s
    → s.loaded ≡ true
    → is_settled s.revision s.content ≡ true
loaded_file_settled c s r loaded = let k = (Run-IsCareful c s r).settled in ground arith

-- The manager saves through the store: the state that it hands over, and the store after that. At the last
-- revision it does not call the store.
abbrev pub next_of : Sharing → SharingState
next_of m = record m.state { revision = (m.state.revision + 1) % 2 ^ 64 }

abbrev pub manager_after :
    (SharingState → Option ℕ)
    → Bool
    → Bool
    → Time
    → Sharing
    → SharingStore
    → Sharing × Option SharingError
manager_after size ended written now m s =
    save_locked (λ st. (save size ended written st s).1) now m

abbrev pub store_after :
    (SharingState → Option ℕ) → Bool → Bool → Sharing → SharingStore → SharingStore
store_after size ended written m s =
    if m.state.revision == max_uint64 then s else (save size ended written (next_of m) s).0

-- If the store of the shares is not ahead of the manager, a save either succeeds, and the file
-- then holds exactly the policy of the manager, which is the old one at the next revision and
-- valid; or it reports an error, and neither the policy nor the store changed.
pub save_locked_atomic :
    (size : SharingState → Option ℕ) (ended written : Bool) (now : Time) (m : Sharing)
    (s : SharingStore)
    → s.revision ≤ m.state.revision
    → m.state.revision ≤ max_uint64
    → (((manager_after size ended written now m s).1 ≡ none)
        × ((manager_after size ended written now m s).0.state
            ≡ record m.state { revision = m.state.revision + 1 })
        × ((store_after size ended written m s).content
            ≡ decoded (manager_after size ended written now m s).0.state)
        × ((store_after size ended written m s).revision
            ≡ (manager_after size ended written now m s).0.state.revision)
        × (validate (manager_after size ended written now m s).0.state ≡ true))
      ⊎ (((manager_after size ended written now m s).1 ≢ none)
          × ((manager_after size ended written now m s).0.state ≡ m.state)
          × (store_after size ended written m s ≡ s))
unfolding save_locked save write
save_locked_atomic size ended written now m s behind fits =
    let o = Option-cases (size (next_of m)) in
    elim (nat_eq.dec m.state.revision max_uint64) [
      | yes last ↦ inr (ground arith, ground arith, ground arith)
      | no more ↦
          let wraps : (m.state.revision + 1) % 2 ^ 64 ≡ m.state.revision + 1 = omega arith in
          ground arith
    ]
