-- ===== src/State/SharingStore.antt =====
-- internal/adapters/state/sharing_store.go: the file of the sharing state. A file that is written is read
-- back as the state that was encoded; the size of an encoding, the outcome of a write and the end of a
-- context are parameters.
pub mod Safety
use herdr_telegram_agents.Common.{
  ℕ, ◌*◌, Bool, true, false, not, ◌||◌, Option, none, some, ltb, leb, if◌then◌else◌,
}
use herdr_telegram_agents.Domain.Sharing.State.{SharingState, new_sharing_state, validate}
use herdr_telegram_agents.App.Sharing.{SaveOutcome, saved, full, failed}

-- What stands in the file: none, one that cannot be opened, one that cannot be decoded or is too long, or a
-- state.
pub data Content : Type 0 where
  missing unreadable undecodable : Content
  decoded : SharingState → Content

pub record SharingStore : Type 0 where
  pub blocked : Bool
  pub loaded : Bool
  pub revision : ℕ
  pub content : Content

-- NewSharingStore, over a file
unfoldable pub new_sharing_store : Content → SharingStore
new_sharing_store content = record {
  blocked = false;
  loaded = false;
  revision = 0;
  content = content;
}

-- The end of `Load` for a file that could be opened.
unfoldable pub loaded_from : Content → SharingStore → SharingStore × Option SharingState
loaded_from missing s = (record s { loaded = true }, some new_sharing_state)
loaded_from unreadable s = (record s { blocked = true }, none)
loaded_from undecodable s = (record s { blocked = true }, none)
loaded_from (decoded st) s =
    if validate st
    then (record s { loaded = true; revision = st.revision }, some st)
    else (record s { blocked = true }, none)

-- Load; `none` is an error.
unfoldable pub load : Bool → SharingStore → SharingStore × Option SharingState
unfolding loaded_from
load ended s = if ended then (s, none) else loaded_from s.content s

abbrev pub max_sharing_bytes : ℕ
max_sharing_bytes = 8 * 1048576

-- The end of `Save`: `size` is `none` when the state cannot be encoded.
pub write : Option ℕ → Bool → SharingState → SharingStore → SharingStore × SaveOutcome
write none written st s = (s, failed)
write (some size) written st s =
    if ltb max_sharing_bytes size
    then (s, full)
    else if not written
    then (s, failed)
    else (record s { content = decoded st; revision = st.revision }, saved)

-- Save
unfoldable pub save :
    (SharingState → Option ℕ)
    → Bool
    → Bool
    → SharingState
    → SharingStore
    → SharingStore × SaveOutcome
unfolding write
save size ended written st s =
    if ended || s.blocked || not s.loaded || not (validate st) || leb st.revision s.revision
    then (s, failed)
    else write (size st) written st s
