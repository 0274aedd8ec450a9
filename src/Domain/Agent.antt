-- ===== src/Domain/Agent.antt =====
-- internal/domain/agent.go: the session tuple and its digest, the agent and its label, and the
-- topic types of internal/domain/topic.go.
pub mod Digest
use herdr_telegram_agents.Common.{
  ℕ, zero, suc, ◌+◌, ◌/◌, ◌%◌, Bool, true, Option, none, some, List, [], ◌∷◌, ◌++◌, ◌&&◌, ◌||◌,
  nat_eq, ltb, if◌then◌else◌, length,
}
use herdr_telegram_agents.Common.Text.{Text}
use herdr_telegram_agents.Encoding.Hex
use herdr_telegram_agents.Encoding.Utf8.{utf8, of_runes}
use herdr_telegram_agents.Domain.Key.{Key, is_empty}
use herdr_telegram_agents.Domain.Status.{Status, display_name}

pub record SessionTuple : Type 0 where
  pub source : Text
  pub agent : Text
  pub kind : Text
  pub value : Text

-- binary.PutUvarint: seven bits a byte, low ones first. The fuel is MaxVarintLen64, the size of
-- the buffer.
unfoldable pub put_uvarint : ℕ → ℕ → Text
put_uvarint zero n = []
put_uvarint (suc room) n =
    let rest = put_uvarint room (n / 128) in if ltb n 128 then n ∷ [] else (n % 128 + 128) ∷ rest

abbrev pub max_varint_len64 : ℕ
max_varint_len64 = 10

-- What one part of the tuple adds to the hash.
abbrev pub frame : Text → Text
frame part = put_uvarint max_varint_len64 (length part) ++ part

unfoldable pub hashed : SessionTuple → Text
hashed s = frame s.source ++ (frame s.agent ++ (frame s.kind ++ frame s.value))

abbrev pub is_incomplete : SessionTuple → Bool
is_incomplete s = is_empty s.source || (is_empty s.agent || (is_empty s.kind || is_empty s.value))

-- SessionTuple.Digest, over the hash function of crypto/sha256.
unfoldable pub digest : (Text → Text) → SessionTuple → Text
digest sha256 s = if is_incomplete s then [] else Hex.encode (sha256 (hashed s))

-- `revision` and `state_change_seq` are int64 counters of Herdr, carried along and never computed with.
pub record Agent : Type 0 where
  pub key : Key
  pub workspace_id : Text
  pub workspace_label : Text
  pub tab_id : Text
  pub tab_label : Text
  pub kind : Text
  pub name : Text
  pub title : Text
  pub status : Status
  pub revision : ℕ
  pub state_change_seq : ℕ
  pub focused : Bool
  pub cwd : Text

abbrev pub label_separator : Text
unfolding of_runes
label_separator = utf8 " · "

abbrev pub or_else : Text → Text → Text
or_else a b = if is_empty a then b else a

-- Agent.Label
unfoldable pub label : Agent → Text
label a =
    let ws = or_else a.workspace_label a.workspace_id in
    let who = or_else (or_else a.name a.tab_label) a.kind in
    if is_empty ws then who else if is_empty who then ws else ws ++ (label_separator ++ who)

-- Desired of internal/domain/mapping.go: the name and the status that a topic should have.
unfoldable pub desired : Agent → Text × Status
desired a = (display_name (label a), a.status)
