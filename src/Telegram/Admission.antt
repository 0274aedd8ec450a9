-- ===== src/Telegram/Admission.antt =====
-- internal/adapters/telegram/private_admission.go: what private chats may ask of the bot in a window. The
-- lookup of grantees, the events and the messages that are sent are the caller's.
pub mod Windows
pub mod Budget
pub mod Fairness
use herdr_telegram_agents.Common.{
  ℕ, ◌+◌, ◌-◌, ◌*◌, Bool, true, false, not, ◌&&◌, ◌||◌, Option, none, some, List, [], ◌∷◌, ◌++◌,
  nat_eq, ◌==◌, ltb, leb, if◌then◌else◌, length, elem, drop,
}
use herdr_telegram_agents.Common.Int.{ℤ, int_eq}
use herdr_telegram_agents.Common.GoMap.{GoMap, lookup, insert, delete}
use herdr_telegram_agents.Domain.Mapping.{Time}

abbrev pub private_window : ℕ
private_window = 10 * 1000000000

abbrev pub private_per_actor : ℕ
private_per_actor = 8

abbrev pub private_trusted_total : ℕ
private_trusted_total = 32

abbrev pub private_stranger_total : ℕ
private_stranger_total = 8

abbrev pub capacity_notice_window : ℕ
capacity_notice_window = 600 * 1000000000

abbrev pub capacity_notice_total : ℕ
capacity_notice_total = 8

-- A set holds its members once. A nil map is `none`. The registration, the trust lookup and the start are
-- parameters of the methods.
pub record PrivateIngress : Type 0 where
  pub window : Time
  pub counts : Option (GoMap ℤ ℕ)
  pub total : ℕ
  pub strange : ℕ
  pub busy : List ℤ
  pub seen : List ℤ
  pub first : List ℤ
  pub order : List ℤ
  pub notice_window : Time
  pub noticed : Option (List ℤ)

abbrev pub new_ingress : PrivateIngress
new_ingress = record {
  window = 0;
  counts = none;
  total = 0;
  strange = 0;
  busy = [];
  seen = [];
  first = [];
  order = [];
  notice_window = 0;
  noticed = none;
}

abbrev pub is_made {ℓ} : {A : Type ℓ} → Option A → Bool
is_made none = false
is_made (some a) = true

abbrev pub counts_of : Option (GoMap ℤ ℕ) → GoMap ℤ ℕ
counts_of none = []
counts_of (some counts) = counts

abbrev pub noticed_of : Option (List ℤ) → List ℤ
noticed_of none = []
noticed_of (some actors) = actors

-- m[actor], 0 if it is missing.
abbrev pub count_of : ℤ → GoMap ℤ ℕ → ℕ
count_of actor counts = elim (lookup actor counts) [ none ↦ 0 | some n ↦ n ]

-- The start of a window.
abbrev pub open_window : Time → PrivateIngress → PrivateIngress
open_window now p =
    if not (is_made p.counts) || leb private_window (now - p.window)
    then record p { window = now; counts = some []; busy = []; total = 0; strange = 0 }
    else p

abbrev pub count_actor : ℤ → PrivateIngress → PrivateIngress
count_actor actor p = record p {
  counts = some (insert actor (count_of actor (counts_of p.counts) + 1) (counts_of p.counts));
}

-- The tests of `admitPrivateEvent` in an open window.
unfoldable pub admit_in_window : Bool → ℤ → PrivateIngress → PrivateIngress × Bool
admit_in_window trusted actor p =
    if leb private_per_actor (count_of actor (counts_of p.counts))
    then (p, false)
    else if not trusted
    then if leb private_stranger_total p.strange
      then (p, false)
      else (record (count_actor actor p) { strange = p.strange + 1 }, true)
    else if leb private_trusted_total p.total
    then (p, false)
    else (record (count_actor actor p) { total = p.total + 1 }, true)

-- admitPrivateEvent; without a trust lookup every actor is trusted.
unfoldable pub admit_private_event : Bool → ℤ → Time → PrivateIngress → PrivateIngress × Bool
unfolding admit_in_window
admit_private_event trusted actor now p = admit_in_window trusted actor (open_window now p)

abbrev pub open_notices : Time → PrivateIngress → PrivateIngress
open_notices now p =
    if not (is_made p.noticed) || leb capacity_notice_window (now - p.notice_window)
    then record p { notice_window = now; noticed = some [] }
    else p

-- capacityNoticeAllowed
unfoldable pub capacity_notice_allowed : ℤ → Time → PrivateIngress → PrivateIngress × Bool
capacity_notice_allowed actor now p0 =
    let p = open_notices now p0 in
    let sent = noticed_of p.noticed in
    if elem actor sent || leb capacity_notice_total (length sent)
    then (p, false)
    else (record p { noticed = some (actor ∷ sent) }, true)

-- privateBusy: whether the actor is put in the queue of notices, which may be full.
unfoldable pub private_busy : ℤ → PrivateIngress → PrivateIngress × Bool
private_busy actor p =
    if elem actor p.busy || leb 32 (length p.busy)
    then (p, false)
    else (record p { busy = actor ∷ p.busy }, true)

-- delete of a set
unfoldable pub without : ℤ → List ℤ → List ℤ
without a [] = []
without a (x ∷ xs) = let rest = without a xs in if x == a then rest else x ∷ rest

unfoldable pub add : ℤ → List ℤ → List ℤ
add a xs = if elem a xs then xs else a ∷ xs

abbrev pub max_seen : ℕ
max_seen = 4096

unfoldable pub drop_oldest : List ℤ → List ℤ → List ℤ × List ℤ
drop_oldest seen [] = (seen, [])
drop_oldest seen (oldest ∷ order) =
    if ltb max_seen (length (oldest ∷ order))
    then (without oldest seen, order)
    else (seen, oldest ∷ order)

-- `g.private.first[id] = true`, in `admitPrivate` and `onPrivate`.
unfoldable pub note_first : ℤ → PrivateIngress → PrivateIngress
unfolding add
note_first id p = record p { first = add id p.first }

-- The part of `onPrivate` that remembers an update: whether it was the first contact.
unfoldable pub note_seen : ℤ → PrivateIngress → PrivateIngress × Bool
unfolding add without drop_oldest
note_seen id p =
    let (seen, order) = drop_oldest (add id p.seen) (p.order ++ id ∷ []) in
    (record p { seen = seen; order = order; first = without id p.first }, elem id p.first)
