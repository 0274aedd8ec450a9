-- ===== src/Domain/Agent/Digest.antt =====
-- The bytes that a session digest hashes determine the tuple.
use herdr_telegram_agents.Common.{
  ℕ, zero, suc, ◌/◌, ◌%◌, ◌≤◌, ◌<◌, ◌^◌, ◌≡◌, refl, sym, ◌∙◌, inl, inr, [], ◌∷◌, ◌++◌, arith, ltb,
  length, Bool-cases,
}
use mathlib.Core.List.{append_assoc, append-nil}
use herdr_telegram_agents.Common.Text.{Text}
use herdr_telegram_agents.Domain.Agent.{SessionTuple, max_varint_len64, put_uvarint, frame, hashed}

-- `room` bytes hold the number.
abbrev Fits : ℕ → ℕ → Type 0
Fits zero n = ⊥
Fits (suc room) n = (128 ≤ n → Fits room (n / 128))

put_uvarint-prefix :
    (room n m : ℕ) (a b : Text)
    → Fits room n
    → Fits room m
    → put_uvarint room n ++ a ≡ put_uvarint room m ++ b
    → (n ≡ m) × (a ≡ b)
unfolding put_uvarint
put_uvarint-prefix zero n m a b f g h = absurd f
put_uvarint-prefix (suc room) n m a b f g h = elim (Bool-cases (ltb n 128)) [
  | inl small ↦ elim (Bool-cases (ltb m 128)) [
    | inl small' ↦ ground arith
    | inr big' ↦ ground arith
  ]
  | inr big ↦ elim (Bool-cases (ltb m 128)) [
    | inl small' ↦ ground arith
    | inr big' ↦
        let low : n % 128 ≡ m % 128 = ground arith in
        let (high, same) =
          put_uvarint-prefix room (n / 128) (m / 128) a b (f (ground arith)) (g (ground arith))
            (ground arith) in
        (omega arith, same)
  ]
]

append-cancel : (s t a b : Text) → length s ≡ length t → s ++ a ≡ t ++ b → (s ≡ t) × (a ≡ b)
append-cancel [] [] a b e h = (refl, h)
append-cancel [] (y ∷ t) a b e h = absurd (omega arith)
append-cancel (x ∷ s) [] a b e h = absurd (omega arith)
append-cancel (x ∷ s) (y ∷ t) a b e h =
    let ih = append-cancel s t a b (omega arith) (ground arith) in ground arith

-- Go's `len` is an int, so it fits the ten bytes.
abbrev FitsInt : Text → Type 0
FitsInt s = length s < 2 ^ 63

FitsInt-Fits : (s : Text) → FitsInt s → Fits 10 (length s)
FitsInt-Fits s h a b c d e f g i j k = omega arith

append_assoc_back : (a b c : Text) → (a ++ b) ++ c ≡ a ++ (b ++ c)
append_assoc_back a b c = append_assoc a b c

frame-prefix :
    (s t a b : Text) → FitsInt s → FitsInt t → frame s ++ a ≡ frame t ++ b → (s ≡ t) × (a ≡ b)
frame-prefix s t a b fs ft h =
    let (sizes, rest) =
      put_uvarint-prefix max_varint_len64 (length s) (length t) (s ++ a) (t ++ b)
        (FitsInt-Fits s fs) (FitsInt-Fits t ft)
        (sym (append_assoc_back (put_uvarint max_varint_len64 (length s)) s a)
          ∙ h
          ∙ append_assoc_back (put_uvarint max_varint_len64 (length t)) t b) in
    append-cancel s t a b sizes rest

pub record HasGoSizes (s : SessionTuple) : Type 0 where
  pub source_size : FitsInt s.source
  pub agent_size : FitsInt s.agent
  pub kind_size : FitsInt s.kind
  pub value_size : FitsInt s.value

-- Session tuples whose parts have lengths below 2^63 and that give the hash the same bytes are
-- equal.
pub hashed-injective :
    (s t : SessionTuple) → HasGoSizes s → HasGoSizes t → hashed s ≡ hashed t → s ≡ t
unfolding hashed
hashed-injective s t hs ht h =
    let (source, r1) = frame-prefix s.source t.source _ _ hs.source_size ht.source_size h in
    let (agent, r2) = frame-prefix s.agent t.agent _ _ hs.agent_size ht.agent_size r1 in
    let (kind, r3) = frame-prefix s.kind t.kind _ _ hs.kind_size ht.kind_size r2 in
    let (value, _) =
      frame-prefix s.value t.value [] [] hs.value_size ht.value_size
        (append-nil (frame s.value) ∙ r3 ∙ sym (append-nil (frame t.value))) in
    ground arith
