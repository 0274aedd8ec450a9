-- ===== src/State/Inbox/Room.antt =====
-- Room is made within the quotas, and never from the owner's files for a shared one.
use herdr_telegram_agents.Common.{
  ℕ, zero, suc, ◌+◌, ◌-◌, ◌≤◌, ◌<◌, ◌≡◌, refl, sym, subst, ap, ◌⊎◌, inl, inr, Bool, true, false,
  not, ◌&&◌, if◌then◌else◌, List, [], ◌∷◌, arith, leb, select, drop, Bool-cases,
}
use herdr_telegram_agents.State.Inbox.{
  InboxFile, oldest_first, total_size, shared_size, shared_quota, room_loop, make_room, shared_loop,
  make_shared_room,
}

abbrev pub is_owner : InboxFile → Bool
is_owner f = not f.shared

-- The sizes of the files of the owner.
abbrev pub owner_size : List InboxFile → ℕ
owner_size [] = 0
owner_size (f ∷ fs) = let rest = owner_size fs in if f.shared then rest else f.size + rest

owner_size-lem : (fs : List InboxFile) → shared_size fs + owner_size fs ≡ total_size fs
owner_size-lem [] = omega arith
owner_size-lem (f ∷ fs) = ground (arith, owner_size-lem fs)

shared_loop-owner :
    (removable : InboxFile → Bool) (limit need : ℕ) (files : List InboxFile) (shared total : ℕ)
    → select is_owner (shared_loop removable limit need files shared total).0
      ≡ select is_owner files
unfolding shared_loop
shared_loop-owner removable limit need [] shared total = refl
shared_loop-owner removable limit need (f ∷ fs) shared total =
    let a = shared_loop-owner removable limit need fs (shared - f.size) (total - f.size) in
    let b = shared_loop-owner removable limit need fs shared total in ground arith

-- The counters are the sizes of what was passed over and of what stays.
shared_loop-counters :
    (removable : InboxFile → Bool) (limit need : ℕ) (files : List InboxFile) (a b shared total : ℕ)
    → shared ≡ a + shared_size files
    → total ≡ b + total_size files
    → ((shared_loop removable limit need files shared total).1
        ≡ a + shared_size (shared_loop removable limit need files shared total).0)
      × ((shared_loop removable limit need files shared total).2
          ≡ b + total_size (shared_loop removable limit need files shared total).0)
unfolding shared_loop
shared_loop-counters removable limit need [] a b shared total hs ht = (hs, ht)
shared_loop-counters removable limit need (f ∷ fs) a b shared total hs ht =
    elim (Bool-cases f.shared) [
      | inl is_shared ↦
          let gone =
            shared_loop-counters removable limit need fs a b (shared - f.size) (total - f.size)
              (ground arith) (ground arith) in
          let stuck =
            shared_loop-counters removable limit need fs (a + f.size) (b + f.size) shared total
              (ground arith) (ground arith) in
          ground arith
      | inr owned ↦
          let stuck =
            shared_loop-counters removable limit need fs a (b + f.size) shared total (ground arith)
              (ground arith) in
          ground arith
    ]

-- With every removal granted, the loop ends with room if there is any without the shared files.
shared_loop-enough :
    (limit need : ℕ) (files : List InboxFile) (b shared total : ℕ)
    → shared ≡ shared_size files
    → total ≡ b + total_size files
    → need ≤ shared_quota limit
    → b + owner_size files + need ≤ limit
    → ((shared_loop (λ f. true) limit need files shared total).1 + need ≤ shared_quota limit)
      × ((shared_loop (λ f. true) limit need files shared total).2 + need ≤ limit)
unfolding shared_loop
shared_loop-enough limit need [] b shared total hs ht small owner = (ground arith, ground arith)
shared_loop-enough limit need (f ∷ fs) b shared total hs ht small owner =
    elim (Bool-cases f.shared) [
      | inl is_shared ↦
          let gone =
            shared_loop-enough limit need fs b (shared - f.size) (total - f.size) (ground arith)
              (ground arith) small (ground arith) in
          ground arith
      | inr owned ↦
          let stuck =
            shared_loop-enough limit need fs (b + f.size) shared total (ground arith) (ground arith)
              small (ground arith) in
          ground arith
    ]

granted_room :
    (limit need : ℕ) (files : List InboxFile)
    → (make_shared_room (λ f. true) limit need files).1
      ≡ (leb need (shared_quota limit) && leb (owner_size (oldest_first files) + need) limit)
unfolding make_shared_room
granted_room limit need files =
    let s = oldest_first files in
    let sizes = owner_size-lem s in
    let enough =
      shared_loop-enough limit need s 0 (shared_size s) (total_size s) refl (omega arith) in
    elim (Bool-cases (leb need (shared_quota limit))) [
      | inr large ↦ ground arith
      | inl small ↦ elim (Bool-cases (leb (owner_size s + need) limit)) [
        | inr taken ↦ ground arith
        | inl fits ↦ let e = enough (ground arith) (ground arith) in ground arith
      ]
    ]

-- Whatever os.Remove answers, makeSharedRoom leaves every file of the owner, and reports room only
-- if the shared files with the new one fit the shared quota and all files with it fit the total.
-- When every removal is granted, it reports room exactly if the new file fits the shared quota and
-- fits the total beside the files of the owner.
pub make_shared_room_keeps :
    (removable : InboxFile → Bool) (limit need : ℕ) (files : List InboxFile)
    → (select is_owner (make_shared_room removable limit need files).0
        ≡ select is_owner (oldest_first files))
      × (((make_shared_room removable limit need files).1 ≡ false)
          ⊎ ((shared_size (make_shared_room removable limit need files).0 + need
                ≤ shared_quota limit)
              × (total_size (make_shared_room removable limit need files).0 + need ≤ limit)))
      × ((make_shared_room (λ f. true) limit need files).1
          ≡ (leb need (shared_quota limit) && leb (owner_size (oldest_first files) + need) limit))
unfolding make_shared_room
make_shared_room_keeps removable limit need files =
    let s = oldest_first files in
    let o = shared_loop-owner removable limit need s (shared_size s) (total_size s) in
    let c =
      shared_loop-counters removable limit need s 0 0 (shared_size s) (total_size s) (omega arith)
        (omega arith) in
    (ground arith, ground arith, granted_room limit need files)

-- The file in front of a tight list is needed too.
needed_step :
    (limit need n : ℕ) (f : InboxFile) (fs : List InboxFile)
    → limit < total_size (f ∷ fs) + need
    → (n ≡ 0) ⊎ (limit < total_size (drop (n - 1) fs) + need)
    → limit < total_size (drop n (f ∷ fs)) + need
needed_step limit need zero f fs tight needed = tight
needed_step limit need (suc n) f fs tight (inl none_went) = absurd (omega arith)
needed_step limit need (suc n) f fs tight (inr needed) =
    let e : suc n - 1 ≡ n = omega arith in
    subst (λ k. limit < total_size (drop k fs) + need) e needed

-- With every removal granted, the loop drops a number of the oldest files, the last of which was needed.
room_loop-drop :
    (limit need : ℕ) (files : List InboxFile)
    → (n : ℕ) × (room_loop (λ f. true) limit need files (total_size files)
        ≡ (drop n files, total_size (drop n files)))
      × ((n ≡ 0) ⊎ (limit < total_size (drop (n - 1) files) + need))
      × ((limit < need) ⊎ (total_size (drop n files) + need ≤ limit))
unfolding room_loop
room_loop-drop limit need [] = (0, refl, inl refl, ground arith)
room_loop-drop limit need (f ∷ fs) =
    let (n, same, needed, enough) = room_loop-drop limit need fs in
    elim (Bool-cases (leb (total_size (f ∷ fs) + need) limit)) [
      | inl room ↦ (0, ground arith, inl refl, ground arith)
      | inr tight ↦
          let less : total_size (f ∷ fs) - f.size ≡ total_size fs = omega arith in
          let e = ap (room_loop (λ g. true) limit need fs) less in
          let m : suc n - 1 ≡ n = omega arith in
          let front = needed_step limit need n f fs (ground arith) needed in
          (
            suc n,
            ground arith,
            inr (subst (λ k. limit < total_size (drop k (f ∷ fs)) + need) (sym m) front),
            enough,
          )
    ]

-- If a file is not larger than the quota and every removal is granted, makeRoom succeeds: it
-- removes some of the oldest files, after which the new one fits, and would not fit with one of
-- them less.
pub make_room_oldest :
    (limit need : ℕ) (files : List InboxFile)
    → need ≤ limit
    → (n : ℕ) × ((make_room (λ f. true) limit need files) ≡ (drop n (oldest_first files), true))
      × (total_size (drop n (oldest_first files)) + need ≤ limit)
      × ((n ≡ 0) ⊎ (limit < total_size (drop (n - 1) (oldest_first files)) + need))
unfolding make_room
make_room_oldest limit need files fits =
    let (n, same, needed, enough) = room_loop-drop limit need (oldest_first files) in
    let room : total_size (drop n (oldest_first files)) + need ≤ limit = ground arith in
    (n, ground arith, room, needed)
