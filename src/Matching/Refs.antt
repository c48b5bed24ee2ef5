-- ===== src/Matching/Refs.antt =====
-- Addresses of rooms: how often one stands in the servers, and what a write through it changes.
use demo_server.Prelude.{
  ℕ, ◌+◌, ◌≤◌, ◌<◌, suc, ◌≡◌, refl, Bool, true, List, [], ◌∷◌, ◌++◌, ◌==◌, if◌then◌else◌, All,
  All-select, All-map, select, length, length-select-le, String, arith,
}
use demo_server.Matching.State.{RoomState, ServerState}
use demo_server.Matching.Rooms.{at_ref, update_room, is_used, prune_empty_rooms}

unfoldable pub count_ref : ℕ → List RoomState → ℕ
count_ref ref [] = 0
count_ref ref (r ∷ rs) = let rest = count_ref ref rs in if r.ref == ref then suc rest else rest

unfoldable pub occurrences : ℕ → List ServerState → ℕ
unfolding count_ref
occurrences ref [] = 0
occurrences ref (s ∷ ss) = count_ref ref s.rooms + occurrences ref ss

-- What a server keeps for good.
pub record ServerTag : Type 0 where
  pub id : String
  pub addr : String
  pub max_players : ℕ

abbrev pub tag : ServerState → ServerTag
tag s = record { id = s.id; addr = s.addr; max_players = s.max_players }

-- A property of every room with its server.
abbrev pub AllRooms : (ServerTag → RoomState → Type 0) → List ServerState → Type 0
AllRooms P ss = All (λ s. All (P (tag s)) s.rooms) ss

module _ (ref : ℕ) (f : RoomState → RoomState) where
  pub All-at_ref :
      (P Q : RoomState → Type 0) (rs : List RoomState)
      → ((r : RoomState) → P r → Q (if r.ref == ref then f r else r))
      → All P rs
      → All Q (at_ref ref f rs)
  unfolding at_ref
  All-at_ref P Q [] h a = tt
  All-at_ref P Q (r ∷ rs) h a = (h r a.0, All-at_ref P Q rs h a.1)

  count_ref-at_ref :
      (x : ℕ) (rs : List RoomState)
      → ((r : RoomState) → (f r).ref ≡ r.ref)
      → count_ref x (at_ref ref f rs) ≡ count_ref x rs
  unfolding at_ref count_ref
  count_ref-at_ref x [] h = refl
  count_ref-at_ref x (r ∷ rs) h = ground (arith, h r, count_ref-at_ref x rs h)

  pub occurrences-update :
      (x : ℕ) (ss : List ServerState)
      → ((r : RoomState) → (f r).ref ≡ r.ref)
      → occurrences x (update_room ref f ss) ≡ occurrences x ss
  unfolding update_room occurrences
  occurrences-update x [] h = refl
  occurrences-update x (s ∷ ss) h =
      omega (arith, count_ref-at_ref x s.rooms h, occurrences-update x ss h)

module _ (x : ℕ) where
  count_ref-select_le :
      (p : RoomState → Bool) (rs : List RoomState) → count_ref x (select p rs) ≤ count_ref x rs
  unfolding count_ref
  count_ref-select_le p [] = omega arith
  count_ref-select_le p (r ∷ rs) = ground (arith, count_ref-select_le p rs)

  count_ref-select :
      (p : RoomState → Bool) (rs : List RoomState)
      → All (λ r. r.ref ≡ x → p r ≡ true) rs
      → count_ref x (select p rs) ≡ count_ref x rs
  unfolding count_ref
  count_ref-select p [] h = refl
  count_ref-select p (r ∷ rs) h = ground (arith, h.0, count_ref-select p rs h.1)

  pub occurrences-prune_le :
      (ss : List ServerState) → occurrences x (prune_empty_rooms ss) ≤ occurrences x ss
  unfolding prune_empty_rooms occurrences
  occurrences-prune_le [] = omega arith
  occurrences-prune_le (s ∷ ss) =
      omega (arith, count_ref-select_le is_used s.rooms, occurrences-prune_le ss)

  -- A room that holds a reservation is not pruned.
  pub occurrences-prune :
      (ss : List ServerState)
      → AllRooms (λ s r. r.ref ≡ x → is_used r ≡ true) ss
      → occurrences x (prune_empty_rooms ss) ≡ occurrences x ss
  unfolding prune_empty_rooms occurrences
  occurrences-prune [] h = refl
  occurrences-prune (s ∷ ss) h =
      omega (arith, count_ref-select is_used s.rooms h.0, occurrences-prune ss h.1)

  -- An address that stands nowhere is no room's.
  pub All-of_count_zero :
      (P : RoomState → Type 0) (rs : List RoomState)
      → count_ref x rs ≡ 0
      → All (λ r. r.ref ≡ x → P r) rs
  unfolding count_ref
  All-of_count_zero P [] h = tt
  All-of_count_zero P (r ∷ rs) h =
      (λ e. absurd (ground arith), All-of_count_zero P rs (ground arith))

  pub AllRooms-of_occurrences_zero :
      (P : ServerTag → RoomState → Type 0) (ss : List ServerState)
      → occurrences x ss ≡ 0
      → AllRooms (λ s r. r.ref ≡ x → P s r) ss
  unfolding occurrences
  AllRooms-of_occurrences_zero P [] h = tt
  AllRooms-of_occurrences_zero P (s ∷ ss) h = (
    All-of_count_zero (P (tag s)) s.rooms (omega arith),
    AllRooms-of_occurrences_zero P ss (omega arith),
  )

  pub count_ref-append :
      (rs qs : List RoomState) → count_ref x (rs ++ qs) ≡ count_ref x rs + count_ref x qs
  unfolding count_ref
  count_ref-append [] qs = omega arith
  count_ref-append (r ∷ rs) qs = ground (arith, count_ref-append rs qs)

pub AllRooms-prune :
    (P : ServerTag → RoomState → Type 0) (ss : List ServerState)
    → AllRooms P ss
    → AllRooms P (prune_empty_rooms ss)
unfolding prune_empty_rooms
AllRooms-prune P [] h = tt
AllRooms-prune P (s ∷ ss) h = (All-select (P (tag s)) is_used s.rooms h.0, AllRooms-prune P ss h.1)

pub AllRooms-update :
    (P Q : ServerTag → RoomState → Type 0) (ref : ℕ) (f : RoomState → RoomState)
    (ss : List ServerState)
    → ((t : ServerTag) (r : RoomState) → P t r → Q t (if r.ref == ref then f r else r))
    → AllRooms P ss
    → AllRooms Q (update_room ref f ss)
unfolding update_room
AllRooms-update P Q ref f [] h a = tt
AllRooms-update P Q ref f (s ∷ ss) h a = (
  All-at_ref ref f (P (tag s)) (Q (tag s)) s.rooms (h (tag s)) a.0,
  AllRooms-update P Q ref f ss h a.1,
)

pub AllRooms-map :
    (P Q : ServerTag → RoomState → Type 0) (ss : List ServerState)
    → ((t : ServerTag) (r : RoomState) → P t r → Q t r)
    → AllRooms P ss
    → AllRooms Q ss
AllRooms-map P Q [] h a = tt
AllRooms-map P Q (s ∷ ss) h a =
    (All-map (P (tag s)) (Q (tag s)) s.rooms (h (tag s)) a.0, AllRooms-map P Q ss h a.1)

-- Two properties of every room are one.
pub All-both {ℓ} :
    {A : Type ℓ} (P Q : A → Type 0) (xs : List A) → All P xs → All Q xs → All (λ a. P a × Q a) xs
All-both P Q [] p q = tt
All-both P Q (x ∷ xs) p q = ((p.0, q.0), All-both P Q xs p.1 q.1)

pub AllRooms-both :
    (P Q : ServerTag → RoomState → Type 0) (ss : List ServerState)
    → AllRooms P ss
    → AllRooms Q ss
    → AllRooms (λ t r. P t r × Q t r) ss
AllRooms-both P Q [] p q = tt
AllRooms-both P Q (s ∷ ss) p q =
    (All-both (P (tag s)) (Q (tag s)) s.rooms p.0 q.0, AllRooms-both P Q ss p.1 q.1)

-- The number of rooms of each server stays within its limit.
abbrev pub RoomsFit : ServerState → Type 0
RoomsFit s = (0 < s.max_rooms) × (0 < s.max_players) × (length s.rooms ≤ s.max_rooms)

length-at_ref :
    (ref : ℕ) (f : RoomState → RoomState) (rs : List RoomState)
    → length (at_ref ref f rs) ≡ length rs
unfolding at_ref
length-at_ref ref f [] = refl
length-at_ref ref f (r ∷ rs) = omega (arith, length-at_ref ref f rs)

pub RoomsFit-update :
    (ref : ℕ) (f : RoomState → RoomState) (ss : List ServerState)
    → All RoomsFit ss
    → All RoomsFit (update_room ref f ss)
unfolding update_room
RoomsFit-update ref f [] h = tt
RoomsFit-update ref f (s ∷ ss) h =
    (omega (arith, h.0, length-at_ref ref f s.rooms), RoomsFit-update ref f ss h.1)

pub RoomsFit-prune : (ss : List ServerState) → All RoomsFit ss → All RoomsFit (prune_empty_rooms ss)
unfolding prune_empty_rooms
RoomsFit-prune [] h = tt
RoomsFit-prune (s ∷ ss) h =
    (omega (arith, h.0, length-select-le is_used s.rooms), RoomsFit-prune ss h.1)
