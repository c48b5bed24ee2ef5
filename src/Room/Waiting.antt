-- ===== src/Room/Waiting.antt =====
-- roomserver/logic/room.go: an accepted input on the way to its frame, past the other inputs and the
-- frames that its player has in between.
use demo_server.Prelude.{
  ℕ, ◌+◌, ◌≤◌, ◌<◌, Bool, true, false, Option, none, some, List, [], ◌∷◌, ◌≡◌, refl, ap, ◌∙◌, not,
  ◌&&◌, leb, if◌then◌else◌, if_pos, subst, sym, arith, ℕ_discrete, select, All,
}
use demo_server.Prelude.Int.{pos}
use demo_server.Prelude.Assoc.{lookup, lookup-insert}
use demo_server.Float.{Float}
use demo_server.Room.State.{AuthoritativeInput, SyncState}
use demo_server.Room.Inputs.{
  next_available_input_tick, accept_input, queue_at, queue_next, close_sync, exact_or_held, held,
  input_for_tick, cleanup_sync_state,
}
use demo_server.Room.Join.{no_input}
use demo_server.Room.Schedule.{
  IsNextOpen, next_available_input_tick-IsNextOpen, queue_at-keeps_waiting,
}

-- What the sync state of a living player goes through: an input that comes in during a frame, and a
-- frame itself, as handleInput and the loop of updatePlayers do them.
pub data SyncEvent (F : Type 0) : Type 0 where
  arriving : ℕ → ℕ → AuthoritativeInput F → SyncEvent F
  frame_of : ℕ → SyncEvent F

module _ {F : Type 0} where
  -- The frames come before frame t.
  abbrev pub IsBefore : ℕ → SyncEvent F → Type 0
  IsBefore t (arriving tick id i) = Unit
  IsBefore t (frame_of tick) = tick < t

  -- The input stands for frame t, and no later one may be put before it.
  abbrev Waits : ℕ → AuthoritativeInput F → SyncState F → Type 0
  Waits t i s = (lookup ℕ_discrete t s.inputs ≡ some i) × (t ≤ s.last_queued_input_tick)

  accept_input-Waits :
      (t : ℕ) (i : AuthoritativeInput F) (s : SyncState F)
      → Waits t (record i { client_tick = pos t }) (accept_input s t i)
  unfolding accept_input
  accept_input-Waits t i s = (
    lookup-insert ℕ_discrete t t (record i { client_tick = pos t }) s.inputs
        ∙ rw (if_pos (ℕ_discrete t t) refl) refl,
    ground arith,
  )

  lookup-select_later :
      (done t : ℕ) (m : List (ℕ × AuthoritativeInput F))
      → done < t
      → lookup ℕ_discrete t (select (λ (e : ℕ × AuthoritativeInput F). not (leb e.0 done)) m)
        ≡ lookup ℕ_discrete t m
  unfolding lookup
  lookup-select_later done t [] h = refl
  lookup-select_later done t ((j, i) ∷ m) h = ground (arith, h, lookup-select_later done t m h)

  queue_at-last :
      (t id : ℕ) (s : SyncState F) (i : AuthoritativeInput F) (o : Option ℕ)
      → t ≤ s.last_queued_input_tick
      → t ≤ (queue_at id i s o).last_queued_input_tick
  unfolding accept_input
  queue_at-last t id s i none h = h
  queue_at-last t id s i (some u) h = ground (arith, h)

module _ {F : Type 0} (fl : Float F) (hold : ℕ) where
  unfoldable pub sync_event : SyncEvent F → SyncState F → SyncState F
  unfolding input_for_tick cleanup_sync_state next_available_input_tick
  sync_event (arriving tick id i) s = queue_next tick hold id i s
  sync_event (frame_of tick) s = close_sync tick (input_for_tick fl tick hold s).0

  unfoldable pub sync_events : List (SyncEvent F) → SyncState F → SyncState F
  unfolding sync_event
  sync_events [] s = s
  sync_events (e ∷ es) s = sync_events es (sync_event e s)

  -- What a frame reads leaves the queue as it is.
  exact_or_held-kept :
      (tick : ℕ) (s : SyncState F) (o : Option (AuthoritativeInput F))
      → ((exact_or_held fl tick hold s o).0.inputs ≡ s.inputs)
        × ((exact_or_held fl tick hold s o).0.last_queued_input_tick ≡ s.last_queued_input_tick)
  exact_or_held-kept tick s (some i) = (refl, refl)
  exact_or_held-kept tick s none = go (s.has_last_input && leb tick (s.last_input_tick + hold))
    where
      go :
          (b : Bool)
          → (let o : SyncState F × AuthoritativeInput F × Bool =
                if b then (s, held fl tick s.last_input, false) else (s, no_input fl, false) in
              (o.0.inputs ≡ s.inputs) × (o.0.last_queued_input_tick ≡ s.last_queued_input_tick))
      go true = (refl, refl)
      go false = (refl, refl)

  sync_event-Waits :
      (e : SyncEvent F) (t : ℕ) (i : AuthoritativeInput F) (s : SyncState F)
      → IsBefore t e
      → Waits t i s
      → Waits t i (sync_event e s)
  unfolding sync_event cleanup_sync_state input_for_tick
  sync_event-Waits (arriving tick id j) t i s l h = (
    queue_at-keeps_waiting tick hold id t s i j h.0 h.1,
    queue_at-last t id s j (next_available_input_tick tick hold s) h.1,
  )
  sync_event-Waits (frame_of tick) t i s l h =
      let (kept, last) = exact_or_held-kept tick s (lookup ℕ_discrete tick s.inputs) in
      (
        lookup-select_later tick t _ l ∙ ap (lookup ℕ_discrete t) kept ∙ h.0,
        subst (λ n. t ≤ n) (sym last) h.1,
      )

  sync_events-Waits :
      (es : List (SyncEvent F)) (t : ℕ) (i : AuthoritativeInput F) (s : SyncState F)
      → All (IsBefore t) es
      → Waits t i s
      → Waits t i (sync_events es s)
  unfolding sync_events
  sync_events-Waits [] t i s l h = h
  sync_events-Waits (e ∷ es) t i s l h =
      sync_events-Waits es t i (sync_event e s) l.1 (sync_event-Waits e t i s l.0 h)

  -- Where handleInput accepts an input for frame t, t is a later frame, at most one more than the
  -- hold ticks away, and frame t uses this very input, as one that was sent for it: whatever other
  -- inputs of the player come in and whatever earlier frames it lives through in between, as long as
  -- no respawn discards its inputs.
  pub sync_events-input_for_tick :
      (tick id t : ℕ) (s : SyncState F) (i : AuthoritativeInput F) (es : List (SyncEvent F))
      → next_available_input_tick tick hold s ≡ some t
      → All (IsBefore t) es
      → let later : SyncState F = sync_events es (sync_event (arriving tick id i) s) in
        (tick < t)
        × (t ≤ tick + (hold + 1))
        × ((input_for_tick fl t hold later).1 ≡ record i { client_tick = pos t })
        × ((input_for_tick fl t hold later).2 ≡ true)
  unfolding sync_event input_for_tick
  sync_events-input_for_tick tick id t s i es h l =
      let open_at : IsNextOpen tick s.last_queued_input_tick (tick + (hold + 1)) s.inputs (some t) =
        subst (IsNextOpen tick s.last_queued_input_tick (tick + (hold + 1)) s.inputs) h
          (next_available_input_tick-IsNextOpen tick hold s) in
      let queued : Waits t (record i { client_tick = pos t })
          (queue_at id i s (next_available_input_tick tick hold s)) =
        subst (λ o. Waits t (record i { client_tick = pos t }) (queue_at id i s o)) (sym h)
          (accept_input-Waits t i s) in
      let found =
        (sync_events-Waits es t (record i { client_tick = pos t })
          (queue_at id i s (next_available_input_tick tick hold s)) l queued).0 in
      (open_at.0, open_at.2, rw found refl, rw found refl)
