-- ===== src/Room/Inputs.antt =====
-- roomserver/logic/room.go and sync.go: the inputs that wait for their frame.
use demo_server.Prelude.{
  ℕ, ◌+◌, ◌-◌, zero, suc, Bool, true, false, Option, none, some, List, ltb, leb, ◌&&◌, not,
  if◌then◌else◌, select, ℕ_discrete,
}
use demo_server.Prelude.Int.{pos}
use demo_server.Prelude.Assoc.{lookup, insert}
use demo_server.Float.{Float}
use demo_server.Room.State.{AuthoritativeInput, PlayerInput, Player, SyncState, Room}
use demo_server.Room.Movement.{sanitize_player_input}
use demo_server.Room.Join.{no_input, new_player_sync_state}

abbrev pub max_queued_ticks : ℕ → ℕ
max_queued_ticks hold = if leb (hold + 1) 0 then 1 else hold + 1

module _ {F : Type 0} where
  -- The loop of nextAvailableInputTick from `target` up to `limit`; `none` past the limit.
  unfoldable pub first_open : ℕ → ℕ → ℕ → List (ℕ × AuthoritativeInput F) → Option ℕ
  first_open zero target limit inputs = none
  first_open (suc fuel) target limit inputs =
      let rest = first_open fuel (target + 1) limit inputs in
      if leb target limit
      then elim (lookup ℕ_discrete target inputs) [ none ↦ some target | some _ ↦ rest ]
      else none

  unfoldable pub first_target : ℕ → SyncState F → ℕ
  first_target tick s =
      if leb (tick + 1) s.last_queued_input_tick then s.last_queued_input_tick + 1 else tick + 1

  -- The frames from the first target to the limit are as many as the fuel.
  unfoldable pub next_available_input_tick : ℕ → ℕ → SyncState F → Option ℕ
  unfolding first_open first_target
  next_available_input_tick tick hold s =
      let limit = tick + max_queued_ticks hold in
      let target = first_target tick s in first_open (limit + 1 - target) target limit s.inputs

  unfoldable pub accept_input : SyncState F → ℕ → AuthoritativeInput F → SyncState F
  accept_input s tick i = record s {
    inputs = insert ℕ_discrete tick (record i { client_tick = pos tick }) s.inputs;
    last_queued_input_tick =
        if ltb s.last_queued_input_tick tick then tick else s.last_queued_input_tick;
  }

  -- The deletions while ranging leave the entries that pass the test.
  unfoldable pub cleanup_sync_state : SyncState F → SyncState F
  cleanup_sync_state s = record s {
    inputs = select (λ e. not (leb e.0 s.last_applied_tick)) s.inputs;
  }

  abbrev pub queue_at : ℕ → AuthoritativeInput F → SyncState F → Option ℕ → SyncState F
  queue_at id i s none = s
  queue_at id i s (some tick) = accept_input s tick i

  -- What handleInput does with the sync state of a player in frame `tick`.
  abbrev pub queue_next : ℕ → ℕ → ℕ → AuthoritativeInput F → SyncState F → SyncState F
  queue_next tick hold id i s = queue_at id i s (next_available_input_tick tick hold s)

  -- What the loop of updatePlayers does with it once frame `tick` is simulated.
  abbrev pub close_sync : ℕ → SyncState F → SyncState F
  close_sync tick s = cleanup_sync_state (record s { last_applied_tick = tick })

module _ {F : Type 0} (fl : Float F) where
  abbrev pub held : ℕ → AuthoritativeInput F → AuthoritativeInput F
  held tick i = record i { client_tick = pos tick; fire = false; jump = false }

  abbrev pub exact_or_held :
      ℕ
      → ℕ
      → SyncState F
      → Option (AuthoritativeInput F)
      → SyncState F × AuthoritativeInput F × Bool
  exact_or_held tick hold s (some i) =
      (record s { last_input = i; has_last_input = true; last_input_tick = tick }, i, true)
  exact_or_held tick hold s none =
      if s.has_last_input && leb tick (s.last_input_tick + hold)
      then (s, held tick s.last_input, false)
      else (s, no_input fl, false)

  -- The input that a frame uses, and whether it was sent for this frame.
  unfoldable pub input_for_tick : ℕ → ℕ → SyncState F → SyncState F × AuthoritativeInput F × Bool
  unfolding no_input
  input_for_tick tick hold s = exact_or_held tick hold s (lookup ℕ_discrete tick s.inputs)

  unfoldable pub discard_future : ℕ → SyncState F → SyncState F
  unfolding no_input
  discard_future tick s = record s {
    inputs = select (λ e. not (ltb tick e.0)) s.inputs;
    has_last_input = false;
    last_input = no_input fl;
    last_input_tick = 0;
    last_queued_input_tick = tick;
  }

  abbrev pub found_or_new : Option (SyncState F) → SyncState F
  found_or_new none = new_player_sync_state fl
  found_or_new (some s) = s

module _ {F W : Type 0} where
  -- ensureSyncState gives the pointer in the map: what is read by `sync_of` is written back by
  -- `set_sync`.
  unfoldable pub sync_of : Float F → ℕ → Room F W → SyncState F
  unfolding new_player_sync_state
  sync_of fl id r = found_or_new fl (lookup ℕ_discrete id r.sync_states)

  unfoldable pub set_sync : ℕ → SyncState F → Room F W → Room F W
  set_sync id s r = record r { sync_states = insert ℕ_discrete id s r.sync_states }

  abbrev pub queue_input : Float F → ℕ → Room F W → Option (AuthoritativeInput F) → Room F W
  queue_input fl id r none = r
  queue_input fl id r (some i) =
      set_sync id (queue_next r.tick r.max_input_hold_ticks id i (sync_of fl id r)) r

  abbrev pub input_of_alive :
      Float F → ℕ → Option (PlayerInput F) → Room F W → Option (Player F) → Room F W
  input_of_alive fl id i r none = r
  input_of_alive fl id i r (some p) =
      if not p.alive then r else queue_input fl id r (sanitize_player_input fl i)

  unfoldable pub handle_input : Float F → ℕ → Option (PlayerInput F) → Room F W → Room F W
  unfolding sync_of set_sync next_available_input_tick accept_input
  handle_input fl id i r =
      if r.game_ended then r else input_of_alive fl id i r (lookup ℕ_discrete id r.players)
