-- ===== src/Room/Capacity.antt =====
-- roomserver/logic/room.go: the roster of a room over the turns of its loop.
use demo_server.Prelude.{
  ℕ, ◌+◌, ◌<◌, Bool, true, false, Option, none, some, List, [], ◌∷◌, ◌≡◌, refl, ap, ◌∙◌, sym, leb,
  ◌||◌, if◌then◌else◌, length, arith, ℕ_discrete, subst,
}
use demo_server.Prelude.Text.{is_empty}
use demo_server.Prelude.Assoc.{lookup, insert}
use demo_server.Float.{Float}
use demo_server.Room.State.{
  Player, SpawnPoint, Physics, PhysicsError, Event, join_ack, event_join, event_leave, event_input,
  event_player_stats_query, Room,
}
use demo_server.Room.Join.{
  send, leave, push_input, leave_found, handle_leave, reconcile_join_slots, is_spawn_used, reject,
  try_join, admit, after_add, at_spawn, unless_present, joined_player, place_at, first_free,
  handle_join_event, start_if_full, new_player_sync_state, build_join_ack, broadcast_if,
}
use demo_server.Room.Inputs.{handle_input}
use demo_server.Room.Update.{
  update, update_players, player_ids, should_finish_game, handle_event, handle_player_stats_query,
}
use demo_server.Room.Loop.{
  Turn, take_event, run_frame, call_join, call_leave, call_push_input, take_from, turn, loop,
  ended_or,
}
use demo_server.Room.Frame.{Frame, frame-update_players}
use demo_server.Room.Evolve.{Healthy}
use demo_server.Room.Simulated.{evolve-update_players}
use demo_server.Room.Seats.{Sound, Sound-AllEvolve, Sound-insert, Sound-delete, first_free-IsUnused}
use demo_server.Room.Roster.{
  roster, roster-if, roster-snapshot_if_due, roster-finish_game, roster-settle,
  roster-start_if_full, roster-broadcast_if, roster-input_of_alive, roster-push_event, roster-join,
}

module _ {F W : Type 0} where
  abbrev pub SoundRoom : Room F W → Type 0
  SoundRoom r = Sound r.max_players r.players

  Sound-roster : (r' r : Room F W) → roster r' ≡ roster r → SoundRoom r → SoundRoom r'
  unfolding roster
  Sound-roster r' r same s = subst (λ (o : ℕ × List (ℕ × Player F)). Sound o.0 o.1) (sym same) s

  Sound-leave_found :
      (phys : Physics F W) (id : ℕ) (r : Room F W) (o : Option (Player F))
      → SoundRoom r
      → SoundRoom (leave_found phys id r o)
  unfolding reconcile_join_slots
  Sound-leave_found phys id r none s = s
  Sound-leave_found phys id r (some p) s = Sound-delete r.max_players id r.players s

  Sound-admit :
      (fl : Float F) (p : Player F) (r : Room F W)
      → length r.players < r.max_players
      → lookup ℕ_discrete p.id r.players ≡ none
      → (is_empty p.spawn_id ≡ false) × (is_spawn_used p.spawn_id r.players ≡ false)
      → Healthy p
      → SoundRoom r
      → SoundRoom (admit fl p r).0
  unfolding admit send roster
  Sound-admit fl p r l h u w s =
      let added : Room F W = record r {
        players = insert ℕ_discrete p.id p r.players;
        sync_states = insert ℕ_discrete p.id (new_player_sync_state fl) r.sync_states;
      } in
      let o : Room F W × Bool = start_if_full added in
      let told : Room F W = send p.session (join_ack (build_join_ack true (some p) "ok" o.0)) o.0 in
      Sound-roster (broadcast_if o.1 told) added
        (roster-broadcast_if o.1 told ∙ roster-start_if_full added)
        (Sound-insert r.max_players p r.players l h u w s)

  Sound-after_add :
      (fl : Float F) (p : Player F) (r : Room F W) (o : W × Option PhysicsError)
      → length r.players < r.max_players
      → lookup ℕ_discrete p.id r.players ≡ none
      → (is_empty p.spawn_id ≡ false) × (is_spawn_used p.spawn_id r.players ≡ false)
      → Healthy p
      → SoundRoom r
      → SoundRoom (after_add fl p r o).0
  unfolding reject send
  Sound-after_add fl p r (w, none) l h u v s = Sound-admit fl p (record r { physics = w }) l h u v s
  Sound-after_add fl p r (w, some e) l h u v s = s

  Sound-at_spawn :
      (fl : Float F) (phys : Physics F W) (p : Player F) (r : Room F W) (o : Option (SpawnPoint F))
      → first_free r.players (phys.spawn_points r.physics) ≡ o
      → length r.players < r.max_players
      → lookup ℕ_discrete p.id r.players ≡ none
      → SoundRoom r
      → SoundRoom (at_spawn fl phys p r o).0
  unfolding reject send joined_player place_at
  Sound-at_spawn fl phys p r none f l h s = s
  Sound-at_spawn fl phys p r (some sp) f l h s =
      Sound-after_add fl (joined_player fl r sp p) r (phys.add_player p.id sp.position r.physics) l
        h (first_free-IsUnused r.players (phys.spawn_points r.physics) sp f)
        (omega arith, λ a. omega arith) s

  Sound-unless_present :
      (fl : Float F) (phys : Physics F W) (p : Player F) (r : Room F W) (o : Option (Player F))
      → lookup ℕ_discrete p.id r.players ≡ o
      → length r.players < r.max_players
      → SoundRoom r
      → SoundRoom (unless_present fl phys p r o).0
  unfolding reject send
  Sound-unless_present fl phys p r (some q) h l s = s
  Sound-unless_present fl phys p r none h l s = Sound-at_spawn fl phys p r _ refl l h s

  Sound-pair :
      (b : Bool) (x y : Room F W × Bool)
      → (b ≡ true → SoundRoom x.0)
      → (b ≡ false → SoundRoom y.0)
      → (let o : Room F W × Bool = if b then x else y in SoundRoom o.0)
  Sound-pair true x y p q = p refl
  Sound-pair false x y p q = q refl

  Sound-try_join :
      (fl : Float F) (phys : Physics F W) (p : Player F) (r : Room F W)
      → SoundRoom r
      → SoundRoom (try_join fl phys p r).0
  unfolding try_join reject send
  Sound-try_join fl phys p r s =
      Sound-pair (r.game_started || r.game_ended) _ _ (λ b. s)
        (λ b.
          Sound-pair (leb r.max_players (length r.players)) _ _ (λ c. s)
            (λ c. Sound-unless_present fl phys p r _ refl (ground (arith, c)) s))

module _ {F W : Type 0} (fl : Float F) (phys : Physics F W)
    (see : Player F → List (Player F) → List (Player F)) where
  Sound-handle_event :
      (e : Event F) (r : Room F W) → SoundRoom r → SoundRoom (handle_event fl phys e r)
  unfolding handle_event handle_join_event handle_leave handle_input handle_player_stats_query
  Sound-handle_event (event_join p reserved) r s =
      Sound-roster _ (try_join fl phys p r).0 (roster-settle reserved (try_join fl phys p r))
        (Sound-try_join fl phys p r s)
  Sound-handle_event (event_leave id) r s =
      Sound-leave_found phys id r (lookup ℕ_discrete id r.players) s
  Sound-handle_event (event_input id i) r s =
      Sound-roster _ r
        (roster-if r.game_ended r _ r refl
          (roster-input_of_alive fl id i r (lookup ℕ_discrete id r.players)))
        s
  Sound-handle_event (event_player_stats_query requester target channel) r s = s

  Sound-take_from :
      (r : Room F W) (es : List (Event F)) → SoundRoom r → SoundRoom (take_from fl phys see r es)
  Sound-take_from r [] s = s
  Sound-take_from r (e ∷ es) s = Sound-handle_event e (record r { events = es }) s

  -- A frame keeps the roster sound: its simulation lets the players evolve, and the rest of it
  -- leaves them alone.
  Sound-update : (r : Room F W) → SoundRoom r → SoundRoom (update fl phys see r).0
  unfolding update
  Sound-update r s =
      let ticked : Room F W = record r { tick = r.tick + 1; current_tick = r.tick + 1 } in
      let ids : List ℕ = player_ids ticked in
      let played : Room F W = update_players fl phys ids ticked in
      let sound : SoundRoom played =
        Sound-AllEvolve played.max_players r.players played.players
          (evolve-update_players fl phys ids ticked s.keys)
          (subst (λ (n : ℕ). Sound n r.players)
            (sym (ap (λ (f : Frame F). f.max_players) (frame-update_players fl phys ids ticked)))
            s) in
      Sound-pair r.game_ended _ _ (λ e. s)
        (λ e.
          Sound-pair (should_finish_game played) _ _
            (λ d. Sound-roster _ played (roster-finish_game played) sound)
            (λ d. Sound-roster _ played (roster-snapshot_if_due see played) sound))

  Sound-turn : (t : Turn F) (r : Room F W) → SoundRoom r → SoundRoom (turn fl phys see t r).0
  unfolding turn leave push_input
  Sound-turn take_event r s = Sound-take_from r r.events s
  Sound-turn run_frame r s = Sound-update r s
  Sound-turn (call_join p) r s = Sound-roster _ r (roster-join p r) s
  Sound-turn (call_leave id) r s = Sound-roster _ r (roster-push_event (event_leave id) r) s
  Sound-turn (call_push_input id i) r s =
      Sound-roster _ r (roster-push_event (event_input id i) r) s

  Sound-ended_or :
      (o : Room F W × Bool) (next : Room F W → Room F W × Bool)
      → SoundRoom o.0
      → ((r : Room F W) → SoundRoom r → SoundRoom (next r).0)
      → SoundRoom (ended_or fl phys see o next).0
  Sound-ended_or (r, true) next s k = s
  Sound-ended_or (r, false) next s k = k r s

  -- Whatever happens to a room that is sound, it stays so: at most maxPlayers players, each under
  -- its own id and once, with at most 100 points and, while it is alive, at least one, and no two at
  -- one spawn point.
  pub loop-SoundRoom :
      (ts : List (Turn F)) (r : Room F W) → SoundRoom r → SoundRoom (loop fl phys see ts r).0
  unfolding loop
  loop-SoundRoom [] r s = s
  loop-SoundRoom (t ∷ ts) r s =
      Sound-ended_or (turn fl phys see t r) (λ r'. loop fl phys see ts r') (Sound-turn t r s)
        (λ r' s'. loop-SoundRoom ts r' s')
