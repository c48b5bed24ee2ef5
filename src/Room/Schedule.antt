-- ===== src/Room/Schedule.antt =====
-- roomserver/logic/room.go: which frame an input waits for, and what a frame uses when none waits.
use demo_server.Prelude.{
  ℕ, zero, suc, ◌+◌, ◌-◌, ◌≤◌, ◌<◌, Bool, true, false, Option, none, some, List, [], ◌∷◌, ◌≡◌, ◌≢◌,
  refl, ap, ◌∙◌, not, ltb, leb, ◌&&◌, if◌then◌else◌, if_neg, subst, arith, ℕ_discrete, select,
}
use demo_server.Prelude.Int.{pos}
use demo_server.Prelude.Assoc.{lookup, lookup-insert}
use demo_server.Float.{Float}
use demo_server.Room.State.{AuthoritativeInput, SyncState}
use demo_server.Room.Join.{no_input}
use demo_server.Room.Inputs.{
  max_queued_ticks, first_open, first_target, next_available_input_tick, accept_input, queue_at,
  held, exact_or_held, input_for_tick, discard_future,
}

module _ {F : Type 0} where
  -- `o` is the first frame from `target` to `limit` that no input waits for, or none of them is.
  abbrev IsFirstOpen : ℕ → ℕ → List (ℕ × AuthoritativeInput F) → Option ℕ → Type 0
  IsFirstOpen target limit inputs none =
      (u : ℕ) → target ≤ u → u ≤ limit → lookup ℕ_discrete u inputs ≢ none
  IsFirstOpen target limit inputs (some t) =
      (target ≤ t)
      × (t ≤ limit)
      × (lookup ℕ_discrete t inputs ≡ none)
      × ((u : ℕ) → target ≤ u → u < t → lookup ℕ_discrete u inputs ≢ none)

  IsFirstOpen-later :
      (target limit : ℕ) (inputs : List (ℕ × AuthoritativeInput F)) (i : AuthoritativeInput F)
      (o : Option ℕ)
      → lookup ℕ_discrete target inputs ≡ some i
      → IsFirstOpen (target + 1) limit inputs o
      → IsFirstOpen target limit inputs o
  IsFirstOpen-later target limit inputs i none h f = λ u a b e. elim (ℕ_discrete target u) [
    | yes same ↦ absurd (ground (arith, h, e, same))
    | no other ↦ f u (omega (arith, a, other)) b e
  ]
  IsFirstOpen-later target limit inputs i (some t) h f = (
    omega (arith, f.0),
    f.1,
    f.2,
    λ u a b e. elim (ℕ_discrete target u) [
      | yes same ↦ absurd (ground (arith, h, e, same))
      | no other ↦ f.3 u (omega (arith, a, other)) b e
    ],
  )

  IsFirstOpen-step :
      (target limit : ℕ) (inputs : List (ℕ × AuthoritativeInput F)) (rest : Option ℕ)
      (o : Option (AuthoritativeInput F))
      → lookup ℕ_discrete target inputs ≡ o
      → target ≤ limit
      → IsFirstOpen (target + 1) limit inputs rest
      → IsFirstOpen target limit inputs (elim o [ none ↦ some target | some _ ↦ rest ])
  IsFirstOpen-step target limit inputs rest none h l f =
      (omega arith, l, h, λ u a b e. absurd (omega (arith, a, b)))
  IsFirstOpen-step target limit inputs rest (some i) h l f =
      IsFirstOpen-later target limit inputs i rest h f

  first_open-IsFirstOpen :
      (fuel target limit : ℕ) (inputs : List (ℕ × AuthoritativeInput F))
      → limit < target + fuel
      → IsFirstOpen target limit inputs (first_open fuel target limit inputs)
  unfolding first_open
  first_open-IsFirstOpen zero target limit inputs h = λ u a b e. absurd (omega (arith, h, a, b))
  first_open-IsFirstOpen (suc fuel) target limit inputs h =
      go (leb target limit) refl
        (first_open-IsFirstOpen fuel (target + 1) limit inputs (omega (arith, h)))
    where
      go :
          (b : Bool)
          → leb target limit ≡ b
          → IsFirstOpen (target + 1) limit inputs (first_open fuel (target + 1) limit inputs)
          → IsFirstOpen target limit inputs (
              if b
              then elim (lookup ℕ_discrete target inputs) [
                | none ↦ some target
                | some _ ↦ first_open fuel (target + 1) limit inputs
              ]
              else none)
      go true e f =
          IsFirstOpen-step target limit inputs (first_open fuel (target + 1) limit inputs)
            (lookup ℕ_discrete target inputs) refl (ground (arith, e)) f
      go false e f = λ u a b h'. absurd (ground (arith, e, a, b))

  -- From the first target the loop runs to its end.
  next_available_input_tick-IsFirstOpen :
      (tick hold : ℕ) (s : SyncState F)
      → (tick < first_target tick s)
        × (s.last_queued_input_tick < first_target tick s)
        × IsFirstOpen
            (first_target tick s)
            (tick + max_queued_ticks hold)
            s.inputs
            (next_available_input_tick tick hold s)
  unfolding next_available_input_tick first_target
  next_available_input_tick-IsFirstOpen tick hold s = (
    ground arith,
    ground arith,
    first_open-IsFirstOpen (tick + max_queued_ticks hold + 1 - first_target tick s)
        (first_target tick s) (tick + max_queued_ticks hold) s.inputs (omega arith),
  )

  -- `o` is the first frame that no input waits for, of all those after `tick` and after `last` and
  -- not after `limit`; or all of them are taken.
  abbrev pub IsNextOpen : ℕ → ℕ → ℕ → List (ℕ × AuthoritativeInput F) → Option ℕ → Type 0
  IsNextOpen tick last limit inputs none =
      (u : ℕ) → tick < u → last < u → u ≤ limit → lookup ℕ_discrete u inputs ≢ none
  IsNextOpen tick last limit inputs (some t) =
      (tick < t)
      × (last < t)
      × (t ≤ limit)
      × (lookup ℕ_discrete t inputs ≡ none)
      × ((u : ℕ) → tick < u → last < u → u < t → lookup ℕ_discrete u inputs ≢ none)

  first_target-first :
      (tick u : ℕ) (s : SyncState F)
      → tick < u
      → s.last_queued_input_tick < u
      → first_target tick s ≤ u
  unfolding first_target
  first_target-first tick u s a b = ground (arith, a, b)

  IsFirstOpen-IsNextOpen :
      (tick limit : ℕ) (s : SyncState F) (o : Option ℕ)
      → tick < first_target tick s
      → s.last_queued_input_tick < first_target tick s
      → IsFirstOpen (first_target tick s) limit s.inputs o
      → IsNextOpen tick s.last_queued_input_tick limit s.inputs o
  IsFirstOpen-IsNextOpen tick limit s none a b f =
      λ u c d e. f u (first_target-first tick u s c d) e
  IsFirstOpen-IsNextOpen tick limit s (some t) a b f = (
    omega (arith, a, f.0),
    omega (arith, b, f.0),
    f.1,
    f.2,
    λ u c d e. f.3 u (first_target-first tick u s c d) e,
  )

  -- nextAvailableInputTick gives the first of all frames after the current one and after the last
  -- accepted input that no input waits for, where it is at most one more than the hold ticks away; it
  -- gives none exactly where all of those frames are taken. The loop runs to its end.
  pub next_available_input_tick-IsNextOpen :
      (tick hold : ℕ) (s : SyncState F)
      → IsNextOpen tick s.last_queued_input_tick
          (tick + (hold + 1))
          s.inputs
          (next_available_input_tick tick hold s)
  next_available_input_tick-IsNextOpen tick hold s =
      let (later, last, f) = next_available_input_tick-IsFirstOpen tick hold s in
      let window : max_queued_ticks hold ≡ hold + 1 = ground arith in
      subst
        (λ w.
          IsNextOpen tick s.last_queued_input_tick (tick + w) s.inputs
            (next_available_input_tick tick hold s))
        window
        (IsFirstOpen-IsNextOpen tick (tick + max_queued_ticks hold) s
          (next_available_input_tick tick hold s) later last f)

  queue_at-keeps :
      (tick : ℕ) (s : SyncState F) (limit target t id : ℕ) (i j : AuthoritativeInput F)
      (o : Option ℕ)
      → IsFirstOpen target limit s.inputs o
      → t < target
      → lookup ℕ_discrete t s.inputs ≡ some i
      → lookup ℕ_discrete t (queue_at id j s o).inputs ≡ some i
  unfolding accept_input
  queue_at-keeps tick s limit target t id i j none f l h = h
  queue_at-keeps tick s limit target t id i j (some u) f l h =
      lookup-insert ℕ_discrete u t (record j { client_tick = pos u }) s.inputs
      ∙ rw (if_neg (ℕ_discrete u t) (λ e. absurd (omega (arith, e, l, f.0)))) h

  -- An input that waits for a frame is not replaced by a later one: first come, first served.
  pub queue_at-keeps_waiting :
      (tick hold id t : ℕ) (s : SyncState F) (i j : AuthoritativeInput F)
      → lookup ℕ_discrete t s.inputs ≡ some i
      → t ≤ s.last_queued_input_tick
      → lookup ℕ_discrete t (queue_at id j s (next_available_input_tick tick hold s)).inputs
        ≡ some i
  queue_at-keeps_waiting tick hold id t s i j h l =
      let (later, last, f) = next_available_input_tick-IsFirstOpen tick hold s in
      queue_at-keeps tick s (tick + max_queued_ticks hold) (first_target tick s) t id i j
        (next_available_input_tick tick hold s) f (omega (arith, l, last)) h

module _ {F : Type 0} (fl : Float F) where
  exact_or_held-harmless :
      (tick hold : ℕ) (s : SyncState F) (o : Option (AuthoritativeInput F))
      → (exact_or_held fl tick hold s o).2 ≡ false
      → ((exact_or_held fl tick hold s o).0 ≡ s)
        × ((exact_or_held fl tick hold s o).1.fire ≡ false)
        × ((exact_or_held fl tick hold s o).1.jump ≡ false)
        × (s.last_input_tick + hold < tick → (exact_or_held fl tick hold s o).1 ≡ no_input fl)
  unfolding no_input
  exact_or_held-harmless tick hold s (some i) h = absurd (ground (arith, h))
  exact_or_held-harmless tick hold s none h =
      go (s.has_last_input && leb tick (s.last_input_tick + hold)) refl
    where
      go :
          (b : Bool)
          → (s.has_last_input && leb tick (s.last_input_tick + hold)) ≡ b
          → (let o : SyncState F × AuthoritativeInput F × Bool =
                if b then (s, held fl tick s.last_input, false) else (s, no_input fl, false) in
              (o.0 ≡ s)
              × (o.1.fire ≡ false)
              × (o.1.jump ≡ false)
              × (s.last_input_tick + hold < tick → o.1 ≡ no_input fl))
      go true e = (refl, refl, refl, λ l. absurd (ground (arith, e, l)))
      go false e = (refl, refl, refl, λ l. refl)

  -- A frame that no input was sent for neither fires nor jumps, uses the last input only up to the
  -- hold ticks after it, and changes nothing of what waits.
  pub held_is_harmless :
      (tick hold : ℕ) (s : SyncState F)
      → (input_for_tick fl tick hold s).2 ≡ false
      → ((input_for_tick fl tick hold s).0 ≡ s)
        × ((input_for_tick fl tick hold s).1.fire ≡ false)
        × ((input_for_tick fl tick hold s).1.jump ≡ false)
        × (s.last_input_tick + hold < tick → (input_for_tick fl tick hold s).1 ≡ no_input fl)
  unfolding input_for_tick
  held_is_harmless tick hold s h =
      exact_or_held-harmless tick hold s (lookup ℕ_discrete tick s.inputs) h

  lookup-select_key :
      (keep : ℕ → Bool) (t : ℕ) (m : List (ℕ × AuthoritativeInput F))
      → keep t ≡ false
      → lookup ℕ_discrete t (select (λ (e : ℕ × AuthoritativeInput F). keep e.0) m) ≡ none
  unfolding lookup
  lookup-select_key keep t [] h = refl
  lookup-select_key keep t ((j, i) ∷ m) h = ground (arith, h, lookup-select_key keep t m h)

  -- A respawn drops what its player had queued: every later frame finds no input of before and
  -- holds none.
  pub discard_future-input_for_tick :
      (tick hold t : ℕ) (s : SyncState F)
      → tick < t
      → input_for_tick fl t hold (discard_future fl tick s)
        ≡ (discard_future fl tick s, no_input fl, false)
  unfolding input_for_tick discard_future no_input
  discard_future-input_for_tick tick hold t s h =
      ap (exact_or_held fl t hold (discard_future fl tick s))
        (lookup-select_key (λ k. not (ltb tick k)) t s.inputs (ground (arith, h)))
