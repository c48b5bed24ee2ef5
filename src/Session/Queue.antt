-- ===== src/Session/Queue.antt =====
-- roomserver/service/session.go: the queue of a session over what happens to it.
use demo_server.Prelude.{
  ℕ, ◌≤◌, String, Bool, true, false, Option, none, some, List, [], ◌∷◌, ◌++◌, ltb, ◌&&◌, ◌||◌, not,
  length, if◌then◌else◌, ◌⊎◌, ◌≡◌, refl, ap, ◌∙◌, sym, arith, length-append,
}
use demo_server.Message.{Message}
use demo_server.Session.{
  Session, new_session, set_player_of, enqueue, send_message, offer_to, offer_snapshot,
  drop_snapshot, close_session, WriteTurn, from_send, from_snapshot, after_write_message, take_send,
  take_snapshot, write_turn, write_turns, settle_offer, second_offer, send_snapshot,
}

append_assoc : (xs ys zs : List Message) → (xs ++ ys) ++ zs ≡ xs ++ (ys ++ zs)
append_assoc [] ys zs = refl
append_assoc (x ∷ xs) ys zs = ap (λ (us : List Message). x ∷ us) (append_assoc xs ys zs)

-- `all` are the messages taken and, in order, those that wait, which are no more than may be.
abbrev pub IsOrdered : List Message → Session → Type 0
IsOrdered all s = (all ≡ s.taken ++ s.send_ch) × (length s.send_ch ≤ s.capacity)

module _ (all : List Message) where
  after_write_message-IsOrdered :
      (ok : Bool) (s : Session) → IsOrdered all s → IsOrdered all (after_write_message ok s)
  unfolding close_session
  after_write_message-IsOrdered true s h = h
  after_write_message-IsOrdered false s h = h

  take_send-IsOrdered :
      (ok : Bool) (s : Session) (q : List Message)
      → (all ≡ s.taken ++ q) × (length q ≤ s.capacity)
      → IsOrdered all s
      → IsOrdered all (take_send ok s q)
  take_send-IsOrdered ok s [] h o = o
  take_send-IsOrdered ok s (m ∷ ms) h o =
      after_write_message-IsOrdered ok (record s { send_ch = ms; taken = s.taken ++ m ∷ [] })
        (h.0 ∙ sym (append_assoc s.taken (m ∷ []) ms), omega (arith, h.1))

  take_snapshot-IsOrdered :
      (ok : Bool) (s : Session) (o : Option Message)
      → IsOrdered all s
      → IsOrdered all (take_snapshot ok s o)
  take_snapshot-IsOrdered ok s none h = h
  take_snapshot-IsOrdered ok s (some m) h =
      after_write_message-IsOrdered ok (record s { snapshot_ch = none }) h

  write_turns-IsOrdered :
      (ts : List WriteTurn) (s : Session) → IsOrdered all s → IsOrdered all (write_turns ts s)
  unfolding write_turns write_turn
  write_turns-IsOrdered [] s h = h
  write_turns-IsOrdered (from_send ok ∷ ts) s h =
      write_turns-IsOrdered ts _ (take_send-IsOrdered ok s s.send_ch h h)
  write_turns-IsOrdered (from_snapshot ok ∷ ts) s h =
      write_turns-IsOrdered ts _ (take_snapshot-IsOrdered ok s s.snapshot_ch h)

  offer_to-IsOrdered :
      (pick : Bool) (m : Message) (s : Session) (o : Option Message)
      → IsOrdered all s
      → IsOrdered all (offer_to pick m s o).0
  offer_to-IsOrdered pick m s (some old) h = go s.closed
    where
      go :
          (b : Bool)
          → (let o : Session × Option Bool = if b then (s, some false) else (s, none) in
              IsOrdered all o.0)
      go true = h
      go false = h
  offer_to-IsOrdered pick m s none h = go (not s.closed || pick)
    where
      go :
          (b : Bool)
          → (let o : Session × Option Bool =
                if b then (record s { snapshot_ch = some m }, some true) else (s, some false) in
              IsOrdered all o.0)
      go true = h
      go false = h

  settle_offer-IsOrdered :
      (o : Session × Option Bool) → IsOrdered all o.0 → IsOrdered all (settle_offer o).0
  settle_offer-IsOrdered (s, none) h = h
  settle_offer-IsOrdered (s, some sent) h = h

  second_offer-IsOrdered :
      (pick : Bool) (before after : List WriteTurn) (m : Message) (o : Session × Option Bool)
      → IsOrdered all o.0
      → IsOrdered all (second_offer pick before after m o).0
  unfolding offer_snapshot drop_snapshot
  second_offer-IsOrdered pick before after m (s, some sent) h = h
  second_offer-IsOrdered pick before after m (s, none) h =
      let dropped : Session = drop_snapshot (write_turns before s) in
      let kept : Session = write_turns after dropped in
      settle_offer-IsOrdered (offer_snapshot pick m kept) (
        offer_to-IsOrdered pick m kept kept.snapshot_ch
          (write_turns-IsOrdered after dropped (write_turns-IsOrdered before s h)))

-- The messages with the one that is sent, where Send answers that it took it.
abbrev pub with_sent : Bool → Message → List Message → List Message
with_sent sent m all = if sent then all ++ m ∷ [] else all

send_message-IsOrdered :
    (all : List Message) (pick : Bool) (m : Message) (s : Session)
    → IsOrdered all s
    → IsOrdered (with_sent (send_message pick m s).1 m all) (send_message pick m s).0
unfolding send_message
send_message-IsOrdered all pick m s h =
    go (ltb (length s.send_ch) s.capacity) (not s.closed || pick) refl
  where
    go :
        (a b : Bool)
        → ltb (length s.send_ch) s.capacity ≡ a
        → (let o : Session × Bool = if a && b then (enqueue m s, true) else (s, false) in
            IsOrdered (with_sent o.1 m all) o.0)
    go true true e = (
      ap (λ (us : List Message). us ++ m ∷ []) h.0 ∙ append_assoc s.taken s.send_ch (m ∷ []),
      ground (arith, e, length-append s.send_ch (m ∷ [])),
    )
    go true false e = h
    go false b e = h

-- What happens to a session.
pub data SessionStep : Type 0 where
  sending : Bool → Message → SessionStep
  sending_snapshot : Bool → Bool → List WriteTurn → List WriteTurn → Message → SessionStep
  writing : WriteTurn → SessionStep
  binding : ℕ → String → SessionStep
  closing : SessionStep

abbrev pub session_step : SessionStep → Session → Session
unfolding send_message send_snapshot write_turn set_player_of close_session
session_step (sending pick m) s = (send_message pick m s).0
session_step (sending_snapshot pick pick' before after m) s =
    (send_snapshot pick pick' before after m s).0
session_step (writing t) s = write_turn t s
session_step (binding player room) s = set_player_of player room s
session_step closing s = close_session s

abbrev pub session_steps : List SessionStep → Session → Session
unfolding session_step
session_steps [] s = s
session_steps (t ∷ ts) s = session_steps ts (session_step t s)

-- What Send answers that it took in the course of the steps, behind the messages of before.
abbrev pub accepted_by_step : SessionStep → Session → List Message → List Message
unfolding send_message
accepted_by_step (sending pick m) s all = with_sent (send_message pick m s).1 m all
accepted_by_step (sending_snapshot pick pick' before after m) s all = all
accepted_by_step (writing t) s all = all
accepted_by_step (binding player room) s all = all
accepted_by_step closing s all = all

abbrev pub accepted_by : List SessionStep → Session → List Message → List Message
unfolding accepted_by_step session_step
accepted_by [] s all = all
accepted_by (t ∷ ts) s all = accepted_by ts (session_step t s) (accepted_by_step t s all)

session_step-IsOrdered :
    (t : SessionStep) (s : Session) (all : List Message)
    → IsOrdered all s
    → IsOrdered (accepted_by_step t s all) (session_step t s)
unfolding session_step accepted_by_step send_snapshot set_player_of close_session offer_snapshot
session_step-IsOrdered (sending pick m) s all h = send_message-IsOrdered all pick m s h
session_step-IsOrdered (sending_snapshot pick pick' before after m) s all h =
    second_offer-IsOrdered all pick' before after m (offer_snapshot pick m s)
      (offer_to-IsOrdered all pick m s s.snapshot_ch h)
session_step-IsOrdered (writing t) s all h =
    unfold write_turns in write_turns-IsOrdered all (t ∷ []) s h
session_step-IsOrdered (binding player room) s all h = h
session_step-IsOrdered closing s all h = h

session_steps-IsOrdered :
    (ts : List SessionStep) (s : Session) (all : List Message)
    → IsOrdered all s
    → IsOrdered (accepted_by ts s all) (session_steps ts s)
unfolding session_steps accepted_by
session_steps-IsOrdered [] s all h = h
session_steps-IsOrdered (t ∷ ts) s all h =
    session_steps-IsOrdered ts (session_step t s) (accepted_by_step t s all)
      (session_step-IsOrdered t s all h)

send_message-refused :
    (pick : Bool) (m : Message) (s : Session)
    → (send_message pick m s).1 ≡ false
    → (s.capacity ≤ length s.send_ch) ⊎ (s.closed ≡ true)
unfolding send_message
send_message-refused pick m s h = ground (arith, h)

-- Send can be believed. From a new session, over any sequence of sends, snapshots, turns of the
-- write loop, bindings to a player and closings: the messages that the write loop has taken from the
-- queue and those that still wait are together exactly those to which Send answered true, in that
-- order, and no more than the capacity wait; and the next Send answers false only where the queue is
-- full or the session closed.
pub session_steps-send_message :
    (id : String) (capacity : ℕ) (ts : List SessionStep)
    → let s : Session = session_steps ts (new_session id capacity) in
      (accepted_by ts (new_session id capacity) [] ≡ s.taken ++ s.send_ch)
      × (length s.send_ch ≤ s.capacity)
      × ((pick : Bool) (m : Message)
          → (send_message pick m s).1 ≡ false
          → (s.capacity ≤ length s.send_ch) ⊎ (s.closed ≡ true))
unfolding new_session
session_steps-send_message id capacity ts =
    let (order, bound) =
      session_steps-IsOrdered ts (new_session id capacity) [] (refl, omega arith) in
    (
      order,
      bound,
      λ pick m. send_message-refused pick m (session_steps ts (new_session id capacity)),
    )
