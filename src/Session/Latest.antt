-- ===== src/Session/Latest.antt =====
-- roomserver/service/session.go: what SendSnapshot leaves in the channel of the snapshots.
use demo_server.Prelude.{
  Bool, true, false, Option, none, some, List, [], ◌∷◌, ◌||◌, not, if◌then◌else◌, ◌≡◌, refl, arith,
}
use demo_server.Message.{Message}
use demo_server.Session.{
  Session, offer_to, offer_snapshot, drop_snapshot, close_session, WriteTurn, from_send,
  from_snapshot, after_write_message, take_send, take_snapshot, write_turn, write_turns,
  settle_offer, second_offer, send_snapshot,
}

after_write_message_no_snapshot :
    (ok : Bool) (s : Session) → s.snapshot_ch ≡ none → (after_write_message ok s).snapshot_ch ≡ none
unfolding close_session
after_write_message_no_snapshot true s h = h
after_write_message_no_snapshot false s h = h

take_send_no_snapshot :
    (ok : Bool) (s : Session) (q : List Message)
    → s.snapshot_ch ≡ none
    → (take_send ok s q).snapshot_ch ≡ none
take_send_no_snapshot ok s [] h = h
take_send_no_snapshot ok s (m ∷ ms) h = after_write_message_no_snapshot ok _ h

take_snapshot_no_snapshot :
    (ok : Bool) (s : Session) (o : Option Message)
    → s.snapshot_ch ≡ none
    → (take_snapshot ok s o).snapshot_ch ≡ none
take_snapshot_no_snapshot ok s none h = h
take_snapshot_no_snapshot ok s (some m) h = after_write_message_no_snapshot ok _ refl

write_turns_no_snapshot :
    (ts : List WriteTurn) (s : Session)
    → s.snapshot_ch ≡ none
    → (write_turns ts s).snapshot_ch ≡ none
unfolding write_turns write_turn
write_turns_no_snapshot [] s h = h
write_turns_no_snapshot (from_send ok ∷ ts) s h =
    write_turns_no_snapshot ts _ (take_send_no_snapshot ok s s.send_ch h)
write_turns_no_snapshot (from_snapshot ok ∷ ts) s h =
    write_turns_no_snapshot ts _ (take_snapshot_no_snapshot ok s s.snapshot_ch h)

-- The snapshot is in the channel, or the session is closed.
abbrev pub IsLatest : Message → Session × Bool → Type 0
IsLatest m o = (o.1 ≡ true → o.0.snapshot_ch ≡ some m) × (o.1 ≡ false → o.0.closed ≡ true)

IsLatest-refused : (m : Message) (s : Session) → s.closed ≡ true → IsLatest m (s, false)
IsLatest-refused m s h = (λ e. absurd (ground (arith, e)), λ e. h)

-- An offer to an empty channel.
IsLatest-offer :
    (pick : Bool) (m : Message) (s : Session) (o : Option Message)
    → o ≡ none
    → IsLatest m (settle_offer (offer_to pick m s o))
IsLatest-offer pick m s (some old) h = absurd (ground (arith, h))
IsLatest-offer pick m s none h = go (not s.closed || pick) refl
  where
    go :
        (b : Bool)
        → (not s.closed || pick) ≡ b
        → (let o : Session × Option Bool =
              if b then (record s { snapshot_ch = some m }, some true) else (s, some false) in
            IsLatest m (settle_offer o))
    go true e = (λ u. refl, λ u. absurd (ground (arith, u)))
    go false e = IsLatest-refused m s (ground (arith, e))

IsLatest-second :
    (pick pick' : Bool) (before after : List WriteTurn) (m : Message) (s : Session)
    (o : Option Message)
    → s.snapshot_ch ≡ o
    → IsLatest m (second_offer pick' before after m (offer_to pick m s o))
unfolding offer_snapshot drop_snapshot
IsLatest-second pick pick' before after m s (some old) h = go s.closed refl
  where
    go :
        (b : Bool)
        → s.closed ≡ b
        → (let o : Session × Option Bool = if b then (s, some false) else (s, none) in
            IsLatest m (second_offer pick' before after m o))
    go true e = IsLatest-refused m s e
    go false e =
        let kept : Session = write_turns after (drop_snapshot (write_turns before s)) in
        IsLatest-offer pick' m kept kept.snapshot_ch (write_turns_no_snapshot after _ refl)
IsLatest-second pick pick' before after m s none h = go (not s.closed || pick) refl
  where
    go :
        (b : Bool)
        → (not s.closed || pick) ≡ b
        → (let o : Session × Option Bool =
              if b then (record s { snapshot_ch = some m }, some true) else (s, some false) in
            IsLatest m (second_offer pick' before after m o))
    go true e = (λ u. refl, λ u. absurd (ground (arith, u)))
    go false e = IsLatest-refused m s (ground (arith, e))

-- Whatever the write loop does between its selects, SendSnapshot either leaves the new snapshot
-- as the one that waits, in place of an older one, or the session is closed.
pub send_snapshot-IsLatest :
    (pick pick' : Bool) (before after : List WriteTurn) (m : Message) (s : Session)
    → IsLatest m (send_snapshot pick pick' before after m s)
unfolding send_snapshot offer_snapshot
send_snapshot-IsLatest pick pick' before after m s =
    IsLatest-second pick pick' before after m s s.snapshot_ch refl
