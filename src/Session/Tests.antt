-- ===== src/Session/Tests.antt =====
-- A session whose queue holds two messages, and the theorems at work on it.
use demo_server.Prelude.{ℕ, Bool, true, false, List, [], ◌∷◌, ◌++◌, ◌≤◌, ◌⊎◌, ◌≡◌, length}
use demo_server.Message.{Message}
use demo_server.Session.{
  Session, new_session, from_send, from_snapshot, send_message, send_snapshot,
}
use demo_server.Session.Queue.{
  accepted_by, SessionStep, sending, sending_snapshot, writing, closing, session_steps,
  session_steps-send_message,
}
use demo_server.Session.Latest.{IsLatest, send_snapshot-IsLatest}

abbrev note : ℕ → Message
note n = record { type = 6; payload = n ∷ [] }

abbrev fresh : Session
unfolding new_session
fresh = new_session "s-1" 2

abbrev a_day : List SessionStep
a_day =
    sending true (note 1)
    ∷ sending true (note 2)
    ∷ sending true (note 3)
    ∷ sending_snapshot true true [] (from_send true ∷ []) (note 4)
    ∷ sending_snapshot true true (from_send true ∷ []) [] (note 5)
    ∷ writing (from_snapshot true)
    ∷ closing
    ∷ sending false (note 6)
    ∷ []

session_steps-send_message_example :
    (accepted_by a_day (new_session "s-1" 2) []
      ≡ (session_steps a_day (new_session "s-1" 2)).taken
        ++ (session_steps a_day (new_session "s-1" 2)).send_ch)
    × (length (session_steps a_day (new_session "s-1" 2)).send_ch
        ≤ (session_steps a_day (new_session "s-1" 2)).capacity)
    × ((pick : Bool) (m : Message)
        → (send_message pick m (session_steps a_day (new_session "s-1" 2))).1 ≡ false
        → ((session_steps a_day (new_session "s-1" 2)).capacity
            ≤ length (session_steps a_day (new_session "s-1" 2)).send_ch)
          ⊎ ((session_steps a_day (new_session "s-1" 2)).closed ≡ true))
session_steps-send_message_example = session_steps-send_message "s-1" 2 a_day

send_snapshot-IsLatest_example :
    IsLatest (note 5) (send_snapshot true true (from_send true ∷ []) [] (note 5) fresh)
send_snapshot-IsLatest_example =
    send_snapshot-IsLatest true true (from_send true ∷ []) [] (note 5) fresh
