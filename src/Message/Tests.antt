-- ===== src/Message/Tests.antt =====
-- Messages on a connection, and the theorems at work on them.
use demo_server.Prelude.{ℕ, ◌++◌, ◌≡◌, refl, List, [], ◌∷◌, Option, some, arith, length}
use demo_server.Message.{
  Message, done, failed, unexpected_eof, payload_too_large, read_message, read_messages,
}
use demo_server.Message.Framing.{frames_of, read_messages-frames}

abbrev heartbeat : Message
heartbeat = record { type = 3; payload = 1 ∷ 2 ∷ 3 ∷ [] }

abbrev leave_room : Message
leave_room = record { type = 15; payload = [] }

-- A writer that takes every frame whole.
abbrev writes_all : List ℕ → Option ℕ
writes_all frame = some (length frame)

truncated : read_message (0 ∷ 3 ∷ 0 ∷ 0 ∷ 0 ∷ 2 ∷ 7 ∷ []) 10 ≡ failed unexpected_eof
unfolding read_message
truncated = refl

oversized : read_message (0 ∷ 3 ∷ 1 ∷ 0 ∷ 0 ∷ 0 ∷ []) 10 ≡ failed payload_too_large
unfolding read_message
oversized = refl

read_messages-frames_example :
    read_messages 2 (frames_of (heartbeat ∷ leave_room ∷ []) ++ 9 ∷ []) 8
    ≡ done (heartbeat ∷ leave_room ∷ [], 9 ∷ [])
read_messages-frames_example =
    read_messages-frames (heartbeat ∷ leave_room ∷ []) 8 (9 ∷ [])
      ((omega arith, omega arith, omega arith), ((omega arith, omega arith, omega arith), tt))
