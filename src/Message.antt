-- ===== src/Message.antt =====
-- roomserver/protocol/message.go: messages as frames of bytes, big-endian, on a connection. A byte
-- is a number below 256, and a reader the bytes that it still has to give before its end.
use demo_server.Prelude.{
  ℕ, zero, suc, ◌+◌, ◌*◌, ◌/◌, ◌%◌, ◌^◌, Bool, true, false, Option, none, some, List, [], ◌∷◌, ◌++◌,
  length, ltb, ◌==◌, if◌then◌else◌,
}
mod Framing
mod Tests

pub record Message : Type 0 where
  pub type : ℕ
  pub payload : List ℕ

pub data Fault : Type 0 where
  eof unexpected_eof payload_too_large write_failed short_write : Fault

pub data Outcome (A : Type 0) : Type 0 where
  done : A → Outcome A
  failed : Fault → Outcome A

-- binary.BigEndian
unfoldable pub put_uint16 : ℕ → List ℕ
put_uint16 v = v / 256 % 256 ∷ v % 256 ∷ []

unfoldable pub put_uint32 : ℕ → List ℕ
put_uint32 v = v / 16777216 % 256 ∷ v / 65536 % 256 ∷ v / 256 % 256 ∷ v % 256 ∷ []

abbrev pub uint16 : ℕ → ℕ → ℕ
uint16 a b = a * 256 + b

abbrev pub uint32 : ℕ → ℕ → ℕ → ℕ → ℕ
uint32 a b c d = a * 16777216 + b * 65536 + c * 256 + d

abbrev pub with_byte : ℕ → Outcome (List ℕ × List ℕ) → Outcome (List ℕ × List ℕ)
with_byte b (failed f) = failed f
with_byte b (done (read, left)) = done (b ∷ read, left)

-- io.ReadFull after the first byte: the bytes read and those left.
unfoldable pub read_rest : ℕ → List ℕ → Outcome (List ℕ × List ℕ)
read_rest zero bytes = done ([], bytes)
read_rest (suc n) [] = failed unexpected_eof
read_rest (suc n) (b ∷ bytes) = with_byte b (read_rest n bytes)

unfoldable pub read_full : ℕ → List ℕ → Outcome (List ℕ × List ℕ)
unfolding read_rest
read_full zero bytes = done ([], bytes)
read_full (suc n) [] = failed eof
read_full (suc n) (b ∷ bytes) = read_rest (suc n) (b ∷ bytes)

abbrev pub with_payload : ℕ → Outcome (List ℕ × List ℕ) → Outcome (Message × List ℕ)
with_payload type (failed f) = failed f
with_payload type (done (payload, left)) = done (record { type = type; payload = payload }, left)

-- The length is compared before the payload is read.
abbrev pub after_header : ℕ → Outcome (List ℕ × List ℕ) → Outcome (Message × List ℕ)
unfolding read_full
after_header max (failed f) = failed f
after_header max (done (a ∷ b ∷ c ∷ d ∷ e ∷ f ∷ [], left)) =
    if ltb max (uint32 c d e f)
    then failed payload_too_large
    else with_payload (uint16 a b) (read_full (uint32 c d e f) left)
after_header max (done (_, left)) = failed unexpected_eof

-- The message, and the bytes that are left for the next one.
unfoldable pub read_message : List ℕ → ℕ → Outcome (Message × List ℕ)
unfolding read_full after_header
read_message reader max = after_header max (read_full 6 reader)

unfoldable pub frame_of : Message → List ℕ
unfolding put_uint16 put_uint32
frame_of m = put_uint16 m.type ++ put_uint32 (length m.payload % 2 ^ 32) ++ m.payload

abbrev pub after_write : List ℕ → Option ℕ → List ℕ × Option Fault
after_write frame none = (frame, some write_failed)
after_write frame (some n) = if n == length frame then (frame, none) else (frame, some short_write)

-- What is handed to the writer, and the error. `writer` is how many bytes the writer says that it
-- has written of a frame, none where it fails.
unfoldable pub write_message : (List ℕ → Option ℕ) → Message → ℕ → List ℕ × Option Fault
unfolding frame_of
write_message writer m max =
    if ltb max (length m.payload % 2 ^ 32)
    then ([], some payload_too_large)
    else after_write (frame_of m) (writer (frame_of m))

abbrev pub with_message :
    Message → Outcome (List Message × List ℕ) → Outcome (List Message × List ℕ)
with_message m (failed f) = failed f
with_message m (done (ms, left)) = done (m ∷ ms, left)

abbrev pub after_message :
    Outcome (Message × List ℕ)
    → (List ℕ → Outcome (List Message × List ℕ))
    → Outcome (List Message × List ℕ)
after_message (failed f) more = failed f
after_message (done (m, left)) more = with_message m (more left)

-- As many messages as are asked for, one after the other.
unfoldable pub read_messages : ℕ → List ℕ → ℕ → Outcome (List Message × List ℕ)
unfolding read_message
read_messages zero reader max = done ([], reader)
read_messages (suc n) reader max =
    after_message (read_message reader max) (λ left. read_messages n left max)
