-- ===== src/Message/Framing.antt =====
-- roomserver/protocol/message.go: WriteMessage followed by ReadMessage.
use demo_server.Prelude.{
  ℕ, ◌/◌, ◌%◌, ◌^◌, ◌≤◌, ◌<◌, Bool, true, false, Option, none, some, List, [], ◌∷◌, ◌++◌, length,
  ltb, ◌==◌, if◌then◌else◌, ◌≡◌, refl, ap, ◌∙◌, arith, All,
}
use demo_server.Message.{
  Message, Fault, Outcome, done, failed, payload_too_large, short_write, put_uint16, put_uint32,
  uint16, uint32, with_byte, read_rest, read_full, with_payload, read_message, frame_of,
  after_write, write_message, with_message, read_messages,
}

read_rest-append : (xs ys : List ℕ) → read_rest (length xs) (xs ++ ys) ≡ done (xs, ys)
unfolding read_rest
read_rest-append [] ys = refl
read_rest-append (x ∷ xs) ys = ap (with_byte x) (read_rest-append xs ys)

read_full-append : (xs ys : List ℕ) → read_full (length xs) (xs ++ ys) ≡ done (xs, ys)
unfolding read_full
read_full-append [] ys = refl
read_full-append (x ∷ xs) ys = read_rest-append (x ∷ xs) ys

uint16-put_uint16 : (v : ℕ) → v < 65536 → uint16 (v / 256 % 256) (v % 256) ≡ v
uint16-put_uint16 v h = omega (arith, h)

uint32-put_uint32 :
    (v : ℕ)
    → v < 4294967296
    → uint32 (v / 16777216 % 256) (v / 65536 % 256) (v / 256 % 256) (v % 256) ≡ v
uint32-put_uint32 v h = omega (arith, h)

-- A message whose type and length fit into their fields of the header.
abbrev pub Fits : ℕ → Message → Type 0
Fits max m = (m.type < 65536) × (length m.payload < 4294967296) × (length m.payload ≤ max)

-- Frames one after the other, as a connection carries them.
abbrev pub frames_of : List Message → List ℕ
frames_of [] = []
frames_of (m ∷ ms) = frame_of m ++ frames_of ms

append_assoc : (xs ys zs : List ℕ) → (xs ++ ys) ++ zs ≡ xs ++ (ys ++ zs)
append_assoc [] ys zs = refl
append_assoc (x ∷ xs) ys zs = ap (λ (us : List ℕ). x ∷ us) (append_assoc xs ys zs)

-- The rest of the header once its numbers are known.
body_of-frame :
    (m : Message) (max : ℕ) (rest : List ℕ) (n t : ℕ)
    → n ≡ length m.payload
    → t ≡ m.type
    → length m.payload ≤ max
    → (if ltb max n
        then failed payload_too_large
        else with_payload t (read_full n (m.payload ++ rest)))
      ≡ done (m, rest)
body_of-frame m max rest n t e u l =
    rw e (rw u (rw (read_full-append m.payload rest) (go (ltb max (length m.payload)) refl)))
  where
    go :
        (b : Bool)
        → ltb max (length m.payload) ≡ b
        → (let o : Outcome (Message × List ℕ) = done (m, rest) in
            if b then failed payload_too_large else o)
          ≡ done (m, rest)
    go true h = absurd (ground (arith, h, l))
    go false h = refl

length-mod :
    (m : Message) → length m.payload < 4294967296 → length m.payload % 2 ^ 32 ≡ length m.payload
length-mod m h = omega (arith, h)

-- A frame that is followed by anything reads back as its message, and leaves what follows.
pub read_message-frame_of :
    (m : Message) (max : ℕ) (rest : List ℕ)
    → Fits max m
    → read_message (frame_of m ++ rest) max ≡ done (m, rest)
unfolding read_message frame_of put_uint16 put_uint32
read_message-frame_of m max rest f =
    body_of-frame m max rest _ _
      (uint32-put_uint32 (length m.payload % 2 ^ 32) (omega arith) ∙ length-mod m f.1)
      (uint16-put_uint16 m.type f.0) f.2

after_write-frame : (frame : List ℕ) (o : Option ℕ) → (after_write frame o).0 ≡ frame
after_write-frame frame none = refl
after_write-frame frame (some n) = go (n == length frame)
  where
    go :
        (b : Bool)
        → (let w : List ℕ × Option Fault = if b then (frame, none) else (frame, some short_write) in
            w.0)
          ≡ frame
    go true = refl
    go false = refl

-- What WriteMessage writes without an error, for a type of 16 bits and a payload shorter than 2^32,
-- reads back as the same message, whatever follows.
pub read_message-write_message :
    (writer : List ℕ → Option ℕ) (m : Message) (max : ℕ) (rest : List ℕ)
    → m.type < 65536
    → length m.payload < 4294967296
    → (write_message writer m max).1 ≡ none
    → read_message ((write_message writer m max).0 ++ rest) max ≡ done (m, rest)
unfolding write_message
read_message-write_message writer m max rest t l h = go (ltb max (length m.payload % 2 ^ 32)) refl h
  where
    go :
        (b : Bool)
        → ltb max (length m.payload % 2 ^ 32) ≡ b
        → (let w : List ℕ × Option Fault =
              if b
              then ([], some payload_too_large)
              else after_write (frame_of m) (writer (frame_of m)) in
            w.1 ≡ none → read_message (w.0 ++ rest) max ≡ done (m, rest))
    go true e h' = absurd (ground (arith, h'))
    go false e h' =
        rw (after_write-frame (frame_of m) (writer (frame_of m)))
          (read_message-frame_of m max rest (t, l, ground (arith, e, length-mod m l)))

-- A stream of frames of messages that fit the header and the limit reads back as those messages,
-- each once and in order, and leaves what follows.
pub read_messages-frames :
    (ms : List Message) (max : ℕ) (rest : List ℕ)
    → All (Fits max) ms
    → read_messages (length ms) (frames_of ms ++ rest) max ≡ done (ms, rest)
unfolding read_messages
read_messages-frames [] max rest h = refl
read_messages-frames (m ∷ ms) max rest h = rw (append_assoc (frame_of m) (frames_of ms) rest) (
    rw (read_message-frame_of m max (frames_of ms ++ rest) h.0)
      (ap (with_message m) (read_messages-frames ms max rest h.1)))
