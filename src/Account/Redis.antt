-- ===== src/Account/Redis.antt =====
-- The Redis server of logicserver/repo/token.go, as far as the code calls go-redis: HSET and
-- EXPIRE in one MULTI/EXEC, and HGETALL.
use demo_server.Prelude.{
  ℕ, String, Bool, false, Option, some, List, [], ◌∷◌, ◌≡◌, ite, ◌==◌, if◌then◌else◌,
}
use demo_server.Prelude.Text.{string_discrete}
use demo_server.Prelude.Assoc.{insert}

-- The fields of a hash, map[string]string in the code.
abbrev pub Fields : Type 0
Fields = List (String × String)

pub data Command : Type 0 where
  hset : String → Fields → Command
  expire : String → ℕ → Command  -- in nanoseconds

-- The client. `exec` answers whether there was an error, `hget_all` nothing on an error.
pub record Redis (S : Type 0) : Type 0 where
  pub exec : List Command → S → S × Bool
  pub hget_all : String → S → Option Fields

abbrev pub set_fields : Fields → Fields → Fields
set_fields [] old = old
set_fields ((f, v) ∷ fs) old = set_fields fs (insert string_discrete f v old)

-- What a command makes of the hash under a key. EXPIRE with no time left deletes it.
abbrev pub run_command : String → Command → Fields → Fields
run_command key (hset k fs) old = ite (string_discrete k key) (set_fields fs old) old
run_command key (expire k ttl) old = ite (string_discrete k key) (if ttl == 0 then [] else old) old

abbrev pub run_commands : String → List Command → Fields → Fields
run_commands key [] old = old
run_commands key (c ∷ cs) old = run_commands key cs (run_command key c old)

-- What Redis documents: a key has a hash, empty where there is none; HGETALL reads it, and a
-- transaction that succeeds runs its commands in order, on each key alone.
pub record IsRedis {S : Type 0} (redis : Redis S) : Type 0 where
  pub hash_at : String → S → Fields
  pub hget_all-hash_at :
      (key : String) (s : S) (fs : Fields) → redis.hget_all key s ≡ some fs → fs ≡ hash_at key s
  pub exec-hash_at :
      (cs : List Command) (s s' : S) (key : String)
      → redis.exec cs s ≡ (s', false)
      → hash_at key s' ≡ run_commands key cs (hash_at key s)
