-- ===== src/Account/Memory.antt =====
-- Hashes kept in memory, which have the behaviour that Redis documents.
use demo_server.Prelude.{
  String, false, Option, none, some, List, [], ◌∷◌, ◌≡◌, refl, sym, ap, ◌∙◌, arith,
}
use demo_server.Prelude.Text.{string_discrete}
use demo_server.Prelude.Assoc.{lookup, insert, lookup-insert}
use demo_server.Account.Redis.{
  Fields, Command, hset, expire, Redis, IsRedis, run_command, run_commands,
}

abbrev pub Hashes : Type 0
Hashes = List (String × Fields)

abbrev or_empty : Option Fields → Fields
or_empty none = []
or_empty (some fs) = fs

abbrev pub hash_of : String → Hashes → Fields
hash_of key hs = or_empty (lookup string_discrete key hs)

abbrev key_of : Command → String
key_of (hset k fs) = k
key_of (expire k ttl) = k

abbrev run_one : Command → Hashes → Hashes
run_one c hs =
    insert string_discrete (key_of c) (run_command (key_of c) c (hash_of (key_of c) hs)) hs

abbrev run_all : List Command → Hashes → Hashes
run_all [] hs = hs
run_all (c ∷ cs) hs = run_all cs (run_one c hs)

abbrev pub memory : Redis Hashes
memory = record {
  exec = λ cs hs. (run_all cs hs, false);
  hget_all = λ key hs. some (hash_of key hs);
}

hash_of-run_one :
    (key : String) (c : Command) (hs : Hashes)
    → hash_of key (run_one c hs) ≡ run_command key c (hash_of key hs)
hash_of-run_one key (hset k fs) hs =
    ground
      (arith, lookup-insert string_discrete k key (run_command k (hset k fs) (hash_of k hs)) hs)
hash_of-run_one key (expire k ttl) hs =
    ground
      (arith, lookup-insert string_discrete k key (run_command k (expire k ttl) (hash_of k hs)) hs)

hash_of-run_all :
    (key : String) (cs : List Command) (hs : Hashes)
    → hash_of key (run_all cs hs) ≡ run_commands key cs (hash_of key hs)
hash_of-run_all key [] hs = refl
hash_of-run_all key (c ∷ cs) hs =
    hash_of-run_all key cs (run_one c hs) ∙ ap (run_commands key cs) (hash_of-run_one key c hs)

pub memory-IsRedis : IsRedis memory
memory-IsRedis = record {
  hash_at = hash_of;
  hget_all-hash_at = λ key s fs h. ground (arith, h);
  exec-hash_at =
      λ cs s s' key h. ap (hash_of key) (sym (ap (λ x. x.0) h)) ∙ hash_of-run_all key cs s;
}
