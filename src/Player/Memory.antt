-- ===== src/Player/Memory.antt =====
-- A collection and a counter kept in memory, which have the behaviour that MongoDB documents.
use demo_server.Prelude.{
  ℕ, ◌+◌, Bool, true, false, none, some, List, [], ◌∷◌, ◌++◌, ◌≡◌, ◌≢◌, refl, sym, ap, arith, All,
  if◌then◌else◌,
}
use demo_server.Prelude.Int.{pos}
use demo_server.Player.State.{User}
use demo_server.Player.Mongo.{
  Inserted, inserted, duplicate_key, insert_failed, find, update_first, matched,
}
use demo_server.Player.Users.{UserStore, same_key}
use demo_server.Player.Wallet.{IsUserStore}

-- The users and the last id that was given.
abbrev pub Memory : Type 0
Memory = List User × ℕ

abbrev pub clashes : User → List User → Bool
clashes u [] = false
clashes u (v ∷ vs) = let rest = clashes u vs in if same_key u v then true else rest

abbrev pub insert_memory : User → Memory → Bool → Memory × Inserted
insert_memory u m true = (m, duplicate_key)
insert_memory u m false = ((m.0 ++ u ∷ [], m.1), inserted)

abbrev pub memory : UserStore Memory
memory = record {
  collection = record {
    find_one = λ p m. some (find p m.0);
    update_one = λ p f m. ((update_first p f m.0, m.1), some (matched p m.0));
    insert_one = λ u m. insert_memory u m (clashes u m.0);
  };
  next_seq = λ m. ((m.0, m.1 + 1), some (pos (m.1 + 1)));
}

pub All-clashes :
    (u : User) (vs : List User) → clashes u vs ≡ false → All (λ v. same_key u v ≡ false) vs
All-clashes u [] h = tt
All-clashes u (v ∷ vs) h = (ground (arith, h), All-clashes u vs (ground (arith, h)))

pub insert_memory-inserted :
    (u : User) (m m' : Memory) (b : Bool)
    → insert_memory u m b ≡ (m', inserted)
    → (m'.0 ≡ m.0 ++ u ∷ []) × (b ≡ false)
insert_memory-inserted u m m' true h = absurd (ground (arith, ap (λ x. x.1) h))
insert_memory-inserted u m m' false h = (ap (λ x. x.0.0) (sym h), refl)

pub insert_memory-duplicate :
    (u : User) (m m' : Memory) (b : Bool) → insert_memory u m b ≡ (m', duplicate_key) → m'.0 ≡ m.0
insert_memory-duplicate u m m' true h = ap (λ x. x.0.0) (sym h)
insert_memory-duplicate u m m' false h = absurd (ground (arith, ap (λ x. x.1) h))

pub insert_memory-failed :
    (u : User) (m m' : Memory) (b : Bool) → insert_memory u m b ≢ (m', insert_failed)
insert_memory-failed u m m' true = λ h. absurd (ground (arith, ap (λ x. x.1) h))
insert_memory-failed u m m' false = λ h. absurd (ground (arith, ap (λ x. x.1) h))

pub value_eq : {A : Type 0} (a b : A) → some a ≡ some b → b ≡ a
value_eq a b h = ground (arith, h)

pub some-ne-none : {A : Type 0} (a : A) → some a ≢ none
some-ne-none a = λ h. ground (arith, h)

unfoldable pub memory-IsUserStore : IsUserStore memory
memory-IsUserStore = record {
  store = record {
    documents = λ m. m.0;
    find_one-documents = λ p s r h. value_eq (find p s.0) r h;
    update_one-documents =
        λ p f s s' n h. (ap (λ x. x.0.0) (sym h), value_eq (matched p s.0) n (ap (λ x. x.1) h));
    update_one_failed = λ p f s s' h. absurd (some-ne-none (matched p s.0) (ap (λ x. x.1) h));
    insert_one-documents = λ d s s' h.
        (let (e, b) = insert_memory-inserted d s s' (clashes d s.0) h in (e, All-clashes d s.0 b));
    insert_one_duplicate = λ d s s' h. insert_memory-duplicate d s s' (clashes d s.0) h;
    insert_one_failed = λ d s s' h. absurd (insert_memory-failed d s s' (clashes d s.0) h);
  };
  next_seq-documents = λ s. refl;
}
