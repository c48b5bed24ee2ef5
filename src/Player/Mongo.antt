-- ===== src/Player/Mongo.antt =====
-- MongoDB, as far as logicserver/repo calls its driver on a collection: FindOne, UpdateOne and
-- InsertOne, where a filter is a test and an update a function on documents.
use demo_server.Prelude.{
  ℕ, Bool, false, Option, none, some, List, [], ◌∷◌, ◌++◌, ◌≡◌, ◌⊎◌, if◌then◌else◌, All,
}

pub data Inserted : Type 0 where
  inserted duplicate_key insert_failed : Inserted

pub record Collection (S D : Type 0) : Type 0 where
  pub find_one : (D → Bool) → S → Option (Option D)  -- none: an error; some none: no document
  pub update_one : (D → Bool) → (D → D) → S → S × Option ℕ  -- MatchedCount, or none on an error
  pub insert_one : D → S → S × Inserted

module _ {D : Type 0} where
  -- The first document that passes.
  abbrev pub find : (D → Bool) → List D → Option D
  find p [] = none
  find p (d ∷ ds) = let rest = find p ds in if p d then some d else rest

  -- The documents with the first that passes changed.
  abbrev pub update_first : (D → Bool) → (D → D) → List D → List D
  update_first p f [] = []
  update_first p f (d ∷ ds) = let rest = update_first p f ds in if p d then f d ∷ ds else d ∷ rest

  -- How many documents an update matches.
  abbrev pub matched : (D → Bool) → List D → ℕ
  matched p ds = elim (find p ds) [ none ↦ 0 | some d ↦ 1 ]

-- What MongoDB documents: each call reads or changes one document, at once; `clash` is what the
-- unique indexes forbid of two documents. A call that fails may have been carried out.
pub record IsCollection {S D : Type 0} (c : Collection S D) (clash : D → D → Bool) : Type 0 where
  pub documents : S → List D
  pub find_one-documents :
      (p : D → Bool) (s : S) (r : Option D) → c.find_one p s ≡ some r → r ≡ find p (documents s)
  pub update_one-documents :
      (p : D → Bool) (f : D → D) (s s' : S) (n : ℕ)
      → c.update_one p f s ≡ (s', some n)
      → (documents s' ≡ update_first p f (documents s)) × (n ≡ matched p (documents s))
  pub update_one_failed :
      (p : D → Bool) (f : D → D) (s s' : S)
      → c.update_one p f s ≡ (s', none)
      → (documents s' ≡ update_first p f (documents s)) ⊎ (documents s' ≡ documents s)
  pub insert_one-documents :
      (d : D) (s s' : S)
      → c.insert_one d s ≡ (s', inserted)
      → (documents s' ≡ documents s ++ d ∷ []) × All (λ e. clash d e ≡ false) (documents s)
  pub insert_one_duplicate :
      (d : D) (s s' : S) → c.insert_one d s ≡ (s', duplicate_key) → documents s' ≡ documents s
  pub insert_one_failed :
      (d : D) (s s' : S)
      → c.insert_one d s ≡ (s', insert_failed)
      → (documents s' ≡ documents s)
        ⊎ ((documents s' ≡ documents s ++ d ∷ []) × All (λ e. clash d e ≡ false) (documents s))
