-- ===== src/Player/Documents.antt =====
-- Lists of documents under the updates of a collection.
use demo_server.Prelude.{
  ℕ, Bool, true, false, Option, none, some, List, [], ◌∷◌, ◌++◌, ◌≡◌, inl, inr, refl, sym, subst,
  if◌then◌else◌, All, All-append, arith,
}
use demo_server.Player.Mongo.{
  Collection, IsCollection, Inserted, inserted, duplicate_key, insert_failed, find, update_first,
}

module _ {D : Type 0} where
  pub All-update_first :
      (P : D → Type 0) (p : D → Bool) (f : D → D) (ds : List D)
      → ((d : D) → p d ≡ true → P d → P (f d))
      → All P ds
      → All P (update_first p f ds)
  All-update_first P p f [] keep h = tt
  All-update_first P p f (d ∷ ds) keep h = go (p d) refl (All-update_first P p f ds keep h.1)
    where
      go :
          (b : Bool)
          → p d ≡ b
          → All P (update_first p f ds)
          → All P (if b then f d ∷ ds else d ∷ update_first p f ds)
      go true e rest = (keep d e h.0, h.1)
      go false e rest = (h.0, rest)

  pub All-find :
      (P : D → Type 0) (p : D → Bool) (ds : List D) (d : D)
      → All P ds
      → find p ds ≡ some d
      → P d × (p d ≡ true)
  All-find P p [] d h e = absurd (ground arith)
  All-find P p (c ∷ ds) d h e = go (p c) refl e (All-find P p ds d h.1)
    where
      go :
          (b : Bool)
          → p c ≡ b
          → (if b then some c else find p ds) ≡ some d
          → (find p ds ≡ some d → P d × (p d ≡ true))
          → P d × (p d ≡ true)
      go true t u rest =
          let same : c ≡ d = ground arith in subst (λ x. P x × (p x ≡ true)) same (h.0, t)
      go false t u rest = rest u

  pub find_passes : (p : D → Bool) (ds : List D) (d : D) → find p ds ≡ some d → p d ≡ true
  find_passes p [] d e = ground arith
  find_passes p (c ∷ ds) d e = ground (arith, e, find_passes p ds d)

  module _ (clash : D → D → Bool) where
    -- No later document clashes with an earlier one.
    abbrev pub IsUnique : List D → Type 0
    IsUnique [] = Unit
    IsUnique (d ∷ ds) = All (λ e. clash e d ≡ false) ds × IsUnique ds

    pub IsUnique-append_one :
        (d : D) (ds : List D)
        → All (λ e. clash d e ≡ false) ds
        → IsUnique ds
        → IsUnique (ds ++ d ∷ [])
    IsUnique-append_one d [] a u = (tt, tt)
    IsUnique-append_one d (c ∷ ds) a u = (
      All-append (λ e. clash e c ≡ false) ds (d ∷ []) u.0 (a.0, tt),
      IsUnique-append_one d ds a.1 u.1,
    )

    -- An update that keeps what the index looks at.
    abbrev pub KeepsKey : (D → D) → Type 0
    KeepsKey f = (d e : D) → (clash (f d) e ≡ clash d e) × (clash e (f d) ≡ clash e d)

    All-clash-update_first :
        (c : D) (p : D → Bool) (f : D → D) (ds : List D)
        → KeepsKey f
        → All (λ e. clash e c ≡ false) ds
        → All (λ e. clash e c ≡ false) (update_first p f ds)
    All-clash-update_first c p f ds keep =
        All-update_first (λ e. clash e c ≡ false) p f ds (λ d t h. ground (arith, keep d c, h))

    All-clash_kept :
        (c : D) (f : D → D) (ds : List D)
        → KeepsKey f
        → All (λ e. clash e c ≡ false) ds
        → All (λ e. clash e (f c) ≡ false) ds
    All-clash_kept c f [] keep h = tt
    All-clash_kept c f (d ∷ ds) keep h =
        (ground (arith, (keep c d).1, h.0), All-clash_kept c f ds keep h.1)

    pub IsUnique-update_first :
        (p : D → Bool) (f : D → D) (ds : List D)
        → KeepsKey f
        → IsUnique ds
        → IsUnique (update_first p f ds)
    IsUnique-update_first p f [] keep u = tt
    IsUnique-update_first p f (d ∷ ds) keep u = go (p d) (IsUnique-update_first p f ds keep u.1)
      where
        go :
            (b : Bool)
            → IsUnique (update_first p f ds)
            → IsUnique (if b then f d ∷ ds else d ∷ update_first p f ds)
        go true rest = (All-clash_kept d f ds keep u.0, u.1)
        go false rest = (All-clash-update_first d p f ds keep u.0, rest)

-- An invariant of each document, with the unique indexes, over the calls of a collection.
module _ {S D : Type 0} {c : Collection S D} {clash : D → D → Bool} (laws : IsCollection c clash)
    (P : D → Type 0) where
  open laws use {documents}

  abbrev pub Holds : S → Type 0
  Holds s = All P (documents s) × IsUnique clash (documents s)

  pub update_one-Holds :
      (p : D → Bool) (f : D → D) (s : S)
      → ((d : D) → p d ≡ true → P d → P (f d))
      → KeepsKey clash f
      → Holds s
      → Holds ((c.update_one p f s).0)
  update_one-Holds p f s keep key h = go (c.update_one p f s) refl
    where
      updated : (s' : S) → documents s' ≡ update_first p f (documents s) → Holds s'
      updated s' e =
          subst (λ ds. All P ds × IsUnique clash ds) (sym e)
            (
              All-update_first P p f (documents s) keep h.0,
              IsUnique-update_first clash p f (documents s) key h.1,
            )

      go : (r : S × Option ℕ) → c.update_one p f s ≡ r → Holds (r.0)
      go (s', some n) e = updated s' (laws.update_one-documents p f s s' n e).0
      go (s', none) e = elim (laws.update_one_failed p f s s' e) [
        | inl u ↦ updated s' u
        | inr u ↦ subst (λ ds. All P ds × IsUnique clash ds) (sym u) h
      ]

  pub insert_one-Holds : (d : D) (s : S) → P d → Holds s → Holds ((c.insert_one d s).0)
  insert_one-Holds d s good h = go (c.insert_one d s) refl
    where
      kept : (s' : S) → documents s' ≡ documents s → Holds s'
      kept s' e = subst (λ ds. All P ds × IsUnique clash ds) (sym e) h

      added :
          (s' : S)
          → (documents s' ≡ documents s ++ d ∷ []) × All (λ e. clash d e ≡ false) (documents s)
          → Holds s'
      added s' e =
          subst (λ ds. All P ds × IsUnique clash ds) (sym e.0)
            (
              All-append P (documents s) (d ∷ []) h.0 (good, tt),
              IsUnique-append_one clash d (documents s) e.1 h.1,
            )

      go : (r : S × Inserted) → c.insert_one d s ≡ r → Holds (r.0)
      go (s', inserted) e = added s' (laws.insert_one-documents d s s' e)
      go (s', duplicate_key) e = kept s' (laws.insert_one_duplicate d s s' e)
      go (s', insert_failed) e = elim (laws.insert_one_failed d s s' e) [
        | inl u ↦ kept s' u
        | inr u ↦ added s' u
      ]
