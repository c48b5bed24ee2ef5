-- ===== src/Room/Evolve.antt =====
-- roomserver/logic: what becomes of one player and of all players from a moment to a later one.
use demo_server.Prelude.{
  ℕ, ◌≤◌, ◌<◌, true, Option, none, some, List, [], ◌∷◌, ◌≡◌, refl, ◌∙◌, sym, ap, arith, ℕ_discrete,
  All, ite, subst,
}
use demo_server.Prelude.Assoc.{lookup, insert}
use demo_server.Room.State.{Player}

abbrev value_or {ℓ} : {A : Type ℓ} → A → Option A → A
value_or d none = d
value_or d (some x) = x

pub some-injective {ℓ} : {A : Type ℓ} {a b : A} → some a ≡ some b → a ≡ b
some-injective {a = a} p = ap (value_or a) p

module _ {F : Type 0} where
  -- At most 100 points, and none left only for the dead.
  abbrev pub Healthy : Player F → Type 0
  Healthy p = (p.hp ≤ 100) × (p.alive ≡ true → 0 < p.hp)

  pub record Evolves (p q : Player F) : Type 0 where
    pub same_id : q.id ≡ p.id
    pub same_spawn : q.spawn_id ≡ p.spawn_id
    pub kills_grow : p.kill_count ≤ q.kill_count
    pub deaths_grow : p.death_count ≤ q.death_count
    pub healthy : Healthy p → Healthy q

  pub Evolves-refl : (p : Player F) → Evolves p p
  Evolves-refl p = record {
    same_id = refl;
    same_spawn = refl;
    kills_grow = omega arith;
    deaths_grow = omega arith;
    healthy = λ h. h;
  }

  -- A player whose identity, counts and health are as before.
  pub Evolves-same :
      (p q : Player F)
      → (q.id ≡ p.id)
        × (q.spawn_id ≡ p.spawn_id)
        × (q.kill_count ≡ p.kill_count)
        × (q.death_count ≡ p.death_count)
        × (q.hp ≡ p.hp)
        × (q.alive ≡ p.alive)
      → Evolves p q
  Evolves-same p q s = record {
    same_id = s.0;
    same_spawn = s.1;
    kills_grow = omega (arith, s.2);
    deaths_grow = omega (arith, s.3);
    healthy = λ h. (omega (arith, s.4, h.0), λ a. omega (arith, s.4, h.1 (sym s.5 ∙ a)));
  }

  pub Evolves-trans : {p q s : Player F} → Evolves p q → Evolves q s → Evolves p s
  Evolves-trans a b = record {
    same_id = b.same_id ∙ a.same_id;
    same_spawn = b.same_spawn ∙ a.same_spawn;
    kills_grow = omega (arith, a.kills_grow, b.kills_grow);
    deaths_grow = omega (arith, a.deaths_grow, b.deaths_grow);
    healthy = λ h. b.healthy (a.healthy h);
  }

  -- The same keys in the same order, each player evolved.
  abbrev pub AllEvolve : List (ℕ × Player F) → List (ℕ × Player F) → Type 0
  AllEvolve [] [] = Unit
  AllEvolve [] (e ∷ qs) = ⊥
  AllEvolve (e ∷ ps) [] = ⊥
  AllEvolve ((j, p) ∷ ps) ((k, q) ∷ qs) = (k ≡ j) × Evolves p q × AllEvolve ps qs

  pub AllEvolve-refl : (ps : List (ℕ × Player F)) → AllEvolve ps ps
  AllEvolve-refl [] = tt
  AllEvolve-refl ((k, p) ∷ ps) = (refl, Evolves-refl p, AllEvolve-refl ps)

  pub AllEvolve-trans :
      (ps qs ss : List (ℕ × Player F)) → AllEvolve ps qs → AllEvolve qs ss → AllEvolve ps ss
  AllEvolve-trans [] [] [] a b = tt
  AllEvolve-trans [] [] (_ ∷ ss) a b = elim b [ ]
  AllEvolve-trans [] (_ ∷ qs) ss a b = elim a [ ]
  AllEvolve-trans (_ ∷ ps) [] ss a b = elim a [ ]
  AllEvolve-trans (_ ∷ ps) (_ ∷ qs) [] a b = elim b [ ]
  AllEvolve-trans ((i, p) ∷ ps) ((j, q) ∷ qs) ((k, s) ∷ ss) a b =
      (b.0 ∙ a.0, Evolves-trans a.1 b.1, AllEvolve-trans ps qs ss a.2 b.2)

  -- A player that is written over the one it has evolved from.
  pub AllEvolve-insert :
      (k : ℕ) (p q : Player F) (ps : List (ℕ × Player F))
      → lookup ℕ_discrete k ps ≡ some p
      → Evolves p q
      → AllEvolve ps (insert ℕ_discrete k q ps)
  unfolding lookup insert
  AllEvolve-insert k p q [] h e = absurd (ground (arith, h))
  AllEvolve-insert k p q ((j, s) ∷ ps) h e =
      go (ℕ_discrete j k) (λ h'. AllEvolve-insert k p q ps h' e) h
    where
      go :
          (d : Dec (j ≡ k))
          → (lookup ℕ_discrete k ps ≡ some p → AllEvolve ps (insert ℕ_discrete k q ps))
          → ite d (some s) (lookup ℕ_discrete k ps) ≡ some p
          → AllEvolve ((j, s) ∷ ps) (ite d ((k, q) ∷ ps) ((j, s) ∷ insert ℕ_discrete k q ps))
      go (yes same) ih h' =
          (sym same, subst (λ u. Evolves u q) (sym (some-injective h')) e, AllEvolve-refl ps)
      go (no other) ih h' = (refl, Evolves-refl s, ih h')

  -- What a map holds after it has evolved.
  pub lookup-AllEvolve :
      (k : ℕ) (p : Player F) (ps qs : List (ℕ × Player F))
      → AllEvolve ps qs
      → lookup ℕ_discrete k ps ≡ some p
      → (q : Player F) × (lookup ℕ_discrete k qs ≡ some q) × Evolves p q
  unfolding lookup
  lookup-AllEvolve k p [] [] a h = absurd (ground (arith, h))
  lookup-AllEvolve k p [] (_ ∷ qs) a h = elim a [ ]
  lookup-AllEvolve k p (_ ∷ ps) [] a h = elim a [ ]
  lookup-AllEvolve k p ((i, s) ∷ ps) ((j, t) ∷ qs) a h =
      subst
        (λ (u : ℕ).
          (q : Player F) × (ite (ℕ_discrete u k) (some t) (lookup ℕ_discrete k qs) ≡ some q)
          × Evolves p q)
        (sym a.0) (go (ℕ_discrete i k) h (λ h'. lookup-AllEvolve k p ps qs a.2 h'))
    where
      go :
          (d : Dec (i ≡ k))
          → ite d (some s) (lookup ℕ_discrete k ps) ≡ some p
          → (lookup ℕ_discrete k ps ≡ some p
              → (q : Player F) × (lookup ℕ_discrete k qs ≡ some q) × Evolves p q)
          → (q : Player F) × (ite d (some t) (lookup ℕ_discrete k qs) ≡ some q) × Evolves p q
      go (yes same) h' ih = (t, refl, subst (λ u. Evolves u t) (some-injective h') a.1)
      go (no other) h' ih = ih h'

  -- Each entry is under its player's id.
  abbrev pub KeysMatch : List (ℕ × Player F) → Type 0
  KeysMatch ps = All (λ (e : ℕ × Player F). e.1.id ≡ e.0) ps

  pub AllEvolve-KeysMatch :
      (ps qs : List (ℕ × Player F)) → AllEvolve ps qs → KeysMatch ps → KeysMatch qs
  AllEvolve-KeysMatch [] [] a h = tt
  AllEvolve-KeysMatch [] (_ ∷ qs) a h = elim a [ ]
  AllEvolve-KeysMatch (_ ∷ ps) [] a h = elim a [ ]
  AllEvolve-KeysMatch ((i, s) ∷ ps) ((j, t) ∷ qs) a h =
      (a.1.same_id ∙ h.0 ∙ sym a.0, AllEvolve-KeysMatch ps qs a.2 h.1)

  pub lookup-KeysMatch :
      (k : ℕ) (p : Player F) (ps : List (ℕ × Player F))
      → KeysMatch ps
      → lookup ℕ_discrete k ps ≡ some p
      → p.id ≡ k
  unfolding lookup
  lookup-KeysMatch k p [] m h = absurd (ground (arith, h))
  lookup-KeysMatch k p ((i, s) ∷ ps) m h =
      go (ℕ_discrete i k) h (λ h'. lookup-KeysMatch k p ps m.1 h')
    where
      go :
          (d : Dec (i ≡ k))
          → ite d (some s) (lookup ℕ_discrete k ps) ≡ some p
          → (lookup ℕ_discrete k ps ≡ some p → p.id ≡ k)
          → p.id ≡ k
      go (yes same) h' ih = ap (λ (u : Player F). u.id) (sym (some-injective h')) ∙ m.0 ∙ same
      go (no other) h' ih = ih h'
