-- ===== src/Room/Seats.antt =====
-- roomserver/logic: what makes a roster sound, under evolving, joining and leaving.
use demo_server.Prelude.{
  ℕ, suc, ◌≤◌, ◌<◌, String, false, none, some, List, [], ◌∷◌, ◌≡◌, refl, ◌∙◌, sym, if_neg, arith,
  ap, ℕ_discrete, length, All,
}
use demo_server.Prelude.Text.{is_empty}
use demo_server.Prelude.Assoc.{
  lookup, insert, delete, IsMap, insert-IsMap, delete-IsMap, length-insert_new, length-delete-le,
}
use demo_server.Room.State.{Player, SpawnPoint}
use demo_server.Room.Join.{is_spawn_used, first_free}
use demo_server.Room.Evolve.{Healthy, AllEvolve, KeysMatch, AllEvolve-KeysMatch}

module _ {F : Type 0} where
  -- No player's spawn point is that of another.
  abbrev pub SpawnsApart : List (ℕ × Player F) → Type 0
  SpawnsApart [] = Unit
  SpawnsApart ((k, p) ∷ ps) =
      (is_empty p.spawn_id ≡ false) × (is_spawn_used p.spawn_id ps ≡ false) × SpawnsApart ps

  pub record Sound (limit : ℕ) (ps : List (ℕ × Player F)) : Type 0 where
    pub within : length ps ≤ limit
    pub is_map : IsMap ℕ_discrete ps
    pub keys : KeysMatch ps
    pub healthy : All (λ (e : ℕ × Player F). Healthy e.1) ps
    pub apart : SpawnsApart ps

  -- Evolving.
  lookup-none-AllEvolve :
      (k : ℕ) (ps qs : List (ℕ × Player F))
      → AllEvolve ps qs
      → lookup ℕ_discrete k ps ≡ none
      → lookup ℕ_discrete k qs ≡ none
  unfolding lookup
  lookup-none-AllEvolve k [] [] a h = refl
  lookup-none-AllEvolve k [] (_ ∷ qs) a h = elim a [ ]
  lookup-none-AllEvolve k (_ ∷ ps) [] a h = elim a [ ]
  lookup-none-AllEvolve k ((i, p) ∷ ps) ((j, q) ∷ qs) a h =
      ground (arith, h, a.0, lookup-none-AllEvolve k ps qs a.2)

  is_spawn_used-AllEvolve :
      (id : String) (ps qs : List (ℕ × Player F))
      → AllEvolve ps qs
      → is_spawn_used id qs ≡ is_spawn_used id ps
  unfolding is_spawn_used
  is_spawn_used-AllEvolve id [] [] a = refl
  is_spawn_used-AllEvolve id [] (_ ∷ qs) a = elim a [ ]
  is_spawn_used-AllEvolve id (_ ∷ ps) [] a = elim a [ ]
  is_spawn_used-AllEvolve id ((i, p) ∷ ps) ((j, q) ∷ qs) a =
      rw (a.1.same_spawn) (rw (is_spawn_used-AllEvolve id ps qs a.2) refl)

  length-AllEvolve : (ps qs : List (ℕ × Player F)) → AllEvolve ps qs → length qs ≡ length ps
  length-AllEvolve [] [] a = refl
  length-AllEvolve [] (_ ∷ qs) a = elim a [ ]
  length-AllEvolve (_ ∷ ps) [] a = elim a [ ]
  length-AllEvolve (_ ∷ ps) (_ ∷ qs) a = ap suc (length-AllEvolve ps qs a.2)

  IsMap-AllEvolve :
      (ps qs : List (ℕ × Player F)) → AllEvolve ps qs → IsMap ℕ_discrete ps → IsMap ℕ_discrete qs
  IsMap-AllEvolve [] [] a h = tt
  IsMap-AllEvolve [] (_ ∷ qs) a h = elim a [ ]
  IsMap-AllEvolve (_ ∷ ps) [] a h = elim a [ ]
  IsMap-AllEvolve ((i, p) ∷ ps) ((j, q) ∷ qs) a h = (
    lookup-none-AllEvolve j ps qs a.2 (ap (λ (k : ℕ). lookup ℕ_discrete k ps) a.0 ∙ h.0),
    IsMap-AllEvolve ps qs a.2 h.1,
  )

  Healthy-AllEvolve :
      (ps qs : List (ℕ × Player F))
      → AllEvolve ps qs
      → All (λ (e : ℕ × Player F). Healthy e.1) ps
      → All (λ (e : ℕ × Player F). Healthy e.1) qs
  Healthy-AllEvolve [] [] a h = tt
  Healthy-AllEvolve [] (_ ∷ qs) a h = elim a [ ]
  Healthy-AllEvolve (_ ∷ ps) [] a h = elim a [ ]
  Healthy-AllEvolve (_ ∷ ps) (_ ∷ qs) a h = (a.1.healthy h.0, Healthy-AllEvolve ps qs a.2 h.1)

  SpawnsApart-AllEvolve :
      (ps qs : List (ℕ × Player F)) → AllEvolve ps qs → SpawnsApart ps → SpawnsApart qs
  SpawnsApart-AllEvolve [] [] a h = tt
  SpawnsApart-AllEvolve [] (_ ∷ qs) a h = elim a [ ]
  SpawnsApart-AllEvolve (_ ∷ ps) [] a h = elim a [ ]
  SpawnsApart-AllEvolve ((i, p) ∷ ps) ((j, q) ∷ qs) a h = (
    ap is_empty a.1.same_spawn ∙ h.0,
    is_spawn_used-AllEvolve q.spawn_id ps qs a.2
        ∙ ap (λ (s : String). is_spawn_used s ps) a.1.same_spawn
        ∙ h.1,
    SpawnsApart-AllEvolve ps qs a.2 h.2,
  )

  pub Sound-AllEvolve :
      (limit : ℕ) (ps qs : List (ℕ × Player F)) → AllEvolve ps qs → Sound limit ps → Sound limit qs
  Sound-AllEvolve limit ps qs a s = record {
    within = omega (arith, s.within, length-AllEvolve ps qs a);
    is_map = IsMap-AllEvolve ps qs a s.is_map;
    keys = AllEvolve-KeysMatch ps qs a s.keys;
    healthy = Healthy-AllEvolve ps qs a s.healthy;
    apart = SpawnsApart-AllEvolve ps qs a s.apart;
  }

  -- Joining.
  is_spawn_used-insert :
      (id : String) (k : ℕ) (q : Player F) (ps : List (ℕ × Player F))
      → lookup ℕ_discrete k ps ≡ none
      → is_spawn_used id ps ≡ false
      → ¬ (q.spawn_id ≡ id)
      → is_spawn_used id (insert ℕ_discrete k q ps) ≡ false
  unfolding is_spawn_used lookup insert
  is_spawn_used-insert id k q [] h u ne = ground (arith, ne)
  is_spawn_used-insert id k q ((j, p) ∷ ps) h u ne =
      ground (arith, h, u, is_spawn_used-insert id k q ps)

  -- The spawn point that is chosen has a name, and no player of the room has it.
  pub first_free-IsUnused :
      (ps : List (ℕ × Player F)) (ss : List (SpawnPoint F)) (s : SpawnPoint F)
      → first_free ps ss ≡ some s
      → (is_empty s.id ≡ false) × (is_spawn_used s.id ps ≡ false)
  unfolding first_free
  first_free-IsUnused ps [] s h = absurd (ground (arith, h))
  first_free-IsUnused ps (t ∷ ss) s h = ground (arith, h, first_free-IsUnused ps ss s)

  lookup-none_rest :
      (k j : ℕ) (p : Player F) (ps : List (ℕ × Player F))
      → lookup ℕ_discrete k ((j, p) ∷ ps) ≡ none
      → ¬ (j ≡ k) × (lookup ℕ_discrete k ps ≡ none)
  unfolding lookup
  lookup-none_rest k j p ps h = ground (arith, h)

  unused_rest :
      (id : String) (j : ℕ) (p : Player F) (ps : List (ℕ × Player F))
      → is_empty id ≡ false
      → is_spawn_used id ((j, p) ∷ ps) ≡ false
      → ¬ (p.spawn_id ≡ id) × (is_spawn_used id ps ≡ false)
  unfolding is_spawn_used
  unused_rest id j p ps e u = ground (arith, e, u)

  SpawnsApart-insert :
      (k : ℕ) (q : Player F) (ps : List (ℕ × Player F))
      → lookup ℕ_discrete k ps ≡ none
      → is_empty q.spawn_id ≡ false
      → is_spawn_used q.spawn_id ps ≡ false
      → SpawnsApart ps
      → SpawnsApart (insert ℕ_discrete k q ps)
  unfolding lookup insert is_spawn_used
  SpawnsApart-insert k q [] h e u a = (e, refl, tt)
  SpawnsApart-insert k q ((j, p) ∷ ps) h e u a =
      let (other, h') = lookup-none_rest k j p ps h in
      let (ne, u') = unused_rest q.spawn_id j p ps e u in
      rw (if_neg (ℕ_discrete j k) other) (
        a.0,
        is_spawn_used-insert p.spawn_id k q ps h' a.1 (λ s. ne (sym s)),
        SpawnsApart-insert k q ps h' e u' a.2,
      )

  All-insert :
      (P : ℕ × Player F → Type 0) (k : ℕ) (q : Player F) (ps : List (ℕ × Player F))
      → P (k, q)
      → All P ps
      → All P (insert ℕ_discrete k q ps)
  unfolding insert
  All-insert P k q [] h a = (h, tt)
  All-insert P k q ((j, p) ∷ ps) h a = ground (arith, h, a, All-insert P k q ps)

  -- A newcomer at a free spawn point, where there is room.
  pub Sound-insert :
      (limit : ℕ) (q : Player F) (ps : List (ℕ × Player F))
      → length ps < limit
      → lookup ℕ_discrete q.id ps ≡ none
      → (is_empty q.spawn_id ≡ false) × (is_spawn_used q.spawn_id ps ≡ false)
      → Healthy q
      → Sound limit ps
      → Sound limit (insert ℕ_discrete q.id q ps)
  Sound-insert limit q ps l h u w s = record {
    within = omega (arith, l, length-insert_new ℕ_discrete q.id q ps h);
    is_map = insert-IsMap ℕ_discrete q.id q ps s.is_map;
    keys = All-insert (λ (e : ℕ × Player F). e.1.id ≡ e.0) q.id q ps refl s.keys;
    healthy = All-insert (λ (e : ℕ × Player F). Healthy e.1) q.id q ps w s.healthy;
    apart = SpawnsApart-insert q.id q ps h u.0 u.1 s.apart;
  }

  -- Leaving.
  is_spawn_used-delete :
      (id : String) (k : ℕ) (ps : List (ℕ × Player F))
      → is_spawn_used id ps ≡ false
      → is_spawn_used id (delete ℕ_discrete k ps) ≡ false
  unfolding is_spawn_used delete
  is_spawn_used-delete id k [] h = refl
  is_spawn_used-delete id k ((j, p) ∷ ps) h = ground (arith, h, is_spawn_used-delete id k ps)

  SpawnsApart-delete :
      (k : ℕ) (ps : List (ℕ × Player F)) → SpawnsApart ps → SpawnsApart (delete ℕ_discrete k ps)
  unfolding delete
  SpawnsApart-delete k [] a = tt
  SpawnsApart-delete k ((j, p) ∷ ps) a =
      ground (arith, a, SpawnsApart-delete k ps a.2, is_spawn_used-delete p.spawn_id k ps a.1)

  All-delete :
      (P : ℕ × Player F → Type 0) (k : ℕ) (ps : List (ℕ × Player F))
      → All P ps
      → All P (delete ℕ_discrete k ps)
  unfolding delete
  All-delete P k [] a = tt
  All-delete P k ((j, p) ∷ ps) a = ground (arith, a, All-delete P k ps a.1)

  pub Sound-delete :
      (limit k : ℕ) (ps : List (ℕ × Player F))
      → Sound limit ps
      → Sound limit (delete ℕ_discrete k ps)
  Sound-delete limit k ps s = record {
    within = omega (arith, s.within, length-delete-le ℕ_discrete k ps);
    is_map = delete-IsMap ℕ_discrete k ps s.is_map;
    keys = All-delete (λ (e : ℕ × Player F). e.1.id ≡ e.0) k ps s.keys;
    healthy = All-delete (λ (e : ℕ × Player F). Healthy e.1) k ps s.healthy;
    apart = SpawnsApart-delete k ps s.apart;
  }
