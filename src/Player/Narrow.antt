-- ===== src/Player/Narrow.antt =====
-- A filter that narrows another one, of which at most one document passes.
use demo_server.Prelude.{
  Bool, true, false, none, some, List, [], ◌∷◌, ◌≡◌, ◌⊎◌, inl, inr, refl, Bool-cases, All, arith,
}
use demo_server.Player.Mongo.{find, update_first}
use demo_server.Player.Documents.{IsUnique}

module _ {D : Type 0} (clash : D → D → Bool) (p q : D → Bool) (f : D → D)
    (narrow : (d : D) → p d ≡ false → q d ≡ false)
    (alone : (d e : D) → p d ≡ true → clash e d ≡ false → p e ≡ false) where
  -- The two filters find the same document where it passes both; otherwise the narrow one finds
  -- and changes none.
  abbrev pub Narrows : List D → Type 0
  Narrows ds =
      ((find p ds ≡ none) × (find q ds ≡ none) × (update_first q f ds ≡ ds))
      ⊎ ((d : D) × (find p ds ≡ some d)
          × (((q d ≡ true) × (find q ds ≡ some d) × (update_first q f ds ≡ update_first p f ds))
              ⊎ ((q d ≡ false) × (find q ds ≡ none) × (update_first q f ds ≡ ds))))

  none_passes :
      (ds : List D) → All (λ e. p e ≡ false) ds → (find q ds ≡ none) × (update_first q f ds ≡ ds)
  none_passes [] h = (refl, refl)
  none_passes (d ∷ ds) h = ground (arith, narrow d, none_passes ds)

  others_fail :
      (d : D) (ds : List D)
      → p d ≡ true
      → All (λ e. clash e d ≡ false) ds
      → All (λ e. p e ≡ false) ds
  others_fail d [] t h = tt
  others_fail d (e ∷ ds) t h = (alone d e t h.0, others_fail d ds t h.1)

  pub IsUnique-Narrows : (ds : List D) → IsUnique clash ds → Narrows ds
  IsUnique-Narrows [] u = inl (refl, refl, refl)
  IsUnique-Narrows (d ∷ ds) u = elim (Bool-cases (p d)) [
    | inl t ↦ elim (Bool-cases (q d)) [
      | inl v ↦ inr (d, ground (arith, t), inl (v, ground (arith, v), ground (arith, t, v)))
      | inr v ↦
          let rest = none_passes ds (others_fail d ds t u.0) in
          inr (d, ground (arith, t), inr (v, ground (arith, v, rest), ground (arith, v, rest)))
    ]
    | inr t ↦ ground (arith, t, narrow d t, IsUnique-Narrows ds u.1)
  ]
