-- ===== src/Player/Settle.antt =====
-- logicserver/repo/user.go and logicserver/logic/player_info.go: the rewards of a match, read and
-- written in two calls, against one change of each user.
use demo_server.Prelude.{
  ℕ, Bool, true, false, Option, none, some, List, [], ◌∷◌, ◌≡◌, ◌≢◌, refl, sym, ap, subst, ◌∙◌,
  if◌then◌else◌, arith, ◌==◌, All,
}
use demo_server.Prelude.Int.{ℤ, pos, ◌+ℤ◌}
use demo_server.Prelude.Actions.{Result, ok, err}
use demo_server.Level.{judge_player_level}
use demo_server.Player.State.{UserInfo, User}
use demo_server.Player.Mongo.{IsCollection, find, update_first}
use demo_server.Player.Users.{
  UserError, user_not_found, user_id_empty, mongo_failed, UserStore, has_user_id, same_key,
  add_rewards, found, find_by_user_id, reward_found, write_rewards, add_player_exp_level_coin,
}
use demo_server.Player.Info.{Panic, Failures, note_failure, note_result, settle_up_room}

-- What is won comes on top of what the user has.
abbrev pub credited : ℤ → ℤ → ℤ → UserInfo → UserInfo
credited exp coin kill_count info = record info {
  exp = info.exp +ℤ exp;
  coins = info.coins +ℤ coin;
  kill_count = info.kill_count +ℤ kill_count;
}

-- The level that goes with the experience.
abbrev pub levelled : UserInfo → UserInfo
levelled info = record info { level = pos (judge_player_level info.exp) }

-- The change of a user's document: the level is that of the experience which it then has.
abbrev pub rewarded : ℤ → ℤ → ℤ → User → User
rewarded exp coin kill_count u = record u {
  user_info = levelled (credited exp coin kill_count u.user_info);
}

abbrev pub reward_for : ℕ → ℤ → ℤ → ℤ → List User → Option User → List User × Result UserError Unit
reward_for user_id exp coin kill_count docs none = (docs, err user_not_found)
reward_for user_id exp coin kill_count docs (some u) =
    (update_first (has_user_id user_id) (rewarded exp coin kill_count) docs, ok tt)

-- What one settlement should make of the documents, and its answer.
unfoldable pub reward : ℕ → ℤ → ℤ → ℤ → List User → List User × Result UserError Unit
reward user_id exp coin kill_count docs =
    if user_id == 0
    then (docs, err user_id_empty)
    else reward_for user_id exp coin kill_count docs (find (has_user_id user_id) docs)

-- Only the document that is found is changed.
update_first_found :
    (p : User → Bool) (f g : User → User) (ds : List User) (d : User)
    → find p ds ≡ some d
    → f d ≡ g d
    → update_first p f ds ≡ update_first p g ds
update_first_found p f g [] d h e = refl
update_first_found p f g (c ∷ ds) d h e = ground (arith, h, e, update_first_found p f g ds d)

module _ {S : Type 0} (users : UserStore S) (store : IsCollection users.collection same_key)
    (user_id : ℕ) (exp coin kill_count : ℤ) where
  open store use {documents}

  -- The documents and the answer are those of the description.
  abbrev IsReward : S → S → Result UserError Unit → Type 0
  IsReward s s' r =
      (documents s' ≡ (reward user_id exp coin kill_count (documents s)).0)
      × (r ≡ (reward user_id exp coin kill_count (documents s)).1)

  -- The write, for the user that was read.
  write_rewards-IsReward :
      (s s' : S) (r : Result UserError Unit) (u : User)
      → (user_id == 0) ≡ false
      → find (has_user_id user_id) (documents s) ≡ some u
      → write_rewards users user_id
          (add_rewards exp coin kill_count (judge_player_level (u.user_info.exp +ℤ exp)))
          s
        ≡ (s', r)
      → r ≢ err mongo_failed
      → IsReward s s' r
  unfolding write_rewards reward add_rewards
  write_rewards-IsReward s s' r u id f e there =
      go (users.collection.update_one (has_user_id user_id) change s) refl (ap (λ x. x.0) e)
        (ap (λ x. x.1) e)
    where
      change : User → User
      change = add_rewards exp coin kill_count (judge_player_level (u.user_info.exp +ℤ exp))

      go :
          (w : S × Option ℕ)
          → users.collection.update_one (has_user_id user_id) change s ≡ w
          → w.0 ≡ s'
          → (elim w.1 as (λ x. Result UserError Unit) [ none ↦ err mongo_failed | some k ↦ ok tt ])
            ≡ r
          → IsReward s s' r
      go (t, none) w a b = absurd (there (sym b))
      go (t, some n) w a b =
          let changed = (store.update_one-documents (has_user_id user_id) change s t n w).0 in
          rw (id, f)
            (
              ap documents (sym a)
                  ∙ changed
                  ∙ update_first_found (has_user_id user_id) change (rewarded exp coin kill_count)
                      (documents s) u f refl,
              sym b,
            )

  -- Without an error of MongoDB a settlement of one player does exactly what its description says.
  add_player_exp_level_coin-IsReward :
      (s s' : S) (r : Result UserError Unit)
      → add_player_exp_level_coin users user_id exp coin kill_count s ≡ (s', r)
      → r ≢ err mongo_failed
      → IsReward s s' r
  unfolding add_player_exp_level_coin find_by_user_id reward_found reward
  add_player_exp_level_coin-IsReward s s' r e there =
      go (user_id == 0) (users.collection.find_one (has_user_id user_id) s) refl refl e
    where
      go :
          (b : Bool) (o : Option (Option User))
          → (user_id == 0) ≡ b
          → users.collection.find_one (has_user_id user_id) s ≡ o
          → reward_found users user_id exp coin kill_count
              (if b then err user_id_empty else elim (found o) as (λ x. Result UserError UserInfo) [
                | err e ↦ err e
                | ok u ↦ ok u.user_info
              ])
              s
            ≡ (s', r)
          → IsReward s s' r
      go true o z q h = subst (λ x. IsReward s (x.0) (x.1)) h (rw z (refl, refl))
      go false none z q h = absurd (there (sym (ap (λ x. x.1) h)))
      go false (some none) z q h =
          let gone = sym (store.find_one-documents (has_user_id user_id) s none q) in
          subst (λ x. IsReward s (x.0) (x.1)) h (rw (z, gone) (refl, refl))
      go false (some (some u)) z q h =
          write_rewards-IsReward s s' r u z
            (sym (store.find_one-documents (has_user_id user_id) s (some u) q)) h there

-- What the settlement of a match should make of the documents, and the players that it should
-- report.
unfoldable pub reward_all : List ℕ → List ℤ → List ℤ → List ℤ → List User → List User × Failures
unfolding reward
reward_all (p ∷ ps) (e ∷ es) (c ∷ cs) (k ∷ ks) docs =
    let (docs', r) = reward p e c k docs in
    let (docs'', fs) = reward_all ps es cs ks docs' in (docs'', note_failure p r fs)
reward_all [] es cs ks docs = (docs, [])
reward_all (p ∷ ps) [] cs ks docs = (docs, [])
reward_all (p ∷ ps) (e ∷ es) [] ks docs = (docs, [])
reward_all (p ∷ ps) (e ∷ es) (c ∷ cs) [] docs = (docs, [])

-- No failure is one of MongoDB.
abbrev pub IsAnswered : Failures → Type 0
IsAnswered = All (λ f. f.1 ≢ mongo_failed)

IsAnswered-note_failure :
    (p : ℕ) (r : Result UserError Unit) (fs : Failures)
    → IsAnswered (note_failure p r fs)
    → (r ≢ err mongo_failed) × IsAnswered fs
IsAnswered-note_failure p (ok u) fs h = ((λ e. absurd (ground arith)), h)
IsAnswered-note_failure p (err e) fs h = ((λ q. absurd (h.0 (ground (arith, q)))), h.1)

pair_path : {A B : Type 0} (p : A × B) (a : A) (b : B) → p.0 ≡ a → p.1 ≡ b → p ≡ (a, b)
pair_path p a b h k = cc

note_result-ok :
    (p : ℕ) (r : Result UserError Unit) (rest : Result Panic Failures) (fs : Failures)
    → note_result p r rest ≡ ok fs
    → (gs : Failures) × (rest ≡ ok gs) × (fs ≡ note_failure p r gs)
note_result-ok p r (ok gs) fs h = (gs, refl, ground (arith, h))
note_result-ok p r (err e) fs h = absurd (ground (arith, h))

module _ {S : Type 0} (users : UserStore S) (store : IsCollection users.collection same_key) where
  open store use {documents}

  -- Without an error of MongoDB the settlement of a match, which reads and then writes each user, is
  -- one change of each user in turn: the experience, coins and kills that were won come on top, the
  -- level is that of the experience which the user then has, and nothing else changes; the players
  -- who are missing, and they alone, are reported.
  pub settle_up_room-reward_all :
      (ids : List ℕ) (exps coins kills : List ℤ) (s s' : S) (fs : Failures)
      → settle_up_room users ids exps coins kills s ≡ (s', ok fs)
      → IsAnswered fs
      → (documents s' ≡ (reward_all ids exps coins kills (documents s)).0)
        × (fs ≡ (reward_all ids exps coins kills (documents s)).1)
  unfolding settle_up_room reward_all
  settle_up_room-reward_all [] exps coins kills s s' fs e a =
      (ap documents (sym (ap (λ z. z.0) e)), ground (arith, ap (λ z. z.1) e))
  settle_up_room-reward_all (p ∷ ps) [] coins kills s s' fs e a =
      absurd (ground (arith, ap (λ z. z.1) e))
  settle_up_room-reward_all (p ∷ ps) (x ∷ xs) [] kills s s' fs e a =
      absurd (ground (arith, ap (λ z. z.1) e))
  settle_up_room-reward_all (p ∷ ps) (x ∷ xs) (c ∷ cs) [] s s' fs e a =
      absurd (ground (arith, ap (λ z. z.1) e))
  settle_up_room-reward_all (p ∷ ps) (x ∷ xs) (c ∷ cs) (k ∷ ks) s s' fs e a =
      let t = (add_player_exp_level_coin users p x c k s).0 in
      let r = (add_player_exp_level_coin users p x c k s).1 in
      let rest = settle_up_room users ps xs cs ks t in
      let (gs, done, noted) = note_result-ok p r (rest.1) fs (ap (λ z. z.1) e) in
      let (first, others) = IsAnswered-note_failure p r gs (subst IsAnswered noted a) in
      let (one, answer) = add_player_exp_level_coin-IsReward users store p x c k s t r refl first in
      let (docs, more) =
        settle_up_room-reward_all ps xs cs ks t s' gs
          (pair_path rest s' (ok gs) (ap (λ z. z.0) e) done) others in
      let want = reward p x c k (documents s) in
      (
        docs ∙ ap (λ ds. (reward_all ps xs cs ks ds).0) one,
        noted
            ∙ ap (λ z. note_failure p z gs) answer
            ∙ ap (note_failure p (want.1)) (more ∙ ap (λ ds. (reward_all ps xs cs ks ds).1) one),
      )
