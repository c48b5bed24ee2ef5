-- ===== src/Player/Wallet.antt =====
-- logicserver/repo/user.go: the coins and the guns of the users over its calls.
use demo_server.Prelude.{
  ℕ, String, Bool, true, false, not, List, [], ◌∷◌, ◌++◌, ◌≡◌, refl, subst, sym, All, arith,
}
use demo_server.Prelude.Int.{ℤ, pos, ◌+ℤ◌, ◌≤ℤ◌, leb_ℤ, +ℤ_parts, -ℤ_parts}
use demo_server.Prelude.Actions.{Result, ok, err, guard, Keeps, Keeps->>=, Keeps-guard, ◌>>◌}
use demo_server.Prelude.Text.{trim_space, is_empty}
use demo_server.Level.{judge_player_level}
use demo_server.Player.State.{Gun, UserInfo, User, guns, owns, eq_ℤ}
use demo_server.Player.Mongo.{IsCollection}
use demo_server.Player.Documents.{Holds, KeepsKey, update_one-Holds, insert_one-Holds, IsUnique}
use demo_server.Player.Users.{
  UserError, UserStore, has_user_id, same_key, set_nickname, set_photo, set_equip_gun, add_rewards,
  can_buy, take_gun, new_user, find_by_user_id, create_user, next_user_id, insert_next, insert_user,
  modify_nickname, modify_profile_photo, set_player_equip_gun, update_user,
  add_player_exp_level_coin, write_rewards, reward_found, buy_gun_to_player_ware, normalize_email,
}

-- No gun stands twice in a warehouse.
abbrev pub HasNoTwins : List Gun → Type 0
HasNoTwins [] = Unit
HasNoTwins (g ∷ gs) = (owns g.id gs ≡ false) × HasNoTwins gs

abbrev pub IsSoundUser : User → Type 0
IsSoundUser u = (pos 0 ≤ℤ u.user_info.coins) × HasNoTwins (guns u)

owns-append_one :
    (id : ℤ) (g : Gun) (gs : List Gun)
    → owns id gs ≡ false
    → eq_ℤ g.id id ≡ false
    → owns id (gs ++ g ∷ []) ≡ false
owns-append_one id g [] h e = ground arith
owns-append_one id g (k ∷ gs) h e = ground (arith, owns-append_one id g gs)

HasNoTwins-append_one :
    (g : Gun) (gs : List Gun) → owns g.id gs ≡ false → HasNoTwins gs → HasNoTwins (gs ++ g ∷ [])
HasNoTwins-append_one g [] h t = (refl, tt)
HasNoTwins-append_one g (k ∷ gs) h t =
    (owns-append_one k.id g gs t.0 (ground arith), HasNoTwins-append_one g gs (ground arith) t.1)

take_gun-IsSoundUser :
    (user_id : ℕ) (gun : Gun) (u : User)
    → can_buy user_id gun u ≡ true
    → IsSoundUser u
    → IsSoundUser (take_gun gun u)
unfolding can_buy take_gun
take_gun-IsSoundUser user_id gun u e h =
    let affordable : leb_ℤ gun.price u.user_info.coins ≡ true = ground (arith, e) in
    let fresh : owns gun.id (guns u) ≡ false = ground (arith, e) in
    (
      ground (arith, affordable, -ℤ_parts u.user_info.coins gun.price),
      HasNoTwins-append_one gun (guns u) fresh h.1,
    )

add_rewards-IsSoundUser :
    (exp coin kill_count : ℤ) (level : ℕ) (u : User)
    → pos 0 ≤ℤ coin
    → IsSoundUser u
    → IsSoundUser (add_rewards exp coin kill_count level u)
unfolding add_rewards
add_rewards-IsSoundUser exp coin kill_count level u c h =
    (ground (arith, c, h.0, +ℤ_parts u.user_info.coins coin), h.1)

new_user-IsSoundUser :
    (user_id : ℕ) (email hash : String) → IsSoundUser (new_user user_id email hash)
unfolding new_user
new_user-IsSoundUser user_id email hash = (omega arith, tt)

-- The calls of the repository that write, with their arguments.
pub data Call : Type 0 where
  create : String → String → Call
  rename : ℕ → String → Call
  change_photo : ℕ → ℤ → Call
  equip : ℕ → ℤ → Call
  reward : ℕ → ℤ → ℤ → ℤ → Call
  buy : ℕ → Gun → Call

-- A settlement takes no coins away.
abbrev pub IsFair : Call → Type 0
IsFair (create email hash) = Unit
IsFair (rename user_id name) = Unit
IsFair (change_photo user_id n) = Unit
IsFair (equip user_id n) = Unit
IsFair (reward user_id exp coin kill_count) = pos 0 ≤ℤ coin
IsFair (buy user_id gun) = Unit

module _ {S : Type 0} (users : UserStore S) (to_lower : String → String) where
  abbrev pub run_call : Call → S → S
  unfolding create_user modify_nickname modify_profile_photo set_player_equip_gun
      add_player_exp_level_coin buy_gun_to_player_ware
  run_call (create email hash) s = (create_user users to_lower email hash s).0
  run_call (rename user_id name) s = (modify_nickname users user_id name s).0
  run_call (change_photo user_id n) s = (modify_profile_photo users user_id n s).0
  run_call (equip user_id n) s = (set_player_equip_gun users user_id n s).0
  run_call (reward user_id exp coin kill_count) s =
      (add_player_exp_level_coin users user_id exp coin kill_count s).0
  run_call (buy user_id gun) s = (buy_gun_to_player_ware users user_id gun s).0

  abbrev pub run_calls : List Call → S → S
  run_calls [] s = s
  run_calls (c ∷ cs) s = run_calls cs (run_call c s)

-- What the code relies on: the collection with its two unique indexes, beside the counter.
pub record IsUserStore {S : Type 0} (users : UserStore S) : Type 0 where
  pub store : IsCollection users.collection same_key
  pub next_seq-documents : (s : S) → store.documents ((users.next_seq s).0) ≡ store.documents s

module _ {S : Type 0} {users : UserStore S} (laws : IsUserStore users)
    (to_lower : String → String) where
  open laws use {store}

  -- Every user is sound, and no two share an id or an email.
  abbrev pub IsSound : S → Type 0
  IsSound = Holds store IsSoundUser

  update_IsSound :
      (p : User → Bool) (f : User → User) (s : S)
      → ((u : User) → p u ≡ true → IsSoundUser u → IsSoundUser (f u))
      → KeepsKey same_key f
      → IsSound s
      → IsSound ((users.collection.update_one p f s).0)
  update_IsSound = update_one-Holds store IsSoundUser

  insert_IsSound :
      (u : User) (s : S) → IsSoundUser u → IsSound s → IsSound ((insert_user users u s).0)
  unfolding insert_user
  insert_IsSound = insert_one-Holds store IsSoundUser

  next_IsSound : Keeps IsSound (next_user_id users)
  unfolding next_user_id
  next_IsSound s h =
      subst (λ ds. All IsSoundUser ds × IsUnique same_key ds) (sym (laws.next_seq-documents s)) h

  insert_next-IsSound : (email hash : String) → Keeps IsSound (insert_next users email hash)
  unfolding insert_next
  insert_next-IsSound email hash =
      Keeps->>= IsSound (next_user_id users)
        (λ user_id. insert_user users (new_user user_id email hash)) next_IsSound
        (λ user_id s.
          insert_IsSound (new_user user_id email hash) s (new_user-IsSoundUser user_id email hash))

  create_IsSound : (email hash : String) → Keeps IsSound (create_user users to_lower email hash)
  unfolding create_user
  create_IsSound email hash =
      let e = normalize_email to_lower email in
      let h = trim_space hash in
      let insert = insert_next users e h in
      Keeps-guard IsSound (not (is_empty e)) UserError.email_empty
        (guard (not (is_empty h)) UserError.password_hash_empty >> insert)
        (Keeps-guard IsSound (not (is_empty h)) UserError.password_hash_empty insert
          (insert_next-IsSound e h))

  reward_IsSound :
      (user_id : ℕ) (exp coin kill_count : ℤ)
      → pos 0 ≤ℤ coin
      → Keeps IsSound (add_player_exp_level_coin users user_id exp coin kill_count)
  unfolding add_player_exp_level_coin write_rewards reward_found
  reward_IsSound user_id exp coin kill_count c s h = go (find_by_user_id users user_id s)
    where
      go :
          (r : Result UserError UserInfo)
          → IsSound ((reward_found users user_id exp coin kill_count r s).0)
      go (err e) = h
      go (ok info) =
          let level = judge_player_level (info.exp +ℤ exp) in
          update_IsSound (has_user_id user_id) (add_rewards exp coin kill_count level) s
            (λ u t. add_rewards-IsSoundUser exp coin kill_count level u c) (λ d e. (refl, refl)) h

  buy_IsSound : (user_id : ℕ) (gun : Gun) → Keeps IsSound (buy_gun_to_player_ware users user_id gun)
  unfolding buy_gun_to_player_ware
  buy_IsSound user_id gun s =
      update_IsSound (can_buy user_id gun) (take_gun gun) s (take_gun-IsSoundUser user_id gun)
        (λ d e. (refl, refl))

  -- The calls that set one field which no document's soundness hangs on.
  set_IsSound :
      (user_id : ℕ) (f : User → User) (e : UserError)
      → ((u : User) → IsSoundUser u → IsSoundUser (f u))
      → KeepsKey same_key f
      → Keeps IsSound (update_user users user_id f e)
  unfolding update_user
  set_IsSound user_id f e keep key s = update_IsSound (has_user_id user_id) f s (λ u t. keep u) key

  run_call-IsSound :
      (c : Call) → IsFair c → (s : S) → IsSound s → IsSound (run_call users to_lower c s)
  unfolding run_call modify_nickname modify_profile_photo set_player_equip_gun
  run_call-IsSound (create email hash) fair s = create_IsSound email hash s
  run_call-IsSound (rename user_id name) fair s =
      set_IsSound user_id (set_nickname name) UserError.user_not_found (λ u h. h)
        (λ d e. (refl, refl)) s
  run_call-IsSound (change_photo user_id n) fair s =
      set_IsSound user_id (set_photo n) UserError.user_not_found (λ u h. h) (λ d e. (refl, refl)) s
  run_call-IsSound (equip user_id n) fair s =
      set_IsSound user_id (set_equip_gun n) UserError.update_fail (λ u h. h) (λ d e. (refl, refl)) s
  run_call-IsSound (reward user_id exp coin kill_count) fair s =
      reward_IsSound user_id exp coin kill_count fair s
  run_call-IsSound (buy user_id gun) fair s = buy_IsSound user_id gun s

  -- Over any sequence of calls of the repository, failed ones included, in which no settlement
  -- takes coins away: where every user has no negative coins and owns no gun twice, and no two
  -- users share an id or an email, this holds afterwards too.
  pub run_calls-IsSound :
      (cs : List Call) (s : S) → All IsFair cs → IsSound s → IsSound (run_calls users to_lower cs s)
  run_calls-IsSound [] s fair h = h
  run_calls-IsSound (c ∷ cs) s fair h =
      run_calls-IsSound cs (run_call users to_lower c s) fair.1 (run_call-IsSound c fair.0 s h)
