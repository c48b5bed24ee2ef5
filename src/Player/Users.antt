-- ===== src/Player/Users.antt =====
-- logicserver/repo/user.go: the users in MongoDB. strings.ToLower is a parameter.
use demo_server.Prelude.{
  ℕ, String, Bool, true, false, not, ◌||◌, ◌&&◌, Option, none, some, List, [], ◌∷◌, ◌++◌, ◌==◌,
  if◌then◌else◌, ite,
}
use Prim.Native.String.{◌++◌ as ◌^◌}
use demo_server.Prelude.Int.{ℤ, pos, negsuc, ◌+ℤ◌, ◌-ℤ◌, leb_ℤ, ltb_ℤ}
use demo_server.Prelude.Text.{is_empty, trim_space, decimal, string_discrete}
use demo_server.Prelude.Actions.{Result, ok, err, Action, raise, guard, ◌>>=◌, ◌>>◌}
use demo_server.Level.{judge_player_level}
use demo_server.Player.State.{Gun, UserInfo, User, guns, owns}
use demo_server.Player.Mongo.{Collection, Inserted, inserted, duplicate_key, insert_failed}

pub data UserError : Type 0 where
  user_not_found user_already_exists email_empty password_hash_empty user_id_empty : UserError
  invalid_sequence coins_short gun_owned update_fail mongo_failed : UserError

-- The collection of users and the counter of their ids: `next_seq` is the $inc of the counter.
pub record UserStore (S : Type 0) : Type 0 where
  pub collection : Collection S User
  pub next_seq : S → S × Option ℤ

-- The filters and updates that the calls hand to the driver.
abbrev pub has_email : String → User → Bool
has_email email u = ite (string_discrete u.user_info.email email) true false

abbrev pub has_user_id : ℕ → User → Bool
has_user_id user_id u = u.user_info.user_id == user_id

-- What the unique indexes of ensureIndexes forbid.
abbrev pub same_key : User → User → Bool
same_key u v = has_email v.user_info.email u || has_user_id v.user_info.user_id u

abbrev pub set_nickname : String → User → User
set_nickname nickname u = record u { user_info = record u.user_info { nickname = nickname } }

abbrev pub set_photo : ℤ → User → User
set_photo photo_id u = record u { user_info = record u.user_info { profile_photo_id = photo_id } }

abbrev pub set_equip_gun : ℤ → User → User
set_equip_gun gun_id u = record u { user_info = record u.user_info { equip_gun = gun_id } }

unfoldable pub add_rewards : ℤ → ℤ → ℤ → ℕ → User → User
add_rewards exp coin kill_count level u = record u {
  user_info = record u.user_info {
    exp = u.user_info.exp +ℤ exp;
    coins = u.user_info.coins +ℤ coin;
    kill_count = u.user_info.kill_count +ℤ kill_count;
    level = pos level;
  };
}

unfoldable pub can_buy : ℕ → Gun → User → Bool
can_buy user_id gun u =
    has_user_id user_id u && leb_ℤ gun.price u.user_info.coins && not (owns gun.id (guns u))

unfoldable pub take_gun : Gun → User → User
take_gun gun u = record u {
  user_info = record u.user_info { coins = u.user_info.coins -ℤ gun.price };
  gun = some (guns u ++ gun ∷ []);
}

unfoldable pub new_user : ℕ → String → String → User
new_user user_id email password_hash = record {
  user_info = record {
    user_id = user_id;
    email = email;
    nickname = "Player" ^ decimal user_id;
    level = pos 1;
    exp = pos 0;
    equip_gun = pos 0;
    coins = pos 2000;
    kill_count = pos 0;
    profile_photo_id = pos 0;
    password_hash = password_hash;
  };
  gun = some [];
}

unfoldable pub normalize_email : (String → String) → String → String
normalize_email to_lower email = to_lower (trim_space email)

-- uint64(counter.Seq), when the sequence is positive.
abbrev pub positive_seq : Option ℤ → Result UserError ℕ
positive_seq none = err mongo_failed
positive_seq (some (negsuc n)) = err invalid_sequence
positive_seq (some (pos n)) = if n == 0 then err invalid_sequence else ok n

-- An answer of FindOne and of UpdateOne.
abbrev pub found : Option (Option User) → Result UserError User
found none = err mongo_failed
found (some none) = err user_not_found
found (some (some u)) = ok u

abbrev pub needs_match : Option ℕ → UserError → Result UserError Unit
needs_match none e = err mongo_failed
needs_match (some n) e = if n == 0 then err e else ok tt

abbrev pub insert_result : Inserted → User → Result UserError User
insert_result inserted u = ok u
insert_result duplicate_key u = err user_already_exists
insert_result insert_failed u = err mongo_failed

-- Why a purchase that matched no document failed.
unfoldable pub buy_failure : Gun → Option (Option User) → UserError
buy_failure gun none = mongo_failed
buy_failure gun (some none) = user_not_found
buy_failure gun (some (some u)) =
    if ltb_ℤ u.user_info.coins gun.price then coins_short else gun_owned

module _ {S : Type 0} (users : UserStore S) where
  open users use {collection, next_seq}

  unfoldable pub find_by_user_id : ℕ → S → Result UserError UserInfo
  find_by_user_id user_id s =
      if user_id == 0
      then err user_id_empty
      else elim (found (collection.find_one (has_user_id user_id) s)) [
        | err e ↦ err e
        | ok u ↦ ok u.user_info
      ]

  unfoldable pub find_by_email : (String → String) → String → S → Result UserError User
  unfolding normalize_email
  find_by_email to_lower email s =
      let email' = normalize_email to_lower email in
      if is_empty email' then err email_empty else found (collection.find_one (has_email email') s)

  unfoldable pub next_user_id : Action S UserError ℕ
  next_user_id s = let (s', seq) = next_seq s in (s', positive_seq seq)

  unfoldable pub insert_user : User → Action S UserError User
  insert_user u s = let (s', answer) = collection.insert_one u s in (s', insert_result answer u)

  -- The end of CreateUser: the id and the document.
  unfoldable pub insert_next : String → String → Action S UserError User
  unfolding next_user_id insert_user new_user
  insert_next email hash = do user_id ← next_user_id; insert_user (new_user user_id email hash)

  unfoldable pub create_user : (String → String) → String → String → Action S UserError User
  unfolding normalize_email insert_next
  create_user to_lower email password_hash =
      let email' = normalize_email to_lower email in
      let hash = trim_space password_hash in
      do
        guard (not (is_empty email')) email_empty
        guard (not (is_empty hash)) password_hash_empty
        insert_next email' hash

  -- An UpdateOne by the user id that must match.
  unfoldable pub update_user : ℕ → (User → User) → UserError → Action S UserError Unit
  update_user user_id f e s =
      let (s', n) = collection.update_one (has_user_id user_id) f s in (s', needs_match n e)

  unfoldable pub modify_nickname : ℕ → String → Action S UserError Unit
  unfolding update_user
  modify_nickname user_id nickname = update_user user_id (set_nickname nickname) user_not_found

  unfoldable pub modify_profile_photo : ℕ → ℤ → Action S UserError Unit
  unfolding update_user
  modify_profile_photo user_id photo_id = update_user user_id (set_photo photo_id) user_not_found

  unfoldable pub set_player_equip_gun : ℕ → ℤ → Action S UserError Unit
  unfolding update_user
  set_player_equip_gun user_id gun_id = update_user user_id (set_equip_gun gun_id) update_fail

  -- The $inc and the $set of one settlement; whether a document matched is not looked at.
  unfoldable pub write_rewards : ℕ → (User → User) → Action S UserError Unit
  write_rewards user_id f s =
      let (s', n) = collection.update_one (has_user_id user_id) f s in
      (s', elim n [ none ↦ err mongo_failed | some k ↦ ok tt ])

  -- AddPlayerExpLevelCoin once the user is looked up.
  unfoldable pub reward_found : ℕ → ℤ → ℤ → ℤ → Result UserError UserInfo → Action S UserError Unit
  unfolding write_rewards add_rewards
  reward_found user_id exp coin kill_count (err e) = raise e
  reward_found user_id exp coin kill_count (ok info) =
      write_rewards user_id (add_rewards exp coin kill_count (judge_player_level (info.exp +ℤ exp)))

  unfoldable pub add_player_exp_level_coin : ℕ → ℤ → ℤ → ℤ → Action S UserError Unit
  unfolding find_by_user_id reward_found
  add_player_exp_level_coin user_id exp coin kill_count s =
      reward_found user_id exp coin kill_count (find_by_user_id user_id s) s

  -- BuyGunToPlayerWare after its update.
  unfoldable pub purchase_result : ℕ → Gun → S → Option ℕ → Result UserError Unit
  unfolding buy_failure
  purchase_result user_id gun s none = err mongo_failed
  purchase_result user_id gun s (some n) =
      if n == 0 then err (buy_failure gun (collection.find_one (has_user_id user_id) s)) else ok tt

  unfoldable pub buy_gun_to_player_ware : ℕ → Gun → Action S UserError Unit
  unfolding can_buy take_gun buy_failure purchase_result
  buy_gun_to_player_ware user_id gun s =
      let (s', n) = collection.update_one (can_buy user_id gun) (take_gun gun) s in
      (s', purchase_result user_id gun s' n)

  unfoldable pub get_player_ware_details : ℕ → S → Result UserError (List Gun)
  get_player_ware_details user_id s = elim (found (collection.find_one (has_user_id user_id) s)) [
    | err e ↦ err e
    | ok u ↦ ok (guns u)
  ]

  unfoldable pub get_player_equip_gun_id : ℕ → S → Result UserError ℤ
  get_player_equip_gun_id user_id s = elim (found (collection.find_one (has_user_id user_id) s)) [
    | err e ↦ err e
    | ok u ↦ ok u.user_info.equip_gun
  ]
