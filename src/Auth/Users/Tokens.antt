-- ===== src/Auth/Users/Tokens.antt =====
-- Which user a token stands for, and what ends a token.
use open_synapse.Prelude.{
  String, eq_iff, ◌≡◌, ◌≢◌, inl, inr, true, none, some, [], ◌∷◌, arith, if◌then◌else◌, Option-cases,
}
use open_synapse.Prelude.Int.{ℤ, ltb_ℤ}
use open_synapse.Prelude.Assoc.{string_eq, Map, lookup, insert, lookup-insert, lookup-remove}
use text.Mathlib.Text.{starts_with}
use open_synapse.Auth.Users.{
  delete, User, Session, UserStore, set_password, sessions_of_others, delete_user, find_token,
  with_id, create_session, delete_session, user_for_token,
}

sessions_of_others-lookup :
    (id h : String) (m : Map String Session) (ses : Session)
    → lookup h (sessions_of_others id m) ≡ some ses
    → ses.user_id ≢ id
unfolding sessions_of_others lookup
sessions_of_others-lookup id h [] ses e = ground arith
sessions_of_others-lookup id h ((k, v) ∷ m) ses e =
    ground (arith, eq_iff v.user_id id, sessions_of_others-lookup id h m ses)

with_id-some :
    (j id : String) (m : Map String User) (u : User)
    → with_id j m ≡ some (id, u)
    → (j ≡ id) × (lookup id m ≡ some u)
unfolding with_id
with_id-some j id m u e = ground arith

module _ (hash : String → String) where
  -- A session token stands for the user whom its session names, until the session expires, from when
  -- it was issued to when the user signs out with it; after that it stands for nobody.
  pub create_session-user_for_token :
      (id token : String) (expires now : ℤ) (s : UserStore)
      → starts_with token "oss_" ≡ true
      → (create_session hash id token expires s).0 ≡ none
      → let s' = (create_session hash id token expires s).1 in
        ((user_for_token hash now token s').0
          ≡ (if ltb_ℤ now expires then with_id id s.users else none))
        × ((user_for_token hash now token (delete_session hash token s')).0 ≡ none)
  unfolding create_session delete_session user_for_token
  create_session-user_for_token id token expires now s prefix issued =
      let ses : Session = record { user_id = id; expires_at = expires } in
      let h = hash token in
      elim (Option-cases (lookup id s.users)) [
        | inl absent ↦ ground arith
        | inr (u, found) ↦ elim (Option-cases (lookup h s.sessions)) [
          | inl fresh ↦ ground (
            arith,
            eq_iff h h,
            lookup-insert h h ses s.sessions,
            lookup-remove h h (insert h ses s.sessions),
          )
          | inr (old, taken) ↦ ground arith
        ]
      ]

  -- Setting a password signs out the user: no session token stands for the user afterwards, until one
  -- is issued again.
  pub set_password_signs_out :
      (id password token : String) (now : ℤ) (s : UserStore) (u : User)
      → starts_with token "oss_" ≡ true
      → (user_for_token hash now token (set_password id password s)).0 ≢ some (id, u)
  unfolding set_password user_for_token
  set_password_signs_out id password token now s u prefix stands =
      let others = sessions_of_others id s.sessions in
      let users' = (set_password id password s).users in
      elim (Option-cases (lookup (hash token) others)) [
        | inl gone ↦ ground arith
        | inr (ses, kept) ↦ ground (
          arith,
          sessions_of_others-lookup id (hash token) s.sessions ses kept,
          with_id-some ses.user_id id users' u,
        )
      ]

  user_for_token-listed :
      (now : ℤ) (token id : String) (s : UserStore) (u : User)
      → (user_for_token hash now token s).0 ≡ some (id, u)
      → lookup id s.users ≡ some u
  unfolding user_for_token
  user_for_token-listed now token id s u stands =
      elim (Option-cases (lookup (hash token) s.sessions)) [
        | inl no_session ↦ elim (Option-cases (find_token (hash token) s.api_tokens)) [
          | inl no_token ↦ ground arith
          | inr (t, found) ↦ ground (arith, with_id-some t.user_id id s.users u)
        ]
        | inr (ses, session) ↦ elim (Option-cases (find_token (hash token) s.api_tokens)) [
          | inl no_token ↦ ground (arith, with_id-some ses.user_id id s.users u)
          | inr (t, found) ↦
              ground
                (arith, with_id-some t.user_id id s.users u, with_id-some ses.user_id id s.users u)
        ]
      ]

  -- No token, of a session or of the API, stands for a user who was deleted.
  pub delete_user-user_for_token :
      (id token : String) (now : ℤ) (s : UserStore) (u : User)
      → (delete_user id s).0 ≡ none
      → (user_for_token hash now token (delete_user id s).1).0 ≢ some (id, u)
  unfolding delete_user delete
  delete_user-user_for_token id token now s u deleted stands =
      elim (Option-cases (lookup id s.users)) [
        | inl absent ↦ ground arith
        | inr (old, found) ↦ ground (
          arith,
          eq_iff id id,
          lookup-remove id id s.users,
          user_for_token-listed now token id (delete_user id s).1 u stands,
        )
      ]
