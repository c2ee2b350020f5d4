-- ===== src/Auth/Effects.antt =====
-- What signing in, by src/routes/login/post.rs and src/routes/verify_totp/post.rs, makes of the
-- session's entries.
use portfolio_server.Errors.Web.{e500}
use portfolio_server.Types.User.{UserRole, to_string}
use portfolio_server.Http.{Json}
use portfolio_server.Env.{Env, respond}
use portfolio_server.Prelude.{
  Text, ℕ, ◌≡◌, Bool, true, false, none, text_eq, ◌⊎◌, some, inl, inr, ◌∙◌, arith, Option, refl,
  text, ap,
}
use portfolio_server.Session.Typed.{
  SessionLib, IsLawful, user_id_key, mfa_pending_key, user_role_key, renew, clear_user_id,
  clear_mfa_pending, insert_user_id, insert_user_role, insert_mfa_pending_user_id,
}
use portfolio_server.Session.Entries.{entry-insert, entry-insert_ne, write-pure, write-write-pure}
use portfolio_server.Auth.Login.{admit, session_failed, signed_in, flag}
use portfolio_server.Auth.VerifyTotp.{complete}

module _ (S : SessionLib) (lawful : IsLawful S) where
  -- Two inserts, the second of the role: what is under any other key.
  two_inserts :
      (s s' : S.State) (k j : Text) (v role : Json)
      → S.is_live s ≡ true
      → text_eq user_role_key j ≡ false
      → (s' ≡ (S.insert k v s).1) ⊎ (s' ≡ (S.insert user_role_key role (S.insert k v s).1).1)
      → (S.entry s' j ≡ S.entry s j) ⊎ ((text_eq k j ≡ true) × (S.entry s' j ≡ some v))
  two_inserts s s' k j v role live other (inl first) = rw first (entry-insert S lawful s k j v live)
  two_inserts s s' k j v role live other (inr second) =
      let still =
        entry-insert_ne S lawful (S.insert k v s).1 user_role_key j role
          (lawful.live-insert s k v ∙ live) other in
      rw (second, still) (entry-insert S lawful s k j v live)

  two_inserts_ne :
      (s s' : S.State) (k j : Text) (v role : Json)
      → S.is_live s ≡ true
      → text_eq user_role_key j ≡ false
      → text_eq k j ≡ false
      → (s' ≡ (S.insert k v s).1) ⊎ (s' ≡ (S.insert user_role_key role (S.insert k v s).1).1)
      → S.entry s' j ≡ S.entry s j
  two_inserts_ne s s' k j v role live other apart which =
      elim (two_inserts s s' k j v role live other which) [
        | inl same ↦ same
        | inr (equal, _) ↦ ground arith
      ]

  settle :
      {x y z v : Option Json} {b : Bool}
      → y ≡ z
      → (x ≡ y) ⊎ ((b ≡ true) × (x ≡ v))
      → (x ≡ z) ⊎ (x ≡ v)
  settle on (inl same) = inl (same ∙ on)
  settle on (inr (_, new)) = inr new

  -- A user whose second factor is asked for is pending, and no user is signed in.
  pub admit_pending :
      (env : Env) (id : ℕ) (must : Bool) (role : UserRole) (s : S.State)
      → S.is_live s ≡ true
      → let s' = (admit S env (id, (true, (must, role))) s).1 in
        (S.entry s' user_id_key ≡ none)
        × ((S.entry s' mfa_pending_key ≡ S.entry s mfa_pending_key)
            ⊎ (S.entry s' mfa_pending_key ≡ some (S.uuid_to_json id)))
  unfolding admit clear_user_id renew insert_user_id insert_user_role insert_mfa_pending_user_id
      text_eq
  admit_pending env id must role s live =
      let s0 = S.remove user_id_key (S.renew s) in
      let live0 : S.is_live s0 ≡ true =
        lawful.live-remove (S.renew s) user_id_key ∙ (lawful.live-renew s ∙ live) in
      let after =
        write-pure S lawful (session_failed S) (respond env 202 (flag (text "mfa_required") true))
          (insert_mfa_pending_user_id S id) (insert_mfa_pending_user_id S id) s0 in
      let pending : S.entry s0 mfa_pending_key ≡ S.entry s mfa_pending_key =
        lawful.entry-remove (S.renew s) user_id_key mfa_pending_key
        ∙ lawful.entry-renew s mfa_pending_key in
      (
        ap (λ x. S.entry x user_id_key) after
            ∙ (entry-insert_ne S lawful s0 mfa_pending_key user_id_key (S.uuid_to_json id) live0
                  refl
                ∙ lawful.entry-remove (S.renew s) user_id_key user_id_key),
        rw after (
            settle pending
              (entry-insert S lawful s0 mfa_pending_key mfa_pending_key (S.uuid_to_json id) live0)),
      )

  -- A user without a second factor is signed in, or nothing changes for who is.
  pub admit_direct :
      (env : Env) (id : ℕ) (must : Bool) (role : UserRole) (s : S.State)
      → S.is_live s ≡ true
      → let s' = (admit S env (id, (false, (must, role))) s).1 in
        (S.entry s' mfa_pending_key ≡ S.entry s mfa_pending_key)
        × ((S.entry s' user_id_key ≡ S.entry s user_id_key)
            ⊎ (S.entry s' user_id_key ≡ some (S.uuid_to_json id)))
  unfolding admit clear_user_id renew insert_user_id insert_user_role insert_mfa_pending_user_id
      text_eq
  admit_direct env id must role s live =
      let s0 = S.renew s in
      let live0 = lawful.live-renew s ∙ live in
      let written = Json.str (to_string role) in
      let after =
        write-write-pure S lawful (session_failed S) (signed_in env must) (insert_user_id S id)
          (insert_user_role S role) s0 in
      (
        two_inserts_ne s0 (admit S env (id, (false, (must, role))) s).1 user_id_key mfa_pending_key
              (S.uuid_to_json id) written live0 refl refl after
            ∙ lawful.entry-renew s mfa_pending_key,
        settle (lawful.entry-renew s user_id_key) (
            two_inserts s0 (admit S env (id, (false, (must, role))) s).1 user_id_key user_id_key
              (S.uuid_to_json id) written live0 refl after),
      )

  -- After the right code, nothing is pending.
  pub complete_entries :
      (env : Env) (id : ℕ) (role : UserRole) (must : Bool) (s : S.State)
      → S.is_live s ≡ true
      → let s' = (complete S env id role must s).1 in
        (S.entry s' mfa_pending_key ≡ none)
        × ((S.entry s' user_id_key ≡ S.entry s user_id_key)
            ⊎ (S.entry s' user_id_key ≡ some (S.uuid_to_json id)))
  unfolding complete clear_mfa_pending insert_user_id insert_user_role text_eq
  complete_entries env id role must s live =
      let s0 = S.remove mfa_pending_key s in
      let live0 = lawful.live-remove s mfa_pending_key ∙ live in
      let written = Json.str (to_string role) in
      let after =
        write-write-pure S lawful e500 (signed_in env must) (insert_user_id S id)
          (insert_user_role S role) s0 in
      (
        two_inserts_ne s0 (complete S env id role must s).1 user_id_key mfa_pending_key
              (S.uuid_to_json id) written live0 refl refl after
            ∙ lawful.entry-remove s mfa_pending_key mfa_pending_key,
        settle (lawful.entry-remove s mfa_pending_key user_id_key) (
            two_inserts s0 (complete S env id role must s).1 user_id_key user_id_key
              (S.uuid_to_json id) written live0 refl after),
      )
