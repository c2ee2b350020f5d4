-- ===== src/Auth/Signed.antt =====
-- Nobody is signed in, by src/routes/login/post.rs and src/routes/verify_totp/post.rs, who did not
-- give what signing in takes.
use portfolio_server.Http.{Json}
use portfolio_server.Prelude.{
  Option, ℕ, List, ◌∷◌, ◌≡◌, true, some, inl, ◌⊎◌, none, ◌≢◌, ok, inr, subst, arith,
}
use portfolio_server.Auth.Journey.{
  Step, GavePassword, Happened, now, before, Authenticated, Justified,
}
use portfolio_server.Session.Typed.{
  SessionLib, IsLawful, user_id_key, mfa_pending_key, read_uuid, get_user_id,
  get_mfa_pending_user_id,
}

later :
    (id : ℕ) (step : Step) (steps : List Step)
    → Authenticated id steps
    → Authenticated id (step ∷ steps)
later id step steps (inl direct) = inl (before direct)
later id step steps (inr (first, second)) = inr (before first, before second)

module _ (S : SessionLib) (lawful : IsLawful S) where
  same_user :
      (x : Option Json) (id id' : ℕ)
      → x ≡ some (S.uuid_to_json id)
      → read_uuid S x ≡ ok (some id')
      → id ≡ id'
  same_user x id id' e r = let known = lawful.uuid id in ground (arith, known, e)

  pub not_none : (x : Option Json) (id : ℕ) → x ≡ none → read_uuid S x ≢ ok (some id)
  not_none x id e r = ground (arith, e)

  -- A step that leaves both entries as they were.
  pub carried :
      (step : Step) (steps : List Step) (s s' : S.State)
      → S.entry s' user_id_key ≡ S.entry s user_id_key
      → S.entry s' mfa_pending_key ≡ S.entry s mfa_pending_key
      → Justified S steps s
      → Justified S (step ∷ steps) s'
  unfolding get_user_id get_mfa_pending_user_id
  carried step steps s s' u p j = record {
    user_id = λ id e. later id step steps (j.user_id id (rw u at e));
    pending = λ id e. before (j.pending id (rw p at e));
  }

  -- A step that adds a user who is pending, and signs everybody out.
  pub asked :
      (step : Step) (steps : List Step) (s s' : S.State) (id : ℕ)
      → GavePassword id true step
      → S.entry s' user_id_key ≡ none
      → (S.entry s' mfa_pending_key ≡ S.entry s mfa_pending_key)
        ⊎ (S.entry s' mfa_pending_key ≡ some (S.uuid_to_json id))
      → Justified S steps s
      → Justified S (step ∷ steps) s'
  unfolding get_user_id get_mfa_pending_user_id
  asked step steps s s' id gave out p j = record {
    user_id = λ id' e. elim (not_none (S.entry s' user_id_key) id' out e) [ ];
    pending = λ id' e. elim p [
      | inl same ↦ before (j.pending id' (rw same at e))
      | inr new ↦
          let who = same_user (S.entry s' mfa_pending_key) id id' new e in
          subst (λ x. Happened (GavePassword x true) (step ∷ steps)) who (now gave)
    ];
  }

  -- A step that signs in a user for whom that is justified.
  pub signed :
      (step : Step) (steps : List Step) (s s' : S.State) (id : ℕ)
      → Authenticated id (step ∷ steps)
      → (S.entry s' mfa_pending_key ≡ S.entry s mfa_pending_key)
        ⊎ (S.entry s' mfa_pending_key ≡ none)
      → (S.entry s' user_id_key ≡ S.entry s user_id_key)
        ⊎ (S.entry s' user_id_key ≡ some (S.uuid_to_json id))
      → Justified S steps s
      → Justified S (step ∷ steps) s'
  unfolding get_user_id get_mfa_pending_user_id
  signed step steps s s' id may p u j = record {
    user_id = λ id' e. elim u [
      | inl same ↦ later id' step steps (j.user_id id' (rw same at e))
      | inr new ↦
          let who = same_user (S.entry s' user_id_key) id id' new e in
          subst (λ x. Authenticated x (step ∷ steps)) who may
    ];
    pending = λ id' e. elim p [
      | inl same ↦ before (j.pending id' (rw same at e))
      | inr gone ↦ elim (not_none (S.entry s' mfa_pending_key) id' gone e) [ ]
    ];
  }
