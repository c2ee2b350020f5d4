-- ===== src/Session/Entries.antt =====
-- What a write to the session of src/session_state.rs, and a chain of such writes in a handler,
-- leaves under a key.
use portfolio_server.Http.{Json, Response}
use portfolio_server.Errors.Web.{WebError}
use portfolio_server.Errors.Sql.{Anyhow}
use portfolio_server.Prelude.{
  Text, ◌≡◌, true, Result, ◌⊎◌, ◌>>◌, text_eq, proceed, some, false, pure, inl, Result-cases, ok,
  map_err, err, inr, refl, Bool-cases, arith,
}
use portfolio_server.Session.Typed.{SessionLib, IsLawful}
use portfolio_server.Auth.Login.{write}

module _ (S : SessionLib) (lawful : IsLawful S) where
  -- Inserting under one key leaves each entry as it was, or it is the entry that was inserted.
  pub entry-insert :
      (s : S.State) (k j : Text) (v : Json)
      → S.is_live s ≡ true
      → (S.entry (S.insert k v s).1 j ≡ S.entry s j)
        ⊎ ((text_eq k j ≡ true) × (S.entry (S.insert k v s).1 j ≡ some v))
  entry-insert s k j v live = elim (Result-cases (S.insert k v s).0) [
    | inr (e, failed) ↦ inl (lawful.insert-err s k j v e failed)
    | inl (tt, done) ↦
        let became = lawful.insert-ok s k j v live done in
        elim (Bool-cases (text_eq k j)) [
          | inl same ↦ inr (same, rw same at became)
          | inr apart ↦ inl (rw apart at became)
        ]
  ]

  pub entry-insert_ne :
      (s : S.State) (k j : Text) (v : Json)
      → S.is_live s ≡ true
      → text_eq k j ≡ false
      → S.entry (S.insert k v s).1 j ≡ S.entry s j
  entry-insert_ne s k j v live apart = elim (entry-insert s k j v live) [
    | inl same ↦ same
    | inr (equal, _) ↦ ground arith
  ]

  module _ (wrap : Anyhow → WebError) (answer : Response)
      (f g : S.State → Result (Unit {0}) Anyhow × S.State) where
    proceed-pure :
        (r : Result (Unit {0}) WebError) (s : S.State) → (proceed r (λ _. pure answer) s).1 ≡ s
    proceed-pure (ok _) s = refl
    proceed-pure (err e) s = refl

    -- One write, then an answer.
    pub write-pure : (s : S.State) → ((write S wrap f >> pure answer) s).1 ≡ (f s).1
    write-pure s = proceed-pure (map_err wrap (f s).0) (f s).1

    proceed-write :
        (r : Result (Unit {0}) WebError) (s : S.State)
        → ((proceed r (λ _. write S wrap g >> pure answer) s).1 ≡ s)
          ⊎ ((proceed r (λ _. write S wrap g >> pure answer) s).1 ≡ (g s).1)
    proceed-write (ok _) s = inr (proceed-pure (map_err wrap (g s).0) (g s).1)
    proceed-write (err e) s = inl refl

    -- Two writes, the second only after the first succeeded, then an answer.
    pub write-write-pure :
        (s : S.State)
        → (((write S wrap f >> (write S wrap g >> pure answer)) s).1 ≡ (f s).1)
          ⊎ (((write S wrap f >> (write S wrap g >> pure answer)) s).1 ≡ (g (f s).1).1)
    write-write-pure s = proceed-write (map_err wrap (f s).0) (f s).1
