-- ===== src/Tests/Sessions.antt =====
-- A session kept in a list, as an instance of the library's session.
use portfolio_server.Auth.Roles.{IsReliable}
use portfolio_server.Prelude.{
  ℕ, Text, text_eq, text_eq_iff, Bool, true, false, List, [], ◌∷◌, none, some, Result, ok, err,
  if◌then◌else◌, ◌≡◌, refl, arith, text,
}
use portfolio_server.Http.{Json, get}
use portfolio_server.Errors.Sql.{Anyhow, msg}
use portfolio_server.Session.Typed.{SessionLib, IsLawful}

abbrev Entries : Type 0
Entries = List (Text × Json)

abbrev without : Text → Entries → Entries
without k [] = []
without k ((n, v) ∷ rest) = let kept = without k rest in if text_eq k n then kept else (n, v) ∷ kept

abbrev uuid_of : Json → Result ℕ Anyhow
uuid_of (Json.num n) = ok n
uuid_of _ = err (msg (text "invalid type"))

abbrev put : Text → Json → Bool × Entries → Result (Unit {0}) Anyhow × (Bool × Entries)
put k v (true, entries) = (ok tt, (true, (k, v) ∷ entries))
put k v (false, entries) = (ok tt, (false, entries))

abbrev pub in_list : SessionLib
in_list = record {
  State = Bool × Entries;
  entry = λ s k. get k s.1;
  insert = put;
  remove = λ k s. (s.0, without k s.1);
  renew = λ s. s;
  purge = λ s. (false, []);
  is_live = λ s. s.0;
  uuid_to_json = λ id. Json.num id;
  uuid_from_json = uuid_of;
}

get-without :
    (k j : Text) (entries : Entries)
    → get j (without k entries) ≡ (if text_eq k j then none else get j entries)
unfolding get
get-without k j [] = ground arith
get-without k j ((n, v) ∷ rest) =
    ground (arith, get-without k j rest, text_eq_iff k j, text_eq_iff n j, text_eq_iff k n)

put-ok :
    (s : Bool × Entries) (k j : Text) (v : Json)
    → s.0 ≡ true
    → get j (put k v s).1.1 ≡ (if text_eq k j then some v else get j s.1)
unfolding get
put-ok (true, entries) k j v live = refl
put-ok (false, entries) k j v live = ground arith

put-err :
    (s : Bool × Entries) (k j : Text) (v : Json) (e : Anyhow)
    → (put k v s).0 ≡ err e
    → get j (put k v s).1.1 ≡ get j s.1
put-err (true, entries) k j v e failed = ground arith
put-err (false, entries) k j v e failed = refl

put-live : (s : Bool × Entries) (k : Text) (v : Json) → (put k v s).1.0 ≡ s.0
put-live (true, entries) k v = refl
put-live (false, entries) k v = refl

pub in_list-IsLawful : IsLawful in_list
unfolding get
in_list-IsLawful = record {
  insert-ok = λ s k j v live done. put-ok s k j v live;
  insert-err = put-err;
  entry-remove = λ s k j. get-without k j s.1;
  entry-renew = λ s j. refl;
  entry-purge = λ s j. refl;
  live-insert = put-live;
  live-remove = λ s k. refl;
  live-renew = λ s. refl;
  uuid = λ id. refl;
}

put-inserts : (s : Bool × Entries) (k : Text) (v : Json) → s.0 ≡ true → (put k v s).0 ≡ ok tt
put-inserts (true, entries) k v live = refl
put-inserts (false, entries) k v live = refl

pub in_list-IsReliable : IsReliable in_list
in_list-IsReliable = record { inserts = put-inserts }
