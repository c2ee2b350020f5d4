-- ===== src/Startup/Built.antt =====
-- When `Application::build` of src/startup.rs succeeds.
use portfolio_server.Errors.Start.{or_panics, or_failed}
use portfolio_server.Configuration.{Settings, totp_key, ApplicationSettings}
use portfolio_server.Startup.Build.{BuildLib, Application, build, run, Built, served}
use portfolio_server.Errors.Sql.{Anyhow}
use portfolio_server.Prelude.{
  some, none, ok, err, Text, Result, Option, ◌≡◌, Bytes, ◌↔◌, length, refl, as_bytes, and_then-ok,
  arith, ◌∙◌, ap, subst, sym,
}

or_failed-ok {ℓ} :
    {A : Type ℓ} (f : Anyhow → Anyhow) (r : Result A Anyhow) (a : A)
    → or_failed f r ≡ ok a
    → r ≡ ok a
or_failed-ok f (ok x) a e = cc
or_failed-ok f (err x) a e = cc

or_panics-ok {ℓ} :
    {A : Type ℓ} (why : Text) (o : Option A) (a : A) → or_panics why o ≡ ok a → o ≡ some a
or_panics-ok why (some x) a e = cc
or_panics-ok why none a e = cc

totp_key-ok :
    (application : ApplicationSettings) (key : Bytes)
    → totp_key application ≡ ok key
    → (length (as_bytes application.totp_encryption_key) ≡ 32)
      × (as_bytes application.totp_encryption_key ≡ key)
unfolding totp_key
totp_key-ok application key e = ground arith

module _ (lib : BuildLib) (settings : Settings) (app : Application lib) where
  build-Built : build lib settings ≡ ok app → Built lib settings app
  unfolding build run
  build-Built e =
      let application = settings.application in
      let (reached, acquired, e1) = and_then-ok _ _ app e in
      let (totp, checked, e2) = and_then-ok _ _ app e1 in
      let (listener, bound, e3) = and_then-ok _ _ app e2 in
      let (port, known, e4) = and_then-ok _ _ app e3 in
      let (server, ran, e5) = and_then-ok _ _ app e4 in
      let (key, keyed, ran1) = and_then-ok _ _ server ran in
      let (store, connected, ran2) = and_then-ok _ _ server ran1 in
      let (full, same) = totp_key-ok application totp (or_failed-ok _ _ totp checked) in
      let same_port : port ≡ app.port = cc in
      let same_server : server ≡ app.server = cc in
      record {
        reached = or_failed-ok _ _ tt acquired;
        key_bytes = full;
        listener = listener;
        bound = or_failed-ok _ _ listener bound;
        port = or_panics-ok _ _ port known ∙ ap some same_port;
        key = key;
        keyed = or_panics-ok _ _ key keyed;
        store = store;
        connected = or_failed-ok _ _ store connected;
        listens =
            subst (λ k. served lib settings listener key store k ≡ ok app.server) (sym same)
              (or_failed-ok _ _ server ran2 ∙ ap ok same_server);
      }

  Built-build : Built lib settings app → build lib settings ≡ ok app
  unfolding build run totp_key
  Built-build b = rw (b.reached, b.key_bytes, b.bound, b.port, b.keyed, b.connected, b.listens) refl

-- The application is built exactly when, in this order, the database answers, the key of the second
-- factor has 32 bytes, the address is bound and its port is known, the key of the cookies is long
-- enough for the library, the store of the sessions answers, and the server listens on that address,
-- with the settings of the configuration and nothing else.
pub build_iff :
    (lib : BuildLib) (settings : Settings) (app : Application lib)
    → (build lib settings ≡ ok app) ↔ Built lib settings app
build_iff lib settings app = (build-Built lib settings app, Built-build lib settings app)
