-- ===== src/Server/Client.antt =====
-- One client of src/startup.rs, over all the requests that come with the cookie of its session; other
-- clients change the tables in between.
use portfolio_server.Startup.Passes.{run_routes-runs}
use portfolio_server.Startup.Token.{HasToken, has_token}
use portfolio_server.Auth.Middleware.{is_safe}
use portfolio_server.Server.Permitted.{respond_to-Changed}
use portfolio_server.Server.Changes.{step_of, Changed, wrote, stepped, kept}
use portfolio_server.Startup.{Endpoint, endpoint_for, to_logout}
use portfolio_server.Errors.Sql.{Anyhow}
use portfolio_server.Db.{Db}
use portfolio_server.Server.{Inputs, AppData, World, respond_to, endpoints}
use portfolio_server.Users.ChatToken.{JwtLib}
use portfolio_server.Http.{Request, Response}
use portfolio_server.Session.Typed.{SessionLib}
use portfolio_server.Env.{Env}
use portfolio_server.Prelude.{
  ℕ, inl, inr, some, none, refl, subst, Text, Result, List, ◌≡◌, [], false, true, ◌∙◌, ◌∷◌, Option,
  sym, Bool, Bool-cases, ◌&&◌, arith,
}
use portfolio_server.Auth.Journey.{
  Step, Happened, after, Reach, begins, goes_on, logs_out, since_sign_out, Happened-first,
}

-- A request, what it meets, and the tables that it finds.
pub record Visit : Type 0 where
  pub env : Env
  pub request : Request
  pub input : Inputs
  pub pool : Db

-- Whether a request is led to the sign-out.
abbrev is_logout : Option Endpoint → Bool
is_logout (some to_logout) = true
is_logout (some _) = false
is_logout none = false

logout-first :
    (e : Option Endpoint) (b : Bool) → (is_logout e && b) ≡ true → (e ≡ some to_logout) × (b ≡ true)
logout-first (some to_logout) b h = (refl, h)
logout-first none b h = ground arith
logout-first e b h = ground arith

-- A sign-out that has its token.
abbrev pub signs_out : Visit → Bool
signs_out v = is_logout (endpoint_for v.request) && has_token v.env v.request

-- What one of the requests did, and no later one was a sign-out.
pub data Since (P : Visit → Type 0) : List Visit → Type 0 where
  this_one : {v : Visit} {vs : List Visit} → P v → Since P (v ∷ vs)
  earlier : {v : Visit} {vs : List Visit} → signs_out v ≡ false → Since P vs → Since P (v ∷ vs)

module _ (app : AppData) where
  -- The steps that a sequence of requests takes.
  pub data From : List Visit → List Step → Type 0 where
    nothing : From [] []
    skip :
        {v : Visit} {vs : List Visit} {steps : List Step}
        → signs_out v ≡ false
        → From vs steps
        → From (v ∷ vs) steps
    left :
        {v : Visit} {vs : List Visit} {steps : List Step}
        → From vs steps
        → From (v ∷ vs) (logs_out ∷ steps)
    took :
        {v : Visit} {vs : List Visit} {steps : List Step} (e : Endpoint) (step : Step)
        → signs_out v ≡ false
        → endpoint_for v.request ≡ some e
        → (is_safe v.request.method ≡ false → HasToken v.env v.request)
        → step_of app v.env v.input e v.pool ≡ some step
        → From vs steps
        → From (v ∷ vs) (step ∷ steps)

  -- A request that was routed to a step with a property, with its token where its method is unsafe.
  abbrev pub Did : (Step → Type 0) → Visit → Type 0
  Did P v =
      (e : Endpoint) × (step : Step) × (endpoint_for v.request ≡ some e)
      × (is_safe v.request.method ≡ false → HasToken v.env v.request)
      × (step_of app v.env v.input e v.pool ≡ some step)
      × P step

  pub From-Since :
      (P : Step → Type 0) {vs : List Visit} {steps : List Step}
      → From vs steps
      → Happened P (since_sign_out steps)
      → Since (Did P) vs
  From-Since P nothing p = elim p [ ]
  From-Since P (skip out from) p = earlier out (From-Since P from p)
  From-Since P (left from) p = elim p [ ]
  From-Since P (took {steps} e step out routed token is from) p =
      elim (Happened-first P step steps p) [
        | inl done ↦ this_one (e, step, routed, token, is, done)
        | inr p ↦ earlier out (From-Since P from p)
      ]

module _ (S : SessionLib) (jwt : JwtLib) (app : AppData)
    (add_cookie : Text → Response → Result Response Anyhow) where
  unfoldable pub visit : Visit → S.State → World S
  unfolding respond_to
  visit v s =
      (respond_to S jwt app v.env v.request v.input add_cookie
        (record { pool = v.pool; session = s })).1

  -- The states of the client's session, the latest request first.
  pub data Visited : List Visit → S.State → Type 0 where
    arrives : (s : S.State) → ((key : Text) → S.entry s key ≡ none) → Visited [] s
    returns :
        (v : Visit) (vs : List Visit) (s s' : S.State)
        → Visited vs s
        → ((key : Text) → S.entry s' key ≡ S.entry s key)
        → S.is_live s' ≡ true
        → Visited (v ∷ vs) (visit v s').session

  -- The session is one that the steps can have, up to what is not an entry.
  pub record Stepped (vs : List Visit) (s : S.State) : Type 0 where
    pub steps : List Step
    pub state : S.State
    pub from : From app vs steps
    pub reach : Reach S steps state
    pub same : (key : Text) → S.entry s key ≡ S.entry state key

  Changed-Stepped :
      (v : Visit) (vs : List Visit) (s : S.State)
      → S.is_live s ≡ true
      → signs_out v ≡ false
      → Stepped vs s
      → Stepped (v ∷ vs) s
      → (e : Endpoint) (u : Option ℕ) (w' : World S) → endpoint_for v.request ≡ some e
      → (is_safe v.request.method ≡ false → HasToken v.env v.request)
      → Changed S jwt app v.env v.request v.input e u (record { pool = v.pool; session = s }) w'
      → Stepped (v ∷ vs) w'.session
  Changed-Stepped v vs s live out so_far stays e u w' routed token kept = stays
  Changed-Stepped v vs s live out so_far stays e u w' routed token (wrote call is same) = stays
  Changed-Stepped v vs s live out so_far stays e u w' routed token (stepped step is) = record {
    steps = step ∷ so_far.steps;
    state = after S step s;
    from = took e step out routed token is so_far.from;
    reach = goes_on step so_far.steps so_far.state s so_far.reach so_far.same live;
    same = λ key. refl;
  }

  -- A sign-out with its token takes the step that signs out.
  left-Stepped :
      (v : Visit) (vs : List Visit) (s : S.State)
      → S.is_live s ≡ true
      → Stepped vs s
      → signs_out v ≡ true
      → Stepped (v ∷ vs) (visit v s).session
  unfolding visit respond_to endpoints after
  left-Stepped v vs s live so_far out =
      let w : World S = record { pool = v.pool; session = s } in
      let (there, matches) =
        logout-first (endpoint_for v.request) (has_token v.env v.request) out in
      let (given, ran) =
        run_routes-runs S add_cookie (λ x. x.session) v.env v.request w
          (endpoints S jwt app v.env v.request v.input) to_logout matches refl there in
      subst (λ x. Stepped (v ∷ vs) x.session) (sym ran)
        (record {
          steps = logs_out ∷ so_far.steps;
          state = after S logs_out s;
          from = left so_far.from;
          reach = goes_on logs_out so_far.steps so_far.state s so_far.reach so_far.same live;
          same = λ key. refl;
        })

  stays-Stepped :
      (v : Visit) (vs : List Visit) (s : S.State)
      → S.is_live s ≡ true
      → Stepped vs s
      → signs_out v ≡ false
      → Stepped (v ∷ vs) (visit v s).session
  unfolding visit
  stays-Stepped v vs s live so_far out =
      let w : World S = record { pool = v.pool; session = s } in
      let stays : Stepped (v ∷ vs) s = record {
        steps = so_far.steps;
        state = so_far.state;
        from = skip out so_far.from;
        reach = so_far.reach;
        same = so_far.same;
      } in
      elim (respond_to-Changed S jwt app v.env v.request v.input add_cookie w) [
        | inl kept_all ↦ subst (λ x. Stepped (v ∷ vs) x.session) (sym kept_all) stays
        | inr (e, u, routed, runs, changed) ↦
            Changed-Stepped v vs s live out so_far stays e u _ routed runs.token changed
      ]

  visit-Stepped :
      (v : Visit) (vs : List Visit) (s : S.State)
      → S.is_live s ≡ true
      → Stepped vs s
      → Stepped (v ∷ vs) (visit v s).session
  visit-Stepped v vs s live so_far = elim (Bool-cases (signs_out v)) [
    | inl out ↦ left-Stepped v vs s live so_far out
    | inr out ↦ stays-Stepped v vs s live so_far out
  ]

  pub found_again :
      (vs : List Visit) (s s' : S.State)
      → ((key : Text) → S.entry s' key ≡ S.entry s key)
      → Stepped vs s
      → Stepped vs s'
  found_again vs s s' same so_far = record {
    steps = so_far.steps;
    state = so_far.state;
    from = so_far.from;
    reach = so_far.reach;
    same = λ key. same key ∙ so_far.same key;
  }

  pub Visited-Stepped : {vs : List Visit} {s : S.State} → Visited vs s → Stepped vs s
  Visited-Stepped (arrives s empty) = record {
    steps = [];
    state = s;
    from = nothing;
    reach = begins s empty;
    same = λ key. refl;
  }
  Visited-Stepped (returns v vs s s' visited same live) =
      visit-Stepped v vs s' live (found_again vs s s' same (Visited-Stepped visited))
