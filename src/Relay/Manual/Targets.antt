-- ===== src/Relay/Manual/Targets.antt =====
-- A request is forwarded only to the provider of its session, or to the default.
use coding_switch.Base.{
  ℕ, Bool, true, false, not, ◌||◌, List, [], ◌∷◌, ◌++◌, Option, none, some, Bytes, ◌==◌,
  bytes_is_eq, if◌then◌else◌, Bool-cases, Result, ok, err, bind_ok, All, All-append, ◌≡◌, refl, ap,
  ◌⊎◌, inl, inr, subst, arith,
}
use coding_switch.Kernel.{Platform, codex}
use coding_switch.Routing.Provider.{Provider}
use coding_switch.Routing.Profile.{
  Resolved, ResolveError, provider, refused, resolve_provider, plan_model_rewrite,
}
use coding_switch.Relay.Body.{BodyLibrary}
use coding_switch.Relay.Route.{
  RelayError, RelayContext, ForwardContext, on_rewrite, replaced, rewritten, target_endpoint,
  prepare_forward_context,
}
use coding_switch.Relay.Manual.{
  Call, get_snapshot, read_generation, invalidate, unbind, forward, bind, record_success,
  record_visibility, enqueue, update_success, Server, Answers, record_codex_session_visibility,
  after_success, handle_successful_session, after_forward, execute_and_handle_session,
  bound_provider, resolve_bound_provider, request_generation, execute_prepared, execute_default,
  route_default, route_from, route_to_manual_provider,
}

module _ (json : BodyLibrary) (server : Server) (answers : Answers) (ctx : RelayContext) where
  abbrev pub resolved : Bytes → Resolved
  resolved name = resolve_provider ctx.profile name ctx.request_meta.requested_model

  abbrev pub bound_name : Bytes
  bound_name = (answers.snapshots []).provider_name

  -- The session has an id, there is a cache, and it answers with the name of a provider.
  abbrev pub IsBound : Type 0
  IsBound =
      ((ctx.request_meta.session_id == []) ≡ false)
      × (server.session_cache ≡ true)
      × ((answers.snapshots []).failed ≡ false)
      × ((bound_name == []) ≡ false)

  -- There is no binding, or the profile refuses its provider for the model that is asked for.
  abbrev pub Unusable : Type 0
  Unusable = IsBound → (e : ResolveError) × (resolved bound_name ≡ refused e)

  -- What the name of the binding resolves to or, without a binding that holds, the default.
  abbrev pub Resolves : Provider → Type 0
  Resolves p =
      (IsBound × (resolved bound_name ≡ provider p)) ⊎ (Unusable × (resolved [] ≡ provider p))

  abbrev pub GoesRight : Call → Type 0
  GoesRight (forward fwd) = Resolves fwd.target
  GoesRight _ = Unit

  abbrev Right : List Call → Type 0
  Right = All GoesRight

  more :
      (calls : List Call) (call : Call) → Right calls → GoesRight call → Right (calls ++ call ∷ [])
  more calls call h g = All-append GoesRight calls (call ∷ []) h (g, tt)

  if-Right : (b : Bool) (x y : List Call) → Right x → Right y → Right (if b then x else y)
  if-Right true x y p q = p
  if-Right false x y p q = q

  visibility-Right :
      (platform : Platform) (background : Bool) (calls : List Call)
      → Right calls
      → Right (record_codex_session_visibility json server answers platform background calls)
  visibility-Right platform background calls h =
      if-Right (not (platform == codex) || not server.session_service) _ _ h
        (more calls (record_visibility background) h tt)

  success-Right :
      (platform : Platform) (background : Bool) (generation : ℕ) (a : Bool × Bool)
      (calls : List Call)
      → Right calls
      → Right (after_success json server answers platform background generation a calls)
  success-Right platform background generation (current, persist) calls h =
      let seen = visibility-Right platform background calls h in
      if-Right (not current) _ _ h (
        if-Right (not persist) _ _ seen (
          if-Right server.update_worker _ _ (more _ (enqueue generation) seen tt)
            (more _ (update_success generation) seen tt)))

  handle-Right :
      (fwd : ForwardContext) (bound : Bool) (generation : ℕ) (calls : List Call)
      → Right calls
      → Right (handle_successful_session json server answers fwd bound generation calls)
  unfolding handle_successful_session
  handle-Right fwd bound generation calls h =
      if-Right (fwd.session_id == [] || not server.session_cache) _ _ h (
        if-Right (not bound) _ _
          (if-Right (answers.bind_fails calls) _ _
            (more calls (bind fwd.target.name generation) h tt)
            (visibility-Right fwd.platform fwd.is_background_task _
              (more calls (bind fwd.target.name generation) h tt)))
          (success-Right fwd.platform fwd.is_background_task generation (answers.successes calls) _
            (more calls (record_success fwd.target.name generation) h tt)))

  forward-Right :
      (fwd : ForwardContext) (bound : Bool) (generation : ℕ) (a : Bool × Option Bytes)
      (calls : List Call)
      → Right calls
      → Right (after_forward json server answers fwd bound generation a calls).0
  forward-Right fwd bound generation (true, error) calls h =
      handle-Right fwd bound generation calls h
  forward-Right fwd bound generation (false, error) calls h = h

  execute-Right :
      (fwd : ForwardContext) (bound : Bool) (generation : ℕ) (calls : List Call)
      → Resolves fwd.target
      → Right calls
      → Right (execute_and_handle_session json server answers fwd bound generation calls).0
  execute-Right fwd bound generation calls r h =
      forward-Right fwd bound generation (answers.forwards calls fwd) _
        (more calls (forward fwd) h r)

  prepared_target :
      (p : Provider) (fwd : ForwardContext)
      → prepare_forward_context json ctx p ≡ ok fwd
      → p ≡ fwd.target
  unfolding prepare_forward_context
  prepared_target p fwd h =
      let (start, p1, h1) = bind_ok (replaced json ctx p) _ h in
      let (rewrite, p2, h2) =
        bind_ok
          (on_rewrite (
            plan_model_rewrite p start.1 ctx.request_meta.body_has_model_field
              ctx.request_meta.route_options.force_body_rewrite))
          _ h1 in
      let (body, p3, h3) =
        bind_ok (rewritten json ctx.request_meta.route_options start.0 rewrite) _ h2 in
      let (endpoint, p4, h4) =
        bind_ok
          (target_endpoint ctx.request_meta.route_options.endpoint_mutator ctx.request_meta.endpoint
            start.1 rewrite.effective_model)
          _ h3 in
      ap ForwardContext.target (forward_eq _ fwd h4)
    where
      forward_eq :
          (a b : ForwardContext) → ◌≡◌ {A = Result RelayError ForwardContext} (ok a) (ok b) → a ≡ b
      forward_eq a b e = cc e

  prepared-Right :
      (p : Provider) (r : Result RelayError ForwardContext) (bound : Bool) (generation : ℕ)
      (calls : List Call)
      → prepare_forward_context json ctx p ≡ r
      → Resolves p
      → Right calls
      → Right (execute_prepared json server answers r bound generation calls).0
  prepared-Right p (err e) bound generation calls q s h = h
  prepared-Right p (ok fwd) bound generation calls q s h =
      execute-Right fwd bound generation calls (subst Resolves (prepared_target p fwd q) s) h

  generation-Right :
      (session_id : Bytes) (calls : List Call)
      → Right calls
      → Right (request_generation json server answers session_id calls).0
  generation-Right session_id calls h =
      elim (Bool-cases (session_id == [] || not server.session_cache)) [
        | inl y ↦ rw y h
        | inr n ↦ rw n (more calls read_generation h tt)
      ]

  default-Right :
      (p : Provider) (r : Result RelayError ForwardContext) (calls : List Call)
      → prepare_forward_context json ctx p ≡ r
      → Resolves p
      → Right calls
      → Right (execute_default json server answers r ctx.request_meta.session_id calls).0
  default-Right p (err e) calls q s h = h
  default-Right p (ok fwd) calls q s h =
      execute-Right fwd false _ _ (subst Resolves (prepared_target p fwd q) s)
        (generation-Right ctx.request_meta.session_id calls h)

  route_default-Right :
      (answer : Resolved) (calls : List Call)
      → resolved [] ≡ answer
      → Unusable
      → Right calls
      → Right (route_default json server answers ctx answer calls).0
  route_default-Right (refused e) calls q u h = h
  route_default-Right (provider p) calls q u h = default-Right p _ calls refl (inr (u, q)) h

  -- The binding that was found, if any, resolves, and otherwise there is none to use.
  abbrev Bound : List Call × Option (Provider × ℕ) → Type 0
  Bound (calls, none) = Right calls × Unusable
  Bound (calls, some (p, generation)) = Right calls × Resolves p

  Bound-bound_provider :
      (answer : Resolved) (generation : ℕ) (calls : List Call)
      → IsBound
      → resolved bound_name ≡ answer
      → Right calls
      → Bound (bound_provider json server answers answer generation calls)
  Bound-bound_provider (provider p) generation calls b q h = (h, inl (b, q))
  Bound-bound_provider (refused e) generation calls b q h =
      let cleared = more calls invalidate h tt in
      (if-Right server.session_service _ _ (more _ unbind cleared tt) cleared, λ same. (e, q))

  no_session : (ctx.request_meta.session_id == [] || not server.session_cache) ≡ true → Unusable
  no_session y (named, cache, answered, some_name) = absurd (ground arith)

  no_name : ((answers.snapshots []).failed || bound_name == []) ≡ true → Unusable
  no_name y (named, cache, answered, some_name) = absurd (ground arith)

  is_bound :
      (ctx.request_meta.session_id == [] || not server.session_cache) ≡ false
      → ((answers.snapshots []).failed || bound_name == []) ≡ false
      → IsBound
  is_bound h k = (ground arith, ground arith, ground arith, ground arith)

  resolve-Bound : Bound (resolve_bound_provider json server answers ctx [])
  unfolding resolve_bound_provider
  resolve-Bound =
      elim (Bool-cases (ctx.request_meta.session_id == [] || not server.session_cache)) [
        | inl y ↦ rw y (tt, no_session y)
        | inr n ↦ rw n (elim (Bool-cases ((answers.snapshots []).failed || bound_name == [])) [
          | inl y ↦ rw y ((tt, tt), no_name y)
          | inr m ↦ rw m (
              Bound-bound_provider (resolved bound_name) (answers.snapshots []).generation
                (get_snapshot ∷ []) (is_bound n m) refl (tt, tt))
        ])
      ]

  from-Right :
      (found : List Call × Option (Provider × ℕ))
      → Bound found
      → Right (route_from json server answers ctx found).0
  from-Right (calls, some (p, generation)) (h, s) =
      prepared-Right p _ true generation calls refl s h
  from-Right (calls, none) (h, u) = route_default-Right _ calls refl u h

  -- Every request that the relay forwards goes to the provider that the profile resolves, for the model
  -- that is asked for, by the name with which the session is bound; and only if the session has no id
  -- or no binding, there is no cache, its answer fails, or the profile refuses that provider, to the
  -- one that the profile resolves as the default.
  pub route-GoesRight : All GoesRight (route_to_manual_provider json server answers ctx).0
  unfolding route_to_manual_provider
  route-GoesRight = from-Right (resolve_bound_provider json server answers ctx []) resolve-Bound
