-- ===== src/Relay/Manual/Outcomes.antt =====
-- What the sessions are told of a request that failed: at most that their binding is stale.
use coding_switch.Base.{
  ℕ, Bool, true, false, not, ◌||◌, List, [], ◌∷◌, ◌++◌, Option, none, some, Bytes, ◌==◌,
  bytes_is_eq, Bool-cases, Result, ok, err, All, All-append, ◌≡◌, refl, inl, inr, arith,
}
use coding_switch.Routing.Provider.{Provider}
use coding_switch.Routing.Profile.{Resolved, ResolveError, provider, refused, resolve_provider}
use coding_switch.Relay.Body.{BodyLibrary}
use coding_switch.Relay.Route.{RelayError, RelayContext, ForwardContext, prepare_forward_context}
use coding_switch.Relay.Manual.{
  Call, get_snapshot, read_generation, invalidate, unbind, forward, bind, record_success,
  record_visibility, enqueue, update_success, Server, Answers, Routed, after_forward,
  bound_provider, resolve_bound_provider, request_generation, execute_prepared, execute_default,
  route_default, route_from, route_to_manual_provider,
}

module _ (json : BodyLibrary) (server : Server) (answers : Answers) (ctx : RelayContext) where
  -- The session is bound to a provider that the profile refuses for the model that is asked for.
  abbrev pub IsStale : Type 0
  IsStale =
      ((ctx.request_meta.session_id == []) ≡ false)
      × (server.session_cache ≡ true)
      × ((answers.snapshots []).failed ≡ false)
      × (((answers.snapshots []).provider_name == []) ≡ false)
      × ((e : ResolveError) × (resolve_provider ctx.profile (answers.snapshots []).provider_name
              ctx.request_meta.requested_model
            ≡ refused e))

  -- A call that tells the sessions nothing, or clears a binding that is stale.
  abbrev pub MayTell : Call → Type 0
  MayTell (bind name generation) = ⊥
  MayTell (record_success name generation) = ⊥
  MayTell (record_visibility background) = ⊥
  MayTell (enqueue generation) = ⊥
  MayTell (update_success generation) = ⊥
  MayTell invalidate = IsStale
  MayTell unbind = IsStale
  MayTell _ = Unit

  abbrev pub Silent : List Call → Type 0
  Silent = All MayTell

  -- The request succeeded, or the sessions were told nothing but that a binding is stale.
  abbrev pub NewsOfSuccess : Routed → Type 0
  NewsOfSuccess (calls, (true, error)) = Unit
  NewsOfSuccess (calls, (false, error)) = Silent calls

  more :
      (calls : List Call) (call : Call) → Silent calls → MayTell call → Silent (calls ++ call ∷ [])
  more calls call h g = All-append MayTell calls (call ∷ []) h (g, tt)

  forward-News :
      (fwd : ForwardContext) (bound : Bool) (generation : ℕ) (a : Bool × Option Bytes)
      (calls : List Call)
      → Silent calls
      → NewsOfSuccess (after_forward json server answers fwd bound generation a calls)
  forward-News fwd bound generation (true, error) calls h = tt
  forward-News fwd bound generation (false, error) calls h = h

  prepared-News :
      (r : Result RelayError ForwardContext) (bound : Bool) (generation : ℕ) (calls : List Call)
      → Silent calls
      → NewsOfSuccess (execute_prepared json server answers r bound generation calls)
  prepared-News (err e) bound generation calls h = h
  prepared-News (ok fwd) bound generation calls h =
      forward-News fwd bound generation (answers.forwards calls fwd) _
        (more calls (forward fwd) h tt)

  generation-Silent :
      (session_id : Bytes) (calls : List Call)
      → Silent calls
      → Silent (request_generation json server answers session_id calls).0
  generation-Silent session_id calls h =
      elim (Bool-cases (session_id == [] || not server.session_cache)) [
        | inl y ↦ rw y h
        | inr n ↦ rw n (more calls read_generation h tt)
      ]

  default-News :
      (resolved : Resolved) (calls : List Call)
      → Silent calls
      → NewsOfSuccess (route_default json server answers ctx resolved calls)
  default-News (refused e) calls h = h
  default-News (provider p) calls h = go (prepare_forward_context json ctx p)
    where
      go :
          (r : Result RelayError ForwardContext)
          → NewsOfSuccess (execute_default json server answers r ctx.request_meta.session_id calls)
      go (err e) = h
      go (ok fwd) =
          let read = request_generation json server answers ctx.request_meta.session_id calls in
          let silent = generation-Silent ctx.request_meta.session_id calls h in
          forward-News fwd false read.1 (answers.forwards read.0 fwd) _
            (more read.0 (forward fwd) silent tt)

  bound-Silent :
      (resolved : Resolved) (generation : ℕ) (calls : List Call)
      → ((e : ResolveError) → resolved ≡ refused e → IsStale)
      → Silent calls
      → Silent (bound_provider json server answers resolved generation calls).0
  bound-Silent (provider p) generation calls s h = h
  bound-Silent (refused e) generation calls s h =
      let cleared = more calls invalidate h (s e refl) in
      elim (Bool-cases server.session_service) [
        | inl y ↦ rw y (more _ unbind cleared (s e refl))
        | inr n ↦ rw n cleared
      ]

  is_stale :
      (ctx.request_meta.session_id == [] || not server.session_cache) ≡ false
      → ((answers.snapshots []).failed || (answers.snapshots []).provider_name == []) ≡ false
      → (e : ResolveError)
      → resolve_provider ctx.profile
          (answers.snapshots []).provider_name
          ctx.request_meta.requested_model
        ≡ refused e
      → IsStale
  is_stale h k e q = (ground arith, ground arith, ground arith, ground arith, (e, q))

  resolve-Silent : Silent (resolve_bound_provider json server answers ctx []).0
  unfolding resolve_bound_provider
  resolve-Silent =
      elim (Bool-cases (ctx.request_meta.session_id == [] || not server.session_cache)) [
        | inl y ↦ rw y tt
        | inr n ↦
            rw n
              (elim (Bool-cases
                ((answers.snapshots []).failed || (answers.snapshots []).provider_name == [])) [
                  | inl y ↦ rw y (tt, tt)
                  | inr m ↦ rw m (
                      bound-Silent _ (answers.snapshots []).generation (get_snapshot ∷ [])
                        (is_stale n m) (tt, tt))
                ])
      ]

  from-News :
      (found : List Call × Option (Provider × ℕ))
      → Silent found.0
      → NewsOfSuccess (route_from json server answers ctx found)
  from-News (calls, some (p, generation)) h =
      prepared-News (prepare_forward_context json ctx p) true generation calls h
  from-News (calls, none) h =
      default-News (resolve_provider ctx.profile [] ctx.request_meta.requested_model) calls h

  -- A request that is not answered with success, be it for an error before it is forwarded or for a
  -- failed answer, binds no session and records no success and no visibility. It clears a binding, in
  -- the cache or in the table, only if the session is bound to a provider that the profile refuses for
  -- the model that is asked for.
  pub route-NewsOfSuccess : NewsOfSuccess (route_to_manual_provider json server answers ctx)
  unfolding route_to_manual_provider
  route-NewsOfSuccess = from-News (resolve_bound_provider json server answers ctx []) resolve-Silent
