-- ===== src/Relay/Manual.antt =====
-- Routing a request by hand (internal/interfaces/http/relay/routing.go, `routeToManualProvider`): which
-- provider it goes to, and what is told to the sessions afterwards. The calls of the session cache,
-- the session service, the update worker and the provider are a list in their order, and what each
-- answers may depend on every call before it. Logging is left out.
pub mod Targets
pub mod Outcomes
use coding_switch.Base.{
  ℕ, Bool, true, false, not, ◌&&◌, ◌||◌, List, [], ◌∷◌, ◌++◌, Option, none, some, Bytes, ◌==◌,
  bytes_is_eq, if◌then◌else◌, Result, ok, err,
}
use coding_switch.Kernel.{Platform, codex}
use coding_switch.Routing.Provider.{Provider}
use coding_switch.Routing.Profile.{ResolveError, Resolved, provider, refused, resolve_provider}
use coding_switch.Relay.Body.{BodyLibrary}
use coding_switch.Relay.Route.{
  RelayError, unresolved, upstream, RelayContext, ForwardContext, prepare_forward_context,
}

-- The calls, without the platform and the session, which are those of the request.
pub data Call : Type 0 where
  get_snapshot : Call
  read_generation : Call
  invalidate : Call
  unbind : Call
  forward : ForwardContext → Call
  bind : Bytes → ℕ → Call
  record_success : Bytes → ℕ → Call
  record_visibility : Bool → Call
  enqueue : ℕ → Call
  update_success : ℕ → Call

-- Which parts the server has.
pub record Server : Type 0 where
  pub session_cache : Bool
  pub session_service : Bool
  pub update_worker : Bool

-- The answer of `GetSessionProviderSnapshot`: `failed` is its error.
pub record SessionSnapshot : Type 0 where
  pub provider_name : Bytes
  pub generation : ℕ
  pub failed : Bool

-- What the calls answer, after the calls before them. `forwards` is the answer of `forwardRequest`,
-- whose error is a text; the pair of `successes` is whether the generation is current and whether to
-- store the success.
pub record Answers : Type 0 where
  pub snapshots : List Call → SessionSnapshot
  pub generations : List Call → ℕ
  pub bind_fails : List Call → Bool
  pub successes : List Call → Bool × Bool
  pub forwards : List Call → ForwardContext → Bool × Option Bytes

-- A Go function that makes calls and returns a Boolean and an error.
abbrev pub Routed : Type 0
Routed = List Call × (Bool × Option RelayError)

module _ (json : BodyLibrary) (server : Server) (answers : Answers) where
  -- `recordCodexSessionVisibility`
  abbrev pub record_codex_session_visibility : Platform → Bool → List Call → List Call
  record_codex_session_visibility platform background calls =
      if not (platform == codex) || not server.session_service
      then calls
      else calls ++ record_visibility background ∷ []

  abbrev pub store_success : ℕ → List Call → List Call
  store_success generation calls =
      if server.update_worker
      then calls ++ enqueue generation ∷ []
      else calls ++ update_success generation ∷ []

  abbrev pub after_success : Platform → Bool → ℕ → Bool × Bool → List Call → List Call
  after_success platform background generation (current, persist) calls =
      let seen = record_codex_session_visibility platform background calls in
      if not current then calls else if not persist then seen else store_success generation seen

  abbrev pub after_bind : Platform → Bool → Bool → List Call → List Call
  after_bind platform background fails calls =
      if fails then calls else record_codex_session_visibility platform background calls

  -- `handleSuccessfulSession`
  unfoldable pub handle_successful_session : ForwardContext → Bool → ℕ → List Call → List Call
  handle_successful_session fwd already_bound generation calls =
      if fwd.session_id == [] || not server.session_cache
      then calls
      else if not already_bound
      then after_bind fwd.platform fwd.is_background_task (answers.bind_fails calls)
          (calls ++ bind fwd.target.name generation ∷ [])
      else after_success fwd.platform fwd.is_background_task generation (answers.successes calls)
          (calls ++ record_success fwd.target.name generation ∷ [])

  abbrev pub upstream_error : Option Bytes → Option RelayError
  upstream_error none = none
  upstream_error (some text) = some (upstream text)

  abbrev pub after_forward : ForwardContext → Bool → ℕ → Bool × Option Bytes → List Call → Routed
  after_forward fwd already_bound generation (forwarded, error) calls =
      if forwarded
      then (handle_successful_session fwd already_bound generation calls, (true, none))
      else (calls, (false, upstream_error error))

  -- `executeAndHandleSession`
  abbrev pub execute_and_handle_session : ForwardContext → Bool → ℕ → List Call → Routed
  execute_and_handle_session fwd already_bound generation calls =
      after_forward fwd already_bound generation (answers.forwards calls fwd)
        (calls ++ forward fwd ∷ [])

  -- `clearInvalidSessionBinding`, for a session with a name and a server with a cache.
  abbrev pub clear_invalid_session_binding : List Call → List Call
  clear_invalid_session_binding calls =
      let cleared = calls ++ invalidate ∷ [] in
      if server.session_service then cleared ++ unbind ∷ [] else cleared

  -- The provider of a binding that holds, with its generation.
  abbrev pub bound_provider : Resolved → ℕ → List Call → List Call × Option (Provider × ℕ)
  bound_provider (provider p) generation calls = (calls, some (p, generation))
  bound_provider (refused e) generation calls = (clear_invalid_session_binding calls, none)

  abbrev pub snapshot_provider :
      RelayContext → SessionSnapshot → List Call → List Call × Option (Provider × ℕ)
  snapshot_provider ctx s calls =
      if s.failed || s.provider_name == []
      then (calls, none)
      else bound_provider
          (resolve_provider ctx.profile s.provider_name ctx.request_meta.requested_model)
          s.generation calls

  -- `resolveBoundProvider`
  unfoldable pub resolve_bound_provider :
      RelayContext → List Call → List Call × Option (Provider × ℕ)
  resolve_bound_provider ctx calls =
      if ctx.request_meta.session_id == [] || not server.session_cache
      then (calls, none)
      else snapshot_provider ctx (answers.snapshots calls) (calls ++ get_snapshot ∷ [])

  -- `sessionGeneration`, for the session of the request.
  abbrev pub request_generation : Bytes → List Call → List Call × ℕ
  request_generation session_id calls =
      if session_id == [] || not server.session_cache
      then (calls, 0)
      else (calls ++ read_generation ∷ [], answers.generations calls)

  abbrev pub execute_prepared : Result RelayError ForwardContext → Bool → ℕ → List Call → Routed
  execute_prepared (err e) already_bound generation calls = (calls, (false, some e))
  execute_prepared (ok fwd) already_bound generation calls =
      execute_and_handle_session fwd already_bound generation calls

  -- The generation is read after the body is prepared, and before the request is forwarded.
  abbrev pub execute_default : Result RelayError ForwardContext → Bytes → List Call → Routed
  execute_default (err e) session_id calls = (calls, (false, some e))
  execute_default (ok fwd) session_id calls =
      let (read, generation) = request_generation session_id calls in
      execute_and_handle_session fwd false generation read

  abbrev pub route_default : RelayContext → Resolved → List Call → Routed
  route_default ctx (refused e) calls = (calls, (false, some (unresolved e)))
  route_default ctx (provider p) calls =
      execute_default (prepare_forward_context json ctx p) ctx.request_meta.session_id calls

  abbrev pub route_from : RelayContext → List Call × Option (Provider × ℕ) → Routed
  route_from ctx (calls, some (p, generation)) =
      execute_prepared (prepare_forward_context json ctx p) true generation calls
  route_from ctx (calls, none) =
      route_default ctx (resolve_provider ctx.profile [] ctx.request_meta.requested_model) calls

  -- `routeToManualProvider`
  unfoldable pub route_to_manual_provider : RelayContext → Routed
  route_to_manual_provider ctx = route_from ctx (resolve_bound_provider ctx [])
