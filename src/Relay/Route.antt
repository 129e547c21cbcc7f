-- ===== src/Relay/Route.antt =====
-- Preparing a request for its provider (internal/interfaces/http/relay/routing.go,
-- `prepareForwardContext`). Relay/Manual has the order of the calls.
use coding_switch.Base.{
  Bool, not, ◌&&◌, List, [], Option, none, some, Bytes, ◌==◌, bytes_is_eq, Map, leb, length,
  if◌then◌else◌, Result, ok, err, ◌>>=◌,
}
use coding_switch.Kernel.{Platform, claude}
use coding_switch.Routing.Provider.{Provider, RequestBodyReplacement}
use coding_switch.Routing.Profile.{RouteProfile, ResolveError, ModelRewrite, plan_model_rewrite}
use coding_switch.Relay.Body.{
  BodyLibrary, BodyError, apply_request_body_replacements, model_field,
  replace_model_in_request_body,
}

pub data RelayError : Type 0 where
  unresolved : ResolveError → RelayError
  in_body : BodyError → RelayError
  bad_endpoint : RelayError
  mapping_panics : RelayError
  upstream : Bytes → RelayError

-- `relayRouteOptions`: nil is none, and so is an error of the endpoint mutator.
pub record RouteOptions : Type 0 where
  pub endpoint_mutator : Option (Bytes → Bytes → Bytes → Option Bytes)
  pub query_mutator : Option (Map Bytes Bytes → Provider → Option (Map Bytes Bytes))
  pub header_mutator : Option (Map Bytes Bytes → Provider → Option (Map Bytes Bytes))
  pub body_model_formatter : Option (Bytes → Bytes)
  pub force_body_rewrite : Bool

-- `RequestMeta`
pub record RequestMeta : Type 0 where
  pub endpoint : Bytes
  pub requested_model : Bytes
  pub session_id : Bytes
  pub is_stream : Bool
  pub is_fast : Bool
  pub is_background_task : Bool
  pub body_has_model_field : Bool
  pub route_options : RouteOptions

-- `RelayContext`
pub record RelayContext : Type 0 where
  pub platform : Platform
  pub body_bytes : Bytes
  pub query : Option (Map Bytes Bytes)
  pub headers : Option (Map Bytes Bytes)
  pub profile : RouteProfile
  pub request_meta : RequestMeta

-- `ForwardContext`
pub record ForwardContext : Type 0 where
  pub platform : Platform
  pub target : Provider
  pub endpoint : Bytes
  pub query : Map Bytes Bytes
  pub headers : Map Bytes Bytes
  pub body_bytes : Bytes
  pub is_stream : Bool
  pub is_fast : Bool
  pub is_background_task : Bool
  pub model : Bytes
  pub session_id : Bytes

abbrev pub or_no_entries : Option (Map Bytes Bytes) → Map Bytes Bytes
or_no_entries none = []
or_no_entries (some m) = m

-- `cloneMap` gives a map for nil too.
abbrev pub mutated :
    Option (Map Bytes Bytes → Provider → Option (Map Bytes Bytes))
    → Option (Map Bytes Bytes)
    → Provider
    → Map Bytes Bytes
mutated none m p = or_no_entries m
mutated (some f) m p = or_no_entries (f (or_no_entries m) p)

abbrev pub formatted : Option (Bytes → Bytes) → Bytes → Bytes
formatted none model = model
formatted (some f) model = f model

abbrev pub target_endpoint :
    Option (Bytes → Bytes → Bytes → Option Bytes) → Bytes → Bytes → Bytes → Result RelayError Bytes
target_endpoint none endpoint requested effective = ok endpoint
target_endpoint (some f) endpoint requested effective = elim (f endpoint requested effective) [
  | none ↦ err bad_endpoint
  | some changed ↦ ok changed
]

abbrev pub replacements_of : Provider → List RequestBodyReplacement
replacements_of p = elim p.request_body_replacements [
  | none ↦ []
  | some replacements ↦ replacements
]

abbrev pub on_body : {A : Type 0} → Result BodyError A → Result RelayError A
on_body (ok a) = ok a
on_body (err e) = err (in_body e)

abbrev pub on_rewrite : Option ModelRewrite → Result RelayError ModelRewrite
on_rewrite none = err mapping_panics
on_rewrite (some rewrite) = ok rewrite

module _ (json : BodyLibrary) where
  -- The body after the replacements, and the model that is asked for.
  abbrev pub replaced : RelayContext → Provider → Result RelayError (Bytes × Bytes)
  replaced ctx p =
      let meta = ctx.request_meta in
      if ctx.platform == claude && not (leb (length (replacements_of p)) 0)
      then (on_body (apply_request_body_replacements json ctx.body_bytes (replacements_of p))
          >>= λ body. ok (
            body,
            if meta.body_has_model_field
                then json.text body (model_field json)
                else meta.requested_model,
          ))
      else ok (ctx.body_bytes, meta.requested_model)

  abbrev pub rewritten : RouteOptions → Bytes → ModelRewrite → Result RelayError Bytes
  rewritten opts body rewrite =
      if rewrite.should_rewrite_body
      then on_body (
          replace_model_in_request_body json body
            (formatted opts.body_model_formatter rewrite.effective_model))
      else ok body

  -- `prepareForwardContext`
  unfoldable pub prepare_forward_context :
      RelayContext → Provider → Result RelayError ForwardContext
  prepare_forward_context ctx p =
      let meta = ctx.request_meta in
      let opts = meta.route_options in
      replaced ctx p >>= λ (start : Bytes × Bytes).
      on_rewrite (plan_model_rewrite p start.1 meta.body_has_model_field opts.force_body_rewrite)
      >>= λ rewrite. rewritten opts start.0 rewrite >>= λ body.
          target_endpoint opts.endpoint_mutator meta.endpoint start.1 rewrite.effective_model
          >>= λ endpoint. ok (record {
            platform = ctx.platform;
            target = p;
            endpoint = endpoint;
            query = mutated opts.query_mutator ctx.query p;
            headers = mutated opts.header_mutator ctx.headers p;
            body_bytes = body;
            is_stream = meta.is_stream;
            is_fast = meta.is_fast;
            is_background_task = meta.is_background_task;
            model = rewrite.effective_model;
            session_id = meta.session_id;
          })
