-- ===== src/Tests/Manual.antt =====
-- A request that is routed by hand, on the profile of the routing tests
-- (internal/interfaces/http/relay/routing.go).
use coding_switch.Base.{true, false, none, some, Bytes, codes, All, ◌==◌, bytes_is_eq}
use coding_switch.Relay.Body.{BodyLibrary}
use coding_switch.Relay.Route.{RelayContext}
use coding_switch.Relay.Manual.{Server, Answers, route_to_manual_provider}
use coding_switch.Relay.Manual.Targets.{GoesRight, route-GoesRight}
use coding_switch.Relay.Manual.Outcomes.{NewsOfSuccess, route-NewsOfSuccess}
use coding_switch.Tests.Routing.{profile}

-- A body is its model.
abbrev body_json : BodyLibrary
body_json = record {
  valid = λ s. true;
  get = λ body path. some body;
  text = λ body path. body;
  set_raw = λ body path raw. some raw;
  set = λ body path v. some v;
  Value = Bytes;
  unmarshal = λ s. some s;
  deep_equal = λ a b. a == b;
}

abbrev whole_server : Server
whole_server = record { session_cache = true; session_service = true; update_worker = true }

-- The session is bound to a provider that is gone.
abbrev stale : Answers
stale = record {
  snapshots = λ calls. record { provider_name = codes "gone"; generation = 3; failed = false };
  generations = λ calls. 4;
  bind_fails = λ calls. false;
  successes = λ calls. (true, true);
  forwards = λ calls fwd. (true, none);
}

abbrev refusing : Answers
refusing = record stale { forwards = λ calls fwd. (false, some (codes "502")) }

abbrev request : RelayContext
request = record {
  platform = codes "claude";
  body_bytes = codes "claude-3";
  query = none;
  headers = none;
  profile = profile;
  request_meta = record {
    endpoint = codes "/v1/messages";
    requested_model = codes "claude-3";
    session_id = codes "s1";
    is_stream = false;
    is_fast = false;
    is_background_task = false;
    body_has_model_field = true;
    route_options = record {
      endpoint_mutator = none;
      query_mutator = none;
      header_mutator = none;
      body_model_formatter = none;
      force_body_rewrite = false;
    };
  };
}

route-GoesRight_example :
    All
      (GoesRight body_json whole_server stale request)
      (route_to_manual_provider body_json whole_server stale request).0
route-GoesRight_example = route-GoesRight body_json whole_server stale request

route-NewsOfSuccess_example :
    NewsOfSuccess body_json whole_server refusing request
      (route_to_manual_provider body_json whole_server refusing request)
route-NewsOfSuccess_example = route-NewsOfSuccess body_json whole_server refusing request
