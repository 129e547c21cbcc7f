-- ===== src/Mcp/Aggregator/Ownership/Operations.antt =====
-- The changes that the operations are made of keep the registry and the records in agreement.
use coding_switch.Base.{
  ◌+◌, List, [], Bytes, bytes_is_eq, int_is_eq, ℤ, Map, lookup, insert, lookup-insert, beq_refl,
  ◌≡◌, refl, ap,
}
use coding_switch.Mcp.Server.{McpServer}
use coding_switch.Mcp.Aggregator.{connecting, Upstream, Aggregator, delete_all}
use coding_switch.Mcp.Aggregator.Sync.{Job, disable, new_upstream, start_job}
use coding_switch.Mcp.Aggregator.Results.{connected_record, refused_record}
use coding_switch.Mcp.Aggregator.Ownership.{names_of, Registered, renewed-Owns, insert-Filed}
use coding_switch.Mcp.Aggregator.Ownership.Filling.{register_tools-Registered}
use coding_switch.Mcp.Aggregator.Ownership.Detaching.{
  clear, rewrite-Registered, teardown-Registered,
}
use coding_switch.Mcp.Aggregator.Keeping.{cleared, failed_state, Steady}

names_after-insert :
    (id : ℤ) (up : Upstream) (ups : Map ℤ Upstream)
    → names_of (lookup id (insert id up ups)) ≡ up.tool_names
names_after-insert id up ups = rw (lookup-insert id id up ups, beq_refl id) refl

module _ (hash : Bytes → Bytes) (fingerprint : McpServer → Bytes) where
  start_job-Registered :
      (id : ℤ) (cfg : McpServer) (up : Upstream) (a : Aggregator) (jobs : List Job)
      → names_of (lookup id a.ups) ≡ up.tool_names
      → up.cfg.id ≡ id
      → Registered a
      → Registered (start_job id cfg up (a, jobs)).0
  start_job-Registered id cfg up a jobs same own h = record {
    owns = renewed-Owns id (record up { generation = a.gen_seq + 1 }) a.ups a.tools same h.owns;
    filed = insert-Filed id (record up { generation = a.gen_seq + 1 }) a.ups own h.filed;
  }

  pub Registered-Steady : Steady hash fingerprint Registered
  Registered-Steady = record {
    at_teardown = teardown-Registered;
    at_disable = λ id up cfg a found own h.
        rewrite-Registered id up _ a found refl own h (disable id up cfg (fingerprint cfg) a) refl
          refl;
    at_new = λ id cfg a jobs missing own h.
        start_job-Registered id cfg (new_upstream cfg (fingerprint cfg)) a jobs
          (ap names_of missing) own h;
    at_start = λ id cfg up a jobs found h.
        start_job-Registered id cfg (record up { state = connecting; error = [] }) a jobs
          (ap names_of found) (h.filed id up found) h;
    at_discard = λ session a h. record { owns = h.owns; filed = h.filed };
    at_refusal = λ now id up e a found h. record {
      owns = renewed-Owns id (refused_record now up e) a.ups a.tools (ap names_of found) h.owns;
      filed = insert-Filed id (refused_record now up e) a.ups (h.filed id up found) h.filed;
    };
    at_connection = λ id up session tools a found h.
        register_tools-Registered hash id (connected_record up session) tools a
          (h.filed id up found)
          (renewed-Owns id (connected_record up session) a.ups a.tools (ap names_of found) h.owns)
          h.filed;
    at_refresh = λ id up session tools a found has h.
        let (o, f) = clear id up (cleared up) a found refl (h.filed id up found) h in
        register_tools-Registered hash id (cleared up) tools _ (h.filed id up found)
          (renewed-Owns id (cleared up) (insert id (cleared up) a.ups)
            (delete_all up.tool_names a.tools) (names_after-insert id (cleared up) a.ups) o)
          f;
    at_failure = λ now id up e a found h.
        rewrite-Registered id up _ a found refl (h.filed id up found) h (failed_state now id up e a)
          refl refl;
    at_close = λ a h. record { owns = h.owns; filed = h.filed };
  }
