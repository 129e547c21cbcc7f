-- ===== src/Mcp/Aggregator/Ownership/Detaching.antt =====
-- Taking a record out keeps the registry and the records in agreement.
use coding_switch.Base.{
  ◌+◌, [], some, bytes_is_eq, int_is_eq, ℤ, lookup, insert, lookup-insert, beq_refl, Option-cases,
  ◌≡◌, refl, sym, ap, ◌∙◌, inl, inr,
}
use coding_switch.Mcp.Aggregator.{
  Upstream, Aggregator, delete_all, detach, detached_record, teardown,
}
use coding_switch.Mcp.Aggregator.Ownership.{
  names_of, Owns, Filed, Registered, cleared-Owns, dropped-Owns, renewed-Owns, insert-Filed,
  delete-Filed,
}

-- A record without names in the place of `up`, whose names leave the registry.
pub clear :
    (id : ℤ) (up new : Upstream) (a : Aggregator)
    → lookup id a.ups ≡ some up
    → new.tool_names ≡ []
    → new.cfg.id ≡ id
    → Registered a
    → Owns (insert id new a.ups) (delete_all up.tool_names a.tools) × Filed (insert id new a.ups)
clear id up new a found empty own h =
    (cleared-Owns id up new a.ups a.tools found empty h.owns, insert-Filed id new a.ups own h.filed)

pub detach-Registered :
    (id : ℤ) (up : Upstream) (a : Aggregator)
    → lookup id a.ups ≡ some up
    → Registered a
    → Registered (detach id up a)
unfolding detach
detach-Registered id up a found h =
    let (o, f) =
      clear id up (detached_record (a.gen_seq + 1) up) a found refl (h.filed id up found) h in
    record { owns = o; filed = f }

pub lookup-detach :
    (id : ℤ) (up : Upstream) (a : Aggregator)
    → lookup id (detach id up a).ups ≡ some (detached_record (a.gen_seq + 1) up)
unfolding detach
lookup-detach id up a =
    lookup-insert id id (detached_record (a.gen_seq + 1) up) a.ups ∙ rw (beq_refl id)

-- Writing a record once more in the same place.
pub rewrite-Registered :
    (id : ℤ) (up new : Upstream) (a : Aggregator)
    → lookup id a.ups ≡ some up
    → new.tool_names ≡ []
    → new.cfg.id ≡ id
    → Registered a
    → (d : Aggregator) → d.ups ≡ insert id new (detach id up a).ups
    → d.tools ≡ (detach id up a).tools
    → Registered d
rewrite-Registered id up new a found empty own h d eu et =
    let r = detach-Registered id up a found h in
    record {
      owns =
          rw (eu, et)
            (renewed-Owns id new (detach id up a).ups (detach id up a).tools
              (ap names_of (lookup-detach id up a) ∙ sym empty) r.owns);
      filed = rw eu (insert-Filed id new (detach id up a).ups own r.filed);
    }

pub teardown-Registered : (id : ℤ) (a : Aggregator) → Registered a → Registered (teardown id a)
unfolding teardown
teardown-Registered id a h = elim (Option-cases (lookup id a.ups)) [
  | inl missing ↦ rw missing h
  | inr (up, found) ↦ rw found (record {
    owns =
        dropped-Owns id (detach id up a).ups (detach id up a).tools
          (ap names_of (lookup-detach id up a)) (detach-Registered id up a found h).owns;
    filed = delete-Filed id (detach id up a).ups (detach-Registered id up a found h).filed;
  })
]
