-- ===== src/Tests/Relay.antt =====
-- Chunks of a Codex stream (internal/interfaces/http/relay).
use coding_switch.Base.{Bool, false, [], ◌∷◌, ◌++◌, Bytes, codes, ◌≡◌, refl, trim_space}
use coding_switch.Relay.CodexStream.{Outcome, pending, failed, observe}
use coding_switch.Relay.CodexStream.Chunks.{observe-append}

-- A document is its own type, and has nothing else.
abbrev field : Bytes → Bytes → Bytes
field doc path = doc

abbrev same : Bytes → Bytes
same doc = doc

abbrev never : Bytes → Bool
never doc = false

abbrev none_yet : Outcome
none_yet = record { status = pending; event_type = [] }

abbrev failing : Bytes
failing = codes "data: response.failed"

fails :
    observe same field same never never failing none_yet
    ≡ record { status = failed; event_type = codes "response.failed" }
unfolding observe trim_space
fails = refl

observe-append_example :
    observe same field same never never (codes "event: x" ++ 10 ∷ failing) none_yet
    ≡ observe same field same never never failing
        (observe same field same never never (codes "event: x") none_yet)
observe-append_example =
    observe-append same field same never never (codes "event: x") failing none_yet
