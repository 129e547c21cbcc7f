-- ===== src/Tests/Observability.antt =====
-- Token counts of one answer (internal/observability).
use coding_switch.Base.{
  [], Option, none, some, Bytes, ◌==◌, bytes_is_eq, codes, ℤ, pos, if◌then◌else◌, ◌≡◌, refl,
}
use coding_switch.Kernel.{gemini}
use coding_switch.Observability.Tokens.{Usage, parse_tokens, parse_gemini}
use coding_switch.Observability.Tokens.Repeated.{parse_tokens_idem}

-- A document is the path that leads to it.
abbrev get : Bytes → Bytes → Option Bytes
get doc path =
    if path == codes "usageMetadata"
    then some path
    else if path == codes "totalTokenCount"
    then some path
    else if path == codes "promptTokenCount"
    then some path
    else none

abbrev int : Bytes → ℤ
int v = if v == codes "totalTokenCount" then pos 90 else pos 40

abbrev zero_usage : Usage
zero_usage = record {
  input_tokens = pos 0;
  output_tokens = pos 0;
  cache_create_tokens = pos 0;
  cache_read_tokens = pos 0;
  reasoning_tokens = pos 0;
}

thoughts :
    parse_tokens get int gemini [] zero_usage
    ≡ record zero_usage { input_tokens = pos 40; output_tokens = pos 50 }
unfolding parse_tokens parse_gemini
thoughts = refl

parse_tokens_idem_example :
    parse_tokens get int gemini [] (parse_tokens get int gemini [] zero_usage)
    ≡ parse_tokens get int gemini [] zero_usage
parse_tokens_idem_example = parse_tokens_idem get int gemini [] zero_usage
