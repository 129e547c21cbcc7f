-- ===== src/Observability/Tokens.antt =====
-- The token counts in the answers of the three platforms
-- (internal/observability/infrastructure/token_parser.go).
pub mod Repeated
use coding_switch.Base.{
  ℕ, suc, ◌+◌, ◌-◌, Bool, true, false, not, ◌&&◌, Option, none, some, Bytes, ◌==◌, bytes_is_eq,
  codes, leb, ℤ, pos, negsuc, int_lt, if◌then◌else◌,
}
use coding_switch.Kernel.{Platform, codex, gemini}

-- The counts of a `RequestLog`.
pub record Usage : Type 0 where
  pub input_tokens : ℤ
  pub output_tokens : ℤ
  pub cache_create_tokens : ℤ
  pub cache_read_tokens : ℤ
  pub reasoning_tokens : ℤ

abbrev pub int_sub : ℤ → ℤ → ℤ
int_sub (pos a) (pos b) = if leb b a then pos (a - b) else negsuc (b - a - 1)
int_sub (pos a) (negsuc b) = pos (a + b + 1)
int_sub (negsuc a) (pos b) = negsuc (a + b)
int_sub (negsuc a) (negsuc b) = if leb a b then pos (b - a) else negsuc (a - b - 1)

-- `get` is gjson's `Get` on a path, `none` where nothing is there, and `int` its `Int`.
module _ {J : Type 0} (get : J → Bytes → Option J) (int : J → ℤ) where
  -- `applyTokenField`
  abbrev pub apply_token_field : Option J → ℤ → ℤ
  apply_token_field none target = target
  apply_token_field (some v) target = int v

  -- `node.Get(path).Int()`, which is 0 where nothing is there.
  abbrev pub int_or_zero : Option J → ℤ
  int_or_zero none = pos 0
  int_or_zero (some v) = int v

  -- `Parse` of `ClaudeTokenParser`
  unfoldable pub parse_claude : J → Usage → Usage
  parse_claude doc u = record u {
    input_tokens =
        apply_token_field (get doc (codes "usage.input_tokens"))
          (apply_token_field (get doc (codes "message.usage.input_tokens")) u.input_tokens);
    output_tokens =
        apply_token_field (get doc (codes "usage.output_tokens"))
          (apply_token_field (get doc (codes "message.usage.output_tokens")) u.output_tokens);
    cache_create_tokens = apply_token_field (get doc (codes "usage.cache_creation_input_tokens")) (
        apply_token_field (get doc (codes "message.usage.cache_creation_input_tokens"))
          u.cache_create_tokens);
    cache_read_tokens = apply_token_field (get doc (codes "usage.cache_read_input_tokens")) (
        apply_token_field (get doc (codes "message.usage.cache_read_input_tokens"))
          u.cache_read_tokens);
  }

  abbrev pub or_zero_if_negative : ℤ → ℤ
  or_zero_if_negative n = if int_lt n (pos 0) then pos 0 else n

  -- `applyUsage` of `CodexTokenParser`
  abbrev pub apply_usage : Option J → Usage → Usage
  apply_usage none u = u
  apply_usage (some node) u =
      let total = int_or_zero (get node (codes "input_tokens")) in
      let cached = int_or_zero (get node (codes "input_tokens_details.cached_tokens")) in
      record u {
        input_tokens = or_zero_if_negative (int_sub total cached);
        output_tokens = int_or_zero (get node (codes "output_tokens"));
        cache_read_tokens = cached;
        reasoning_tokens = int_or_zero (get node (codes "output_tokens_details.reasoning_tokens"));
      }

  -- `Parse` of `CodexTokenParser`
  unfoldable pub parse_codex : J → Usage → Usage
  parse_codex doc u =
      apply_usage (get doc (codes "usage")) (apply_usage (get doc (codes "response.usage")) u)

  -- The thoughts, which only the total counts, are output.
  abbrev pub with_thoughts : ℤ → ℤ → ℤ → ℤ
  with_thoughts total input output =
      if int_lt (pos 0) total && int_lt output (int_sub total input)
      then int_sub total input
      else output

  abbrev pub apply_metadata : Option J → Usage → Usage
  apply_metadata none u = u
  apply_metadata (some meta) u =
      let input = apply_token_field (get meta (codes "promptTokenCount")) u.input_tokens in
      record u {
        input_tokens = input;
        output_tokens =
            with_thoughts (int_or_zero (get meta (codes "totalTokenCount"))) input
              (apply_token_field (get meta (codes "candidatesTokenCount")) u.output_tokens);
        cache_read_tokens =
            apply_token_field (get meta (codes "cachedContentTokenCount")) u.cache_read_tokens;
      }

  -- `Parse` of `GeminiTokenParser`
  unfoldable pub parse_gemini : J → Usage → Usage
  parse_gemini doc u = apply_metadata (get doc (codes "usageMetadata")) u

  -- `GetTokenParser`
  unfoldable pub parse_tokens : Platform → J → Usage → Usage
  parse_tokens platform doc u =
      if platform == codex
      then parse_codex doc u
      else if platform == gemini
      then parse_gemini doc u
      else parse_claude doc u
