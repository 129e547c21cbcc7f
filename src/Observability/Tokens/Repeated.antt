-- ===== src/Observability/Tokens/Repeated.antt =====
-- An event that is seen twice counts once.
use coding_switch.Base.{
  Bool, true, false, ◌&&◌, Option, none, some, Bytes, ◌==◌, bytes_is_eq, codes, ℤ, pos, int_lt,
  if◌then◌else◌, Bool-cases, ◌≡◌, refl, inl, inr,
}
use coding_switch.Kernel.{Platform, codex, gemini}
use coding_switch.Observability.Tokens.{
  Usage, int_sub, apply_token_field, parse_claude, apply_usage, parse_codex, with_thoughts,
  apply_metadata, parse_gemini, int_or_zero, parse_tokens,
}

module _ {J : Type 0} (get : J → Bytes → Option J) (int : J → ℤ) where
  field_twice :
      (o p : Option J) (n : ℤ)
      → apply_token_field get int o (
          apply_token_field get int p (apply_token_field get int o (apply_token_field get int p n)))
        ≡ apply_token_field get int o (apply_token_field get int p n)
  field_twice (some v) p n = refl
  field_twice none (some v) n = refl
  field_twice none none n = refl

  field_once :
      (o : Option J) (n : ℤ)
      → apply_token_field get int o (apply_token_field get int o n) ≡ apply_token_field get int o n
  field_once (some v) n = refl
  field_once none n = refl

  claude_twice :
      (doc : J) (u : Usage)
      → parse_claude get int doc (parse_claude get int doc u) ≡ parse_claude get int doc u
  unfolding parse_claude
  claude_twice doc u = cc (
    field_twice (get doc (codes "usage.input_tokens"))
        (get doc (codes "message.usage.input_tokens")) u.input_tokens,
    field_twice (get doc (codes "usage.output_tokens"))
        (get doc (codes "message.usage.output_tokens")) u.output_tokens,
    field_twice (get doc (codes "usage.cache_creation_input_tokens"))
        (get doc (codes "message.usage.cache_creation_input_tokens")) u.cache_create_tokens,
    field_twice (get doc (codes "usage.cache_read_input_tokens"))
        (get doc (codes "message.usage.cache_read_input_tokens")) u.cache_read_tokens,
  )

  usage_twice :
      (o p : Option J) (u : Usage)
      → apply_usage get int o
          (apply_usage get int p (apply_usage get int o (apply_usage get int p u)))
        ≡ apply_usage get int o (apply_usage get int p u)
  usage_twice none none u = refl
  usage_twice none (some b) u = refl
  usage_twice (some a) none u = refl
  usage_twice (some a) (some b) u = refl

  thoughts_twice :
      (o : Option J) (total input n : ℤ)
      → with_thoughts get int total input (
          apply_token_field get int o
            (with_thoughts get int total input (apply_token_field get int o n)))
        ≡ with_thoughts get int total input (apply_token_field get int o n)
  thoughts_twice (some v) total input n = refl
  thoughts_twice none total input n =
      elim (Bool-cases (int_lt (pos 0) total && int_lt n (int_sub total input))) [
        | inl y ↦ rw y (
            settled (int_lt (pos 0) total && int_lt (int_sub total input) (int_sub total input))
              (int_sub total input))
        | inr f ↦ rw f (rw f refl)
      ]
    where
      settled : (b : Bool) (x : ℤ) → (if b then x else x) ≡ x
      settled true x = refl
      settled false x = refl

  metadata_twice :
      (o : Option J) (u : Usage)
      → apply_metadata get int o (apply_metadata get int o u) ≡ apply_metadata get int o u
  metadata_twice none u = refl
  metadata_twice (some meta) u =
      let input = apply_token_field get int (get meta (codes "promptTokenCount")) u.input_tokens in
      let total = int_or_zero get int (get meta (codes "totalTokenCount")) in
      let same = field_once (get meta (codes "promptTokenCount")) u.input_tokens in
      let output =
        thoughts_twice (get meta (codes "candidatesTokenCount")) total input u.output_tokens in
      let read = field_once (get meta (codes "cachedContentTokenCount")) u.cache_read_tokens in
      rw (same, output, read) refl

  -- On every platform, and whatever the document is: parsing an event a second time leaves the counts as
  -- the first time left them.
  pub parse_tokens_idem :
      (platform : Platform) (doc : J) (u : Usage)
      → parse_tokens get int platform doc (parse_tokens get int platform doc u)
        ≡ parse_tokens get int platform doc u
  unfolding parse_tokens parse_codex parse_gemini
  parse_tokens_idem platform doc u = elim (Bool-cases (platform == codex)) [
    | inl c ↦ rw c (usage_twice (get doc (codes "usage")) (get doc (codes "response.usage")) u)
    | inr c ↦ rw c (elim (Bool-cases (platform == gemini)) [
      | inl g ↦ rw g (metadata_twice (get doc (codes "usageMetadata")) u)
      | inr g ↦ rw g (claude_twice doc u)
    ])
  ]
