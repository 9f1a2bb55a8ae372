-- ===== src/Tokens.antt =====
-- internal/tokens: the token counts that the providers' stream chunks carry.
pub mod Google
use airelay.Base.{
  ℕ, Bool, true, false, ◌||◌, Option, none, some, List, [], ◌∷◌, Bytes, codes, bytes_eq,
  trim_prefix, trim_space, split, if◌then◌else◌,
}

pub record Usage : Type 0 where
  pub prompt_tokens : ℕ
  pub completion_tokens : ℕ

pub record AnthropicDelta : Type 0 where
  pub type : Bytes
  -- Usage.OutputTokens, `none` for a nil Usage
  pub output_tokens : Option ℕ

pub record AnthropicMessageStart : Type 0 where
  pub type : Bytes
  -- Message.Usage.InputTokens, `none` for a nil Message or a nil Usage
  pub input_tokens : Option ℕ

-- json.Unmarshal into each of the chunk types, with `none` for its error. The counts that the
-- providers send are not negative.
pub record JsonLib : Type 0 where
  pub openai_chunk : Bytes → Option (Option Usage)
  pub anthropic_delta : Bytes → Option AnthropicDelta
  pub anthropic_message_start : Bytes → Option AnthropicMessageStart
  pub google_chunk : Bytes → Option (Option Usage)

abbrev pub data_prefix : Bytes
data_prefix = codes "data: "

-- A decoded chunk; an error counts as a chunk without usage.
abbrev usage_of : Option (Option Usage) → Option Usage
usage_of none = none
usage_of (some u) = u

is_empty : Bytes → Bool
is_empty [] = true
is_empty (_ ∷ _) = false

-- A line of an event block as the Anthropic parsers read it.
unfoldable pub payload : Bytes → Bytes
payload line = trim_space (trim_prefix line data_prefix)

module _ ⦃json : JsonLib⦄ where
  unfoldable pub parse_openai_chunk : Bytes → Option Usage
  unfolding is_empty
  parse_openai_chunk line =
      let text = trim_space (trim_prefix line data_prefix) in
      if is_empty text || bytes_eq text (codes "[DONE]")
      then none
      else usage_of (json.openai_chunk text)

  unfoldable pub parse_google_chunk : Bytes → Option Usage
  unfolding is_empty
  parse_google_chunk line =
      let text = trim_space line in
      if is_empty text then none else usage_of (json.google_chunk text)

  started : Option AnthropicMessageStart → Option ℕ
  started none = none
  started (some m) = if bytes_eq m.type (codes "message_start") then m.input_tokens else none

  -- What one line gives the loop of ParseAnthropicMessageStart: a count that it returns, or the
  -- next round.
  unfoldable pub start_of_line : Bytes → Option ℕ
  unfolding is_empty started
  start_of_line line =
      if is_empty (payload line)
      then none
      else started (json.anthropic_message_start (payload line))

  finished : Option AnthropicDelta → Option ℕ
  finished none = none
  finished (some d) = if bytes_eq d.type (codes "message_delta") then d.output_tokens else none

  unfoldable pub delta_of_line : Bytes → Option ℕ
  unfolding is_empty finished
  delta_of_line line =
      if is_empty (payload line) then none else finished (json.anthropic_delta (payload line))

  or_next : Option ℕ → Option ℕ → Option ℕ
  or_next none rest = rest
  or_next (some n) rest = some n

  -- The first line that gives a count.
  first_of_lines : (Bytes → Option ℕ) → List Bytes → Option ℕ
  first_of_lines f [] = none
  first_of_lines f (l ∷ ls) = or_next (f l) (first_of_lines f ls)

  or_zero : Option ℕ → ℕ
  or_zero none = 0
  or_zero (some n) = n

  unfoldable pub parse_anthropic_message_start : Bytes → ℕ
  unfolding or_zero first_of_lines or_next
  parse_anthropic_message_start event = or_zero (first_of_lines start_of_line (split 10 event))

  with_input : ℕ → Option ℕ → Option Usage
  with_input input none = none
  with_input input (some n) = some (record { prompt_tokens = input; completion_tokens = n })

  unfoldable pub parse_anthropic_event : Bytes → ℕ → Option Usage
  unfolding with_input first_of_lines or_next
  parse_anthropic_event event input =
      with_input input (first_of_lines delta_of_line (split 10 event))
