-- ===== src/Proxy/Stream/Counts.antt =====
-- Which token counts a stream ends with.
use airelay.Base.{
  ◌≡◌, refl, ap, ◌∙◌, ◌⊎◌, inl, inr, Option, none, some, List, [], ◌∷◌, ◌++◌, Bytes, All, arith,
  trim_space,
}
use airelay.Models.{AiProvider, provider_openai, provider_google}
use airelay.Tokens.{Usage, JsonLib, data_prefix, parse_openai_chunk, parse_google_chunk}
use airelay.Tokens.Google.{RejectsD, parse_google_chunk-data}
use airelay.Proxy.Stream.{
  Stream, newer, scan_lines, stream_start, stream_line, stream_lines, stream_sse,
}

first_some : Option Usage → Option Usage → Option Usage
first_some none u = u
first_some (some u) _ = some u

-- What a parser gives for the last line that it finds usage in.
unfoldable pub last_found : (Bytes → Option Usage) → List Bytes → Option Usage
unfolding first_some
last_found parse [] = none
last_found parse (l ∷ ls) = first_some (last_found parse ls) (parse l)

newer-first_some : (a b c : Option Usage) → newer a (newer b c) ≡ newer (first_some a b) c
unfolding newer first_some
newer-first_some none b c = refl
newer-first_some (some u) b c = refl

newer-none : (a : Option Usage) → newer a none ≡ a
unfolding newer
newer-none none = refl
newer-none (some u) = refl

module _ ⦃json : JsonLib⦄ where
  module _ (provider : AiProvider) (parse : Bytes → Option Usage)
      (each : (l : Bytes) (s : Stream)
        → (stream_line provider l s).last_usage ≡ newer (parse l) s.last_usage) where
    last_usage-stream_lines :
        (ls : List Bytes) (s : Stream)
        → (stream_lines provider ls s).last_usage ≡ newer (last_found parse ls) s.last_usage
    unfolding stream_lines last_found newer
    last_usage-stream_lines [] s = refl
    last_usage-stream_lines (l ∷ ls) s =
        last_usage-stream_lines ls (stream_line provider l s)
        ∙ ap (newer (last_found parse ls)) (each l s)
        ∙ newer-first_some (last_found parse ls) (parse l) s.last_usage

    last_usage-stream_sse :
        (body : Bytes) → (stream_sse provider body).last_usage ≡ last_found parse (scan_lines body)
    unfolding stream_sse
    last_usage-stream_sse body =
        last_usage-stream_lines (scan_lines body) stream_start ∙ newer-none _

  openai_line :
      (l : Bytes) (s : Stream)
      → (stream_line provider_openai l s).last_usage ≡ newer (parse_openai_chunk l) s.last_usage
  unfolding stream_line
  openai_line l s = ground arith

  google_line :
      (l : Bytes) (s : Stream)
      → (stream_line provider_google l s).last_usage ≡ newer (parse_google_chunk l) s.last_usage
  unfolding stream_line
  google_line l s = ground arith

  -- The usage of an OpenAI stream is that of the last line in which its parser finds any.
  pub openai_usage :
      (body : Bytes)
      → (stream_sse provider_openai body).last_usage
        ≡ last_found parse_openai_chunk (scan_lines body)
  openai_usage = last_usage-stream_sse provider_openai parse_openai_chunk openai_line

-- A line of an event stream that carries data, or a blank one.
abbrev pub IsEventLine : Bytes → Type 0
IsEventLine l = (l ≡ []) ⊎ ((s : Bytes) × (l ≡ data_prefix ++ s))

module _ ⦃json : JsonLib⦄ where
  google_none : RejectsD json → (l : Bytes) → IsEventLine l → parse_google_chunk l ≡ none
  google_none h l (inl e) = rw e (unfold parse_google_chunk trim_space in refl)
  google_none h l (inr (s, e)) = rw e (parse_google_chunk-data h s)

  google_lines_none :
      RejectsD json
      → (ls : List Bytes) → All IsEventLine ls
      → last_found parse_google_chunk ls ≡ none
  unfolding last_found first_some
  google_lines_none h [] k = refl
  google_lines_none h (l ∷ ls) k = rw (google_lines_none h ls k.1) (google_none h l k.0)

  -- A Google stream of server-sent events, each line `data: …` or blank, ends without any
  -- usage, whatever counts its chunks carry, if no JSON text begins with a `d`.
  pub google_usage_lost :
      RejectsD json
      → (body : Bytes) → All IsEventLine (scan_lines body)
      → (stream_sse provider_google body).last_usage ≡ none
  google_usage_lost h body k =
      last_usage-stream_sse provider_google parse_google_chunk google_line body
      ∙ google_lines_none h (scan_lines body) k
