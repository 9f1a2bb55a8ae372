-- ===== src/Proxy/Stream.antt =====
-- proxy/forward.go, streamSSE: the lines of an event stream go to the client one by one, and the
-- token counts are read on the way. A body is the bytes that arrive before its end or a read error.
pub mod Transparent
pub mod Counts
use airelay.Base.{
  ℕ, Bool, true, false, Option, none, some, List, [], ◌∷◌, ◌++◌, Bytes, split, trim_space, length,
  ltb, ◌==◌, bytes_eq, if◌then◌else◌,
}
use airelay.Models.{AiProvider, provider_openai, provider_anthropic, provider_google}
use airelay.Tokens.{
  Usage, JsonLib, parse_openai_chunk, parse_google_chunk, parse_anthropic_message_start,
  parse_anthropic_event,
}

-- scanner.Buffer(make([]byte, 64*1024), 64*1024)
abbrev pub scan_limit : ℕ
scan_limit = 65536

-- The pieces of a body between its line feeds; an empty last piece is no line.
abbrev pub drop_last_empty : List Bytes → List Bytes
drop_last_empty [] = []
drop_last_empty ([] ∷ []) = []
drop_last_empty ((c ∷ l) ∷ []) = (c ∷ l) ∷ []
drop_last_empty (l ∷ m ∷ ls) = l ∷ drop_last_empty (m ∷ ls)

-- A line that does not fit in the buffer ends the scan, with an error that the program does not
-- look at.
abbrev pub until_long : List Bytes → List Bytes
until_long [] = []
until_long (l ∷ ls) = let rest = until_long ls in if ltb (length l) scan_limit then l ∷ rest else []

-- bufio.ScanLines takes a carriage return off the end of a line.
abbrev pub drop_cr : Bytes → Bytes
drop_cr [] = []
drop_cr (c ∷ []) = if c == 13 then [] else c ∷ []
drop_cr (c ∷ d ∷ l) = c ∷ drop_cr (d ∷ l)

abbrev map_cr : List Bytes → List Bytes
map_cr [] = []
map_cr (l ∷ ls) = drop_cr l ∷ map_cr ls

-- The tokens of the scanner.
unfoldable pub scan_lines : Bytes → List Bytes
scan_lines body = map_cr (until_long (drop_last_empty (split 10 body)))

-- The variables of the loop, and what is written to the client.
pub record Stream : Type 0 where
  pub out : Bytes
  pub last_usage : Option Usage
  pub event_buf : Bytes
  pub anthropic_input : ℕ

unfoldable pub stream_start : Stream
stream_start = record { out = []; last_usage = none; event_buf = []; anthropic_input = 0 }

-- `if u != nil { lastUsage = u }`
newer : Option Usage → Option Usage → Option Usage
newer none old = old
newer (some u) old = some u

is_blank : Bytes → Bool
is_blank [] = true
is_blank (_ ∷ _) = false

module _ ⦃json : JsonLib⦄ where
  -- The `switch` on the provider, with the line already in the buffer.
  read_usage : AiProvider → Bytes → Stream → Stream
  unfolding newer
  read_usage provider line s =
      if bytes_eq provider provider_openai
      then record s { last_usage = newer (parse_openai_chunk line) s.last_usage }
      else if bytes_eq provider provider_anthropic
      then (let n = parse_anthropic_message_start s.event_buf in
          let input = if ltb 0 n then n else s.anthropic_input in
          record s {
            anthropic_input = input;
            last_usage = newer (parse_anthropic_event s.event_buf input) s.last_usage;
          })
      else if bytes_eq provider provider_google
      then record s { last_usage = newer (parse_google_chunk line) s.last_usage }
      else s

  -- One round of the loop.
  unfoldable pub stream_line : AiProvider → Bytes → Stream → Stream
  unfolding read_usage is_blank
  stream_line provider line s =
      let wrote = record s {
        out = s.out ++ (line ++ 10 ∷ []);
        event_buf = s.event_buf ++ (line ++ 10 ∷ []);
      } in
      let counted = read_usage provider line wrote in
      if is_blank (trim_space line) then record counted { event_buf = [] } else counted

  unfoldable pub stream_lines : AiProvider → List Bytes → Stream → Stream
  stream_lines provider [] s = s
  stream_lines provider (l ∷ ls) s = stream_lines provider ls (stream_line provider l s)

  unfoldable pub stream_sse : AiProvider → Bytes → Stream
  unfolding stream_start
  stream_sse provider body = stream_lines provider (scan_lines body) stream_start
