-- ===== src/Proxy/Stream/Transparent.antt =====
-- What of an event stream reaches the client.
use airelay.Base.{
  ℕ, ◌≤◌, ◌<◌, ◌≡◌, refl, ap, sym, ◌∙◌, true, false, List, [], ◌∷◌, ◌++◌, append_assoc, append-nil,
  Bytes, split, split-append, Lacks, All, length, ltb, ◌==◌, arith, Bool-cases, inl, inr,
}
use airelay.Models.{AiProvider}
use airelay.Tokens.{JsonLib}
use airelay.Proxy.Stream.{
  Stream, scan_limit, scan_lines, drop_last_empty, until_long, drop_cr, map_cr, stream_start,
  stream_line, stream_lines, stream_sse,
}

-- The text of some lines, each ended by a line feed.
unfoldable pub unlines : List Bytes → Bytes
unlines [] = []
unlines (l ∷ ls) = l ++ 10 ∷ unlines ls

-- A line as the scanner keeps it: no line feed, fewer than 65,536 bytes, and no carriage return at
-- its end.
pub record IsLine (l : Bytes) : Type 0 where
  pub one_line : Lacks 10 l
  pub short : length l < scan_limit
  pub bare : drop_cr l ≡ l

module _ ⦃json : JsonLib⦄ where
  out-stream_line :
      (provider : AiProvider) (l : Bytes) (s : Stream)
      → (stream_line provider l s).out ≡ s.out ++ (l ++ 10 ∷ [])
  unfolding stream_line
  out-stream_line provider l s = ground arith

  out-stream_lines :
      (provider : AiProvider) (ls : List Bytes) (s : Stream)
      → (stream_lines provider ls s).out ≡ s.out ++ unlines ls
  unfolding stream_lines unlines
  out-stream_lines provider [] s = sym (append-nil s.out)
  out-stream_lines provider (l ∷ ls) s =
      out-stream_lines provider ls (stream_line provider l s)
      ∙ ap (λ x. x ++ unlines ls) (out-stream_line provider l s)
      ∙ append_assoc s.out (l ++ 10 ∷ []) (unlines ls)
      ∙ ap (◌++◌ s.out) (append_assoc l (10 ∷ []) (unlines ls))

split-unlines :
    (ls : List Bytes) (rest : Bytes)
    → All IsLine ls
    → split 10 (unlines ls ++ rest) ≡ ls ++ split 10 rest
unfolding unlines
split-unlines [] rest h = refl
split-unlines (l ∷ ls) rest h =
    rw (append_assoc l (10 ∷ unlines ls) rest)
      (split-append 10 l (unlines ls ++ rest) h.0.one_line ∙ ap (◌∷◌ l) (split-unlines ls rest h.1))

map_cr-until_long :
    (ls more : List Bytes)
    → All IsLine ls
    → map_cr (until_long (ls ++ more)) ≡ ls ++ map_cr (until_long more)
map_cr-until_long [] more h = refl
map_cr-until_long (l ∷ ls) more h =
    let short : ltb (length l) scan_limit ≡ true = let k = h.0.short in ground arith in
    rw (short, h.0.bare, map_cr-until_long ls more h.1)

drop_last_empty-append :
    (ls : List Bytes) (l : Bytes) (more : List Bytes)
    → drop_last_empty (ls ++ l ∷ more) ≡ ls ++ drop_last_empty (l ∷ more)
drop_last_empty-append [] l more = refl
drop_last_empty-append (x ∷ []) l more = refl
drop_last_empty-append (x ∷ y ∷ ls) l more = ap (◌∷◌ x) (drop_last_empty-append (y ∷ ls) l more)

split_nonempty :
    (sep : ℕ) (s : Bytes) → (l : Bytes) × (more : List Bytes) × (split sep s ≡ l ∷ more)
split_nonempty sep [] = ([], [], refl)
split_nonempty sep (c ∷ s) =
    let (l, more, e) = split_nonempty sep s in
    elim (Bool-cases (c == sep)) [
      | inl cut ↦ ([], split sep s, rw cut)
      | inr kept ↦ (c ∷ l, more, rw (kept, e))
    ]

-- The scanner's tokens of a text behind some lines.
pub scan_lines-unlines :
    (ls : List Bytes) (rest : Bytes)
    → All IsLine ls
    → scan_lines (unlines ls ++ rest) ≡ ls ++ scan_lines rest
unfolding scan_lines
scan_lines-unlines ls rest h =
    let (l, more, e) = split_nonempty 10 rest in
    ap (λ x. map_cr (until_long (drop_last_empty x))) (split-unlines ls rest h ∙ ap (◌++◌ ls) e)
    ∙ ap (λ x. map_cr (until_long x)) (drop_last_empty-append ls l more)
    ∙ map_cr-until_long ls (drop_last_empty (l ∷ more)) h
    ∙ ap (λ x. ls ++ map_cr (until_long (drop_last_empty x))) (sym e)

scan_lines-long :
    (long rest : Bytes)
    → Lacks 10 long
    → scan_limit ≤ length long
    → scan_lines (long ++ 10 ∷ rest) ≡ []
unfolding scan_lines
scan_lines-long long rest h k =
    let (l, more, e) = split_nonempty 10 rest in
    let over : ltb (length long) scan_limit ≡ false = ground arith in
    ap (λ x. map_cr (until_long (drop_last_empty x)))
      (split-append 10 long rest h ∙ ap (◌∷◌ long) e)
    ∙ rw over

module _ ⦃json : JsonLib⦄ where
  out-stream_sse :
      (provider : AiProvider) (body : Bytes)
      → (stream_sse provider body).out ≡ unlines (scan_lines body)
  unfolding stream_sse
  out-stream_sse provider body = out-stream_lines provider (scan_lines body) stream_start

  -- A stream of lines that fit in the scanner's buffer and do not end in a carriage return reaches the
  -- client byte for byte.
  pub stream_transparent :
      (provider : AiProvider) (ls : List Bytes)
      → All IsLine ls
      → (stream_sse provider (unlines ls)).out ≡ unlines ls
  stream_transparent provider ls h =
      out-stream_sse provider (unlines ls)
      ∙ ap unlines (
          ap scan_lines (sym (append-nil (unlines ls)))
          ∙ scan_lines-unlines ls [] h
          ∙ unfold scan_lines in append-nil ls)

  -- A line of 65,536 bytes or more ends the stream: the client gets the lines before it and nothing
  -- of it or of what follows.
  pub stream_truncates :
      (provider : AiProvider) (ls : List Bytes) (long rest : Bytes)
      → All IsLine ls
      → Lacks 10 long
      → scan_limit ≤ length long
      → (stream_sse provider (unlines ls ++ (long ++ 10 ∷ rest))).out ≡ unlines ls
  stream_truncates provider ls long rest h k m =
      out-stream_sse provider (unlines ls ++ (long ++ 10 ∷ rest))
      ∙ ap unlines (
          scan_lines-unlines ls (long ++ 10 ∷ rest) h
          ∙ ap (◌++◌ ls) (scan_lines-long long rest k m)
          ∙ append-nil ls)
