-- ===== src/Events/Bytewise.antt =====
-- The parser of ext-pi/src/manager/events.ts read one byte at a time: an independent description of
-- the stream format, in which chunks play no part.
use agent_cat.Base.{
  ℕ, ◌+◌, ◌≤◌, ◌≡◌, refl, sym, ap, ap₂, ◌∙◌, inl, inr, false, List, [], ◌∷◌, ◌++◌, reverse, Option,
  Text, any, length, length-reverse_cons, append-nil, append_assoc, reverse-cons, ltb_lem, ltb,
  ◌==◌, ==_iff, if◌then◌else◌, Bool-cases, Result, ok, err, ◌>>=◌, ◌>>◌, refuse, >>=-eq-ok,
  refuse-eq-ok, subst-ok, ltb_not, arith,
}
use agent_cat.Events.Blocks.{Bytes, Decoder, SseBlock, block_of}
use agent_cat.Events.Failure.{ClientFailure, invalid_response}
use agent_cat.Events.Parser.{
  SseParser, Fed, sse_block_bytes, join_bytes, strip_return, take_line, end_line, end_chunk, scan,
  feed_sse, with_piece,
}
use agent_cat.Events.Scan.{feed_sse-keeps}

-- A connection between two bytes: the incomplete line, and the parser without its pieces.
pub record Reading : Type 0 where
  pub line : Bytes
  pub lines : List Bytes
  pub bytes : ℕ
  pub last_id : Option Text

abbrev at_line : Reading → SseParser
at_line r = record { pieces = []; lines = r.lines; bytes = r.bytes; last_id = r.last_id }

-- What a parser has read, with further bytes of the incomplete line.
abbrev pub reading : SseParser → Bytes → Reading
reading s slice = record {
  line = join_bytes (reverse s.pieces) ++ slice;
  lines = s.lines;
  bytes = s.bytes + length slice;
  last_id = s.last_id;
}

abbrev pub fresh_line : Fed → Reading × List SseBlock
fresh_line (s, blocks) = (reading s [], blocks)

-- One byte: it counts to its block, a line feed ends the line, and any other byte extends it.
unfoldable pub read_byte : Decoder → Reading → ℕ → Result ClientFailure (Reading × List SseBlock)
read_byte decode r c = do
  refuse (ltb sse_block_bytes (r.bytes + 1)) invalid_response
  if c == 10
      then (do
        let line = strip_return r.line
        refuse (any (λ d. d == 13) line) invalid_response
        fed ← take_line decode (at_line r) (r.bytes + 1) line
        ok (fresh_line fed))
      else ok (record r { line = r.line ++ c ∷ []; bytes = r.bytes + 1 }, [])

unfoldable pub read_bytes :
    Decoder → Reading → Bytes → Result ClientFailure (Reading × List SseBlock)
read_bytes decode r [] = ok (r, [])
read_bytes decode r (c ∷ bytes) = do
  (next, blocks) ← read_byte decode r c
  (last, later) ← read_bytes decode next bytes
  ok (last, blocks ++ later)

-- What a fed parser shows: the pieces of its incomplete line are one.
abbrev pub show : Fed → Result ClientFailure (Reading × List SseBlock)
show (s, blocks) = ok (reading s [], blocks)

-- A slice that has passed the bound is refused wherever its line ends.
scan_too_long :
    (decode : Decoder) (s : SseParser) (newest chunk : Bytes)
    → sse_block_bytes + 1 ≤ s.bytes + length (reverse newest)
    → scan decode s newest chunk ≡ err invalid_response
unfolding scan end_chunk end_line
scan_too_long decode s newest [] long =
    rw (ltb_lem sse_block_bytes (s.bytes + length (reverse newest)) (omega arith))
scan_too_long decode s newest (c ∷ chunk) long = elim (Bool-cases (c == 10)) [
  | inl feed ↦
      rw (feed, ltb_lem sse_block_bytes (s.bytes + length (reverse newest) + 1) (omega arith))
  | inr other ↦
      rw other
        (scan_too_long decode s (c ∷ newest) chunk (omega (arith, length-reverse_cons c newest)))
]

join_bytes-append : (a b : List Bytes) → join_bytes (a ++ b) ≡ join_bytes a ++ join_bytes b
unfolding join_bytes
join_bytes-append [] b = refl
join_bytes-append (part ∷ a) b =
    ap (λ r. part ++ r) (join_bytes-append a b)
    ∙ sym (append_assoc part (join_bytes a) (join_bytes b))

-- The incomplete line with one more slice.
pub join_line :
    (slice : Bytes) (pieces : List Bytes)
    → join_bytes (reverse (slice ∷ pieces)) ≡ join_bytes (reverse pieces) ++ slice
unfolding join_bytes
join_line slice pieces =
    ap join_bytes (reverse-cons slice pieces)
    ∙ join_bytes-append (reverse pieces) (slice ∷ [])
    ∙ ap (λ r. join_bytes (reverse pieces) ++ r) (append-nil slice)

join-with_piece :
    (slice : Bytes) (pieces : List Bytes)
    → join_bytes (reverse (with_piece slice pieces)) ++ [] ≡ join_bytes (reverse pieces) ++ slice
join-with_piece [] pieces = refl
join-with_piece (c ∷ slice) pieces = append-nil _ ∙ join_line (c ∷ slice) pieces

take_line-at :
    (decode : Decoder) (s : SseParser) (slice : Bytes) (total : ℕ) (line : Bytes)
    → take_line decode s total line ≡ take_line decode (at_line (reading s slice)) total line
unfolding take_line
take_line-at decode s slice total [] = refl
take_line-at decode s slice total (c ∷ line) = refl

end_line-read_byte :
    (decode : Decoder) (s : SseParser) (slice : Bytes)
    → (end_line decode s slice >>= show) ≡ read_byte decode (reading s slice) 10
unfolding end_line read_byte
end_line-read_byte decode s slice =
    let line = strip_return (join_bytes (reverse s.pieces) ++ slice) in
    elim (Bool-cases (ltb sse_block_bytes (s.bytes + length slice + 1))) [
      | inl long ↦ rw long
      | inr short ↦ elim (Bool-cases (any (λ d. d == 13) line)) [
        | inl stray ↦ rw (short, join_line slice s.pieces, stray)
        | inr clean ↦ rw (
          short,
          join_line slice s.pieces,
          clean,
          take_line-at decode s slice (s.bytes + length slice + 1) line,
        )
      ]
    ]

-- After a line the block has not passed the bound.
take_line-bytes :
    (decode : Decoder) (s : SseParser) (total : ℕ) (line : Bytes) {fed : Fed}
    → total ≤ sse_block_bytes
    → take_line decode s total line ≡ ok fed
    → fed.0.bytes ≤ sse_block_bytes
unfolding take_line
take_line-bytes decode s total [] le h =
    let (ended, e, done) = >>=-eq-ok (block_of decode (reverse s.lines)) _ h in ground arith
take_line-bytes decode s total (c ∷ line) le h = ground arith

end_line-bytes :
    (decode : Decoder) (s : SseParser) (slice : Bytes) {fed : Fed}
    → end_line decode s slice ≡ ok fed
    → fed.0.bytes ≤ sse_block_bytes
unfolding end_line
end_line-bytes decode s slice h =
    let (_, a, h₁) =
      >>=-eq-ok (refuse (ltb sse_block_bytes (s.bytes + length slice + 1)) invalid_response) _ h in
    let line = strip_return (join_bytes (reverse (slice ∷ s.pieces))) in
    let (_, b, h₂) = >>=-eq-ok (refuse (any (λ d. d == 13) line) invalid_response) _ h₁ in
    let short =
      refuse-eq-ok (ltb sse_block_bytes (s.bytes + length slice + 1)) invalid_response a in
    take_line-bytes decode s (s.bytes + length slice + 1) line (ground (arith, short)) h₂

-- A byte that is no line feed extends what is read.
reading-extend :
    (s : SseParser) (newest : Bytes) (c : ℕ)
    → reading s (reverse (c ∷ newest)) ≡ record (reading s (reverse newest)) {
      line = (reading s (reverse newest)).line ++ c ∷ [];
      bytes = (reading s (reverse newest)).bytes + 1;
    }
reading-extend s newest c =
    ap₂ {C = Reading}
      (λ (line : Bytes) (bytes : ℕ). record {
        line = line;
        lines = s.lines;
        bytes = bytes;
        last_id = s.last_id;
      })
      (ap (λ (r : Bytes). join_bytes (reverse s.pieces) ++ r) (reverse-cons c newest)
        ∙ sym (append_assoc (join_bytes (reverse s.pieces)) (reverse newest) (c ∷ [])))
      (omega (arith, length-reverse_cons c newest))

no_blocks :
    {A : Type 0} (m : Result ClientFailure (A × List SseBlock))
    → (m >>= λ (a, later). ok (a, [] ++ later)) ≡ m
no_blocks (ok (a, later)) = refl
no_blocks (err e) = refl

with_blocks :
    (m : Result ClientFailure Fed) (blocks : List SseBlock)
    → ((m >>= λ (last, later). ok (last, blocks ++ later)) >>= show)
      ≡ ((m >>= show) >>= λ (last, later). ok (last, blocks ++ later))
with_blocks (ok fed) blocks = refl
with_blocks (err e) blocks = refl

-- A line, and the chunk after it.
after_line :
    (decode : Decoder) (m : Result ClientFailure Fed) (chunk : Bytes)
    → ((fed : Fed)
        → m ≡ ok fed
        → (scan decode fed.0 [] chunk >>= show) ≡ read_bytes decode (reading fed.0 []) chunk)
    → ((m >>= λ (next, blocks).
          scan decode next [] chunk >>= λ (last, later). ok (last, blocks ++ later))
        >>= show)
      ≡ ((m >>= show) >>= λ (next, blocks).
          read_bytes decode next chunk >>= λ (last, later). ok (last, blocks ++ later))
after_line decode (err e) chunk rest = refl
after_line decode (ok (next, blocks)) chunk rest =
    with_blocks (scan decode next [] chunk) blocks
    ∙ ap (λ m. m >>= λ (last, later). ok (last, blocks ++ later)) (rest (next, blocks) refl)

byte_extends :
    (decode : Decoder) (s : SseParser) (newest : Bytes) (c : ℕ)
    → (c == 10) ≡ false
    → s.bytes + length (reverse newest) + 1 ≤ sse_block_bytes
    → read_byte decode (reading s (reverse newest)) c ≡ ok (reading s (reverse (c ∷ newest)), [])
unfolding read_byte
byte_extends decode s newest c other within =
    rw (ltb_not sse_block_bytes (s.bytes + length (reverse newest) + 1) within, other)
      (ap (λ (r : Reading). ok (r, [])) (sym (reading-extend s newest c)))

byte_too_long :
    (decode : Decoder) (r : Reading) (c : ℕ)
    → sse_block_bytes ≤ r.bytes
    → read_byte decode r c ≡ err invalid_response
unfolding read_byte
byte_too_long decode r c long = rw (ltb_lem sse_block_bytes (r.bytes + 1) (omega arith))

end_of_chunk :
    (s : SseParser) (slice : Bytes)
    → s.bytes + length slice ≤ sse_block_bytes
    → (end_chunk s slice >>= show) ≡ ok (reading s slice, [])
unfolding end_chunk
end_of_chunk s slice short = rw (ltb_not sse_block_bytes (s.bytes + length slice) short) (
    ap₂ {C = Result ClientFailure (Reading × List SseBlock)}
      (λ (line : Bytes) (bytes : ℕ).
        ok (record { line = line; lines = s.lines; bytes = bytes; last_id = s.last_id }, []))
      (join-with_piece slice s.pieces) (omega arith))

scan-refines :
    (decode : Decoder) (s : SseParser) (newest chunk : Bytes)
    → s.bytes + length (reverse newest) ≤ sse_block_bytes
    → (scan decode s newest chunk >>= show) ≡ read_bytes decode (reading s (reverse newest)) chunk
unfolding scan read_bytes
scan-refines decode s newest [] short = end_of_chunk s (reverse newest) short
scan-refines decode s newest (c ∷ chunk) short = elim (Bool-cases (c == 10)) [
  | inl feed ↦ rw feed (
      after_line decode (end_line decode s (reverse newest)) chunk (λ fed done.
        scan-refines decode fed.0 [] chunk
          (omega (arith, end_line-bytes decode s (reverse newest) done)))
      ∙ ap
          (λ m. m >>= λ (next, blocks).
            read_bytes decode next chunk >>= λ (last, later). ok (last, blocks ++ later))
          (end_line-read_byte decode s (reverse newest)
            ∙ ap (read_byte decode (reading s (reverse newest))) (sym ((==_iff c 10).0 feed))))
  | inr other ↦ elim (Bool-cases (ltb (s.bytes + length (reverse newest)) sse_block_bytes)) [
    | inr long ↦ rw (
      other,
      scan_too_long decode s (c ∷ newest) chunk
          (ground (arith, long, length-reverse_cons c newest)),
      byte_too_long decode (reading s (reverse newest)) c (ground (arith, long)),
    )
    | inl within ↦
        rw (other, byte_extends decode s newest c other (ground (arith, within)))
          (scan-refines decode s (c ∷ newest) chunk
              (ground (arith, within, length-reverse_cons c newest))
            ∙ sym (no_blocks (read_bytes decode (reading s (reverse (c ∷ newest))) chunk)))
  ]
]

end_chunk-bytes :
    (s : SseParser) (slice : Bytes) {fed : Fed}
    → end_chunk s slice ≡ ok fed
    → fed.0.bytes ≤ sse_block_bytes
unfolding end_chunk
end_chunk-bytes s slice h =
    let (_, a, h₁) =
      >>=-eq-ok (refuse (ltb sse_block_bytes (s.bytes + length slice)) invalid_response) _ h in
    subst-ok (λ (f : Fed). f.0.bytes ≤ sse_block_bytes) h₁
      (ground
        (arith, refuse-eq-ok (ltb sse_block_bytes (s.bytes + length slice)) invalid_response a))

pub feed_sse-bytes :
    (decode : Decoder) (s : SseParser) (chunk : Bytes) {fed : Fed}
    → s.bytes ≤ sse_block_bytes
    → feed_sse decode s chunk ≡ ok fed
    → fed.0.bytes ≤ sse_block_bytes
feed_sse-bytes decode =
    feed_sse-keeps decode (λ s. s.bytes ≤ sse_block_bytes)
      (λ s slice fed le h. end_line-bytes decode s slice h)
      (λ s slice fed le h. end_chunk-bytes s slice h)

-- Feeding a chunk to a parser within its bound does what reading it byte by byte does: it refuses the
-- same chunks, gives the same blocks in order, and leaves the same incomplete block.
pub feed_sse-refines :
    (decode : Decoder) (s : SseParser) (chunk : Bytes)
    → s.bytes ≤ sse_block_bytes
    → (feed_sse decode s chunk >>= show) ≡ read_bytes decode (reading s []) chunk
unfolding feed_sse
feed_sse-refines decode s chunk bounded = scan-refines decode s [] chunk (omega arith)
