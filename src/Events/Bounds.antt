-- ===== src/Events/Bounds.antt =====
-- What a parser of ext-pi/src/manager/events.ts holds.
use agent_cat.Base.{
  ℕ, ◌+◌, ◌≤◌, ◌≡◌, refl, ap, ◌∙◌, Bool, true, not, List, [], ◌∷◌, reverse, Option, none, some,
  Text, any, all, length, length-append, sum_by, get_last?, ltb, ◌==◌, ok, refuse, >>=-eq-ok,
  refuse-eq-ok, subst-ok, codes, arith,
}
use agent_cat.Events.Syntax.{valid_cursor}
use agent_cat.Events.Blocks.{Bytes, Decoder, Ended, block_of, decode_lines, fields_of, values_of}
use agent_cat.Events.Failure.{invalid_response}
use agent_cat.Events.Parser.{
  SseParser, Fed, sse_block_bytes, join_bytes, strip_return, take_line, end_line, end_chunk,
  feed_sse, feed_all, with_piece, later_id,
}
use agent_cat.Events.Bytewise.{join_line}
use agent_cat.Events.Scan.{feed_sse-keeps}

-- No identifier, or a cursor.
abbrev pub is_cursor_or_none : Option Text → Bool
is_cursor_or_none none = true
is_cursor_or_none (some id) = valid_cursor id

-- The bytes that a parser holds are counted, the count is within the bound, and the identifier that
-- a reconnection would send is a cursor.
pub record IsSound (s : SseParser) : Type 0 where
  pub counted : sum_by length s.pieces + sum_by length s.lines ≤ s.bytes
  pub bounded : s.bytes ≤ sse_block_bytes
  pub cursor : is_cursor_or_none s.last_id ≡ true

length-strip_return : (line : Bytes) → length (strip_return line) ≤ length line
unfolding strip_return
length-strip_return [] = omega arith
length-strip_return (c ∷ []) = ground arith
length-strip_return (c ∷ d ∷ cs) = omega (arith, length-strip_return (d ∷ cs))

length-join_reverse :
    (pieces : List Bytes) → length (join_bytes (reverse pieces)) ≡ sum_by length pieces
unfolding join_bytes
length-join_reverse [] = refl
length-join_reverse (piece ∷ pieces) =
    ap length (join_line piece pieces)
    ∙ omega (arith, length-append (join_bytes (reverse pieces)) piece, length-join_reverse pieces)

last-cursor :
    (ids : List Text) → all valid_cursor ids ≡ true → is_cursor_or_none (get_last? ids) ≡ true
last-cursor [] h = refl
last-cursor (id ∷ []) h = ground arith
last-cursor (id ∷ next ∷ ids) h = last-cursor (next ∷ ids) (ground arith)

block_of-cursor :
    (decode : Decoder) (lines : List Bytes) {ended : Ended}
    → block_of decode lines ≡ ok ended
    → is_cursor_or_none ended.id ≡ true
unfolding block_of
block_of-cursor decode lines h =
    let (texts, a, h₁) = >>=-eq-ok (decode_lines decode lines) _ h in
    let ids = values_of (codes "id") (fields_of texts) in
    let (_, b, h₂) = >>=-eq-ok (refuse (not (all valid_cursor ids)) invalid_response) _ h₁ in
    subst-ok (λ (e : Ended). is_cursor_or_none e.id ≡ true) h₂
      (last-cursor ids
        (ground (arith, refuse-eq-ok (not (all valid_cursor ids)) invalid_response b)))

later_id-cursor :
    (id last : Option Text)
    → is_cursor_or_none id ≡ true
    → is_cursor_or_none last ≡ true
    → is_cursor_or_none (later_id id last) ≡ true
later_id-cursor none last h k = k
later_id-cursor (some id) last h k = h

take_line-IsSound :
    (decode : Decoder) (s : SseParser) (total : ℕ) (line : Bytes) {fed : Fed}
    → IsSound s
    → total ≤ sse_block_bytes
    → sum_by length s.lines + length line ≤ total
    → take_line decode s total line ≡ ok fed
    → IsSound fed.0
unfolding take_line
take_line-IsSound decode s total [] v le counted h =
    let (ended, read, h₁) = >>=-eq-ok (block_of decode (reverse s.lines)) _ h in
    subst-ok (λ (f : Fed). IsSound f.0) h₁
      (record {
        counted = omega arith;
        bounded = omega arith;
        cursor =
            later_id-cursor ended.id s.last_id (block_of-cursor decode (reverse s.lines) read)
              v.cursor;
      })
take_line-IsSound decode s total (c ∷ line) v le counted h =
    subst-ok (λ (f : Fed). IsSound f.0) h
      (record { counted = omega arith; bounded = le; cursor = v.cursor })

end_line-IsSound :
    (decode : Decoder) (s : SseParser) (slice : Bytes) {fed : Fed}
    → IsSound s
    → end_line decode s slice ≡ ok fed
    → IsSound fed.0
unfolding end_line
end_line-IsSound decode s slice v h =
    let (_, a, h₁) =
      >>=-eq-ok (refuse (ltb sse_block_bytes (s.bytes + length slice + 1)) invalid_response) _ h in
    let joined = join_bytes (reverse (slice ∷ s.pieces)) in
    let (_, b, h₂) =
      >>=-eq-ok (refuse (any (λ d. d == 13) (strip_return joined)) invalid_response) _ h₁ in
    let short =
      refuse-eq-ok (ltb sse_block_bytes (s.bytes + length slice + 1)) invalid_response a in
    take_line-IsSound decode s (s.bytes + length slice + 1) (strip_return joined) v
      (ground (arith, short))
      (omega (arith, length-strip_return joined, length-join_reverse (slice ∷ s.pieces))) h₂

sum-with_piece :
    (slice : Bytes) (pieces : List Bytes)
    → sum_by length (with_piece slice pieces) ≡ length slice + sum_by length pieces
sum-with_piece [] pieces = omega arith
sum-with_piece (c ∷ slice) pieces = refl

end_chunk-IsSound :
    (s : SseParser) (slice : Bytes) {fed : Fed}
    → IsSound s
    → end_chunk s slice ≡ ok fed
    → IsSound fed.0
unfolding end_chunk
end_chunk-IsSound s slice v h =
    let (_, a, h₁) =
      >>=-eq-ok (refuse (ltb sse_block_bytes (s.bytes + length slice)) invalid_response) _ h in
    let short = refuse-eq-ok (ltb sse_block_bytes (s.bytes + length slice)) invalid_response a in
    subst-ok (λ (f : Fed). IsSound f.0) h₁
      (record {
        counted = omega (arith, sum-with_piece slice s.pieces);
        bounded = ground (arith, short);
        cursor = v.cursor;
      })

feed_sse-IsSound :
    (decode : Decoder) (s : SseParser) (chunk : Bytes) {fed : Fed}
    → IsSound s
    → feed_sse decode s chunk ≡ ok fed
    → IsSound fed.0
feed_sse-IsSound decode =
    feed_sse-keeps decode IsSound (λ s slice fed v h. end_line-IsSound decode s slice v h)
      (λ s slice fed v h. end_chunk-IsSound s slice v h)

-- From a sound parser, however a response is split, every parser that it leads to is sound: it holds
-- no more bytes than it counts, it counts at most 16384, and the identifier that a reconnection would
-- send is a cursor, if there is one.
pub feed_all-IsSound :
    (decode : Decoder) (s : SseParser) (chunks : List Bytes) {fed : Fed}
    → IsSound s
    → feed_all decode s chunks ≡ ok fed
    → IsSound fed.0
unfolding feed_all
feed_all-IsSound decode s [] v h = subst-ok (λ (f : Fed). IsSound f.0) h v
feed_all-IsSound decode s (chunk ∷ chunks) v h =
    let ((next, blocks), first, h₁) = >>=-eq-ok (feed_sse decode s chunk) _ h in
    let ((last, later), rest, h₂) = >>=-eq-ok (feed_all decode next chunks) _ h₁ in
    subst-ok (λ (f : Fed). IsSound f.0) h₂
      (feed_all-IsSound decode next chunks (feed_sse-IsSound decode s chunk v first) rest)
