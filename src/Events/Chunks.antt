-- ===== src/Events/Chunks.antt =====
-- The chunks of a response, for the parser of ext-pi/src/manager/events.ts.
use agent_cat.Base.{
  ◌≤◌, ◌≡◌, refl, sym, ap, ◌∙◌, List, [], ◌∷◌, ◌++◌, append_assoc, Result, ok, err, ◌>>=◌,
}
use agent_cat.Events.Blocks.{Bytes, Decoder, SseBlock}
use agent_cat.Events.Failure.{ClientFailure}
use agent_cat.Events.Parser.{SseParser, Fed, sse_block_bytes, join_bytes, feed_sse, feed_all}
use agent_cat.Events.Bytewise.{
  Reading, reading, show, read_byte, read_bytes, feed_sse-refines, feed_sse-bytes,
}

-- The blocks of what was read before, and those of what comes after.
abbrev after :
    {A : Type 0}
    → List SseBlock
    → Result ClientFailure (A × List SseBlock)
    → Result ClientFailure (A × List SseBlock)
after {A = A} blocks m =
    ◌>>=◌ {B = A × List SseBlock} m (λ (last, later). ok (last, blocks ++ later))

as_result : {A : Type 0} → A × List SseBlock → Result ClientFailure (A × List SseBlock)
as_result fed = ok fed

after-after :
    {A : Type 0} (m : Result ClientFailure (A × List SseBlock)) (first second : List SseBlock)
    → after first (after second m) ≡ after (first ++ second) m
unfolding as_result
after-after (err e) first second = refl
after-after (ok (last, later)) first second =
    ap (λ (r : List SseBlock). as_result (last, r)) (sym (append_assoc first second later))

after-nothing : {A : Type 0} (m : Result ClientFailure (A × List SseBlock)) → after [] m ≡ m
after-nothing (err e) = refl
after-nothing (ok (last, later)) = refl

-- Two parts read one after the other.
after-then :
    (decode : Decoder) (b : Bytes) (m : Result ClientFailure (Reading × List SseBlock))
    (blocks : List SseBlock)
    → after blocks (m >>= λ (next, read). after read (read_bytes decode next b))
      ≡ (after blocks m >>= λ (next, read). after read (read_bytes decode next b))
after-then decode b (err e) blocks = refl
after-then decode b (ok (next, read)) blocks = after-after (read_bytes decode next b) blocks read

-- What follows one byte, if it is so for the rest.
after_byte :
    (decode : Decoder) (a b : Bytes) (m : Result ClientFailure (Reading × List SseBlock))
    → ((r : Reading)
        → read_bytes decode r (a ++ b)
          ≡ (read_bytes decode r a >>= λ (next, read). after read (read_bytes decode next b)))
    → (m >>= λ (next, read). after read (read_bytes decode next (a ++ b))) ≡ (
        (m >>= λ (next, read). after read (read_bytes decode next a)) >>= λ (next, read).
        after read (read_bytes decode next b))
after_byte decode a b (err e) rest = refl
after_byte decode a b (ok (next, read)) rest =
    ap (after read) (rest next) ∙ after-then decode b (read_bytes decode next a) read

read_bytes-append :
    (decode : Decoder) (a b : Bytes) (r : Reading)
    → read_bytes decode r (a ++ b)
      ≡ (read_bytes decode r a >>= λ (next, read). after read (read_bytes decode next b))
unfolding read_bytes
read_bytes-append decode [] b r = sym (after-nothing (read_bytes decode r b))
read_bytes-append decode (c ∷ a) b r =
    after_byte decode a b (read_byte decode r c) (read_bytes-append decode a b)

after-show :
    (m : Result ClientFailure Fed) (blocks : List SseBlock)
    → (after blocks m >>= show) ≡ after blocks (m >>= show)
after-show (err e) blocks = refl
after-show (ok fed) blocks = refl

-- What follows one chunk, if it is so for the rest.
after_chunk :
    (decode : Decoder) (chunks : List Bytes) (m : Result ClientFailure Fed)
    → ((fed : Fed)
        → m ≡ ok fed
        → (feed_all decode fed.0 chunks >>= show)
          ≡ read_bytes decode (reading fed.0 []) (join_bytes chunks))
    → ((m >>= λ (next, blocks). after blocks (feed_all decode next chunks)) >>= show)
      ≡ ((m >>= show) >>= λ (next, read). after read (read_bytes decode next (join_bytes chunks)))
after_chunk decode chunks (err e) rest = refl
after_chunk decode chunks (ok (next, blocks)) rest =
    after-show (feed_all decode next chunks) blocks ∙ ap (after blocks) (rest (next, blocks) refl)

-- Feeding the chunks of a response, from a parser within its bound, does what reading all their bytes
-- one by one does: the same refusal, or the same blocks in order and the same incomplete block.
pub feed_all-refines :
    (decode : Decoder) (chunks : List Bytes) (s : SseParser)
    → s.bytes ≤ sse_block_bytes
    → (feed_all decode s chunks >>= show) ≡ read_bytes decode (reading s []) (join_bytes chunks)
unfolding feed_all join_bytes read_bytes
feed_all-refines decode [] s bounded = refl
feed_all-refines decode (chunk ∷ chunks) s bounded =
    after_chunk decode chunks (feed_sse decode s chunk) (λ fed done.
      feed_all-refines decode chunks fed.0 (feed_sse-bytes decode s chunk bounded done))
    ∙ ap (λ m. m >>= λ (next, read). after read (read_bytes decode next (join_bytes chunks)))
        (feed_sse-refines decode s chunk bounded)
    ∙ sym (read_bytes-append decode chunk (join_bytes chunks) (reading s []))

-- Two ways to split the same response, from a parser within its bound, give the same: the same
-- refusal, or the same blocks in order, the same last identifier and the same incomplete block.
pub feed_all-split :
    (decode : Decoder) (s : SseParser) (first second : List Bytes)
    → s.bytes ≤ sse_block_bytes
    → join_bytes first ≡ join_bytes second
    → (feed_all decode s first >>= show) ≡ (feed_all decode s second >>= show)
feed_all-split decode s first second bounded same =
    feed_all-refines decode first s bounded
    ∙ ap (read_bytes decode (reading s [])) same
    ∙ sym (feed_all-refines decode second s bounded)
