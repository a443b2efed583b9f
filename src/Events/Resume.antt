-- ===== src/Events/Resume.antt =====
-- Where a reconnection resumes, for the parser of ext-pi/src/manager/events.ts.
use agent_cat.Base.{
  ℕ, ◌+◌, ◌≡◌, refl, sym, ap, ◌∙◌, Bool, true, false, not, ◌&&◌, List, [], ◌∷◌, ◌++◌, reverse,
  Option, none, some, Text, any, all, length, get_last?, ltb, ◌==◌, Bool-cases, inl, inr, ok,
  refuse, >>=-eq-ok, subst-ok, codes,
}
use agent_cat.Events.Syntax.{valid_cursor}
use agent_cat.Events.Blocks.{
  Bytes, Decoder, SseBlock, dispatch, advance, heartbeat, Ended, block_of, block_from, decode_lines,
  fields_of, values_of, quiet_block, is_none_left,
}
use agent_cat.Events.Failure.{invalid_response}
use agent_cat.Events.Parser.{
  SseParser, Fed, sse_block_bytes, join_bytes, strip_return, take_line, end_line, end_chunk,
  feed_sse, feed_all, later_id, block_list, close_sse,
}
use agent_cat.Events.Scan.{feed_sse-relates}

-- The identifier that a block carries.
abbrev pub id_of : SseBlock → Option Text
id_of (dispatch event) = event.id
id_of (advance id) = some id
id_of heartbeat = none

-- The last identifier of the blocks, or the one from before.
abbrev pub last_id_of : Option Text → List SseBlock → Option Text
last_id_of last [] = last
last_id_of last (block ∷ blocks) = last_id_of (later_id (id_of block) last) blocks

last_id_of-append :
    (last : Option Text) (a b : List SseBlock)
    → last_id_of last (a ++ b) ≡ last_id_of (last_id_of last a) b
last_id_of-append last [] b = refl
last_id_of-append last (block ∷ a) b = last_id_of-append (later_id (id_of block) last) a b

abbrev Resumes : SseParser → Fed → Type 0
Resumes s (next, blocks) = next.last_id ≡ last_id_of s.last_id blocks

quiet_block-id :
    (id last : Option Text) (comments : Bool)
    → later_id id last ≡ last_id_of last (block_list (quiet_block id comments))
quiet_block-id (some id) last comments = refl
quiet_block-id none last true = refl
quiet_block-id none last false = refl

block_from-id :
    (texts : List Text) (fields : List (Text × Text)) (id last : Option Text)
    → later_id id last ≡ last_id_of last (block_list (block_from texts fields id))
unfolding block_from
block_from-id texts fields id last =
    elim (Bool-cases (not (is_none_left (values_of (codes "data") fields)))) [
      | inl payload ↦ rw payload refl
      | inr quiet ↦
          rw quiet (quiet_block-id id last (is_none_left fields && not (is_none_left texts)))
    ]

block_of-id :
    (decode : Decoder) (lines : List Bytes) (last : Option Text) {ended : Ended}
    → block_of decode lines ≡ ok ended
    → later_id ended.id last ≡ last_id_of last (block_list ended.block)
unfolding block_of
block_of-id decode lines last h =
    let (texts, a, h₁) = >>=-eq-ok (decode_lines decode lines) _ h in
    let ids = values_of (codes "id") (fields_of texts) in
    let (_, b, h₂) = >>=-eq-ok (refuse (not (all valid_cursor ids)) invalid_response) _ h₁ in
    subst-ok (λ (e : Ended). later_id e.id last ≡ last_id_of last (block_list e.block)) h₂
      (block_from-id texts (fields_of texts) (get_last? ids) last)

take_line-Resumes :
    (decode : Decoder) (s : SseParser) (total : ℕ) (line : Bytes) (fed : Fed)
    → take_line decode s total line ≡ ok fed
    → Resumes s fed
unfolding take_line
take_line-Resumes decode s total [] fed h =
    let (ended, read, h₁) = >>=-eq-ok (block_of decode (reverse s.lines)) _ h in
    subst-ok (Resumes s) h₁ (block_of-id decode (reverse s.lines) s.last_id read)
take_line-Resumes decode s total (c ∷ line) fed h = subst-ok (Resumes s) h refl

end_line-Resumes :
    (decode : Decoder) (s : SseParser) (slice : Bytes) (fed : Fed)
    → end_line decode s slice ≡ ok fed
    → Resumes s fed
unfolding end_line
end_line-Resumes decode s slice fed h =
    let total = s.bytes + length slice + 1 in
    let (_, a, h₁) = >>=-eq-ok (refuse (ltb sse_block_bytes total) invalid_response) _ h in
    let line = strip_return (join_bytes (reverse (slice ∷ s.pieces))) in
    let (_, b, h₂) = >>=-eq-ok (refuse (any (λ d. d == 13) line) invalid_response) _ h₁ in
    take_line-Resumes decode s total line fed h₂

end_chunk-Resumes :
    (s : SseParser) (slice : Bytes) (fed : Fed) → end_chunk s slice ≡ ok fed → Resumes s fed
unfolding end_chunk
end_chunk-Resumes s slice fed h =
    let total = s.bytes + length slice in
    let (_, a, h₁) = >>=-eq-ok (refuse (ltb sse_block_bytes total) invalid_response) _ h in
    subst-ok (Resumes s) h₁ refl

Resumes-trans :
    (s next last : SseParser) (blocks later : List SseBlock)
    → Resumes s (next, blocks)
    → Resumes next (last, later)
    → Resumes s (last, blocks ++ later)
Resumes-trans s next last blocks later first rest =
    rest ∙ ap (λ id. last_id_of id later) first ∙ sym (last_id_of-append s.last_id blocks later)

-- The identifier that a reconnection sends is the last one that a delivered block carried, or the one
-- that the parser started with if none did.
pub feed_all-Resumes :
    (decode : Decoder) (s : SseParser) (chunks : List Bytes) {fed : Fed}
    → feed_all decode s chunks ≡ ok fed
    → close_sse fed.0 ≡ last_id_of s.last_id fed.1
unfolding feed_all
feed_all-Resumes decode s [] h = subst-ok (Resumes s) h refl
feed_all-Resumes decode s (chunk ∷ chunks) h =
    let ((next, blocks), first, h₁) = >>=-eq-ok (feed_sse decode s chunk) _ h in
    let ((last, later), rest, h₂) = >>=-eq-ok (feed_all decode next chunks) _ h₁ in
    subst-ok (Resumes s) h₂ (
      Resumes-trans s next last blocks later
        (feed_sse-relates decode Resumes (end_line-Resumes decode) end_chunk-Resumes Resumes-trans s
          chunk first)
        (feed_all-Resumes decode next chunks rest))
