-- ===== src/Events/Parser.antt =====
-- `feedSse` and `closeSse` of ext-pi/src/manager/events.ts. The loop of the source looks for the next
-- line feed from an offset; the model walks the chunk and keeps the bytes since that offset, the
-- newest first.
use agent_cat.Base.{
  ℕ, ◌+◌, List, [], ◌∷◌, ◌++◌, reverse, Option, none, some, Text, any, length, ltb, ◌==◌,
  if◌then◌else◌, Result, ok, ◌>>=◌, ◌>>◌, refuse,
}
use agent_cat.Events.Blocks.{Bytes, Decoder, SseBlock, block_of}
use agent_cat.Events.Failure.{ClientFailure, invalid_response}

abbrev pub sse_block_bytes : ℕ
sse_block_bytes = 16384

-- The two chains are lists, the newest item first.
pub record SseParser : Type 0 where
  pub pieces : List Bytes
  pub lines : List Bytes
  pub bytes : ℕ
  pub last_id : Option Text

abbrev pub new_sse_parser : Option Text → SseParser
new_sse_parser last_event_id = record {
  pieces = [];
  lines = [];
  bytes = 0;
  last_id = last_event_id;
}

unfoldable pub join_bytes : List Bytes → Bytes
join_bytes [] = []
join_bytes (part ∷ parts) = part ++ join_bytes parts

-- The line without the carriage return at its end.
unfoldable pub strip_return : Bytes → Bytes
strip_return [] = []
strip_return (c ∷ []) = if c == 13 then [] else c ∷ []
strip_return (c ∷ d ∷ cs) = c ∷ strip_return (d ∷ cs)

abbrev pub later_id : Option Text → Option Text → Option Text
later_id none last = last
later_id (some id) last = some id

abbrev pub Fed : Type 0
Fed = SseParser × List SseBlock

abbrev pub block_list : Option SseBlock → List SseBlock
block_list none = []
block_list (some block) = block ∷ []

-- A complete line, with the bytes of its block up to its line feed.
unfoldable pub take_line : Decoder → SseParser → ℕ → Bytes → Result ClientFailure Fed
take_line decode s total [] = do
  ended ← block_of decode (reverse s.lines)
  ok (
    record { pieces = []; lines = []; bytes = 0; last_id = later_id ended.id s.last_id },
    block_list ended.block,
  )
take_line decode s total (c ∷ line) =
    ok (record s { pieces = []; lines = (c ∷ line) ∷ s.lines; bytes = total }, [])

-- The bytes from the offset to a line feed.
unfoldable pub end_line : Decoder → SseParser → Bytes → Result ClientFailure Fed
end_line decode s slice = do
  let total = s.bytes + length slice + 1
  refuse (ltb sse_block_bytes total) invalid_response
  let line = strip_return (join_bytes (reverse (slice ∷ s.pieces)))
  refuse (any (λ c. c == 13) line) invalid_response
  take_line decode s total line

abbrev pub with_piece : Bytes → List Bytes → List Bytes
with_piece [] pieces = pieces
with_piece (c ∷ slice) pieces = (c ∷ slice) ∷ pieces

-- The bytes from the offset to the end of the chunk.
unfoldable pub end_chunk : SseParser → Bytes → Result ClientFailure Fed
end_chunk s slice = do
  let total = s.bytes + length slice
  refuse (ltb sse_block_bytes total) invalid_response
  ok (record s { pieces = with_piece slice s.pieces; bytes = total }, [])

unfoldable pub scan : Decoder → SseParser → Bytes → Bytes → Result ClientFailure Fed
scan decode s newest [] = end_chunk s (reverse newest)
scan decode s newest (c ∷ chunk) =
    if c == 10
    then (do
      (next, blocks) ← end_line decode s (reverse newest)
      (last, later) ← scan decode next [] chunk
      ok (last, blocks ++ later))
    else scan decode s (c ∷ newest) chunk

unfoldable pub feed_sse : Decoder → SseParser → Bytes → Result ClientFailure Fed
feed_sse decode start chunk = scan decode start [] chunk

-- The chunks of a response, one after the other.
unfoldable pub feed_all : Decoder → SseParser → List Bytes → Result ClientFailure Fed
feed_all decode s [] = ok (s, [])
feed_all decode s (chunk ∷ chunks) = do
  (next, blocks) ← feed_sse decode s chunk
  (last, later) ← feed_all decode next chunks
  ok (last, blocks ++ later)

abbrev pub close_sse : SseParser → Option Text
close_sse s = s.last_id
