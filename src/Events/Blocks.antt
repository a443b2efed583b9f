-- ===== src/Events/Blocks.antt =====
-- `blockOf` of ext-pi/src/manager/events.ts: the outcome of the lines of one complete block. The
-- strict UTF-8 decoder of the platform is a parameter: it gives none where it throws.
use agent_cat.Base.{
  ℕ, Bool, true, false, not, ◌&&◌, List, [], ◌∷◌, ◌++◌, map, Option, none, some, Text, codes,
  text_eq, starts_with, all, keep, get_last?, if◌then◌else◌, Result, ok, ◌>>=◌, ◌>>◌, refuse,
  required, ◌==◌,
}
use agent_cat.Events.Syntax.{valid_cursor, cut_at}
use agent_cat.Events.Failure.{ClientFailure, invalid_response}

abbrev pub Bytes : Type 0
Bytes = List ℕ

abbrev pub Decoder : Type 0
Decoder = Bytes → Option Text

pub record SseEvent : Type 0 where
  pub id : Option Text
  pub name : Text
  pub data_text : Text

pub data SseBlock : Type 0 where
  dispatch : SseEvent → SseBlock
  advance : Text → SseBlock
  heartbeat : SseBlock

-- The outcome and the identifier of one complete block.
pub record Ended : Type 0 where
  pub id : Option Text
  pub block : Option SseBlock

unfoldable pub decode_lines : Decoder → List Bytes → Result ClientFailure (List Text)
decode_lines decode [] = ok []
decode_lines decode (raw ∷ rest) = do
  line ← required (decode raw) invalid_response
  lines ← decode_lines decode rest
  ok (line ∷ lines)

-- One leading space is not part of the value.
abbrev value_of : Text → Text
value_of [] = []
value_of (c ∷ cs) = if c == 32 then cs else c ∷ cs

abbrev field_from : Text → Option (Text × Text) → Text × Text
field_from line none = (line, [])
field_from line (some (name, value)) = (name, value_of value)

unfoldable pub field_of : Text → Text × Text
field_of line = field_from line (cut_at b':' line)

unfoldable pub fields_of : List Text → List (Text × Text)
fields_of texts = map field_of (keep (λ line. not (starts_with line (codes ":"))) texts)

unfoldable pub values_of : Text → List (Text × Text) → List Text
values_of name fields = map (λ f. f.1) (keep (λ f. text_eq f.0 name) fields)

-- `payload.join("\n")`.
unfoldable pub join_lines : List Text → Text
join_lines [] = []
join_lines (line ∷ []) = line
join_lines (line ∷ next ∷ rest) = line ++ 10 ∷ join_lines (next ∷ rest)

abbrev name_or_message : Option Text → Text
name_or_message none = codes "message"
name_or_message (some name) = name

-- A block without data: it advances the identifier, or is a heartbeat, or gives nothing.
abbrev pub quiet_block : Option Text → Bool → Option SseBlock
quiet_block (some id) comments = some (advance id)
quiet_block none true = some heartbeat
quiet_block none false = none

abbrev pub is_none_left : {A : Type 0} → List A → Bool
is_none_left [] = true
is_none_left (a ∷ rest) = false

unfoldable pub block_from : List Text → List (Text × Text) → Option Text → Option SseBlock
block_from texts fields id =
    let payload = values_of (codes "data") fields in
    if not (is_none_left payload)
    then some (
        dispatch (record {
          id = id;
          name = name_or_message (get_last? (values_of (codes "event") fields));
          data_text = join_lines payload;
        }))
    else quiet_block id (is_none_left fields && not (is_none_left texts))

unfoldable pub block_of : Decoder → List Bytes → Result ClientFailure Ended
block_of decode raw_lines = do
  texts ← decode_lines decode raw_lines
  let fields = fields_of texts
  let ids = values_of (codes "id") fields
  refuse (not (all valid_cursor ids)) invalid_response
  let id = get_last? ids
  ok (record { id = id; block = block_from texts fields id })
