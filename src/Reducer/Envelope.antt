-- ===== src/Reducer/Envelope.antt =====
-- The checks of an envelope in `reduceEvent` of ext-pi/src/reducer.ts, before its event is applied.
use agent_cat.Base.{
  ℕ, ◌+◌, Bool, true, false, not, ◌&&◌, ◌||◌, [], ◌∷◌, Option, none, some, Text, codes, is,
  is_decimal, big_int, text_eq, ltb, ◌==◌, if◌then◌else◌, ok, err, ◌>>=◌, ◌>>◌, refuse, required,
}
use agent_cat.Base.Dict.{get}
use agent_cat.Base.Value.{Value, int, str}
use agent_cat.Reducer.State.{Platform, RunStatus, RunSnapshot, RuntimeEvent}
use agent_cat.Reducer.State.{
  unsupported_protocol, protocol_changed, run_id_changed, bad_timestamp, bad_sequence,
  duplicate_sequence, conflicting_sequence, sequence_too_large, sequence_gap, post_terminal,
}
use agent_cat.Reducer.Fields.{Checked, max_word64}
use agent_cat.Base.Int.{pos}
use agent_cat.Base.{is_digit}

-- The protocol version, if it is 1 or 2.
unfoldable pub version_of : Value → Option ℕ
version_of (int (pos n)) = if n == 1 || n == 2 then some n else none
version_of _ = none

-- What follows a shape in which `d` stands for a digit and any other character for itself.
strip_shape : Text → Text → Option Text
strip_shape [] t = some t
strip_shape (c ∷ cs) [] = none
strip_shape (c ∷ cs) (x ∷ xs) =
    if (if c == b'd' then is_digit x else c == x) then strip_shape cs xs else none

strip_digits : Text → Text
strip_digits [] = []
strip_digits (c ∷ cs) = if is_digit c then strip_digits cs else c ∷ cs

-- `(?:\.\d+)?Z$`.
ends_utc : Text → Bool
unfolding strip_digits
ends_utc [] = false
ends_utc (c ∷ []) = c == b'Z'
ends_utc (c ∷ d ∷ cs) = c == b'.' && is_digit d && is (strip_digits cs) "Z"

-- `/^\d{4}-\d{2}-\d{2}T\d{2}:\d{2}:\d{2}(?:\.\d+)?Z$/` and a finite `Date.parse`.
unfoldable pub is_timestamp : Platform → Value → Bool
unfolding strip_shape ends_utc
is_timestamp p (str t) =
    (elim (strip_shape (codes "dddd-dd-ddTdd:dd:dd") t) [
      | none ↦ false
      | some rest ↦ ends_utc rest
    ])
    && p.date_finite t
is_timestamp p _ = false

abbrev pub is_terminal : RunStatus → Bool
is_terminal RunStatus.succeeded = true
is_terminal RunStatus.failed = true
is_terminal RunStatus.cancelled = true
is_terminal RunStatus.orphaned = true
is_terminal _ = false

abbrev pub differs : Option ℕ → ℕ → Bool
differs none version = false
differs (some v) version = not (v == version)

abbrev pub expected_sequence : Option ℕ → ℕ
expected_sequence none = 0
expected_sequence (some last) = last + 1

-- A sequence number seen before is refused, with another reason if the envelope differs.
unfoldable pub check_duplicate : Option Text → Text → Checked (Unit {0})
check_duplicate none digest = ok tt
check_duplicate (some prior) digest =
    err (if text_eq prior digest then duplicate_sequence else conflicting_sequence)

-- The checks of `reduceEvent` before the event is applied, with the version and the sequence.
unfoldable pub admit : Platform → RunSnapshot → RuntimeEvent → Checked (ℕ × ℕ)
admit p current envelope = do
  version ← required (version_of envelope.protocol_version) unsupported_protocol
  refuse (differs current.protocol_version version) protocol_changed
  refuse (not (text_eq envelope.run_id current.run_id)) run_id_changed
  refuse (not (is_timestamp p envelope.timestamp)) bad_timestamp
  refuse (not (is_decimal envelope.sequence)) bad_sequence
  check_duplicate (get envelope.sequence current.event_digests) (p.digest envelope)
  let sequence = big_int envelope.sequence
  refuse (ltb max_word64 sequence) sequence_too_large
  refuse (not (sequence == expected_sequence current.last_sequence)) sequence_gap
  refuse (is_terminal current.status) post_terminal
  ok (version, sequence)

-- The copy that the event is applied to.
abbrev pub stamped : Platform → RunSnapshot → RuntimeEvent → ℕ → ℕ → RunSnapshot
stamped p current envelope version sequence = record current {
  protocol_version = some version;
  last_sequence = some sequence;
  event_digests = (envelope.sequence, p.digest envelope) ∷ [];
}
