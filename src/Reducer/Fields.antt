-- ===== src/Reducer/Fields.antt =====
-- The readers of an event's members: `text`, `decimalText`, `runtimeControlId` and those after them
-- in ext-pi/src/reducer.ts.
use agent_cat.Base.{
  ℕ, ◌-◌, ◌/◌, ◌%◌, Bool, false, not, ◌&&◌, ◌||◌, List, [], ◌∷◌, ◌++◌, Option, none, some, Text,
  codes, is, is_decimal, big_int, code_points, strip_prefix, strip_suffix, is_empty, is_lower_hex,
  any, all, length, drop, ltb, leb, ◌==◌, if◌then◌else◌, Result, ok, err, ◌>>=◌, ◌>>◌, refuse,
  required,
}
use agent_cat.Base.Int.{ℤ, pos, negsuc}
use agent_cat.Base.Value.{Value, Members, int, str, obj}
use agent_cat.Base.Value.{field, has_own}
use agent_cat.Reducer.State.{
  Refusal, Platform, FailureClass, setup, transport, decode, protocol, cancelled, runtime,
  QuestionRef, ResultRef, ControlCommand, cancel_run, steer_occurrence, retry_occurrence,
  failover_occurrence, abandon_occurrence, redirect_occurrence, answer_person, invalid,
}
use agent_cat.Reducer.State.{
  not_text, not_decimal, out_of_range, bad_control_id, unknown_failure_class, not_safe_integer,
  not_record, bad_question_reference, result_code_missing, bad_result_reference, bad_sha256,
  bad_byte_count, unknown_control_command,
}

abbrev pub Checked : Type 0 → Type 0
Checked = Result Refusal

abbrev pub max_word64 : ℕ
max_word64 = 18446744073709551615

abbrev pub max_word32 : ℕ
max_word32 = 4294967295

abbrev max_safe_integer : ℕ
max_safe_integer = 9007199254740991

unfoldable pub text : Value → Checked Text
text (str t) = ok t
text _ = err not_text

-- `isRecord`, with the members of the record.
unfoldable pub members : Value → Refusal → Checked Members
members (obj ms) e = ok ms
members _ e = err e

unfoldable pub natural_text : Value → Checked Text
natural_text v = do t ← text v; refuse (not (is_decimal t)) not_decimal; ok t

unfoldable pub decimal_text : Value → ℕ → Checked Text
decimal_text v maximum = do
  t ← text v
  refuse (not (is_decimal t)) not_decimal
  refuse (ltb maximum (big_int t)) out_of_range
  ok t

unfoldable pub occurrence_id : Members → Checked Text
occurrence_id e = decimal_text (field "occurrenceId" e) max_word64

unfoldable pub attempt_id : Members → Checked Text
attempt_id e = do
  occurrence ← occurrence_id e
  attempt ← decimal_text (field "attempt" e) max_word32
  ok (occurrence ++ (b':' ∷ attempt))

unfoldable pub attempt_reference : Value → Checked Text
attempt_reference v = do
  ms ← members v not_record
  occurrence ← decimal_text (field "occurrenceId" ms) max_word64
  attempt ← decimal_text (field "attemptNumber" ms) max_word32
  ok (occurrence ++ (b':' ∷ attempt))

-- `/^[\p{L}\p{N}._-]+$/u` and at most 128 code units.
abbrev is_control_character : Platform → ℕ → Bool
is_control_character p c = p.is_letter c || p.is_number c || c == b'.' || c == b'_' || c == b'-'

unfoldable pub runtime_control_id : Platform → Members → Checked Text
runtime_control_id p e = do
  id ← text (field "controlId" e)
  refuse
      (ltb 128 (length id)
        || not (not (is_empty id) && all (is_control_character p) (code_points id)))
      bad_control_id
  ok id

failure_class_of : Text → Option FailureClass
failure_class_of t =
    if is t "setup"
    then some setup
    else if is t "transport"
    then some transport
    else if is t "decode"
    then some decode
    else if is t "protocol"
    then some protocol
    else if is t "cancelled"
    then some cancelled
    else if is t "runtime"
    then some runtime
    else none

unfoldable pub runtime_failure_class : Value → Checked FailureClass
unfolding failure_class_of
runtime_failure_class v = do t ← text v; required (failure_class_of t) unknown_failure_class

-- `Number.isSafeInteger`.
is_safe : ℤ → Bool
is_safe (pos n) = leb n max_safe_integer
is_safe (negsuc n) = ltb n max_safe_integer

unfoldable pub integer_number : Value → Checked ℤ
unfolding is_safe
integer_number (int z) = do refuse (not (is_safe z)) not_safe_integer; ok z
integer_number _ = err not_safe_integer

abbrev is_one : ℤ → Bool
is_one (pos n) = n == 1
is_one (negsuc n) = false

-- `/^person\/questions\/(0|[1-9][0-9]*)\.json$/`.
is_question_path : Text → Bool
is_question_path path = elim (strip_prefix (codes "person/questions/") path) [
  | none ↦ false
  | some rest ↦ elim (strip_suffix (codes ".json") rest) [
    | none ↦ false
    | some number ↦ is_decimal number
  ]
]

unfoldable pub validate_artifact_reference : Text → Text → Checked (Unit {0})
validate_artifact_reference sha256 bytes = do
  refuse (not (length sha256 == 64 && all is_lower_hex sha256)) bad_sha256
  refuse (big_int bytes == 0 || ltb 67108864 (big_int bytes)) bad_byte_count
  ok tt

-- The four members that both references share, in the order in which they are read.
artifact_reference : Members → Checked QuestionRef
artifact_reference ms = do
  version ← integer_number (field "artifactVersion" ms)
  path ← text (field "path" ms)
  sha256 ← text (field "sha256" ms)
  bytes ← natural_text (field "bytes" ms)
  ok (record { artifact_version = version; path = path; sha256 = sha256; bytes = bytes })

unfoldable pub question_ref : Value → Checked QuestionRef
unfolding artifact_reference is_question_path
question_ref v = do
  ms ← members v not_record
  reference ← artifact_reference ms
  refuse (not (is_one reference.artifact_version) || not (is_question_path reference.path))
      bad_question_reference
  validate_artifact_reference reference.sha256 reference.bytes
  ok reference

unfoldable pub result_ref : Value → Checked ResultRef
unfolding artifact_reference
result_ref v = do
  ms ← members v not_record
  refuse (not (has_own "code" ms)) result_code_missing
  reference ← artifact_reference ms
  preview ← text (field "preview" ms)
  refuse
      (not (is_one reference.artifact_version)
        || not (is reference.path "result.json")
        || ltb 500 (length (code_points preview))
        || any (λ c. c == b'\r' || c == b'\n') preview)
      bad_result_reference
  validate_artifact_reference reference.sha256 reference.bytes
  ok (record { reference = reference; code = field "code" ms; preview = preview })

control_command_of : Text → Option ControlCommand
control_command_of t =
    if is t "cancelRun"
    then some cancel_run
    else if is t "steerOccurrence"
    then some steer_occurrence
    else if is t "retryOccurrence"
    then some retry_occurrence
    else if is t "failoverOccurrence"
    then some failover_occurrence
    else if is t "abandonOccurrence"
    then some abandon_occurrence
    else if is t "redirectOccurrence"
    then some redirect_occurrence
    else if is t "answerPerson"
    then some answer_person
    else if is t "invalid"
    then some invalid
    else none

unfoldable pub control_command : Value → Checked ControlCommand
unfolding control_command_of
control_command v = do t ← text v; required (control_command_of t) unknown_control_command

-- `tail`: the last 64 KiB of the UTF-8 bytes, from the first byte there that starts a character.
abbrev pub output_tail : ℕ
output_tail = 65536

-- `(byte & 0xc0) === 0x80`.
abbrev pub is_continuation : ℕ → Bool
is_continuation byte = byte / 64 % 4 == 2

unfoldable pub skip_continuation : List ℕ → List ℕ
skip_continuation [] = []
skip_continuation (byte ∷ bytes) =
    if is_continuation byte then skip_continuation bytes else byte ∷ bytes

unfoldable pub tail_bytes : List ℕ → List ℕ
unfolding skip_continuation
tail_bytes bytes = skip_continuation (drop (length bytes - output_tail) bytes)

unfoldable pub tail : Platform → Text → Text
unfolding tail_bytes
tail p value =
    let bytes = p.to_utf8 value in
    if leb (length bytes) output_tail then value else p.of_utf8 (tail_bytes bytes)
