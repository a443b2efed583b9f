-- ===== src/Session/Tests.antt =====
-- Tests of the session, and the witnesses of its theorems.
use agent_cat.Base.{
  ℕ, ◌+◌, ◌≡◌, refl, ◌⊎◌, Bool, true, false, List, [], ◌∷◌, none, some, String, Text, codes, is,
  is_decimal, digits_value, strip_prefix, text_eq, length, if◌then◌else◌, ok, err,
}
use agent_cat.Base.Int.{pos}
use agent_cat.Events.Failure.{wrong_endpoint, Outcome}
use agent_cat.Json.Value.{
  JsonValue, null, string, number, array, object, no_items, item, JsonMembers, no_members, member,
}
use agent_cat.Session.Capabilities.{
  Entry, numeric_versions, fixed_limits, configured_limits, Capabilities, check_capabilities,
}
use agent_cat.Session.Supported.{IsSupported, check_capabilities-IsSupported}
use agent_cat.Json.Integer.{decimal_text}
use agent_cat.Json.Value.{JsonItems}
use agent_cat.Events.Failure.{refused}
use agent_cat.Resources.Fields.{Strings}
use agent_cat.Refresh.Reconcile.{Uncertain, Reconciled}
use agent_cat.Session.Commands.{raw, PendingCommand, Bound, prepare_capture}
use agent_cat.Session.Prepared.{IsCapture, prepare_capture-IsCapture}
use agent_cat.Session.Send.{SendOutcome, send}
use agent_cat.Session.Sent.{Sends, send-Sends}
use agent_cat.Session.Reconciling.{reconcile_command}
use agent_cat.Session.Evidence.{Evidence, reads, reconcile_command-Evidence}
use agent_cat.Transport.Keys.{IsToken}
use agent_cat.Refresh.Coordinator.{new_refresh}
use agent_cat.Session.Live.{Live, Answer, of_resource, Binding, watch, commit_switch}
use agent_cat.Session.Service.{Reference, Service, Host}
use agent_cat.Session.Pages.{PageSet, page_set}
use agent_cat.Session.Pages.Ends.{Ends, page_set-Ends}
use agent_cat.Session.Pages.Whole.{IsWhole, page_set-IsWhole}
use agent_cat.Transport.Response.{ClientResponse}

abbrev host : Host
host = record {
  query_pairs = λ query. (codes "pageToken", query) ∷ [];
  expiry_of = λ text. some (pos 100);
}

abbrev page_json : String → JsonValue → JsonMembers
page_json index next = member (codes "setId") (string (codes "s")) (
    member (codes "revision") (string (codes "7")) (
      member (codes "expiresAt") (string (codes "2026-01-01T00:00:00Z")) (
        member (codes "index") (number (codes index)) (
          member (codes "totalItems") (number (codes "2"))
            (member (codes "next") next no_members)))))

abbrev response : String → JsonValue → ClientResponse
response index next = record {
  status = 200;
  value = object (
      member (codes "version") (number (codes "1")) (
        member (codes "page") (object (page_json index next))
          (member (codes "items") (array (item null no_items)) no_members)));
  etag = none;
  location = none;
  bytes = 300;
}

-- A manager with two pages. The world is the number of reads.
abbrev two_pages : Service ℕ
two_pages = record {
  get = λ uri w. (
    ok (
        if is uri "/v1/runs"
        then response "0" (string (codes "/v1/runs?pageToken=2"))
        else response "1" null),
    w + 1,
  );
  now = λ w. w;
  closed = λ w. false;
  live = λ w. true;
}

abbrev first : Reference
first = record { endpoint = codes "e"; uri = codes "/v1/runs" }

abbrev both : PageSet
both = record {
  metadata = member (codes "version") (number (codes "1")) no_members;
  items = null ∷ null ∷ [];
}

reads_both : page_set host two_pages (codes "e") first 0 ≡ some (ok both, 2)
unfolding page_set agent_cat.Session.Scope.page_scope agent_cat.Events.Syntax.cut_at
    agent_cat.Session.Pages.page_loop agent_cat.Session.Pages.may_read text_eq
    agent_cat.Session.Scope.same_pairs agent_cat.Session.Scope.sort_pairs
    agent_cat.Session.Service.check agent_cat.Session.Pages.page_step
    agent_cat.Session.Pages.page_of agent_cat.Session.Pages.page_info
    agent_cat.Session.Fields.exact_fields agent_cat.Json.Value.json_member
    agent_cat.Events.Syntax.valid_id agent_cat.Events.Syntax.valid_resource strip_prefix
    agent_cat.Json.Integer.bounded_natural digits_value is_decimal agent_cat.Json.Encode.text_less
    agent_cat.Json.Equality.json_equal agent_cat.Json.Integer.bounded_integer
    agent_cat.Json.Integer.decimal_text agent_cat.Json.Integer.digits_before
    agent_cat.Json.Number.decimal_of agent_cat.Json.Number.drop_zeros
    agent_cat.Json.Number.number_equal agent_cat.Json.Number.parts_of
    agent_cat.Json.Number.span_digits agent_cat.Json.Number.value_of
    agent_cat.Session.Pages.repeated_fields agent_cat.Session.Scope.insert_pair
reads_both = refl

page_set-Ends_example : Ends (page_set host two_pages (codes "e") first 0)
page_set-Ends_example = page_set-Ends host two_pages (codes "e") first 0

page_set-IsWhole_example : IsWhole host two_pages first.uri 0 both 2
page_set-IsWhole_example = page_set-IsWhole host two_pages (codes "e") first 0 both 2 reads_both

abbrev limits_json : List (Entry ℕ) → JsonMembers → JsonMembers
limits_json [] rest = rest
limits_json (e ∷ es) rest = member e.name (number (decimal_text e.value)) (limits_json es rest)

abbrev numbers : List ℕ → JsonValue
numbers [] = array no_items
numbers (n ∷ ns) = array (item (number (decimal_text n)) no_items)

abbrev versions_json : List (Entry (List ℕ)) → JsonMembers
versions_json [] = no_members
versions_json (e ∷ es) = member e.name (numbers e.value) (versions_json es)

abbrev strings_json : List String → JsonItems
strings_json [] = no_items
strings_json (t ∷ ts) = item (string (codes t)) (strings_json ts)

abbrev capability_fields : JsonMembers
capability_fields = member (codes "version") (number (codes "1")) (
    member (codes "authorityEpoch") (string (codes "epoch-1")) (
      member (codes "streamId") (string (codes "stream-1")) (
        member (codes "versions")
          (object (
            member (codes "frontendManifest") (array (strings_json ("3" ∷ [])))
              (versions_json numeric_versions)))
          (member (codes "scopes") (array (strings_json ("observe" ∷ "submit" ∷ []))) (
            member (codes "profileIds") (array no_items) (
              member (codes "transports") (array (strings_json ("sse" ∷ "polling" ∷ []))) (
                member (codes "limits")
                  (object (limits_json fixed_limits (limits_json configured_limits no_members)))
                  no_members)))))))

abbrev capabilities : Capabilities
capabilities = record { fields = capability_fields; epoch = codes "epoch-1" }

accepts : check_capabilities (object capability_fields) ≡ ok capabilities
unfolding check_capabilities agent_cat.Session.Fields.exact_fields agent_cat.Json.Value.json_member
    text_eq agent_cat.Session.Capabilities.supports_versions agent_cat.Json.Integer.bounded_integer
    agent_cat.Json.Number.decimal_of agent_cat.Json.Number.parts_of decimal_text
    agent_cat.Json.Integer.digits_before is_decimal agent_cat.Json.Number.span_digits
    agent_cat.Json.Number.value_of agent_cat.Json.Number.drop_zeros digits_value
    agent_cat.Events.Syntax.valid_id agent_cat.Session.Capabilities.supports_members
    agent_cat.Session.Fields.is_one agent_cat.Session.Capabilities.supports_limits
    agent_cat.Session.Fields.limit_of
accepts = refl

check_capabilities-IsSupported_example : IsSupported capabilities
check_capabilities-IsSupported_example =
    check_capabilities-IsSupported (object capability_fields) capabilities accepts

abbrev token : Text
token = codes "abcdefghijklmnopqrstuv"

random_token : IsToken token
random_token = record { size = refl; characters = refl }

abbrev session : Bound
session = record { closed = false; identity = codes "e"; capabilities = capabilities }

abbrev capture : PendingCommand
capture = record {
  reference = record { endpoint = codes "e"; uri = codes "/v1/captures?requestId=q1" };
  body = raw (104 ∷ 105 ∷ []);
  idempotency_key = codes "epoch-1.abcdefghijklmnopqrstuv";
  if_match = none;
}

abbrev any_bytes : List ℕ → Bool
any_bytes bytes = true

prepares : prepare_capture token any_bytes session (codes "q1") (104 ∷ 105 ∷ []) ≡ ok capture
unfolding prepare_capture agent_cat.Events.Syntax.valid_id agent_cat.Session.Service.reference_of
    agent_cat.Events.Syntax.valid_resource strip_prefix agent_cat.Json.Value.json_member text_eq
    agent_cat.Session.Fields.limit_of agent_cat.Json.Integer.bounded_integer
    agent_cat.Json.Number.decimal_of agent_cat.Json.Number.parts_of decimal_text
    agent_cat.Json.Integer.digits_before is_decimal agent_cat.Json.Number.span_digits
    agent_cat.Json.Number.value_of agent_cat.Json.Number.drop_zeros digits_value
    agent_cat.Session.Commands.pending agent_cat.Session.Service.check
    agent_cat.Transport.Keys.command_key
prepares = refl

prepare_capture-IsCapture_example : IsCapture any_bytes (104 ∷ 105 ∷ []) capture
prepare_capture-IsCapture_example =
    prepare_capture-IsCapture token random_token any_bytes session (object capability_fields)
      (codes "q1") (104 ∷ 105 ∷ []) capture accepts prepares

abbrev strings : Strings
strings = record { quote = λ t. t; byte_length = λ t. length t; upper_case = λ t. t }

-- A manager that refuses every command as stale, and counts them.
abbrev stale_post : PendingCommand → ℕ → Outcome ClientResponse × ℕ
stale_post p w = (err (refused 412 (codes "stale-revision")), w + 1)

send-Sends_example :
    Sends strings stale_post session capture 0 (send strings stale_post session capture 0)
send-Sends_example = send-Sends strings stale_post session capture 0

sends_once :
    send strings stale_post session capture 0
    ≡ (SendOutcome.refused (refused 412 (codes "stale-revision")), 1)
unfolding send agent_cat.Session.Service.check text_eq agent_cat.Session.Send.send_outcome
sends_once = refl

abbrev lost : Uncertain PendingCommand Reference
lost = record {
  command = capture;
  target = first;
  precondition = some (codes "\"1\"");
  receipt = none;
}

reconcile_command-Evidence_example :
    Evidence strings
      (λ v. true)
      (reads strings (λ v. true) two_pages (codes "e") 0)
      lost
      none
      (reconcile_command strings (λ v. true) two_pages (codes "e") lost none 0).0
    ⊎ ((reconcile_command strings (λ v. true) two_pages (codes "e") lost none 0).0
        ≡ Reconciled.uncertain lost)
reconcile_command-Evidence_example =
    reconcile_command-Evidence strings (λ v. true) two_pages (codes "e") lost none 0

abbrev before_switch : Live ℕ
before_switch = record {
  transport = 1;
  endpoint = codes "https://a";
  identity = codes "e";
  capabilities = capabilities;
  refresh = new_refresh Text;
  watched = codes "/v1/runs/r1" ∷ [];
  installed = [];
  overview = none;
  lane = [];
  closed = false;
}

abbrev to_other : Binding
to_other = record {
  transport = 2;
  endpoint = codes "https://b";
  identity = codes "f";
  capabilities = capabilities;
}

-- After the switch the session watches again what it watched before it.
abbrev after_switch : Live ℕ
after_switch =
    (watch (record { endpoint = codes "f"; uri = codes "/v1/runs/r1" })
      (commit_switch 1 to_other (ok 7) before_switch)).1

abbrev late_answer : Answer ℕ
late_answer = of_resource (err wrong_endpoint)
