-- ===== src/Session/Pages.antt =====
-- The page sets of ext-pi/src/manager/session.ts: `pageInfo`, `pageScope`, `repeatedFields` and
-- the loop of `#pageSet`.
pub mod Steps
pub mod Read
pub mod Whole
pub mod Ends
use agent_cat.Base.{
  ℕ, zero, suc, ◌+◌, Bool, true, false, not, ◌&&◌, ◌||◌, List, [], ◌∷◌, ◌++◌, map, Option, none,
  some, Text, codes, is, distinct, text_eq, keep, length, ltb, leb, ◌==◌, if◌then◌else◌, ok, err,
  ◌>>=◌, refuse, required,
}
use agent_cat.Base.Int.{ℤ, pos}
use agent_cat.Events.Failure.{invalid_response, wrong_endpoint, Outcome}
use agent_cat.Events.Syntax.{cut_at, valid_id, valid_resource}
use agent_cat.Json.Value.{
  JsonValue, null, string, JsonMembers, no_members, member, json_member, string_of, number_of,
  object_of, array_of,
}
use agent_cat.Json.Integer.{int_le, bounded_natural}
use agent_cat.Json.Equality.{json_equal}
use agent_cat.Json.Value.{object}
use agent_cat.Session.Fields.{exact_fields}
use agent_cat.Session.Scope.{Scope, page_scope, in_scope}
use agent_cat.Session.Service.{Reference, Service, Host, check}
use agent_cat.Transport.Response.{ClientResponse}

pub record PageInfo : Type 0 where
  pub set_id : Text
  pub revision : Text
  pub expires_at : Text
  pub expiry : ℤ
  pub index : ℕ
  pub total : ℕ
  pub next : Option Text

abbrev page_names : List Text
page_names =
    codes "setId"
    ∷ codes "revision"
    ∷ codes "expiresAt"
    ∷ codes "index"
    ∷ codes "totalItems"
    ∷ codes "next"
    ∷ []

abbrev valid_text : (Text → Bool) → Option Text → Option Text
valid_text valid none = none
valid_text valid (some t) = if valid t then some t else none

-- The resource of the next page, or that there is none.
abbrev next_of : Option JsonValue → Option (Option Text)
next_of (some null) = some none
next_of (some (string uri)) = if valid_resource uri then some (some uri) else none
next_of _ = none

abbrev natural_in : ℕ → Option Text → Option ℕ
natural_in maximum none = none
natural_in maximum (some source) = bounded_natural source 0 maximum

abbrev is_short : Text → Bool
is_short expires_at = leb (length expires_at) 40

module _ (host : Host) where
  abbrev page_fields : JsonMembers → Outcome PageInfo
  page_fields fields =
      required (valid_text valid_id (string_of (json_member fields (codes "setId"))))
        invalid_response
      >>= λ set_id.
          required (valid_text valid_id (string_of (json_member fields (codes "revision"))))
            invalid_response
          >>= λ revision.
              required (valid_text is_short (string_of (json_member fields (codes "expiresAt"))))
                invalid_response
              >>= λ expires_at.
                  required (next_of (json_member fields (codes "next"))) invalid_response
                  >>= λ next. required (host.expiry_of expires_at) invalid_response >>= λ expiry.
                      required (natural_in 65535 (number_of (json_member fields (codes "index"))))
                        invalid_response
                      >>= λ index.
                          required
                            (natural_in 1048576
                              (number_of (json_member fields (codes "totalItems"))))
                            invalid_response
                          >>= λ total. ok (record {
                            set_id = set_id;
                            revision = revision;
                            expires_at = expires_at;
                            expiry = expiry;
                            index = index;
                            total = total;
                            next = next;
                          })

  unfoldable pub page_info : Option JsonValue → Outcome PageInfo
  page_info value = required (exact_fields value page_names) invalid_response >>= page_fields

unfoldable pub repeated_fields : JsonMembers → JsonMembers
repeated_fields no_members = no_members
repeated_fields (member name value rest) =
    let others = repeated_fields rest in
    if is name "page" || is name "items" then others else member name value others

abbrev pub page_set_bytes : ℕ
page_set_bytes = 67108864

-- One page: what the manager states of it, its items, the fields that every page repeats and its size.
pub record Page : Type 0 where
  pub info : PageInfo
  pub items : List JsonValue
  pub repeated : JsonMembers
  pub bytes : ℕ

pub record PageSet : Type 0 where
  pub metadata : JsonMembers
  pub items : List JsonValue

-- The variables of the loop.
pub record Gathered : Type 0 where
  pub index : ℕ
  pub used : ℕ
  pub items : List JsonValue
  pub stamp : Option PageInfo
  pub metadata : Option JsonMembers

abbrev pub nothing_gathered : Gathered
nothing_gathered = record { index = 0; used = 0; items = []; stamp = none; metadata = none }

abbrev ok_object : ClientResponse → Option JsonMembers
ok_object response = if response.status == 200 then object_of (some response.value) else none

abbrev pub other_stamp : Option PageInfo → PageInfo → Bool
other_stamp none page = false
other_stamp (some stamp) page =
    not (text_eq stamp.set_id page.set_id)
    || not (text_eq stamp.revision page.revision)
    || not (text_eq stamp.expires_at page.expires_at)
    || not (stamp.total == page.total)

abbrev pub other_metadata : Option JsonMembers → JsonMembers → Bool
other_metadata none repeated = false
other_metadata (some metadata) repeated = not (json_equal (object metadata) (object repeated))

-- What a page leads to: the whole set, or the resource of the page after it.
pub data Progress : Type 0 where
  finished : PageSet → Progress
  onward : Text → Gathered → Progress

abbrev pub with_page : Gathered → Page → Gathered
with_page g p = record {
  index = g.index + 1;
  used = g.used + p.bytes;
  items = g.items ++ p.items;
  stamp = some p.info;
  metadata = some p.repeated;
}

-- The conditions that refuse a page.
abbrev pub refused_page : ℕ → Gathered → Page → Bool
refused_page now g p =
    not (p.info.index == g.index)
    || int_le p.info.expiry (pos now)
    || ltb 256 (length p.items)
    || ltb p.info.total (length (g.items ++ p.items))
    || ltb page_set_bytes (g.used + p.bytes)
    || other_stamp g.stamp p.info
    || other_metadata g.metadata p.repeated

-- After the checks of a page: the end of the set, or the next page.
abbrev pub advance : Gathered → Page → Option Text → Outcome Progress
advance g p none =
    refuse (not (length (g.items ++ p.items) == p.info.total)) invalid_response >>= λ done.
    ok (finished (record { metadata = p.repeated; items = g.items ++ p.items }))
advance g p (some next) =
    refuse
      (length p.items == 0 || leb p.info.total (length (g.items ++ p.items)) || leb 65535 g.index)
      invalid_response
    >>= λ done. ok (onward next (with_page g p))

-- The index of a page that has another one after it is below 65535.
abbrev pub page_rounds : ℕ
page_rounds = 65536

module _ (host : Host) where
  unfoldable pub page_of : ClientResponse → Outcome Page
  page_of response = required (ok_object response) invalid_response >>= λ fields.
      page_info host (json_member fields (codes "page")) >>= λ info.
      required (array_of (json_member fields (codes "items"))) invalid_response >>= λ items.
      ok (record {
        info = info;
        items = items;
        repeated = repeated_fields fields;
        bytes = response.bytes;
      })

  module _ {W : Type 0} (service : Service W) where
    -- The answer to the read of one page, in the world in which it arrives.
    unfoldable pub page_step : W → Gathered → Outcome ClientResponse → Outcome Progress
    page_step w g answer = refuse (not (service.live w)) wrong_endpoint >>= λ done.
        answer >>= λ response. page_of response >>= λ p.
        refuse (refused_page (service.now w) g p) invalid_response >>= λ done.
        advance g p p.info.next

    -- What is checked before a page is read.
    unfoldable pub may_read : Scope → Text → Reference → W → Outcome (Unit {0})
    may_read scope identity location w =
        refuse (not (in_scope scope (page_scope host location.uri))) invalid_response >>= λ done.
        check (service.closed w) identity location >>= λ done.
        refuse (not (service.live w)) wrong_endpoint

    -- The loop of `#pageSet`: none when the fuel runs out.
    unfoldable pub page_loop :
        ℕ → Scope → Text → Reference → Gathered → W → Option (Outcome PageSet × W)
    page_loop zero scope identity location g w = none
    page_loop (suc fuel) scope identity location g w = elim (may_read scope identity location w) [
      | err failure ↦ some (err failure, w)
      | ok done ↦
          let (answer, w') = service.get location.uri w in
          elim (page_step w' g answer) [
            | err failure ↦ some (err failure, w')
            | ok (finished set) ↦ some (ok set, w')
            | ok (onward next g') ↦
                page_loop fuel scope identity (record location { uri = next }) g' w'
          ]
    ]

    unfoldable pub page_set : Text → Reference → W → Option (Outcome PageSet × W)
    page_set identity first w = elim (page_scope host first.uri) [
      | none ↦ some (err invalid_response, w)
      | some scope ↦ page_loop page_rounds scope identity first nothing_gathered w
    ]
