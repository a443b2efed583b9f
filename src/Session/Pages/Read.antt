-- ===== src/Session/Pages/Read.antt =====
-- The reads of a page set of ext-pi/src/manager/session.ts: one page after another, each where the one
-- before it says.
use agent_cat.Base.{
  ℕ, ◌+◌, ◌≤◌, ◌≡◌, sym, true, false, List, [], ◌∷◌, ◌++◌, Option, none, some, Text, text_eq_sound,
  length, arith, ok,
}
use agent_cat.Base.Int.{pos}
use agent_cat.Json.Integer.{int_le}
use agent_cat.Json.Value.{JsonValue}
use agent_cat.Session.Service.{Service, Host}
use agent_cat.Session.Scope.{Scope, page_scope, in_scope}
use agent_cat.Session.Pages.{Page, PageInfo, Gathered, Progress, page_of, other_stamp}
use agent_cat.Session.Pages.Steps.{Admits}
use agent_cat.Transport.Response.{ClientResponse}

-- What every page of a set repeats of the page before it.
pub record Repeats (s p : PageInfo) : Type 0 where
  pub set_id : p.set_id ≡ s.set_id
  pub revision : p.revision ≡ s.revision
  pub expires_at : p.expires_at ≡ s.expires_at
  pub total : p.total ≡ s.total

abbrev pub RepeatsOf : Option PageInfo → PageInfo → Type 0
RepeatsOf none p = Unit
RepeatsOf (some s) p = Repeats s p

other_stamp-Repeats :
    (before : Option PageInfo) (p : PageInfo) → other_stamp before p ≡ false → RepeatsOf before p
other_stamp-Repeats none p h = tt
other_stamp-Repeats (some s) p h = record {
  set_id = sym (text_eq_sound _ _ (ground arith));
  revision = sym (text_eq_sound _ _ (ground arith));
  expires_at = sym (text_eq_sound _ _ (ground arith));
  total = ground arith;
}

abbrev pub all_items : List Page → List JsonValue
all_items [] = []
all_items (p ∷ ps) = p.items ++ all_items ps

abbrev pub page_bytes : Page → ℕ
page_bytes p = p.bytes

module _ {W : Type 0} (host : Host) (service : Service W) (scope : Scope) where
  -- One read of a page: of a resource in the scope of the set, by an open session, answered while the
  -- binding was live and before the set expired.
  pub record IsRead (index : ℕ) (before : Option PageInfo) (uri : Text) (w : W) (p : Page)
      : Type 0 where
    pub response : ClientResponse
    pub scoped : in_scope scope (page_scope host uri) ≡ true
    pub was_open : service.closed w ≡ false
    pub answered : (service.get uri w).0 ≡ ok response
    pub decoded : page_of host response ≡ ok p
    pub live : service.live (service.get uri w).1 ≡ true
    pub fresh : int_le p.info.expiry (pos (service.now (service.get uri w).1)) ≡ false
    pub numbered : p.info.index ≡ index
    pub short : length p.items ≤ 256
    pub repeats : RepeatsOf before p.info

  -- The pages that are read one after another, each at the resource that the page before it names.
  pub data Pages : ℕ → Option PageInfo → Text → W → List Page → W → Type 0 where
    last :
        (index : ℕ) (before : Option PageInfo) (uri : Text) (w : W) (p : Page)
        → IsRead index before uri w p
        → p.info.next ≡ none
        → Pages index before uri w (p ∷ []) (service.get uri w).1
    more :
        (index : ℕ) (before : Option PageInfo) (uri : Text) (w : W) (p : Page) (next : Text)
        (ps : List Page) (end : W)
        → IsRead index before uri w p
        → p.info.next ≡ some next
        → Pages (index + 1) (some p.info) next (service.get uri w).1 ps end
        → Pages index before uri w (p ∷ ps) end

  pub read_of :
      (g : Gathered) (uri : Text) (w : W) {r : Progress}
      → in_scope scope (page_scope host uri) ≡ true
      → service.closed w ≡ false
      → (admits : Admits host service (service.get uri w).1 g (service.get uri w).0 r)
      → IsRead g.index g.stamp uri w admits.page
  read_of g uri w scoped was_open admits = record {
    response = admits.response;
    scoped = scoped;
    was_open = was_open;
    answered = admits.answered;
    decoded = admits.decoded;
    live = admits.is_live;
    fresh = ground (arith, admits.admitted);
    numbered = ground (arith, admits.admitted);
    short = ground (arith, admits.admitted);
    repeats = other_stamp-Repeats g.stamp admits.page.info (ground (arith, admits.admitted));
  }
