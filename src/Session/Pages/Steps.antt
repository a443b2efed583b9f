-- ===== src/Session/Pages/Steps.antt =====
-- What a page has gone through when the page loop of ext-pi/src/manager/session.ts goes on.
use agent_cat.Base.{
  ℕ, ◌+◌, ◌≤◌, ◌≡◌, refl, sym, subst, true, false, not, ◌||◌, ◌++◌, Option, none, some, Text,
  length, leb, ◌==◌, arith, not_eq_false, ok, refuse, >>=-eq-ok, refuse-eq-ok, refuse-then,
  subst-ok,
}
use agent_cat.Events.Failure.{invalid_response, wrong_endpoint, Outcome}
use agent_cat.Session.Service.{Service, Host}
use agent_cat.Session.Pages.{
  Page, Gathered, Progress, finished, onward, with_page, refused_page, advance, page_of, page_step,
}
use agent_cat.Transport.Response.{ClientResponse}

ok-injective : {A : Type 0} {a b : A} → ◌≡◌ {A = Outcome A} (ok a) (ok b) → a ≡ b
ok-injective {a = a} same = subst-ok (λ x. a ≡ x) same refl

pub advance-last :
    (g : Gathered) (p : Page) {r : Progress}
    → advance g p none ≡ ok r
    → (length (g.items ++ p.items) ≡ p.info.total)
      × (r ≡ finished (record { metadata = p.repeated; items = g.items ++ p.items }))
advance-last g p h =
    let (met, h₁) =
      refuse-then (not (length (g.items ++ p.items) == p.info.total)) invalid_response _ h in
    (ground arith, sym (ok-injective h₁))

pub advance-onward :
    (g : Gathered) (p : Page) (next : Text) {r : Progress}
    → advance g p (some next) ≡ ok r
    → (g.index + 1 ≤ 65535) × (r ≡ onward next (with_page g p))
advance-onward g p next h =
    let (met, h₁) =
      refuse-then
        (length p.items == 0 || leb p.info.total (length (g.items ++ p.items)) || leb 65535 g.index)
        invalid_response _ h in
    (ground arith, sym (ok-injective h₁))

IndexOf : ℕ → Progress → Type 0
IndexOf n (finished set) = Unit
IndexOf n (onward next g) = g.index ≡ n

index-onward :
    {next uri : Text} {g g' : Gathered} → onward next g' ≡ onward uri g → g'.index ≡ g.index
unfolding IndexOf
index-onward {g = g} same = subst (IndexOf g.index) (sym same) refl

onward_of :
    (g : Gathered) (p : Page) (after : Option Text) {next : Text} {g' : Gathered}
    → advance g p after ≡ ok (onward next g')
    → (g.index + 1 ≤ 65535) × (g'.index ≡ g.index + 1)
onward_of g p none h = cc (advance-last g p h).1
onward_of g p (some uri) h =
    let (bound, same) = advance-onward g p uri h in (bound, index-onward same)

module _ {W : Type 0} (host : Host) (service : Service W) where
  -- What a page that is not refused has gone through.
  pub record Admits (w : W) (g : Gathered) (answer : Outcome ClientResponse) (r : Progress)
      : Type 0 where
    pub response : ClientResponse
    pub page : Page
    pub is_live : service.live w ≡ true
    pub answered : answer ≡ ok response
    pub decoded : page_of host response ≡ ok page
    pub admitted : refused_page (service.now w) g page ≡ false
    pub advances : advance g page page.info.next ≡ ok r

  pub page_step-Admits :
      (w : W) (g : Gathered) (answer : Outcome ClientResponse) {r : Progress}
      → page_step host service w g answer ≡ ok r
      → Admits w g answer r
  unfolding page_step
  page_step-Admits w g answer h =
      let (u, e₀, h₀) = >>=-eq-ok (refuse (not (service.live w)) wrong_endpoint) _ h in
      let (response, e₁, h₁) = >>=-eq-ok answer _ h₀ in
      let (p, e₂, h₂) = >>=-eq-ok (page_of host response) _ h₁ in
      let (v, e₃, h₃) = >>=-eq-ok (refuse _ _) _ h₂ in
      record {
        response = response;
        page = p;
        is_live = not_eq_false _ (refuse-eq-ok _ _ e₀);
        answered = e₁;
        decoded = e₂;
        admitted = refuse-eq-ok _ _ e₃;
        advances = h₃;
      }

  pub page_step-onward :
      (w : W) (g : Gathered) (answer : Outcome ClientResponse) {next : Text} {g' : Gathered}
      → page_step host service w g answer ≡ ok (onward next g')
      → (g.index + 1 ≤ 65535) × (g'.index ≡ g.index + 1)
  page_step-onward w g answer {next} {g'} h =
      let admits = page_step-Admits w g answer h in
      onward_of g admits.page admits.page.info.next admits.advances
