-- ===== src/Session/Pages/Whole.antt =====
-- What a complete page set of ext-pi/src/manager/session.ts consists of.
use agent_cat.Base.{
  ℕ, zero, suc, ◌+◌, ◌≤◌, ◌≡◌, refl, sym, ap, subst, ◌∙◌, inl, inr, true, false, not, List, [], ◌∷◌,
  ◌++◌, append-nil, append_assoc, Option, none, some, Text, length, sum_by, All, arith,
  not_eq_false, Option-cases, Result-cases, ok, err, >>=-eq-ok, refuse-then,
}
use agent_cat.Events.Failure.{invalid_response, Outcome}
use agent_cat.Session.Service.{Reference, Service, Host, check}
use agent_cat.Session.Scope.{Scope, page_scope, in_scope}
use agent_cat.Session.Pages.{
  Page, PageInfo, PageSet, Gathered, nothing_gathered, Progress, finished, onward, with_page,
  advance, page_step, may_read, page_loop, page_set, page_rounds, page_set_bytes,
}
use agent_cat.Session.Pages.Read.{
  RepeatsOf, all_items, page_bytes, IsRead, Pages, last, more, read_of,
}
use agent_cat.Session.Pages.Steps.{advance-last, advance-onward, page_step-Admits}

module _ {W : Type 0} (host : Host) (service : Service W) (scope : Scope) where
  abbrev TotalOf : Option PageInfo → ℕ → Type 0
  TotalOf none n = Unit
  TotalOf (some s) n = s.total ≡ n

  -- What the rest of the loop adds to what is gathered.
  record Rest (g : Gathered) (uri : Text) (w : W) (set : PageSet) (end : W) : Type 0 where
    pages : List Page
    read : Pages host service scope g.index g.stamp uri w pages end
    items : set.items ≡ g.items ++ all_items pages
    totals : All (λ p. p.info.total ≡ length set.items) pages
    before : TotalOf g.stamp (length set.items)
    bytes : g.used + sum_by page_bytes pages ≤ page_set_bytes

  abbrev RestOf : Gathered → Text → W → Option (Outcome PageSet × W) → Type 0
  RestOf g uri w (some (ok set, end)) = Rest g uri w set end
  RestOf g uri w _ = Unit

  total_before :
      (before : Option PageInfo) (p : PageInfo) (n : ℕ)
      → RepeatsOf before p
      → p.total ≡ n
      → TotalOf before n
  total_before none p n repeats total = tt
  total_before (some s) p n repeats total = sym repeats.total ∙ total

  -- What a page adds, whether the set ends with it or another page comes after it.
  abbrev StepOf : Gathered → Text → W → Progress → Type 0
  StepOf g uri w (finished set) = Rest g uri w set (service.get uri w).1
  StepOf g uri w (onward next g') =
      (result : Option (Outcome PageSet × W))
      → RestOf g' next (service.get uri w).1 result
      → RestOf g uri w result

  end_of_set :
      (g : Gathered) (uri : Text) (w : W) (p : Page)
      → IsRead host service scope g.index g.stamp uri w p
      → g.used + p.bytes ≤ page_set_bytes
      → p.info.next ≡ none
      → length (g.items ++ p.items) ≡ p.info.total
      → Rest g uri w
          (record { metadata = p.repeated; items = g.items ++ p.items })
          (service.get uri w).1
  end_of_set g uri w p read bound ends len = record {
    pages = p ∷ [];
    read = last g.index g.stamp uri w p read ends;
    items = ap (λ xs. g.items ++ xs) (sym (append-nil p.items));
    totals = (sym len, tt);
    before = total_before g.stamp p.info _ read.repeats (sym len);
    bytes = omega (arith, bound);
  }

  next_of_set :
      (g : Gathered) (uri : Text) (w : W) (p : Page) (next : Text)
      → IsRead host service scope g.index g.stamp uri w p
      → p.info.next ≡ some next
      → StepOf g uri w (onward next (with_page g p))
  next_of_set g uri w p next read goes none rest = tt
  next_of_set g uri w p next read goes (some (err failure, end)) rest = tt
  next_of_set g uri w p next read goes (some (ok set, end)) rest = record {
    pages = p ∷ rest.pages;
    read = more g.index g.stamp uri w p next rest.pages end read goes rest.read;
    items = rest.items ∙ append_assoc g.items p.items (all_items rest.pages);
    totals = (rest.before, rest.totals);
    before = total_before g.stamp p.info _ read.repeats rest.before;
    bytes = omega (arith, rest.bytes);
  }

  step_of :
      (g : Gathered) (uri : Text) (w : W) (p : Page) (after : Option Text) {r : Progress}
      → IsRead host service scope g.index g.stamp uri w p
      → g.used + p.bytes ≤ page_set_bytes
      → p.info.next ≡ after
      → advance g p after ≡ ok r
      → StepOf g uri w r
  step_of g uri w p none read bound ends h =
      let (len, same) = advance-last g p h in
      subst (StepOf g uri w) (sym same) (end_of_set g uri w p read bound ends len)
  step_of g uri w p (some next) read bound ends h =
      let (low, same) = advance-onward g p next h in
      subst (StepOf g uri w) (sym same) (next_of_set g uri w p next read ends)

  may_read-scoped :
      (identity : Text) (location : Reference) (w : W) {u : Unit {0}}
      → may_read host service scope identity location w ≡ ok u
      → (in_scope scope (page_scope host location.uri) ≡ true) × (service.closed w ≡ false)
  unfolding may_read check
  may_read-scoped identity location w h =
      let (scoped, h₁) = refuse-then (not (in_scope scope (page_scope host location.uri))) _ _ h in
      let (done, h₂, h₃) = >>=-eq-ok (check (service.closed w) identity location) _ h₁ in
      (not_eq_false _ scoped, (refuse-then (service.closed w) _ _ h₂).0)

  page_step-StepOf :
      (identity : Text) (location : Reference) (g : Gathered) (w : W) {r : Progress} {u : Unit {0}}
      → may_read host service scope identity location w ≡ ok u
      → page_step host service (service.get location.uri w).1 g (service.get location.uri w).0
        ≡ ok r
      → StepOf g location.uri w r
  page_step-StepOf identity location g w may h =
      let (scoped, was_open) = may_read-scoped identity location w may in
      let admits = page_step-Admits host service _ g _ h in
      step_of g location.uri w admits.page admits.page.info.next
        (read_of host service scope g location.uri w scoped was_open admits)
        (ground (arith, admits.admitted)) refl admits.advances

  page_loop-Rest :
      (fuel : ℕ) (identity : Text) (location : Reference) (g : Gathered) (w : W)
      → RestOf g location.uri w (page_loop host service fuel scope identity location g w)
  unfolding page_loop
  page_loop-Rest zero identity location g w = tt
  page_loop-Rest (suc fuel) identity location g w =
      elim (Result-cases (may_read host service scope identity location w)) [
        | inl (failure, e) ↦ rw (e, page_loop) tt
        | inr (done, e) ↦
            rw (e, page_loop)
              (elim (Result-cases (
                page_step host service (service.get location.uri w).1 g
                  (service.get location.uri w).0)) [
                    | inl (failure, e') ↦ rw e' tt
                    | inr (finished set, e') ↦ rw e' (page_step-StepOf identity location g w e e')
                    | inr (onward next g', e') ↦ rw e' (
                        page_step-StepOf identity location g w e e' _
                          (page_loop-Rest fuel identity (record location { uri = next }) g' _))
                  ])
      ]

  whole_of :
      (g : Gathered) (uri : Text) (w : W) {result : Option (Outcome PageSet × W)} {set : PageSet}
      {end : W}
      → result ≡ some (ok set, end)
      → RestOf g uri w result
      → Rest g uri w set end
  whole_of g uri w same rest = subst (RestOf g uri w) same rest

module _ {W : Type 0} (host : Host) (service : Service W) where
  -- A whole page set, read from its first page in a world.
  pub record IsWhole (first : Text) (w : W) (set : PageSet) (end : W) : Type 0 where
    pub scope : Scope
    pub scoped : page_scope host first ≡ some scope
    pub pages : List Page
    pub read : Pages host service scope 0 none first w pages end
    pub items : set.items ≡ all_items pages
    pub totals : All (λ p. p.info.total ≡ length set.items) pages
    pub bytes : sum_by page_bytes pages ≤ page_set_bytes

  page_set-scopeless :
      (identity : Text) (first : Reference) (w : W)
      → page_scope host first.uri ≡ none
      → page_set host service identity first w ≡ some (err invalid_response, w)
  unfolding page_set
  page_set-scopeless identity first w e = rw (e, page_set) refl

  page_set-scoped :
      (identity : Text) (first : Reference) (w : W) (scope : Scope)
      → page_scope host first.uri ≡ some scope
      → page_set host service identity first w
        ≡ page_loop host service page_rounds scope identity first nothing_gathered w
  unfolding page_set
  page_set-scoped identity first w scope e = rw (e, page_set) refl

  -- A page set that is given is whole: its items are those of its pages in order, which were read one
  -- after another in the scope of the first, numbered from 0, at most 256 items each, each repeating the
  -- identity, revision, expiry and total of the one before it and read before that expiry by an open
  -- session with its binding live; the total is the number of items, and the pages have at most 64 MiB.
  pub page_set-IsWhole :
      (identity : Text) (first : Reference) (w : W) (set : PageSet) (end : W)
      → page_set host service identity first w ≡ some (ok set, end)
      → IsWhole first.uri w set end
  unfolding page_set
  page_set-IsWhole identity first w set end h = elim (Option-cases (page_scope host first.uri)) [
    | inl e ↦ cc (h, page_set-scopeless identity first w e)
    | inr (scope, e) ↦
        let rest =
          whole_of host service scope nothing_gathered first.uri w
            (sym (page_set-scoped identity first w scope e) ∙ h)
            (page_loop-Rest host service scope page_rounds identity first nothing_gathered w) in
        record {
          scope = scope;
          scoped = e;
          pages = rest.pages;
          read = rest.read;
          items = rest.items;
          totals = rest.totals;
          bytes = omega (arith, rest.bytes);
        }
  ]
