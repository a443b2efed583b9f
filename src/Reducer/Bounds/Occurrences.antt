-- ===== src/Reducer/Bounds/Occurrences.antt =====
-- The limits under the other occurrence events.
use agent_cat.Base.{ℕ, ◌≡◌, List, [], ◌∷◌, Text, length, length-append, arith, ok, >>=-eq-ok}
use agent_cat.Base.Value.{Value, Members}
use agent_cat.Reducer.State.{Platform, Offer, Occurrence}
use agent_cat.Reducer.Recovery.{
  offer_of, offers_of, await_recovery, choose_recovery, retry_occurrence,
}
use agent_cat.Reducer.Dispatches.{open_dispatch, redirect}
use agent_cat.Reducer.Occurrences.{new_occurrence, reuse, await_person, complete, fail}
use agent_cat.Reducer.Bounds.{OccurrenceBounds, Growth}

module _ (n m : ℕ) where
  pub reuse-Growth : (e : Members) (o o' : Occurrence) → reuse e o ≡ ok o' → Growth n m o o'
  unfolding reuse
  reuse-Growth e o o' h = ground arith

  pub await_person-Growth :
      (e : Members) (o o' : Occurrence) → await_person e o ≡ ok o' → Growth n m o o'
  unfolding await_person
  await_person-Growth e o o' h = ground arith

  pub complete-Growth : (e : Members) (o o' : Occurrence) → complete e o ≡ ok o' → Growth n m o o'
  unfolding complete
  complete-Growth e o o' h = ground arith

  pub fail-Growth : (e : Members) (o o' : Occurrence) → fail e o ≡ ok o' → Growth n m o o'
  unfolding fail
  fail-Growth e o o' h = ground arith

  length-offers_of :
      (vs : List Value) (os : List Offer) → offers_of vs ≡ ok os → length os ≡ length vs
  unfolding offers_of
  length-offers_of [] os h = ground arith
  length-offers_of (v ∷ vs) os h =
      let (i, _, h₁) = >>=-eq-ok (offer_of v) _ h in
      let (rest, e, h₂) = >>=-eq-ok (offers_of vs) _ h₁ in
      ground (arith, length-offers_of vs rest e)

  pub await_recovery-Growth :
      (e : Members) (o o' : Occurrence) → await_recovery e o ≡ ok o' → Growth n m o o'
  unfolding await_recovery
  await_recovery-Growth e o o' h = grind (arith, length-offers_of)

  pub choose_recovery-Growth :
      (p : Platform) (e : Members) (o o' : Occurrence)
      → choose_recovery p e o ≡ ok o'
      → Growth n m o o'
  unfolding choose_recovery
  choose_recovery-Growth p e o o' h = ground arith

  pub retry_occurrence-Growth :
      (p : Platform) (e : Members) (o o' : Occurrence)
      → retry_occurrence p e o ≡ ok o'
      → Growth n m o o'
  unfolding retry_occurrence
  retry_occurrence-Growth p e o o' h = grind (arith, length-append)

  pub open_dispatch-Growth :
      (e : Members) (o o' : Occurrence) → open_dispatch e o ≡ ok o' → Growth n m o o'
  unfolding open_dispatch
  open_dispatch-Growth e o o' h = ground arith

  pub redirect-Growth :
      (p : Platform) (e : Members) (o o' : Occurrence) → redirect p e o ≡ ok o' → Growth n m o o'
  unfolding redirect
  redirect-Growth p e o o' h = ground arith

pub new_occurrence-OccurrenceBounds :
    (id : Text) (e : Members) (o : Occurrence) → new_occurrence id e ≡ ok o → OccurrenceBounds o
unfolding new_occurrence
new_occurrence-OccurrenceBounds id e o h = ground arith
