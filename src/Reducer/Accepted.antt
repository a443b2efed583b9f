-- ===== src/Reducer/Accepted.antt =====
-- What an accepted envelope went through: the checks of `reduceEvent` and the two kinds of event.
use agent_cat.Base.{
  ℕ, ◌≤◌, ◌≡◌, sym, ◌∙◌, ◌⊎◌, inl, inr, false, not, is_decimal, big_int, text_eq, text_eq_sound,
  arith, Bool-cases, ok, refuse, required, >>=-eq-ok,
}
use agent_cat.Base.Dict.{get}
use agent_cat.Base.Value.{Members}
use agent_cat.Reducer.State.{Platform, RunSnapshot, RuntimeEvent}
use agent_cat.Reducer.State.{
  unsupported_protocol, protocol_changed, run_id_changed, bad_timestamp, bad_sequence,
}
use agent_cat.Reducer.Fields.{max_word64}
use agent_cat.Reducer.Apply.{
  EventKind, is_run_event, event_kind, available, run_change, on_occurrence, occurrence_change,
  apply, reduce_event,
}
use agent_cat.Reducer.Envelope.{
  expected_sequence, is_terminal, admit, stamped, differs, version_of, is_timestamp,
  check_duplicate,
}

pub apply-eq-ok :
    (p : Platform) (version : ℕ) (k : EventKind) (e : Members) (s s' : RunSnapshot)
    → apply p version k e s ≡ ok s'
    → (run_change p version e s k ≡ ok s')
      ⊎ (on_occurrence s e (occurrence_change p version e s k) ≡ ok s')
unfolding apply
apply-eq-ok p version k e s s' h =
    let (u, _, h₁) = >>=-eq-ok (available version k) _ h in
    elim (Bool-cases (is_run_event k)) [
      | inl run ↦ inl (ground arith)
      | inr other ↦ inr (ground arith)
    ]

-- The facts behind an accepted envelope: its sequence number is the next one, the run has not ended,
-- and its event was applied to the stamped copy.
pub record Accepted (p : Platform) (s s' : RunSnapshot) (envelope : RuntimeEvent) : Type 0 where
  pub version : ℕ
  pub next : big_int envelope.sequence ≡ expected_sequence s.last_sequence
  pub within : big_int envelope.sequence ≤ max_word64
  pub live : is_terminal s.status ≡ false
  pub same_version : differs s.protocol_version version ≡ false
  pub same_run : envelope.run_id ≡ s.run_id
  pub applied :
      apply p version
        (event_kind envelope.event_type)
        envelope.event
        (stamped p s envelope version (big_int envelope.sequence))
      ≡ ok s'

-- Each check of the envelope, from an accepted one.
admit-eq-ok :
    (p : Platform) (s : RunSnapshot) (envelope : RuntimeEvent) (version sequence : ℕ)
    → admit p s envelope ≡ ok (version, sequence)
    → (sequence ≡ big_int envelope.sequence)
      × (sequence ≡ expected_sequence s.last_sequence)
      × (sequence ≤ max_word64)
      × (is_terminal s.status ≡ false)
      × (envelope.run_id ≡ s.run_id)
      × (differs s.protocol_version version ≡ false)
unfolding admit
admit-eq-ok p s envelope version sequence h =
    let (v, _, h₁) =
      >>=-eq-ok (required (version_of envelope.protocol_version) unsupported_protocol) _ h in
    let (_, same_version, h₂) =
      >>=-eq-ok (refuse (differs s.protocol_version v) protocol_changed) _ h₁ in
    let (_, run, h₃) =
      >>=-eq-ok (refuse (not (text_eq envelope.run_id s.run_id)) run_id_changed) _ h₂ in
    let (_, _, h₄) =
      >>=-eq-ok (refuse (not (is_timestamp p envelope.timestamp)) bad_timestamp) _ h₃ in
    let (_, _, h₅) = >>=-eq-ok (refuse (not (is_decimal envelope.sequence)) bad_sequence) _ h₄ in
    let (_, _, h₆) =
      >>=-eq-ok (check_duplicate (get envelope.sequence s.event_digests) (p.digest envelope)) _
        h₅ in
    let same = text_eq_sound envelope.run_id s.run_id (ground arith) in
    (ground arith, ground arith, ground arith, ground arith, same, ground arith)

pub reduce_event-Accepted :
    (p : Platform) (s s' : RunSnapshot) (envelope : RuntimeEvent)
    → reduce_event p s envelope ≡ ok s'
    → Accepted p s s' envelope
unfolding reduce_event
reduce_event-Accepted p s s' envelope h =
    let (r, admitted, applied) = >>=-eq-ok (admit p s envelope) _ h in
    let (named, next, within, live, run, same_version) =
      admit-eq-ok p s envelope r.0 r.1 admitted in
    record {
      version = r.0;
      next = sym named ∙ next;
      within = omega arith;
      live = live;
      same_run = run;
      same_version = same_version;
      applied = rw (sym named) applied;
    }
