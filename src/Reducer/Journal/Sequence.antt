-- ===== src/Reducer/Journal/Sequence.antt =====
-- The sequence numbers of a journal.
use agent_cat.Base.{
  ℕ, ◌+◌, ◌≤◌, ◌≡◌, ap, subst, ◌∙◌, ◌≢◌, Bool, true, false, List, [], ◌∷◌, Option, none, some,
  big_int, length, arith, ok, >>=-eq-ok,
}
use agent_cat.Reducer.State.{Platform, RunStatus, RunSnapshot, RuntimeEvent}
use agent_cat.Reducer.Fields.{max_word64}
use agent_cat.Base.Value.{Members}
use agent_cat.Reducer.Runs.{complete_run, fail_run, cancel_run}
use agent_cat.Reducer.Apply.{
  EventKind, run_completed, run_failed, run_cancelled, event_kind, available, run_change, apply,
  reduce_event, reduce_all,
}
use agent_cat.Reducer.Envelope.{expected_sequence, is_terminal, differs}
use agent_cat.Reducer.Accepted.{reduce_event-Accepted}
use agent_cat.Reducer.Journal.Frame.{apply-Frame, can_move}

-- The envelopes carry the sequence numbers from `n` on, without a gap, all below 2^64.
abbrev pub Numbered : ℕ → List RuntimeEvent → Type 0
Numbered n [] = Unit
Numbered n (envelope ∷ rest) =
    (big_int envelope.sequence ≡ n) × (n ≤ max_word64) × Numbered (n + 1) rest

-- An accepted envelope advances the last sequence number by one, keeps the run's identity, and moves
-- a run that has not ended.
pub record Advance (p : Platform) (s s' : RunSnapshot) (envelope : RuntimeEvent) : Type 0 where
  pub number : big_int envelope.sequence ≡ expected_sequence s.last_sequence
  pub within : big_int envelope.sequence ≤ max_word64
  pub last : s'.last_sequence ≡ some (expected_sequence s.last_sequence)
  pub run_id : s'.run_id ≡ s.run_id
  pub named : envelope.run_id ≡ s.run_id
  pub live : is_terminal s.status ≡ false
  pub status : can_move s.status s'.status ≡ true
  pub version_kept : (v : ℕ) → s.protocol_version ≡ some v → s'.protocol_version ≡ some v
  pub digest : s'.event_digests ≡ (envelope.sequence, p.digest envelope) ∷ []

version_of_differs : (o : Option ℕ) (v w : ℕ) → differs o w ≡ false → o ≡ some v → w ≡ v
version_of_differs none v w d e = cc
version_of_differs (some u) v w d e = ground arith

pub reduce_event-Advance :
    (p : Platform) (s s' : RunSnapshot) (envelope : RuntimeEvent)
    → reduce_event p s envelope ≡ ok s'
    → Advance p s s' envelope
reduce_event-Advance p s s' envelope h =
    let a = reduce_event-Accepted p s s' envelope h in
    let f = apply-Frame p a.version _ envelope.event _ s' a.applied in
    record {
      number = a.next;
      within = a.within;
      last = f.last_sequence ∙ ap some a.next;
      run_id = f.run_id;
      named = a.same_run;
      live = a.live;
      status = f.status a.live;
      version_kept = λ v e.
          f.protocol_version
          ∙ ap some (version_of_differs s.protocol_version v a.version a.same_version e);
      digest = f.event_digests;
    }

-- The journal that the reducer accepts from a snapshot is numbered from the snapshot's next sequence
-- number on, and the last number that it records counts the envelopes.
pub reduce_all-Numbered :
    (p : Platform) (s s' : RunSnapshot) (journal : List RuntimeEvent)
    → reduce_all p s journal ≡ ok s'
    → Numbered (expected_sequence s.last_sequence) journal
      × (expected_sequence s'.last_sequence ≡ expected_sequence s.last_sequence + length journal)
      × (s'.run_id ≡ s.run_id)
unfolding reduce_all
reduce_all-Numbered p s s' [] h = (tt, ground arith, ground arith)
reduce_all-Numbered p s s' (envelope ∷ rest) h =
    let (t, first, h₁) = >>=-eq-ok (reduce_event p s envelope) _ h in
    let a = reduce_event-Advance p s t envelope first in
    let (numbered, count, run) = reduce_all-Numbered p t s' rest h₁ in
    let next : expected_sequence t.last_sequence ≡ expected_sequence s.last_sequence + 1 =
      ap expected_sequence a.last in
    (
      (a.number, omega (arith, a.number, a.within), subst (λ n. Numbered n rest) next numbered),
      omega arith,
      run ∙ a.run_id,
    )

-- The events that end a run.
abbrev pub IsLast : EventKind → Type 0
IsLast run_completed = Unit
IsLast run_failed = Unit
IsLast run_cancelled = Unit
IsLast _ = ⊥

apply-ended :
    (p : Platform) (version : ℕ) (k : EventKind) (e : Members) (s s' : RunSnapshot)
    → IsLast k
    → apply p version k e s ≡ ok s'
    → is_terminal s'.status ≡ true
unfolding apply run_change complete_run fail_run cancel_run available
apply-ended p version run_completed e s s' last h = ground arith
apply-ended p version run_failed e s s' last h = ground arith
apply-ended p version run_cancelled e s s' last h = ground arith
apply-ended p version _ e s s' last h = absurd last

-- After an accepted event that completes, fails or cancels the run, no envelope is accepted.
pub reduce_event-last :
    (p : Platform) (s t u : RunSnapshot) (last envelope : RuntimeEvent)
    → IsLast (event_kind last.event_type)
    → reduce_event p s last ≡ ok t
    → reduce_event p t envelope ≢ ok u
reduce_event-last p s t u last envelope is_last h next =
    let a = reduce_event-Accepted p s t last h in
    let ended =
      apply-ended p a.version (event_kind last.event_type) last.event _ t is_last a.applied in
    let live = (reduce_event-Advance p t u envelope next).live in cc

-- An envelope that was accepted is refused ever after, whatever came between.
pub reduce_event_once :
    (p : Platform) (s t u v : RunSnapshot) (envelope : RuntimeEvent) (between : List RuntimeEvent)
    → reduce_event p s envelope ≡ ok t
    → reduce_all p t between ≡ ok u
    → reduce_event p u envelope ≢ ok v
reduce_event_once p s t u v envelope between first later again =
    let a = reduce_event-Advance p s t envelope first in
    let b = reduce_event-Advance p u v envelope again in
    let (_, count, _) = reduce_all-Numbered p t u between later in
    let next : expected_sequence t.last_sequence ≡ expected_sequence s.last_sequence + 1 =
      ap expected_sequence a.last in
    absurd (omega (arith, a.number, b.number))

stays_unsuccessful : RunStatus → Bool
stays_unsuccessful RunStatus.cancelling = true
stays_unsuccessful RunStatus.failed = true
stays_unsuccessful RunStatus.cancelled = true
stays_unsuccessful _ = false

unsuccessful_move :
    (a b : RunStatus)
    → can_move a b ≡ true
    → stays_unsuccessful a ≡ true
    → stays_unsuccessful b ≡ true
unfolding stays_unsuccessful
unsuccessful_move RunStatus.cancelling b c h = ground arith
unsuccessful_move RunStatus.failed b c h = cc
unsuccessful_move RunStatus.cancelled b c h = cc
unsuccessful_move _ b c h = cc

reduce_all-unsuccessful :
    (p : Platform) (s s' : RunSnapshot) (journal : List RuntimeEvent)
    → reduce_all p s journal ≡ ok s'
    → stays_unsuccessful s.status ≡ true
    → stays_unsuccessful s'.status ≡ true
unfolding reduce_all
reduce_all-unsuccessful p s s' [] h u = ground arith
reduce_all-unsuccessful p s s' (envelope ∷ rest) h u =
    let (t, first, h₁) = >>=-eq-ok (reduce_event p s envelope) _ h in
    let a = reduce_event-Advance p s t envelope first in
    reduce_all-unsuccessful p t s' rest h₁ (unsuccessful_move s.status t.status a.status u)

-- A run that is being cancelled never succeeds, whatever its journal goes on with.
pub reduce_all-cancelling :
    (p : Platform) (s s' : RunSnapshot) (journal : List RuntimeEvent)
    → reduce_all p s journal ≡ ok s'
    → s.status ≡ RunStatus.cancelling
    → s'.status ≢ RunStatus.succeeded
unfolding stays_unsuccessful
reduce_all-cancelling p s s' journal h cancelling succeeded =
    let u = reduce_all-unsuccessful p s s' journal h (ap stays_unsuccessful cancelling) in
    ground arith
