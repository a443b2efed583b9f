-- ===== src/Reducer/Lifecycle/Recoveries.antt =====
-- The life cycle under the recovery and dispatch events.
use agent_cat.Base.{◌≡◌, arith, ok}
use agent_cat.Base.Value.{Members}
use agent_cat.Reducer.State.{Platform, Occurrence}
use agent_cat.Reducer.Recovery.{await_recovery, choose_recovery, retry_occurrence}
use agent_cat.Reducer.Dispatches.{open_dispatch, redirect}
use agent_cat.Reducer.Lifecycle.{Change}

pub await_recovery-Change :
    (e : Members) (o o' : Occurrence) → await_recovery e o ≡ ok o' → Change o o'
unfolding await_recovery
await_recovery-Change e o o' h = ground arith

pub choose_recovery-Change :
    (p : Platform) (e : Members) (o o' : Occurrence) → choose_recovery p e o ≡ ok o' → Change o o'
unfolding choose_recovery
choose_recovery-Change p e o o' h = ground arith

pub retry_occurrence-Change :
    (p : Platform) (e : Members) (o o' : Occurrence) → retry_occurrence p e o ≡ ok o' → Change o o'
unfolding retry_occurrence
retry_occurrence-Change p e o o' h = ground arith

pub open_dispatch-Change :
    (e : Members) (o o' : Occurrence) → open_dispatch e o ≡ ok o' → Change o o'
unfolding open_dispatch
open_dispatch-Change e o o' h = ground arith

pub redirect-Change :
    (p : Platform) (e : Members) (o o' : Occurrence) → redirect p e o ≡ ok o' → Change o o'
unfolding redirect
redirect-Change p e o o' h = ground arith
