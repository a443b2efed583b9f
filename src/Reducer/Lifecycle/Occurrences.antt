-- ===== src/Reducer/Lifecycle/Occurrences.antt =====
-- The life cycle under the events that reuse, complete and fail an occurrence.
use agent_cat.Base.{◌≡◌, arith, ok}
use agent_cat.Base.Value.{Members}
use agent_cat.Reducer.State.{Occurrence}
use agent_cat.Reducer.Occurrences.{reuse, await_person, complete, fail}
use agent_cat.Reducer.Lifecycle.{Change}

pub reuse-Change : (e : Members) (o o' : Occurrence) → reuse e o ≡ ok o' → Change o o'
unfolding reuse
reuse-Change e o o' h = ground arith

pub await_person-Change : (e : Members) (o o' : Occurrence) → await_person e o ≡ ok o' → Change o o'
unfolding await_person
await_person-Change e o o' h = ground arith

pub complete-Change : (e : Members) (o o' : Occurrence) → complete e o ≡ ok o' → Change o o'
unfolding complete
complete-Change e o o' h = ground arith

pub fail-Change : (e : Members) (o o' : Occurrence) → fail e o ≡ ok o' → Change o o'
unfolding fail
fail-Change e o o' h = ground arith
