-- ===== src/Session/Switched.antt =====
-- What an endpoint switch of ext-pi/src/manager/session.ts leaves of the reads before it.
use agent_cat.Session.Live.{Live}
