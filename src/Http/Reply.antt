-- ===== src/Http/Reply.antt =====
-- How a controller's handler ends: `res.status(…)` with a body, or `next(error)` with the status that
-- the handler has put on the error.
use osm_sync_tracker.Prelude.{Option, none}
use osm_sync_tracker.Common.Errors.{Error}
use osm_sync_tracker.Common.Action.{Action, ok, err}

pub data StatusCode : Type 0 where
  ok_200 created_201 not_found_404 conflict_409 : StatusCode

-- The text handlers send the text of the status.
pub data Reply (A : Type 0) : Type 0 where
  sent : StatusCode → A → Reply A
  next : Error → Option StatusCode → Reply A

module _ {S A : Type 0} where
  -- `try { … return res.status(code) … } catch (error) { … return next(error) }`
  abbrev pub respond : (A → StatusCode) → (Error → Option StatusCode) → Action S A → S → Reply A × S
  respond code status_of m s =
      let (r, s') = m s in
      elim r [ ok a ↦ (sent (code a) a, s') | err e ↦ (next e (status_of e), s') ]

abbrev pub no_status : Error → Option StatusCode
no_status e = none
