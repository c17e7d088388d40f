-- ===== src/Withdrawal/Flight.antt =====
-- The life of one solo flight.
use wyrtloom.Base.{◌≡◌, ◌⊎◌, arith, String, false}
use wyrtloom.Withdrawal.{
  SoloFlight, active, PracticeEvent, practice, ok, err, not_active, agent_withdrawn, complete,
  abort_flight,
}

-- What an ending of flight f by g, with event e, has to be.
pub record EndsOnce (f g : SoloFlight) (e : PracticeEvent) : Type 0 where
  pub was_active : f.state ≡ active
  pub same_flight : (g.actor ≡ f.actor) × (g.task ≡ f.task) × (g.index ≡ f.index)
  pub agent_back : agent_withdrawn g ≡ false
  pub no_completion : complete g ≡ err not_active
  pub no_abort : (r : String) → abort_flight g r ≡ err not_active
  pub is_practice : (e.kind ≡ practice) × (e.penalised ≡ false)
  pub event_flight : (e.actor ≡ f.actor) × (e.task ≡ f.task) × (e.index ≡ f.index)

-- A flight ends once: where completion or abort answered with an ended flight and an event, the flight
-- was active, it keeps its actor, task and index, the agent is back, neither ending is possible again,
-- and the event is a practice event of that flight, not penalised.
pub ending-EndsOnce :
    (f : SoloFlight) (r : String) {g : SoloFlight} {e : PracticeEvent}
    → (complete f ≡ ok (g, e)) ⊎ (abort_flight f r ≡ ok (g, e))
    → EndsOnce f g e
unfolding complete abort_flight
ending-EndsOnce f r h = ground arith
