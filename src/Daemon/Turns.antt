-- ===== src/Daemon/Turns.antt =====
-- src/daemon.rs, `serve`: what holds of the daemon through every request and every round of its loop.
use xlurm.Base.{
  ℕ, zero, suc, ◌≡◌, refl, Bool, Option, List, [], ◌∷◌, nat_eq, option_eq, Text, text_eq, take,
  int_eq,
}
use xlurm.Model.{kind_eq, state_eq}
use xlurm.Model.Errors.{Error}
use xlurm.Model.Wire.{Request}
use xlurm.Scheduler.Machine.{Host, Scheduler}
use xlurm.Scheduler.Exclusive.{Inv}
use xlurm.Scheduler.Exclusive.Ticks.{Inv-world, tick-Inv}
use xlurm.Scheduler.Exclusive.Steps.{cancel-Inv, set_devices_excluded-Inv}
use xlurm.Scheduler.Submit.Effect.{submit-Inv}
use xlurm.Scheduler.Cleanup.Retained.{cleanup-Inv}
use xlurm.Daemon.{
  handle, serve_clients, turn, Platform, Health, Arrival, client, turned_away, accept_failed,
}
use xlurm.Daemon.Kept.{handle-Kept, turn-Kept, KeptBy}

module _ {W : Type 0} (host : Host W) (platform : Platform W) where
  module _ (describe : Error → Text) where
    pub Inv-KeptBy : KeptBy host platform describe Inv
    Inv-KeptBy = record {
      moved = λ s w v. Inv-world s w v;
      refreshed = λ health s v. record {
        inventory_keyed = v.inventory_keyed;
        exclusive = v.exclusive;
        numbered = v.numbered;
        distinct_ids = v.distinct_ids;
      };
      submitted = λ spec owner. submit-Inv host spec owner;
      cancelled = λ id. cancel-Inv host id;
      excluded = λ ids b. set_devices_excluded-Inv ids b;
      ticked = tick-Inv host describe;
      cleaned = λ time. cleanup-Inv host time;
    }

  -- Every request, by whomever and with whatever result, keeps the invariant of the queue.
  pub handle-Inv :
      (uid gid : ℕ) (request : Request) (s : Scheduler W)
      → Inv s
      → Inv (handle host platform uid gid request s).1
  handle-Inv uid gid request =
      handle-Kept host platform (λ e. []) Inv (Inv-KeptBy (λ e. [])) uid gid request

  module _ (describe : Error → Text) where
    serve_clients-take :
        (n : ℕ) (arrivals : List Arrival) (s : Scheduler W)
        → serve_clients host platform describe n (take n arrivals) s
          ≡ serve_clients host platform describe n arrivals s
    unfolding serve_clients
    serve_clients-take zero arrivals s = refl
    serve_clients-take (suc n) [] s = refl
    serve_clients-take (suc n) (accept_failed e ∷ arrivals) s = refl
    serve_clients-take (suc n) (turned_away ∷ arrivals) s = serve_clients-take n arrivals s
    serve_clients-take (suc n) (client uid gid request ∷ arrivals) s =
        rw (serve_clients-take n arrivals (handle host platform uid gid request s).1) refl

    -- A round of the daemon's loop keeps the invariant of the queue: whatever the clients ask, whatever a
    -- refresh finds, and at whatever point an error ends the round.
    pub turn-Inv :
        (arrivals : List Arrival) (health : Option Health) (clean : Bool) (s : Scheduler W)
        → Inv s
        → Inv (turn host platform describe arrivals health clean s).1
    turn-Inv arrivals health clean s v =
        turn-Kept host platform describe Inv (Inv-KeptBy describe) arrivals health clean s v

    -- However many clients are waiting, a round serves the first sixteen at most.
    pub turn-bounded :
        (arrivals : List Arrival) (health : Option Health) (clean : Bool) (s : Scheduler W)
        → turn host platform describe arrivals health clean s
          ≡ turn host platform describe (take 16 arrivals) health clean s
    unfolding turn
    turn-bounded arrivals health clean s = rw (serve_clients-take 16 arrivals s) refl
