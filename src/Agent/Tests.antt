-- ===== src/Agent/Tests.antt =====
-- The theorem on the agent at a node with room for one of two workloads.
use vagabond.Base.Assoc.{insert, lookup}
use vagabond.Agent.Steps.{Reach-Inv}
use vagabond.Base.{[], arith, ◌≡◌, refl}
use vagabond.Agent.{
  Agent, WorkloadSize, try_claim, fits_room, start, release_claim, held_load, reserved_load, Claim,
}
use vagabond.Agent.Fits.{Inv, Reach, Step}

abbrev size : WorkloadSize
size = record { cpu = 600; memory = 512 }

abbrev empty_node : Agent
empty_node = record { capacity = record { cpu = 1000; memory = 1024 }; reserved = []; held = [] }

abbrev in_use : Agent
in_use = start (try_claim empty_node "a" size).0 "a" size

second_refused : (try_claim in_use "b" size).1 ≡ Claim.no_room
unfolding try_claim fits_room held_load reserved_load start insert lookup
second_refused = refl

-- It is in flight until its submission has returned.
first_busy : (try_claim in_use "a" size).1 ≡ Claim.in_flight
unfolding try_claim fits_room held_load reserved_load start insert lookup
first_busy = refl

empty_node-Inv : Inv empty_node
empty_node-Inv = record {
  cpu_fits = omega arith;
  memory_fits = omega arith;
  small = omega arith;
  distinct = tt;
  sized = tt;
}

history : Reach empty_node (release_claim in_use "a")
unfolding try_claim fits_room held_load reserved_load insert lookup
history =
    Reach.next
      (Reach.next (Reach.next Reach.here (Step.claims empty_node "a" size tt (omega arith)))
        (Step.starts (try_claim empty_node "a" size).0 "a" size refl))
      (Step.releases in_use "a")

Reach-Inv_example : Inv (release_claim in_use "a")
Reach-Inv_example = Reach-Inv empty_node-Inv history
