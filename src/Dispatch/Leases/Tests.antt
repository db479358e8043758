-- ===== src/Dispatch/Leases/Tests.antt =====
-- The theorems on leases at one dispatch and two servers.
use vagabond.Dispatch.Leases.Kept.{Holds, Timely, Timely-Holds}
use vagabond.Base.Assoc.{lookup}
use vagabond.Base.{◌∷◌, [], false, arith, ◌+◌, refl}
use vagabond.Stores.Executions.{DispatchRecord, DispatchState}
use vagabond.Dispatch.Leases.{Shared, elapsed, renewal, lease_ttl, lease_renew}

abbrev dispatch : DispatchRecord
dispatch = record {
  id = 7;
  namespace = "team";
  job = "ci";
  job_version = 1;
  tasks = 1;
  state = DispatchState.dispatch_running;
  reason = "";
  owner = "server:a";
  lease_until = lease_ttl;
  created = 0;
  ended = 0;
}

abbrev first_state : Shared
first_state = record {
  store = record { dispatches = (7, dispatch) ∷ []; records = [] };
  now = 0;
  lost = false;
}

start-Holds : Holds "server:a" 7 first_state
unfolding lookup
start-Holds = record {
  dispatch = dispatch;
  stored = refl;
  going = refl;
  owned = refl;
  current = omega arith;
  kept = refl;
}

-- Two renewals that fail are two that are left out: the third is in time.
abbrev third_tick : Shared
third_tick = elapsed lease_renew (elapsed lease_renew (elapsed lease_renew first_state))

third_tick-Timely : Timely "server:a" 7 lease_ttl first_state third_tick
unfolding lookup
third_tick-Timely =
    Timely.waiting lease_renew
      (Timely.waiting lease_renew
        (Timely.waiting lease_renew Timely.here (λ d h. ground (arith, h)))
        (λ d h. ground (arith, h)))
      (λ d h. ground (arith, h))

Timely-Holds_example : Holds "server:a" 7 (renewal 7 "server:a" lease_ttl third_tick)
Timely-Holds_example = Timely-Holds start-Holds (Timely.renewing third_tick-Timely)

abbrev lapsed : Shared
lapsed = record {
  store = record { dispatches = (7, record dispatch { owner = "server:b" }) ∷ []; records = [] };
  now = lease_ttl + 1;
  lost = false;
}

abbrev ending : DispatchRecord
ending = record dispatch { state = DispatchState.dispatch_succeeded }
