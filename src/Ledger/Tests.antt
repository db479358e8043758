-- ===== src/Ledger/Tests.antt =====
-- The ledger theorems at concrete accounts.

use vagabond.Ledger.Account.Agreement.{Countable, TrulyOf, refusal-TrulyOf}
use vagabond.Ledger.Account.Store.{account_reserve, memory_store}
use vagabond.Ledger.Memory.Reaping.{reaps_id, reap_count, reap_lem}
use vagabond.Base.Calendar.{format_day, format_month, date, date_of_days, month_day, month_lengths}
use vagabond.Quota.Limits.Compile.{Fresh}
use vagabond.Ledger.Memory.Settling.{settle-WithinCaps, settled_at, settle_lem}
use vagabond.Ledger.Memory.Caps.{WithinCaps, reserve-WithinCaps, two62}
use vagabond.Quota.Meter.{Execution, charge, Meter, period_key, Period}
use vagabond.Base.{
  Time, ◌∷◌, [], ℕ, ◌≡◌, ◌<◌, Option, arith, ◌+◌, refl, some, if◌then◌else◌, false, true, none,
  pad2, pad4, itoa, decimal, All, String, Result, Bool,
}
use vagabond.Ledger.Account.{
  share_of, total_of, Budgets, reservation, pool_key, charges, charges_of, Refusal, refusal,
  total_namespace, ReserveError,
}
use vagabond.Quota.Limits.{Pool, deltas, deltas_from, add_delta}
use vagabond.Base.Assoc.{lookup, Map, insert}
use vagabond.Ledger.Memory.Standing.{total_at, charged}
use vagabond.Ledger.Memory.{
  Usage, fits, reserve, Key, Held, Memory, settle, Charge, id_key, standing, PoolRef, charge_key,
  Reservation, add_held, reap, add_charges, add_usage, reserved, key_eq_iff,
}

abbrev compute_charge : Charge
compute_charge = record {
  namespace = "";
  pool = "compute";
  period = "2024-02";
  amount = 40;
  limit = 100;
}

abbrev share_charge : Charge
share_charge = record {
  namespace = "team";
  pool = "compute";
  period = "2024-02";
  amount = 40;
  limit = 100;
}

abbrev reservation_of : ℕ → Time → Reservation
reservation_of id created = record {
  id = id;
  provider = "lambda";
  cpu = 1000;
  memory = 512;
  created = created;
  charges = compute_charge ∷ share_charge ∷ [];
}

abbrev one_held : Memory
one_held = record { used = []; held = (7, reservation_of 7 100) ∷ [] }

abbrev caps : Key → ℕ
caps k = 100

abbrev ran : Map PoolRef ℕ
ran = (record { namespace = ""; pool = "compute" }, 25) ∷ []

one_held-WithinCaps : WithinCaps caps one_held
unfolding lookup
one_held-WithinCaps k = ground (
  arith,
  key_eq_iff (charge_key "lambda" compute_charge) k,
  key_eq_iff (charge_key "lambda" share_charge) k,
)

caps_small : (k : Key) → caps k < two62
caps_small k = omega arith

-- The second reservation fits, a third would not.
second_fits : (reserve one_held (reservation_of 8 200)).1 ≡ true
unfolding lookup insert reserve fits standing add_held add_charges add_usage
second_fits = refl

third_refused :
    (reserve (reserve one_held (reservation_of 8 200)).0 (reservation_of 9 300)).1 ≡ false
unfolding lookup insert reserve fits standing add_held add_charges add_usage
third_refused = refl

reserve-WithinCaps_example : WithinCaps caps (reserve one_held (reservation_of 8 200)).0
unfolding lookup
reserve-WithinCaps_example =
    reserve-WithinCaps one_held (reservation_of 8 200) caps caps_small refl
      ((refl, omega arith), ((refl, omega arith), tt)) ((refl, tt), (tt, tt)) one_held-WithinCaps

settle_lem_example :
    (total_at (settle one_held 7 ran) (charge_key "lambda" compute_charge)
        + charged "lambda" (compute_charge ∷ share_charge ∷ []) (charge_key "lambda" compute_charge)
      ≡ total_at one_held (charge_key "lambda" compute_charge)
        + settled_at ran "lambda"
            (compute_charge ∷ share_charge ∷ [])
            (charge_key "lambda" compute_charge))
    × (reserved (settle one_held 7 ran) 7 ≡ false)
unfolding lookup
settle_lem_example =
    settle_lem one_held 7 (reservation_of 7 100) ran (charge_key "lambda" compute_charge) (refl, tt)
      refl (omega arith)

settle-WithinCaps_example : WithinCaps caps (settle one_held 7 ran)
unfolding lookup
settle-WithinCaps_example =
    settle-WithinCaps one_held 7 (reservation_of 7 100) ran caps caps_small (refl, tt) refl
      (omega arith, (omega arith, tt)) one_held-WithinCaps

abbrev accept_all : Held → Option (Map PoolRef ℕ)
accept_all h = some h.amounts

reap_lem_example :
    (lookup id_key 7 (reap one_held 150 accept_all).0.held
      ≡ (if reaps_id 150 accept_all 7 one_held.held then none else lookup id_key 7 one_held.held))
    × ((reap one_held 150 accept_all).1 ≡ reap_count 150 accept_all one_held.held)
unfolding lookup
reap_lem_example = reap_lem one_held 150 accept_all 7 (refl, tt)

abbrev day : Time
day = 63844761600000000000

abbrev daily_runs : Pool
daily_runs = record { name = "runs"; meter = Meter.executions; period = Period.daily; limit = 2 }

abbrev shared_runs : Pool
shared_runs = record { name = "runs"; meter = Meter.executions; period = Period.daily; limit = 1 }

abbrev test_budgets : Budgets
test_budgets = record {
  totals = ("lambda", daily_runs ∷ []) ∷ [];
  namespaces = ("team", ("lambda", shared_runs ∷ []) ∷ []) ∷ [];
}

abbrev task : Execution
task = record { cpu = 1000; memory = 512; duration = 1000000000 }

-- One run of the team's was charged today.
abbrev spent : Usage
spent =
    (pool_key "" "lambda" day daily_runs, 1) ∷ (pool_key "team" "lambda" day shared_runs, 1) ∷ []

abbrev spent_memory : Memory
spent_memory = record { used = spent; held = [] }

total_Fresh : Fresh [] (total_of test_budgets "lambda")
unfolding lookup total_of
total_Fresh = (refl, tt)

share_Fresh : Fresh [] (share_of test_budgets "team" "lambda")
unfolding lookup share_of
share_Fresh = (refl, tt)

total_Countable :
    All (Countable spent total_namespace "lambda" day task) (total_of test_budgets "lambda")
unfolding lookup total_of charge period_key format_day format_month date date_of_days month_day
    month_lengths pad2 pad4 itoa decimal
total_Countable = ((omega arith, omega arith), tt)

share_Countable :
    All (Countable spent "team" "lambda" day task) (share_of test_budgets "team" "lambda")
unfolding lookup share_of charge period_key format_day format_month date date_of_days month_day
    month_lengths pad2 pad4 itoa decimal
share_Countable = ((omega arith, omega arith), tt)

share_unfit :
    fits spent "lambda" (reservation test_budgets day 9 "team" "lambda" task false).charges ≡ false
unfolding lookup insert fits reservation charges charges_of total_of share_of deltas deltas_from
    add_delta charge period_key format_day format_month date date_of_days month_day month_lengths
    pad2 pad4 itoa decimal
share_unfit = refl

refusal-TrulyOf_example :
    (x : Refusal) × (refusal {E = String} test_budgets "team" "lambda" spent task day
      ≡ ReserveError.refused x)
    × TrulyOf test_budgets day "team" "lambda" task spent x
refusal-TrulyOf_example =
    refusal-TrulyOf test_budgets day 9 "team" "lambda" task spent total_Fresh share_Fresh
      total_Countable share_Countable share_unfit

abbrev test_told : Result String (Bool × Usage)
test_told =
    ((memory_store {E = String}).reserve spent_memory
      (reservation test_budgets day 9 "team" "lambda" task false)).1

abbrev test_answer : Option (ReserveError String)
test_answer =
    (account_reserve (memory_store {E = String}) test_budgets spent_memory day 9 "team" "lambda"
      task false).1
