-- ===== src/Ledger/Account/Snapshot/Tests.antt =====
-- The theorem on the snapshot at a provider that a run was charged to today.
use vagabond.Ledger.Account.Agreement.{Countable}
use vagabond.Ledger.Account.Snapshot.Periods.{Named}
use vagabond.Ledger.Account.Store.{account_reserve, memory_store}
use vagabond.Ledger.Account.Snapshot.Admitted.{fresh_snapshot, pool_usage-reserve}
use vagabond.Base.Calendar.{format_day, date, date_of_days, month_day, month_lengths, format_month}
use vagabond.Quota.Limits.Compile.{Fresh}
use vagabond.Base.Assoc.{lookup, insert}
use vagabond.Quota.Meter.{Execution, period_key, Meter, Period, charge}
use vagabond.Ledger.Account.{
  Budgets, total_of, pool_key, share_of, total_namespace, layer_usage, usage_of_from,
}
use vagabond.Ledger.Memory.{Memory, standing, add_held, read_usage, in_periods}
use vagabond.Quota.Limits.{Pool, exceeded}
use vagabond.Base.{
  Time, ◌∷◌, [], refl, sort, place, pad2, pad4, String, itoa, decimal, false, All, ◌≡◌, none, arith,
}
use vagabond.Ledger.Account.Snapshot.{
  UsageSnapshot, current_periods, add_shares, add_limits, add_periods, pool_usage, refresh_snapshot,
}

abbrev day : Time
day = 63844761600000000000

abbrev daily_runs : Pool
daily_runs = record { name = "runs"; meter = Meter.executions; period = Period.daily; limit = 2 }

abbrev compiled : Budgets
compiled = record {
  totals = ("lambda", daily_runs ∷ []) ∷ [];
  namespaces = ("team", ("lambda", daily_runs ∷ []) ∷ []) ∷ [];
}

abbrev task : Execution
task = record { cpu = 1000; memory = 512; duration = 1000000000 }

abbrev one_run : Memory
one_run = record {
  used =
      (pool_key "" "lambda" day daily_runs, 1) ∷ (pool_key "team" "lambda" day daily_runs, 1) ∷ [];
  held = [];
}

abbrev unread : UsageSnapshot
unread = record { usage = []; refreshed = 0 }

-- The day is read once, for both layers.
today : current_periods compiled day ≡ "2024-02-29" ∷ []
unfolding current_periods add_shares add_limits add_periods sort place period_key format_day
    format_month date date_of_days month_day month_lengths pad2 pad4 itoa decimal
today = refl

runs_Fresh : Fresh [] (daily_runs ∷ [])
runs_Fresh = (refl, tt)

runs_Named : Named day (daily_runs ∷ [])
unfolding period_key format_day format_month date date_of_days month_day month_lengths pad2 pad4
    itoa decimal
runs_Named = (refl, tt)

total_Countable :
    All (Countable (standing one_run) total_namespace "lambda" day task) (daily_runs ∷ [])
unfolding lookup standing add_held charge period_key format_day format_month date date_of_days
    month_day month_lengths pad2 pad4 itoa decimal
total_Countable = ((omega arith, omega arith), tt)

share_Countable : All (Countable (standing one_run) "team" "lambda" day task) (daily_runs ∷ [])
unfolding lookup standing add_held charge period_key format_day format_month date date_of_days
    month_day month_lengths pad2 pad4 itoa decimal
share_Countable = ((omega arith, omega arith), tt)

total_room :
    exceeded
      (total_of compiled "lambda")
      (pool_usage compiled (fresh_snapshot compiled one_run day day unread) day "team" "lambda").0
      task
    ≡ none
unfolding exceeded pool_usage refresh_snapshot layer_usage usage_of_from read_usage in_periods
    insert current_periods add_shares add_limits add_periods sort place total_of share_of lookup
    standing add_held charge period_key format_day format_month date date_of_days month_day
    month_lengths pad2 pad4 itoa decimal
total_room = refl

share_room :
    exceeded
      (share_of compiled "team" "lambda")
      (pool_usage compiled (fresh_snapshot compiled one_run day day unread) day "team" "lambda").1
      task
    ≡ none
unfolding exceeded pool_usage refresh_snapshot layer_usage usage_of_from read_usage in_periods
    insert current_periods add_shares add_limits add_periods sort place total_of share_of lookup
    standing add_held charge period_key format_day format_month date date_of_days month_day
    month_lengths pad2 pad4 itoa decimal
share_room = refl

pool_usage-reserve_example :
    (account_reserve
      (memory_store {E = String})
      compiled
      one_run
      day
      9
      "team"
      "lambda"
      task
      false).1
    ≡ none
unfolding lookup total_of share_of
pool_usage-reserve_example =
    pool_usage-reserve compiled one_run day day unread 9 "team" "lambda" task runs_Fresh runs_Fresh
      runs_Named runs_Named total_Countable share_Countable total_room share_room
