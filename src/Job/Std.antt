-- ===== src/Job/Std.antt =====
-- The parsers and printers of strconv, strings and time that the program calls, as an interface, and
-- internal/job/duration.go over it. The program reads their answers only; nothing is assumed of them.
use vagabond.Base.Int64.{is_neg}
use vagabond.Base.{String, Option, Bool, none, ℕ, false, some, List, if◌then◌else◌, true}

pub record Std : Type 1 where
  pub parse_duration : String → Option ℕ
  pub format_duration : ℕ → String
  pub parse_int : String → Option ℕ
  pub format_int : ℕ → String
  pub Float : Type 0
  pub parse_float : String → Option Float
  pub float_less : Float → Float → Bool
  pub trim_space : String → String
  pub split_commas : String → List String

-- `Duration.Std`: none for its errors.
unfoldable pub duration_std : Std → String → Option ℕ
duration_std std d = elim (std.parse_duration d) [
  | none ↦ none
  | some parsed ↦ if is_neg parsed then none else some parsed
]

-- `Duration.Valid`
unfoldable pub duration_valid : Std → String → Bool
duration_valid std d = elim (duration_std std d) [ none ↦ false | some _ ↦ true ]
