-- ===== src/Plugin/Attributes.antt =====
-- internal/plugin/attributes.go: the dotted names that constraints match on, and a snapshot's view.
use vagabond.Base.Int64.{slt}
use vagabond.Plugin.Capabilities.{Snapshot}
use vagabond.Job.Std.{Std}
use vagabond.Base.Assoc.{Map, insert}
use vagabond.Base.{
  String, [], Bool, List, ◌∷◌, Option, contains, if◌then◌else◌, is_empty, none, str_eq, ◌||◌, true,
  some, string_key,
}
use text.Mathlib.Text.{starts_with}
use Prim.Native.String.{◌++◌ as concat}
use mathlib.Core.Option.{map as map_option}

abbrev pub attr_prefix : String
attr_prefix = "provider."

abbrev pub attr_architecture : String
attr_architecture = "provider.architecture"

abbrev pub attr_drivers : String
attr_drivers = "provider.drivers"

abbrev pub attr_max_duration : String
attr_max_duration = "provider.max_duration"

abbrev pub attr_max_cpu : String
attr_max_cpu = "provider.max_cpu"

abbrev pub attr_max_memory : String
attr_max_memory = "provider.max_memory"

abbrev pub attr_internet_egress : String
attr_internet_egress = "provider.internet"

abbrev pub attr_private_network : String
attr_private_network = "provider.private_network"

abbrev pub attr_arbitrary_images : String
attr_arbitrary_images = "provider.arbitrary_images"

abbrev pub attr_estimated_cost : String
attr_estimated_cost = "provider.estimated_cost"

abbrev pub attr_free_quota_percent : String
attr_free_quota_percent = "provider.free_quota_percent"

abbrev pub attr_tier : String
attr_tier = "provider.tier"

abbrev pub meta_prefix : String
meta_prefix = "provider.meta."

abbrev pub node_label_prefix : String
node_label_prefix = "node.label."

abbrev pub set_valued_attributes : List String
set_valued_attributes = attr_architecture ∷ attr_drivers ∷ []

abbrev pub known_attributes : List String
known_attributes =
    attr_architecture ∷ attr_drivers ∷ attr_max_duration ∷ attr_max_cpu ∷ attr_max_memory
    ∷ attr_internet_egress ∷ attr_private_network ∷ attr_arbitrary_images ∷ attr_estimated_cost
    ∷ attr_free_quota_percent ∷ attr_tier ∷ []

-- strconv.FormatBool
abbrev pub format_bool : Bool → String
format_bool b = if b then "true" else "false"

-- strings.Join with a comma.
unfoldable pub join_commas : List String → String
join_commas [] = ""
join_commas (x ∷ []) = x
join_commas (x ∷ y ∷ xs) = concat x (concat "," (join_commas (y ∷ xs)))

abbrev pub Attributes : Type 0
Attributes = Map String String

-- attrs[name] = value where a value is there to publish.
abbrev pub publish : String → Option String → Attributes → Attributes
publish name value attrs = elim value [ none ↦ attrs | some v ↦ insert string_key name v attrs ]

abbrev pub joined : List String → Option String
joined names = if is_empty names then none else some (join_commas names)

-- `Capabilities.Attributes`
unfoldable pub capability_attributes : Std → Snapshot → Attributes
capability_attributes std c =
    let fixed =
      (attr_internet_egress, format_bool c.internet_egress)
      ∷ (attr_private_network, format_bool c.private_network)
      ∷ (attr_arbitrary_images, format_bool c.arbitrary_images)
      ∷ (attr_estimated_cost, std.format_int c.estimated_cost)
      ∷ [] in
    let arches = publish attr_architecture (joined c.architectures) fixed in
    let drivers = publish attr_drivers (joined c.drivers) arches in
    let durations =
      publish attr_max_duration
        (if slt 0 c.max_duration then some (std.format_duration c.max_duration) else none)
        drivers in
    let cpus = publish attr_max_cpu (map_option std.format_int c.max_resources.cpu) durations in
    publish attr_max_memory (map_option std.format_int c.max_resources.memory) cpus

-- `SetValued`, `Reserved` and `Matchable`
unfoldable pub set_valued : String → Bool
set_valued name = contains str_eq set_valued_attributes name

unfoldable pub reserved_name : String → Bool
reserved_name name = starts_with name attr_prefix

unfoldable pub matchable : String → Bool
matchable name =
    if starts_with name meta_prefix || starts_with name node_label_prefix
    then true
    else contains str_eq known_attributes name
