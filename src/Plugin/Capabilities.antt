-- ===== src/Plugin/Capabilities.antt =====
-- internal/plugin/capabilities.go: what a provider advertises. `Clone` copies a value that nothing
-- else can change here, so it is the value itself.
use vagabond.Base.Int64.{slt, sle}
use vagabond.Base.Assoc.{Map}
use vagabond.Base.{
  List, String, Time, ℕ, if◌then◌else◌, Option, Bool, contains, ◌==◌, none, false, is_zero, str_eq,
  true, ◌||◌, some, time_sub, ◌≡◌, ◌⊎◌, inl, inr, refl,
}

pub record Size : Type 0 where
  pub cpu : ℕ
  pub memory : ℕ

-- `Limits`: none is no limit.
pub record MaxSize : Type 0 where
  pub cpu : Option ℕ
  pub memory : Option ℕ

-- `Capabilities` without its members.
pub record Snapshot : Type 0 where
  pub drivers : List String
  pub architectures : List String
  pub max_resources : MaxSize
  pub max_duration : ℕ
  pub default_resources : Size
  pub internet_egress : Bool
  pub private_network : Bool
  pub arbitrary_images : Bool
  pub estimated_cost : ℕ
  pub observed_at : Time

-- A pool's nodes are capabilities with a name and labels.
mutual
  pub data Capabilities : Type 0 where
    capabilities : Snapshot → Members → Capabilities

  pub data Members : Type 0 where
    no_members : Members
    member : String → Capabilities → Map String String → Members → Members

abbrev pub snapshot : Capabilities → Snapshot
snapshot (capabilities s ms) = s

abbrev pub members : Capabilities → Members
members (capabilities s ms) = ms

-- `SupportsDriver` and `SupportsArch`
unfoldable pub supports_driver : Snapshot → String → Bool
supports_driver c d = contains str_eq c.drivers d

unfoldable pub supports_arch : Snapshot → String → Bool
supports_arch c a = contains str_eq c.architectures a

unfoldable pub within_duration : Snapshot → ℕ → Bool
within_duration c d = c.max_duration == 0 || sle d c.max_duration

-- `Sized`
unfoldable pub sized : Snapshot → Size → Size
sized c r = record {
  cpu = if r.cpu == 0 then c.default_resources.cpu else r.cpu;
  memory = if r.memory == 0 then c.default_resources.memory else r.memory;
}

-- Whether a limit is there and the size is past it.
abbrev pub past : Option ℕ → ℕ → Bool
past limit n = elim limit [ none ↦ false | some l ↦ slt l n ]

unfoldable pub within_resources : Snapshot → Size → Bool
within_resources c r =
    let r' = sized c r in
    if past c.max_resources.cpu r'.cpu
    then false
    else elim c.max_resources.memory [ none ↦ true | some l ↦ sle r'.memory l ]

-- `StaleAt`, on ages that int64 holds.
unfoldable pub stale_at : Snapshot → Time → ℕ → Bool
stale_at c now max_age =
    if is_zero c.observed_at then true else slt max_age (time_sub now c.observed_at)

pub Members-cases :
    (ms : Members)
    → (ms ≡ no_members)
      ⊎ ((name : String) × (c : Capabilities) × (labels : Map String String) × (rest : Members)
          × (ms ≡ member name c labels rest))
Members-cases no_members = inl refl
Members-cases (member name c labels rest) = inr (name, c, labels, rest, refl)
