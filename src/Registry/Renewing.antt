-- ===== src/Registry/Renewing.antt =====
-- internal/registry/registry.go: how often a credential is resolved again.
-- After a provider took a new credential, a call within a minute reports that a retry can succeed,
-- whatever the source and the provider would say, and changes nothing.
use vagabond.Base.{Option, Bool, Time, ◌≡◌, ◌≤◌, ◌<◌, ◌+◌, arith}
use vagabond.Registry.{recredential_entry, Entry, Renewal, recredential_every}

recredential_entry-recent :
    {Credential : Type 0} (resolve resolve' : Entry → Option Credential)
    (hand hand' : Entry → Credential → Bool) (now later now' later' : Time) (e : Entry)
    → (recredential_entry resolve hand now later e).1 ≡ Renewal.renewed
    → later ≤ now'
    → now' < later + recredential_every
    → recredential_entry resolve' hand' now' later' (recredential_entry resolve hand now later e).0
      ≡ ((recredential_entry resolve hand now later e).0, Renewal.recent)
unfolding recredential_entry
recredential_entry-recent resolve resolve' hand hand' now later now' later' e h after soon =
    ground (arith, h, after, soon)
