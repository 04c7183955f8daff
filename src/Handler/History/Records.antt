-- ===== src/Handler/History/Records.antt =====
-- The tables of a flush: each domain in order has its addresses.
use dns_relay.Prelude.{◌≡◌, true, false, List, [], ◌∷◌, All}
use dns_relay.Prelude.Slices.{Bytes}
use dns_relay.Dns.Text.Affix.{eq_bytes}
use dns_relay.Dns.Text.Spaces.{is_some}
use dns_relay.Handler.History.{Table, Tables, get}

abbrev Known : Table → Bytes → Type 0
Known table domain = is_some (get table domain) ≡ true

-- No domain twice.
abbrev pub Distinct : List Bytes → Type 0
Distinct [] = Unit
Distinct (d ∷ ds) = All (λ e. eq_bytes d e ≡ false) ds × Distinct ds

-- Every domain in order is in the history.
abbrev pub AllKnown : Tables → Type 0
AllKnown t = All (Known t.history) t.order
