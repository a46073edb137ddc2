-- ===== src/L3/Conntrack.antt =====
-- tunnel/l3/conntrack.go: the table of the flows that the exit has sent to the network. A time is a
-- number of nanoseconds and an argument of each call; the lock makes each call one step.
pub mod Laws
use openflux_zen_server.Prelude.{
  ℕ, ◌-◌, ◌+◌, Bool, true, false, ◌&&◌, ◌||◌, List, [], ◌∷◌, Option, none, some, ltb, leb, ◌==◌,
  if◌then◌else◌, length,
}
use openflux_zen_server.Prelude.Maps.{Eq, lookup, insert, delete_if}
use openflux_zen_server.L3.Packet.{FlowKey}
use openflux_zen_server.L3.Packet.Keys.{same_key, same_key_iff}

abbrev pub second : ℕ
second = 1_000_000_000

abbrev pub ct_timeout_established : ℕ
ct_timeout_established = 300_000_000_000

abbrev pub ct_timeout_closing : ℕ
ct_timeout_closing = 15_000_000_000

abbrev pub ct_timeout_udp : ℕ
ct_timeout_udp = 120_000_000_000

abbrev pub ct_timeout_dns : ℕ
ct_timeout_dns = 15_000_000_000

abbrev pub ct_max_entries : ℕ
ct_max_entries = 65536

-- `ctEntry`
pub record CtEntry : Type 0 where
  pub last_seen : ℕ
  pub dying : Bool

-- `conntrack`: the map, and whether the channel `stop` is closed.
pub record Conntrack : Type 0 where
  pub entries : List (FlowKey × CtEntry)
  pub stopped : Bool

instance abbrev pub flow_key_eq : Eq FlowKey
flow_key_eq = record { beq = same_key; beq_iff = same_key_iff }

unfoldable pub new_conntrack : Conntrack
new_conntrack = record { entries = []; stopped = false }

-- `flowTimeout`
unfoldable pub flow_timeout : FlowKey → CtEntry → ℕ
flow_timeout k e =
    if k.proto == 17
    then if k.src_port == 53 || k.dst_port == 53 then ct_timeout_dns else ct_timeout_udp
    else if e.dying
    then ct_timeout_closing
    else ct_timeout_established

-- `now.Sub(e.lastSeen) > flowTimeout(k, e)`
unfoldable pub is_stale : ℕ → FlowKey → CtEntry → Bool
is_stale now k e = ltb (flow_timeout k e) (now - e.last_seen)

-- `Insert`
unfoldable pub insert_flow : Conntrack → FlowKey → ℕ → Conntrack × Bool
insert_flow c k now = if c.stopped then (c, false) else elim (lookup k c.entries) [
  | some e ↦ (record c { entries = insert k (record e { last_seen = now }) c.entries }, true)
  | none ↦ if leb ct_max_entries (length c.entries) then (c, false) else (
    record c { entries = insert k (record { last_seen = now; dying = false }) c.entries },
    true,
  )
]

-- `Touch`
unfoldable pub touch : Conntrack → FlowKey → Bool → ℕ → Conntrack
touch c k dying now = elim (lookup k c.entries) [
  | none ↦ c
  | some e ↦ record c {
    entries = insert k (record { last_seen = now; dying = dying || e.dying }) c.entries;
  }
]

-- `Exists`
unfoldable pub exists_flow : Conntrack → FlowKey → ℕ → Bool
exists_flow c k now = elim (lookup k c.entries) [
  | none ↦ false
  | some e ↦ leb (now - e.last_seen) (flow_timeout k e)
]

-- `Close`
unfoldable pub close : Conntrack → Conntrack
close c = record c { stopped = true }

-- `sweep`
unfoldable pub sweep : Conntrack → ℕ → Conntrack
sweep c now = record c { entries = delete_if (is_stale now) c.entries }

-- One call, at its time.
pub data Call : Type 0 where
  inserts : FlowKey → Call
  touches : FlowKey → Bool → Call
  sweeps closes : Call

unfoldable pub step : Conntrack → ℕ × Call → Conntrack
step c (now, inserts k) = (insert_flow c k now).0
step c (now, touches k dying) = touch c k dying now
step c (now, sweeps) = sweep c now
step c (now, closes) = close c

unfoldable pub run : Conntrack → List (ℕ × Call) → Conntrack
run c [] = c
run c (m ∷ ms) = run (step c m) ms
