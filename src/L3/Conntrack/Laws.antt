-- ===== src/L3/Conntrack/Laws.antt =====
-- What the table of flows keeps, and what each call does to the answers of `Exists`.
use openflux_zen_server.Prelude.{
  ℕ, ◌-◌, ◌≤◌, ◌<◌, ◌≡◌, ◌⊎◌, ◌↔◌, Bool, true, false, ◌&&◌, ◌||◌, List, [], ◌∷◌, Option, none, some,
  arith, leb, if◌then◌else◌, length, Option-cases, inl, inr, is_some,
}
use openflux_zen_server.Prelude.Maps.{
  lookup, Keyed, lookup-insert, lookup-delete_if, lookup-delete_if-none, length-insert,
  length-delete_if, insert-Keyed, delete_if-Keyed,
}
use openflux_zen_server.L3.Packet.{FlowKey}
use openflux_zen_server.L3.Packet.Keys.{same_key, same_key_iff}
use openflux_zen_server.L3.Conntrack.{
  flow_key_eq, CtEntry, Conntrack, ct_max_entries, new_conntrack, flow_timeout, is_stale,
  insert_flow, touch, exists_flow, close, sweep, Call, inserts, touches, sweeps, closes, step, run,
}

pub record Inv (c : Conntrack) : Type 0 where
  pub keyed : Keyed c.entries
  pub bounded : length c.entries ≤ ct_max_entries

pub insert_flow-Inv : (c : Conntrack) (k : FlowKey) (now : ℕ) → Inv c → Inv (insert_flow c k now).0
unfolding insert_flow
insert_flow-Inv c k now v = grind (arith, length-insert, insert-Keyed)

pub touch-Inv :
    (c : Conntrack) (k : FlowKey) (dying : Bool) (now : ℕ) → Inv c → Inv (touch c k dying now)
unfolding touch
touch-Inv c k dying now v = grind (arith, length-insert, insert-Keyed)

pub sweep-Inv : (c : Conntrack) (now : ℕ) → Inv c → Inv (sweep c now)
unfolding sweep
sweep-Inv c now v = record {
  keyed = delete_if-Keyed (is_stale now) c.entries v.keyed;
  bounded = omega (arith, length-delete_if (is_stale now) c.entries, v.bounded);
}

pub close-tracked : (c : Conntrack) → Inv c → Inv (close c)
unfolding close
close-tracked c v = record { keyed = v.keyed; bounded = v.bounded }

step-Inv : (c : Conntrack) (m : ℕ × Call) → Inv c → Inv (step c m)
unfolding step close
step-Inv c (now, inserts k) v = insert_flow-Inv c k now v
step-Inv c (now, touches k dying) v = touch-Inv c k dying now v
step-Inv c (now, sweeps) v = sweep-Inv c now v
step-Inv c (now, closes) v = close-tracked c v

run-Inv_from : (c : Conntrack) (ms : List (ℕ × Call)) → Inv c → Inv (run c ms)
unfolding run
run-Inv_from c [] v = v
run-Inv_from c (m ∷ ms) v = run-Inv_from (step c m) ms (step-Inv c m v)

pub new_conntrack-Inv : Inv new_conntrack
unfolding new_conntrack
new_conntrack-Inv = record { keyed = tt; bounded = omega arith }

-- After any calls at any times the table has no key twice and at most 65536 entries.
pub run-Inv : (ms : List (ℕ × Call)) → Inv (run new_conntrack ms)
run-Inv ms = run-Inv_from new_conntrack ms new_conntrack-Inv

-- A sweep removes only flows that have timed out: whatever is asked at that time or later, `Exists`
-- answers as it would have without the sweep.
pub exists_flow-sweep :
    (c : Conntrack) (now later : ℕ) (k : FlowKey)
    → Inv c
    → now ≤ later
    → exists_flow (sweep c now) k later ≡ exists_flow c k later
unfolding exists_flow sweep is_stale
exists_flow-sweep c now later k v h = elim (Option-cases (lookup k c.entries)) [
  | inl e ↦ ground (arith, lookup-delete_if-none (is_stale now) k c.entries e)
  | inr (entry, e) ↦ ground (arith, lookup-delete_if (is_stale now) k entry c.entries v.keyed e)
]

-- The entry of a flow after `Insert`: seen now, and closing only if it was.
abbrev pub renewed : Option CtEntry → ℕ → CtEntry
renewed none now = record { last_seen = now; dying = false }
renewed (some e) now = record e { last_seen = now }

-- After an `Insert` that answers true the flow exists until its timeout, counted from that call, and
-- every other flow exists as before; one that answers false changes nothing.
pub exists_flow-insert_flow :
    (c : Conntrack) (k j : FlowKey) (now later : ℕ)
    → let (c', fine) = insert_flow c k now in
      exists_flow c' j later ≡ (
        if fine && same_key k j
        then leb (later - now) (flow_timeout k (renewed (lookup k c.entries) now))
        else exists_flow c j later)
unfolding insert_flow exists_flow
exists_flow-insert_flow c k j now later = elim (Option-cases (lookup k c.entries)) [
  | inl e ↦ ground (arith, lookup-insert k j (renewed none now) c.entries, same_key_iff k j)
  | inr (entry, e) ↦
      ground (arith, lookup-insert k j (renewed (some entry) now) c.entries, same_key_iff k j)
]

-- The table has room for the flow: it is open, and has the flow or fewer than 65536 others.
abbrev pub HasRoom : Conntrack → FlowKey → Type 0
HasRoom c k =
    (c.stopped ≡ false)
    × ((is_some (lookup k c.entries) ≡ true) ⊎ (length c.entries < ct_max_entries))

insert_flow-HasRoom :
    (c : Conntrack) (k : FlowKey) (now : ℕ) → ((insert_flow c k now).1 ≡ true) ↔ HasRoom c k
unfolding insert_flow
insert_flow-HasRoom c k now = (λ e. ground arith, λ h. ground arith)

-- `Insert` answers true exactly when the table is open and has the flow already or has fewer than
-- 65536. The flow then exists until its timeout, counted from that call, and every other flow exists
-- as before; when it answers false, every flow exists as before.
pub insert_flow_lem :
    (c : Conntrack) (k j : FlowKey) (now later : ℕ)
    → let (c', fine) = insert_flow c k now in
      ((fine ≡ true) ↔ HasRoom c k)
      × (exists_flow c' j later ≡ (
          if fine && same_key k j
          then leb (later - now) (flow_timeout k (renewed (lookup k c.entries) now))
          else exists_flow c j later))
insert_flow_lem c k j now later =
    (insert_flow-HasRoom c k now, exists_flow-insert_flow c k j now later)

-- Whether a call of a run from `c` was an `Insert` of the flow `k` that answered true.
unfoldable pub was_accepted : Conntrack → FlowKey → List (ℕ × Call) → Bool
was_accepted c k [] = false
was_accepted c k ((now, inserts j) ∷ ms) =
    same_key j k && (insert_flow c j now).1 || was_accepted (insert_flow c j now).0 k ms
was_accepted c k ((now, touches j dying) ∷ ms) = was_accepted (touch c j dying now) k ms
was_accepted c k ((now, sweeps) ∷ ms) = was_accepted (sweep c now) k ms
was_accepted c k ((now, closes) ∷ ms) = was_accepted (close c) k ms

abbrev known : Conntrack → FlowKey → Bool
known c k = is_some (lookup k c.entries)

known-insert_flow :
    (c : Conntrack) (k j : FlowKey) (now : ℕ)
    → known (insert_flow c k now).0 j ≡ true
    → (same_key k j && (insert_flow c k now).1 || known c j) ≡ true
unfolding insert_flow
known-insert_flow c k j now h = grind (arith, lookup-insert)

known-touch :
    (c : Conntrack) (k j : FlowKey) (dying : Bool) (now : ℕ)
    → known (touch c k dying now) j ≡ true
    → known c j ≡ true
unfolding touch
known-touch c k j dying now h = grind (arith, lookup-insert, same_key_iff)

known-sweep :
    (c : Conntrack) (j : FlowKey) (now : ℕ) → known (sweep c now) j ≡ true → known c j ≡ true
unfolding sweep
known-sweep c j now h = ground (arith, lookup-delete_if-none (is_stale now) j c.entries)

known-run :
    (c : Conntrack) (k : FlowKey) (ms : List (ℕ × Call))
    → known (run c ms) k ≡ true
    → (known c k || was_accepted c k ms) ≡ true
unfolding run step was_accepted close
known-run c k [] h = ground arith
known-run c k ((now, inserts j) ∷ ms) h =
    ground (arith, known-run (insert_flow c j now).0 k ms h, known-insert_flow c j k now)
known-run c k ((now, touches j dying) ∷ ms) h =
    ground (arith, known-run (touch c j dying now) k ms h, known-touch c j k dying now)
known-run c k ((now, sweeps) ∷ ms) h =
    ground (arith, known-run (sweep c now) k ms h, known-sweep c k now)
known-run c k ((now, closes) ∷ ms) h = ground (arith, known-run (close c) k ms h)

-- A flow exists only if an `Insert` of it answered true: no sweep, touch or close makes one up, and no
-- `Insert` that answers false.
pub exists_flow-was_accepted :
    (ms : List (ℕ × Call)) (k : FlowKey) (later : ℕ)
    → exists_flow (run new_conntrack ms) k later ≡ true
    → was_accepted new_conntrack k ms ≡ true
unfolding exists_flow new_conntrack lookup
exists_flow-was_accepted ms k later h = ground (arith, known-run new_conntrack k ms)
