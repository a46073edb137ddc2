-- ===== src/Mux/FlowControl.antt =====
-- transport/phpbox/mux.go, the flow control of one stream: what it has in flight, and its share of the
-- total of all streams. The counters of a stream are uint32 and wrap; the total is an int64, written
-- here modulo 2^64.
pub mod Shares
use openflux_zen_server.Prelude.{
  ℕ, ◌+◌, ◌-◌, ◌%◌, ◌^◌, Bool, true, false, not, ◌&&◌, ◌||◌, Option, none, some, ltb, leb, ◌==◌,
  if◌then◌else◌,
}

abbrev pub ack_every : ℕ
ack_every = 32768

-- The counters of a `conn`, the total of its `Mux`, and the ack that is queued for the stream.
pub record Flow : Type 0 where
  pub fc : Bool
  pub sent : ℕ
  pub acked : ℕ
  pub consumed : ℕ
  pub acked_sent : ℕ
  pub total_up : ℕ
  pub queued : Option ℕ

-- `a - b` on uint32
abbrev pub sub32 : ℕ → ℕ → ℕ
sub32 a b = (a + 2 ^ 32 - b) % 2 ^ 32

-- `fcSent`
pub fc_sent : Flow → ℕ → Flow
fc_sent s n =
    if not s.fc
    then s
    else record s { sent = (s.sent + n) % 2 ^ 32; total_up = (s.total_up + n) % 2 ^ 64 }

-- `onAck`
pub on_ack : Flow → ℕ → Flow
on_ack s v =
    let delta = sub32 v s.acked in
    if not (delta == 0) && leb delta (sub32 s.sent s.acked)
    then record s { acked = v; total_up = (s.total_up + 2 ^ 64 - delta) % 2 ^ 64 }
    else s

-- `fcForget`
pub fc_forget : Flow → Flow
fc_forget s = record s {
  total_up = (s.total_up + 2 ^ 64 - sub32 s.sent s.acked) % 2 ^ 64;
  acked = s.sent;
}

-- `noteConsumed`, for an `n` that is not negative.
pub note_consumed : Flow → ℕ → Bool → Flow
note_consumed s n empty =
    let consumed = (s.consumed + n) % 2 ^ 32 in
    let due = sub32 consumed s.acked_sent in
    if not s.fc || n == 0
    then s
    else if leb ack_every due || (empty && ltb 0 due)
    then record s { consumed = consumed; acked_sent = consumed; queued = some consumed }
    else record s { consumed = consumed }
