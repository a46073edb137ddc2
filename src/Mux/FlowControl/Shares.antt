-- ===== src/Mux/FlowControl/Shares.antt =====
-- The total in flight is the sum of the streams' shares (transport/phpbox/mux.go).
use openflux_zen_server.Prelude.{ℕ, ◌+◌, ◌-◌, ◌%◌, ◌^◌, ◌≤◌, ◌<◌, ◌≡◌, true, arith}
use openflux_zen_server.Mux.FlowControl.{Flow, sub32, fc_sent, on_ack, fc_forget}

-- The counters are within their width.
pub record IsFlow (s : Flow) : Type 0 where
  pub sent : s.sent < 2 ^ 32
  pub acked : s.acked < 2 ^ 32
  pub total : s.total_up < 2 ^ 64

-- What the stream has in flight.
abbrev pub inflight : Flow → ℕ
inflight s = sub32 s.sent s.acked

-- What the other streams have in flight, modulo 2^64: the total less the stream's share.
abbrev pub others : Flow → ℕ
others s = (s.total_up + 2 ^ 64 - inflight s) % 2 ^ 64

-- An acknowledgement changes only the stream's own share of the total, and never raises what is in
-- flight, whatever number the other side sends.
pub on_ack_share :
    (s : Flow) (v : ℕ)
    → IsFlow s
    → v < 2 ^ 32
    → (others (on_ack s v) ≡ others s) × (inflight (on_ack s v) ≤ inflight s)
unfolding on_ack
on_ack_share s v f h =
    let a = f.sent in let b = f.acked in let c = f.total in (ground arith, ground arith)

-- With flow control, a send raises what the stream has in flight by what was sent, and leaves the
-- others' share, as long as less than 4 GiB are in flight.
pub fc_sent_share :
    (s : Flow) (n : ℕ)
    → IsFlow s
    → s.fc ≡ true
    → inflight s + n < 2 ^ 32
    → (others (fc_sent s n) ≡ others s) × (inflight (fc_sent s n) ≡ inflight s + n)
unfolding fc_sent
fc_sent_share s n f on h =
    let a = f.sent in let b = f.acked in let c = f.total in (ground arith, ground arith)

-- A stream that is forgotten has nothing in flight, and the others keep their share.
pub fc_forget_share :
    (s : Flow) → IsFlow s → (others (fc_forget s) ≡ others s) × (inflight (fc_forget s) ≡ 0)
unfolding fc_forget
fc_forget_share s f =
    let a = f.sent in let b = f.acked in let c = f.total in (omega arith, omega arith)
