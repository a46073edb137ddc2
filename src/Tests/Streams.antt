-- ===== src/Tests/Streams.antt =====
-- Runs over the buffer of a stream.
use openflux_zen_server.Prelude.{◌≡◌, List, [], ◌∷◌, ◌++◌}
use openflux_zen_server.Prelude.{◌≤◌, true, none, arith}
use openflux_zen_server.Mux.FlowControl.{Flow, on_ack}
use openflux_zen_server.Mux.FlowControl.Shares.{IsFlow, inflight, others, on_ack_share}
use openflux_zen_server.Mux.ReadBuffer.{new_rbuffer, BufferCall, writes, reads, closes, run_calls}
use openflux_zen_server.Mux.ReadBuffer.Fifo.{run_calls_lem}

abbrev stream : List BufferCall
stream =
    writes (1 ∷ 2 ∷ 3 ∷ []) ∷ reads 2 ∷ writes (4 ∷ []) ∷ closes ∷ writes (5 ∷ []) ∷ reads 1 ∷ []

run_calls_lem_example :
    (run_calls new_rbuffer stream).1 ++ (run_calls new_rbuffer stream).0.buf ≡ (1 ∷ 2 ∷ 3 ∷ 4 ∷ [])
run_calls_lem_example = run_calls_lem stream

abbrev busy : Flow
busy = record {
  fc = true;
  sent = 100;
  acked = 4_294_967_290;
  consumed = 0;
  acked_sent = 0;
  total_up = 500;
  queued = none;
}

busy-IsFlow : IsFlow busy
busy-IsFlow = record { sent = omega arith; acked = omega arith; total = omega arith }

on_ack_share_example : (others (on_ack busy 40) ≡ 394) × (inflight (on_ack busy 40) ≤ 106)
on_ack_share_example = on_ack_share busy 40 busy-IsFlow (omega arith)
