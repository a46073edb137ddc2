-- ===== src/Session/Endpoint/Preservation.antt =====
-- What the calls of a Session keep, one by one (transport/session.go).
use openflux_zen_server.Prelude.{
  ℕ, ◌+◌, ◌≡◌, refl, ap, Bool, true, false, not, ◌&&◌, ◌||◌, List, [], Option, none, some, arith,
  inl, inr, ◌==◌, if◌then◌else◌, either, is_some, Bool-cases, length,
}
use openflux_zen_server.Session.Admission.{PeerParameters, PacketError, permitted_packet}
use openflux_zen_server.Session.Replay.{Sequences}
use openflux_zen_server.Session.Replay.Refinement.{fresh-Tracks}
use openflux_zen_server.Session.Endpoint.{
  Link, Session, World, Action, Outcome, SendError, hear, has_link, live_links_locked,
}
use openflux_zen_server.Session.Endpoint.Classic.{
  classic_target_locked, session_active_locked, send_classic, receive_classic, hear_classic,
  delivery,
}
use openflux_zen_server.Session.Endpoint.Data.{
  send_permitted, send_session, send_by, send, transmit_data, subtype_link_ping, send_control_via,
}
use openflux_zen_server.Session.Endpoint.Keepalive.{
  ping_outcome, reset_locked, stop, mark_stalled, mark_dead,
}
use openflux_zen_server.Session.Endpoint.Lifecycle.{
  begin_start, is_fallback, drop_classic, add_transport, remove_transport, mark_started, start_link,
}
use openflux_zen_server.Session.Endpoint.Sending.{counted}
use openflux_zen_server.Session.Endpoint.Soundness.{IsCoherent}

-- The fields that `IsCoherent` is about are the same.
abbrev core : Session → PeerParameters × List ℕ × PeerParameters × Bool × Bool × Sequences × ℕ
core s = (s.params, s.peer, s.remote, s.ready, s.stopped, s.sequences, s.sequence)

abbrev pub Same : Session → Session → Type 0
Same s s' = core s' ≡ core s

pub Same-IsCoherent : (s s' : Session) → IsCoherent s → Same s s' → IsCoherent s'
Same-IsCoherent s s' v e =
    let params = ap (λ c. c.0) e in
    let peer = ap (λ c. c.1) e in
    let remote = ap (λ c. c.2) e in
    let ready = ap (λ c. c.3) e in
    let stopped = ap (λ c. c.4) e in
    let sequences = ap (λ c. c.5) e in
    let sequence = ap (λ c. c.6) e in
    record {
      params = rw params v.params;
      peer = rw (ready, peer) v.peer;
      remote = rw (ready, remote) v.remote;
      stays_down = rw (ready, stopped) v.stays_down;
      tracked = rw sequences v.tracked;
      counted = rw sequence v.counted;
    }

module _ (w : World) (s : Session) (p : List ℕ) (v : IsCoherent s) where
  abbrev Fine : Session × Outcome → Type 0
  Fine r = IsCoherent r.0

  counted-IsCoherent : (s.sequence == 18446744073709551615) ≡ false → IsCoherent (counted s)
  counted-IsCoherent e =
      let before = v.counted in
      record {
        params = v.params;
        peer = v.peer;
        remote = v.remote;
        stays_down = v.stays_down;
        tracked = v.tracked;
        counted = ground arith;
      }

  send_permitted-IsCoherent : (e : Option PacketError) → Fine (send_permitted w s p e)
  unfolding send_permitted
  send_permitted-IsCoherent (some e) = v
  send_permitted-IsCoherent none =
      either Fine (s.sequence == 18446744073709551615) (s, Outcome.failed SendError.exhausted)
        (
          counted s,
          transmit_data w (counted s) (live_links_locked w (counted s)) p (s.sequence + 1),
        )
        (λ e. v) counted-IsCoherent

  send_session-IsCoherent : Fine (send_session w s p)
  unfolding send_session
  send_session-IsCoherent =
      let permitted = permitted_packet p s.remote in
      either Fine (not s.ready || s.stopped) (s, Outcome.failed SendError.negotiation_pending)
        (send_permitted w s p permitted) (λ e. v) (λ e. send_permitted-IsCoherent permitted)

  send_by-IsCoherent : (target : Option ℕ) → Fine (send_by w s p target)
  unfolding send_by
  send_by-IsCoherent none = send_session-IsCoherent
  send_by-IsCoherent (some link) =
      either Fine (not s.ready || (s.exit && not (session_active_locked w s)))
        (s, send_classic link p) (send_session w s p) (λ e. v) (λ e. send_session-IsCoherent)

  pub send-IsCoherent : Fine (send w s p)
  unfolding send
  send-IsCoherent =
      either Fine s.stopped (send_session w s p) (send_by w s p (classic_target_locked s))
        (λ e. send_session-IsCoherent) (λ e. send_by-IsCoherent (classic_target_locked s))

pub reset_locked-IsCoherent :
    (w : World) (s : Session) → IsCoherent s → IsCoherent (reset_locked w s)
unfolding reset_locked
reset_locked-IsCoherent w s v = record {
  params = v.params;
  peer = λ up. absurd cc;
  remote = λ up. absurd cc;
  stays_down = λ down. refl;
  tracked = ([], fresh-Tracks);
  counted = omega arith;
}

pub stop-IsCoherent : (s : Session) → IsCoherent s → IsCoherent (stop s)
unfolding stop
stop-IsCoherent s v = record {
  params = v.params;
  peer = λ up. absurd cc;
  remote = λ up. absurd cc;
  stays_down = λ down. refl;
  tracked = v.tracked;
  counted = v.counted;
}

module _ (w : World) (s : Session) (link : ℕ) (p : List ℕ) where
  abbrev Kept : Session × List Action → Type 0
  Kept r = Same s r.0

  pub receive_classic-Same : Kept (receive_classic w s link p)
  unfolding receive_classic hear_classic
  receive_classic-Same =
      let packet = delivery s p in
      let served : Session × List Action =
        (hear_classic w.now link (record s { classic_link = some link }), packet) in
      let seen : Session × List Action =
        (hear_classic w.now link (record s { classic_seen = true }), packet) in
      let ours : Session × List Action = if session_active_locked w s then (s, []) else served in
      let taken = if s.exit then ours else seen in
      either Kept _ (s, []) (if s.stopped then (s, []) else taken) (λ e. refl)
        (λ e.
          either Kept s.stopped (s, []) taken (λ f. refl)
            (λ f.
              either Kept s.exit ours seen
                (λ g.
                  either Kept (session_active_locked w s) (s, []) served (λ h. refl) (λ h. refl))
                (λ g. refl)))

pub start_link-Same : (s : Session) (name : ℕ) → Same s (start_link s name).0
unfolding start_link mark_started
start_link-Same s name =
    let up : Session × List Action = (
      mark_started s name,
      if s.ready
          then ping_outcome (send_control_via (mark_started s name) name subtype_link_ping [])
          else [],
    ) in
    either (λ (r : Session × List Action). Same s r.0) s.stopped (s, []) up (λ e. refl) (λ e. refl)

pub add_transport-Same : (s : Session) (name : ℕ) (link : Link) → Same s (add_transport s name link)
unfolding add_transport
add_transport-Same s name link = elim (Bool-cases (s.started || has_link s.order name)) [
  | inl e ↦ rw e refl
  | inr e ↦ rw e refl
]

pub begin_start-Same : (s : Session) → Same s (begin_start s)
unfolding begin_start
begin_start-Same s =
    let up : Session = record s { started = true } in
    let classic = is_fallback s.classic && not (length s.order == 1) in
    either (Same s) (s.stopped || (s.started || length s.order == 0)) s
      (if classic then drop_classic up else up) (λ e. refl)
      (λ e.
        either (Same s) classic (drop_classic up) up (λ f. unfold drop_classic in refl) (λ f. refl))

pub remove_transport-Same : (s : Session) (name : ℕ) → Same s (remove_transport s name)
unfolding remove_transport
remove_transport-Same s name = elim (Bool-cases (has_link s.order name)) [
  | inl e ↦ rw e refl
  | inr e ↦ rw e refl
]

pub mark_stalled-Same : (s : Session) (name : ℕ) → Same s (mark_stalled s name)
unfolding mark_stalled hear
mark_stalled-Same s name =
    elim (Bool-cases (has_link s.order name && is_some ((s.links name).last_heard))) [
      | inl e ↦ rw e refl
      | inr e ↦ rw e refl
    ]

pub mark_dead-Same : (s : Session) (name : ℕ) → Same s (mark_dead s name)
unfolding mark_dead
mark_dead-Same s name = elim (Bool-cases (has_link s.order name)) [
  | inl e ↦ rw e refl
  | inr e ↦ rw e refl
]
