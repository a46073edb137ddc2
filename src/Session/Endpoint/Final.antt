-- ===== src/Session/Endpoint/Final.antt =====
-- A Session that was stopped stays so (transport/session.go).
use openflux_zen_server.Prelude.{
  ℕ, ◌≡◌, refl, ap, ◌∙◌, Bool, true, false, List, some, either, Bool-cases, inl, inr, ◌||◌, ◌&&◌,
}
use openflux_zen_server.Session.Admission.{PeerParameters}
use openflux_zen_server.Session.Endpoint.{Session, World, hear}
use openflux_zen_server.Session.Endpoint.Hello.{take_over, accept_hello}
use openflux_zen_server.Session.Endpoint.Classic.{receive_classic}
use openflux_zen_server.Session.Endpoint.Data.{send_session, send, receive}
use openflux_zen_server.Session.Endpoint.Delivery.{accepted_state, refused_state}
use openflux_zen_server.Session.Endpoint.Keepalive.{
  reset_locked, peer_silent_locked, keepalive_round, stop, mark_stalled, mark_dead,
}
use openflux_zen_server.Session.Endpoint.Lifecycle.{
  new_session, set_classic, set_receive, begin_start, add_transport, remove_transport, start_link,
}
use openflux_zen_server.Session.Endpoint.Steps.{
  Result, Received, ignored, greeted, offered, replaced, handed, repeated, told,
}
use openflux_zen_server.Session.Endpoint.Cases.{receive-Received}
use openflux_zen_server.Session.Endpoint.Preservation.{
  Same, receive_classic-Same, begin_start-Same, start_link-Same, add_transport-Same,
  remove_transport-Same, mark_stalled-Same, mark_dead-Same,
}
use openflux_zen_server.Session.Endpoint.Lifetime.{
  Step, receives, receives_classic, sends, keeps_alive, links_up, starts, adds, removes, stalls,
  dies, turns_classic, listens, stops, Reach, here, next, Reach-IsCoherent,
}

Received-stopped :
    (w : World) (s : Session) (link : ℕ) (p : List ℕ) (r : Result)
    → Received w s link p r
    → r.0.stopped ≡ s.stopped
unfolding hear accept_hello take_over accepted_state refused_state
Received-stopped w s link p r (ignored e) = ap (λ x. x.0.stopped) e
Received-stopped w s link p r (greeted env t h same e) = ap (λ x. x.0.stopped) e
Received-stopped w s link p r (offered c last e quiet) = ap (λ x. x.stopped) e
Received-stopped w s link p r (replaced env t c h current sender echo e) = ap (λ x. x.0.stopped) e
Received-stopped w s link p r (handed env seq h fine e) = ap (λ x. x.0.stopped) e
Received-stopped w s link p r (repeated seq e) = ap (λ x. x.0.stopped) e
Received-stopped w s link p r (told alive h e quiet) = ap (λ x. x.stopped) e

send-stopped :
    (w : World) (s : Session) (p : List ℕ) → s.stopped ≡ true → (send w s p).0.stopped ≡ true
unfolding send send_session
send-stopped w s p down = elim (Bool-cases s.ready) [
  | inl up ↦ simp (down, up)
  | inr up ↦ simp (down, up)
]

Same-stopped : (s o : Session) → Same s o → s.stopped ≡ true → o.stopped ≡ true
Same-stopped s o e down = ap (λ c. c.4) e ∙ down

Step-stopped : {s o : Session} → Step s o → s.stopped ≡ true → o.stopped ≡ true
unfolding keepalive_round reset_locked set_classic set_receive stop
Step-stopped {s} (receives w link p) down =
    Received-stopped w s link p (receive w s link p) (receive-Received w s link p) ∙ down
Step-stopped {s} (receives_classic w link p) down =
    Same-stopped s (receive_classic w s link p).0 (receive_classic-Same w s link p) down
Step-stopped {s} (sends w p) down = send-stopped w s p down
Step-stopped {s} (keeps_alive w) down =
    either (λ (x : Session). x.stopped ≡ true)
      (s.ready && ((s.exit || s.peer_keepalive) && peer_silent_locked w s)) (reset_locked w s) s
      (λ e. down) (λ e. down)
Step-stopped {s} (links_up name) down =
    Same-stopped s (start_link s name).0 (start_link-Same s name) down
Step-stopped {s} starts down = Same-stopped s (begin_start s) (begin_start-Same s) down
Step-stopped {s} (adds name link) down =
    Same-stopped s (add_transport s name link) (add_transport-Same s name link) down
Step-stopped {s} (removes name) down =
    Same-stopped s (remove_transport s name) (remove_transport-Same s name) down
Step-stopped {s} (stalls name) down =
    Same-stopped s (mark_stalled s name) (mark_stalled-Same s name) down
Step-stopped {s} (dies name) down = Same-stopped s (mark_dead s name) (mark_dead-Same s name) down
Step-stopped {s} turns_classic down = down
Step-stopped {s} listens down = down
Step-stopped {s} stops down = refl

Reach-stopped : {s o : Session} → Reach s o → s.stopped ≡ true → o.stopped ≡ true
Reach-stopped here down = down
Reach-stopped (next r step) down = Step-stopped step (Reach-stopped r down)

joined : {s m o : Session} → Reach s m → Reach m o → Reach s o
joined r here = r
joined r (next r' step) = next (joined r r') step

-- Stopping is final: whatever calls a Session gets after it was stopped, in any order, hellos of a
-- peer among them, it stays stopped and does not become ready.
pub stopped_stays :
    (w : World) (params : PeerParameters) (exit : Bool) (s m o : Session)
    → new_session w params exit ≡ some s
    → Reach s m
    → m.stopped ≡ true
    → Reach m o
    → (o.stopped ≡ true) × (o.ready ≡ false)
stopped_stays w params exit s m o made before down after =
    let still = Reach-stopped after down in
    (still, (Reach-IsCoherent w params exit s o made (joined before after)).stays_down still)
