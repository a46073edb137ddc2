-- ===== src/Session/Endpoint/Lifetime.antt =====
-- A Session from NewSession on, over any calls in any order (transport/session.go).
use openflux_zen_server.Prelude.{
  ℕ, ◌≡◌, refl, Bool, true, List, [], Option, none, some, arith, either,
}
use openflux_zen_server.Session.Admission.{PeerParameters, valid_parameters}
use openflux_zen_server.Session.Replay.Refinement.{fresh-Tracks}
use openflux_zen_server.Session.Endpoint.{Link, Session, World}
use openflux_zen_server.Session.Endpoint.Classic.{receive_classic}
use openflux_zen_server.Session.Endpoint.Data.{receive, send}
use openflux_zen_server.Session.Endpoint.Keepalive.{
  reset_locked, keepalive_round, stop, mark_stalled, mark_dead,
}
use openflux_zen_server.Session.Endpoint.Lifecycle.{
  session_with, new_session, set_classic, set_receive, begin_start, add_transport, remove_transport,
  start_link,
}
use openflux_zen_server.Session.Endpoint.Cases.{receive-Received}
use openflux_zen_server.Session.Endpoint.Soundness.{IsCoherent, Received-IsCoherent}
use openflux_zen_server.Session.Endpoint.Preservation.{
  Same-IsCoherent, send-IsCoherent, reset_locked-IsCoherent, stop-IsCoherent, receive_classic-Same,
  begin_start-Same, start_link-Same, add_transport-Same, remove_transport-Same, mark_stalled-Same,
  mark_dead-Same,
}

-- The calls that change a Session.
pub data Step (s : Session) : Session → Type 0 where
  receives : (w : World) (link : ℕ) (p : List ℕ) → Step s (receive w s link p).0
  receives_classic : (w : World) (link : ℕ) (p : List ℕ) → Step s (receive_classic w s link p).0
  sends : (w : World) (p : List ℕ) → Step s (send w s p).0
  keeps_alive : (w : World) → Step s (keepalive_round w s).0
  links_up : (name : ℕ) → Step s (start_link s name).0
  starts : Step s (begin_start s)
  adds : (name : ℕ) (link : Link) → Step s (add_transport s name link)
  removes : (name : ℕ) → Step s (remove_transport s name)
  stalls : (name : ℕ) → Step s (mark_stalled s name)
  dies : (name : ℕ) → Step s (mark_dead s name)
  turns_classic : Step s (set_classic s)
  listens : Step s (set_receive s)
  stops : Step s (stop s)

pub data Reach (s : Session) : Session → Type 0 where
  here : Reach s s
  next : {m o : Session} → Reach s m → Step m o → Reach s o

Step-IsCoherent : {s o : Session} → Step s o → IsCoherent s → IsCoherent o
unfolding keepalive_round set_classic set_receive
Step-IsCoherent {s} (receives w link p) v =
    Received-IsCoherent w s link p (receive w s link p) v (receive-Received w s link p)
Step-IsCoherent {s} (receives_classic w link p) v =
    Same-IsCoherent s _ v (receive_classic-Same w s link p)
Step-IsCoherent {s} (sends w p) v = send-IsCoherent w s p v
Step-IsCoherent {s} (keeps_alive w) v =
    either IsCoherent _ (reset_locked w s) s (λ e. reset_locked-IsCoherent w s v) (λ e. v)
Step-IsCoherent {s} (links_up name) v = Same-IsCoherent s _ v (start_link-Same s name)
Step-IsCoherent {s} starts v = Same-IsCoherent s _ v (begin_start-Same s)
Step-IsCoherent {s} (adds name link) v = Same-IsCoherent s _ v (add_transport-Same s name link)
Step-IsCoherent {s} (removes name) v = Same-IsCoherent s _ v (remove_transport-Same s name)
Step-IsCoherent {s} (stalls name) v = Same-IsCoherent s _ v (mark_stalled-Same s name)
Step-IsCoherent {s} (dies name) v = Same-IsCoherent s _ v (mark_dead-Same s name)
Step-IsCoherent {s} turns_classic v = Same-IsCoherent s _ v (refl)
Step-IsCoherent {s} listens v = Same-IsCoherent s _ v (refl)
Step-IsCoherent {s} stops v = stop-IsCoherent s v

abbrev IsCoherentIfMade : Option Session → Type 0
IsCoherentIfMade none = Unit {0}
IsCoherentIfMade (some s) = IsCoherent s

session_with-IsCoherent :
    (params : PeerParameters) (exit : Bool) (own : Option (List ℕ))
    → valid_parameters params ≡ true
    → IsCoherentIfMade (session_with params exit own)
unfolding session_with
session_with-IsCoherent params exit none valid = tt
session_with-IsCoherent params exit (some own) valid = record {
  params = valid;
  peer = λ up. absurd cc;
  remote = λ up. absurd cc;
  stays_down = λ down. refl;
  tracked = ([], fresh-Tracks);
  counted = omega arith;
}

made-IsCoherent :
    (made : Option Session) (s : Session) → made ≡ some s → IsCoherentIfMade made → IsCoherent s
made-IsCoherent none s e h = absurd cc
made-IsCoherent (some t) s e h = let same : t ≡ s = cc in rw (← same) h

new_session-IsCoherent :
    (w : World) (params : PeerParameters) (exit : Bool) (s : Session)
    → new_session w params exit ≡ some s
    → IsCoherent s
unfolding new_session
new_session-IsCoherent w params exit s made = made-IsCoherent (new_session w params exit) s made (
    either IsCoherentIfMade (valid_parameters params) (session_with params exit w.random) none
      (session_with-IsCoherent params exit w.random) (λ e. tt))

-- In every state that a Session reaches, over any calls in any order: its own parameters are valid;
-- when it is ready, its peer's challenge is not zero and the agreed limits are valid parameters; when
-- it is stopped it is not ready; its ring of bits stands for some list of numbers; and the number of
-- the packets it sent is a uint64.
pub Reach-IsCoherent :
    (w : World) (params : PeerParameters) (exit : Bool) (s o : Session)
    → new_session w params exit ≡ some s
    → Reach s o
    → IsCoherent o
Reach-IsCoherent w params exit s o made here = new_session-IsCoherent w params exit s made
Reach-IsCoherent w params exit s o made (next {m} reach step) =
    Step-IsCoherent step (Reach-IsCoherent w params exit s m made reach)
