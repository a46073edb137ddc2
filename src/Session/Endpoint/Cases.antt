-- ===== src/Session/Endpoint/Cases.antt =====
-- Every packet that arrives is one of the cases of `Received` (transport/session.go).
use openflux_zen_server.Prelude.{
  ℕ, ◌≡◌, refl, true, false, not, ◌&&◌, ◌||◌, List, [], ◌∷◌, Option, none, some, ◌==◌,
  if◌then◌else◌, drop, either, and_left, and_right, not-false, or_left, same_bytes,
}
use openflux_zen_server.Control.{
  kind_hello, kind_ipv4, envelope_size, HelloTail, ControlTail, Envelope, Parsed, parsed, unparsed,
  decode_envelope,
}
use openflux_zen_server.Session.Admission.{PacketError, permitted_packet}
use openflux_zen_server.Session.Replay.{accept_sequence}
use openflux_zen_server.Session.Endpoint.{CandidatePeer, Session, World, Action, hear, role_locked}
use openflux_zen_server.Session.Endpoint.Hello.{
  current_candidate, offer_each, new_candidate, limited_candidate, offer_challenge,
  offer_or_take_over, offer_replacement, tail_parameters, echoing_hello, unchanged_hello,
  valid_hello, receive_hello_tail, receive_hello,
}
use openflux_zen_server.Session.Endpoint.Data.{
  is_mismatch, receive_fresh, receive_permitted, receive_data, receive_ipv4, other_message,
  handle_message, accept_message, receive_message, receive_control, receive_parsed, receive,
  subtype_link_ping, subtype_link_pong,
}
use openflux_zen_server.Session.Endpoint.Delivery.{accepted_state, refused_state}
use openflux_zen_server.Session.Endpoint.Steps.{
  ignored, greeted, offered, replaced, handed, repeated, told, Result, is_silent, IsHello, Received,
  is_silent-offer_each,
}

module _ (w : World) (s : Session) (link : ℕ) (p : List ℕ) where
  abbrev Can : Result → Type 0
  Can r = Received w s link p r

  -- A Session with another candidate, which only the offers of `offerReplacementLocked` have.
  abbrev waiting : Option CandidatePeer → Session
  waiting c = record s { candidate = c }

  new_candidate-Received :
      (c : Option CandidatePeer) (sender : List ℕ) (own : Option (List ℕ))
      → Can (new_candidate w (waiting c) sender own)
  unfolding new_candidate is_silent
  new_candidate-Received c sender none = offered c s.candidate_last refl refl
  new_candidate-Received c sender (some own) =
      offered (some _) (some w.now) refl (is_silent-offer_each (waiting c) _ s.order)

  limited_candidate-Received :
      (c : Option CandidatePeer) (sender : List ℕ) → Can (limited_candidate w (waiting c) sender)
  unfolding limited_candidate is_silent
  limited_candidate-Received c sender =
      either Can _ _ _ (λ e. offered c s.candidate_last refl refl)
        (λ e. new_candidate-Received c sender w.random)

  offer_challenge-Received :
      (c o : Option CandidatePeer) (sender : List ℕ) → Can (offer_challenge w (waiting c) sender o)
  unfolding offer_challenge
  offer_challenge-Received c none sender = limited_candidate-Received c sender
  offer_challenge-Received c (some o) sender =
      let offers = offer_each (waiting c) o s.order in
      either Can (same_bytes o.sender sender) (waiting c, offers)
        (limited_candidate w (waiting c) sender)
        (λ e. offered c s.candidate_last refl (is_silent-offer_each (waiting c) o s.order))
        (λ e. limited_candidate-Received c sender)

  offer_or_take_over-Received :
      (env : Envelope) (t : HelloTail) (c : Option CandidatePeer)
      → IsHello s p env t
      → current_candidate w.now s.candidate ≡ c
      → Can (offer_or_take_over w (waiting c) link (tail_parameters t) env c)
  unfolding offer_or_take_over is_silent
  offer_or_take_over-Received env t none h e =
      either Can _ _ _ (λ f. offer_challenge-Received none none env.local_challenge)
        (λ f. offered none s.candidate_last refl refl)
  offer_or_take_over-Received env t (some c) h e =
      either Can _ _ _
        (λ f.
          replaced env t c h e (and_left _ _ f)
            (and_right (same_bytes c.sender env.local_challenge) _ f) refl)
        (λ f.
          either Can _ _ _ (λ g. offer_challenge-Received (some c) (some c) env.local_challenge)
            (λ g. offered (some c) s.candidate_last refl refl))

  echoing_hello-Received :
      (env : Envelope) (t : HelloTail)
      → IsHello s p env t
      → (s.ready && not (same_bytes env.local_challenge s.peer)) ≡ false
      → Can (echoing_hello w s link (tail_parameters t) env t)
  unfolding echoing_hello
  echoing_hello-Received env t h same =
      either Can _ _ _ (λ e. ignored refl) (λ e. greeted env t h same refl)

  valid_hello-Received :
      (env : Envelope) (t : HelloTail)
      → IsHello s p env t
      → Can (valid_hello w s link (tail_parameters t) env t)
  unfolding valid_hello unchanged_hello offer_replacement
  valid_hello-Received env t h =
      let params = tail_parameters t in
      either Can (s.ready && not (same_bytes env.local_challenge s.peer)) _
        (unchanged_hello w s link params env t)
        (λ e. offer_or_take_over-Received env t (current_candidate w.now s.candidate) h refl)
        (λ e.
          either Can _ (s, []) (echoing_hello w s link params env t) (λ f. ignored refl)
            (λ f. echoing_hello-Received env t h e))

  other_message-Received :
      (payload : List ℕ) (subtype : ℕ)
      → s.ready ≡ true
      → Can (other_message (hear (some w.now) link s) payload subtype)
  unfolding other_message hear is_silent
  other_message-Received payload subtype up =
      let s' = hear (some w.now) link s in
      let handled = if s.control_callback then Action.handles subtype payload ∷ [] else [] in
      either Can (subtype == subtype_link_pong) (record s' { peer_keepalive = true }, [])
        (s', handled) (λ e. told true up refl refl)
        (λ e.
          told s.peer_keepalive up refl
            (either (λ a. is_silent a ≡ true) s.control_callback _ _ (λ g. refl) (λ g. refl)))

  handle_message-Received :
      (payload : List ℕ) (subtype : ℕ)
      → s.ready ≡ true
      → Can (handle_message (hear (some w.now) link s) link payload subtype)
  unfolding handle_message hear is_silent
  handle_message-Received payload subtype up =
      let s' = hear (some w.now) link s in
      let pong = if s.no_pong then [] else Action.pongs link ∷ [] in
      either Can (subtype == subtype_link_ping) (s', pong) (other_message s' payload subtype)
        (λ e.
          told s.peer_keepalive up refl
            (either (λ a. is_silent a ≡ true) s.no_pong _ _ (λ f. refl) (λ f. refl)))
        (λ e. other_message-Received payload subtype up)

  module _ (env : Envelope) (read : decode_envelope p ≡ parsed env)
      (role : (env.role == role_locked s) ≡ false) where
    receive_hello-Received :
        (tail : Option HelloTail)
        → (env.kind == kind_hello) ≡ true
        → s.stopped ≡ false
        → Can (receive_hello_tail w s link env tail)
    unfolding receive_hello_tail
    receive_hello-Received none kind running = ignored refl
    receive_hello-Received (some t) kind running =
        either Can _ _ _ (λ e. ignored refl)
          (λ e.
            either Can _ _ _ (λ f. ignored refl)
              (λ f.
                either Can _ _ _ (λ g. ignored refl)
                  (λ g. valid_hello-Received env t (record {
                    read = read;
                    role = role;
                    kind = kind;
                    running = running;
                    own_set = f;
                    valid = not-false _ g;
                  }))))

    receive_permitted-Received :
        (seq : ℕ) (err : Option PacketError)
        → permitted_packet (drop envelope_size p) s.remote ≡ err
        → (env.kind == kind_ipv4) ≡ true
        → env.data_sequence ≡ some seq
        → (not s.ready || s.stopped) ≡ false
        → is_mismatch s env ≡ false
        → Can (receive_permitted w s link (drop envelope_size p) seq err)
    unfolding receive_permitted receive_fresh accepted_state refused_state
    receive_permitted-Received seq (some e) permitted kind numbered up echoes = ignored refl
    receive_permitted-Received seq none permitted kind numbered up echoes =
        either Can ((accept_sequence s.sequences seq).1) _ _
          (λ e.
            handed env seq
              (record {
                read = read;
                role = role;
                kind = kind;
                numbered = numbered;
                up = up;
                echoes = echoes;
                permitted = permitted;
              })
              e refl)
          (λ e. repeated seq refl)

    receive_data-Received :
        (tail : Option ℕ)
        → env.data_sequence ≡ tail
        → (env.kind == kind_ipv4) ≡ true
        → Can (receive_data w s link p env tail)
    unfolding receive_data
    receive_data-Received none numbered kind = ignored refl
    receive_data-Received (some seq) numbered kind =
        either Can _ _ _ (λ e. ignored refl)
          (λ e.
            either Can _ _ _ (λ f. ignored refl)
              (λ f. receive_permitted-Received seq _ refl kind numbered e f))

    accept_message-Received : (subtype : ℕ) → Can (accept_message w s link p env subtype)
    unfolding accept_message
    accept_message-Received subtype =
        let message =
          handle_message (hear (some w.now) link s) link (drop envelope_size p) subtype in
        either Can _ (s, []) (if is_mismatch s env then (s, []) else message) (λ e. ignored refl)
          (λ e.
            let up = not-false s.ready (or_left (not s.ready) s.stopped e) in
            either Can _ (s, []) message (λ f. ignored refl)
              (λ f. handle_message-Received (drop envelope_size p) subtype up))

    receive_message-Received :
        (tail : Option ControlTail) → Can (receive_message w s link p env tail)
    unfolding receive_message
    receive_message-Received none = ignored refl
    receive_message-Received (some t) =
        either Can _ (s, []) (accept_message w s link p env t.subtype) (λ e. ignored refl)
          (λ e. accept_message-Received t.subtype)

  receive_parsed-Received : (d : Parsed) → decode_envelope p ≡ d → Can (receive_parsed w s link p d)
  unfolding receive_parsed receive_hello receive_ipv4 receive_control
  receive_parsed-Received (unparsed e) read = ignored refl
  receive_parsed-Received (parsed env) read =
      either Can _ _ _ (λ e. ignored refl)
        (λ role.
          either Can _ _ _
            (λ kind.
              either Can _ _ _ (λ f. ignored refl)
                (λ f. receive_hello-Received env read role env.hello kind f))
            (λ k.
              either Can _ _ _
                (λ kind. receive_data-Received env read role env.data_sequence refl kind)
                (λ k.
                  either Can _ _ _ (λ kind. receive_message-Received env read role env.control)
                    (λ k. ignored refl))))

  -- A packet that arrives does to a Session what the relation lists, and nothing else.
  pub receive-Received : Can (receive w s link p)
  unfolding receive
  receive-Received = receive_parsed-Received (decode_envelope p) refl
