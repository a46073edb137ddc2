-- ===== src/Session/Endpoint/Steps.antt =====
-- What a packet that arrives can do to a Session, as a relation (transport/session.go).
use openflux_zen_server.Prelude.{
  ℕ, ◌≡◌, refl, Bool, true, false, not, ◌&&◌, ◌||◌, List, [], ◌∷◌, ◌++◌, Option, none, some, ◌==◌,
  drop, either, same_bytes,
}
use openflux_zen_server.Control.{
  kind_hello, kind_ipv4, envelope_size, HelloTail, Envelope, Encoded, encoded, unencoded, parsed,
  encode_envelope, decode_envelope,
}
use openflux_zen_server.Session.Admission.{valid_parameters, permitted_packet}
use openflux_zen_server.Session.Replay.{accept_sequence}
use openflux_zen_server.Session.Endpoint.{
  CandidatePeer, Session, World, Action, zero_challenge, hear, role_locked, send_encoded, hello_via,
  hello_each, has_link,
}
use openflux_zen_server.Session.Endpoint.Classic.{delivery}
use openflux_zen_server.Session.Endpoint.Hello.{
  current_candidate, take_over, offer_hello, offer_via, offer_each, accept_hello, tail_parameters,
}
use openflux_zen_server.Session.Endpoint.Data.{is_mismatch}
use openflux_zen_server.Session.Endpoint.Delivery.{accepted_state, refused_state}

abbrev pub Result : Type 0
Result = Session × List Action

-- No packet is handed on.
unfoldable pub is_silent : List Action → Bool
is_silent [] = true
is_silent (Action.transmits n raw ∷ rest) = is_silent rest
is_silent (Action.transmits_classic n raw ∷ rest) = is_silent rest
is_silent (Action.delivers raw ∷ rest) = false
is_silent (Action.handles n raw ∷ rest) = is_silent rest
is_silent (Action.pongs n ∷ rest) = is_silent rest

-- A well-formed hello of the other role.
pub record IsHello (s : Session) (p : List ℕ) (env : Envelope) (t : HelloTail) : Type 0 where
  pub read : decode_envelope p ≡ parsed env
  pub role : (env.role == role_locked s) ≡ false
  pub kind : (env.kind == kind_hello) ≡ true
  pub running : s.stopped ≡ false
  pub own_set : same_bytes env.local_challenge zero_challenge ≡ false
  pub valid : valid_parameters (tail_parameters t) ≡ true

-- A data packet of the other role that echoes both challenges of a ready Session.
pub record IsData (s : Session) (p : List ℕ) (env : Envelope) (seq : ℕ) : Type 0 where
  pub read : decode_envelope p ≡ parsed env
  pub role : (env.role == role_locked s) ≡ false
  pub kind : (env.kind == kind_ipv4) ≡ true
  pub numbered : env.data_sequence ≡ some seq
  pub up : (not s.ready || s.stopped) ≡ false
  pub echoes : is_mismatch s env ≡ false
  pub permitted : permitted_packet (drop envelope_size p) s.remote ≡ none

pub data Received (w : World) (s : Session) (link : ℕ) (p : List ℕ) (r : Result) : Type 0 where
  ignored : r ≡ (s, []) → Received w s link p r
  greeted :
      (env : Envelope) (t : HelloTail)
      → IsHello s p env t
      → (s.ready && not (same_bytes env.local_challenge s.peer)) ≡ false
      → r ≡ accept_hello w s link (tail_parameters t) env t
      → Received w s link p r
  offered :
      (c : Option CandidatePeer) (last : Option ℕ)
      → r.0 ≡ record s { candidate = c; candidate_last = last }
      → is_silent r.1 ≡ true
      → Received w s link p r
  replaced :
      (env : Envelope) (t : HelloTail) (c : CandidatePeer)
      → IsHello s p env t
      → current_candidate w.now s.candidate ≡ some c
      → same_bytes c.sender env.local_challenge ≡ true
      → same_bytes env.peer_challenge c.own ≡ true
      → r ≡ take_over w (record s { candidate = some c }) link (tail_parameters t) c
      → Received w s link p r
  handed :
      (env : Envelope) (seq : ℕ)
      → IsData s p env seq
      → (accept_sequence s.sequences seq).1 ≡ true
      → r ≡ (accepted_state w s link seq, delivery s (drop envelope_size p))
      → Received w s link p r
  repeated : (seq : ℕ) → r ≡ (refused_state s seq, []) → Received w s link p r
  told :
      (alive : Bool)
      → s.ready ≡ true
      → r.0 ≡ record (hear (some w.now) link s) { peer_keepalive = alive }
      → is_silent r.1 ≡ true
      → Received w s link p r

is_silent-append :
    (xs ys : List Action) → is_silent xs ≡ true → is_silent ys ≡ true → is_silent (xs ++ ys) ≡ true
unfolding is_silent
is_silent-append [] ys hx hy = hy
is_silent-append (Action.transmits n raw ∷ xs) ys hx hy = is_silent-append xs ys hx hy
is_silent-append (Action.transmits_classic n raw ∷ xs) ys hx hy = is_silent-append xs ys hx hy
is_silent-append (Action.delivers raw ∷ xs) ys hx hy = hx
is_silent-append (Action.handles n raw ∷ xs) ys hx hy = is_silent-append xs ys hx hy
is_silent-append (Action.pongs n ∷ xs) ys hx hy = is_silent-append xs ys hx hy

is_silent-send_encoded : (n : ℕ) (e : Encoded) → is_silent (send_encoded n e) ≡ true
unfolding is_silent send_encoded
is_silent-send_encoded n (encoded raw) = refl
is_silent-send_encoded n (unencoded e) = refl

pub is_silent-hello_each : (s : Session) (names : List ℕ) → is_silent (hello_each s names) ≡ true
unfolding hello_each hello_via is_silent
is_silent-hello_each s [] = refl
is_silent-hello_each s (n ∷ names) =
    is_silent-append (hello_via s n) (hello_each s names)
      (either (λ a. is_silent a ≡ true) (has_link s.order n) _ [] (λ e. is_silent-send_encoded n _)
        (λ e. refl))
      (is_silent-hello_each s names)

is_silent-offer_via : (s : Session) (c : CandidatePeer) (n : ℕ) → is_silent (offer_via s c n) ≡ true
unfolding offer_via is_silent
is_silent-offer_via s c n =
    either (λ a. is_silent a ≡ true) ((s.links n).started)
      (send_encoded n (encode_envelope (offer_hello s c))) []
      (λ e. is_silent-send_encoded n (encode_envelope (offer_hello s c))) (λ e. refl)

pub is_silent-offer_each :
    (s : Session) (c : CandidatePeer) (names : List ℕ) → is_silent (offer_each s c names) ≡ true
unfolding offer_each is_silent
is_silent-offer_each s c [] = refl
is_silent-offer_each s c (n ∷ names) =
    is_silent-append (offer_via s c n) (offer_each s c names) (is_silent-offer_via s c n)
      (is_silent-offer_each s c names)
