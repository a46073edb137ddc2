-- ===== src/Session/Endpoint/Agreement.antt =====
-- The handshake of two Sessions (transport/session.go): three hellos make both ready.
use openflux_zen_server.Prelude.{
  ℕ, ◌%◌, ◌^◌, ◌<◌, ◌≡◌, refl, sym, ◌∙◌, ap, ◌⊎◌, Bool, true, false, not, ◌||◌, List, [], ◌∷◌, some,
  arith, ltb, ◌==◌, if◌then◌else◌, length, map, append-nil, All, same_bytes, same_bytes_comm,
  same_bytes_self,
}
use openflux_zen_server.Prelude.BitField.{and_bits_comm}
use openflux_zen_server.Control.{
  role_client, role_exit, HelloTail, Envelope, encoded, parsed, encode_envelope, decode_envelope,
}
use openflux_zen_server.Control.RoundTrip.{
  hello_body, envelope_of, Fits, wire, encode-wire, decode-wire,
}
use openflux_zen_server.Session.Admission.{PeerParameters, valid_parameters}
use openflux_zen_server.Session.Endpoint.{
  Session, World, Action, zero_challenge, hear, has_link, send_encoded, hello_via, hello_each,
  build_hello, role_locked, negotiated,
}
use openflux_zen_server.Session.Endpoint.Hello.{
  accept_hello, echoing_hello, unchanged_hello, valid_hello, receive_hello_tail, receive_hello,
  tail_parameters,
}
use openflux_zen_server.Session.Endpoint.Data.{receive, receive_parsed}

-- The tail of the hello of a Session, and the hello's bytes.
abbrev pub hello_tail : Session → HelloTail
hello_tail s = record {
  capabilities = s.params.capabilities;
  max_packet_size = s.params.max_packet_size % 65536;
  ready_flag = if s.ready then 1 else 0;
  reserved = 0;
}

abbrev pub hello_wire : Session → List ℕ
hello_wire s = wire (role_locked s) s.own s.peer (hello_body (hello_tail s))

pub known_role : (s : Session) → (role_locked s ≡ role_client) ⊎ (role_locked s ≡ role_exit)
unfolding role_locked
known_role s = ground arith

encode-build_hello : (s : Session) → encode_envelope (build_hello s) ≡ encoded (hello_wire s)
unfolding build_hello
encode-build_hello s =
    encode-wire (role_locked s) s.own s.peer (hello_body (hello_tail s)) (known_role s)

-- The transmission of one hello over each of some links.
abbrev pub hellos : List ℕ → List ℕ → List Action
hellos raw names = map (λ n. Action.transmits n raw) names

hello_each_linked :
    (s : Session) (names : List ℕ)
    → All (λ n. has_link s.order n ≡ true) names
    → hello_each s names ≡ hellos (hello_wire s) names
unfolding hello_each hello_via send_encoded
hello_each_linked s [] h = refl
hello_each_linked s (n ∷ names) h =
    rw (h.0, encode-build_hello s)
      (ap (◌∷◌ (Action.transmits n (hello_wire s))) (hello_each_linked s names h.1))

All-has_link :
    (order names : List ℕ)
    → All (λ n. has_link order n ≡ true) names
    → (m : ℕ) → All (λ n. has_link (m ∷ order) n ≡ true) names
unfolding has_link
All-has_link order [] h m = tt
All-has_link order (n ∷ names) h m =
    let found = h.0 in (ground arith, All-has_link order names h.1 m)

All-has_link_self : (order : List ℕ) → All (λ n. has_link order n ≡ true) order
unfolding has_link
All-has_link_self [] = tt
All-has_link_self (n ∷ order) = (ground arith, All-has_link order order (All-has_link_self order) n)

pub hello_each_lem : (s : Session) → hello_each s s.order ≡ hellos (hello_wire s) s.order
hello_each_lem s = hello_each_linked s s.order (All-has_link_self s.order)

pub negotiated_comm : (a b : PeerParameters) → negotiated a b ≡ negotiated b a
unfolding negotiated
negotiated_comm a b =
    let same : (if ltb a.max_packet_size b.max_packet_size
          then a.max_packet_size
          else b.max_packet_size)
        ≡ (if ltb b.max_packet_size a.max_packet_size
            then b.max_packet_size
            else a.max_packet_size) =
      ground arith in
    rw (same, and_bits_comm 32 a.capabilities b.capabilities) refl

-- What a Session asks of the other one, to hear its hello.
pub record CanHear (s o : Session) : Type 0 where
  pub running : s.stopped ≡ false
  pub roles : (role_locked o == role_locked s) ≡ false
  pub own_length : length o.own ≡ 32
  pub peer_length : length o.peer ≡ 32
  pub own_set : same_bytes o.own zero_challenge ≡ false
  pub valid : valid_parameters o.params ≡ true

abbrev hello_of : Session → Envelope
hello_of o = envelope_of (role_locked o) o.own o.peer (hello_body (hello_tail o))

size_kept :
    (p : PeerParameters)
    → valid_parameters p ≡ true
    → (p.max_packet_size % 65536 ≡ p.max_packet_size) × (p.capabilities < 2 ^ 32)
unfolding valid_parameters
size_kept p h = ground arith

flag_bound : (b : Bool) → (if b then 1 else 0) < 2
flag_bound true = omega arith
flag_bound false = omega arith

receive-hello_wire :
    (w : World) (s o : Session) (link : ℕ)
    → CanHear s o
    → receive w s link (hello_wire o) ≡ valid_hello w s link o.params (hello_of o) (hello_tail o)
unfolding receive receive_parsed receive_hello receive_hello_tail tail_parameters
receive-hello_wire w s o link h =
    let (same_size, small) = size_kept o.params h.valid in
    let flag = flag_bound o.ready in
    let fits : Fits (hello_body (hello_tail o)) [] =
      (small, omega arith, omega arith, omega arith) in
    let read : decode_envelope (hello_wire o) ≡ parsed (hello_of o) =
      ap decode_envelope (sym (append-nil (hello_wire o)))
      ∙ decode-wire (role_locked o) o.own o.peer (hello_body (hello_tail o)) [] (known_role o)
          h.own_length h.peer_length fits in
    let params : record {
      capabilities = o.params.capabilities;
      max_packet_size = o.params.max_packet_size % 65536;
    }
        ≡ o.params =
      rw same_size refl in
    let low : ltb 1 (if o.ready then 1 else 0) ≡ false = ground arith in
    rw (read, h.roles, h.running, low, h.own_set, params, h.valid) refl

-- A Session after the first hello of `o`, and after one that echoes its own challenge.
abbrev pub met : World → Session → ℕ → Session → Session
met w s link o = hear (some w.now) link (record s { peer = o.own })

abbrev pub agreed : World → Session → ℕ → Session → Session
agreed w s link o =
    hear (some w.now) link
      (record s { peer = o.own; remote = negotiated o.params s.params; ready = true })

accepted_first :
    (w : World) (s o : Session) (link : ℕ)
    → s.ready ≡ false
    → same_bytes o.peer s.own ≡ false
    → same_bytes o.peer zero_challenge ≡ true
    → same_bytes o.own s.peer ≡ false
    → valid_hello w s link o.params (hello_of o) (hello_tail o)
      ≡ (met w s link o, hello_each (met w s link o) s.order)
unfolding valid_hello unchanged_hello echoing_hello accept_hello
accepted_first w s o link unready differs zero new = simp (unready, differs, zero, new)

or_true : (b : Bool) → (b || true) ≡ true
or_true true = refl
or_true false = refl

accepted_echo :
    (w : World) (s o : Session) (link : ℕ)
    → s.ready ≡ false
    → same_bytes o.peer s.own ≡ true
    → valid_hello w s link o.params (hello_of o) (hello_tail o)
      ≡ (agreed w s link o, hello_each (agreed w s link o) s.order)
unfolding valid_hello unchanged_hello echoing_hello accept_hello
accepted_echo w s o link unready same =
    simp (unready, same, or_true (not (same_bytes o.own s.peer)))

pub receive_first :
    (w : World) (s o : Session) (link : ℕ)
    → CanHear s o
    → s.ready ≡ false
    → s.peer ≡ zero_challenge
    → o.peer ≡ zero_challenge
    → same_bytes s.own zero_challenge ≡ false
    → receive w s link (hello_wire o)
      ≡ (met w s link o, hellos (hello_wire (met w s link o)) s.order)
unfolding hear
receive_first w s o link h unready alone first own =
    let differs : same_bytes o.peer s.own ≡ false =
      ap (λ p. same_bytes p s.own) first ∙ same_bytes_comm zero_challenge s.own ∙ own in
    let zero : same_bytes o.peer zero_challenge ≡ true =
      ap (λ p. same_bytes p zero_challenge) first in
    let new : same_bytes o.own s.peer ≡ false = ap (same_bytes o.own) alone ∙ h.own_set in
    receive-hello_wire w s o link h
    ∙ accepted_first w s o link unready differs zero new
    ∙ ap (λ a. (met w s link o, a)) (hello_each_lem (met w s link o))

pub receive_echo :
    (w : World) (s o : Session) (link : ℕ)
    → CanHear s o
    → s.ready ≡ false
    → o.peer ≡ s.own
    → receive w s link (hello_wire o)
      ≡ (agreed w s link o, hellos (hello_wire (agreed w s link o)) s.order)
unfolding hear
receive_echo w s o link h unready echo =
    let same : same_bytes o.peer s.own ≡ true =
      ap (λ p. same_bytes p s.own) echo ∙ same_bytes_self s.own in
    receive-hello_wire w s o link h
    ∙ accepted_echo w s o link unready same
    ∙ ap (λ a. (agreed w s link o, a)) (hello_each_lem (agreed w s link o))

-- Two Sessions that are ready for each other.
pub record Established (a b : Session) : Type 0 where
  pub ready : (a.ready ≡ true) × (b.ready ≡ true)
  pub running : (a.stopped ≡ false) × (b.stopped ≡ false)
  pub roles : (role_locked a == role_locked b) ≡ false
  pub knows : a.peer ≡ b.own
  pub known : b.peer ≡ a.own
  pub limits : a.remote ≡ b.remote
  pub lengths : (length a.own ≡ 32) × (length b.own ≡ 32)

-- Two Sessions that have not heard of each other yet: of opposite roles, with valid parameters and
-- with challenges of their own.
pub record Strangers (a b : Session) : Type 0 where
  pub unready : (a.ready ≡ false) × (b.ready ≡ false)
  pub running : (a.stopped ≡ false) × (b.stopped ≡ false)
  pub roles : (role_locked a == role_locked b) ≡ false
  pub alone : (a.peer ≡ zero_challenge) × (b.peer ≡ zero_challenge)
  pub lengths : (length a.own ≡ 32) × (length b.own ≡ 32)
  pub own_set :
      (same_bytes a.own zero_challenge ≡ false) × (same_bytes b.own zero_challenge ≡ false)
  pub valid : (valid_parameters a.params ≡ true) × (valid_parameters b.params ≡ true)
