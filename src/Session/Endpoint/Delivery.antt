-- ===== src/Session/Endpoint/Delivery.antt =====
-- Data between two Sessions that are ready for each other (transport/session.go).
use openflux_zen_server.Prelude.{
  ℕ, ◌^◌, ◌<◌, ◌≡◌, refl, sym, ◌∙◌, ap, inl, inr, true, false, List, [], ◌∷◌, ◌++◌, none, some,
  if◌then◌else◌, length, drop, All, drop_front, same_bytes, same_bytes_self, Bool-cases,
}
use openflux_zen_server.Control.{parsed, decode_envelope, envelope_size}
use openflux_zen_server.Control.RoundTrip.{data_body, envelope_of, wire, decode-wire, length-wire}
use openflux_zen_server.Session.Admission.{permitted_packet}
use openflux_zen_server.Session.Replay.{Sequences, accept_sequence}
use openflux_zen_server.Session.Replay.Refinement.{
  Tracks, is_new, accept_sequence_answer, accept_sequence-Tracks,
}
use openflux_zen_server.Session.Endpoint.{Session, World, Action, hear, role_locked}
use openflux_zen_server.Session.Endpoint.Classic.{delivery}
use openflux_zen_server.Session.Endpoint.Data.{
  is_mismatch, receive_fresh, receive_permitted, receive_data, receive_ipv4, receive_parsed,
  receive,
}
use openflux_zen_server.Session.Endpoint.Agreement.{Established, known_role}

-- The bytes of a data packet of a Session.
abbrev pub data_packet : Session → ℕ → List ℕ → List ℕ
data_packet a seq payload = wire (role_locked a) a.own a.peer (data_body seq) ++ payload

pub receive-data_packet :
    (w : World) (a b : Session) (link seq : ℕ) (payload : List ℕ)
    → Established a b
    → seq < 2 ^ 64
    → permitted_packet payload b.remote ≡ none
    → receive w b link (data_packet a seq payload) ≡ receive_fresh w b link payload seq
unfolding receive receive_parsed receive_ipv4 receive_data receive_permitted is_mismatch
receive-data_packet w a b link seq payload h small permitted =
    let peer_length : length a.peer ≡ 32 = ap length h.knows ∙ h.lengths.1 in
    let read : decode_envelope (data_packet a seq payload)
        ≡ parsed (envelope_of (role_locked a) a.own a.peer (data_body seq)) =
      decode-wire (role_locked a) a.own a.peer (data_body seq) payload (known_role a) h.lengths.0
        peer_length small in
    let behind : drop envelope_size (data_packet a seq payload) ≡ payload =
      drop_front envelope_size (wire (role_locked a) a.own a.peer (data_body seq)) payload
        (length-wire (role_locked a) a.own a.peer (data_body seq) h.lengths.0 peer_length) in
    let own : same_bytes a.own b.peer ≡ true =
      ap (same_bytes a.own) h.known ∙ same_bytes_self a.own in
    let echo : same_bytes a.peer b.own ≡ true =
      ap (λ x. same_bytes x b.own) h.knows ∙ same_bytes_self b.own in
    ap (receive_parsed w b link (data_packet a seq payload)) read
    ∙ simp (h.roles, h.ready.1, h.running.1, own, echo, behind, permitted)

-- A data packet of `a` that arrives at `b`.
pub record Arrival : Type 0 where
  pub world : World
  pub link : ℕ
  pub seq : ℕ
  pub payload : List ℕ

-- What `b` does over a run of arrivals.
unfoldable pub receive_each : Session → Session → List Arrival → List Action
receive_each a b [] = []
receive_each a b (x ∷ xs) =
    let r = receive x.world b x.link (data_packet a x.seq x.payload) in r.1 ++ receive_each a r.0 xs

-- The specification: each packet whose sequence number is new is handed on, as it came in.
unfoldable pub new_payloads : List ℕ → List Arrival → List Action
new_payloads seen [] = []
new_payloads seen (x ∷ xs) =
    if is_new seen x.seq
    then Action.delivers x.payload ∷ new_payloads (x.seq ∷ seen) xs
    else new_payloads seen xs

-- The packet's number is a uint64, and the peer may send the packet.
abbrev pub IsSendable : Session → Arrival → Type 0
IsSendable b x = (x.seq < 2 ^ 64) × (permitted_packet x.payload b.remote ≡ none)

unfoldable pub accepted_state : World → Session → ℕ → ℕ → Session
accepted_state w b link seq =
    hear (some w.now) link (record b { sequences = (accept_sequence b.sequences seq).0 })

unfoldable pub refused_state : Session → ℕ → Session
refused_state b seq = record b { sequences = (accept_sequence b.sequences seq).0 }

pub receive_accepted :
    (w : World) (b : Session) (link seq : ℕ) (payload : List ℕ)
    → b.data_callback ≡ true
    → (accept_sequence b.sequences seq).1 ≡ true
    → receive_fresh w b link payload seq
      ≡ (accepted_state w b link seq, Action.delivers payload ∷ [])
unfolding receive_fresh accepted_state delivery
receive_accepted w b link seq payload called e = simp (e, called)

receive_refused :
    (w : World) (b : Session) (link seq : ℕ) (payload : List ℕ)
    → (accept_sequence b.sequences seq).1 ≡ false
    → receive_fresh w b link payload seq ≡ (refused_state b seq, [])
unfolding receive_fresh refused_state
receive_refused w b link seq payload e = simp e

Established-accepted :
    (w : World) (a b : Session) (link seq : ℕ)
    → Established a b
    → Established a (accepted_state w b link seq)
unfolding accepted_state hear role_locked
Established-accepted w a b link seq h = record {
  ready = h.ready;
  running = h.running;
  roles = h.roles;
  knows = h.knows;
  known = h.known;
  limits = h.limits;
  lengths = h.lengths;
}

Established-refused :
    (a b : Session) (seq : ℕ) → Established a b → Established a (refused_state b seq)
unfolding refused_state role_locked
Established-refused a b seq h = record {
  ready = h.ready;
  running = h.running;
  roles = h.roles;
  knows = h.knows;
  known = h.known;
  limits = h.limits;
  lengths = h.lengths;
}

next_seen :
    (s : Sequences) (seen next : List ℕ) (seq : ℕ)
    → Tracks s seen
    → (if (accept_sequence s seq).1 then seq ∷ seen else seen) ≡ next
    → Tracks (accept_sequence s seq).0 next
next_seen s seen next seq tracks e = rw (← e) (accept_sequence-Tracks s seen seq tracks)

-- Over any carriers: whatever data packets of its peer arrive at a Session that is ready for it, in
-- whatever order, over whatever links and however often, the Session hands on exactly the packets
-- whose number is new, each as it was sent and once. `seen` are the numbers accepted so far.
pub receive_each-new_payloads :
    (a b : Session) (seen : List ℕ) (xs : List Arrival)
    → Established a b
    → b.data_callback ≡ true
    → Tracks b.sequences seen
    → All (IsSendable b) xs
    → receive_each a b xs ≡ new_payloads seen xs
unfolding receive_each new_payloads accepted_state refused_state hear
receive_each-new_payloads a b seen [] h called tracks fine = refl
receive_each-new_payloads a b seen (x ∷ xs) h called tracks fine =
    let arrives = receive-data_packet x.world a b x.link x.seq x.payload h fine.0.0 fine.0.1 in
    let answer = accept_sequence_answer b.sequences seen x.seq tracks in
    elim (Bool-cases (accept_sequence b.sequences x.seq).1) [
      | inl e ↦
          let step = arrives ∙ receive_accepted x.world b x.link x.seq x.payload called e in
          let tracks' = next_seen b.sequences seen (x.seq ∷ seen) x.seq tracks (rw e refl) in
          let rest =
            receive_each-new_payloads a (accepted_state x.world b x.link x.seq) (x.seq ∷ seen) xs
              (Established-accepted x.world a b x.link x.seq h) called tracks' fine.1 in
          let new : is_new seen x.seq ≡ true = sym answer ∙ e in
          rw (step, new) (ap (◌∷◌ (Action.delivers x.payload)) rest)
      | inr e ↦
          let step = arrives ∙ receive_refused x.world b x.link x.seq x.payload e in
          let tracks' = next_seen b.sequences seen seen x.seq tracks (rw e refl) in
          let rest =
            receive_each-new_payloads a (refused_state b x.seq) seen xs
              (Established-refused a b x.seq h) called tracks' fine.1 in
          let old : is_new seen x.seq ≡ false = sym answer ∙ e in rw (step, old) rest
    ]
