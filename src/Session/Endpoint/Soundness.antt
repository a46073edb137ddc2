-- ===== src/Session/Endpoint/Soundness.antt =====
-- What holds of a Session in every state that it can reach (transport/session.go).
use openflux_zen_server.Prelude.{
  ℕ, ◌/◌, ◌%◌, ◌^◌, ◌≤◌, ◌<◌, ◌≡◌, Bool, true, false, List, [], ◌∷◌, arith, if◌then◌else◌,
  same_bytes, same_bytes_iff,
}
use openflux_zen_server.Prelude.BitField.{and_bits, and_bits_le, and_bits_step}
use openflux_zen_server.Session.Admission.{PeerParameters, valid_parameters}
use openflux_zen_server.Session.Replay.{Sequences, accept_sequence}
use openflux_zen_server.Session.Replay.Refinement.{Tracks, fresh-Tracks, accept_sequence-Tracks}
use openflux_zen_server.Session.Endpoint.{Session, World, zero_challenge, hear, negotiated}
use openflux_zen_server.Control.{HelloTail, Envelope}
use openflux_zen_server.Session.Endpoint.Hello.{take_over, accept_hello, tail_parameters}
use openflux_zen_server.Session.Endpoint.Delivery.{accepted_state, refused_state}
use openflux_zen_server.Session.Endpoint.Steps.{
  Result, IsHello, Received, ignored, greeted, offered, replaced, handed, repeated, told,
}

-- The capabilities that `validParameters` takes: bits 0 and 1, bits 2 and 4 if they are set, no others.
abbrev IsKnown : ℕ → Type 0
IsKnown a = (a / 32 ≡ 0) × (a / 8 % 2 ≡ 0) × (a % 4 ≡ 3)

and_bits-IsKnown : (a b : ℕ) → IsKnown a → IsKnown b → IsKnown (and_bits 32 a b)
and_bits-IsKnown a b ha hb =
    let (a₅, a₃, a₂) = ha in
    let (b₅, b₃, b₂) = hb in
    let s₀ = and_bits_step 31 a b in
    let s₁ = and_bits_step 30 (a / 2) (b / 2) in
    let s₂ = and_bits_step 29 (a / 2 / 2) (b / 2 / 2) in
    let s₃ = and_bits_step 28 (a / 2 / 2 / 2) (b / 2 / 2 / 2) in
    let s₄ = and_bits_step 27 (a / 2 / 2 / 2 / 2) (b / 2 / 2 / 2 / 2) in
    let s₅ = and_bits_le 27 (a / 2 / 2 / 2 / 2 / 2) (b / 2 / 2 / 2 / 2 / 2) in
    (omega arith, omega arith, omega arith)

valid_parameters_parts :
    (p : PeerParameters)
    → valid_parameters p ≡ true
    → IsKnown p.capabilities × (1280 ≤ p.max_packet_size) × (p.max_packet_size ≤ 65000)
unfolding valid_parameters
valid_parameters_parts p h = ground arith

valid_parameters_of :
    (p : PeerParameters)
    → IsKnown p.capabilities
    → 1280 ≤ p.max_packet_size
    → p.max_packet_size ≤ 65000
    → valid_parameters p ≡ true
unfolding valid_parameters
valid_parameters_of p k lo hi = let (a, b, c) = k in ground arith

-- The parameters that two peers agree on are valid.
pub negotiated-valid_parameters :
    (a b : PeerParameters)
    → valid_parameters a ≡ true
    → valid_parameters b ≡ true
    → valid_parameters (negotiated a b) ≡ true
unfolding negotiated
negotiated-valid_parameters a b ha hb =
    let (ka, la, ua) = valid_parameters_parts a ha in
    let (kb, lb, ub) = valid_parameters_parts b hb in
    valid_parameters_of (negotiated a b) (and_bits-IsKnown a.capabilities b.capabilities ka kb)
      (ground arith) (ground arith)

pub record IsCoherent (s : Session) : Type 0 where
  pub params : valid_parameters s.params ≡ true
  pub peer : s.ready ≡ true → same_bytes s.peer zero_challenge ≡ false
  pub remote : s.ready ≡ true → valid_parameters s.remote ≡ true
  pub stays_down : s.stopped ≡ true → s.ready ≡ false
  pub tracked : (seen : List ℕ) × Tracks s.sequences seen
  pub counted : s.sequence < 2 ^ 64

sequences-next :
    (s : Sequences) (seq : ℕ)
    → (seen : List ℕ) × Tracks s seen
    → (seen : List ℕ) × Tracks (accept_sequence s seq).0 seen
sequences-next s seq v =
    (if (accept_sequence s seq).1 then seq ∷ v.0 else v.0, accept_sequence-Tracks s v.0 seq v.1)

true-false : (b : Bool) → b ≡ false → b ≡ true → ⊥
true-false b f t = cc

remote_agreed :
    (echo ready : Bool) (theirs remote : PeerParameters)
    → valid_parameters theirs ≡ true
    → (ready ≡ true → valid_parameters remote ≡ true)
    → (if echo then true else ready) ≡ true
    → valid_parameters (if echo then theirs else remote) ≡ true
remote_agreed true ready theirs remote valid before up = valid
remote_agreed false ready theirs remote valid before up = before up

accept_hello-IsCoherent :
    (w : World) (s : Session) (link : ℕ) (p : List ℕ) (env : Envelope) (t : HelloTail)
    → IsHello s p env t
    → IsCoherent s
    → IsCoherent (accept_hello w s link (tail_parameters t) env t).0
unfolding accept_hello hear
accept_hello-IsCoherent w s link p env t h v =
    let echo = same_bytes env.peer_challenge s.own in
    record {
      params = v.params;
      peer = λ up. h.own_set;
      remote = λ up.
          remote_agreed echo s.ready (negotiated (tail_parameters t) s.params) s.remote
            (negotiated-valid_parameters (tail_parameters t) s.params h.valid v.params) v.remote up;
      stays_down = λ down. absurd (true-false s.stopped h.running down);
      tracked = v.tracked;
      counted = v.counted;
    }

pub Received-IsCoherent :
    (w : World) (s : Session) (link : ℕ) (p : List ℕ) (r : Result)
    → IsCoherent s
    → Received w s link p r
    → IsCoherent r.0
unfolding hear take_over accepted_state refused_state
Received-IsCoherent w s link p r v (ignored e) = rw e v
Received-IsCoherent w s link p r v (greeted env t h same e) =
    rw e (accept_hello-IsCoherent w s link p env t h v)
Received-IsCoherent w s link p r v (offered c last e quiet) = rw e (record {
  params = v.params;
  peer = v.peer;
  remote = v.remote;
  stays_down = v.stays_down;
  tracked = v.tracked;
  counted = v.counted;
})
Received-IsCoherent w s link p r v (replaced env t c h current sender echo e) =
    let known = (same_bytes_iff c.sender env.local_challenge).0 sender in
    rw e (record {
      params = v.params;
      peer = λ up. rw known h.own_set;
      remote = λ up. negotiated-valid_parameters (tail_parameters t) s.params h.valid v.params;
      stays_down = v.stays_down;
      tracked = ([], fresh-Tracks);
      counted = omega arith;
    })
Received-IsCoherent w s link p r v (handed env seq h fine e) = rw e (record {
  params = v.params;
  peer = v.peer;
  remote = v.remote;
  stays_down = v.stays_down;
  tracked = sequences-next s.sequences seq v.tracked;
  counted = v.counted;
})
Received-IsCoherent w s link p r v (repeated seq e) = rw e (record {
  params = v.params;
  peer = v.peer;
  remote = v.remote;
  stays_down = v.stays_down;
  tracked = sequences-next s.sequences seq v.tracked;
  counted = v.counted;
})
Received-IsCoherent w s link p r v (told alive up e quiet) = rw e (record {
  params = v.params;
  peer = v.peer;
  remote = v.remote;
  stays_down = v.stays_down;
  tracked = v.tracked;
  counted = v.counted;
})
