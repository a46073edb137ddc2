-- ===== src/Session/Endpoint/Takeover.antt =====
-- What it takes to replace the peer of a Session, and to have a packet handed on
-- (transport/session.go).
use openflux_zen_server.Prelude.{
  ℕ, ◌≤◌, ◌≡◌, ◌≢◌, refl, sym, ◌∙◌, ap, ◌⊎◌, inl, inr, Bool, true, false, not, ◌||◌, if◌then◌else◌,
  ◌&&◌, List, [], Option, none, some, arith, ltb, ◌==◌, drop, same_bytes, same_bytes_iff,
  Bool-cases, either, not-false, ◌∷◌,
}
use openflux_zen_server.Control.{
  kind_hello, kind_ipv4, envelope_size, HelloTail, Envelope, parsed, decode_envelope,
}
use openflux_zen_server.Session.Admission.{PeerParameters}
use openflux_zen_server.Session.Admission.Permits.{IsPermitted, permitted_packet_iff}
use openflux_zen_server.Session.Replay.{Sequences, fresh, accept_sequence}
use openflux_zen_server.Session.Replay.Refinement.{
  Tracks, is_new, accept_sequence_answer, accept_sequence-Tracks,
}
use openflux_zen_server.Session.Endpoint.{
  CandidatePeer, Session, World, Action, hear, hello_each, role_locked,
}
use openflux_zen_server.Session.Endpoint.Classic.{delivery}
use openflux_zen_server.Session.Endpoint.Hello.{current_candidate, take_over, accept_hello}
use openflux_zen_server.Session.Endpoint.Data.{is_mismatch, receive}
use openflux_zen_server.Session.Endpoint.Delivery.{accepted_state, refused_state}
use openflux_zen_server.Session.Endpoint.Steps.{
  Result, is_silent, Received, ignored, greeted, offered, replaced, handed, repeated, told,
  is_silent-hello_each,
}
use openflux_zen_server.Session.Endpoint.Cases.{receive-Received}

-- A hello that takes over: it comes from the candidate, in time, and echoes the challenge made for
-- that candidate. The Session starts anew with it.
pub record IsTakeover (w : World) (s : Session) (p : List ℕ) (s' : Session) (c : CandidatePeer)
    : Type 0 where
  pub env : Envelope
  pub read : decode_envelope p ≡ parsed env
  pub kind : (env.kind == kind_hello) ≡ true
  pub role : (env.role == role_locked s) ≡ false
  pub offered : s.candidate ≡ some c
  pub timely : w.now ≤ c.expires
  pub sender : c.sender ≡ env.local_challenge
  pub echo : env.peer_challenge ≡ c.own
  pub peer : s'.peer ≡ c.sender
  pub own : s'.own ≡ c.own
  pub counted : s'.sequence ≡ 0
  pub seen : s'.sequences ≡ fresh

none-some : (c : CandidatePeer) → none ≡ some c → ⊥
none-some c h = cc

expires_kept : (now : ℕ) (d c : CandidatePeer) → some d ≡ some c → now ≤ d.expires → now ≤ c.expires
expires_kept now d c h le = let same : d ≡ c = cc in rw (← same) le

current_candidate-some :
    (now : ℕ) (o : Option CandidatePeer) (c : CandidatePeer)
    → current_candidate now o ≡ some c
    → (o ≡ some c) × (now ≤ c.expires)
unfolding current_candidate
current_candidate-some now none c h = absurd cc
current_candidate-some now (some d) c h = elim (Bool-cases (ltb d.expires now)) [
  | inl e ↦
      let gone : current_candidate now (some d) ≡ none = rw e refl in
      absurd (none-some c (sym gone ∙ h))
  | inr e ↦
      let kept : current_candidate now (some d) ≡ some d = rw e refl in
      let same : some d ≡ some c = sym kept ∙ h in (same, expires_kept now d c same (ground arith))
]

peer_kept :
    (w : World) (s : Session) (link : ℕ) (p : List ℕ) (r : Result)
    → s.ready ≡ true
    → Received w s link p r
    → (r.0.peer ≡ s.peer) ⊎ ((c : CandidatePeer) × IsTakeover w s p r.0 c)
unfolding hear accept_hello take_over accepted_state refused_state
peer_kept w s link p r up (ignored e) = inl (ap (λ x. x.0.peer) e)
peer_kept w s link p r up (greeted env t h same e) =
    let known : same_bytes env.local_challenge s.peer ≡ true =
      not-false _ (ap (λ b. b && not (same_bytes env.local_challenge s.peer)) (sym up) ∙ same) in
    inl (ap (λ x. x.0.peer) e ∙ (same_bytes_iff env.local_challenge s.peer).0 known)
peer_kept w s link p r up (offered c last e quiet) = inl (ap (λ x. x.peer) e)
peer_kept w s link p r up (replaced env t c h current sender echo e) =
    let (offer, timely) = current_candidate-some w.now s.candidate c current in
    inr (
      c,
      record {
        env = env;
        read = h.read;
        kind = h.kind;
        role = h.role;
        offered = offer;
        timely = timely;
        sender = (same_bytes_iff c.sender env.local_challenge).0 sender;
        echo = (same_bytes_iff env.peer_challenge c.own).0 echo;
        peer = ap (λ x. x.0.peer) e;
        own = ap (λ x. x.0.own) e;
        counted = ap (λ x. x.0.sequence) e;
        seen = ap (λ x. x.0.sequences) e;
      },
    )
peer_kept w s link p r up (handed env seq h fine e) = inl (ap (λ x. x.0.peer) e)
peer_kept w s link p r up (repeated seq e) = inl (ap (λ x. x.0.peer) e)
peer_kept w s link p r up (told alive h e quiet) = inl (ap (λ x. x.peer) e)

-- No hijacking: a packet that arrives at a ready Session changes its peer only if it is a hello of the
-- other role from the current candidate that comes in time and echoes the challenge that the Session
-- drew for that candidate; the Session then starts anew with it.
pub receive-IsTakeover :
    (w : World) (s : Session) (link : ℕ) (p : List ℕ)
    → s.ready ≡ true
    → (receive w s link p).0.peer ≢ s.peer
    → (c : CandidatePeer) × IsTakeover w s p (receive w s link p).0 c
receive-IsTakeover w s link p up changed =
    elim (peer_kept w s link p (receive w s link p) up (receive-Received w s link p)) [
      | inl same ↦ absurd (changed same)
      | inr taken ↦ taken
    ]

-- A packet that is handed on: a data packet of the peer that carries both challenges, is permitted, and
-- has a number that is new after `seen`.
pub record IsHandedOn (s : Session) (seen : List ℕ) (p : List ℕ) (r : Result) : Type 0 where
  pub env : Envelope
  pub seq : ℕ
  pub up : s.ready ≡ true
  pub running : s.stopped ≡ false
  pub read : decode_envelope p ≡ parsed env
  pub kind : env.kind ≡ kind_ipv4
  pub role : env.role ≢ role_locked s
  pub numbered : env.data_sequence ≡ some seq
  pub sender : env.local_challenge ≡ s.peer
  pub receiver : env.peer_challenge ≡ s.own
  pub permitted : IsPermitted (drop envelope_size p) s.remote
  pub new : is_new seen seq ≡ true
  pub tracked : Tracks r.0.sequences (seq ∷ seen)
  pub actions : r.1 ≡ Action.delivers (drop envelope_size p) ∷ []

is_silent-accept_hello :
    (w : World) (s : Session) (link : ℕ) (params : PeerParameters) (env : Envelope) (t : HelloTail)
    → is_silent (accept_hello w s link params env t).1 ≡ true
unfolding accept_hello is_silent
is_silent-accept_hello w s link params env t =
    either (λ a. is_silent a ≡ true) _ (hello_each _ s.order) []
      (λ e. is_silent-hello_each _ s.order) (λ e. refl)

delivery-loud :
    (s : Session) (q : List ℕ)
    → is_silent (delivery s q) ≡ false
    → delivery s q ≡ Action.delivers q ∷ []
unfolding delivery is_silent
delivery-loud s q loud = elim (Bool-cases s.data_callback) [
  | inl e ↦ simp e
  | inr e ↦ let quiet : is_silent (delivery s q) ≡ true = rw e refl in absurd cc
]

silent_not : (r : Result) → is_silent r.1 ≡ true → is_silent r.1 ≡ false → ⊥
silent_not r a b = cc

both_same : (a b : Bool) → (not a || not b) ≡ false → (a ≡ true) × (b ≡ true)
both_same true true h = (refl, refl)
both_same true false h = absurd cc
both_same false b h = absurd cc

both_up :
    (ready stopped : Bool) → (not ready || stopped) ≡ false → (ready ≡ true) × (stopped ≡ false)
both_up true stopped h = (refl, h)
both_up false stopped h = absurd cc

both_challenges :
    (s : Session) (env : Envelope)
    → is_mismatch s env ≡ false
    → (env.local_challenge ≡ s.peer) × (env.peer_challenge ≡ s.own)
unfolding is_mismatch
both_challenges s env h =
    let (a, b) = both_same _ _ h in
    ((same_bytes_iff env.local_challenge s.peer).0 a, (same_bytes_iff env.peer_challenge s.own).0 b)

tracked_next :
    (s : Sequences) (seen : List ℕ) (seq : ℕ)
    → Tracks s seen
    → (accept_sequence s seq).1 ≡ true
    → Tracks (accept_sequence s seq).0 (seq ∷ seen)
tracked_next s seen seq v fine =
    let next : (if (accept_sequence s seq).1 then seq ∷ seen else seen) ≡ seq ∷ seen =
      rw fine refl in
    rw (← next) (accept_sequence-Tracks s seen seq v)

handed_on :
    (w : World) (s : Session) (seen : List ℕ) (link : ℕ) (p : List ℕ) (r : Result)
    → Tracks s.sequences seen
    → is_silent r.1 ≡ false
    → Received w s link p r
    → IsHandedOn s seen p r
unfolding is_silent accept_hello take_over accepted_state hear delivery
handed_on w s seen link p r v loud (ignored e) =
    absurd (silent_not r (ap (λ x. is_silent x.1) e) loud)
handed_on w s seen link p r v loud (greeted env t h same e) =
    absurd (silent_not r (ap (λ x. is_silent x.1) e ∙ is_silent-accept_hello w s link _ env t) loud)
handed_on w s seen link p r v loud (offered c last e quiet) = absurd (silent_not r quiet loud)
handed_on w s seen link p r v loud (replaced env t c h current sender echo e) =
    absurd (silent_not r (ap (λ x. is_silent x.1) e ∙ is_silent-hello_each _ s.order) loud)
handed_on w s seen link p r v loud (handed env seq h fine e) = record {
  env = env;
  seq = seq;
  up = (both_up s.ready s.stopped h.up).0;
  running = (both_up s.ready s.stopped h.up).1;
  read = h.read;
  kind = ground (arith, h.kind);
  role = λ same. ground (arith, h.role);
  numbered = h.numbered;
  sender = (both_challenges s env h.echoes).0;
  receiver = (both_challenges s env h.echoes).1;
  permitted = (permitted_packet_iff (drop envelope_size p) s.remote).0 h.permitted;
  new = sym (accept_sequence_answer s.sequences seen seq v) ∙ fine;
  tracked =
      let moved : r.0.sequences ≡ (accept_sequence s.sequences seq).0 = ap (λ x. x.0.sequences) e in
      rw moved (tracked_next s.sequences seen seq v fine);
  actions =
      ap (λ x. x.1) e
      ∙ delivery-loud s (drop envelope_size p) (sym (ap (λ x. is_silent x.1) e) ∙ loud);
}
handed_on w s seen link p r v loud (repeated seq e) =
    absurd (silent_not r (ap (λ x. is_silent x.1) e) loud)
handed_on w s seen link p r v loud (told alive h e quiet) = absurd (silent_not r quiet loud)

-- Only what the peer sent is handed on: when a packet that arrives makes a Session call its data
-- callback, and its ring stands for the accepted numbers `seen`, then the Session was ready and not
-- stopped; the packet is a data packet of the other role, with the peer's challenge as its sender's and
-- the Session's own as its receiver's; its payload is permitted; its number is not 0, not among `seen`
-- and less than 4096 behind the greatest of them, and is accepted from then on; and the payload is
-- handed on as it came, once.
pub receive-IsHandedOn :
    (w : World) (s : Session) (seen : List ℕ) (link : ℕ) (p : List ℕ)
    → Tracks s.sequences seen
    → is_silent (receive w s link p).1 ≡ false
    → IsHandedOn s seen p (receive w s link p)
receive-IsHandedOn w s seen link p v loud =
    handed_on w s seen link p (receive w s link p) v loud (receive-Received w s link p)
