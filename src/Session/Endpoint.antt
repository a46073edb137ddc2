-- ===== src/Session/Endpoint.antt =====
-- transport/session.go: the state of a Session, its links, and the hello that it sends. A link is the
-- number of its name, and `order` lists the names of the map `links`. A time is in nanoseconds, and
-- none is the zero time, which lies further back than any timeout. Left out are the counters, the
-- logging, the waits of Start, and what ReplaceTransport does before a link is up.
pub mod Hello
pub mod Data
pub mod Classic
pub mod Keepalive
pub mod Agreement
pub mod Handshake
pub mod Steps
pub mod Cases
pub mod Takeover
pub mod Soundness
pub mod Lifecycle
pub mod Preservation
pub mod Lifetime
pub mod Final
pub mod Delivery
pub mod Sending
use openflux_zen_server.Prelude.{
  ℕ, ◌+◌, ◌-◌, ◌*◌, ◌/◌, ◌%◌, Bool, true, false, not, ◌&&◌, ◌||◌, List, [], ◌∷◌, ◌++◌, Option, none,
  some, ltb, leb, ◌==◌, if◌then◌else◌, replicate,
}
use openflux_zen_server.Prelude.BitField.{and_bits}
use openflux_zen_server.Control.{
  kind_hello, role_client, role_exit, HelloTail, Envelope, EnvelopeError, Encoded, encoded,
  unencoded, encode_envelope,
}
use openflux_zen_server.Session.Admission.{PeerParameters, PacketError}
use openflux_zen_server.Session.Replay.{Sequences, fresh}
use openflux_zen_server.Session.Links.{live_links}

-- `candidatePeer`
pub record CandidatePeer : Type 0 where
  pub sender : List ℕ
  pub own : List ℕ
  pub expires : ℕ

-- `transportLink`; `classic` tells whether it has the classic pipeline.
pub record Link : Type 0 where
  pub priority : ℕ
  pub started : Bool
  pub dead : Bool
  pub last_heard : Option ℕ
  pub classic : Bool
  pub classic_heard : Option ℕ

pub data ClassicMode : Type 0 where
  classic_off classic_fallback classic_accept : ClassicMode

-- `Session`. `sequences` is the fields highest and window; of the two callbacks it is told whether
-- they are set.
pub record Session : Type 0 where
  pub own : List ℕ
  pub peer : List ℕ
  pub params : PeerParameters
  pub remote : PeerParameters
  pub exit : Bool
  pub ready : Bool
  pub started : Bool
  pub stopped : Bool
  pub sequence : ℕ
  pub sequences : Sequences
  pub keepalive_interval : ℕ
  pub link_timeout : ℕ
  pub peer_keepalive : Bool
  pub no_pong : Bool
  pub candidate : Option CandidatePeer
  pub candidate_last : Option ℕ
  pub links : ℕ → Link
  pub order : List ℕ
  pub data_callback : Bool
  pub control_callback : Bool
  pub classic : ClassicMode
  pub classic_link : Option ℕ
  pub classic_seen : Bool

-- What a call finds outside the Session: the clock, which links' raw transports are connected, the
-- bytes of rand.Read, and flowHashBytes, which is FNV-1a of the standard library.
pub record World : Type 0 where
  pub now : ℕ
  pub is_connected : ℕ → Bool
  pub random : Option (List ℕ)
  pub flow_hash : List ℕ → ℕ

-- What a call does outside the Session: a Send of a link's pipeline or of its classic one, a call of
-- a callback, and a pong, which is a sendControlVia of its own goroutine.
pub data Action : Type 0 where
  transmits : ℕ → List ℕ → Action
  transmits_classic : ℕ → List ℕ → Action
  delivers : List ℕ → Action
  handles : ℕ → List ℕ → Action
  pongs : ℕ → Action

-- The errors of `Send`, `SendControl` and `sendControlVia`.
pub data SendError : Type 0 where
  negotiation_pending exhausted no_live_transport not_ipv4 empty_subtype payload_too_large :
      SendError
  not_permitted : PacketError → SendError
  not_encoded : EnvelopeError → SendError

pub data Outcome : Type 0 where
  done : List Action → Outcome
  failed : SendError → Outcome

-- `[32]byte{}`
abbrev pub zero_challenge : List ℕ
zero_challenge = replicate 32 0

-- `time.Since(t) < timeout`
unfoldable pub within : ℕ → Option ℕ → ℕ → Bool
within now none timeout = false
within now (some t) timeout = ltb (now - t) timeout

-- `link.lastHeard = t`
unfoldable pub hear : Option ℕ → ℕ → Session → Session
hear t name s = record s {
  links = λ n. if n == name then record (s.links n) { last_heard = t } else s.links n;
}

-- `connectedLocked`, of a link there is
unfoldable pub connected_locked : World → Session → ℕ → Bool
connected_locked w s n = not ((s.links n).dead) && ((s.links n).started && w.is_connected n)

-- `heardLocked`
unfoldable pub heard_locked : World → Session → ℕ → Bool
heard_locked w s n = connected_locked w s n && within w.now ((s.links n).last_heard) s.link_timeout

-- `liveLinksLocked`
unfoldable pub live_links_locked : World → Session → List ℕ
live_links_locked w s = live_links (heard_locked w s) (connected_locked w s) s.order

-- `roleLocked`
unfoldable pub role_locked : Session → ℕ
role_locked s = if s.exit then role_exit else role_client

-- `buildHello`
unfoldable pub build_hello : Session → Envelope
build_hello s = record {
  kind = kind_hello;
  role = role_locked s;
  local_challenge = s.own;
  peer_challenge = s.peer;
  hello = some (record {
    capabilities = s.params.capabilities;
    max_packet_size = s.params.max_packet_size % 65536;
    ready_flag = if s.ready then 1 else 0;
    reserved = 0;
  });
  data_sequence = none;
  control = none;
}

-- `_, ok := s.links[name]`
unfoldable pub has_link : List ℕ → ℕ → Bool
has_link [] name = false
has_link (n ∷ order) name = n == name || has_link order name

unfoldable pub send_encoded : ℕ → Encoded → List Action
send_encoded name (encoded raw) = transmits name raw ∷ []
send_encoded name (unencoded e) = []

-- `helloVia`
unfoldable pub hello_via : Session → ℕ → List Action
hello_via s name =
    if has_link s.order name then send_encoded name (encode_envelope (build_hello s)) else []

-- `for _, name := range names { s.helloVia(name) }`
unfoldable pub hello_each : Session → List ℕ → List Action
hello_each s [] = []
hello_each s (name ∷ names) = hello_via s name ++ hello_each s names

-- `negotiated`: the parameters of `s.remote`, with `minInt`.
unfoldable pub negotiated : PeerParameters → PeerParameters → PeerParameters
negotiated theirs own = record {
  capabilities = and_bits 32 theirs.capabilities own.capabilities;
  max_packet_size =
      if ltb theirs.max_packet_size own.max_packet_size
      then theirs.max_packet_size
      else own.max_packet_size;
}
