-- ===== src/Session/Endpoint/Lifecycle.antt =====
-- transport/session.go: making a Session, its links before it starts, and a link that comes up. The
-- link's pipelines and goroutines are left out.
use openflux_zen_server.Prelude.{
  ℕ, Bool, true, false, List, [], Option, none, some, ◌==◌, if◌then◌else◌, not, ◌&&◌, ◌||◌, length,
}
use openflux_zen_server.Session.Admission.{PeerParameters, valid_parameters}
use openflux_zen_server.Session.Replay.{fresh}
use openflux_zen_server.Session.Links.{drop_from_order, insert_by_priority}
use openflux_zen_server.Session.Endpoint.{
  Link, ClassicMode, classic_off, classic_fallback, classic_accept, Session, World, Action,
  zero_challenge, has_link,
}
use openflux_zen_server.Session.Endpoint.Data.{subtype_link_ping, send_control_via}
use openflux_zen_server.Session.Endpoint.Keepalive.{ping_outcome}

-- A link that was never added.
abbrev no_link : Link
no_link = record {
  priority = 0;
  started = false;
  dead = false;
  last_heard = none;
  classic = false;
  classic_heard = none;
}

unfoldable pub session_with : PeerParameters → Bool → Option (List ℕ) → Option Session
session_with p exit none = none
session_with p exit (some own) = some (record {
  own = own;
  peer = zero_challenge;
  params = p;
  remote = record { capabilities = 0; max_packet_size = 0 };
  exit = exit;
  ready = false;
  started = false;
  stopped = false;
  sequence = 0;
  sequences = fresh;
  keepalive_interval = 10000000000;
  link_timeout = 30000000000;
  peer_keepalive = false;
  no_pong = false;
  candidate = none;
  candidate_last = none;
  links = λ n. no_link;
  order = [];
  data_callback = false;
  control_callback = false;
  classic = classic_off;
  classic_link = none;
  classic_seen = false;
})

-- `NewSession`: none for its errors.
unfoldable pub new_session : World → PeerParameters → Bool → Option Session
new_session w p exit = if valid_parameters p then session_with p exit w.random else none

-- `SetClassic`, less the codec
unfoldable pub set_classic : Session → Session
set_classic s = record s { classic = if s.exit then classic_accept else classic_fallback }

-- `Receive`, with a callback
unfoldable pub set_receive : Session → Session
set_receive s = record s { data_callback = true }

-- `s.links[name] = link`
unfoldable pub set_link : (ℕ → Link) → ℕ → Link → ℕ → Link
set_link links name link n = if n == name then link else links n

-- `AddTransport` of a link that newLink made; nothing changes after Start, nor when there is one of that
-- name.
unfoldable pub add_transport : Session → ℕ → Link → Session
add_transport s name link = if s.started || has_link s.order name then s else record s {
  links = set_link s.links name link;
  order =
      insert_by_priority s.order name link.priority (λ n. (set_link s.links name link n).priority);
}

-- `RemoveTransport`
unfoldable pub remove_transport : Session → ℕ → Session
remove_transport s name =
    if has_link s.order name
    then record s { links = set_link s.links name no_link; order = drop_from_order s.order name }
    else s

unfoldable pub is_fallback : ClassicMode → Bool
is_fallback classic_off = false
is_fallback classic_fallback = true
is_fallback classic_accept = false

-- `s.classic = ClassicOff`, with the loop that takes the classic pipelines off the links
unfoldable pub drop_classic : Session → Session
drop_classic s = record s {
  classic = classic_off;
  links = λ n. if has_link s.order n then record (s.links n) { classic = false } else s.links n;
}

-- `Start` up to the start of its links: its errors change nothing.
unfoldable pub begin_start : Session → Session
unfolding is_fallback drop_classic
begin_start s =
    if s.stopped || (s.started || length s.order == 0)
    then s
    else (let up = record s { started = true } in
        if is_fallback s.classic && not (length s.order == 1) then drop_classic up else up)

-- `link.started = true`
unfoldable pub mark_started : Session → ℕ → Session
mark_started s name = record s {
  links = set_link s.links name (record (s.links name) { started = true });
}

-- `startLink`, once the link's pipelines run: it is started, and probed if the Session is ready.
unfoldable pub start_link : Session → ℕ → Session × List Action
start_link s name = if s.stopped then (s, []) else (
  mark_started s name,
  if s.ready
      then ping_outcome (send_control_via (mark_started s name) name subtype_link_ping [])
      else [],
)
