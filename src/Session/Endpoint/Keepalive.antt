-- ===== src/Session/Endpoint/Keepalive.antt =====
-- transport/session.go: the rounds of helloLoop and keepaliveLoop, and what ends or stalls a link.
use openflux_zen_server.Prelude.{
  ℕ, Bool, true, false, not, ◌&&◌, ◌||◌, List, [], ◌∷◌, ◌++◌, Option, none, some, ◌==◌,
  if◌then◌else◌, is_some,
}
use openflux_zen_server.Session.Replay.{fresh}
use openflux_zen_server.Session.Endpoint.{
  Session, World, Action, Outcome, zero_challenge, within, hear, has_link, hello_each,
}
use openflux_zen_server.Session.Endpoint.Classic.{any_link}
use openflux_zen_server.Session.Endpoint.Data.{subtype_link_ping, send_control_via}

-- `peerSilentLocked`
unfoldable pub peer_silent_locked : World → Session → Bool
peer_silent_locked w s =
    not (any_link (λ n. within w.now ((s.links n).last_heard) s.link_timeout) s.order)

unfoldable pub drawn : Option (List ℕ) → List ℕ → List ℕ
drawn none own = own
drawn (some r) own = r

-- `resetLocked`
unfoldable pub reset_locked : World → Session → Session
reset_locked w s = record s {
  ready = false;
  peer = zero_challenge;
  remote = record { capabilities = 0; max_packet_size = 0 };
  sequence = 0;
  sequences = fresh;
  peer_keepalive = false;
  candidate = none;
  own = drawn w.random s.own;
}

unfoldable pub ping_outcome : Outcome → List Action
ping_outcome (Outcome.done actions) = actions
ping_outcome (Outcome.failed e) = []

-- The pings of the links that were quiet for a keepalive interval.
unfoldable pub ping_each : World → Session → List ℕ → List Action
ping_each w s [] = []
ping_each w s (n ∷ names) =
    (if (s.links n).started
        && (not ((s.links n).dead)
            && not (within w.now ((s.links n).last_heard) s.keepalive_interval))
      then ping_outcome (send_control_via s n subtype_link_ping [])
      else [])
    ++ ping_each w s names

-- One round of `keepaliveLoop`.
unfoldable pub keepalive_round : World → Session → Session × List Action
keepalive_round w s =
    let s' =
      if s.ready && ((s.exit || s.peer_keepalive) && peer_silent_locked w s)
      then reset_locked w s
      else s in
    (s', if s'.ready then ping_each w s' s'.order else [])

unfoldable pub started_links : Session → List ℕ → List ℕ
started_links s [] = []
started_links s (n ∷ names) =
    if (s.links n).started then n ∷ started_links s names else started_links s names

-- The hellos of one round of `helloLoop`, once its pace has passed.
unfoldable pub hello_round : Session → List Action
hello_round s = if s.ready then [] else hello_each s (started_links s s.order)

-- `Stop`, less the links' own.
unfoldable pub stop : Session → Session
stop s = record s { stopped = true; ready = false }

-- `MarkStalled`
unfoldable pub mark_stalled : Session → ℕ → Session
mark_stalled s name =
    if has_link s.order name && is_some ((s.links name).last_heard) then hear none name s else s

-- `MarkDead`
unfoldable pub mark_dead : Session → ℕ → Session
mark_dead s name =
    if has_link s.order name
    then record s {
      links = λ n. if n == name then record (s.links n) { dead = true } else s.links n;
    }
    else s
