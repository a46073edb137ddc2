-- ===== src/Session/Endpoint/Classic.antt =====
-- transport/session.go: the classic layering of a Session, and which of the two it currently uses.
use openflux_zen_server.Prelude.{
  ℕ, ◌*◌, ◌/◌, Bool, true, false, not, ◌&&◌, ◌||◌, List, [], ◌∷◌, Option, none, some, ltb, leb,
  ◌==◌, if◌then◌else◌, length, is_some, byte_at,
}
use openflux_zen_server.Session.Endpoint.{
  ClassicMode, classic_off, classic_fallback, classic_accept, Session, World, Action, SendError,
  Outcome, within, connected_locked, heard_locked, live_links_locked,
}

-- The fallback case of `classicTargetLocked`: the only link, once it is started.
unfoldable pub only_link : Session → List ℕ → Option ℕ
only_link s [] = none
only_link s (n ∷ []) = if (s.links n).started && (s.links n).classic then some n else none
only_link s (n ∷ m ∷ order) = none

unfoldable pub classic_target_of : Session → ClassicMode → Option ℕ
classic_target_of s classic_off = none
classic_target_of s classic_fallback = only_link s s.order
classic_target_of s classic_accept = s.classic_link

-- `classicTargetLocked`
unfoldable pub classic_target_locked : Session → Option ℕ
classic_target_locked s = classic_target_of s s.classic

unfoldable pub any_link : (ℕ → Bool) → List ℕ → Bool
any_link test [] = false
any_link test (n ∷ order) = test n || any_link test order

-- `sessionActiveLocked`; the window is half as long again as the keepalive interval.
unfoldable pub session_active_locked : World → Session → Bool
session_active_locked w s =
    if not s.ready
    then false
    else any_link
        (λ n.
          connected_locked w s n
          && within w.now ((s.links n).last_heard) (s.keepalive_interval * 3 / 2))
        s.order

unfoldable pub is_link_connected : World → Session → Option ℕ → Bool
is_link_connected w s none = false
is_link_connected w s (some n) = connected_locked w s n

unfoldable pub is_classic_heard : World → Session → Option ℕ → Bool
is_classic_heard w s none = false
is_classic_heard w s (some n) = within w.now ((s.links n).classic_heard) s.link_timeout

unfoldable pub is_classic_connected : World → Session → ClassicMode → Bool
is_classic_connected w s classic_off = false
is_classic_connected w s classic_fallback = is_link_connected w s (classic_target_locked s)
is_classic_connected w s classic_accept = is_classic_heard w s s.classic_link

-- `classicConnectedLocked`
unfoldable pub classic_connected_locked : World → Session → Bool
classic_connected_locked w s =
    if s.stopped || s.ready then false else is_classic_connected w s s.classic

-- `IsConnected`
unfoldable pub is_connected_session : World → Session → Bool
is_connected_session w s =
    if s.stopped
    then false
    else if classic_connected_locked w s
    then true
    else if not s.ready
    then false
    else if s.exit
    then any_link (heard_locked w s) s.order
    else leb 1 (length (live_links_locked w s))

-- `handshakeDone`
unfoldable pub handshake_done : World → Session → Bool
handshake_done w s = (s.ready && not s.stopped) && leb 1 (length (live_links_locked w s))

-- The names of `Mode`: nothing for "".
pub data ModeName : Type 0 where
  nothing session_mode classic_mode : ModeName

-- `Mode`
unfoldable pub mode : World → Session → ModeName
mode w s =
    if s.stopped
    then nothing
    else if s.exit && (is_some s.classic_link && not (session_active_locked w s))
    then classic_mode
    else if s.ready
    then session_mode
    else if is_some (classic_target_locked s)
    then classic_mode
    else nothing

-- `sendClassic`
unfoldable pub send_classic : ℕ → List ℕ → Outcome
send_classic link p =
    if ltb (length p) 20 || not (byte_at p 0 / 16 == 4)
    then Outcome.failed SendError.not_ipv4
    else Outcome.done (Action.transmits_classic link p ∷ [])

-- `link.classicHeard = now`
unfoldable pub hear_classic : ℕ → ℕ → Session → Session
hear_classic now name s = record s {
  links = λ n. if n == name then record (s.links n) { classic_heard = some now } else s.links n;
}

-- The call of the data callback, if there is one.
unfoldable pub delivery : Session → List ℕ → List Action
delivery s p = if s.data_callback then Action.delivers p ∷ [] else []

-- `receiveClassic`
unfoldable pub receive_classic : World → Session → ℕ → List ℕ → Session × List Action
receive_classic w s link p =
    if ltb (length p) 20 || not (byte_at p 0 / 16 == 4)
    then (s, [])
    else if s.stopped
    then (s, [])
    else if s.exit
    then if session_active_locked w s
      then (s, [])
      else (hear_classic w.now link (record s { classic_link = some link }), delivery s p)
    else (hear_classic w.now link (record s { classic_seen = true }), delivery s p)
