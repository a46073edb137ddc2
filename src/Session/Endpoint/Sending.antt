-- ===== src/Session/Endpoint/Sending.antt =====
-- What a Session sends (transport/session.go).
use openflux_zen_server.Prelude.{
  ℕ, ◌+◌, ◌^◌, ◌≤◌, ◌<◌, ◌≡◌, refl, sym, ◌∙◌, ap, ◌⊎◌, inl, inr, Bool, true, false, ◌&&◌, List, [],
  ◌∷◌, Option, none, some, arith, ◌==◌, Bool-cases, Option-cases,
}
use openflux_zen_server.Control.{encoded, encode_envelope}
use openflux_zen_server.Control.RoundTrip.{data_body, wire, encode-wire}
use openflux_zen_server.Session.Admission.{permitted_packet}
use openflux_zen_server.Session.Replay.Refinement.{accept_newer_answer}
use openflux_zen_server.Session.Endpoint.{
  Session, World, Action, Outcome, role_locked, live_links_locked, heard_locked, connected_locked,
}
use openflux_zen_server.Session.Endpoint.Classic.{classic_target_locked, session_active_locked}
use openflux_zen_server.Session.Endpoint.Data.{
  data_envelope, chosen_link, transmit_behind, transmit_data, send_permitted, send_session, send_by,
  send, receive,
}
use openflux_zen_server.Session.Endpoint.Agreement.{Established, known_role}
use openflux_zen_server.Session.Endpoint.Delivery.{
  data_packet, receive-data_packet, receive_accepted,
}

encode-data_envelope :
    (a : Session) (seq : ℕ)
    → encode_envelope (data_envelope a seq)
      ≡ encoded (wire (role_locked a) a.own a.peer (data_body seq))
unfolding data_envelope
encode-data_envelope a seq = encode-wire (role_locked a) a.own a.peer (data_body seq) (known_role a)

-- `a` after its next packet.
abbrev pub counted : Session → Session
counted a = record a { sequence = a.sequence + 1 }

send_session_lem :
    (w : World) (a : Session) (p links : List ℕ) (first : ℕ)
    → (a.ready ≡ true) × (a.stopped ≡ false)
    → permitted_packet p a.remote ≡ none
    → a.sequence + 1 < 2 ^ 64
    → live_links_locked w a ≡ first ∷ links
    → send_session w a p ≡ (
      counted a,
      Outcome.done (
          Action.transmits
            (chosen_link w (counted a) (first ∷ links) p)
            (data_packet a (a.sequence + 1) p)
          ∷ []),
    )
unfolding send_session send_permitted transmit_data transmit_behind live_links_locked heard_locked
    connected_locked role_locked data_envelope chosen_link
send_session_lem w a p links first up permitted room live =
    let below : (a.sequence == 18446744073709551615) ≡ false = ground arith in
    simp (up.0, up.1, permitted, below, live, encode-data_envelope (counted a) (a.sequence + 1))

-- No classic layering: there is no classic target, or the Session is a ready client, or an exit whose
-- client of a Session is active.
abbrev pub UsesSession : World → Session → Type 0
UsesSession w a =
    (classic_target_locked a ≡ none) ⊎ ((a.exit ≡ false) ⊎ (session_active_locked w a ≡ true))

and_false : (b : Bool) → (b && false) ≡ false
and_false true = refl
and_false false = refl

some-none : (o : Option ℕ) (x : ℕ) → o ≡ none → o ≡ some x → ⊥
some-none o x n t = cc

send-send_session :
    (w : World) (a : Session) (p : List ℕ)
    → a.ready ≡ true
    → UsesSession w a
    → send w a p ≡ send_session w a p
unfolding send send_by
send-send_session w a p ready uses = elim (Bool-cases a.stopped) [
  | inl e ↦ simp e
  | inr e ↦ elim (Option-cases (classic_target_locked a)) [
    | inl t ↦ simp (e, t)
    | inr t ↦ elim uses [
      | inl n ↦ absurd (some-none (classic_target_locked a) t.0 n t.1)
      | inr (inl client) ↦ simp (e, t.1, ready, client)
      | inr (inr active) ↦ simp (e, t.1, ready, active, and_false a.exit)
    ]
  ]
]

-- What a Session sends, its peer hands on: a ready Session with a live link, whose next number the
-- peer has not passed, transmits one packet for each permitted packet, and whenever and on whatever
-- link that arrives first, the peer hands on exactly the packet that was sent.
pub send_delivered :
    (w : World) (a b : Session) (p links : List ℕ) (first : ℕ)
    → Established a b
    → b.data_callback ≡ true
    → UsesSession w a
    → permitted_packet p a.remote ≡ none
    → a.sequence + 1 < 2 ^ 64
    → b.sequences.highest ≤ a.sequence
    → live_links_locked w a ≡ first ∷ links
    → (link : ℕ) × (raw : List ℕ) × (send w a p
        ≡ (counted a, Outcome.done (Action.transmits link raw ∷ [])))
      × ((w' : World) (link' : ℕ) → (receive w' b link' raw).1 ≡ Action.delivers p ∷ [])
send_delivered w a b p links first h called uses permitted room behind live =
    let seq = a.sequence + 1 in
    let newer = accept_newer_answer b.sequences seq (omega arith) in
    let permitted' : permitted_packet p b.remote ≡ none =
      ap (permitted_packet p) (sym h.limits) ∙ permitted in
    (
      chosen_link w (counted a) (first ∷ links) p,
      data_packet a seq p,
      send-send_session w a p h.ready.0 uses
          ∙ send_session_lem w a p links first (h.ready.0, h.running.0) permitted room live,
      λ w' link'.
          ap (λ r. r.1)
            (receive-data_packet w' a b link' seq p h room permitted'
              ∙ receive_accepted w' b link' seq p called newer),
    )
