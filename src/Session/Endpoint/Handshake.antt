-- ===== src/Session/Endpoint/Handshake.antt =====
-- The handshake of two new Sessions, hello by hello (transport/session.go).
use openflux_zen_server.Prelude.{ℕ, ◌≡◌, refl, sym, ◌∙◌, ap, false, arith, ◌==◌, length}
use openflux_zen_server.Session.Endpoint.{Session, World, hear, role_locked}
use openflux_zen_server.Session.Endpoint.Data.{receive}
use openflux_zen_server.Session.Endpoint.Agreement.{
  hello_wire, hellos, negotiated_comm, CanHear, met, agreed, receive_first, receive_echo,
  Established, Strangers,
}

other_role : (x y : ℕ) → (x == y) ≡ false → (y == x) ≡ false
other_role x y h = ground arith

module _ (a b : Session) (w₁ w₂ w₃ : World) (l₁ l₂ l₃ : ℕ) where
  -- The states after the first, the second and the third hello arrived.
  unfoldable pub b_met : Session
  b_met = (receive w₁ b l₁ (hello_wire a)).0

  unfoldable pub a_ready : Session
  unfolding b_met
  a_ready = (receive w₂ a l₂ (hello_wire b_met)).0

  unfoldable pub b_ready : Session
  unfolding b_met a_ready
  b_ready = (receive w₃ b_met l₃ (hello_wire a_ready)).0

  module _ (h : Strangers a b) where
    abbrev b₁ : Session
    b₁ = met w₁ b l₁ a

    abbrev a₂ : Session
    a₂ = agreed w₂ a l₂ b₁

    abbrev b₃ : Session
    b₃ = agreed w₃ b₁ l₃ a₂

    first : receive w₁ b l₁ (hello_wire a) ≡ (b₁, hellos (hello_wire b₁) b.order)
    first =
        let hears : CanHear b a = record {
          running = h.running.1;
          roles = h.roles;
          own_length = h.lengths.0;
          peer_length = ap length h.alone.0;
          own_set = h.own_set.0;
          valid = h.valid.0;
        } in
        receive_first w₁ b a l₁ hears h.unready.1 h.alone.1 h.alone.0 h.own_set.1

    second : receive w₂ a l₂ (hello_wire b₁) ≡ (a₂, hellos (hello_wire a₂) a.order)
    unfolding hear role_locked
    second =
        let hears : CanHear a b₁ = record {
          running = h.running.0;
          roles = other_role (role_locked a) (role_locked b) h.roles;
          own_length = h.lengths.1;
          peer_length = h.lengths.0;
          own_set = h.own_set.1;
          valid = h.valid.1;
        } in
        receive_echo w₂ a b₁ l₂ hears h.unready.0 refl

    third : receive w₃ b₁ l₃ (hello_wire a₂) ≡ (b₃, hellos (hello_wire b₃) b.order)
    unfolding hear role_locked
    third =
        let hears : CanHear b₁ a₂ = record {
          running = h.running.1;
          roles = h.roles;
          own_length = h.lengths.0;
          peer_length = h.lengths.1;
          own_set = h.own_set.0;
          valid = h.valid.0;
        } in
        receive_echo w₃ b₁ a₂ l₃ hears h.unready.1 refl

    b_met_lem : b_met ≡ b₁
    unfolding b_met
    b_met_lem = ap (λ r. r.0) first

    a_ready_lem : a_ready ≡ a₂
    unfolding a_ready
    a_ready_lem = ap (λ s. (receive w₂ a l₂ (hello_wire s)).0) b_met_lem ∙ ap (λ r. r.0) second

    b_ready_lem : b_ready ≡ b₃
    unfolding b_ready
    b_ready_lem =
        ap (λ s. (receive w₃ s l₃ (hello_wire a_ready)).0) b_met_lem
        ∙ ap (λ s. (receive w₃ b₁ l₃ (hello_wire s)).0) a_ready_lem
        ∙ ap (λ r. r.0) third

    Established-ends : Established a₂ b₃
    unfolding hear role_locked
    Established-ends = record {
      ready = (refl, refl);
      running = h.running;
      roles = h.roles;
      knows = refl;
      known = refl;
      limits = negotiated_comm b.params a.params;
      lengths = h.lengths;
    }

  -- The handshake completes: the first hello of a new Session makes its peer answer with a hello on
  -- every link, that makes the first one ready and answer with its own, and that makes the peer
  -- ready, whatever the links and the times at which the three arrive. Both then hold each other's
  -- challenge and the same limits.
  pub handshake_completes :
      Strangers a b
      → ((receive w₁ b l₁ (hello_wire a)).1 ≡ hellos (hello_wire b_met) b.order)
        × ((receive w₂ a l₂ (hello_wire b_met)).1 ≡ hellos (hello_wire a_ready) a.order)
        × Established a_ready b_ready
  handshake_completes h = (
    ap (λ r. r.1) (first h) ∙ ap (λ s. hellos (hello_wire s) b.order) (sym (b_met_lem h)),
    ap (λ s. (receive w₂ a l₂ (hello_wire s)).1) (b_met_lem h)
        ∙ ap (λ r. r.1) (second h)
        ∙ ap (λ s. hellos (hello_wire s) a.order) (sym (a_ready_lem h)),
    rw (a_ready_lem h, b_ready_lem h) (Established-ends h),
  )
