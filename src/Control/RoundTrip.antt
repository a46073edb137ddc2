-- ===== src/Control/RoundTrip.antt =====
-- An envelope read back is the one that was written (transport/control/control.go).
use openflux_zen_server.Prelude.{
  ℕ, ◌+◌, ◌-◌, ◌^◌, ◌<◌, ◌≡◌, refl, ap, ◌∙◌, ◌⊎◌, true, false, ◌||◌, List, [], ◌∷◌, ◌++◌, none,
  some, arith, ltb, ◌==◌, length, take, drop, length-append, append_assoc, take_front, drop_front,
  drop-drop, sym, bytes16, bytes32, bytes64,
}
use openflux_zen_server.Control.{
  kind_hello, kind_ipv4, kind_control, envelope_size, magic, role_client, role_exit, HelloTail,
  ControlTail, Envelope, encoded, parsed, hello_bytes, data_bytes, control_bytes, tail_bytes,
  with_tail, encode_envelope, bare, parse_control, parse_tail, decode_envelope,
}

-- The fixed part in front of a tail, and what follows.
abbrev packet_of : (kind role : ℕ) (a b tail rest : List ℕ) → List ℕ
packet_of kind role a b tail rest = magic ++ (kind ∷ role ∷ (a ++ (b ++ (tail ++ rest))))

module _ (kind role : ℕ) (a b tail rest : List ℕ) (ha : length a ≡ 32) (hb : length b ≡ 32) where
  abbrev whole : List ℕ
  whole = packet_of kind role a b tail rest

  at6 : take 32 (drop 6 whole) ≡ a
  at6 = take_front 32 a (b ++ (tail ++ rest)) ha

  at38 : drop 38 whole ≡ b ++ (tail ++ rest)
  at38 = drop_front 32 a (b ++ (tail ++ rest)) ha

  at70 : drop 70 whole ≡ tail ++ rest
  at70 =
      sym (drop-drop 32 32 64 (a ++ (b ++ (tail ++ rest))) refl)
      ∙ ap (drop 32) (drop_front 32 a (b ++ (tail ++ rest)) ha)
      ∙ drop_front 32 b (tail ++ rest) hb

  bare-whole : bare whole ≡ record {
    kind = kind;
    role = role;
    local_challenge = a;
    peer_challenge = b;
    hello = none;
    data_sequence = none;
    control = none;
  }
  bare-whole = rw (at6, at38, take_front 32 b (tail ++ rest) hb) refl

  length-whole : length whole ≡ 70 + length tail + length rest
  length-whole = omega (
    arith,
    length-append a (b ++ (tail ++ rest)),
    length-append b (tail ++ rest),
    length-append tail rest,
  )

  decode-whole :
      length tail ≡ 8
      → (role ≡ role_client) ⊎ (role ≡ role_exit)
      → decode_envelope whole ≡ parse_tail whole (tail ++ rest)
  unfolding decode_envelope
  decode-whole ht hr =
      let long : ltb (length whole) envelope_size ≡ false = ground (arith, length-whole) in
      let known : (role == role_client || role == role_exit) ≡ true = ground arith in
      rw (long, known, at70) refl

-- The three forms of an envelope that the code makes: for each kind its own tail.
pub data Body : Type 0 where
  hello_body : HelloTail → Body
  data_body : ℕ → Body
  control_body : ControlTail → Body

abbrev pub envelope_of : ℕ → List ℕ → List ℕ → Body → Envelope
envelope_of role a b (hello_body t) = record {
  kind = kind_hello;
  role = role;
  local_challenge = a;
  peer_challenge = b;
  hello = some t;
  data_sequence = none;
  control = none;
}
envelope_of role a b (data_body sequence) = record {
  kind = kind_ipv4;
  role = role;
  local_challenge = a;
  peer_challenge = b;
  hello = none;
  data_sequence = some sequence;
  control = none;
}
envelope_of role a b (control_body t) = record {
  kind = kind_control;
  role = role;
  local_challenge = a;
  peer_challenge = b;
  hello = none;
  data_sequence = none;
  control = some t;
}

-- The fields are within their widths, and a message states the length of its payload.
abbrev pub Fits : Body → List ℕ → Type 0
Fits (hello_body t) payload =
    (t.capabilities < 2 ^ 32)
    × (t.max_packet_size < 65536)
    × (t.ready_flag < 256)
    × (t.reserved < 256)
Fits (data_body sequence) payload = sequence < 2 ^ 64
Fits (control_body t) payload =
    (t.subtype < 256) × (t.flags < 256) × (t.payload_len < 65536) × (t.payload_len ≡ length payload)

-- The eight bytes of a body.
abbrev pub body_bytes : Body → List ℕ
body_bytes (hello_body t) =
    bytes32 t.capabilities ++ (bytes16 t.max_packet_size ++ (t.ready_flag ∷ t.reserved ∷ []))
body_bytes (data_body sequence) = bytes64 sequence
body_bytes (control_body t) = t.subtype ∷ t.flags ∷ (bytes16 t.payload_len ++ (0 ∷ 0 ∷ 0 ∷ 0 ∷ []))

abbrev pub kind_of : Body → ℕ
kind_of (hello_body t) = kind_hello
kind_of (data_body sequence) = kind_ipv4
kind_of (control_body t) = kind_control

-- The 78 bytes of an envelope.
abbrev pub wire : ℕ → List ℕ → List ℕ → Body → List ℕ
wire role a b body = magic ++ (kind_of body ∷ role ∷ (a ++ (b ++ body_bytes body)))

pub encode-wire :
    (role : ℕ) (a b : List ℕ) (body : Body)
    → (role ≡ role_client) ⊎ (role ≡ role_exit)
    → encode_envelope (envelope_of role a b body) ≡ encoded (wire role a b body)
unfolding encode_envelope tail_bytes with_tail hello_bytes data_bytes control_bytes
encode-wire role a b (hello_body t) h = ground arith
encode-wire role a b (data_body sequence) h = ground arith
encode-wire role a b (control_body t) h = ground arith

parse_body :
    (role : ℕ) (a b : List ℕ) (body : Body) (rest : List ℕ)
    → length a ≡ 32
    → length b ≡ 32
    → Fits body rest
    → parse_tail
        (packet_of (kind_of body) role a b (body_bytes body) rest)
        (body_bytes body ++ rest)
      ≡ parsed (envelope_of role a b body)
unfolding parse_tail parse_control
parse_body role a b (hello_body t) rest ha hb f =
    let tail = body_bytes (hello_body t) in
    rw
      (
        at6 kind_hello role a b tail rest ha hb,
        at38 kind_hello role a b tail rest ha hb,
        take_front 32 b (tail ++ rest) hb,
      )
      (ground arith)
parse_body role a b (data_body sequence) rest ha hb f =
    let tail = body_bytes (data_body sequence) in
    rw
      (
        at6 kind_ipv4 role a b tail rest ha hb,
        at38 kind_ipv4 role a b tail rest ha hb,
        take_front 32 b (tail ++ rest) hb,
      )
      (ground arith)
parse_body role a b (control_body t) rest ha hb f =
    let tail = body_bytes (control_body t) in
    let stated : length (packet_of kind_control role a b tail rest) - envelope_size ≡ length rest =
      omega (arith, length-whole kind_control role a b tail rest ha hb) in
    rw
      (
        at6 kind_control role a b tail rest ha hb,
        at38 kind_control role a b tail rest ha hb,
        take_front 32 b (tail ++ rest) hb,
        stated,
      )
      (ground arith)

length-body_bytes : (body : Body) → length (body_bytes body) ≡ 8
length-body_bytes (hello_body t) = refl
length-body_bytes (data_body sequence) = refl
length-body_bytes (control_body t) = refl

wire-append :
    (role : ℕ) (a b : List ℕ) (body : Body) (payload : List ℕ)
    → wire role a b body ++ payload ≡ packet_of (kind_of body) role a b (body_bytes body) payload
wire-append role a b body payload =
    ap (λ xs. magic ++ (kind_of body ∷ role ∷ xs))
      (append_assoc a (b ++ body_bytes body) payload
        ∙ ap (λ xs. a ++ xs) (append_assoc b (body_bytes body) payload))

pub decode-wire :
    (role : ℕ) (a b : List ℕ) (body : Body) (payload : List ℕ)
    → (role ≡ role_client) ⊎ (role ≡ role_exit)
    → length a ≡ 32
    → length b ≡ 32
    → Fits body payload
    → decode_envelope (wire role a b body ++ payload) ≡ parsed (envelope_of role a b body)
decode-wire role a b body payload known ha hb f = rw (wire-append role a b body payload) (
    decode-whole (kind_of body) role a b (body_bytes body) payload ha hb (length-body_bytes body)
      known
    ∙ parse_body role a b body payload ha hb f)

pub length-wire :
    (role : ℕ) (a b : List ℕ) (body : Body)
    → length a ≡ 32
    → length b ≡ 32
    → length (wire role a b body) ≡ 78
length-wire role a b body ha hb = omega (
  arith,
  length-append a (b ++ body_bytes body),
  length-append b (body_bytes body),
  length-body_bytes body,
)

-- Every envelope that the code makes, of either role, with challenges of 32 bytes and fields within
-- their widths, is written in 78 bytes, and is read back as it was from in front of its payload.
pub decode_envelope-encode_envelope :
    (role : ℕ) (a b : List ℕ) (body : Body) (payload : List ℕ)
    → (role ≡ role_client) ⊎ (role ≡ role_exit)
    → length a ≡ 32
    → length b ≡ 32
    → Fits body payload
    → (raw : List ℕ) × (encode_envelope (envelope_of role a b body) ≡ encoded raw)
      × (length raw ≡ envelope_size)
      × (decode_envelope (raw ++ payload) ≡ parsed (envelope_of role a b body))
decode_envelope-encode_envelope role a b body payload known ha hb f = (
  wire role a b body,
  encode-wire role a b body known,
  length-wire role a b body ha hb,
  decode-wire role a b body payload known ha hb f,
)
