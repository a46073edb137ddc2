-- ===== src/Control.antt =====
-- transport/control/control.go: the envelope of every packet between the peers of a Session. A
-- challenge `[32]byte` is a list of 32 bytes.
pub mod RoundTrip
use openflux_zen_server.Prelude.{
  ℕ, ◌-◌, ◌^◌, Bool, true, false, not, ◌&&◌, ◌||◌, List, [], ◌∷◌, ◌++◌, Option, none, some, ltb,
  ◌==◌, if◌then◌else◌, length, take, drop, replicate, byte_at, be16, be32, be64, bytes16, bytes32,
  bytes64, same_bytes,
}

abbrev pub kind_hello : ℕ
kind_hello = 1

abbrev pub kind_ipv4 : ℕ
kind_ipv4 = 2

abbrev pub kind_control : ℕ
kind_control = 3

abbrev pub envelope_size : ℕ
envelope_size = 78

-- `Magic`: "OFN" and the version.
abbrev pub magic : List ℕ
magic = 79 ∷ 70 ∷ 78 ∷ 1 ∷ []

abbrev pub role_client : ℕ
role_client = 0

abbrev pub role_exit : ℕ
role_exit = 1

pub record HelloTail : Type 0 where
  pub capabilities : ℕ
  pub max_packet_size : ℕ
  pub ready_flag : ℕ
  pub reserved : ℕ

-- `ControlTail`
pub record ControlTail : Type 0 where
  pub subtype : ℕ
  pub flags : ℕ
  pub payload_len : ℕ

-- `Envelope`; the data tail is its sequence number.
pub record Envelope : Type 0 where
  pub kind : ℕ
  pub role : ℕ
  pub local_challenge : List ℕ
  pub peer_challenge : List ℕ
  pub hello : Option HelloTail
  pub data_sequence : Option ℕ
  pub control : Option ControlTail

-- The errors of `Encode` and `Decode`.
pub data EnvelopeError : Type 0 where
  too_short bad_magic unknown_role unknown_kind tail_missing reserved_set bad_length : EnvelopeError

pub data Encoded : Type 0 where
  encoded : List ℕ → Encoded
  unencoded : EnvelopeError → Encoded

pub data Parsed : Type 0 where
  parsed : Envelope → Parsed
  unparsed : EnvelopeError → Parsed

unfoldable pub hello_bytes : Option HelloTail → Option (List ℕ)
hello_bytes none = none
hello_bytes (some t) =
    some (bytes32 t.capabilities ++ (bytes16 t.max_packet_size ++ (t.ready_flag ∷ t.reserved ∷ [])))

unfoldable pub data_bytes : Option ℕ → Option (List ℕ)
data_bytes none = none
data_bytes (some sequence) = some (bytes64 sequence)

unfoldable pub control_bytes : Option ControlTail → Option (List ℕ)
control_bytes none = none
control_bytes (some t) =
    some (t.subtype ∷ t.flags ∷ (bytes16 t.payload_len ++ (0 ∷ 0 ∷ 0 ∷ 0 ∷ [])))

-- The tail of an envelope: the switch of `Encode`.
unfoldable pub tail_bytes : Envelope → Option (List ℕ)
unfolding hello_bytes data_bytes control_bytes
tail_bytes e =
    if e.kind == kind_hello
    then hello_bytes e.hello
    else if e.kind == kind_ipv4
    then data_bytes e.data_sequence
    else control_bytes e.control

unfoldable pub with_tail : Envelope → Option (List ℕ) → Encoded
with_tail e none = unencoded tail_missing
with_tail e (some tail) =
    encoded (magic ++ (e.kind ∷ e.role ∷ (e.local_challenge ++ (e.peer_challenge ++ tail))))

-- `Encode`: the places of the source's writes follow each other without a gap.
unfoldable pub encode_envelope : Envelope → Encoded
unfolding tail_bytes with_tail
encode_envelope e =
    if not (e.kind == kind_hello || (e.kind == kind_ipv4 || e.kind == kind_control))
    then unencoded unknown_kind
    else if not (e.role == role_client || e.role == role_exit)
    then unencoded unknown_role
    else with_tail e (tail_bytes e)

-- An envelope without its tail.
abbrev pub bare : List ℕ → Envelope
bare p = record {
  kind = byte_at p 4;
  role = byte_at p 5;
  local_challenge = take 32 (drop 6 p);
  peer_challenge = take 32 (drop 38 p);
  hello = none;
  data_sequence = none;
  control = none;
}

-- The control case of `Decode`, with the eight bytes from the place 70 on and what follows.
unfoldable pub parse_control : List ℕ → List ℕ → Parsed
parse_control p tail =
    let t : ControlTail = record {
      subtype = byte_at tail 0;
      flags = byte_at tail 1;
      payload_len = be16 tail 2;
    } in
    if not
      (byte_at tail 4 == 0 && (byte_at tail 5 == 0 && (byte_at tail 6 == 0 && byte_at tail 7 == 0)))
    then unparsed reserved_set
    else if t.payload_len == length p - envelope_size
    then parsed (record (bare p) { control = some t })
    else unparsed bad_length

-- The switch of `Decode`.
unfoldable pub parse_tail : List ℕ → List ℕ → Parsed
unfolding parse_control
parse_tail p tail =
    if byte_at p 4 == kind_hello
    then parsed (record (bare p) {
      hello = some (record {
        capabilities = be32 tail 0;
        max_packet_size = be16 tail 4;
        ready_flag = byte_at tail 6;
        reserved = byte_at tail 7;
      });
    })
    else if byte_at p 4 == kind_ipv4
    then parsed (record (bare p) { data_sequence = some (be64 tail 0) })
    else if byte_at p 4 == kind_control
    then parse_control p tail
    else unparsed unknown_kind

-- `Decode`
unfoldable pub decode_envelope : List ℕ → Parsed
unfolding parse_tail
decode_envelope p =
    if ltb (length p) envelope_size
    then unparsed too_short
    else if not (same_bytes (take 4 p) magic)
    then unparsed bad_magic
    else if not (byte_at p 5 == role_client || byte_at p 5 == role_exit)
    then unparsed unknown_role
    else parse_tail p (drop 70 p)
