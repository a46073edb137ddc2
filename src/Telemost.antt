-- ===== src/Telemost.antt =====
-- transport/yandex/fragment.go: cutting a batch frame into bodies that fit one RTP packet each, and
-- putting it together again. `maxFragmentBytes`, which the environment can set, is the parameter
-- `limit`; FragmentFrame is modelled for a limit above the header's length. The number that
-- fragFrameSeq hands out is an argument. The sizes are below 2^31.
pub mod Parts
pub mod Fragments
pub mod Slots
pub mod RoundTrip
use openflux_zen_server.Prelude.{
  ℕ, zero, suc, ◌+◌, ◌-◌, ◌*◌, ◌/◌, ◌%◌, Bool, true, false, not, ◌&&◌, ◌||◌, List, [], ◌∷◌, ◌++◌,
  Option, none, some, min, max, ltb, leb, ◌==◌, if◌then◌else◌, length, take, drop, set, get_elem?,
  get_or, replicate, byte_at, be32, bytes32,
}

abbrev pub frag_magic : ℕ
frag_magic = 241

abbrev pub frag_header_len : ℕ
frag_header_len = 8

abbrev pub max_fragments_per_frame : ℕ
max_fragments_per_frame = 255

abbrev pub reassembly_slots : ℕ
reassembly_slots = 24

-- `reassembleTimeout` in nanoseconds.
abbrev pub reassemble_timeout : ℕ
reassemble_timeout = 1200000000

abbrev pub max_frame_reassembly_bytes : ℕ
max_frame_reassembly_bytes = 1048576

-- `n` of FragmentFrame
unfoldable pub fragment_count : ℕ → ℕ → ℕ
fragment_count chunk size = max 1 ((size + chunk - 1) / chunk)

-- `wire[start:end]`
unfoldable pub piece : ℕ → List ℕ → ℕ → List ℕ
piece chunk wire i =
    take (min (i * chunk + chunk) (length wire) - i * chunk) (drop (i * chunk) wire)

-- One fragment.
unfoldable pub fragment_body : ℕ → ℕ → ℕ → List ℕ → ℕ → List ℕ
fragment_body chunk n seq wire i =
    frag_magic ∷ i % 256 ∷ n % 256 ∷ (bytes32 (length wire) ++ (seq ∷ piece chunk wire i))

-- The loop of FragmentFrame, from the fragment `i` on.
unfoldable pub fragment_bodies : ℕ → ℕ → ℕ → List ℕ → ℕ → ℕ → List (List ℕ)
fragment_bodies chunk n seq wire i zero = []
fragment_bodies chunk n seq wire i (suc count) =
    fragment_body chunk n seq wire i ∷ fragment_bodies chunk n seq wire (i + 1) count

-- `FragmentFrame`
unfoldable pub fragment_frame : ℕ → ℕ → List ℕ → Option (List (List ℕ))
fragment_frame limit seq wire =
    let chunk = limit - frag_header_len in
    let n = fragment_count chunk (length wire) in
    if ltb max_fragments_per_frame n then none else some (fragment_bodies chunk n seq wire 0 n)

-- `reassemblySlot`
pub record Slot : Type 0 where
  pub active : Bool
  pub seq : ℕ
  pub total : ℕ
  pub count : ℕ
  pub received : ℕ
  pub parts : List (Option (List ℕ))
  pub deadline : ℕ

-- A slot after `reset`.
abbrev pub empty_slot : Slot
empty_slot = record {
  active = false;
  seq = 0;
  total = 0;
  count = 0;
  received = 0;
  parts = [];
  deadline = 0;
}

-- `frameReassembler`
abbrev pub new_reassembly : List Slot
new_reassembly = replicate reassembly_slots empty_slot

-- The results of `push`: a frame, none yet, or an index out of range of `slot.parts`, where Go panics.
pub data Pushed : Type 0 where
  frame : List ℕ → Pushed
  incomplete panics : Pushed

-- The loop of `push` over the slots that timed out.
unfoldable pub sweep_slots : ℕ → List Slot → List Slot
sweep_slots now [] = []
sweep_slots now (s ∷ slots) =
    (if s.active && ltb s.deadline now then empty_slot else s) ∷ sweep_slots now slots

-- `findSlot`: the place of the slot, from the place `i` on.
unfoldable pub find_slot : List Slot → ℕ → ℕ → Option ℕ
find_slot [] seq i = none
find_slot (s ∷ slots) seq i =
    if s.active && s.seq == seq then some i else find_slot slots seq (i + 1)

-- The first loop of `claimSlot`.
unfoldable pub first_free : List Slot → ℕ → Option ℕ
first_free [] i = none
first_free (s ∷ slots) i = if s.active then first_free slots (i + 1) else some i

-- The second loop of `claimSlot`: the slot of the least deadline.
unfoldable pub victim_from : List Slot → ℕ → ℕ → ℕ → ℕ
victim_from [] i victim deadline = victim
victim_from (s ∷ slots) i victim deadline =
    if ltb s.deadline deadline
    then victim_from slots (i + 1) i s.deadline
    else victim_from slots (i + 1) victim deadline

unfoldable pub claim_from : List Slot → Option ℕ → ℕ
claim_from slots (some i) = i
claim_from [] none = 0
claim_from (s ∷ slots) none = victim_from slots 1 0 s.deadline

-- `claimSlot`: the place of the slot.
unfoldable pub claim_slot : List Slot → ℕ
claim_slot slots = claim_from slots (first_free slots 0)

-- What `push` reads of a body.
pub record Fragment : Type 0 where
  pub index : ℕ
  pub pieces : ℕ
  pub size : ℕ
  pub number : ℕ
  pub bytes : List ℕ

-- A slot that a new frame takes.
abbrev pub open_slot : ℕ → Fragment → Slot
open_slot now f = record {
  active = true;
  seq = f.number;
  total = f.size;
  count = f.pieces;
  received = 0;
  parts = replicate f.pieces none;
  deadline = now + reassemble_timeout;
}

-- The loop that joins the parts.
unfoldable pub join : List (Option (List ℕ)) → List ℕ
join [] = []
join (none ∷ parts) = join parts
join (some p ∷ parts) = p ++ join parts

-- `push` from `if slot.received < slot.count` on, with the slot at the place `i`.
unfoldable pub finish_slot : List Slot → ℕ → Slot → List Slot × Pushed
finish_slot slots i s = if ltb s.received s.count then (set slots i s, Pushed.incomplete) else (
  set slots i empty_slot,
  if length (join s.parts) == s.total then Pushed.frame (join s.parts) else Pushed.incomplete,
)

-- `push` from `if slot.parts[index] == nil` on.
unfoldable pub fill_slot :
    List Slot → ℕ → Slot → Fragment → Option (Option (List ℕ)) → List Slot × Pushed
fill_slot slots i s f none = (set slots i s, Pushed.panics)
fill_slot slots i s f (some (some p)) = finish_slot slots i s
fill_slot slots i s f (some none) =
    finish_slot slots i
      (record s { parts = set s.parts f.index (some f.bytes); received = s.received + 1 })

-- The slot that `push` found, or the one that it claims.
unfoldable pub place_fragment : List Slot → ℕ → Fragment → Option ℕ → List Slot × Pushed
place_fragment slots now f (some i) =
    let s = get_or slots i empty_slot in fill_slot slots i s f (get_elem? s.parts f.index)
place_fragment slots now f none =
    let s = open_slot now f in fill_slot slots (claim_slot slots) s f (get_elem? s.parts f.index)

-- `push` of a fragment whose payload was cut to size.
unfoldable pub push_fragment : List Slot → ℕ → Fragment → List Slot × Pushed
push_fragment slots now f =
    let swept = sweep_slots now slots in place_fragment swept now f (find_slot swept f.number 0)

-- The fragment of a body, with `want` bytes of payload.
unfoldable pub push_cut : List Slot → ℕ → List ℕ → ℕ → List Slot × Pushed
push_cut slots now body want =
    if ltb (length body - frag_header_len) want
    then (slots, Pushed.incomplete)
    else push_fragment slots now (record {
      index = byte_at body 1;
      pieces = byte_at body 2;
      size = be32 body 3;
      number = byte_at body 7;
      bytes = take want (drop frag_header_len body);
    })

-- `want` of push, which is negative when the total is too small for the last fragment.
unfoldable pub push_sized : ℕ → List Slot → ℕ → List ℕ → List Slot × Pushed
push_sized chunk slots now body =
    if not (byte_at body 1 == byte_at body 2 - 1)
    then push_cut slots now body chunk
    else if ltb (be32 body 3) (byte_at body 1 * chunk)
    then (slots, Pushed.incomplete)
    else push_cut slots now body (be32 body 3 - byte_at body 1 * chunk)

-- The same where the limit is `lack` bytes below the header's length: `want` is then negative, but for
-- the last fragment.
unfoldable pub push_lacking : ℕ → List Slot → ℕ → List ℕ → List Slot × Pushed
push_lacking lack slots now body =
    if not (byte_at body 1 == byte_at body 2 - 1)
    then (slots, Pushed.incomplete)
    else push_cut slots now body (be32 body 3 + byte_at body 1 * lack)

-- `push`
unfoldable pub push : ℕ → List Slot → ℕ → List ℕ → List Slot × Pushed
push limit slots now body =
    if ltb (length body) frag_header_len || not (byte_at body 0 == frag_magic)
    then (slots, Pushed.frame body)
    else if byte_at body 2 == 0
        || (leb (byte_at body 2) (byte_at body 1) || ltb max_frame_reassembly_bytes (be32 body 3))
    then (slots, Pushed.incomplete)
    else if ltb limit frag_header_len
    then push_lacking (frag_header_len - limit) slots now body
    else push_sized (limit - frag_header_len) slots now body
