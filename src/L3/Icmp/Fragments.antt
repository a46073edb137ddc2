-- ===== src/L3/Icmp/Fragments.antt =====
-- Fragments hold the payload, in order and whole, and fit the route.
use openflux_zen_server.Prelude.{
  ℕ, zero, suc, ◌-◌, ◌+◌, ◌/◌, ◌≤◌, ◌<◌, inl, inr, ◌≡◌, refl, sym, ap, ◌∙◌, min, true, List, [],
  ◌∷◌, ◌++◌, Option, none, some, arith, ltb, if◌then◌else◌, length, take, drop, set, put16, All,
  length-append, length-take, length-drop, length-set, length-put16, take-min-append-drop,
  drop-length-append, drop-drop, Bool-cases, byte_at, be16, ◌%◌, false,
}
use openflux_zen_server.L3.Packet.{is_fragmented_ipv4}
use openflux_zen_server.L3.Checksum.{fix_ip_checksum}
use openflux_zen_server.L3.Icmp.{
  fragment_at, fragments_from, chunk_size, cannot_fragment, fragment_ipv4,
}

-- The payloads of packets with 20-byte headers, one after the other.
abbrev pub payloads : List (List ℕ) → List ℕ
payloads [] = []
payloads (f ∷ fs) = drop 20 f ++ payloads fs

drop-set : (n : ℕ) (xs : List ℕ) (i v : ℕ) → i < n → drop n (set xs i v) ≡ drop n xs
drop-set zero xs i v h = absurd (omega arith)
drop-set (suc n) [] i v h = refl
drop-set (suc n) (x ∷ xs) zero v h = refl
drop-set (suc n) (x ∷ xs) (suc i) v h = drop-set n xs i v (omega arith)

drop-put16 : (xs : List ℕ) (i v : ℕ) → i + 1 < 20 → drop 20 (put16 xs i v) ≡ drop 20 xs
drop-put16 xs i v h = drop-set 20 _ (i + 1) _ h ∙ drop-set 20 xs i _ (omega arith)

length-fix_ip_checksum : (p : List ℕ) → length (fix_ip_checksum p) ≡ length p
unfolding fix_ip_checksum
length-fix_ip_checksum p =
    let two = set (set p 10 0) 11 0 in
    length-put16 two 10 _ ∙ length-set (set p 10 0) 11 0 ∙ length-set p 10 0

drop-fix_ip_checksum : (p : List ℕ) → drop 20 (fix_ip_checksum p) ≡ drop 20 p
unfolding fix_ip_checksum
drop-fix_ip_checksum p =
    drop-put16 (set (set p 10 0) 11 0) 10 _ (omega arith)
    ∙ drop-set 20 (set p 10 0) 11 0 (omega arith)
    ∙ drop-set 20 p 10 0 (omega arith)

drop_header : (h b : List ℕ) → length h ≡ 20 → drop 20 (h ++ b) ≡ b
drop_header h b e = ap (λ n. drop n (h ++ b)) (sym e) ∙ drop-length-append h b

header_length_lem : (p : List ℕ) (id : ℕ) → 20 ≤ length p → length (put16 (take 20 p) 4 id) ≡ 20
header_length_lem p id h = omega (arith, length-put16 (take 20 p) 4 id, length-take 20 p)

payload-fragment_at :
    (p : List ℕ) (id off size : ℕ)
    → 20 ≤ length p
    → drop 20 (fragment_at p id off size) ≡ take size (drop off (drop 20 p))
unfolding fragment_at
payload-fragment_at p id off size h =
    let f = put16 (take 20 p) 4 id ++ take size (drop off (drop 20 p)) in
    let v = off / 8 + (if ltb (off + size) (length p - 20) then 8192 else 0) in
    drop-fix_ip_checksum (put16 (put16 f 6 v) 2 (20 + size))
    ∙ drop-put16 (put16 f 6 v) 2 (20 + size) (omega arith)
    ∙ drop-put16 f 6 v (omega arith)
    ∙ drop_header (put16 (take 20 p) 4 id) _ (header_length_lem p id h)

length-fragment_at :
    (p : List ℕ) (id off size : ℕ) → 20 ≤ length p → length (fragment_at p id off size) ≤ 20 + size
unfolding fragment_at
length-fragment_at p id off size h =
    let f = put16 (take 20 p) 4 id ++ take size (drop off (drop 20 p)) in
    let v = off / 8 + (if ltb (off + size) (length p - 20) then 8192 else 0) in
    omega (
      arith,
      length-fix_ip_checksum (put16 (put16 f 6 v) 2 (20 + size)),
      length-put16 (put16 f 6 v) 2 (20 + size),
      length-put16 f 6 v,
      length-append (put16 (take 20 p) 4 id) (take size (drop off (drop 20 p))),
      header_length_lem p id h,
      length-take size (drop off (drop 20 p)),
    )

drop_beyond : (n : ℕ) (xs : List ℕ) → length xs ≤ n → drop n xs ≡ []
drop_beyond zero [] h = refl
drop_beyond zero (x ∷ xs) h = absurd (omega arith)
drop_beyond (suc n) [] h = refl
drop_beyond (suc n) (x ∷ xs) h = drop_beyond n xs (omega arith)

payloads-fragments_from :
    (fuel : ℕ) (p : List ℕ) (id chunk off : ℕ)
    → 20 ≤ length p
    → 0 < chunk
    → length p ≤ fuel + off + 20
    → payloads (fragments_from fuel p id chunk off) ≡ drop off (drop 20 p)
unfolding fragments_from
payloads-fragments_from zero p id chunk off h hc hf =
    sym (drop_beyond off (drop 20 p) (omega (arith, length-drop 20 p)))
payloads-fragments_from (suc fuel) p id chunk off h hc hf =
    let body = drop 20 p in
    let size = min chunk (length p - 20 - off) in
    let l20 = length-drop 20 p in
    let rest = payloads-fragments_from fuel p id chunk (off + chunk) h hc (omega arith) in
    elim (Bool-cases (ltb off (length p - 20))) [
      | inl e ↦
          rw
            (
              e,
              payload-fragment_at p id off size h,
              rest,
              sym (drop-drop off chunk (off + chunk) body refl),
            )
            (take-min-append-drop chunk size (drop off body) (omega (arith, length-drop off body)))
      | inr e ↦ rw e (sym (drop_beyond off body (ground arith)))
    ]

fragments_from_fit :
    (fuel : ℕ) (p : List ℕ) (id chunk off : ℕ)
    → 20 ≤ length p
    → All (λ f. length f ≤ 20 + chunk) (fragments_from fuel p id chunk off)
unfolding fragments_from
fragments_from_fit zero p id chunk off h = tt
fragments_from_fit (suc fuel) p id chunk off h =
    let size = min chunk (length p - 20 - off) in
    let rest = fragments_from_fit fuel p id chunk (off + chunk) h in
    elim (Bool-cases (ltb off (length p - 20))) [
      | inl e ↦ rw e (omega (arith, length-fragment_at p id off size h), rest)
      | inr e ↦ rw e tt
    ]

All-map {ℓ} :
    {A : Type ℓ} {P Q : A → Type 0} (f : (a : A) → P a → Q a) (xs : List A) → All P xs → All Q xs
All-map f [] h = tt
All-map f (x ∷ xs) h = (f x h.0, All-map f xs h.1)

-- What can be cut: an IPv4 packet with a header of 20 bytes and no options, with neither the
-- don't-fragment flag, nor the more-fragments flag, nor an offset, that is longer than the limit, and
-- the limit is at least 68 bytes.
abbrev pub IsCuttable : List ℕ → ℕ → Type 0
IsCuttable p mtu =
    (20 ≤ length p)
    × (byte_at p 0 ≡ 69)
    × (byte_at p 6 / 64 % 2 ≡ 0)
    × (be16 p 6 % 16384 ≡ 0)
    × (68 ≤ mtu)
    × (mtu < length p)

-- A right answer of `fragmentIPv4`: an error for a packet that cannot be cut, or else fragments
-- that hold the payload and fit the limit.
abbrev pub IsFragmentation : List ℕ → ℕ → Option (List (List ℕ) × ℕ) → Type 0
IsFragmentation p mtu none = ¬ IsCuttable p mtu
IsFragmentation p mtu (some (fs, counter)) =
    IsCuttable p mtu × (payloads fs ≡ drop 20 p) × All (λ f. length f ≤ mtu) fs

cannot_fragment-IsCuttable :
    (p : List ℕ) (mtu : ℕ) → cannot_fragment p mtu ≡ false → IsCuttable p mtu
unfolding cannot_fragment is_fragmented_ipv4
cannot_fragment-IsCuttable p mtu e = ground arith

IsCuttable-cannot_fragment :
    (p : List ℕ) (mtu : ℕ) → cannot_fragment p mtu ≡ true → ¬ IsCuttable p mtu
unfolding cannot_fragment is_fragmented_ipv4
IsCuttable-cannot_fragment p mtu e (long, first, free, whole, wide, over) = ground arith

-- `fragmentIPv4` cuts exactly the packets with a 20-byte header, no fragment and without the
-- don't-fragment flag that are longer than a limit of at least 68, and answers an error for all
-- others; the payloads of the fragments, one after the other, are the packet's payload, and no
-- fragment is longer than the limit.
pub fragment_ipv4_whole :
    (p : List ℕ) (mtu counter : ℕ) → IsFragmentation p mtu (fragment_ipv4 p mtu counter)
unfolding fragment_ipv4
fragment_ipv4_whole p mtu counter = elim (Bool-cases (cannot_fragment p mtu)) [
  | inl e ↦ rw e (IsCuttable-cannot_fragment p mtu e)
  | inr e ↦
      let cuttable = cannot_fragment-IsCuttable p mtu e in
      let (long, first, free, whole, wide, over) = cuttable in
      rw e (
        cuttable,
        payloads-fragments_from (length p) p _ (chunk_size mtu) 0 long (omega arith) (omega arith),
        All-map (λ f h. omega arith) _ (fragments_from_fit (length p) p _ (chunk_size mtu) 0 long),
      )
]
