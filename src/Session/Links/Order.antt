-- ===== src/Session/Links/Order.antt =====
-- The order of the links is kept, and the links sent over are those of the greatest priority
-- (transport/session.go).
use openflux_zen_server.Prelude.{
  ℕ, ◌≤◌, ◌<◌, ◌≡◌, refl, sym, ◌∙◌, ap, Bool, true, false, List, [], ◌∷◌, arith, ltb, leb, ◌==◌,
  if◌then◌else◌, length, All, Bool-cases, inl, inr,
}
use openflux_zen_server.Session.Links.{
  drop_from_order, insert_by_priority, those, live_links, same_priority, top_links,
}

-- No link has a higher priority than one before it.
abbrev pub IsOrdered : (ℕ → ℕ) → List ℕ → Type 0
IsOrdered links [] = Unit {0}
IsOrdered links (n ∷ order) = All (λ m. links m ≤ links n) order × IsOrdered links order

All-lower :
    (links : ℕ → ℕ) (a b : ℕ) (order : List ℕ)
    → a ≤ b
    → All (λ m. links m ≤ a) order
    → All (λ m. links m ≤ b) order
All-lower links a b [] h v = tt
All-lower links a b (n ∷ order) h v = (omega (arith, v.0), All-lower links a b order h v.1)

All-insert_by_priority :
    (links : ℕ → ℕ) (name bound : ℕ) (order : List ℕ)
    → links name ≤ bound
    → All (λ m. links m ≤ bound) order
    → All (λ m. links m ≤ bound) (insert_by_priority order name (links name) links)
unfolding insert_by_priority
All-insert_by_priority links name bound [] h v = (h, tt)
All-insert_by_priority links name bound (n ∷ order) h v =
    elim (Bool-cases (ltb (links n) (links name))) [
      | inl b ↦ rw b (h, v)
      | inr b ↦ rw b (v.0, All-insert_by_priority links name bound order h v.1)
    ]

-- Putting a link into an ordered list by its priority keeps the list ordered.
pub insert_by_priority-IsOrdered :
    (links : ℕ → ℕ) (name : ℕ) (order : List ℕ)
    → IsOrdered links order
    → IsOrdered links (insert_by_priority order name (links name) links)
unfolding insert_by_priority
insert_by_priority-IsOrdered links name [] v = (tt, tt)
insert_by_priority-IsOrdered links name (n ∷ order) v =
    elim (Bool-cases (ltb (links n) (links name))) [
      | inl b ↦
          let less : links n ≤ links name = ground arith in
          rw b ((less, All-lower links (links n) (links name) order less v.0), v)
      | inr b ↦
          let more : links name ≤ links n = ground arith in
          rw b (
            All-insert_by_priority links name (links n) order more v.0,
            insert_by_priority-IsOrdered links name order v.1,
          )
    ]

All-drop_from_order :
    (links : ℕ → ℕ) (name bound : ℕ) (order : List ℕ)
    → All (λ m. links m ≤ bound) order
    → All (λ m. links m ≤ bound) (drop_from_order order name)
unfolding drop_from_order
All-drop_from_order links name bound [] v = tt
All-drop_from_order links name bound (n ∷ order) v = elim (Bool-cases (n == name)) [
  | inl b ↦ rw b v.1
  | inr b ↦ rw b (v.0, All-drop_from_order links name bound order v.1)
]

pub drop_from_order-IsOrdered :
    (links : ℕ → ℕ) (name : ℕ) (order : List ℕ)
    → IsOrdered links order
    → IsOrdered links (drop_from_order order name)
unfolding drop_from_order
drop_from_order-IsOrdered links name [] v = tt
drop_from_order-IsOrdered links name (n ∷ order) v = elim (Bool-cases (n == name)) [
  | inl b ↦ rw b v.1
  | inr b ↦ rw b (
    All-drop_from_order links name (links n) order v.0,
    drop_from_order-IsOrdered links name order v.1,
  )
]

All-those :
    (links : ℕ → ℕ) (test : ℕ → Bool) (bound : ℕ) (order : List ℕ)
    → All (λ m. links m ≤ bound) order
    → All (λ m. links m ≤ bound) (those test order)
unfolding those
All-those links test bound [] v = tt
All-those links test bound (n ∷ order) v = elim (Bool-cases (test n)) [
  | inl b ↦ rw b (v.0, All-those links test bound order v.1)
  | inr b ↦ rw b (All-those links test bound order v.1)
]

those-IsOrdered :
    (links : ℕ → ℕ) (test : ℕ → Bool) (order : List ℕ)
    → IsOrdered links order
    → IsOrdered links (those test order)
unfolding those
those-IsOrdered links test [] v = tt
those-IsOrdered links test (n ∷ order) v = elim (Bool-cases (test n)) [
  | inl b ↦ rw b (All-those links test (links n) order v.0, those-IsOrdered links test order v.1)
  | inr b ↦ rw b (those-IsOrdered links test order v.1)
]

pub live_links-IsOrdered :
    (links : ℕ → ℕ) (heard connected : ℕ → Bool) (order : List ℕ)
    → IsOrdered links order
    → IsOrdered links (live_links heard connected order)
unfolding live_links
live_links-IsOrdered links heard connected order v =
    elim (Bool-cases (leb 1 (length (those heard order)))) [
      | inl b ↦ rw b (those-IsOrdered links heard order v)
      | inr b ↦ rw b (those-IsOrdered links connected order v)
    ]

-- The greatest priority of a list.
abbrev pub greatest : (ℕ → ℕ) → List ℕ → ℕ
greatest links [] = 0
greatest links (n ∷ order) =
    if ltb (links n) (greatest links order) then greatest links order else links n

greatest_least :
    (links : ℕ → ℕ) (bound : ℕ) (order : List ℕ)
    → All (λ m. links m ≤ bound) order
    → greatest links order ≤ bound
greatest_least links bound [] v = omega arith
greatest_least links bound (n ∷ order) v = ground (arith, greatest_least links bound order v.1)

none_at :
    (links : ℕ → ℕ) (top : ℕ) (order : List ℕ) (bound : ℕ)
    → bound < top
    → All (λ m. links m ≤ bound) order
    → those (λ m. links m == top) order ≡ []
unfolding those
none_at links top [] bound h v = refl
none_at links top (n ∷ order) bound h v =
    let low = v.0 in
    let differs : (links n == top) ≡ false = ground arith in
    rw differs (none_at links top order bound h v.1)

same_priority-those :
    (links : ℕ → ℕ) (top : ℕ) (order : List ℕ)
    → All (λ m. links m ≤ top) order
    → IsOrdered links order
    → same_priority top links order ≡ those (λ m. links m == top) order
unfolding same_priority those
same_priority-those links top [] a v = refl
same_priority-those links top (n ∷ order) a v = elim (Bool-cases (links n == top)) [
  | inl b ↦ rw b (ap (◌∷◌ n) (same_priority-those links top order a.1 v.1))
  | inr b ↦
      let low = a.0 in
      let less : links n < top = ground arith in
      rw (b, none_at links top order (links n) less v.0) refl
]

-- From an ordered list of links, `topLinks` takes exactly the links of the greatest priority, in
-- their order.
pub top_links-those :
    (links : ℕ → ℕ) (order : List ℕ)
    → IsOrdered links order
    → top_links links order ≡ those (λ m. links m == greatest links order) order
unfolding top_links those
top_links-those links [] v = refl
top_links-those links (n ∷ order) v =
    let least = greatest_least links (links n) order v.0 in
    let highest : ltb (links n) (greatest links order) ≡ false = ground arith in
    let own : (links n == links n) ≡ true = ground arith in
    let top : greatest links (n ∷ order) ≡ links n = rw highest refl in
    let whole : n ∷ same_priority (links n) links order
        ≡ those (λ m. links m == links n) (n ∷ order) =
      rw own (ap (◌∷◌ n) (same_priority-those links (links n) order v.0 v.1)) in
    whole ∙ ap (λ g. those (λ m. links m == g) (n ∷ order)) (sym top)
