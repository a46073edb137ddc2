-- ===== src/Session/Links.antt =====
-- transport/session.go: the order of a Session's links, by priority, and the ones that it sends over.
-- A link is the number of its name. A priority, which is an int, is its distance from the least int,
-- so that both compare alike.
pub mod Order
use openflux_zen_server.Prelude.{
  ℕ, Bool, true, false, List, [], ◌∷◌, ◌++◌, ltb, leb, ◌==◌, if◌then◌else◌, length,
}

-- `dropFromOrder`
pub drop_from_order : List ℕ → ℕ → List ℕ
drop_from_order [] name = []
drop_from_order (n ∷ order) name = if n == name then order else n ∷ drop_from_order order name

-- `insertByPriority`: before the first link of a lower priority.
pub insert_by_priority : List ℕ → ℕ → ℕ → (ℕ → ℕ) → List ℕ
insert_by_priority [] name priority links = name ∷ []
insert_by_priority (n ∷ order) name priority links =
    if ltb (links n) priority
    then name ∷ n ∷ order
    else n ∷ insert_by_priority order name priority links

-- The loops of `liveLinksLocked`.
unfoldable pub those : (ℕ → Bool) → List ℕ → List ℕ
those test [] = []
those test (n ∷ order) = if test n then n ∷ those test order else those test order

-- `liveLinksLocked`: the links that were heard, or else those that are connected.
unfoldable pub live_links : (ℕ → Bool) → (ℕ → Bool) → List ℕ → List ℕ
live_links heard connected order =
    if leb 1 (length (those heard order)) then those heard order else those connected order

-- The loop of `topLinks`.
unfoldable pub same_priority : ℕ → (ℕ → ℕ) → List ℕ → List ℕ
same_priority top links [] = []
same_priority top links (n ∷ rest) = if links n == top then n ∷ same_priority top links rest else []

-- `topLinks`
unfoldable pub top_links : (ℕ → ℕ) → List ℕ → List ℕ
top_links links [] = []
top_links links (n ∷ rest) = n ∷ same_priority (links n) links rest
