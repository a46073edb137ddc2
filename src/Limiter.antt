-- ===== src/Limiter.antt =====
-- subscription/server/limiter.go: events per key in a sliding window, which stops the guessing of
-- passwords. A key is a value of any type with an equality; a time is a number of nanoseconds, and
-- the clock is read once in a call.
pub mod Windows
use openflux_zen_server.Prelude.{
  ℕ, ◌-◌, ◌+◌, Bool, true, false, List, [], ◌∷◌, ◌++◌, Option, none, some, ltb, ◌==◌, if◌then◌else◌,
  length,
}
use openflux_zen_server.Prelude.Maps.{Eq, lookup, insert, delete, delete_if}

abbrev pub minute : ℕ
minute = 60_000_000_000

-- The loop of `recent`: the first times that are before the cut are passed over.
unfoldable pub skip_old : ℕ → List ℕ → List ℕ
skip_old cut [] = []
skip_old cut (t ∷ ts) = if ltb t cut then skip_old cut ts else t ∷ ts

abbrev pub times_of : Option (List ℕ) → List ℕ
times_of none = []
times_of (some ts) = ts

-- `limiter`
pub record Limiter (K : Type 0) : Type 0 where
  pub hits : List (K × List ℕ)
  pub last : ℕ

-- The test of `gc` on the times of a key: none is recent.
abbrev pub is_idle : ℕ → List ℕ → Bool
is_idle cut ts = length (skip_old cut ts) == 0

-- `newLimiter`
unfoldable pub new_limiter : (K : Type 0) → Limiter K
new_limiter K = record { hits = []; last = 0 }

module _ {K : Type 0} ⦃e : Eq K⦄ where
  -- `recent`
  unfoldable pub recent : Limiter K → K → ℕ → ℕ → List ℕ
  recent l key window now = skip_old (now - window) (times_of (lookup key l.hits))

  -- `gc`
  unfoldable pub gc : Limiter K → ℕ → ℕ → Limiter K
  gc l window now =
      if ltb (now - l.last) minute
      then l
      else record { hits = delete_if (λ k ts. is_idle (now - window) ts) l.hits; last = now }

  -- `count`
  unfoldable pub count : Limiter K → K → ℕ → ℕ → Limiter K × ℕ
  count l key window now = let l' = gc l window now in (l', length (recent l' key window now))

  -- `add`
  pub add_hit : Limiter K → K → ℕ → ℕ → Limiter K
  add_hit l key window now =
      let l' = gc l window now in
      record l' { hits = insert key (recent l' key window now ++ (now ∷ [])) l'.hits }

  -- `reset`
  pub reset : Limiter K → K → Limiter K
  reset l key = record l { hits = delete key l.hits }
