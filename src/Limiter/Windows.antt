-- ===== src/Limiter/Windows.antt =====
-- What the limiter counts (subscription/server/limiter.go).
use openflux_zen_server.Prelude.{
  ℕ, suc, ◌-◌, ◌+◌, ◌≤◌, ◌≡◌, refl, sym, ap, ◌∙◌, true, false, ◌==◌, List, [], ◌∷◌, ◌++◌, arith,
  ltb, if◌then◌else◌, length, length-append, Option-cases, Bool-cases, inl, inr,
}
use openflux_zen_server.Prelude.Maps.{
  Eq, lookup, delete_if, Keyed, lookup-insert, lookup-delete_if, lookup-delete_if-none,
  delete_if-Keyed, insert-Keyed,
}
use openflux_zen_server.Limiter.{
  minute, skip_old, times_of, Limiter, is_idle, recent, gc, count, add_hit,
}

-- A later cut passes over at least as much.
skip_old-skip_old : (c d : ℕ) (ts : List ℕ) → c ≤ d → skip_old d (skip_old c ts) ≡ skip_old d ts
unfolding skip_old
skip_old-skip_old c d [] h = refl
skip_old-skip_old c d (t ∷ ts) h = ground (arith, skip_old-skip_old c d ts h)

skip_old_idle : (c d : ℕ) (ts : List ℕ) → c ≤ d → is_idle c ts ≡ true → skip_old d ts ≡ []
unfolding skip_old
skip_old_idle c d [] h e = refl
skip_old_idle c d (t ∷ ts) h e = ground (arith, skip_old_idle c d ts h)

skip_old-append :
    (c t : ℕ) (ts : List ℕ) → c ≤ t → skip_old c (ts ++ (t ∷ [])) ≡ skip_old c ts ++ (t ∷ [])
unfolding skip_old
skip_old-append c t [] h = ground arith
skip_old-append c t (s ∷ ts) h = ground (arith, skip_old-append c t ts h)

module _ {K : Type 0} ⦃e : Eq K⦄ where
  idle_dropped :
      (c d : ℕ) (key : K) (hits : List (K × List ℕ))
      → Keyed hits
      → c ≤ d
      → skip_old d (times_of (lookup key (delete_if (λ k ts. is_idle c ts) hits)))
        ≡ skip_old d (times_of (lookup key hits))
  unfolding skip_old
  idle_dropped c d key hits v h = elim (Option-cases (lookup key hits)) [
    | inl f ↦ rw (lookup-delete_if-none (λ k ts. is_idle c ts) key hits f, f) refl
    | inr (ts, f) ↦ elim (Bool-cases (is_idle c ts)) [
      | inl i ↦
          rw (lookup-delete_if (λ k ts'. is_idle c ts') key ts hits v f, f, i)
            (sym (skip_old_idle c d ts h i))
      | inr i ↦ rw (lookup-delete_if (λ k ts'. is_idle c ts') key ts hits v f, f, i) refl
    ]
  ]

  -- The collection keeps what counts for a window that is no longer, now or later.
  recent-gc :
      (l : Limiter K) (key : K) (window narrow now later : ℕ)
      → Keyed l.hits
      → narrow ≤ window
      → now ≤ later
      → recent (gc l window now) key narrow later ≡ recent l key narrow later
  unfolding recent gc
  recent-gc l key window narrow now later v n h = elim (Bool-cases (ltb (now - l.last) minute)) [
    | inl b ↦ rw b refl
    | inr b ↦ rw b (idle_dropped (now - window) (later - narrow) key l.hits v (omega arith))
  ]

  gc-Keyed : (l : Limiter K) (window now : ℕ) → Keyed l.hits → Keyed (gc l window now).hits
  unfolding gc
  gc-Keyed l window now v = elim (Bool-cases (ltb (now - l.last) minute)) [
    | inl b ↦ rw b v
    | inr b ↦ rw b (delete_if-Keyed (λ k ts. is_idle (now - window) ts) l.hits v)
  ]

  pub add_hit-Keyed :
      (l : Limiter K) (key : K) (window now : ℕ)
      → Keyed l.hits
      → Keyed (add_hit l key window now).hits
  unfolding add_hit
  add_hit-Keyed l key window now v = insert-Keyed key _ _ (gc-Keyed l window now v)

  count-recent :
      (l : Limiter K) (key : K) (window now : ℕ)
      → Keyed l.hits
      → (count l key window now).1 ≡ length (recent l key window now)
  unfolding count
  count-recent l key window now v =
      ap length (recent-gc l key window window now now v (omega arith) (omega arith))

  recent-add_hit :
      (l : Limiter K) (key j : K) (window narrow now later : ℕ)
      → Keyed l.hits
      → narrow ≤ window
      → now ≤ later
      → later ≤ now + narrow
      → recent (add_hit l key window now) j narrow later ≡ (
          if e.beq key j
          then recent (gc l window now) key narrow later ++ (now ∷ [])
          else recent (gc l window now) j narrow later)
  unfolding recent add_hit
  recent-add_hit l key j window narrow now later v n h young =
      let held = (gc l window now).hits in
      let ts = times_of (lookup key held) in
      let new = skip_old (now - window) ts ++ (now ∷ []) in
      let joined : skip_old (later - narrow) new ≡ skip_old (later - narrow) ts ++ (now ∷ []) =
        skip_old-append (later - narrow) now (skip_old (now - window) ts) (omega arith)
        ∙ ap (λ xs. xs ++ (now ∷ []))
            (skip_old-skip_old (now - window) (later - narrow) ts (omega arith)) in
      elim (Bool-cases (e.beq key j)) [
        | inl b ↦ rw (lookup-insert key j new held, b) joined
        | inr b ↦ rw (lookup-insert key j new held, b) refl
      ]

  -- An event that was added is counted once: counted with a window that is no longer than the one it
  -- was added with, at any later time within that window of the event, its key has one event more than
  -- without it, and every other key as many as before.
  pub count-add_hit :
      (l : Limiter K) (key j : K) (window narrow now later : ℕ)
      → Keyed l.hits
      → narrow ≤ window
      → now ≤ later
      → later ≤ now + narrow
      → (count (add_hit l key window now) j narrow later).1
        ≡ (if e.beq key j then suc ((count l key narrow later).1) else (count l j narrow later).1)
  count-add_hit l key j window narrow now later v n h young =
      let v' = add_hit-Keyed l key window now v in
      let kept = recent-gc l key window narrow now later v n h in
      let kept_j = recent-gc l j window narrow now later v n h in
      let counted = count-recent (add_hit l key window now) j narrow later v' in
      let added = recent-add_hit l key j window narrow now later v n h young in
      elim (Bool-cases (e.beq key j)) [
        | inl b ↦
            rw (counted, count-recent l key narrow later v, added, b, kept)
              (length-append (recent l key narrow later) (now ∷ []) ∙ omega arith)
        | inr b ↦ rw (counted, count-recent l j narrow later v, added, b, kept_j) refl
      ]

  forgotten :
      (l : Limiter K) (key : K) (window now : ℕ)
      → Keyed l.hits
      → ltb (now - l.last) minute ≡ false
      → (length (recent l key window now) == 0) ≡ true
      → times_of (lookup key (gc l window now).hits) ≡ []
  unfolding gc recent
  forgotten l key window now v due idle = elim (Option-cases (lookup key l.hits)) [
    | inl f ↦ rw (due, lookup-delete_if-none (λ k ts. is_idle (now - window) ts) key l.hits f) refl
    | inr (ts, f) ↦
        rw (due, lookup-delete_if (λ k ts'. is_idle (now - window) ts') key ts l.hits v f)
          (ground arith)
  ]

  -- A count with a short window forgets what longer windows still count: when a minute has passed since
  -- the last collection and a key has no event within the window of a count of any key, then after that
  -- count the key has no event within any window, however long.
  pub count_forgets :
      (l : Limiter K) (key j : K) (window wide now later : ℕ)
      → Keyed l.hits
      → minute ≤ now - l.last
      → (count l key window now).1 ≡ 0
      → (count (count l j window now).0 key wide later).1 ≡ 0
  count_forgets l key j window wide now later v due idle =
      let none_recent = sym (count-recent l key window now v) ∙ idle in
      let gone = forgotten l key window now v (ground arith) (ground arith) in
      unfold count in
      (count-recent (gc l window now) key wide later (gc-Keyed l window now v)
        ∙ unfold recent skip_old in rw gone refl)
