-- ===== src/Protocol/ReplayCache/Survival.antt =====
-- How long a key stays in the cache: until its time to live is over or `capacity` newer keys
-- have come in.
use p2p_net.Prelude.{
  Eq, ==_refl, ℕ, ◌+◌, ◌-◌, ◌≤◌, ◌<◌, ◌≡◌, refl, true, false, List, [], ◌∷◌, ◌++◌, length,
  length-append, ltb, leb, if◌then◌else◌, arith, ap, ◌∙◌, Bool-cases, inl, inr, append_assoc, All,
}
use p2p_net.Prelude.Assoc.{mem, keys, keys-append, mem-append}
use p2p_net.Protocol.ReplayCache.{Cache, check_and_insert}
use p2p_net.Protocol.ReplayCache.Window.{
  IsValid, live, newest, check_and_insert-newest, check_and_insert-IsValid,
}

-- The key stands in the window with its time, before at most `n` newer entries.
abbrev pub Holds : {K : Type 0} → K → ℕ → ℕ → List (K × ℕ) → Type 0
Holds {K} k t n w =
    (older : List (K × ℕ)) × (newer : List (K × ℕ)) × (w ≡ older ++ (k, t) ∷ newer)
    × (length newer ≤ n)

live-Holds :
    {K : Type 0} (k : K) (t ttl_ns now_ns : ℕ) (older newer : List (K × ℕ))
    → now_ns - t ≤ ttl_ns
    → (kept : List (K × ℕ)) × (live ttl_ns now_ns (older ++ (k, t) ∷ newer)
        ≡ kept ++ (k, t) ∷ newer)
unfolding live
live-Holds k t ttl_ns now_ns [] newer h = ([], ground arith)
live-Holds k t ttl_ns now_ns ((j, s) ∷ older) newer h =
    elim (Bool-cases (leb (now_ns - s) ttl_ns)) [
      | inl young ↦ ((j, s) ∷ older, rw young)
      | inr old ↦ rw old (live-Holds k t ttl_ns now_ns older newer h)
    ]

newest-Holds :
    {A : Type 0} (n : ℕ) (x : A) (older newer : List A)
    → length newer < n
    → (kept : List A) × (newest n (older ++ x ∷ newer) ≡ kept ++ x ∷ newer)
unfolding newest
newest-Holds n x [] newer h = ([], ground arith)
newest-Holds n x (y ∷ older) newer h = elim (Bool-cases (ltb n (length (y ∷ older ++ x ∷ newer)))) [
  | inl more ↦ rw more (newest-Holds n x older newer h)
  | inr fits ↦ (y ∷ older, rw fits)
]

module _ {K : Type 0} ⦃e : Eq K⦄ where
  -- The calls of `check_and_insert` in a row, and the number of keys that they found new.
  unfoldable pub run : Cache K → List (K × ℕ) → Cache K
  run c [] = c
  run c ((k, now_ns) ∷ calls) = run (check_and_insert c k now_ns).0 calls

  unfoldable pub inserted : Cache K → List (K × ℕ) → ℕ
  inserted c [] = 0
  inserted c ((k, now_ns) ∷ calls) =
      let (c', new) = check_and_insert c k now_ns in (if new then 1 else 0) + inserted c' calls

  check_and_insert-limits :
      (c : Cache K) (j : K) (now_ns : ℕ)
      → let c' = (check_and_insert c j now_ns).0 in
        (c'.capacity ≡ c.capacity) × (c'.ttl_ns ≡ c.ttl_ns)
  unfolding check_and_insert
  check_and_insert-limits c j now_ns = ground arith

  pub run-IsValid : (calls : List (K × ℕ)) (c : Cache K) → IsValid c → IsValid (run c calls)
  unfolding run
  run-IsValid [] c v = v
  run-IsValid ((k, t) ∷ calls) c v = run-IsValid calls _ (check_and_insert-IsValid c k t v)

  pub run-limits :
      (calls : List (K × ℕ)) (c : Cache K)
      → ((run c calls).capacity ≡ c.capacity) × ((run c calls).ttl_ns ≡ c.ttl_ns)
  unfolding run
  run-limits [] c = (refl, refl)
  run-limits ((k, t) ∷ calls) c =
      let (size, life) = run-limits calls (check_and_insert c k t).0 in
      let (size', life') = check_and_insert-limits c k t in (size ∙ size', life ∙ life')

  -- One call: a key that is young enough and has room behind it stays.
  check_and_insert-Holds :
      (c : Cache K) (k j : K) (t now_ns n : ℕ)
      → IsValid c
      → Holds k t n c.entries
      → now_ns - t ≤ c.ttl_ns
      → let (c', new) = check_and_insert c j now_ns in
        n + (if new then 1 else 0) < c.capacity → Holds k t (n + (if new then 1 else 0)) c'.entries
  check_and_insert-Holds c k j t now_ns n v (older, newer, e, short) young =
      let w = live c.ttl_ns now_ns c.entries in
      let (kept, e') = live-Holds k t c.ttl_ns now_ns older newer young in
      let e'' : w ≡ kept ++ (k, t) ∷ newer = ap (live c.ttl_ns now_ns) e ∙ e' in
      rw (check_and_insert-newest c j now_ns v) (elim (Bool-cases (mem j (keys w))) [
        | inl known ↦ rw known (λ room. (kept, newer, e'', omega arith))
        | inr new ↦ rw new λ room.
            let (kept', e3) =
              newest-Holds c.capacity (k, t) kept (newer ++ (j, now_ns) ∷ [])
                (omega (arith, length-append newer ((j, now_ns) ∷ []))) in
            (
              kept',
              newer ++ (j, now_ns) ∷ [],
              ap (λ l. newest c.capacity (l ++ (j, now_ns) ∷ [])) e''
                  ∙ ap (newest c.capacity) (append_assoc kept ((k, t) ∷ newer) ((j, now_ns) ∷ []))
                  ∙ e3,
              omega (arith, length-append newer ((j, now_ns) ∷ [])),
            )
      ])

  mem-within :
      (k : K) (t : ℕ) (older newer : List (K × ℕ)) → mem k (keys (older ++ (k, t) ∷ newer)) ≡ true
  unfolding mem
  mem-within k t older newer = ground (
    arith,
    keys-append older ((k, t) ∷ newer),
    mem-append k (keys older) (k ∷ keys newer),
    ==_refl k,
  )

  -- What is known of a cache that still holds the key: `cap` and `ttl` are its limits.
  record Keeps (c : Cache K) (k : K) (t n cap ttl : ℕ) : Type 0 where
    valid : IsValid c
    held : Holds k t n c.entries
    size : c.capacity ≡ cap
    life : c.ttl_ns ≡ ttl

  step-Keeps :
      (c : Cache K) (k j : K) (t now_ns n cap ttl : ℕ)
      → Keeps c k t n cap ttl
      → now_ns - t ≤ ttl
      → let (c', new) = check_and_insert c j now_ns in
        n + (if new then 1 else 0) < cap → Keeps c' k t (n + (if new then 1 else 0)) cap ttl
  step-Keeps c k j t now_ns n cap ttl h young room = record {
    valid = check_and_insert-IsValid c j now_ns h.valid;
    held =
        check_and_insert-Holds c k j t now_ns n h.valid h.held (omega (arith, h.life))
          (omega (arith, h.size));
    size = (check_and_insert-limits c j now_ns).0 ∙ h.size;
    life = (check_and_insert-limits c j now_ns).1 ∙ h.life;
  }

  run-Keeps :
      (calls : List (K × ℕ)) (c : Cache K) (k : K) (t n cap ttl : ℕ)
      → Keeps c k t n cap ttl
      → All (λ call. call.1 - t ≤ ttl) calls
      → n + inserted c calls < cap
      → (m : ℕ) × Keeps (run c calls) k t m cap ttl
  unfolding run inserted
  run-Keeps [] c k t n cap ttl h young room = (n, h)
  run-Keeps ((j, now_ns) ∷ calls) c k t n cap ttl h young room =
      run-Keeps calls _ k t _ cap ttl (step-Keeps c k j t now_ns n cap ttl h young.0 (omega arith))
        young.1 (omega arith)

  first-Holds :
      (c : Cache K) (k : K) (t : ℕ)
      → IsValid c
      → (check_and_insert c k t).1 ≡ true
      → Holds k t 0 (check_and_insert c k t).0.entries
  first-Holds c k t v =
      let w = live c.ttl_ns t c.entries in
      rw (check_and_insert-newest c k t v) (elim (Bool-cases (mem k (keys w))) [
        | inl known ↦ rw known (λ new. cc)
        | inr fresh ↦ rw fresh λ new.
            let (kept, e') = newest-Holds c.capacity (k, t) w [] (omega (arith, v.positive)) in
            (kept, [], e', omega arith)
      ])

  first-Keeps :
      (c : Cache K) (k : K) (t : ℕ)
      → IsValid c
      → (check_and_insert c k t).1 ≡ true
      → Keeps (check_and_insert c k t).0 k t 0 c.capacity c.ttl_ns
  first-Keeps c k t v new = record {
    valid = check_and_insert-IsValid c k t v;
    held = first-Holds c k t v new;
    size = (check_and_insert-limits c k t).0;
    life = (check_and_insert-limits c k t).1;
  }

  Keeps-known :
      (c : Cache K) (k : K) (t n cap ttl now_ns : ℕ)
      → Keeps c k t n cap ttl
      → now_ns - t ≤ ttl
      → (check_and_insert c k now_ns).1 ≡ false
  Keeps-known c k t n cap ttl now_ns h young =
      let (older, newer, e1, short) = h.held in
      let (kept, e2) = live-Holds k t c.ttl_ns now_ns older newer (omega (arith, h.life)) in
      let in_window = ap (live c.ttl_ns now_ns) e1 ∙ e2 in
      rw (check_and_insert-newest c k now_ns h.valid, in_window, mem-within k t kept newer) refl

  -- A key that a call has put into a valid cache is reported as known by a later call, if fewer
  -- than `capacity` new keys came in between and no call came later than the time to live.
  pub replay_detected :
      (c : Cache K) (k : K) (t now_ns : ℕ) (calls : List (K × ℕ))
      → IsValid c
      → (check_and_insert c k t).1 ≡ true
      → let c' = (check_and_insert c k t).0 in
        inserted c' calls < c.capacity
        → All (λ call. call.1 - t ≤ c.ttl_ns) calls
        → now_ns - t ≤ c.ttl_ns
        → (check_and_insert (run c' calls) k now_ns).1 ≡ false
  replay_detected c k t now_ns calls v new few young last =
      let (m, h) =
        run-Keeps calls _ k t 0 c.capacity c.ttl_ns (first-Keeps c k t v new) young (omega arith) in
      Keeps-known _ k t m c.capacity c.ttl_ns now_ns h last
