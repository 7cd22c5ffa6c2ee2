-- ===== src/Memory/Decay/Drain.antt =====
-- features/memory/decay.py: how many facts a run archives, and which it leaves alone.
use ai_forge_memory.Prelude.{
  ℕ, zero, suc, ◌+◌, ◌-◌, ◌*◌, min, true, false, List, [], ◌∷◌, ltb, if◌then◌else◌, ◌≡◌, refl,
  subst, ap, ◌∙◌, ◌⊎◌, inl, inr, arith, Bool-cases,
}
use ai_forge_memory.Memory.Decay.{
  Observation, is_stale, archive, archive_batch, decay_rounds, run_decay,
}

-- The facts that the query matches.
abbrev pub count_stale : ℕ → ℕ → List Observation → ℕ
count_stale now days [] = 0
count_stale now days (o ∷ os) =
    let rest = count_stale now days os in if is_stale now days o then suc rest else rest

archive-not_stale : (now days k : ℕ) (o : Observation) → is_stale now days (archive k o) ≡ false
unfolding is_stale
archive-not_stale now days k o = refl

archive_batch_counts :
    (now days batch : ℕ) (os : List Observation)
    → ((archive_batch now days batch os).1 ≡ min batch (count_stale now days os))
      × (count_stale now days (archive_batch now days batch os).0 ≡ count_stale now days os - batch)
unfolding archive_batch
archive_batch_counts now days batch [] = (omega arith, omega arith)
archive_batch_counts now days batch (o ∷ os) =
    let ih : (b : ℕ)
        → ((archive_batch now days b os).1 ≡ min b (count_stale now days os))
          × (count_stale now days (archive_batch now days b os).0 ≡ count_stale now days os - b) =
      λ b. archive_batch_counts now days b os in
    elim (Bool-cases (is_stale now days o)) [
      | inl t ↦ elim (Bool-cases (ltb 0 batch)) [
        | inl u ↦
            rw (t, u, archive-not_stale now days now o)
              (ground (arith, (ih (batch - 1)).0), ground (arith, (ih (batch - 1)).1))
        | inr v ↦ rw (t, v, t) (ground (arith, (ih batch).0), ground (arith, (ih batch).1))
      ]
      | inr f ↦ rw (f, f) (ground (arith, (ih batch).0), ground (arith, (ih batch).1))
    ]

suc_mul : (r b : ℕ) → suc r * b ≡ b + r * b
suc_mul r b = omega arith

decay_rounds_counts :
    (rounds now days batch : ℕ) (os : List Observation)
    → ((decay_rounds rounds (λ _. now) days batch os).1
        ≡ min (rounds * batch) (count_stale now days os))
      × (count_stale now days (decay_rounds rounds (λ _. now) days batch os).0
          ≡ count_stale now days os - rounds * batch)
unfolding decay_rounds
decay_rounds_counts zero now days batch os = (omega arith, omega arith)
decay_rounds_counts (suc rounds) now days batch os =
    let c = archive_batch_counts now days batch os in
    let ih = decay_rounds_counts rounds now days batch (archive_batch now days batch os).0 in
    elim (Bool-cases (ltb (archive_batch now days batch os).1 batch)) [
      | inl t ↦ rw t (
        ground (arith, c.0, suc_mul rounds batch),
        ground (arith, c.0, c.1, suc_mul rounds batch),
      )
      | inr f ↦ rw f (
        ground (arith, c.0, c.1, ih.0, suc_mul rounds batch),
        ground (arith, c.0, c.1, ih.1, suc_mul rounds batch),
      )
    ]

-- On a clock that stands still, a run archives every stale fact, up to fifty batches of them, and
-- leaves as many stale as it could not reach; the count it reports is that of the archived facts.
pub run_decay_counts :
    (now days batch : ℕ) (os : List Observation)
    → ((run_decay (λ _. now) days batch os).1 ≡ min (50 * batch) (count_stale now days os))
      × (count_stale now days (run_decay (λ _. now) days batch os).0
          ≡ count_stale now days os - 50 * batch)
unfolding run_decay
run_decay_counts now days batch os = decay_rounds_counts 50 now days batch os

-- A fact after a run: the old one, or the old one archived, if it was stale at a time at which the
-- database's clock stood while the run lasted.
abbrev pub IsAged : (ℕ → ℕ) → ℕ → Observation → Observation → Type 0
IsAged now days o p =
    (p ≡ o) ⊎ ((k : ℕ) × (is_stale (now k) days o ≡ true) × (p ≡ archive (now k) o))

-- The facts one by one, none added and none lost.
abbrev pub AreAged : (ℕ → ℕ) → ℕ → List Observation → List Observation → Type 0
AreAged now days [] [] = Unit
AreAged now days [] (p ∷ ps) = ⊥
AreAged now days (o ∷ os) [] = ⊥
AreAged now days (o ∷ os) (p ∷ ps) = IsAged now days o p × AreAged now days os ps

AreAged-refl : (now : ℕ → ℕ) (days : ℕ) (os : List Observation) → AreAged now days os os
AreAged-refl now days [] = tt
AreAged-refl now days (o ∷ os) = (inl refl, AreAged-refl now days os)

archive_batch-AreAged :
    (now : ℕ → ℕ) (k days batch : ℕ) (os : List Observation)
    → AreAged now days os (archive_batch (now k) days batch os).0
unfolding archive_batch
archive_batch-AreAged now k days batch [] = tt
archive_batch-AreAged now k days batch (o ∷ os) =
    let ih : (b : ℕ) → AreAged now days os (archive_batch (now k) days b os).0 =
      λ b. archive_batch-AreAged now k days b os in
    elim (Bool-cases (is_stale (now k) days o)) [
      | inl t ↦ elim (Bool-cases (ltb 0 batch)) [
        | inl u ↦ rw (t, u) (inr (k, t, refl), ih (batch - 1))
        | inr v ↦ rw (t, v) (inl refl, ih batch)
      ]
      | inr f ↦ rw f (inl refl, ih batch)
    ]

IsAged-trans :
    (now : ℕ → ℕ) (days : ℕ) (o p q : Observation)
    → IsAged now days o p
    → IsAged now days p q
    → IsAged now days o q
IsAged-trans now days o p q (inl e) h = subst (λ x. IsAged now days x q) e h
IsAged-trans now days o p q (inr (k, t, d)) (inl e) = inr (k, t, e ∙ d)
IsAged-trans now days o p q (inr (k, t, e)) (inr (j, u, d)) =
    cc (ap (is_stale (now j) days) e, archive-not_stale (now j) days (now k) o)

AreAged-trans :
    (now : ℕ → ℕ) (days : ℕ) (os ps qs : List Observation)
    → AreAged now days os ps
    → AreAged now days ps qs
    → AreAged now days os qs
AreAged-trans now days [] [] [] h g = tt
AreAged-trans now days [] [] (q ∷ qs) h g = absurd g
AreAged-trans now days [] (p ∷ ps) qs h g = absurd h
AreAged-trans now days (o ∷ os) [] qs h g = absurd h
AreAged-trans now days (o ∷ os) (p ∷ ps) [] h g = absurd g
AreAged-trans now days (o ∷ os) (p ∷ ps) (q ∷ qs) (h, hs) (g, gs) =
    (IsAged-trans now days o p q h g, AreAged-trans now days os ps qs hs gs)

decay_rounds-AreAged :
    (now : ℕ → ℕ) (rounds days batch : ℕ) (os : List Observation)
    → AreAged now days os (decay_rounds rounds now days batch os).0
unfolding decay_rounds
decay_rounds-AreAged now zero days batch os = AreAged-refl now days os
decay_rounds-AreAged now (suc rounds) days batch os =
    let h = archive_batch-AreAged now rounds days batch os in
    let ih =
      decay_rounds-AreAged now rounds days batch (archive_batch (now rounds) days batch os).0 in
    elim (Bool-cases (ltb (archive_batch (now rounds) days batch os).1 batch)) [
      | inl t ↦ rw t h
      | inr f ↦ rw f (AreAged-trans now days os _ _ h ih)
    ]

-- Whatever the clock does, a run neither adds, drops nor reorders a fact, and every fact either is
-- as it was, or was stale at one of the clock's readings and is archived with that reading.
run_decay-AreAged :
    (now : ℕ → ℕ) (days batch : ℕ) (os : List Observation)
    → AreAged now days os (run_decay now days batch os).0
unfolding run_decay
run_decay-AreAged now days batch os = decay_rounds-AreAged now 50 days batch os
