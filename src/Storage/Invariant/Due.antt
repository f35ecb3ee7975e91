-- ===== src/Storage/Invariant/Due.antt =====
-- The entries of the list of obsolete files that a purge takes, and those that it leaves.
use diffkv.Prelude.{
  ◌≤◌, ◌<◌, ℕ, ◌+◌, ◌≡◌, refl, Bool, false, not, ltb, List, [], ◌∷◌, map, All, keep, keep_yes,
  keep_no, length, arith, Bool-cases, inl, inr,
}
use diffkv.Prelude.Assoc.{find, has, Distinct}

-- The entries whose sequence is below `oldest`, and the others.
abbrev pub due : ℕ → List (ℕ × ℕ) → List (ℕ × ℕ)
due oldest = keep (λ p. ltb p.1 oldest)

abbrev pub waiting : ℕ → List (ℕ × ℕ) → List (ℕ × ℕ)
waiting oldest = keep (λ p. not (ltb p.1 oldest))

abbrev pub numbers : List (ℕ × ℕ) → List ℕ
numbers = map (λ p. p.0)

pub has-keep :
    (p : ℕ × ℕ → Bool) (k : ℕ) (ps : List (ℕ × ℕ)) → has k ps ≡ false → has k (keep p ps) ≡ false
unfolding keep find
has-keep p k [] h = refl
has-keep p k ((n, q) ∷ ps) h = ground (arith, has-keep p k ps)

pub keep-Distinct : (p : ℕ × ℕ → Bool) (ps : List (ℕ × ℕ)) → Distinct ps → Distinct (keep p ps)
unfolding keep
keep-Distinct p [] d = tt
keep-Distinct p ((n, q) ∷ ps) d = ground (arith, keep-Distinct p ps d.1, has-keep p n ps d.0)

pub keep-All :
    (P : ℕ × ℕ → Type 0) (p : ℕ × ℕ → Bool) (ps : List (ℕ × ℕ)) → All P ps → All P (keep p ps)
unfolding keep
keep-All P p [] a = tt
keep-All P p (e ∷ ps) a = ground (arith, keep-All P p ps a.1)

pub length-keep :
    (oldest : ℕ) (ps : List (ℕ × ℕ))
    → length (waiting oldest ps) + length (due oldest ps) ≡ length ps
unfolding keep
length-keep oldest [] = refl
length-keep oldest (e ∷ ps) = ground (arith, length-keep oldest ps)

-- No entry that waits has the number of one that is due.
apart_cons :
    (n q : ℕ) (ds ws : List (ℕ × ℕ))
    → has n ws ≡ false
    → All (λ w. has w.0 ds ≡ false) ws
    → All (λ w. has w.0 ((n, q) ∷ ds) ≡ false) ws
unfolding find
apart_cons n q ds [] h a = tt
apart_cons n q ds ((k, r) ∷ ws) h a = ground (arith, apart_cons n q ds ws (ground arith) a.1)

pub waiting_apart :
    (oldest : ℕ) (ps : List (ℕ × ℕ))
    → Distinct ps
    → All (λ w. has w.0 (due oldest ps) ≡ false) (waiting oldest ps)
waiting_apart oldest [] d = unfold keep in tt
waiting_apart oldest ((n, q) ∷ ps) d =
    let rest = waiting_apart oldest ps d.1 in
    let fresh = has-keep (λ p. not (ltb p.1 oldest)) n ps d.0 in
    elim (Bool-cases (ltb q oldest)) [
      | inl e ↦ rw (keep_yes (λ p. ltb p.1 oldest) (n, q) ps e) (
          rw (keep_no (λ p. not (ltb p.1 oldest)) (n, q) ps (rw e))
            (apart_cons n q (due oldest ps) (waiting oldest ps) fresh rest))
      | inr e ↦ rw (keep_no (λ p. ltb p.1 oldest) (n, q) ps e) (
          rw (keep_yes (λ p. not (ltb p.1 oldest)) (n, q) ps (rw e))
            (has-keep (λ p. ltb p.1 oldest) n ps d.0, rest))
    ]

-- What the code's comment asks for: a snapshot does not see a file that became obsolete at `sequence`
-- where the snapshot's own sequence is no less.
abbrev pub IsInvisible : List ℕ → ℕ × ℕ → Type 0
IsInvisible snapshots (n, sequence) = All (λ x. sequence ≤ x) snapshots

below-All :
    (oldest sequence : ℕ) (snapshots : List ℕ)
    → sequence < oldest
    → All (λ x. oldest ≤ x) snapshots
    → All (λ x. sequence ≤ x) snapshots
below-All oldest sequence [] h a = tt
below-All oldest sequence (x ∷ xs) h (a, late) = (omega arith, below-All oldest sequence xs h late)

pub due-IsInvisible :
    (oldest : ℕ) (snapshots : List ℕ) (ps : List (ℕ × ℕ))
    → All (λ x. oldest ≤ x) snapshots
    → All (IsInvisible snapshots) (due oldest ps)
due-IsInvisible oldest snapshots [] a = unfold keep in tt
due-IsInvisible oldest snapshots ((n, q) ∷ ps) a =
    let rest = due-IsInvisible oldest snapshots ps a in
    elim (Bool-cases (ltb q oldest)) [
      | inl e ↦
          rw (keep_yes (λ p. ltb p.1 oldest) (n, q) ps e)
            (below-All oldest q snapshots (ground (arith, e)) a, rest)
      | inr e ↦ rw (keep_no (λ p. ltb p.1 oldest) (n, q) ps e) rest
    ]

pub waiting_late : (oldest : ℕ) (ps : List (ℕ × ℕ)) → All (λ p. oldest ≤ p.1) (waiting oldest ps)
waiting_late oldest [] = unfold keep in tt
waiting_late oldest ((n, q) ∷ ps) =
    let rest = waiting_late oldest ps in
    elim (Bool-cases (ltb q oldest)) [
      | inl e ↦ rw (keep_no (λ p. not (ltb p.1 oldest)) (n, q) ps (rw e)) rest
      | inr e ↦ rw (keep_yes (λ p. not (ltb p.1 oldest)) (n, q) ps (rw e)) (ground (arith, e), rest)
    ]
