-- ===== src/Storage/Invariant/Methods.antt =====
-- AddBlobFile and MarkFileObsolete keep the invariant.
use diffkv.Prelude.{
  ℕ, ◌+◌, ◌≡◌, ◌≤◌, refl, sym, ap, ◌∙◌, Bool, false, leb, some, List, [], ◌∷◌, All, All-append,
  length-append, arith, ok, assert, >>=-eq-ok, ok-injective, Option-cases, inl, inr,
}
use diffkv.Prelude.Assoc.{
  find, has, emplace, modify, Distinct, emplace-Distinct, modify-Distinct, find-emplace,
  find-modify_self, find-modify_ne, emplace_new,
}
use mathlib.Core.Path.{subst}
use diffkv.Options.{Comparator}
use diffkv.Format.FileMeta.{
  BlobFileMeta, FileEvent, FileState, is_obsolete, transit, file_state_transit,
}
use diffkv.Storage.Totals.{total, total-emplace, total-modify, All-emplace, All-modify, All-find}
use diffkv.Storage.{
  BlobStorage, level_slot, with_blob_file, with_obsolete_file, add_blob_file,
  mark_file_obsolete_locked, mark_file_obsolete,
}
use diffkv.Storage.Invariant.{
  live_one, live_size, dead_one, dead_size, live_size_at, IsKeyed, IsFitted, Names, IsWellFormed,
}

-- A new file under a new number leaves the names of the others in place.
Names-emplace :
    (k : ℕ) (v : BlobFileMeta) (files : List (ℕ × BlobFileMeta)) (ps : List (ℕ × ℕ))
    → All (Names files) ps
    → All (Names (emplace k v files)) ps
Names-emplace k v files [] a = tt
Names-emplace k v files ((n, q) ∷ ps) ((m, f, o), a) =
    ((m, ground (arith, find-emplace k n v files), o), Names-emplace k v files ps a)

assert-le : (a b : ℕ) {u : Unit {0}} → assert (leb a b) ≡ ok u → a ≤ b
assert-le a b h = ground arith

module _ {R : Type 0} (cmp : Comparator) where
  with_blob_file-IsWellFormed :
      (m : BlobFileMeta) (s : BlobStorage R)
      → IsWellFormed s
      → has m.file_number s.files ≡ false
      → is_obsolete m ≡ false
      → level_slot s.cf_options m ≤ s.cf_options.num_levels
      → IsWellFormed (with_blob_file cmp m s)
  unfolding with_blob_file
  with_blob_file-IsWellFormed m s v new live fits = record {
    counted = record {
      distinct = emplace-Distinct m.file_number m s.files v.distinct;
      keyed = All-emplace IsKeyed m.file_number m s.files v.keyed refl;
      fitted = All-emplace (IsFitted s.cf_options) m.file_number m s.files v.fitted fits;
      levels = λ level. ground (
        arith,
        v.levels level,
        total-emplace (live_size_at s.cf_options level) m.file_number m s.files new,
      );
      live_count = ground (arith, total-emplace live_one m.file_number m s.files new, v.live_count);
      live_bytes =
          ground (arith, total-emplace live_size m.file_number m s.files new, v.live_bytes);
      obsolete_count =
          ground (arith, total-emplace dead_one m.file_number m s.files new, v.obsolete_count);
      obsolete_bytes =
          ground (arith, total-emplace dead_size m.file_number m s.files new, v.obsolete_bytes);
    };
    once = v.once;
    named = Names-emplace m.file_number m s.files s.obsolete_files v.named;
    all_listed = ground (arith, total-emplace dead_one m.file_number m s.files new, v.all_listed);
  }

  -- AddBlobFile of a file that is not obsolete, under a number that is not in the map, keeps the
  -- invariant.
  pub add_blob_file-IsWellFormed :
      (m : BlobFileMeta) (s t : BlobStorage R)
      → IsWellFormed s
      → has m.file_number s.files ≡ false
      → is_obsolete m ≡ false
      → add_blob_file cmp m s ≡ ok t
      → IsWellFormed t
  unfolding add_blob_file
  add_blob_file-IsWellFormed m s t v new live e =
      let (_, fits, same) =
        >>=-eq-ok (assert (leb (level_slot s.cf_options m) s.cf_options.num_levels)) _ e in
      subst IsWellFormed (ok-injective same)
        (with_blob_file-IsWellFormed m s v new live (assert-le _ _ fits))

-- A file that is not obsolete is not in the list of obsolete files.
pub not_listed :
    (k : ℕ) (m : BlobFileMeta) (files : List (ℕ × BlobFileMeta)) (ps : List (ℕ × ℕ))
    → All (Names files) ps
    → find k files ≡ some m
    → is_obsolete m ≡ false
    → has k ps ≡ false
unfolding find
not_listed k m files [] a f live = refl
not_listed k m files ((n, q) ∷ ps) ((m', f', o), a) f live =
    ground (arith, not_listed k m files ps a f live)

-- A file that becomes obsolete leaves the names of those that were in place.
Names-modify :
    (k : ℕ) (m m' : BlobFileMeta) (files : List (ℕ × BlobFileMeta)) (ps : List (ℕ × ℕ))
    → find k files ≡ some m
    → is_obsolete m ≡ false
    → All (Names files) ps
    → All (Names (modify k (λ _. m') files)) ps
Names-modify k m m' files [] f live a = tt
Names-modify k m m' files ((n, q) ∷ ps) f live ((x, fx, ox), a) = (
  (x, find-modify_ne k n (λ _. m') files (λ e. ground arith) ∙ fx, ox),
  Names-modify k m m' files ps f live a,
)

abbrev pub as_obsolete : BlobFileMeta → BlobFileMeta
as_obsolete m = record m { state = FileState.obsolete }

-- kDelete moves any file that is not obsolete, and no other.
pub delete_transit :
    (m m' : BlobFileMeta)
    → file_state_transit FileEvent.delete m ≡ ok m'
    → (is_obsolete m ≡ false) × (m' ≡ as_obsolete m)
unfolding file_state_transit transit is_obsolete
delete_transit m m' e = ground arith

module _ {R : Type 0} where
  with_obsolete_file-IsWellFormed :
      (m : BlobFileMeta) (sequence : ℕ) (s : BlobStorage R)
      → IsWellFormed s
      → find m.file_number s.files ≡ some m
      → is_obsolete m ≡ false
      → IsWellFormed (with_obsolete_file m (as_obsolete m) sequence s)
  unfolding with_obsolete_file is_obsolete
  with_obsolete_file-IsWellFormed m sequence s v found live =
      let n = m.file_number in
      let m' = as_obsolete m in
      let new = not_listed n m s.files s.obsolete_files v.named found live in
      let step : (w : BlobFileMeta → ℕ)
          → total w (modify n (λ _. m') s.files) + w m ≡ total w s.files + w m' =
        λ w. total-modify w n (λ _. m') s.files m found in
      record {
        counted = record {
          distinct = modify-Distinct n (λ _. m') s.files v.distinct;
          keyed = All-modify IsKeyed n m' s.files v.keyed refl;
          fitted =
              All-modify (IsFitted s.cf_options) n m' s.files v.fitted
                (All-find (IsFitted s.cf_options) n s.files m v.fitted found);
          levels = λ level. ground (arith, v.levels level, step (live_size_at s.cf_options level));
          live_count = ground (arith, step live_one, v.live_count);
          live_bytes = ground (arith, step live_size, v.live_bytes);
          obsolete_count = ground (arith, step dead_one, v.obsolete_count);
          obsolete_bytes = ground (arith, step dead_size, v.obsolete_bytes);
        };
        once =
            subst Distinct (emplace_new n sequence s.obsolete_files (ground arith))
              (emplace-Distinct n sequence s.obsolete_files v.once);
        named =
            All-append (Names (modify n (λ _. m') s.files)) s.obsolete_files ((n, sequence) ∷ [])
              (Names-modify n m m' s.files s.obsolete_files found live v.named)
              ((m', find-modify_self n (λ _. m') s.files m found, refl), tt);
        all_listed = ground (
          arith,
          step dead_one,
          v.all_listed,
          length-append s.obsolete_files ((n, sequence) ∷ []),
        );
      }

  mark_locked-IsWellFormed :
      (m : BlobFileMeta) (sequence : ℕ) (s t : BlobStorage R)
      → IsWellFormed s
      → find m.file_number s.files ≡ some m
      → mark_file_obsolete_locked m sequence s ≡ ok t
      → IsWellFormed t
  unfolding mark_file_obsolete_locked
  mark_locked-IsWellFormed m sequence s t v found e =
      let (m', moved, e1) = >>=-eq-ok (file_state_transit FileEvent.delete m) _ e in
      let (live, same) = delete_transit m m' moved in
      let (_, _, e2) =
        >>=-eq-ok (assert (leb (level_slot s.cf_options m) s.cf_options.num_levels)) _ e1 in
      subst IsWellFormed (ap (λ x. with_obsolete_file m x sequence s) (sym same) ∙ ok-injective e2)
        (with_obsolete_file-IsWellFormed m sequence s v found live)

  -- MarkFileObsolete keeps the invariant, whether or not it finds the file.
  pub mark_file_obsolete-IsWellFormed :
      (number sequence : ℕ) (found : Bool) (s t : BlobStorage R)
      → IsWellFormed s
      → mark_file_obsolete number sequence s ≡ ok (found, t)
      → IsWellFormed t
  unfolding mark_file_obsolete
  mark_file_obsolete-IsWellFormed number sequence found s t v e =
      elim (Option-cases (find number s.files)) [
        | inl missing ↦ subst IsWellFormed (cc (rw (missing, mark_file_obsolete) at e)) v
        | inr (m, there) ↦
            let key : m.file_number ≡ number = All-find IsKeyed number s.files m v.keyed there in
            let (t', marked, e1) =
              >>=-eq-ok (mark_file_obsolete_locked m sequence s) _
                (rw (there, mark_file_obsolete) at e) in
            subst IsWellFormed (ap (λ q. q.1) (ok-injective e1)) (
              mark_locked-IsWellFormed m sequence s t' v (ap (λ k. find k s.files) key ∙ there)
                marked)
      ]
