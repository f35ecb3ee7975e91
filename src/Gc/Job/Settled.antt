-- ===== src/Gc/Job/Settled.antt =====
-- The output files of DoRunGC: what a turn of the loop leaves is still there when the run ends.
use diffkv.Prelude.{
  ℕ, ◌≡◌, refl, sym, ap, ◌∙◌, ◌⊎◌, inl, inr, true, false, not, leb, Option, none, some, is_none,
  List, [], ◌∷◌, ◌++◌, Bytes, ok, assert, >>=-eq-ok, ok-injective, Outcome-cases, Status, is_empty,
  Bool-cases, Option-cases,
}
use mathlib.Core.Path.{subst}
use mathlib.Core.List.{append_assoc, append-nil}
use diffkv.Coding.{Coding, IsCoding, Crc, IsCrc}
use diffkv.Options.{Comparator}
use diffkv.Compression.{CompressionType, Codecs, IsCodecs}
use diffkv.Format.Index.{BlobHandle, encode_index}
use diffkv.BlobFile.Builder.{BlobFileBuilder, new_builder, add}
use diffkv.BlobFile.Reader.{read_record}
use diffkv.BlobFile.RoundTrip.{IsWritable, request, read_added, add-ok, add-fine}
use diffkv.Gc.Job.{
  GcItem, GcOutput, Rewrite, GcJob, discard_entry, record_of, close_output, create_output,
  ready_output, write_item,
}

-- A file without an error so far, and the same file later on.
abbrev pub Extends : BlobFileBuilder → BlobFileBuilder → Type 0
Extends b b' = (b.status ≡ none) × (more : Bytes) × (b'.file ≡ b.file ++ more)

-- An entry of a list.
abbrev pub Among : GcOutput → List GcOutput → Type 0
Among x [] = ⊥
Among x (y ∷ ys) = (x ≡ y) ⊎ Among x ys

pub Among-append_left : (x : GcOutput) (xs ys : List GcOutput) → Among x xs → Among x (xs ++ ys)
Among-append_left x [] ys m = elim m [ ]
Among-append_left x (y ∷ xs) ys (inl e) = inl e
Among-append_left x (y ∷ xs) ys (inr m) = inr (Among-append_left x xs ys m)

pub Among-append_last : (x : GcOutput) (xs : List GcOutput) → Among x (xs ++ (x ∷ []))
Among-append_last x [] = inl refl
Among-append_last x (y ∷ xs) = inr (Among-append_last x xs)

-- What a job has written is in the outputs that the run ends with.
pub record Settled (job : GcJob) (outs : List GcOutput) : Type 0 where
  pub closed : (x : GcOutput) → Among x job.outputs → Among x outs
  pub current :
      (out : GcOutput)
      → job.open_output ≡ some out
      → (b : BlobFileBuilder) × Among (record { number = out.number; builder = b }) outs
        × Extends out.builder b

module _ (c : Coding) (crc : Crc) (z : Codecs) where
  -- An output file holds the item's record, and `entry` is the index of that place.
  abbrev pub HoldsAt : List GcOutput → Bytes → GcItem → Type 0
  HoldsAt outs entry i =
      (out : GcOutput) × (h : BlobHandle) × Among out outs
      × (entry ≡ encode_index c (record { file_number = out.number; blob_handle = h }))
      × ((tail : Bytes)
          → read_record c crc z none h (request (record_of i)) (out.builder.file ++ tail)
            ≡ ok (record_of i))

  -- What the batches say of one item: nothing if its key no longer names it, else its new place.
  abbrev pub ItemAccount : List GcOutput → GcItem → List Rewrite → Type 0
  ItemAccount outs i [] = discard_entry c i.lookup i.index ≡ ok true
  ItemAccount outs i (b ∷ []) =
      (discard_entry c i.lookup i.index ≡ ok false)
      × (b.key ≡ i.key)
      × (b.old_index ≡ i.index)
      × HoldsAt outs b.entry i
  ItemAccount outs i bs = ⊥

  -- The batches are those of the items, in their order.
  abbrev pub Accounted : List GcOutput → List GcItem → List Rewrite → Type 0
  Accounted outs [] bs = bs ≡ []
  Accounted outs (i ∷ is) bs =
      (mine : List Rewrite) × (others : List Rewrite) × (bs ≡ mine ++ others)
      × ItemAccount outs i mine
      × Accounted outs is others

  -- A turn of the loop that goes on, seen from the end of the run.
  abbrev pub Turn : GcItem → GcJob → GcJob → Type 0
  Turn i job j1 =
      (outs : List GcOutput)
      → Settled j1 outs
      → Settled job outs
        × (mine : List Rewrite) × (j1.batches ≡ job.batches ++ mine)
        × ItemAccount outs i mine

pub Settled-same :
    (job j0 : GcJob) (outs : List GcOutput)
    → job.outputs ≡ j0.outputs
    → job.open_output ≡ j0.open_output
    → Settled j0 outs
    → Settled job outs
Settled-same job j0 outs same now v = record {
  closed = λ x m. v.closed x (subst (λ l. Among x l) same m);
  current = λ o e. v.current o (sym now ∙ e);
}

some-injective {ℓ} : {A : Type ℓ} {a b : A} → some a ≡ some b → a ≡ b
some-injective e = cc

pub Settled-grown :
    (job : GcJob) (out : GcOutput) (last : BlobFileBuilder) (outs : List GcOutput)
    → job.open_output ≡ some out
    → Among (record { number = out.number; builder = last }) outs
    → Extends out.builder last
    → ((x : GcOutput) → Among x job.outputs → Among x outs)
    → Settled job outs
Settled-grown job out last outs there among more all = record {
  closed = all;
  current = λ o e.
      subst
        (λ (y : GcOutput).
          (b : BlobFileBuilder) × Among (record { number = y.number; builder = b }) outs
          × Extends y.builder b)
        (some-injective (sym there ∙ e)) (last, among, more);
}

assert-is_none : (o : Option Status) {u : Unit {0}} → assert (is_none o) ≡ ok u → o ≡ none
assert-is_none none e = refl
assert-is_none (some x) e = cc e

pub close_output-Settled :
    (job j0 : GcJob)
    → close_output job ≡ ok j0
    → (out : GcOutput) × (job.open_output ≡ some out)
      × (out.builder.status ≡ none)
      × (j0 ≡ record job { outputs = job.outputs ++ (out ∷ []); open_output = none })
unfolding close_output
close_output-Settled job j0 e = elim (Option-cases job.open_output) [
  | inl shut ↦ absurd (cc (rw (shut, close_output) at e))
  | inr (out, there) ↦
      let (_, tested, same) =
        >>=-eq-ok (assert (is_none out.builder.status)) _ (rw (there, close_output) at e) in
      (out, there, assert-is_none out.builder.status tested, sym (ok-injective same))
]

-- What is settled after a file was closed was settled before.
pub Settled-close :
    (job : GcJob) (out : GcOutput) (outs : List GcOutput)
    → job.open_output ≡ some out
    → out.builder.status ≡ none
    → ((x : GcOutput) → Among x (job.outputs ++ (out ∷ [])) → Among x outs)
    → Settled job outs
Settled-close job out outs there good all =
    Settled-grown job out out.builder outs there (all out (Among-append_last out job.outputs))
      (good, [], sym (append-nil out.builder.file))
      (λ x m. all x (Among-append_left x job.outputs (out ∷ []) m))

Settled-opened :
    (job j0 : GcJob) (outs : List GcOutput)
    → job.open_output ≡ none
    → j0.outputs ≡ job.outputs
    → Settled j0 outs
    → Settled job outs
Settled-opened job j0 outs shut same v = record {
  closed = λ x m. v.closed x (subst (λ l. Among x l) (sym same) m);
  current = λ o e. absurd (cc (shut, e));
}

module _ (c : Coding) where
  -- What create_output comes to when the loop goes on.
  create_output-open :
      (i : GcItem) (job j0 : GcJob)
      → create_output c i job ≡ ok (false, j0)
      → (out : GcOutput) × (j0.open_output ≡ some out)
        × (j0.outputs ≡ job.outputs)
        × (j0.batches ≡ job.batches)
  unfolding create_output
  create_output-open i job j0 e = elim (Outcome-cases i.new_file) [
    | inl bad ↦ absurd (cc (rw (bad, create_output) at e))
    | inr (inl (s, bad)) ↦ absurd (cc (ap (λ p. p.0) (ok-injective (rw (bad, create_output) at e))))
    | inr (inr (n, made)) ↦
        let same = ok-injective (rw (made, create_output) at e) in
        (
          record { number = n; builder = new_builder c i.header_io },
          sym (ap (λ p. p.1.open_output) same),
          sym (ap (λ p. p.1.outputs) same),
          sym (ap (λ p. p.1.batches) same),
        )
  ]

  -- A file is ready: nothing is lost, and no batch is new.
  pub ready_output-Settled :
      (size : ℕ) (i : GcItem) (job j0 : GcJob)
      → ready_output c size i job ≡ ok (false, j0)
      → (out : GcOutput) × (j0.open_output ≡ some out)
        × (j0.batches ≡ job.batches)
        × ((outs : List GcOutput) → Settled j0 outs → Settled job outs)
  unfolding ready_output
  ready_output-Settled size i job j0 e = elim (Bool-cases (leb size job.file_size)) [
    | inl full ↦
        let (j1, shut, made) =
          >>=-eq-ok (close_output job) (create_output c i) (rw (full, ready_output) at e) in
        let (old, there, good, same) = close_output-Settled job j1 shut in
        let (out, ready, kept, still) = create_output-open i j1 j0 made in
        (
          out,
          ready,
          still ∙ ap (λ j. j.batches) same,
          λ outs v. Settled-close job old outs there good (
              subst (λ l. (x : GcOutput) → Among x l → Among x outs)
                (kept ∙ ap (λ j. j.outputs) same) v.closed),
        )
    | inr room ↦ elim (Option-cases job.open_output) [
      | inl none_open ↦
          let (out, ready, kept, still) =
            create_output-open i job j0 (rw (room, ready_output, none_open) at e) in
          (out, ready, still, λ outs v. Settled-opened job j0 outs none_open kept v)
      | inr (out, there) ↦
          let same = ok-injective (rw (room, ready_output, there) at e) in
          let now : j0.open_output ≡ some out = sym (ap (λ p. p.1.open_output) same) ∙ there in
          (
            out,
            now,
            sym (ap (λ p. p.1.batches) same),
            λ outs v. Settled-same job j0 outs (ap (λ p. p.1.outputs) same) (there ∙ sym now) v,
          )
    ]
  ]

module _ (c : Coding) (law : IsCoding c) (crc : Crc) (icrc : IsCrc crc) (z : Codecs)
    (zlaw : IsCodecs z) (t : CompressionType) (cmp : Comparator) where
  pub write_item-Turn :
      (i : GcItem) (job j1 : GcJob)
      → IsWritable (record_of i)
      → discard_entry c i.lookup i.index ≡ ok false
      → write_item c crc z t cmp i job ≡ ok (false, j1)
      → Turn c crc z i job j1
  unfolding write_item
  write_item-Turn i job j1 w live e outs v = elim (Option-cases job.open_output) [
    | inl shut ↦ absurd (cc (rw (shut, write_item) at e))
    | inr (out, there) ↦
        let ((h, b), one, e1) =
          >>=-eq-ok
            (add c crc z t cmp i.write_io (record_of i) (record { offset = 0; size = 0 })
              out.builder)
            _ (rw (there, write_item) at e) in
        let (_, _, e2) = >>=-eq-ok (assert (not (is_empty i.key))) _ e1 in
        let same = ok-injective e2 in
        let entry = encode_index c (record { file_number = out.number; blob_handle = h }) in
        let (last, among, (fine, more, longer)) =
          v.current (record out { builder = b }) (sym (ap (λ p. p.1.open_output) same)) in
        let (good, no_io) =
          add-fine c crc z t cmp i.write_io (record_of i) (record { offset = 0; size = 0 }) h
            out.builder b one fine in
        let (header, body, enc, at_end, grown, _) =
          add-ok c law crc icrc z zlaw t cmp (record_of i) (record { offset = 0; size = 0 }) h
            out.builder b good
            (subst
              (λ io.
                add c crc z t cmp io (record_of i) (record { offset = 0; size = 0 }) out.builder
                ≡ ok (h, b))
              no_io one) in
        (
          Settled-grown job out last outs there among
              (
                good,
                (header ++ body) ++ more,
                longer
                    ∙ (ap (λ x. x ++ more) grown
                        ∙ append_assoc out.builder.file (header ++ body) more),
              )
              (λ x m. v.closed x (subst (λ l. Among x l) (ap (λ p. p.1.outputs) same) m)),
          record { key = i.key; old_index = i.index; entry = entry } ∷ [],
          sym (ap (λ p. p.1.batches) same),
          (
            live,
            refl,
            refl,
            (
              record { number = out.number; builder = last },
              h,
              among,
              refl,
              λ tail.
                  read_added c law crc icrc z zlaw t cmp (record_of i) h header body
                    out.builder.file b.file last.file more tail w enc at_end grown longer,
            ),
          ),
        )
  ]
