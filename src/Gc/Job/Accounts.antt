-- ===== src/Gc/Job/Accounts.antt =====
-- What DoRunGC leaves: each record of the inputs is dropped, or queued with an index that the output
-- files hold it at.
use diffkv.Prelude.{
  ℕ, ◌≡◌, refl, sym, ap, ◌∙◌, inl, inr, true, false, not, ◌&&◌, leb, none, some, List, [], ◌∷◌,
  ◌++◌, All, ok, assert, >>=-eq-ok, ok-injective, Outcome-cases, Status, is_empty, Bool-cases,
  Option-cases,
}
use mathlib.Core.Path.{subst}
use mathlib.Core.List.{append_assoc, append-nil}
use diffkv.Coding.{Coding, IsCoding, Crc, IsCrc}
use diffkv.Options.{Comparator, DbOptions, CfOptions}
use diffkv.Compression.{CompressionType, Codecs, IsCodecs}
use diffkv.BlobFile.Builder.{add}
use diffkv.BlobFile.RoundTrip.{IsWritable}
use diffkv.Gc.Job.{
  GcItem, Rewrite, GcJob, discard_entry, record_of, close_output, count_read, count_overwritten,
  create_output, ready_output, write_item, rewrite_item, keep_item, run_item, run_items, end_run,
  do_run_gc,
}
use diffkv.Gc.Job.Settled.{
  Among, Settled, Accounted, Turn, Settled-same, Settled-close, close_output-Settled,
  ready_output-Settled, write_item-Turn,
}

-- The end of a run that returns OK.
end_run-Settled :
    (job last : GcJob)
    → end_run none job ≡ ok (none, last)
    → (job.status ≡ none) × (last.batches ≡ job.batches) × Settled job last.outputs
unfolding end_run
end_run-Settled job last e = elim (Option-cases job.status) [
  | inr (s, bad) ↦ absurd (cc (ap (λ p. p.0) (ok-injective (rw (bad, end_run) at e))))
  | inl good ↦ elim (Option-cases job.open_output) [
    | inl shut ↦
        let same = ok-injective (rw (good, end_run, shut) at e) in
        (
          good,
          sym (ap (λ p. p.1.batches) same),
          record {
            closed = λ x m. subst (λ l. Among x l) (ap (λ p. p.1.outputs) same) m;
            current = λ o e'. absurd (cc (shut, e'));
          },
        )
    | inr (out, there) ↦
        let (shut_job, shut, e1) =
          >>=-eq-ok (close_output job) _ (rw (good, end_run, there) at e) in
        let (o, now, fine, same) = close_output-Settled job shut_job shut in
        let end = ap (λ p. p.1) (ok-injective e1) in
        (
          good,
          sym (ap (λ j. j.batches) end) ∙ ap (λ j. j.batches) same,
          Settled-close job o last.outputs now fine (λ x m.
              subst (λ l. Among x l) (sym (ap (λ j. j.outputs) same) ∙ ap (λ j. j.outputs) end) m),
        )
  ]
]

module _ (c : Coding) (law : IsCoding c) (crc : Crc) (icrc : IsCrc crc) (z : Codecs)
    (zlaw : IsCodecs z) (t : CompressionType) (cmp : Comparator) {R : Type 0} (db : DbOptions)
    (options : CfOptions R) (own : (db.sep_before_flush && not options.level_merge) ≡ false) where
  rewrite_item-Turn :
      (i : GcItem) (job j1 : GcJob)
      → IsWritable (record_of i)
      → discard_entry c i.lookup i.index ≡ ok false
      → rewrite_item c crc z t cmp options.blob_file_target_size i job ≡ ok (false, j1)
      → Turn c crc z i job j1
  unfolding rewrite_item
  rewrite_item-Turn i job j1 w live e =
      let ((stopped, j0), ready, rest) =
        >>=-eq-ok (ready_output c options.blob_file_target_size i job) _ e in
      elim (Bool-cases stopped) [
        | inl yes_stopped ↦
            absurd (cc (yes_stopped, ap (λ p. p.0) (ok-injective (rw yes_stopped at rest))))
        | inr goes ↦
            let ready' : ready_output c options.blob_file_target_size i job ≡ ok (false, j0) =
              ready ∙ ap (λ b. ok (b, j0)) goes in
            let (out, there, kept, back) =
              ready_output-Settled c options.blob_file_target_size i job j0 ready' in
            let rest' : write_item c crc z t cmp i j0 ≡ ok (false, j1) = rw goes at rest in
            λ outs v.
              let (v0, mine, added, account) =
                write_item-Turn c law crc icrc z zlaw t cmp i j0 j1 w live rest' outs v in
              (back outs v0, mine, added ∙ ap (λ l. l ++ mine) kept, account)
      ]

  run_item-Turn :
      (i : GcItem) (job j1 : GcJob)
      → IsWritable (record_of i)
      → run_item c crc z t cmp db options i job ≡ ok (false, j1)
      → Turn c crc z i job j1
  unfolding run_item keep_item count_read count_overwritten
  run_item-Turn i job j1 w e = elim (Bool-cases i.shutting_down) [
    | inl down ↦ absurd (cc (ap (λ p. p.0) (ok-injective (rw (down, run_item) at e))))
    | inr up ↦
        let e1 = rw (up, run_item) at e in
        elim (Outcome-cases (discard_entry c i.lookup i.index)) [
          | inl bad ↦ absurd (cc (rw bad at e1))
          | inr (inl (s, bad)) ↦ absurd (cc (ap (λ p. p.0) (ok-injective (rw bad at e1))))
          | inr (inr (gone, answer)) ↦ elim (Bool-cases gone) [
            | inl dead ↦
                let same = ok-injective (rw (answer, dead) at e1) in
                λ outs v. (
                  Settled-same job j1 outs (ap (λ p. p.1.outputs) same)
                      (ap (λ p. p.1.open_output) same) v,
                  [],
                  sym (ap (λ p. p.1.batches) same) ∙ sym (append-nil job.batches),
                  answer ∙ ap ok dead,
                )
            | inr live ↦
                let e2 : keep_item c crc z t cmp db options i (count_read i job) ≡ ok (false, j1) =
                  rw (answer, live) at e1 in
                let e3 : rewrite_item c crc z t cmp options.blob_file_target_size i
                      (count_read i job)
                    ≡ ok (false, j1) =
                  rw (own, keep_item) at e2 in
                λ outs v.
                  let (v0, mine, now, account) =
                    rewrite_item-Turn i (count_read i job) j1 w (answer ∙ ap ok live) e3 outs v in
                  (Settled-same job (count_read i job) outs refl refl v0, mine, now, account)
          ]
        ]
  ]

  write_item-stops :
      (i : GcItem) (job j1 : GcJob)
      → write_item c crc z t cmp i job ≡ ok (true, j1)
      → (s : Status) × (j1.status ≡ some s)
  unfolding write_item
  write_item-stops i job j1 e = elim (Option-cases job.open_output) [
    | inl shut ↦ absurd (cc (rw (shut, write_item) at e))
    | inr (out, there) ↦
        let (_, _, e1) =
          >>=-eq-ok
            (add c crc z t cmp i.write_io (record_of i) (record { offset = 0; size = 0 })
              out.builder)
            _ (rw (there, write_item) at e) in
        let (_, _, e2) = >>=-eq-ok (assert (not (is_empty i.key))) _ e1 in
        let same = ok-injective e2 in
        elim (Option-cases i.put_io) [
          | inl fine ↦ absurd (cc (fine, ap (λ p. p.0) same))
          | inr (s, bad) ↦ (s, sym (ap (λ p. p.1.status) same) ∙ bad)
        ]
  ]

  create_output-stops :
      (i : GcItem) (job j1 : GcJob)
      → create_output c i job ≡ ok (true, j1)
      → (s : Status) × (j1.status ≡ some s)
  unfolding create_output
  create_output-stops i job j1 e = elim (Outcome-cases i.new_file) [
    | inl bad ↦ absurd (cc (rw (bad, create_output) at e))
    | inr (inl (s, bad)) ↦
        (s, sym (ap (λ p. p.1.status) (ok-injective (rw (bad, create_output) at e))))
    | inr (inr (n, made)) ↦
        absurd (cc (ap (λ p. p.0) (ok-injective (rw (made, create_output) at e))))
  ]

  ready_output-stops :
      (size : ℕ) (i : GcItem) (job j1 : GcJob)
      → ready_output c size i job ≡ ok (true, j1)
      → (s : Status) × (j1.status ≡ some s)
  unfolding ready_output
  ready_output-stops size i job j1 e = elim (Bool-cases (leb size job.file_size)) [
    | inl full ↦
        let (j0, _, made) =
          >>=-eq-ok (close_output job) (create_output c i) (rw (full, ready_output) at e) in
        create_output-stops i j0 j1 made
    | inr room ↦ elim (Option-cases job.open_output) [
      | inl shut ↦ create_output-stops i job j1 (rw (room, ready_output, shut) at e)
      | inr (out, there) ↦
          absurd (cc (ap (λ p. p.0) (ok-injective (rw (room, ready_output, there) at e))))
    ]
  ]

  rewrite_item-stops :
      (i : GcItem) (job j1 : GcJob)
      → rewrite_item c crc z t cmp options.blob_file_target_size i job ≡ ok (true, j1)
      → (s : Status) × (j1.status ≡ some s)
  unfolding rewrite_item
  rewrite_item-stops i job j1 e =
      let ((stopped, j0), ready, rest) =
        >>=-eq-ok (ready_output c options.blob_file_target_size i job) _ e in
      elim (Bool-cases stopped) [
        | inl halts ↦
            let (s, bad) =
              ready_output-stops options.blob_file_target_size i job j0
                (ready ∙ ap (λ b. ok (b, j0)) halts) in
            (s, sym (ap (λ p. p.1.status) (ok-injective (rw halts at rest))) ∙ bad)
        | inr goes ↦ write_item-stops i j0 j1 (rw goes at rest)
      ]

  -- A `break` leaves a status that is not OK.
  run_item-stops :
      (i : GcItem) (job j1 : GcJob)
      → run_item c crc z t cmp db options i job ≡ ok (true, j1)
      → (s : Status) × (j1.status ≡ some s)
  unfolding run_item keep_item
  run_item-stops i job j1 e = elim (Bool-cases i.shutting_down) [
    | inl down ↦ (
      Status.shutdown_in_progress,
      sym (ap (λ p. p.1.status) (ok-injective (rw (down, run_item) at e))),
    )
    | inr up ↦
        let e1 = rw (up, run_item) at e in
        elim (Outcome-cases (discard_entry c i.lookup i.index)) [
          | inl bad ↦ absurd (cc (rw bad at e1))
          | inr (inl (s, bad)) ↦ (s, sym (ap (λ p. p.1.status) (ok-injective (rw bad at e1))))
          | inr (inr (gone, answer)) ↦ elim (Bool-cases gone) [
            | inl dead ↦ absurd (cc (ap (λ p. p.0) (ok-injective (rw (answer, dead) at e1))))
            | inr live ↦
                let e2 : keep_item c crc z t cmp db options i (count_read i job) ≡ ok (true, j1) =
                  rw (answer, live) at e1 in
                rewrite_item-stops i (count_read i job) j1 (rw (own, keep_item) at e2)
          ]
        ]
  ]

  run_items-Accounted :
      (is : List GcItem) (job mid last : GcJob)
      → All (λ i. IsWritable (record_of i)) is
      → run_items c crc z t cmp db options is job ≡ ok mid
      → end_run none mid ≡ ok (none, last)
      → Settled job last.outputs
        × (bs : List Rewrite) × (last.batches ≡ job.batches ++ bs)
        × Accounted c crc z last.outputs is bs
  unfolding run_items
  run_items-Accounted [] job mid last w e end =
      let same = ok-injective e in
      let (_, batches, v) = end_run-Settled mid last end in
      (
        subst (λ j. Settled j last.outputs) (sym same) v,
        [],
        batches ∙ (sym (ap (λ j. j.batches) same) ∙ sym (append-nil job.batches)),
        refl,
      )
  run_items-Accounted (i ∷ is) job mid last (wi, w) e end =
      let ((stopped, j1), turn, rest) = >>=-eq-ok (run_item c crc z t cmp db options i job) _ e in
      elim (Bool-cases stopped) [
        | inl halts ↦
            let (s, bad) = run_item-stops i job j1 (turn ∙ ap (λ b. ok (b, j1)) halts) in
            let (good, _, _) = end_run-Settled mid last end in
            absurd (cc (bad, good, ap (λ (j : GcJob). j.status) (ok-injective (rw halts at rest))))
        | inr goes ↦
            let (v, others, later, accounts) =
              run_items-Accounted is j1 mid last w (rw goes at rest) end in
            let (v0, mine, now, account) =
              run_item-Turn i job j1 wi (turn ∙ ap (λ b. ok (b, j1)) goes) last.outputs v in
            (
              v0,
              mine ++ others,
              later ∙ (ap (λ l. l ++ others) now ∙ append_assoc job.batches mine others),
              (mine, others, refl, account, accounts),
            )
      ]

  -- If DoRunGC returns OK on the records of the input files, then rewrite_batches_ has, in the order
  -- of the records, one batch for each record that its key still named when the tree was asked, and
  -- none for the others. The batch has the record's key and old index, and its new entry is the
  -- index of a place in an output file at which that record is read, whatever is appended to the file.
  -- It is so where the job writes its own files, and each record fits the encoding.
  pub do_run_gc-Accounted :
      (is : List GcItem) (job last : GcJob)
      → job.batches ≡ []
      → All (λ i. IsWritable (record_of i)) is
      → do_run_gc c crc z t cmp db options none is none job ≡ ok (none, last)
      → Accounted c crc z last.outputs is last.batches
  unfolding do_run_gc
  do_run_gc-Accounted is job last start w e =
      let (_, _, e1) = >>=-eq-ok (assert (not (is_empty is))) _ e in
      let (mid, ran, end) = >>=-eq-ok (run_items c crc z t cmp db options is job) _ e1 in
      let (_, bs, batches, accounts) = run_items-Accounted is job mid last w ran end in
      subst (λ l. Accounted c crc z last.outputs is l) (sym (batches ∙ ap (λ l. l ++ bs) start))
        accounts
