-- ===== src/Edit/Dangles.antt =====
-- VersionEdit::DecodeFrom of src/version_edit.cc on any input, and the message that it keeps of a file
-- field that cannot be decoded.
use diffkv.Prelude.{
  ℕ, zero, suc, ◌+◌, ◌≤◌, ◌≡◌, ◌≢◌, ◌↔◌, ◌⊎◌, inl, inr, refl, sym, ◌∙◌, ap, Bool, Option-cases,
  some, [], ◌∷◌, Bytes, Outcome, Outcome-cases, ok, err, fault, ◌>>=◌, Status, length, arith, true,
  false, ◌==◌, if◌then◌else◌,
}
use diffkv.Coding.{Coding, IsCoding}
use diffkv.Format.FileMeta.{Uninit, make_default, decode_meta, decode_legacy}
use diffkv.Edit.Tag
use diffkv.Edit.{
  VersionEdit, dangling, decode_next, decode_family, decode_added_legacy, decode_added,
  decode_deleted, decode_updated, decode_field, decode_fields, decode_edit,
}
use diffkv.Edit.Decode.{
  read_ne_fault, decode_meta-ne-fault, decode_legacy-ne-fault, decode_field_takes,
}

-- Some field of the input, after fields that can be decoded, is a file that cannot.
pub data Dangles (c : Coding) (u : Uninit) : VersionEdit → Bytes → Type 0 where
  bad_legacy :
      (e : VersionEdit) (src body : Bytes) (s : Status)
      → c.get_varint32 src ≡ some (Tag.added_blob_file, body)
      → decode_legacy c (make_default u) body ≡ err s
      → Dangles c u e src
  bad_meta :
      (e : VersionEdit) (src body : Bytes) (s : Status)
      → c.get_varint32 src ≡ some (Tag.added_blob_file_v2, body)
      → decode_meta c (make_default u) body ≡ err s
      → Dangles c u e src
  later :
      (e e' : VersionEdit) (src body rest : Bytes) (tag : ℕ)
      → c.get_varint32 src ≡ some (tag, body)
      → decode_field c u tag e body ≡ ok (e', rest)
      → Dangles c u e' rest
      → Dangles c u e src

dangling_faults {ℓ κ} :
    {A : Type ℓ} {B : Type κ} (m : Outcome A) (f : A → Outcome B)
    → m ≢ fault
    → ((a : A) → f a ≢ fault)
    → (dangling m >>= f) ≡ fault
    → (s : Status) × (m ≡ err s)
dangling_faults (ok a) f h k e = absurd (k a e)
dangling_faults (err s) f h k e = (s, refl)
dangling_faults fault f h k e = absurd (h refl)

if_faults {ℓ κ} :
    {A : Type ℓ} (P : Type κ) (b : Bool) (x y : Outcome A)
    → (b ≡ true → x ≡ fault → P)
    → (y ≡ fault → P)
    → (if b then x else y) ≡ fault
    → P
if_faults P true x y f g h = f refl h
if_faults P false x y f g h = g h

module _ (c : Coding) (law : IsCoding c) (u : Uninit) where
  -- The field is a file that cannot be decoded.
  abbrev BadFile : ℕ → Bytes → Type 0
  BadFile tag src =
      ((tag ≡ Tag.added_blob_file) × (s : Status) × (decode_legacy c (make_default u) src ≡ err s))
      ⊎ ((tag ≡ Tag.added_blob_file_v2)
          × (s : Status) × (decode_meta c (make_default u) src ≡ err s))

  -- A field that is not a file faults on no input.
  decode_field-faults :
      (tag : ℕ) (e : VersionEdit) (src : Bytes)
      → decode_field c u tag e src ≡ fault
      → BadFile tag src
  unfolding decode_field decode_next decode_family decode_added_legacy decode_added decode_deleted
      decode_updated
  decode_field-faults tag e src h =
      if_faults (BadFile tag src) (tag == Tag.next_file_number) _ _
        (λ t f. absurd (read_ne_fault (c.get_varint64 src) _ (λ p k. cc) f))
        (if_faults _ (tag == Tag.column_family_id) _ _
          (λ t f. absurd (read_ne_fault (c.get_varint32 src) _ (λ p k. cc) f))
          (if_faults _ (tag == Tag.added_blob_file) _ _
            (λ t f.
              let (s, bad) =
                dangling_faults (decode_legacy c (make_default u) src) _
                  (decode_legacy-ne-fault c law (make_default u) src) (λ p k. cc) f in
              inl (ground (arith, t), s, bad))
            (if_faults _ (tag == Tag.added_blob_file_v2) _ _
              (λ t f.
                let (s, bad) =
                  dangling_faults (decode_meta c (make_default u) src) _
                    (decode_meta-ne-fault c law (make_default u) src) (λ p k. cc) f in
                inr (ground (arith, t), s, bad))
              (if_faults _ (tag == Tag.deleted_blob_file) _ _
                (λ t f. absurd (read_ne_fault (c.get_varint64 src) _ (λ p k. cc) f))
                (if_faults _ (tag == Tag.update_discardable_size) _ _
                  (λ t f. absurd (
                    read_ne_fault (c.get_varint64 src) _
                      (λ p. read_ne_fault (c.get_varint64 p.1) _ (λ q k. cc)) f))
                  (λ f. cc))))))
        h

  -- And such a file does.
  BadFile-faults :
      (tag : ℕ) (e : VersionEdit) (src : Bytes)
      → BadFile tag src
      → decode_field c u tag e src ≡ fault
  unfolding decode_field decode_added_legacy decode_added
  BadFile-faults tag e src (inl (t, s, bad)) = rw (t, bad, decode_field, decode_added_legacy)
  BadFile-faults tag e src (inr (t, s, bad)) = rw (t, bad, decode_field, decode_added)

  -- A round of the loop.
  decode_fields-round :
      (fuel tag : ℕ) (e : VersionEdit) (src body : Bytes)
      → c.get_varint32 src ≡ some (tag, body)
      → decode_fields c u (suc fuel) e src
        ≡ (decode_field c u tag e body >>= λ q. decode_fields c u fuel q.0 q.1)
  unfolding decode_fields
  decode_fields-round fuel tag e [] body read =
      absurd (omega (arith, law.varint32_takes [] tag body read))
  decode_fields-round fuel tag e (b ∷ bs) body read = rw read

  enough-Dangles :
      (fuel : ℕ) (e : VersionEdit) (src : Bytes)
      → length src ≤ fuel
      → decode_fields c u fuel e src ≡ fault
      → Dangles c u e src
  unfolding decode_fields
  enough-Dangles fuel e [] h f = cc
  enough-Dangles zero e (b ∷ bs) h f = absurd (omega arith)
  enough-Dangles (suc fuel) e (b ∷ bs) h f = elim (Option-cases (c.get_varint32 (b ∷ bs))) [
    | inl none_left ↦ absurd (cc (rw none_left at f))
    | inr ((tag, body), read) ↦
        let round = sym (decode_fields-round fuel tag e (b ∷ bs) body read) ∙ f in
        elim (Outcome-cases (decode_field c u tag e body)) [
          | inl bad ↦ elim (decode_field-faults tag e body bad) [
            | inl (t, s, broken) ↦
                Dangles.bad_legacy e (b ∷ bs) body s (read ∙ ap (λ k. some (k, body)) t) broken
            | inr (t, s, broken) ↦
                Dangles.bad_meta e (b ∷ bs) body s (read ∙ ap (λ k. some (k, body)) t) broken
          ]
          | inr (inl (s, stops)) ↦ absurd (cc (rw stops at round))
          | inr (inr ((e', rest), field)) ↦ Dangles.later e e' (b ∷ bs) body rest tag read field (
              enough-Dangles fuel e' rest
                (omega (
                  arith,
                  h,
                  law.varint32_takes (b ∷ bs) tag body read,
                  decode_field_takes c law u tag e e' body rest field,
                ))
                (rw field at round))
        ]
  ]

  Dangles-faults :
      {e : VersionEdit} {src : Bytes}
      → Dangles c u e src
      → (fuel : ℕ) → length src ≤ fuel
      → decode_fields c u fuel e src ≡ fault
  Dangles-faults (Dangles.bad_legacy e src body s read bad) zero h =
      absurd (omega (arith, h, law.varint32_takes src Tag.added_blob_file body read))
  Dangles-faults (Dangles.bad_legacy e src body s read bad) (suc fuel) h =
      decode_fields-round fuel Tag.added_blob_file e src body read
      ∙ rw (BadFile-faults Tag.added_blob_file e body (inl (refl, s, bad)))
  Dangles-faults (Dangles.bad_meta e src body s read bad) zero h =
      absurd (omega (arith, h, law.varint32_takes src Tag.added_blob_file_v2 body read))
  Dangles-faults (Dangles.bad_meta e src body s read bad) (suc fuel) h =
      decode_fields-round fuel Tag.added_blob_file_v2 e src body read
      ∙ rw (BadFile-faults Tag.added_blob_file_v2 e body (inr (refl, s, bad)))
  Dangles-faults (Dangles.later e e' src body rest tag read field d) zero h =
      absurd (omega (arith, h, law.varint32_takes src tag body read))
  Dangles-faults (Dangles.later e e' src body rest tag read field d) (suc fuel) h =
      decode_fields-round fuel tag e src body read
      ∙ rw field (
          Dangles-faults d fuel (
            omega (
              arith,
              h,
              law.varint32_takes src tag body read,
              decode_field_takes c law u tag e e' body rest field,
            )))

  -- More rounds than there are bytes change nothing.
  decode_fields-enough :
      (a b : ℕ) (e : VersionEdit) (src : Bytes)
      → length src ≤ a
      → length src ≤ b
      → decode_fields c u a e src ≡ decode_fields c u b e src
  unfolding decode_fields
  decode_fields-enough a b e [] h k = refl
  decode_fields-enough zero b e (x ∷ xs) h k = absurd (omega arith)
  decode_fields-enough (suc a) zero e (x ∷ xs) h k = absurd (omega arith)
  decode_fields-enough (suc a) (suc b) e (x ∷ xs) h k =
      elim (Option-cases (c.get_varint32 (x ∷ xs))) [
        | inl none_left ↦ rw none_left
        | inr ((tag, body), read) ↦
            let first = decode_fields-round a tag e (x ∷ xs) body read in
            let second = decode_fields-round b tag e (x ∷ xs) body read in
            elim (Outcome-cases (decode_field c u tag e body)) [
              | inl bad ↦ (rw bad at first) ∙ sym (rw bad at second)
              | inr (inl (s, stops)) ↦ (rw stops at first) ∙ sym (rw stops at second)
              | inr (inr ((e', rest), field)) ↦
                  let short : length rest ≤ length xs = omega (
                    arith,
                    law.varint32_takes (x ∷ xs) tag body read,
                    decode_field_takes c law u tag e e' body rest field,
                  ) in
                  (rw field at first)
                  ∙ (decode_fields-enough a b e' rest (omega (arith, h, short))
                        (omega (arith, k, short))
                      ∙ sym (rw field at second))
            ]
      ]

  -- VersionEdit::DecodeFrom ends on every input: rounds beyond the bytes of the input change nothing.
  -- It reads a message that is gone exactly where the input has, after fields that can be decoded,
  -- the field of a file that cannot; on any other input it gives an edit or a status.
  pub decode_edit-fault_iff :
      (n : ℕ) (e : VersionEdit) (src : Bytes)
      → (decode_fields c u (length src + n) e src ≡ decode_edit c u e src)
        × (decode_edit c u e src ≡ fault ↔ Dangles c u e src)
  unfolding decode_edit
  decode_edit-fault_iff n e src = (
    decode_fields-enough (length src + n) (length src) e src (omega arith) (omega arith),
    (
      enough-Dangles (length src) e src (omega arith),
      λ d. Dangles-faults d (length src) (omega arith),
    ),
  )
