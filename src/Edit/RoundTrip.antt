-- ===== src/Edit/RoundTrip.antt =====
-- VersionEdit::DecodeFrom reads back what VersionEdit::EncodeTo wrote, less what is not persistent.
use diffkv.Prelude.{
  ℕ, zero, suc, ◌≤◌, ◌≡◌, refl, ap, ◌∙◌, false, some, List, [], ◌∷◌, ◌++◌, map, Bytes, ok, length,
  All, arith, IsU32, IsU64, Bool-cases, inl, inr, if◌then◌else◌,
}
use diffkv.Prelude.Assoc.{emplace_all, emplace_all_lem, Distinct}
use diffkv.Coding.{Coding, IsCoding}
use diffkv.Format.FileMeta.{BlobFileMeta, Uninit, make_default, encode_meta}
use diffkv.Format.FileMeta.RoundTrip.{IsMeta, persist, decode_meta-encode_meta}
use diffkv.Edit.Tag
use diffkv.Edit.Decode.{decode_field_takes}
use diffkv.Edit.{
  VersionEdit, new_edit, encode_added, encode_deleted, encode_updated, encode_next, encode_edit,
  decode_field, decode_next, decode_family, decode_added, decode_deleted, decode_updated,
  decode_fields, decode_edit, set_next_file_number, set_column_family_id, add_blob_file,
  delete_blob_file, update_blob_file,
}
use mathlib.Core.Path.{subst}
use mathlib.Core.List.{append_assoc, append-nil}

module _ (c : Coding) (law : IsCoding c) (u : Uninit) where
  -- With enough rounds the loop gets from `src` to `rest`, and still has enough rounds for it.
  abbrev Reads : Bytes → VersionEdit → Bytes → VersionEdit → Type 0
  Reads src e rest e' =
      (fuel : ℕ)
      → length src ≤ fuel
      → (left : ℕ) × (length rest ≤ left)
        × (decode_fields c u fuel e src ≡ decode_fields c u left e' rest)

  Reads-refl : (src : Bytes) (e : VersionEdit) → Reads src e src e
  Reads-refl src e fuel h = (fuel, h, refl)

  Reads-trans :
      (src mid rest : Bytes) (e e' e'' : VersionEdit)
      → Reads src e mid e'
      → Reads mid e' rest e''
      → Reads src e rest e''
  Reads-trans src mid rest e e' e'' p q fuel h =
      let (left, hl, el) = p fuel h in let (last, hr, er) = q left hl in (last, hr, el ∙ er)

  -- One field: its tag, then what its case reads.
  Reads-field :
      (src s1 rest : Bytes) (tag : ℕ) (e e' : VersionEdit)
      → c.get_varint32 src ≡ some (tag, s1)
      → decode_field c u tag e s1 ≡ ok (e', rest)
      → Reads src e rest e'
  unfolding decode_fields
  Reads-field [] s1 rest tag e e' t f fuel h =
      absurd (omega (arith, law.varint32_takes [] tag s1 t))
  Reads-field (b ∷ bs) s1 rest tag e e' t f zero h = absurd (omega arith)
  Reads-field (b ∷ bs) s1 rest tag e e' t f (suc fuel) h = (
    fuel,
    omega (
      arith,
      law.varint32_takes (b ∷ bs) tag s1 t,
      decode_field_takes c law u tag e e' s1 rest f,
    ),
    rw t (rw f),
  )

  Reads-tag :
      (tag : ℕ) (payload rest : Bytes) (e e' : VersionEdit)
      → IsU32 tag
      → decode_field c u tag e (payload ++ rest) ≡ ok (e', rest)
      → Reads ((c.put_varint32 tag ++ payload) ++ rest) e rest e'
  Reads-tag tag payload rest e e' h f =
      Reads-field _ (payload ++ rest) rest tag e e'
        (rw append_assoc (law.varint32_read tag (payload ++ rest) h)) f

  -- The fields that an edit adds to another.
  abbrev with_added : VersionEdit → List BlobFileMeta → VersionEdit
  with_added e ms = record e { added_files = e.added_files ++ map (persist (make_default u)) ms }

  abbrev unsequenced : List (ℕ × ℕ) → List (ℕ × ℕ)
  unsequenced = map (λ d. (d.0, 0))

  abbrev with_deleted : VersionEdit → List (ℕ × ℕ) → VersionEdit
  with_deleted e ds = record e { deleted_files = e.deleted_files ++ unsequenced ds }

  -- The same in two parts, the first field first.
  Reads-then :
      (tag : ℕ) (payload more rest : Bytes) (e e' e'' : VersionEdit)
      → IsU32 tag
      → decode_field c u tag e (payload ++ (more ++ rest)) ≡ ok (e', more ++ rest)
      → Reads (more ++ rest) e' rest e''
      → Reads (((c.put_varint32 tag ++ payload) ++ more) ++ rest) e rest e''
  Reads-then tag payload more rest e e' e'' h f p =
      rw append_assoc (
        Reads-trans _ (more ++ rest) rest e e' e'' (Reads-tag tag payload (more ++ rest) e e' h f)
          p)

  field_added :
      (m : BlobFileMeta) (rest : Bytes) (e : VersionEdit)
      → IsMeta m
      → decode_field c u Tag.added_blob_file_v2 e (encode_meta c m ++ rest)
        ≡ ok (with_added e (m ∷ []), rest)
  unfolding decode_field decode_added add_blob_file
  field_added m rest e v = rw (decode_meta-encode_meta c law (make_default u) m rest v)

  field_deleted :
      (number sequence : ℕ) (rest : Bytes) (e : VersionEdit)
      → IsU64 number
      → decode_field c u Tag.deleted_blob_file e (c.put_varint64 number ++ rest)
        ≡ ok (with_deleted e ((number, sequence) ∷ []), rest)
  unfolding decode_field decode_deleted delete_blob_file
  field_deleted number sequence rest e v = rw (law.varint64_read number rest v)

  Reads-added :
      (ms : List BlobFileMeta) (rest : Bytes) (e : VersionEdit)
      → All IsMeta ms
      → Reads (encode_added c ms ++ rest) e rest (with_added e ms)
  unfolding encode_added
  Reads-added [] rest e v = rw append-nil (Reads-refl rest e)
  Reads-added (m ∷ ms) rest e (v, vs) =
      subst (λ x. Reads (encode_added c (m ∷ ms) ++ rest) e rest x)
        (ap (λ l. record e { added_files = l }) (append_assoc e.added_files _ _))
        (Reads-then Tag.added_blob_file_v2 (encode_meta c m) (encode_added c ms) rest e _ _
          (omega arith) (field_added m (encode_added c ms ++ rest) e v)
          (Reads-added ms rest (with_added e (m ∷ [])) vs))

  Reads-deleted :
      (ds : List (ℕ × ℕ)) (rest : Bytes) (e : VersionEdit)
      → All (λ d. IsU64 d.0) ds
      → Reads (encode_deleted c ds ++ rest) e rest (with_deleted e ds)
  unfolding encode_deleted
  Reads-deleted [] rest e v = rw append-nil (Reads-refl rest e)
  Reads-deleted ((n, s) ∷ ds) rest e (v, vs) =
      subst (λ x. Reads (encode_deleted c ((n, s) ∷ ds) ++ rest) e rest x)
        (ap (λ l. record e { deleted_files = l }) (append_assoc e.deleted_files _ _))
        (Reads-then Tag.deleted_blob_file (c.put_varint64 n) (encode_deleted c ds) rest e _ _
          (omega arith) (field_deleted n s (encode_deleted c ds ++ rest) e v)
          (Reads-deleted ds rest (with_deleted e ((n, s) ∷ [])) vs))

  abbrev with_updated : VersionEdit → List (ℕ × ℕ) → VersionEdit
  with_updated e us = record e {
    updated_discardable_size = emplace_all us e.updated_discardable_size;
  }

  field_updated :
      (number size : ℕ) (rest : Bytes) (e : VersionEdit)
      → IsU64 number
      → IsU64 size
      → decode_field c u Tag.update_discardable_size e
          ((c.put_varint64 number ++ c.put_varint64 size) ++ rest)
        ≡ ok (with_updated e ((number, size) ∷ []), rest)
  unfolding decode_field decode_updated update_blob_file emplace_all
  field_updated number size rest e v w =
      rw (append_assoc, law.varint64_read number (c.put_varint64 size ++ rest) v)
        (rw (law.varint64_read size rest w))

  Reads-updated :
      (us : List (ℕ × ℕ)) (rest : Bytes) (e : VersionEdit)
      → All (λ d. IsU64 d.0 × IsU64 d.1) us
      → Reads (encode_updated c us ++ rest) e rest (with_updated e us)
  unfolding encode_updated emplace_all
  Reads-updated [] rest e v = Reads-refl rest e
  Reads-updated ((n, s) ∷ us) rest e (v, vs) =
      Reads-then Tag.update_discardable_size (c.put_varint64 n ++ c.put_varint64 s)
        (encode_updated c us) rest e _ _ (omega arith)
        (field_updated n s (encode_updated c us ++ rest) e v.0 v.1)
        (Reads-updated us rest (with_updated e ((n, s) ∷ [])) vs)

  abbrev with_next : VersionEdit → VersionEdit → VersionEdit
  with_next e f = if f.has_next_file_number then set_next_file_number f.next_file_number e else e

  Reads-next :
      (f : VersionEdit) (rest : Bytes) (e : VersionEdit)
      → IsU64 f.next_file_number
      → Reads (encode_next c f ++ rest) e rest (with_next e f)
  unfolding encode_next decode_field decode_next
  Reads-next f rest e h = elim (Bool-cases f.has_next_file_number) [
    | inl t ↦ rw t (
        Reads-tag Tag.next_file_number (c.put_varint64 f.next_file_number) rest e
          (set_next_file_number f.next_file_number e) (omega arith)
          (rw (law.varint64_read f.next_file_number rest h)))
    | inr t ↦ rw t (Reads-refl rest e)
  ]

  Reads-family :
      (v : ℕ) (rest : Bytes) (e : VersionEdit)
      → IsU32 v
      → Reads
          ((c.put_varint32 Tag.column_family_id ++ c.put_varint32 v) ++ rest)
          e
          rest
          (set_column_family_id v e)
  unfolding decode_field decode_family
  Reads-family v rest e h =
      Reads-tag Tag.column_family_id (c.put_varint32 v) rest e (set_column_family_id v e)
        (omega arith) (rw (law.varint32_read v rest h))

  -- What comes back: the persistent fields, with the deletions' sequences 0.
  unfoldable pub persistent : VersionEdit → VersionEdit
  persistent e = record e {
    added_files = map (persist (make_default u)) e.added_files;
    deleted_files = unsequenced e.deleted_files;
  }

-- The fields fit their types; a number that is not set is 0, and no file is updated twice.
pub record IsEdit (e : VersionEdit) : Type 0 where
  pub next_range : IsU64 e.next_file_number
  pub next_unset : e.has_next_file_number ≡ false → e.next_file_number ≡ 0
  pub family_range : IsU32 e.column_family_id
  pub added_range : All IsMeta e.added_files
  pub deleted_range : All (λ d. IsU64 d.0) e.deleted_files
  pub updated_range : All (λ d. IsU64 d.0 × IsU64 d.1) e.updated_discardable_size
  pub updated_distinct : Distinct e.updated_discardable_size

module _ (c : Coding) (law : IsCoding c) (u : Uninit) where
  -- The edits after each of the parts of the encoding.
  abbrev after_family : VersionEdit → VersionEdit
  after_family e = set_column_family_id e.column_family_id (with_next c law u new_edit e)

  abbrev after_deleted : VersionEdit → VersionEdit
  after_deleted e =
      with_deleted c law u (with_added c law u (after_family e) e.added_files) e.deleted_files

  after_all :
      (e : VersionEdit)
      → IsEdit e
      → with_updated c law u (after_deleted e) e.updated_discardable_size ≡ persistent c law u e
  unfolding persistent set_next_file_number set_column_family_id
  after_all e v =
      ground (arith, emplace_all_lem e.updated_discardable_size v.updated_distinct, v.next_unset)

  Reads-edit :
      (e : VersionEdit)
      → IsEdit e
      → Reads c law u (encode_edit c e) new_edit [] (persistent c law u e)
  unfolding encode_edit
  Reads-edit e v =
      let updated = encode_updated c e.updated_discardable_size in
      let deleted = encode_deleted c e.deleted_files ++ updated in
      let added = encode_added c e.added_files ++ deleted in
      let family =
        (c.put_varint32 Tag.column_family_id ++ c.put_varint32 e.column_family_id) ++ added in
      let e1 = with_next c law u new_edit e in
      let e2 = after_family e in
      let e3 = with_added c law u e2 e.added_files in
      let e4 = after_deleted e in
      let last =
        subst (λ s. Reads c law u s e4 [] (persistent c law u e)) (append-nil updated)
          (subst (λ x. Reads c law u (updated ++ []) e4 [] x) (after_all e v)
            (Reads-updated c law u e.updated_discardable_size [] e4 v.updated_range)) in
      Reads-trans c law u _ family [] new_edit e1 _
        (Reads-next c law u e family new_edit v.next_range)
        (Reads-trans c law u family added [] e1 e2 _
          (Reads-family c law u e.column_family_id added e1 v.family_range)
          (Reads-trans c law u added deleted [] e2 e3 _
            (Reads-added c law u e.added_files deleted e2 v.added_range)
            (Reads-trans c law u deleted updated [] e3 e4 _
              (Reads-deleted c law u e.deleted_files updated e3 v.deleted_range) last)))

  -- A new edit that decodes what an edit encoded has its persistent fields: all but the obsolete
  -- sequences of deleted files, which come back as 0, and the state of added files.
  pub decode_edit-encode_edit :
      (e : VersionEdit)
      → IsEdit e
      → decode_edit c u new_edit (encode_edit c e) ≡ ok (persistent c law u e, [])
  unfolding decode_edit decode_fields
  decode_edit-encode_edit e v =
      let (left, _, same) = Reads-edit e v (length (encode_edit c e)) (omega arith) in same
