-- ===== src/Edit/Decode.antt =====
-- VersionEdit::DecodeFrom on any input: its loop moves on, and reads no more than there is.
use diffkv.Prelude.{
  ℕ, ◌≤◌, ◌≡◌, ◌≢◌, refl, Bool, Option, some, none, Bytes, Outcome, ok, err, fault, ◌>>=◌, or_err,
  Status, length, arith, true, false, ◌==◌, if◌then◌else◌,
}
use diffkv.Coding.{Coding, IsCoding}
use diffkv.Format.FileMeta.{BlobFileMeta, Uninit, decode_meta, decode_legacy}
use diffkv.Edit.Tag
use diffkv.Edit.{
  VersionEdit, dangling, decode_next, decode_family, decode_added_legacy, decode_added,
  decode_deleted, decode_updated, decode_field,
}

-- A successful outcome leaves at most `n` bytes.
abbrev pub Leaves {ℓ} : {A : Type ℓ} → ℕ → Outcome (A × Bytes) → Type ℓ
Leaves {A} n m = (a : A) (rest : Bytes) → m ≡ ok (a, rest) → length rest ≤ n

read-Leaves {ℓ κ} :
    {A : Type ℓ} {B : Type κ} (n : ℕ) (g : Option (A × Bytes)) (f : A × Bytes → Outcome (B × Bytes))
    → ((a : A) (rest : Bytes) → g ≡ some (a, rest) → length rest ≤ n)
    → ((a : A) (rest : Bytes) → length rest ≤ n → Leaves n (f (a, rest)))
    → Leaves n (or_err Status.corruption g >>= f)
read-Leaves n none f h k b rest e = cc
read-Leaves n (some (a, r)) f h k b rest e = k a r (h a r refl) b rest e

bind-Leaves {ℓ κ} :
    {A : Type ℓ} {B : Type κ} (n : ℕ) (m : Outcome (A × Bytes))
    (f : A × Bytes → Outcome (B × Bytes))
    → Leaves n m
    → ((a : A) (rest : Bytes) → length rest ≤ n → Leaves n (f (a, rest)))
    → Leaves n (m >>= f)
bind-Leaves n (ok (a, r)) f h k b rest e = k a r (h a r refl) b rest e
bind-Leaves n (err s) f h k b rest e = cc
bind-Leaves n fault f h k b rest e = cc

dangling-Leaves {ℓ} :
    {A : Type ℓ} (n : ℕ) (m : Outcome (A × Bytes)) → Leaves n m → Leaves n (dangling m)
dangling-Leaves n (ok p) h a rest e = h a rest e
dangling-Leaves n (err s) h a rest e = cc
dangling-Leaves n fault h a rest e = cc

done-Leaves {ℓ} : {A : Type ℓ} (n : ℕ) (a : A) (r : Bytes) → length r ≤ n → Leaves n (ok (a, r))
done-Leaves n a r h b rest e = ground arith

if_Leaves {ℓ} :
    {A : Type ℓ} (n : ℕ) (b : Bool) (x y : Outcome (A × Bytes))
    → Leaves n x
    → Leaves n y
    → Leaves n (if b then x else y)
if_Leaves n true x y h k = h
if_Leaves n false x y h k = k

pub or_err-ok {ℓ} :
    {A : Type ℓ} (s : Status) (o : Option A) {a : A} → or_err s o ≡ ok a → o ≡ some a
or_err-ok s none h = cc
or_err-ok s (some b) h = cc

pub read_ne_fault {ℓ κ} :
    {A : Type ℓ} {B : Type κ} (o : Option A) (f : A → Outcome B)
    → ((a : A) → f a ≢ fault)
    → (or_err Status.corruption o >>= f) ≢ fault
read_ne_fault none f k = λ e. cc
read_ne_fault (some a) f k = k a

module _ (c : Coding) (law : IsCoding c) where
  varint64_leaves :
      (n : ℕ) (src : Bytes)
      → length src ≤ n
      → (v : ℕ) (rest : Bytes) → c.get_varint64 src ≡ some (v, rest)
      → length rest ≤ n
  varint64_leaves n src h v rest e = omega (arith, law.varint64_takes src v rest e)

  varint32_leaves :
      (n : ℕ) (src : Bytes)
      → length src ≤ n
      → (v : ℕ) (rest : Bytes) → c.get_varint32 src ≡ some (v, rest)
      → length rest ≤ n
  varint32_leaves n src h v rest e = omega (arith, law.varint32_takes src v rest e)

  prefixed_leaves :
      (n : ℕ) (src : Bytes)
      → length src ≤ n
      → (s rest : Bytes) → c.get_length_prefixed src ≡ some (s, rest)
      → length rest ≤ n
  prefixed_leaves n src h s rest e = omega (arith, law.prefixed_takes src s rest e)

  decode_meta-Leaves :
      (n : ℕ) (m : BlobFileMeta) (src : Bytes) → length src ≤ n → Leaves n (decode_meta c m src)
  unfolding decode_meta
  decode_meta-Leaves n m src h = read-Leaves n _ _ (varint64_leaves n src h) λ _ s1 h1.
      read-Leaves n _ _ (varint64_leaves n s1 h1) λ _ s2 h2.
        read-Leaves n _ _ (varint64_leaves n s2 h2) λ _ s3 h3.
          read-Leaves n _ _ (varint32_leaves n s3 h3) λ _ s4 h4.
            read-Leaves n _ _ (varint32_leaves n s4 h4) λ _ s5 h5.
              read-Leaves n _ _ (prefixed_leaves n s5 h5) λ _ s6 h6.
                read-Leaves n _ _ (prefixed_leaves n s6 h6) λ _ rest h7. done-Leaves n _ rest h7

  decode_legacy-Leaves :
      (n : ℕ) (m : BlobFileMeta) (src : Bytes) → length src ≤ n → Leaves n (decode_legacy c m src)
  unfolding decode_legacy
  decode_legacy-Leaves n m src h =
      read-Leaves n _ _ (varint64_leaves n src h)
        λ _ s1 h1. read-Leaves n _ _ (varint64_leaves n s1 h1) λ _ rest h2. done-Leaves n _ rest h2

  decode_field-Leaves :
      (u : Uninit) (n tag : ℕ) (e : VersionEdit) (src : Bytes)
      → length src ≤ n
      → Leaves n (decode_field c u tag e src)
  unfolding decode_field decode_next decode_family decode_added_legacy decode_added decode_deleted
      decode_updated
  decode_field-Leaves u n tag e src h =
      if_Leaves n (tag == Tag.next_file_number) _ _
        (read-Leaves n _ _ (varint64_leaves n src h) λ _ r h1. done-Leaves n _ r h1)
        (if_Leaves n (tag == Tag.column_family_id) _ _
          (read-Leaves n _ _ (varint32_leaves n src h) λ _ r h1. done-Leaves n _ r h1)
          (if_Leaves n (tag == Tag.added_blob_file) _ _
            (bind-Leaves n _ _ (dangling-Leaves n _ (decode_legacy-Leaves n _ src h))
              λ _ r h1. done-Leaves n _ r h1)
            (if_Leaves n (tag == Tag.added_blob_file_v2) _ _
              (bind-Leaves n _ _ (dangling-Leaves n _ (decode_meta-Leaves n _ src h))
                λ _ r h1. done-Leaves n _ r h1)
              (if_Leaves n (tag == Tag.deleted_blob_file) _ _
                (read-Leaves n _ _ (varint64_leaves n src h) λ _ r h1. done-Leaves n _ r h1)
                (if_Leaves n (tag == Tag.update_discardable_size) _ _
                  (read-Leaves n _ _ (varint64_leaves n src h) λ _ s1 h1.
                    read-Leaves n _ _ (varint64_leaves n s1 h1) λ _ r h2. done-Leaves n _ r h2)
                  (λ a r e. cc))))))

  pub decode_field_takes :
      (u : Uninit) (tag : ℕ) (e e' : VersionEdit) (src rest : Bytes)
      → decode_field c u tag e src ≡ ok (e', rest)
      → length rest ≤ length src
  decode_field_takes u tag e e' src rest h =
      decode_field-Leaves u (length src) tag e src (omega arith) e' rest h

  pub decode_meta-ne-fault : (m : BlobFileMeta) (src : Bytes) → decode_meta c m src ≢ fault
  unfolding decode_meta
  decode_meta-ne-fault m src = read_ne_fault (c.get_varint64 src) _ λ p1.
      read_ne_fault (c.get_varint64 p1.1) _ λ p2. read_ne_fault (c.get_varint64 p2.1) _ λ p3.
        read_ne_fault (c.get_varint32 p3.1) _ λ p4. read_ne_fault (c.get_varint32 p4.1) _ λ p5.
          read_ne_fault (c.get_length_prefixed p5.1) _
            λ p6. read_ne_fault (c.get_length_prefixed p6.1) _ λ p7 h. cc

  pub decode_legacy-ne-fault : (m : BlobFileMeta) (src : Bytes) → decode_legacy c m src ≢ fault
  unfolding decode_legacy
  decode_legacy-ne-fault m src =
      read_ne_fault (c.get_varint64 src) _ λ p. read_ne_fault (c.get_varint64 p.1) _ λ q h. cc
