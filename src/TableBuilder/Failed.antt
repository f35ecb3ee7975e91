-- ===== src/TableBuilder/Failed.antt =====
-- TitanTableBuilder of src/table_builder.cc after a blob file that could not be finished.
use diffkv.Prelude.{
  ℕ, ◌≡◌, refl, false, Option, none, some, ok, fault, ok-injective, Status, Option-cases, inl, inr,
  arith,
}
use mathlib.Core.Path.{subst}
use diffkv.Coding.{Coding, Crc, BlockHandles}
use diffkv.BlobFile.Builder.{BlobFileBuilder, finish_file}
use diffkv.TableBuilder.{
  TableBuilder, AddIo, builder_status, status, is_ok, drop_blob_file, finish_blob_file, abandon,
}

-- A blob builder with an error is left as it is by its Finish.
finish_file-bad :
    (c : Coding) (crc : Crc) (bh : BlockHandles) (io flush : Option Status) (x : Status)
    (f : BlobFileBuilder)
    → f.status ≡ some x
    → finish_file c crc bh io flush f ≡ f
unfolding finish_file
finish_file-bad c crc bh io flush x f bad = ground arith

bad_builder :
    (b : TableBuilder) (x : Status) → builder_status b.blob_builder ≡ some x → is_ok b ≡ false
unfolding status
bad_builder b x bad = elim (Option-cases b.status) [
  | inr (s, e) ↦ rw e
  | inl e ↦ elim (Option-cases b.base_status) [ inr (s, g) ↦ rw (e, g) | inl g ↦ rw (e, g, bad) ]
]

module _ (c : Coding) (crc : Crc) (bh : BlockHandles) where
  -- If a blob file cannot be finished, its handle is given away with the deletion while the blob
  -- builder stays. Both ways to end the table then ask the null handle for its number: Abandon, and
  -- Finish, which finishes the blob file again, whatever is answered meanwhile.
  pub finish_blob_file-failed :
      (io again : AddIo) (level n : ℕ) (x : Status) (f : BlobFileBuilder) (b b' : TableBuilder)
      (deleted : Option Status)
      → b.blob_builder ≡ some f
      → b.blob_handle ≡ some n
      → (finish_file c crc bh io.footer_io io.flush_io f).status ≡ some x
      → finish_blob_file c crc bh io level b ≡ ok b'
      → (abandon deleted b' ≡ fault) × (finish_blob_file c crc bh again level b' ≡ fault)
  unfolding finish_blob_file drop_blob_file abandon
  finish_blob_file-failed io again level n x f b b' deleted there open_file bad e =
      let f' = finish_file c crc bh io.footer_io io.flush_io f in
      let b1 : TableBuilder = record b { blob_builder = some f' } in
      let no_good = bad_builder b1 x bad in
      let e1 : drop_blob_file c crc bh io b1 ≡ ok b' =
        rw (no_good, finish_blob_file) at (rw (there, finish_blob_file) at e) in
      let same = ok-injective (rw (open_file, drop_blob_file) at e1) in
      let b2 : TableBuilder = record b1 { status = io.delete_file; blob_handle = none } in
      let once_more = finish_file-bad c crc bh again.footer_io again.flush_io x f' bad in
      subst (λ y. (abandon deleted y ≡ fault) × (finish_blob_file c crc bh again level y ≡ fault))
        same (refl, rw (once_more, finish_blob_file, bad_builder b2 x bad))
