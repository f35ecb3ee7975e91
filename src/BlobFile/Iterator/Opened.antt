-- ===== src/BlobFile/Iterator/Opened.antt =====
-- BlobFileIterator::Init of src/blob_file_iterator.cc, over a file with a header and a footer.
use diffkv.Prelude.{
  ℕ, ◌+◌, ◌-◌, ◌^◌, ◌≤◌, ◌<◌, ◌≡◌, refl, sym, ap, ◌∙◌, true, none, ltb, [], ◌++◌, Bytes, ok, length,
  take, drop, replicate, length-append, length-replicate, take-append, drop-append, sub64, arith,
}
use mathlib.Core.Path.{subst}
use mathlib.Core.List.{append_assoc, append-nil}
use diffkv.Coding.{Coding, IsCoding, Crc, IsCrc, BlockHandles, IsBlockHandles, null_block_handle}
use diffkv.Format.Bounds.{blob_header_size}
use diffkv.Format.FileEnds.{
  resize, footer_size, footer_body, encode_header, decode_header, encode_footer, decode_footer,
  version1,
}
use diffkv.Format.FileEnds.RoundTrip.{
  decode_header-encode_header, decode_footer-encode_footer, resize_fits,
}
use diffkv.BlobFile.Reader.{read_at}
use diffkv.BlobFile.Iterator.{BlobFileIterator, InitIo, find_end, read_footer, init_iterator}

-- Every read of Init succeeds.
abbrev pub good_opens : InitIo
good_opens = record { header = none; footer = none; undecoded = null_block_handle }

-- The iterator after Init.
abbrev pub opened : ℕ → BlobFileIterator → BlobFileIterator
opened end it = record it { status = none; end_of_blob_record = end; init = true }

module _ (c : Coding) (law : IsCoding c) (crc : Crc) (icrc : IsCrc crc) (bh : BlockHandles)
    (blaw : IsBlockHandles bh) where
  length-resize : (n : ℕ) (s : Bytes) → length s ≤ n → length (resize n s) ≡ n
  length-resize n s h =
      ap length (resize_fits n s h)
      ∙ omega (
        arith,
        h,
        length-append s (replicate (n - length s) 0),
        ap (λ (n : ℕ). n) (length-replicate {A = ℕ} (n - length s) 0),
      )

  -- What Finish appends takes kBlobFooterSize bytes.
  length-encode_footer : length (encode_footer c crc bh null_block_handle) ≡ footer_size c crc bh
  unfolding encode_footer footer_size footer_body
  length-encode_footer =
      let body = footer_body c crc bh null_block_handle in
      omega (
        arith,
        length-append body (c.put_fixed32 (crc.value body)),
        law.length-fixed32 (crc.value body),
        length-append (resize bh.max_encoded_length (bh.encode null_block_handle))
            (c.put_fixed64 0x2be0a6148e39edc6),
        length-resize bh.max_encoded_length (bh.encode null_block_handle)
            (blaw.handle_fits null_block_handle (omega arith) (omega arith)),
        law.length-fixed64 0x2be0a6148e39edc6,
      )

  footer_read :
      decode_footer c crc bh (encode_footer c crc bh null_block_handle) ≡ ok (null_block_handle, [])
  footer_read =
      ap (λ x. decode_footer c crc bh x)
        (sym (append-nil (encode_footer c crc bh null_block_handle)))
      ∙ decode_footer-encode_footer c law crc bh blaw icrc null_block_handle [] (omega arith)
          (omega arith)

  pub length-encode_header : length (encode_header c version1) ≡ blob_header_size
  unfolding encode_header
  length-encode_header = omega (
    arith,
    length-append (c.put_fixed32 0x2be0a614) (c.put_fixed32 1),
    law.length-fixed32 0x2be0a614,
    law.length-fixed32 1,
  )

  header_read : decode_header c (encode_header c version1) ≡ ok (version1, [])
  header_read =
      ap (λ x. decode_header c x) (sym (append-nil (encode_header c version1)))
      ∙ (decode_header-encode_header c law version1 [] (omega arith)).0 refl

  sub64-exact : (a b n : ℕ) → n ≡ a + b → n < 2 ^ 64 → sub64 n b ≡ a
  sub64-exact a b n e small = omega arith

  sub64-zero : (n : ℕ) → n < 2 ^ 64 → sub64 n 0 ≡ n
  sub64-zero n small = omega arith

  find_end-null :
      (records : Bytes) (it : BlobFileIterator)
      → sub64 it.file_size (footer_size c crc bh) ≡ length records
      → length records < 2 ^ 64
      → blob_header_size < length records
      → find_end c crc bh none null_block_handle it ≡ ok (true, opened (length records) it)
  unfolding find_end
  find_end-null records it rest small some_record =
      let shown : ltb blob_header_size (length records) ≡ true = ground arith in
      rw (rest, sub64-zero (length records) small, shown)

  read_footer-encode_footer :
      (records : Bytes) (it : BlobFileIterator)
      → it.file ≡ records ++ encode_footer c crc bh null_block_handle
      → sub64 it.file_size (footer_size c crc bh) ≡ length records
      → length records < 2 ^ 64
      → blob_header_size < length records
      → read_footer c crc bh good_opens it ≡ ok (true, opened (length records) it)
  unfolding read_footer read_at
  read_footer-encode_footer records it file rest small some_record =
      let footer = encode_footer c crc bh null_block_handle in
      let whole : take (length footer) footer ≡ footer =
        ap (λ x. take (length footer) x) (sym (append-nil footer)) ∙ take-append footer [] in
      let slice : take (footer_size c crc bh)
            (drop (sub64 it.file_size (footer_size c crc bh)) it.file)
          ≡ footer =
        rw (rest, file, drop-append records footer, ← length-encode_footer) whole in
      rw (slice, footer_read, read_footer) (find_end-null records it rest small some_record)

  -- Init of a file that begins with a header, ends with the footer that Finish writes and holds
  -- something between them: the records end where the footer begins.
  pub init_iterator-encode_footer :
      (records more : Bytes) (it : BlobFileIterator)
      → records ≡ encode_header c version1 ++ more
      → it.file ≡ records ++ encode_footer c crc bh null_block_handle
      → it.file_size ≡ length it.file
      → length it.file < 2 ^ 64
      → blob_header_size < length records
      → init_iterator c crc bh good_opens it ≡ ok (true, opened (length records) it)
  unfolding init_iterator read_at
  init_iterator-encode_footer records more it begins file size small some_record =
      let header = encode_header c version1 in
      let footer = encode_footer c crc bh null_block_handle in
      let long : length it.file ≡ length records + footer_size c crc bh =
        ap length file
        ∙ (length-append records footer ∙ ap (λ x. length records + x) length-encode_footer) in
      let head : take blob_header_size it.file ≡ header =
        ap (λ x. take blob_header_size x)
          (file ∙ (ap (λ x. x ++ footer) begins ∙ append_assoc header more footer))
        ∙ subst (λ k. take k (header ++ (more ++ footer)) ≡ header) length-encode_header
            (take-append header (more ++ footer)) in
      rw (head, header_read, init_iterator)
        (read_footer-encode_footer records it file
          (sub64-exact (length records) (footer_size c crc bh) it.file_size (size ∙ long)
            (rw size small))
          (omega (arith, long, small)) some_record)
