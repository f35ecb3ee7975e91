-- ===== src/BlobFile/Iterator/Stepped.antt =====
-- One PrefetchAndGet of src/blob_file_iterator.cc, over a file that holds a written record there.
use diffkv.Prelude.{
  ℕ, ◌+◌, ◌^◌, ◌≤◌, ◌<◌, ◌≡◌, refl, ap, ◌∙◌, true, false, leb, none, Option, ◌++◌, Bytes, ok,
  length, length-append, add64, arith,
}
use mathlib.Core.Path.{subst}
use diffkv.Coding.{Coding, IsCoding, Crc, IsCrc}
use diffkv.Compression.{CompressionType, Codecs, IsCodecs}
use diffkv.Format.Bounds.{record_header_size}
use diffkv.Format.Record.{BlobRecord}
use diffkv.Format.Index.{BlobHandle}
use diffkv.Format.Codec.{encode_record}
use diffkv.BlobFile.RoundTrip.{IsWritable}
use diffkv.BlobFile.Iterator.{
  BlobFileIterator, Range, is_valid, blob_index, prefetch, take_record, get_blob_record, catch_up,
  prefetch_and_get,
}
use diffkv.BlobFile.Iterator.Fetched.{
  good_reads, get_blob_record-encode_record, length-encoded_header,
}
use diffkv.BlobFile.Iterator.Readahead.{IsBounded, prefetch-IsBounded}

-- An iterator that Init has prepared, whose next record begins at `at`.
pub record IsReady (file : Bytes) (file_number end at : ℕ) (it : BlobFileIterator) : Type 0 where
  pub same_file : it.file ≡ file
  pub same_number : it.file_number ≡ file_number
  pub same_end : it.end_of_blob_record ≡ end
  pub prepared : it.init ≡ true
  pub fine : it.status ≡ none
  pub next_at : it.iterate_offset ≡ at
  pub whole_records : it.cur_blob_record.only_value ≡ false
  pub bounded : IsBounded it

-- It has just read `r`, at `handle`.
pub record IsAt (file_number : ℕ) (handle : BlobHandle) (r : BlobRecord) (it : BlobFileIterator)
    : Type 0 where
  pub valid : is_valid it ≡ true
  pub cur_record : it.cur_blob_record ≡ r
  pub index : blob_index it ≡ record { file_number = file_number; blob_handle = handle }

catch_up-IsReady :
    (file : Bytes) (n end at : ℕ) (it : BlobFileIterator)
    → IsReady file n end at it
    → IsReady file n end at (catch_up it)
unfolding catch_up
catch_up-IsReady file n end at it ready = ground arith

catch_up-IsAt :
    (n : ℕ) (h : BlobHandle) (r : BlobRecord) (it : BlobFileIterator)
    → IsAt n h r it
    → IsAt n h r (catch_up it)
unfolding catch_up is_valid blob_index
catch_up-IsAt n h r it at = ground arith

module _ (c : Coding) (crc : Crc) (z : Codecs) where
  take_record-IsReady :
      (file : Bytes) (n end at size : ℕ) (r : BlobRecord) (it : BlobFileIterator)
      → IsReady file n end at it
      → r.only_value ≡ false
      → IsReady file n end
          (add64 at (add64 record_header_size size))
          (take_record c crc z size r it)
  unfolding take_record
  take_record-IsReady file n end at size r it ready whole = record {
    same_file = ready.same_file;
    same_number = ready.same_number;
    same_end = ready.same_end;
    prepared = ready.prepared;
    fine = refl;
    next_at = ap (λ x. add64 x (add64 record_header_size size)) ready.next_at;
    whole_records = whole;
    bounded = record { at_least = ready.bounded.at_least; at_most = ready.bounded.at_most };
  }

  take_record-IsAt :
      (n at size : ℕ) (r : BlobRecord) (it : BlobFileIterator)
      → it.file_number ≡ n
      → it.iterate_offset ≡ at
      → IsAt n
          (record { offset = at; size = add64 record_header_size size })
          r
          (take_record c crc z size r it)
  unfolding take_record is_valid blob_index
  take_record-IsAt n at size r it number offset = record {
    valid = refl;
    cur_record = refl;
    index = rw (number, offset);
  }

add64-fits : (a b n : ℕ) → a + b ≤ n → n < 2 ^ 64 → add64 a b ≡ a + b
add64-fits a b n low high = omega arith

-- The offsets that a record of `body` takes up do not wrap around.
record Offsets (header body before : Bytes) : Type 0 where
  body_at : add64 (length before) record_header_size ≡ length (before ++ header)
  size : add64 record_header_size (length body) ≡ record_header_size + length body
  next :
      add64 (length before) (record_header_size + length body) ≡ length (before ++ (header ++ body))

offsets :
    (header body before more file : Bytes)
    → length header ≡ record_header_size
    → file ≡ before ++ (header ++ (body ++ more))
    → length file < 2 ^ 64
    → Offsets header body before
offsets header body before more file nine laid small =
    let l0 = ap length laid in
    let l1 = length-append before (header ++ (body ++ more)) in
    let l2 = length-append header (body ++ more) in
    let l3 = length-append body more in
    record {
      body_at =
          add64-fits _ _ (length file) (omega (arith, l0, l1, l2, l3, nine)) small
          ∙ omega (arith, nine, length-append before header);
      size = add64-fits _ _ (length file) (omega (arith, l0, l1, l2, l3, nine)) small;
      next =
          add64-fits _ _ (length file) (omega (arith, l0, l1, l2, l3, nine)) small
          ∙ omega (arith, nine, length-append before (header ++ body), length-append header body);
    }

module _ (c : Coding) (law : IsCoding c) (crc : Crc) (icrc : IsCrc crc) (z : Codecs)
    (zlaw : IsCodecs z) (t : CompressionType) where
  prefetch_and_get-runs :
      (q : Option Range) (it p g : BlobFileIterator)
      → leb it.end_of_blob_record it.iterate_offset ≡ false
      → prefetch it ≡ ok (q, p)
      → get_blob_record c crc z good_reads p ≡ ok g
      → prefetch_and_get c crc z good_reads it ≡ ok (catch_up g)
  unfolding prefetch_and_get
  prefetch_and_get-runs q it p g more first second =
      rw (more, first, second, prefetch_and_get, prefetch, get_blob_record, catch_up)

  -- Where the next record is one that BlobEncoder wrote, PrefetchAndGet stands at it and is ready for
  -- what follows it.
  pub prefetch_and_get-encode_record :
      (r : BlobRecord) (header body before more file : Bytes) (n end : ℕ) (it : BlobFileIterator)
      → r.only_value ≡ false
      → IsWritable r
      → encode_record c crc z t r ≡ ok (header, body)
      → file ≡ before ++ (header ++ (body ++ more))
      → length file < 2 ^ 64
      → length before < end
      → IsReady file n end (length before) it
      → (it' : BlobFileIterator) × (prefetch_and_get c crc z good_reads it ≡ ok it')
        × IsAt n (record { offset = length before; size = record_header_size + length body }) r it'
        × IsReady file n end (length (before ++ (header ++ body))) it'
  prefetch_and_get-encode_record r header body before more file n end it only w e laid small inside
        ready =
      let (q, p, done, _, bounded, same) = prefetch-IsBounded it ready.bounded in
      let o =
        offsets header body before more file
          (length-encoded_header c law crc icrc z zlaw t r header body e) laid small in
      let at = same.iterate_offset ∙ ready.next_at in
      let ready' : IsReady file n end (length before) p = record {
        same_file = same.file ∙ ready.same_file;
        same_number = same.file_number ∙ ready.same_number;
        same_end = same.end ∙ ready.same_end;
        prepared = same.init ∙ ready.prepared;
        fine = same.status ∙ ready.fine;
        next_at = at;
        whole_records = ap (λ x. x.only_value) same.cur_blob_record ∙ ready.whole_records;
        bounded = bounded;
      } in
      let g = take_record c crc z (length body) r p in
      let got =
        get_blob_record-encode_record c law crc icrc z zlaw t r header body before more p
          ready'.whole_records only w e (ready'.same_file ∙ laid) at o.body_at in
      (
        catch_up g,
        prefetch_and_get-runs q it p g (ground (arith, ready.same_end, ready.next_at)) done got,
        catch_up-IsAt n _ r g (
            subst (λ s. IsAt n (record { offset = length before; size = s }) r g) o.size
              (take_record-IsAt c crc z n (length before) (length body) r p ready'.same_number at)),
        catch_up-IsReady file n end _ g (
            subst (λ s. IsReady file n end s g) (ap (λ s. add64 (length before) s) o.size ∙ o.next)
              (take_record-IsReady c crc z file n end (length before) (length body) r p ready'
                only)),
      )

  -- At the end of the records PrefetchAndGet is invalid without an error.
  pub prefetch_and_get-end :
      (file : Bytes) (n end : ℕ) (it : BlobFileIterator)
      → IsReady file n end end it
      → (it' : BlobFileIterator) × (prefetch_and_get c crc z good_reads it ≡ ok it')
        × (is_valid it' ≡ false)
        × (it'.status ≡ none)
  unfolding prefetch_and_get is_valid
  prefetch_and_get-end file n end it ready =
      let past : leb it.end_of_blob_record it.iterate_offset ≡ true =
        ground (arith, ready.same_end, ready.next_at) in
      (record it { valid = false }, rw past, refl, ready.fine)
