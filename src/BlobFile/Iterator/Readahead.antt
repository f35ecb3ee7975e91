-- ===== src/BlobFile/Iterator/Readahead.antt =====
-- The readahead of BlobFileIterator::PrefetchAndGet in src/blob_file_iterator.cc stays within its bounds.
use diffkv.Prelude.{
  ℕ, zero, suc, ◌+◌, ◌-◌, ◌*◌, ◌%◌, ◌^◌, ◌≤◌, ◌<◌, ◌≡◌, ◌∙◌, ltb, leb, ◌&&◌, Option, none, some, ok,
  add64, Bool-cases, inl, inr, arith,
}
use diffkv.Format.Bounds.{record_header_size}
use diffkv.BlobFile.Iterator.{
  BlobFileIterator, Range, min_readahead_size, max_readahead_size, grow_readahead, align_readahead,
  prefetched, ask, prefetch_to, prefetch,
}

-- The readahead is within its bounds.
pub record IsBounded (it : BlobFileIterator) : Type 0 where
  pub at_least : min_readahead_size ≤ it.readahead_size
  pub at_most : it.readahead_size ≤ max_readahead_size

-- What PrefetchAndGet asks of Prefetch is at least the least readahead, and less than twice the greatest.
abbrev pub IsModest : Option Range → Type 0
IsModest none = Unit {0}
IsModest (some r) = (min_readahead_size ≤ r.size) × (r.size < 2 * max_readahead_size)

-- The members that the readahead leaves alone.
pub record SameRecord (it it' : BlobFileIterator) : Type 0 where
  pub file : it'.file ≡ it.file
  pub file_number : it'.file_number ≡ it.file_number
  pub end : it'.end_of_blob_record ≡ it.end_of_blob_record
  pub init : it'.init ≡ it.init
  pub status : it'.status ≡ it.status
  pub iterate_offset : it'.iterate_offset ≡ it.iterate_offset
  pub cur_blob_record : it'.cur_blob_record ≡ it.cur_blob_record

grow_readahead-ends :
    (fuel end wanted size : ℕ)
    → min_readahead_size ≤ size
    → size < 2 * max_readahead_size
    → max_readahead_size - size < fuel
    → (r : ℕ) × (grow_readahead fuel end wanted size ≡ some r)
      × (min_readahead_size ≤ r)
      × (r < 2 * max_readahead_size)
unfolding grow_readahead
grow_readahead-ends zero end wanted size low high enough = absurd (omega arith)
grow_readahead-ends (suc fuel) end wanted size low high enough =
    elim (Bool-cases (leb (add64 end size) wanted && ltb size max_readahead_size)) [
      | inr stops ↦ (size, rw stops, low, high)
      | inl goes ↦
          let small : size < max_readahead_size = ground arith in
          let (r, done, low', high') =
            grow_readahead-ends fuel end wanted ((size * 2) % 2 ^ 64) (omega arith) (omega arith)
              (omega arith) in
          (r, rw goes done, low', high')
    ]

below : {n : ℕ} → n ≤ max_readahead_size → n < 2 * max_readahead_size
below h = omega arith

less : (n : ℕ) → max_readahead_size - n < max_readahead_size + 1
less n = omega arith

align_readahead-IsBounded :
    (it : BlobFileIterator)
    → IsBounded it
    → IsBounded (align_readahead it) × SameRecord it (align_readahead it)
unfolding align_readahead
align_readahead-IsBounded it b = (ground arith, ground arith)

prefetched-IsBounded :
    (size : ℕ) (it : BlobFileIterator)
    → min_readahead_size ≤ size
    → size < 2 * max_readahead_size
    → IsBounded (prefetched size it) × SameRecord it (prefetched size it)
unfolding prefetched
prefetched-IsBounded size it low high = (ground arith, ground arith)

SameRecord-trans : (a b c : BlobFileIterator) → SameRecord a b → SameRecord b c → SameRecord a c
SameRecord-trans a b c p q = record {
  file = q.file ∙ p.file;
  file_number = q.file_number ∙ p.file_number;
  end = q.end ∙ p.end;
  init = q.init ∙ p.init;
  status = q.status ∙ p.status;
  iterate_offset = q.iterate_offset ∙ p.iterate_offset;
  cur_blob_record = q.cur_blob_record ∙ p.cur_blob_record;
}

prefetch_to-IsBounded :
    (rounds wanted : ℕ) (a : BlobFileIterator)
    → IsBounded a
    → max_readahead_size - a.readahead_size < rounds
    → (q : Option Range) × (it' : BlobFileIterator) × (prefetch_to rounds wanted a ≡ ok (q, it'))
      × IsModest q
      × IsBounded it'
      × SameRecord a it'
unfolding prefetch_to ask
prefetch_to-IsBounded rounds wanted a b enough =
    elim (Bool-cases (leb a.readahead_end_offset wanted)) [
      | inr far ↦ (none, a, rw far, tt, b, ground arith)
      | inl short ↦
          let (r, grown, low, high) =
            grow_readahead-ends rounds a.readahead_end_offset wanted a.readahead_size b.at_least
              (below b.at_most) enough in
          let (bp, same) = prefetched-IsBounded r a low high in
          (
            some (record { offset = a.readahead_end_offset; size = r }),
            prefetched r a,
            rw (short, grown),
            (low, high),
            bp,
            same,
          )
    ]

-- With a readahead between kMinReadaheadSize and kMaxReadaheadSize, PrefetchAndGet comes to its read:
-- the loop that doubles the readahead ends, a Prefetch is for no less than kMinReadaheadSize and for
-- less than twice kMaxReadaheadSize, the readahead is then within its bounds again, and the members
-- that say which record is next have not changed.
pub prefetch-IsBounded :
    (it : BlobFileIterator)
    → IsBounded it
    → (q : Option Range) × (it' : BlobFileIterator) × (prefetch it ≡ ok (q, it'))
      × IsModest q
      × IsBounded it'
      × SameRecord it it'
unfolding prefetch
prefetch-IsBounded it b =
    let (ba, same) = align_readahead-IsBounded it b in
    let (q, it', done, modest, b', same') =
      prefetch_to-IsBounded (max_readahead_size + 1)
        (add64 (add64 it.iterate_offset record_header_size) it.min_blob_size) (align_readahead it)
        ba (less (align_readahead it).readahead_size) in
    (q, it', done, modest, b', SameRecord-trans it (align_readahead it) it' same same')
