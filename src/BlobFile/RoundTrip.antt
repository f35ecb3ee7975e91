-- ===== src/BlobFile/RoundTrip.antt =====
-- What BlobFileBuilder writes, BlobFileReader reads at the handles that Add gave.
use diffkv.Prelude.{
  ◌+◌, ◌≡◌, refl, sym, ap, ◌∙◌, true, ◌==◌, Option, none, some, List, [], ◌∷◌, ◌++◌, Bytes, All,
  Outcome, ok, Status, Option-cases, ◌>>=◌, >>=-eq-ok, ok-injective, IsU32, length, take, drop,
  length-append, take-append, drop-append, inl, inr, Bool-cases, arith,
}
use mathlib.Core.Path.{subst}
use mathlib.Core.List.{append_assoc, append-nil}
use diffkv.Coding.{Coding, IsCoding, Crc, IsCrc}
use diffkv.Options.{Comparator}
use diffkv.Compression.{CompressionType, Codecs, IsCodecs, compress}
use diffkv.Format.Bounds.{record_header_size}
use diffkv.Format.Record.{BlobRecord}
use diffkv.Format.Record
use diffkv.Format.Index.{BlobHandle}
use diffkv.Format.Codec.{encode_record, decode_record_header, decode_blob}
use diffkv.Format.Codec.RoundTrip.{decode_blob-encode_record, length-header_of, encoded_parts}
use diffkv.BlobFile.Builder.{BlobFileBuilder, append, added, add, count_entry, first_key, widen}
use diffkv.BlobFile.Reader.{read_at, read_record}

-- The keys and the count do not touch the file.
count_entry-file :
    (cmp : Comparator) (key : Bytes) (b : BlobFileBuilder)
    → ((count_entry cmp key b).file ≡ b.file) × ((count_entry cmp key b).status ≡ b.status)
unfolding count_entry first_key widen
count_entry-file cmp key b = (ground arith, ground arith)

module _ (c : Coding) (law : IsCoding c) (crc : Crc) (icrc : IsCrc crc) (z : Codecs)
    (zlaw : IsCodecs z) (t : CompressionType) where
  read_encoded :
      (target r : BlobRecord) (header body before more : Bytes)
      → Record.Fits target r
      → encode_record c crc z t r ≡ ok (header, body)
      → read_record c crc z none
          (record { offset = length before; size = record_header_size + length body })
          target
          ((before ++ (header ++ body)) ++ more)
        ≡ ok r
  unfolding read_record read_at decode_blob
  read_encoded target r header body before more fits e =
      let (eh, _, _) = encoded_parts c law crc icrc z zlaw t r header body e in
      let out = compress z t (Record.encode_to c r) in
      let len : length (header ++ body) ≡ record_header_size + length body =
        length-append header body
        ∙ ap (λ n. n + length body)
            (ap length eh ∙ length-header_of c law crc icrc z zlaw out.0 out.1) in
      let cut : take (record_header_size + length body)
            (drop (length before) ((before ++ (header ++ body)) ++ more))
          ≡ header ++ body =
        ap (λ x. take (record_header_size + length body) (drop (length before) x))
          (append_assoc before (header ++ body) more)
        ∙ (ap (λ x. take (record_header_size + length body) x)
              (drop-append before ((header ++ body) ++ more))
            ∙ (ap (λ n. take n ((header ++ body) ++ more)) (sym len)
                ∙ take-append (header ++ body) more)) in
      let same : ((record_header_size + length body) == length (header ++ body)) ≡ true =
        ground (arith, len) in
      let whole =
        decode_blob-encode_record c law crc icrc z zlaw t target r header body [] fits e in
      let ((d, rest), first, second) =
        >>=-eq-ok (decode_record_header c crc z (header ++ (body ++ []))) _ whole in
      let first' : decode_record_header c crc z (header ++ body) ≡ ok (d, rest) =
        ap (λ x. decode_record_header c crc z (header ++ x)) (sym (append-nil body)) ∙ first in
      rw (cut, read_record, same, first', second)

-- Calls of Add, one after the other, that the file system accepts: their handles, and the builder.
module _ (c : Coding) (crc : Crc) (z : Codecs) (t : CompressionType) (cmp : Comparator) where
  unfoldable pub add_all :
      List BlobRecord → BlobFileBuilder → Outcome (List BlobHandle × BlobFileBuilder)
  unfolding add
  add_all [] b = ok ([], b)
  add_all (r ∷ rs) b = do
    (h, b1) ← add c crc z t cmp none r (record { offset = 0; size = 0 }) b
    (hs, b2) ← add_all rs b1
    ok (h ∷ hs, b2)

module _ (c : Coding) (crc : Crc) (z : Codecs) (t : CompressionType) (cmp : Comparator) where
  added-fine :
      (io : Option Status) (r : BlobRecord) (bytes : Bytes) (b : BlobFileBuilder)
      → (added c crc z t cmp io r bytes b).status ≡ none
      → io ≡ none
  added-fine none r bytes b e = refl
  added-fine (some x) r bytes b e = e

  -- After an Add that leaves no error there was none before it.
  pub add-fine :
      (io : Option Status) (r : BlobRecord) (handle h : BlobHandle) (b b1 : BlobFileBuilder)
      → add c crc z t cmp io r handle b ≡ ok (h, b1)
      → b1.status ≡ none
      → (b.status ≡ none) × (io ≡ none)
  unfolding add
  add-fine io r handle h b b1 e fine = elim (Option-cases b.status) [
    | inr (x, bad) ↦
        let e' : Outcome.ok (handle, b) ≡ ok (h, b1) = rw (bad, add) at e in
        absurd (cc (bad, fine, ap (λ p. p.1.status) (ok-injective e')))
    | inl good ↦
        let e' : (encode_record c crc z t r >>= λ p. ok (
          record { offset = length b.file; size = record_header_size + length p.1 },
          added c crc z t cmp io r (p.0 ++ p.1) b,
        ))
            ≡ ok (h, b1) =
          rw (good, add) at e in
        let (p, enc, same) = >>=-eq-ok (encode_record c crc z t r) _ e' in
        (good, added-fine io r (p.0 ++ p.1) b (ap (λ q. q.1.status) (ok-injective same) ∙ fine))
  ]

-- A record whose lengths fit a varint32, and the request for it.
abbrev pub IsWritable : BlobRecord → Type 0
IsWritable r = IsU32 (length r.key) × IsU32 (length r.value)

abbrev pub request : BlobRecord → BlobRecord
request r = record r { value = [] }

request-Fits : (r : BlobRecord) → IsWritable r → Record.Fits (request r) r
request-Fits r (k, v) = elim (Bool-cases r.only_value) [
  | inl only ↦ inr (only, only, refl)
  | inr both ↦ inl (both, both, k, v)
]

-- Each handle leads to its record.
abbrev pub AllRead : (Coding → Crc → Codecs → List BlobHandle → List BlobRecord → Bytes → Type 0)
AllRead c crc z [] [] file = Unit {0}
AllRead c crc z (h ∷ hs) (r ∷ rs) file =
    (read_record c crc z none h (request r) file ≡ ok r) × AllRead c crc z hs rs file
AllRead c crc z hs rs file = ⊥

module _ (c : Coding) (law : IsCoding c) (crc : Crc) (icrc : IsCrc crc) (z : Codecs)
    (zlaw : IsCodecs z) (t : CompressionType) (cmp : Comparator) where
  add-starts :
      (r : BlobRecord) (handle : BlobHandle) (b : BlobFileBuilder)
      → b.status ≡ none
      → add c crc z t cmp none r handle b ≡ (
          encode_record c crc z t r >>= λ p. ok (
            record { offset = length b.file; size = record_header_size + length p.1 },
            added c crc z t cmp none r (p.0 ++ p.1) b,
          ))
  unfolding add
  add-starts r handle b fine = rw (fine, add)

  -- What one Add comes to.
  pub add-ok :
      (r : BlobRecord) (handle h : BlobHandle) (b b1 : BlobFileBuilder)
      → b.status ≡ none
      → add c crc z t cmp none r handle b ≡ ok (h, b1)
      → (header : Bytes) × (body : Bytes) × (encode_record c crc z t r ≡ ok (header, body))
        × (h ≡ record { offset = length b.file; size = record_header_size + length body })
        × (b1.file ≡ b.file ++ (header ++ body))
        × (b1.status ≡ none)
  add-ok r handle h b b1 fine e =
      let ((header, body), enc, same) =
        >>=-eq-ok (encode_record c crc z t r) _ (sym (add-starts r handle b fine) ∙ e) in
      let (kept, still) = count_entry-file cmp r.key (append none (header ++ body) b) in
      (
        header,
        body,
        enc,
        sym (ap (λ p. p.0) (ok-injective same)),
        sym (ap (λ p. p.1.file) (ok-injective same)) ∙ kept,
        sym (ap (λ p. p.1.status) (ok-injective same)) ∙ still,
      )

  -- A record in the middle of a file.
  pub read_added :
      (r : BlobRecord) (h : BlobHandle) (header body before at last more tail : Bytes)
      → IsWritable r
      → encode_record c crc z t r ≡ ok (header, body)
      → h ≡ record { offset = length before; size = record_header_size + length body }
      → at ≡ before ++ (header ++ body)
      → last ≡ at ++ more
      → read_record c crc z none h (request r) (last ++ tail) ≡ ok r
  read_added r h header body before at last more tail w enc at_end grown longer =
      let whole : (before ++ (header ++ body)) ++ (more ++ tail) ≡ last ++ tail =
        ap (λ x. x ++ (more ++ tail)) (sym grown)
        ∙ (sym (append_assoc at more tail) ∙ ap (λ x. x ++ tail) (sym longer)) in
      let there : BlobHandle = record {
        offset = length before;
        size = record_header_size + length body;
      } in
      subst (λ x. read_record c crc z none x (request r) (last ++ tail) ≡ ok r) (sym at_end)
        (subst (λ x. read_record c crc z none there (request r) x ≡ ok r) whole
          (read_encoded c law crc icrc z zlaw t (request r) r header body before (more ++ tail)
            (request-Fits r w) enc))

  pub add_all-AllRead :
      (rs : List BlobRecord) (hs : List BlobHandle) (b b2 : BlobFileBuilder)
      → b.status ≡ none
      → All IsWritable rs
      → add_all c crc z t cmp rs b ≡ ok (hs, b2)
      → (more : Bytes) × (b2.file ≡ b.file ++ more)
        × (b2.status ≡ none)
        × ((tail : Bytes) → AllRead c crc z hs rs (b2.file ++ tail))
  unfolding add_all
  add_all-AllRead [] hs b b2 fine w e =
      let same = ok-injective e in
      (
        [],
        sym (ap (λ p. p.1.file) same) ∙ sym (append-nil b.file),
        sym (ap (λ p. p.1.status) same) ∙ fine,
        λ tail. subst (λ p. AllRead c crc z p.0 [] (p.1.file ++ tail)) same tt,
      )
  add_all-AllRead (r ∷ rs) hs b b2 fine (wr, w) e =
      let ((h, b1), one, e1) = >>=-eq-ok (add c crc z t cmp none r _ b) _ e in
      let ((hs', b3), others, e2) = >>=-eq-ok (add_all c crc z t cmp rs b1) _ e1 in
      let (header, body, enc, at_end, grown, fine1) = add-ok r _ h b b1 fine one in
      let (more, longer, fine2, reads) = add_all-AllRead rs hs' b1 b3 fine1 w others in
      subst
        (λ p.
          (m : Bytes) × (p.1.file ≡ b.file ++ m)
          × (p.1.status ≡ none)
          × ((tail : Bytes) → AllRead c crc z p.0 (r ∷ rs) (p.1.file ++ tail)))
        (ok-injective e2)
        (
          (header ++ body) ++ more,
          longer ∙ (ap (λ x. x ++ more) grown ∙ append_assoc b.file (header ++ body) more),
          fine2,
          λ tail. (
            read_added r h header body b.file (b1.file) (b3.file) more tail wr enc at_end grown
                longer,
            reads tail,
          ),
        )

  -- After any number of calls of Add that the file system accepts, each handle that they gave reads
  -- its own record back, whatever is appended to the file later.
  pub read_record-add_all :
      (rs : List BlobRecord) (hs : List BlobHandle) (b b2 : BlobFileBuilder) (tail : Bytes)
      → b.status ≡ none
      → All IsWritable rs
      → add_all c crc z t cmp rs b ≡ ok (hs, b2)
      → AllRead c crc z hs rs (b2.file ++ tail)
  read_record-add_all rs hs b b2 tail fine w e =
      let (_, _, _, reads) = add_all-AllRead rs hs b b2 fine w e in reads tail
