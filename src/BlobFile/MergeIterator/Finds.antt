-- ===== src/BlobFile/MergeIterator/Finds.antt =====
-- What is left of a blob file before its BlobFileIterator, as a list.
use diffkv.Prelude.{ℕ, ◌≡◌, true, false, none, List, [], ◌∷◌, ◌++◌, Bytes, All, ok}
use mathlib.Core.Path.{subst}
use mathlib.Core.List.{Permᴰ}
use diffkv.Coding.{Coding, Crc}
use diffkv.Options.{Comparator}
use diffkv.Compression.{Codecs}
use diffkv.Format.Record.{BlobRecord}
use diffkv.Format.Index.{BlobHandle, BlobIndex}
use diffkv.BlobFile.Iterator.{BlobFileIterator}
use diffkv.BlobFile.Iterator
use diffkv.BlobFile.Iterator.Fetched.{good_reads}
use diffkv.BlobFile.Iterator.Scan.{Scans}

-- A record, and the index that leads to it.
pub record Found : Type 0 where
  pub index : BlobIndex
  pub content : BlobRecord

-- The records at the handles of a file.
abbrev pub found : ℕ → List BlobHandle → List BlobRecord → List Found
found n (h ∷ hs) (r ∷ rs) =
    record { index = record { file_number = n; blob_handle = h }; content = r } ∷ found n hs rs
found n hs rs = []

-- The iterator stands at the first of them, calls of Next lead through the others, and then to an
-- iterator that is not valid and has no error.
abbrev pub Finds : (Coding → Crc → Codecs → List Found → BlobFileIterator → Type 0)
Finds c crc z [] it = (Iterator.is_valid it ≡ false) × (it.status ≡ none)
Finds c crc z (x ∷ xs) it =
    (Iterator.is_valid it ≡ true)
    × (it.cur_blob_record ≡ x.content)
    × (Iterator.blob_index it ≡ x.index)
    × (it' : BlobFileIterator) × (Iterator.next c crc z good_reads it ≡ ok it')
    × Finds c crc z xs it'

pub Scans-Finds :
    (c : Coding) (crc : Crc) (z : Codecs) (n : ℕ) (hs : List BlobHandle) (rs : List BlobRecord)
    (it : BlobFileIterator)
    → Scans c crc z n hs rs it
    → Finds c crc z (found n hs rs) it
Scans-Finds c crc z n [] [] it s = s
Scans-Finds c crc z n [] (r ∷ rs) it s = elim s [ ]
Scans-Finds c crc z n (h ∷ hs) [] it s = elim s [ ]
Scans-Finds c crc z n (h ∷ hs) (r ∷ rs) it (at, it', done, s) =
    (at.valid, at.cur_record, at.index, it', done, Scans-Finds c crc z n hs rs it' s)

-- No key among them is less than `k`.
abbrev pub Low : Comparator → Bytes → List Found → Type 0
Low cmp k xs = All (λ x. cmp.less x.content.key k ≡ false) xs

-- In the order of their keys.
abbrev pub Sorted : Comparator → List Found → Type 0
Sorted cmp [] = Unit {0}
Sorted cmp (x ∷ xs) = Low cmp x.content.key xs × Sorted cmp xs

-- All of the records, one file after the other.
abbrev pub together : List (List Found) → List Found
together [] = []
together (xs ∷ xss) = xs ++ together xss

pub All-Permᴰ : {A : Type 0} (P : A → Type 0) {xs ys : List A} → Permᴰ xs ys → All P xs → All P ys
All-Permᴰ P Permᴰ.nil h = tt
All-Permᴰ P (Permᴰ.cons e p) (h, hs) = (subst P e h, All-Permᴰ P p hs)
All-Permᴰ P (Permᴰ.swap e f) (h, (h', hs)) = (subst P f h', (subst P e h, hs))
All-Permᴰ P (Permᴰ.trans p q) h = All-Permᴰ P q (All-Permᴰ P p h)
