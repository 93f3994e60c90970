-- ===== src/File/Tests.antt =====
-- src/hlib_file.cpp at concrete inputs.
use hlib.Base.{ℕ, ◌≡◌, refl, true, none, some, List, [], ◌∷◌, codes, Bytes, arith, inr}
use hlib.Buffer.{Allocator, Buffer, realloc}
use hlib.Buffer.Capacity.{extend_by, resize_by}
use hlib.Buffer.Edit.{overwrite}
use hlib.File.{
  Transfer, moved, read_fd_into, read_fd_loop, read_fd_all, get_mime_type_from_extension,
}
use hlib.File.Collecting.{Collects, read_fd_all-Collects}
use hlib.Result.{success_of}
use hlib.Strings.Parts.{trim_left}

abbrev heap : Allocator
heap = record { grants = λ _. true; residue = λ _. 170 }

-- a descriptor with the reads that it will answer, and the end behind them
abbrev scripted : ℕ → List Bytes → Transfer × List Bytes
scripted n [] = (moved [], [])
scripted n (ys ∷ next) = (moved ys, next)

json_type : get_mime_type_from_extension (codes ".json") (codes "?") ≡ codes "application/json"
unfolding get_mime_type_from_extension trim_left
json_type = refl

unknown_type : get_mime_type_from_extension (codes "md") (codes "?") ≡ codes "?"
unfolding get_mime_type_from_extension trim_left
unknown_type = refl

abbrev five : Buffer
five = record {
  block = some (1 ∷ 2 ∷ 3 ∷ 4 ∷ 5 ∷ 170 ∷ 170 ∷ 170 ∷ 170 ∷ 170 ∷ 170 ∷ 170 ∷ 170 ∷ []);
  maximum = 18446744073709551615;
  capacity = 13;
  size = 5;
}

whole_file :
    read_fd_all scripted 2 heap 8 ((1 ∷ 2 ∷ 3 ∷ 4 ∷ 5 ∷ []) ∷ []) ≡ some (success_of five, [])
unfolding read_fd_all read_fd_loop read_fd_into extend_by resize_by realloc overwrite
whole_file = refl

second_batch :
    read_fd_all scripted 3 heap 8 ((1 ∷ 2 ∷ 3 ∷ 4 ∷ 5 ∷ []) ∷ (6 ∷ 7 ∷ 8 ∷ 9 ∷ []) ∷ []) ≡ none
unfolding read_fd_all read_fd_loop read_fd_into extend_by resize_by realloc overwrite
second_batch = refl

abbrev batch : Bytes
batch = 1 ∷ 2 ∷ 3 ∷ 4 ∷ 5 ∷ []

abbrev rest : Bytes
rest = 6 ∷ 7 ∷ 8 ∷ 9 ∷ []

read_fd_all-Collects_example :
    Collects scripted heap 8 batch rest (batch ∷ rest ∷ []) (rest ∷ []) [] 0
read_fd_all-Collects_example =
    read_fd_all-Collects scripted heap 8 batch rest (batch ∷ rest ∷ []) (rest ∷ []) [] (omega arith)
      (omega arith) (omega arith) refl refl refl refl 0 (inr (omega arith))
