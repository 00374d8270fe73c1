-- ===== src/Output/Csv/Tests.antt =====
-- A small file of comma-separated values.
use memory_allocator.Base.{ℕ, ◌≡◌, refl, List, [], ◌∷◌, map, arith}
use memory_allocator.Output.Csv.{later_cells, joined_cells, write_row, write_header, write_rows}
use memory_allocator.Output.Csv.Rows.{lines, cells_of, read-write_rows}

-- "ab,c" and "1,"
abbrev header : List (List ℕ)
header = (97 ∷ 98 ∷ []) ∷ (99 ∷ []) ∷ []

abbrev row : List (List ℕ)
row = (49 ∷ []) ∷ [] ∷ []

bytes_of_file :
    write_rows (write_header [] header) (row ∷ []) ≡ 97 ∷ 98 ∷ 44 ∷ 99 ∷ 10 ∷ 49 ∷ 44 ∷ 10 ∷ []
unfolding write_rows write_header write_row joined_cells later_cells
bytes_of_file = refl

read-write_rows_example :
    map cells_of (lines (write_rows (write_header [] header) (row ∷ []))) ≡ header ∷ row ∷ []
read-write_rows_example =
    read-write_rows header (row ∷ [])
      (
        (
          (λ e. omega (arith, e), (λ e. omega (arith, e), tt)),
          (λ e. omega (arith, e), (λ e. omega (arith, e), tt)),
        ),
        (((λ e. omega (arith, e), tt), (λ e. omega (arith, e), tt)), tt),
      )
      ((((λ e. omega (arith, e), tt), (λ e. omega (arith, e), tt)), ((tt, tt), tt)), tt)
