-- ===== src/Output/Csv.antt =====
-- memlab/include/memlab/common/stats.hpp, CsvWriter: the bytes of the file. Cells are texts already;
-- opening the file, which may throw, and flushing it are left out.
pub mod Rows
mod Tests
use memory_allocator.Base.{ℕ, List, [], ◌∷◌, ◌++◌}

abbrev pub comma : ℕ
comma = 44

abbrev pub newline : ℕ
newline = 10

-- The loop of `write_row`, from the second cell on.
unfoldable pub later_cells : List (List ℕ) → List ℕ
later_cells [] = []
later_cells (cell ∷ rest) = comma ∷ cell ++ later_cells rest

unfoldable pub joined_cells : List (List ℕ) → List ℕ
unfolding later_cells
joined_cells [] = []
joined_cells (cell ∷ rest) = cell ++ later_cells rest

unfoldable pub write_row : List ℕ → List (List ℕ) → List ℕ
unfolding joined_cells
write_row file cells = file ++ joined_cells cells ++ newline ∷ []

unfoldable pub write_header : List ℕ → List (List ℕ) → List ℕ
unfolding write_row
write_header file cols = write_row file cols

-- Writing rows one after the other.
unfoldable pub write_rows : List ℕ → List (List (List ℕ)) → List ℕ
unfolding write_row
write_rows file [] = file
write_rows file (row ∷ rows) = write_rows (write_row file row) rows
