-- ===== src/Output/Csv/Rows.antt =====
-- A reader of lines and cells gets the rows back.
use memory_allocator.Base.{
  ℕ, ◌≡◌, ◌≢◌, refl, sym, ap, ◌∙◌, ◌==◌, ne→==, ==_self, if◌then◌else◌, List, [], ◌∷◌, ◌++◌,
  append-nil, append_assoc, map, All, All-append, arith,
}
use memory_allocator.Output.Csv.{
  comma, newline, later_cells, joined_cells, write_row, write_header, write_rows,
}

-- A byte in front of the first piece.
abbrev pub grow : ℕ → List (List ℕ) → List (List ℕ)
grow c [] = (c ∷ []) ∷ []
grow c (l ∷ ls) = (c ∷ l) ∷ ls

-- A text in pieces, at each byte `sep`; `last` is what an empty text is.
abbrev pub split : ℕ → List (List ℕ) → List ℕ → List (List ℕ)
split sep last [] = last
split sep last (c ∷ s) = if c == sep then [] ∷ split sep last s else grow c (split sep last s)

-- Lines end with a newline, and cells are apart by commas.
abbrev pub lines : List ℕ → List (List ℕ)
lines s = split newline [] s

abbrev pub cells_of : List ℕ → List (List ℕ)
cells_of s = split comma ([] ∷ []) s

split-piece :
    (sep : ℕ) (last : List (List ℕ)) (l s : List ℕ)
    → All (λ c. c ≢ sep) l
    → split sep last (l ++ sep ∷ s) ≡ l ∷ split sep last s
split-piece sep last [] s h =
    ap (λ b. if b then [] ∷ split sep last s else grow sep (split sep last s)) (==_self sep)
split-piece sep last (c ∷ l) s (ne, h) =
    ap
      (λ b.
        if b then [] ∷ split sep last (l ++ sep ∷ s) else grow c (split sep last (l ++ sep ∷ s)))
      (ne→== c sep ne)
    ∙ ap (grow c) (split-piece sep last l s h)

split-last : (sep : ℕ) (l : List ℕ) → All (λ c. c ≢ sep) l → split sep ([] ∷ []) l ≡ l ∷ []
split-last sep [] h = refl
split-last sep (c ∷ l) (ne, h) =
    ap (λ b. if b then [] ∷ split sep ([] ∷ []) l else grow c (split sep ([] ∷ []) l))
      (ne→== c sep ne)
    ∙ ap (grow c) (split-last sep l h)

-- A cell has no comma and no newline.
abbrev pub IsCell : List ℕ → Type 0
IsCell cell = All (λ c. c ≢ comma) cell × All (λ c. c ≢ newline) cell

-- A row has a cell.
abbrev pub IsRow : List (List ℕ) → Type 0
IsRow [] = ⊥
IsRow (cell ∷ rest) = IsCell cell × All IsCell rest

cells-later :
    (cell : List ℕ) (rest : List (List ℕ))
    → IsCell cell
    → All IsCell rest
    → cells_of (cell ++ later_cells rest) ≡ cell ∷ rest
unfolding later_cells
cells-later cell [] h r = ap cells_of (append-nil cell) ∙ split-last comma cell h.0
cells-later cell (next ∷ rest) h r =
    split-piece comma ([] ∷ []) cell (next ++ later_cells rest) h.0
    ∙ ap (λ l. cell ∷ l) (cells-later next rest r.0 r.1)

later-IsOneLine :
    (rest : List (List ℕ)) → All IsCell rest → All (λ c. c ≢ newline) (later_cells rest)
unfolding later_cells
later-IsOneLine [] h = tt
later-IsOneLine (cell ∷ rest) h = (
  ground arith,
  All-append (λ c. c ≢ newline) cell (later_cells rest) h.0.1 (later-IsOneLine rest h.1),
)

-- One row, in front of the rest of the file.
row-read :
    (row : List (List ℕ)) (s : List ℕ)
    → IsRow row
    → map cells_of (lines (joined_cells row ++ newline ∷ s)) ≡ row ∷ map cells_of (lines s)
unfolding joined_cells
row-read [] s h = elim h [ ]
row-read (cell ∷ rest) s (h, r) =
    ap (map cells_of) (
      split-piece newline [] (cell ++ later_cells rest) s
        (All-append (λ c. c ≢ newline) cell (later_cells rest) h.1 (later-IsOneLine rest r)))
    ∙ ap (λ l. l ∷ map cells_of (lines s)) (cells-later cell rest h r)

-- The text of rows, from the last one back.
text_of : List (List (List ℕ)) → List ℕ
text_of [] = []
text_of (row ∷ rows) = joined_cells row ++ newline ∷ text_of rows

write_rows-text :
    (file : List ℕ) (rows : List (List (List ℕ))) → write_rows file rows ≡ file ++ text_of rows
unfolding write_rows write_row text_of
write_rows-text file [] = sym (append-nil file)
write_rows-text file (row ∷ rows) =
    write_rows-text (file ++ joined_cells row ++ newline ∷ []) rows
    ∙ append_assoc (file ++ joined_cells row) (newline ∷ []) (text_of rows)
    ∙ append_assoc file (joined_cells row) (newline ∷ text_of rows)

text-read :
    (rows : List (List (List ℕ))) → All IsRow rows → map cells_of (lines (text_of rows)) ≡ rows
unfolding text_of
text-read [] h = refl
text-read (row ∷ rows) (r, h) = row-read row (text_of rows) r ∙ ap (λ l. row ∷ l) (text-read rows h)

-- Of a header and rows whose cells have no comma and no newline, and at least one cell each: the
-- file, read back line by line and each line at its commas, is the header and the rows.
pub read-write_rows :
    (header : List (List ℕ)) (rows : List (List (List ℕ)))
    → IsRow header
    → All IsRow rows
    → map cells_of (lines (write_rows (write_header [] header) rows)) ≡ header ∷ rows
unfolding write_header write_row
read-write_rows header rows h r =
    ap (λ s. map cells_of (lines s)) (write_rows-text (joined_cells header ++ newline ∷ []) rows)
    ∙ ap (λ s. map cells_of (lines s))
        (append_assoc (joined_cells header) (newline ∷ []) (text_of rows))
    ∙ row-read header (text_of rows) h
    ∙ ap (λ l. header ∷ l) (text-read rows r)
