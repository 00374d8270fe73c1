-- ===== src/Output/Trace.antt =====
-- memlab/include/memlab/sim/trace_writer.hpp, TraceWriter: the bytes of the file. A number's text,
-- which the standard library makes, is a parameter. EventLogger (include/EventLogger.hpp) is the
-- same code.
pub mod Joined
mod Tests
use memory_allocator.Base.{ℕ, if◌then◌else◌, Bool, true, false, List, [], ◌∷◌, ◌++◌}

pub record TraceWriter : Type 0 where
  pub out : List ℕ
  pub first : Bool

-- A key and the text of its value.
pub record Event : Type 0 where
  pub tick : ℕ
  pub kind : List ℕ
  pub pid : ℕ
  pub fields : List (List ℕ × List ℕ)

abbrev pub quote : List ℕ
quote = 34 ∷ []

-- `[`, `,` and `]` with the newlines around them.
abbrev pub opening : List ℕ
opening = 91 ∷ 10 ∷ []

abbrev pub separator : List ℕ
separator = 44 ∷ 10 ∷ []

abbrev pub closing : List ℕ
closing = 10 ∷ 93 ∷ 10 ∷ []

unfoldable pub construct : TraceWriter
construct = record { out = opening; first = true }

unfoldable pub destroy : TraceWriter → List ℕ
destroy w = w.out ++ closing

abbrev pub str : List ℕ → List ℕ
str s = quote ++ s ++ quote

module _ (num : ℕ → List ℕ) where
  -- The loop over the fields: `,"`, the key, `":` and the value.
  unfoldable pub fields_text : List (List ℕ × List ℕ) → List ℕ
  fields_text [] = []
  fields_text ((key, value) ∷ rest) =
      (44 ∷ 34 ∷ []) ++ key ++ (34 ∷ 58 ∷ []) ++ value ++ fields_text rest

  -- `  {"tick":`, `,"type":"`, `","pid":` and `}`.
  unfoldable pub object : Event → List ℕ
  unfolding fields_text
  object e =
      (32 ∷ 32 ∷ 123 ∷ 34 ∷ 116 ∷ 105 ∷ 99 ∷ 107 ∷ 34 ∷ 58 ∷ [])
      ++ num e.tick
      ++ (44 ∷ 34 ∷ 116 ∷ 121 ∷ 112 ∷ 101 ∷ 34 ∷ 58 ∷ 34 ∷ [])
      ++ e.kind
      ++ (34 ∷ 44 ∷ 34 ∷ 112 ∷ 105 ∷ 100 ∷ 34 ∷ 58 ∷ [])
      ++ num e.pid
      ++ fields_text e.fields
      ++ (125 ∷ [])

  unfoldable pub log : TraceWriter → Event → TraceWriter
  unfolding object
  log w e = record {
    out = (if w.first then w.out else w.out ++ separator) ++ object e;
    first = false;
  }

  -- Logging events one after the other.
  unfoldable pub log_all : TraceWriter → List Event → TraceWriter
  unfolding log
  log_all w [] = w
  log_all w (e ∷ es) = log_all (log w e) es
