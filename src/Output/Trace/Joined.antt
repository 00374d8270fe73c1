-- ===== src/Output/Trace/Joined.antt =====
-- The file of a trace as a whole.
use memory_allocator.Base.{
  ℕ, ◌≡◌, refl, sym, ap, ◌∙◌, false, List, [], ◌∷◌, ◌++◌, append-nil, append_assoc, map,
}
use memory_allocator.Output.Trace.{
  Event, opening, separator, closing, construct, destroy, object, log, log_all,
}

-- Texts with a separator between them.
abbrev pub later_texts : List (List ℕ) → List ℕ
later_texts [] = []
later_texts (l ∷ ls) = separator ++ l ++ later_texts ls

abbrev pub join : List (List ℕ) → List ℕ
join [] = []
join (l ∷ ls) = l ++ later_texts ls

module _ (num : ℕ → List ℕ) where
  log_all-later :
      (es : List Event) (out : List ℕ)
      → (log_all num (record { out = out; first = false }) es).out
        ≡ out ++ later_texts (map (object num) es)
  unfolding log_all log
  log_all-later [] out = sym (append-nil out)
  log_all-later (e ∷ es) out =
      log_all-later es (out ++ separator ++ object num e)
      ∙ append_assoc (out ++ separator) (object num e) (later_texts (map (object num) es))
      ∙ append_assoc out separator (object num e ++ later_texts (map (object num) es))

  -- Whatever is logged: the file is the opening bracket, the objects of the events in order, with a
  -- comma between each two and none after the last, and the closing bracket.
  pub destroy-log_all :
      (es : List Event)
      → destroy (log_all num construct es) ≡ opening ++ join (map (object num) es) ++ closing
  unfolding destroy construct log_all log
  destroy-log_all [] = refl
  destroy-log_all (e ∷ es) = ap (λ l. l ++ closing) (log_all-later es (opening ++ object num e))
