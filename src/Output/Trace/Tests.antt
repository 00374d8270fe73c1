-- ===== src/Output/Trace/Tests.antt =====
-- A trace of two events.
use memory_allocator.Base.{ℕ, ◌+◌, ◌≡◌, refl, List, [], ◌∷◌, ◌++◌, length, map}
use memory_allocator.Output.Trace.{
  Event, opening, closing, construct, destroy, str, fields_text, object, log, log_all,
}
use memory_allocator.Output.Trace.Joined.{join, destroy-log_all}

-- One digit.
abbrev digit : ℕ → List ℕ
digit n = (48 + n) ∷ []

abbrev events : List Event
events =
    record { tick = 1; kind = 97 ∷ []; pid = 2; fields = [] }
    ∷ record { tick = 3; kind = 98 ∷ []; pid = 4; fields = (99 ∷ [], str (100 ∷ [])) ∷ [] }
    ∷ []

bytes_written : length (destroy (log_all digit construct events)) ≡ 77
unfolding destroy construct log_all log object fields_text
bytes_written = refl

destroy-log_all_test :
    destroy (log_all digit construct events)
    ≡ opening ++ join (map (object digit) events) ++ closing
destroy-log_all_test = destroy-log_all digit events
