-- ===== src/Vm/PageTable.antt =====
-- memlab/include/memlab/vm/page_table.hpp. The map is a list of pages with their entries. What the
-- source writes through the pointer that `lookup` or `get_or_create` gives is `write`.
use memory_allocator.Base.{ℕ, ◌==◌, if◌then◌else◌, Bool, false, Option, none, some, List, [], ◌∷◌}

pub record Pte : Type 0 where
  pub frame : ℕ
  pub present : Bool
  pub dirty : Bool
  pub referenced : Bool

abbrev empty_pte : Pte
empty_pte = record { frame = 0; present = false; dirty = false; referenced = false }

unfoldable pub lookup : ℕ → List (ℕ × Pte) → Option Pte
lookup vpn [] = none
lookup vpn ((k, e) ∷ rest) = if k == vpn then some e else lookup vpn rest

unfoldable pub write : ℕ → Pte → List (ℕ × Pte) → List (ℕ × Pte)
write vpn v [] = (vpn, v) ∷ []
write vpn v ((k, e) ∷ rest) =
    let later = write vpn v rest in if k == vpn then (k, v) ∷ rest else (k, e) ∷ later

abbrev get_or_create : ℕ → List (ℕ × Pte) → Pte × List (ℕ × Pte)
unfolding lookup write
get_or_create vpn t = elim (lookup vpn t) [
  | some e ↦ (e, t)
  | none ↦ (empty_pte, write vpn empty_pte t)
]

unfoldable pub invalidate : ℕ → List (ℕ × Pte) → List (ℕ × Pte)
invalidate vpn [] = []
invalidate vpn ((k, e) ∷ rest) =
    if k == vpn then invalidate vpn rest else (k, e) ∷ invalidate vpn rest

unfoldable pub clear : List (ℕ × Pte) → List (ℕ × Pte)
clear t = []
