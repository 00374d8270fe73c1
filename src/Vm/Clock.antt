-- ===== src/Vm/Clock.antt =====
-- memlab/include/memlab/vm/replacement/clock.hpp. `_frame_idx` is a function of the frame. A read
-- of `_ring` out of range, as `victim` makes on an empty ring, is none.
pub mod SecondChance
mod Tests
use memory_allocator.Base.{
  ℕ, zero, suc, ◌+◌, ◌-◌, ◌*◌, ◌%◌, ◌==◌, ltb, if◌then◌else◌, ◌&&◌, not, Bool, true, false, Option,
  none, some, List, [], ◌∷◌, ◌++◌, length, get_elem?, get_or, set,
}

pub record Slot : Type 0 where
  pub frame : ℕ
  pub ref : Bool

pub record Clock : Type 0 where
  pub ring : List Slot
  pub frame_idx : ℕ → Option ℕ
  pub hand : ℕ

unfoldable pub empty : Clock
empty = record { ring = []; frame_idx = λ _. none; hand = 0 }

abbrev pub update : (ℕ → Option ℕ) → ℕ → Option ℕ → ℕ → Option ℕ
update idx f v g = if g == f then v else idx g

unfoldable pub on_load : Clock → ℕ → Clock
on_load p frame =
    let ring = p.ring ++ record { frame = frame; ref = true } ∷ [] in
    record p { ring = ring; frame_idx = update p.frame_idx frame (some (length ring - 1)) }

-- `_ring[i].ref = b`
abbrev set_ref : List Slot → ℕ → Bool → List Slot
set_ref ring i b = elim (get_elem? ring i) [
  | none ↦ ring
  | some s ↦ set ring i (record s { ref = b })
]

unfoldable pub on_access : Clock → ℕ → Clock
on_access p frame = elim (p.frame_idx frame) [
  | none ↦ p
  | some i ↦ record p { ring = set_ref p.ring i true }
]

-- The rounds of the loop that are left; then the frame under the hand.
unfoldable pub scan : ℕ → Clock → Option ℕ × Clock
scan zero p = elim (get_elem? p.ring p.hand) [ none ↦ (none, p) | some s ↦ (some s.frame, p) ]
scan (suc tries) p = elim (get_elem? p.ring p.hand) [
  | none ↦ (none, p)
  | some s ↦
      let further = scan tries (record p {
        ring = set p.ring p.hand (record s { ref = false });
        hand = (p.hand + 1) % length p.ring;
      }) in
      if s.ref then further else (some s.frame, p)
]

unfoldable pub victim : Clock → Option ℕ × Clock
unfolding scan
victim p = scan (length p.ring * 2) p

-- The last slot, and the slots before it.
abbrev pub back : List Slot → Option Slot
back [] = none
back (s ∷ []) = some s
back (s ∷ t ∷ rest) = back (t ∷ rest)

abbrev pop_back : List Slot → List Slot
pop_back [] = []
pop_back (s ∷ []) = []
pop_back (s ∷ t ∷ rest) = s ∷ pop_back (t ∷ rest)

unfoldable pub on_evict : Clock → ℕ → Clock
on_evict p frame = elim (p.frame_idx frame) [
  | none ↦ p
  | some idx ↦ elim (back p.ring) [
    | none ↦ p
    | some last ↦
        let ring = pop_back (set p.ring idx last) in
        record {
          ring = ring;
          frame_idx = update (update p.frame_idx last.frame (some idx)) frame none;
          hand = if not (ltb p.hand (length ring)) && ltb 0 (length ring) then 0 else p.hand;
        }
  ]
]
