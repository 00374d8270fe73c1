-- ===== src/Sched/PriorityQueue.antt =====
-- std::priority_queue, which SJF and SRTF (memlab/include/memlab/sched/policies) hold processes in,
-- as an interface with its documented laws for any comparison. An entry is the index of a process
-- and the ticks that the comparison reads of it, which do not change while the process waits.
pub mod Drain
use memory_allocator.Base.{
  ℕ, ◌+◌, ◌≡◌, if◌then◌else◌, Bool, true, false, Option, none, some, List, [], ◌∷◌,
}

abbrev pub Entry : Type 0
Entry = ℕ × ℕ

abbrev pub Comparison : Type 0
Comparison = Entry → Entry → Bool

-- A queue of one comparison.
pub record PriorityQueue (Q : Type 0) : Type 0 where
  pub empty : Q
  pub push : Q → Entry → Q
  pub top : Q → Option Entry
  pub pop : Q → Q

abbrev pub one_if : Bool → ℕ
one_if b = if b then 1 else 0

-- How many entries pass a test.
abbrev pub count_if {ℓ} : {A : Type ℓ} → (A → Bool) → List A → ℕ
count_if f [] = 0
count_if f (e ∷ rest) = one_if (f e) + count_if f rest

-- What the standard asks of a comparison: a strict weak order.
pub record IsStrictWeak (cmp : Comparison) : Type 0 where
  pub irreflexive : (a : Entry) → cmp a a ≡ false
  pub transitive : (a b c : Entry) → cmp a b ≡ true → cmp b c ≡ true → cmp a c ≡ true
  pub weak : (a b c : Entry) → cmp a b ≡ false → cmp b c ≡ false → cmp a c ≡ false

-- What the top and the rest are of the entries, by what the top is: no entry comes after it.
abbrev pub Popped : Comparison → Option Entry → List Entry → List Entry → Type 0
Popped cmp none entries rest = entries ≡ []
Popped cmp (some e) entries rest =
    ((f : Entry → Bool) → count_if f entries ≡ count_if f rest + one_if (f e))
    × (count_if (cmp e) entries ≡ 0)

-- The documented laws: a queue starts empty, `push` adds the entry, and the top is an entry that the
-- comparison puts before no other, which `pop` takes away.
pub record IsPriorityQueue {Q : Type 0} (cmp : Comparison) (queue : PriorityQueue Q) : Type 0 where
  pub entries : Q → List Entry
  pub none_yet : entries queue.empty ≡ []
  pub pushes :
      (q : Q) (e : Entry) (f : Entry → Bool)
      → count_if f (entries (queue.push q e)) ≡ count_if f (entries q) + one_if (f e)
  pub pops : (q : Q) → Popped cmp (queue.top q) (entries q) (entries (queue.pop q))

-- The laws of the type for every comparison that the standard allows.
abbrev pub Lawful : {Q : Type 0} → (Comparison → PriorityQueue Q) → Type 0
Lawful make = (cmp : Comparison) → IsStrictWeak cmp → IsPriorityQueue cmp (make cmp)
