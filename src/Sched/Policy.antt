-- ===== src/Sched/Policy.antt =====
-- memlab/include/memlab/sched/scheduler.hpp, IScheduler: the interface of the policies that read
-- nothing of a process. A process is its pid.
pub mod Order
use memory_allocator.Base.{ℕ, Bool, Option, none, some, List, [], ◌∷◌, ◌++◌, ◌≡◌}

pub record Scheduler (S : Type 0) : Type 0 where
  pub add : S → ℕ → S
  pub pick_next : S → Option ℕ × S
  pub should_preempt : S → ℕ → ℕ → Bool

-- The default of the interface.
abbrev pub on_unblock : {S : Type 0} → Scheduler S → S → ℕ → S
on_unblock sched s p = sched.add s p

-- What a pick of the process in front of a list does to the list.
abbrev pub pick_front : List ℕ → Option ℕ × List ℕ
pick_front [] = (none, [])
pick_front (p ∷ rest) = (some p, rest)

-- A policy that serves in order of arrival: its state holds a list of waiting processes, `add`
-- puts a process behind them and `pick_next` takes the one in front.
pub record IsInOrder {S : Type 0} (sched : Scheduler S) : Type 0 where
  pub waiting : S → List ℕ
  pub adds_behind : (s : S) (p : ℕ) → waiting (sched.add s p) ≡ waiting s ++ p ∷ []
  pub picks_front :
      (s : S)
      → ((sched.pick_next s).0 ≡ (pick_front (waiting s)).0)
        × (waiting (sched.pick_next s).1 ≡ (pick_front (waiting s)).1)
