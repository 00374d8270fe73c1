-- ===== src/Sim/Scheduling/Fifo.antt =====
-- In the simulation MLFQ is round robin, since the simulation calls only `add`, `pick_next` and
-- `should_preempt` of a policy.
use memory_allocator.Base.{
  ℕ, zero, suc, ◌*◌, ◌%◌, ◌^◌, ◌<◌, ◌≡◌, refl, sym, ap, ap₂, ◌∙◌, fun_ext, leb, some, List, [], ◌∷◌,
  ◌++◌, arith,
}
use memory_allocator.Sched.Process.{Process}
use memory_allocator.Sched.Policy.{Scheduler, pick_front}
use memory_allocator.Sched.Mlfq.{Mlfq, update}
use memory_allocator.Sched.Mlfq
use memory_allocator.Sched.RoundRobin.{RoundRobin}
use memory_allocator.Sched.RoundRobin
use memory_allocator.Sched.RoundRobin.Turns.{round_robin}
use memory_allocator.Sim.Scheduling.{blind, Simulation, simulate}
use memory_allocator.Sim.Scheduling.Images.{IsMap, image, simulate-image}

-- First in, first out, with a quantum.
abbrev pub fifo : ℕ → Scheduler (List ℕ)
fifo quantum = record {
  add = λ l p. l ++ p ∷ [];
  pick_next = pick_front;
  should_preempt = λ l p ran. leb quantum ran;
}

abbrev pub mlfq : Scheduler Mlfq
mlfq = record { add = Mlfq.add; pick_next = Mlfq.pick_next; should_preempt = Mlfq.should_preempt }

abbrev round_robin_of : ℕ → List ℕ → RoundRobin
round_robin_of quantum l = record { queue = l; quantum = quantum }

pop-pick_front :
    (quantum : ℕ) (l : List ℕ)
    → RoundRobin.pop quantum l ≡ ((pick_front l).0, round_robin_of quantum (pick_front l).1)
pop-pick_front quantum [] = refl
pop-pick_front quantum (p ∷ l) = refl

round_robin-IsMap :
    (quantum : ℕ) → IsMap (blind (fifo quantum)) (blind round_robin) (round_robin_of quantum)
unfolding RoundRobin.add RoundRobin.pick_next RoundRobin.should_preempt
round_robin-IsMap quantum = record {
  adds = λ l i x. refl;
  picks = λ l. pop-pick_front quantum l;
  preempts = λ l i x n. refl;
}

abbrev nobody : ℕ → List ℕ
nobody q = []

-- All processes are at level 0.
abbrev mlfq_of : ℕ → ℕ → List ℕ → Mlfq
mlfq_of quantum boost l = record {
  quantum_base = quantum;
  boost_interval = boost;
  queues = update (λ q. []) 0 l;
  level = λ p. 0;
}

update-update :
    (l k : List ℕ) (j : ℕ) → update (update (λ q. []) 0 l) 0 k j ≡ update (λ q. []) 0 k j
update-update l k zero = refl
update-update l k (suc j) = ground arith

abbrev zeros : ℕ → ℕ
zeros j = 0

update-constant : (p j : ℕ) → update zeros p 0 j ≡ zeros j
update-constant p j = ground arith

add-mlfq_of :
    (quantum boost : ℕ) (l : List ℕ) (p : ℕ)
    → Mlfq.add (mlfq_of quantum boost l) p ≡ mlfq_of quantum boost (l ++ p ∷ [])
unfolding Mlfq.add
add-mlfq_of quantum boost l p =
    ap₂ (λ q v. record { quantum_base = quantum; boost_interval = boost; queues = q; level = v })
      (fun_ext (update-update l (l ++ p ∷ []))) (fun_ext (update-constant p))

pick_next-mlfq_of :
    (quantum boost : ℕ) (l : List ℕ)
    → Mlfq.pick_next (mlfq_of quantum boost l)
      ≡ ((pick_front l).0, mlfq_of quantum boost (pick_front l).1)
unfolding Mlfq.pick_next Mlfq.pick_from
pick_next-mlfq_of quantum boost [] = refl
pick_next-mlfq_of quantum boost (p ∷ l) =
    ap
      (λ q. (
        some p,
        record { quantum_base = quantum; boost_interval = boost; queues = q; level = λ x. 0 },
      ))
      (fun_ext (update-update (p ∷ l) l))

mlfq-IsMap :
    (quantum boost : ℕ)
    → quantum < 2 ^ 32
    → IsMap (blind (fifo quantum)) (blind mlfq) (mlfq_of quantum boost)
unfolding Mlfq.should_preempt Mlfq.quantum_for
mlfq-IsMap quantum boost bound = record {
  adds = λ l i x. add-mlfq_of quantum boost l i;
  picks = λ l. pick_next-mlfq_of quantum boost l;
  preempts = λ l i x n.
      let whole : (quantum * 2 ^ 0) % 2 ^ 32 ≡ quantum = omega (arith, bound) in
      ap (λ q. leb q n) whole;
}

construct-mlfq_of : (quantum boost : ℕ) → mlfq_of quantum boost [] ≡ Mlfq.construct quantum boost
unfolding Mlfq.construct
construct-mlfq_of quantum boost =
    ap (λ q. record { quantum_base = quantum; boost_interval = boost; queues = q; level = λ x. 0 })
      (fun_ext empty)
  where
    empty : (j : ℕ) → update nobody 0 [] j ≡ nobody j
    empty j = ground arith

-- What a simulation comes to, without the state of the policy.
abbrev pub without_policy : {S : Type 0} → Simulation S → Simulation Unit
without_policy m = image (λ s. tt) m

-- For a quantum of 32 bits, any cost of a context switch and any processes: the simulation with
-- MLFQ, whatever its boost interval, ends with the same processes, ticks, totals and queues of
-- waiting and running processes as the simulation with round robin of that quantum.
pub mlfq_is_round_robin :
    (quantum boost cost : ℕ) (procs : List Process)
    → quantum < 2 ^ 32
    → without_policy (simulate (blind mlfq) cost (Mlfq.construct quantum boost) procs)
      ≡ without_policy (simulate (blind round_robin) cost (RoundRobin.construct quantum) procs)
unfolding RoundRobin.construct
mlfq_is_round_robin quantum boost cost procs bound =
    ap (λ s. without_policy (simulate (blind mlfq) cost s procs))
      (sym (construct-mlfq_of quantum boost))
    ∙ ap without_policy (
        simulate-image (blind (fifo quantum)) (blind mlfq) (mlfq_of quantum boost)
          (mlfq-IsMap quantum boost bound) cost [] procs)
    ∙ sym (
        ap without_policy (
          simulate-image (blind (fifo quantum)) (blind round_robin) (round_robin_of quantum)
            (round_robin-IsMap quantum) cost [] procs))
