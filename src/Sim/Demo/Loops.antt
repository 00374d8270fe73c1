-- ===== src/Sim/Demo/Loops.antt =====
-- The loops of a round of the demos, over arrivals, completions and retries.
use memory_allocator.Base.{
  ℕ, zero, suc, ◌+◌, ◌≡◌, refl, sym, subst, ltb, ◌==◌, ◌&&◌, if◌then◌else◌, Bool, true, false,
  Bool-cases, inl, inr, Option, none, some, List, [], ◌∷◌, ◌++◌, get_elem?, arith,
}
use memory_allocator.Base.Count.{count}
use memory_allocator.Sched.Process.{Process, sub32, advance_burst, current_burst}
use memory_allocator.Sim.Scheduling.{is_new}
use memory_allocator.Sim.Scheduling.Places.{one_self, one_other, waits, waits-snoc}
use memory_allocator.Sim.Demo.{
  Resource, Demo, admitted, arrive, arrivals, load, after_io, complete, completions, retry_one,
  retries,
}
use memory_allocator.Sim.Demo.Places.{IsKept, waits-Agree, IsPlaced-eq, held, IsValid}
use memory_allocator.Sim.Demo.Moves.{
  new-Agree, place_of, in_range, admitted-IsValid, ready-IsValid, finish-IsValid, IsValid-if,
}

module _ {R : Type 0} {resource : Resource R} (kept : IsKept resource) (tick : ℕ) where
  -- The ticks before which a process that waits for memory has arrived, when those before `i` were
  -- looked at.
  abbrev lims : ℕ → ℕ → ℕ
  lims i j = if ltb j i then suc tick else tick

  arrive-IsValid :
      (m : Demo R) (i : ℕ) (o : Option Process)
      → get_elem? m.procs i ≡ o
      → IsValid kept tick (λ j. 0) (λ j. 0) (lims i) m
      → IsValid kept tick (λ j. 0) (λ j. 0) (lims (suc i)) (arrive resource m i o)
  unfolding arrive
  arrive-IsValid m i o e v = looked o e
    where
      wider : IsValid kept tick (λ j. 0) (λ j. 0) (lims (suc i)) m
      wider = record {
        tick_is = v.tick_is;
        placed =
            IsPlaced-eq (λ j. held m j + 0) (λ j. count j m.mem_wait + 0) (lims i)
              (λ j. held m j + 0) (λ j. count j m.mem_wait + 0) (lims (suc i)) m.procs v.placed
              (λ j. (refl, refl, ground arith));
        holds = v.holds;
      }

      arrives :
          (p : Process)
          → get_elem? m.procs i ≡ some p
          → (is_new p.state && p.arrival == m.tick) ≡ true
          → IsValid kept tick
              (λ j. 0)
              (λ j. 0)
              (lims (suc i))
              (admitted resource m i p (resource.admit m.resource i))
      arrives p e now =
          let (agree, early) = place_of kept tick m (λ j. 0) (λ j. 0) (lims i) i p e v in
          let (phase, h) =
            new-Agree p.state (held m i + 0) (count i m.mem_wait + 0) (ground (arith, now)) agree in
          let here = v.tick_is in
          let at : p.arrival ≡ tick = ground (arith, now, here) in
          let late : lims i i ≡ tick = ground arith in
          let w : count i m.mem_wait + 0 ≡ 0 = ground (arith, early, at, late) in
          admitted-IsValid kept tick m (λ j. 0) (λ j. 0) (λ j. 0) (lims i) (lims (suc i)) i p
            (resource.admit m.resource i) v e refl phase h w (ground (arith, at))
            (λ j ne. (refl, ground arith))

      looked :
          (o : Option Process)
          → get_elem? m.procs i ≡ o
          → IsValid kept tick (λ j. 0) (λ j. 0) (lims (suc i)) (arrive resource m i o)
      looked none e = wider
      looked (some p) e = elim (Bool-cases (is_new p.state && p.arrival == m.tick)) [
        | inr later ↦
            subst
              (λ b.
                IsValid kept tick (λ j. 0) (λ j. 0) (lims (suc i))
                  (if b then admitted resource m i p (resource.admit m.resource i) else m))
              (sym later) wider
        | inl now ↦
            subst
              (λ b.
                IsValid kept tick (λ j. 0) (λ j. 0) (lims (suc i))
                  (if b then admitted resource m i p (resource.admit m.resource i) else m))
              (sym now) (arrives p e now)
      ]

  pub arrivals-IsValid :
      (left i : ℕ) (m : Demo R)
      → IsValid kept tick (λ j. 0) (λ j. 0) (lims i) m
      → IsValid kept tick (λ j. 0) (λ j. 0) (lims (i + left)) (arrivals resource left i m)
  unfolding arrivals
  arrivals-IsValid zero i m v =
      subst (λ k. IsValid kept tick (λ j. 0) (λ j. 0) (lims k) m) (omega arith) v
  arrivals-IsValid (suc left) i m v =
      let n = arrive resource m i (get_elem? m.procs i) in
      subst (λ k. IsValid kept tick (λ j. 0) (λ j. 0) (lims k) (arrivals resource left (suc i) n))
        (omega arith)
        (arrivals-IsValid left (suc i) n (arrive-IsValid m i (get_elem? m.procs i) refl v))

  module _ (mem lim : ℕ → ℕ) where
    complete-IsValid :
        (m : Demo R) (i left : ℕ) (l : List (ℕ × ℕ)) (o : Option Process)
        → get_elem? m.procs i ≡ o
        → IsValid kept tick (waits ((i, left) ∷ l)) mem lim m
        → IsValid kept tick (waits l) mem lim (complete resource m i o)
    unfolding complete after_io
    complete-IsValid m i left l none e v =
        let (h, w) = in_range kept tick m (waits ((i, left) ∷ l)) mem lim i e v in
        absurd (omega (arith, h, one_self i))
    complete-IsValid m i left l (some p) e v = after (advance_burst p)
      where
        after : (a : Bool × Process) → IsValid kept tick (waits l) mem lim (after_io resource m i a)
        after (true, q) =
            ready-IsValid kept tick m m.running m.ran (waits ((i, left) ∷ l)) (waits l) mem lim i p
              (load resource q (current_burst q)) v e (omega (arith, one_self i)) (λ j. omega arith)
        after (false, q) =
            finish-IsValid kept tick m m.running m.ran (waits ((i, left) ∷ l)) (waits l) mem lim i p
              q v e (omega (arith, one_self i)) (λ j. omega arith)

    pub completions-IsValid :
        (l : List (ℕ × ℕ)) (m : Demo R)
        → IsValid kept tick (waits l) mem lim m
        → IsValid kept tick (λ j. 0) mem lim (completions resource l m)
    unfolding completions
    completions-IsValid [] m v = v
    completions-IsValid ((i, ticks) ∷ l) m v =
        let left = sub32 ticks 1 in
        let stays = record m { io_wait = m.io_wait ++ (i, left) ∷ [] } in
        completions-IsValid l
          (if left == 0 then complete resource m i (get_elem? m.procs i) else stays)
          (IsValid-if kept tick (waits l) mem lim (left == 0)
            (complete resource m i (get_elem? m.procs i)) stays
            (complete-IsValid m i ticks l (get_elem? m.procs i) refl v)
            (record {
              tick_is = v.tick_is;
              placed =
                  IsPlaced-eq (λ j. held m j + waits ((i, ticks) ∷ l) j)
                    (λ j. count j m.mem_wait + mem j) lim (λ j. held stays j + waits l j)
                    (λ j. count j m.mem_wait + mem j) lim m.procs v.placed
                    (λ j. (omega (arith, waits-snoc m.io_wait i left j), refl, omega arith));
              holds = v.holds;
            }))

  retry_one-IsValid :
      (m : Demo R) (i : ℕ) (l : List ℕ) (o : Option Process)
      → get_elem? m.procs i ≡ o
      → IsValid kept tick (λ j. 0) (λ j. count j (i ∷ l)) (λ j. suc tick) m
      → IsValid kept tick (λ j. 0) (λ j. count j l) (λ j. suc tick) (retry_one resource m i o)
  unfolding retry_one
  retry_one-IsValid m i l none e v =
      let (h, w) = in_range kept tick m (λ j. 0) (λ j. count j (i ∷ l)) (λ j. suc tick) i e v in
      absurd (omega (arith, w, one_self i))
  retry_one-IsValid m i l (some p) e v =
      let (agree, early) =
        place_of kept tick m (λ j. 0) (λ j. count j (i ∷ l)) (λ j. suc tick) i p e v in
      let (phase, h, w) =
        waits-Agree p.state (held m i + 0) (count i m.mem_wait + count i (i ∷ l))
          (omega (arith, one_self i)) agree in
      admitted-IsValid kept tick m (λ j. 0) (λ j. count j (i ∷ l)) (λ j. count j l) (λ j. suc tick)
        (λ j. suc tick) i p (resource.admit m.resource i) v e refl phase h
        (omega (arith, w, one_self i)) (early (omega (arith, one_self i)))
        (λ j ne. (omega (arith, one_other i j ne), omega arith))

  pub retries-IsValid :
      (l : List ℕ) (m : Demo R)
      → IsValid kept tick (λ j. 0) (λ j. count j l) (λ j. suc tick) m
      → IsValid kept tick (λ j. 0) (λ j. 0) (λ j. suc tick) (retries resource l m)
  unfolding retries
  retries-IsValid [] m v = v
  retries-IsValid (i ∷ l) m v =
      retries-IsValid l (retry_one resource m i (get_elem? m.procs i))
        (retry_one-IsValid m i l (get_elem? m.procs i) refl v)
