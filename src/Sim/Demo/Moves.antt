-- ===== src/Sim/Demo/Moves.antt =====
-- The steps of a round of the demos keep each process in its place, and the resource.
use memory_allocator.Base.{
  ℕ, ◌+◌, ◌≤◌, ◌<◌, ◌≡◌, ◌≢◌, refl, sym, ap, subst, ◌∙◌, if◌then◌else◌, Bool, true, false, Option,
  none, some, List, [], ◌∷◌, ◌++◌, get_elem?, set, arith,
}
use memory_allocator.Base.Count.{count}
use memory_allocator.Sched.Process.{State, new, ready, running, waiting, terminated, Process}
use memory_allocator.Sched.RoundRobin.{RoundRobin}
use memory_allocator.Sched.RoundRobin
use memory_allocator.Sim.Scheduling.{is_new}
use memory_allocator.Sim.Scheduling.Places.{one, one_self, one_other, released, waits}
use memory_allocator.Sim.Scheduling.Keepers.{count-snoc}
use memory_allocator.Sim.Demo.{
  Resource, Demo, enqueue, admitted, finish, leave, preempt, picked, schedule, running_process,
}
use memory_allocator.Sim.Demo.Places.{
  fresh, live, phase_of_state, phase_of, phases, IsKept, Agree, held-Agree, Fits, IsPlaced,
  IsPlaced-eq, moved-IsPlaced, set-IsPlaced, phases-set, put-same, held, IsValid,
}

fresh-Agree : (s : State) → phase_of_state s ≡ fresh → Agree s 0 1
fresh-Agree new e = (refl, omega arith)
fresh-Agree ready e = ground (arith, e)
fresh-Agree running e = ground (arith, e)
fresh-Agree waiting e = ground (arith, e)
fresh-Agree terminated e = ground (arith, e)

pub new-Agree :
    (s : State) (h w : ℕ) → is_new s ≡ true → Agree s h w → (phase_of_state s ≡ fresh) × (h ≡ 0)
new-Agree new h w e a = (refl, a.0)
new-Agree ready h w e a = ground (arith, e)
new-Agree running h w e a = ground (arith, e)
new-Agree waiting h w e a = ground (arith, e)
new-Agree terminated h w e a = ground (arith, e)

module _ {R : Type 0} {resource : Resource R} (kept : IsKept resource) (tick : ℕ) where
  pub place_of :
      (m : Demo R) (io mem lim : ℕ → ℕ) (i : ℕ) (p : Process)
      → get_elem? m.procs i ≡ some p
      → IsValid kept tick io mem lim m
      → Fits (held m i + io i) (count i m.mem_wait + mem i) (lim i) (some p)
  unfolding IsPlaced
  place_of m io mem lim i p e v =
      subst (Fits (held m i + io i) (count i m.mem_wait + mem i) (lim i)) e (v.placed i)

  -- What a process that is held has.
  pub its_place :
      (m : Demo R) (io mem lim : ℕ → ℕ) (i : ℕ) (p : Process)
      → get_elem? m.procs i ≡ some p
      → 0 < held m i + io i
      → IsValid kept tick io mem lim m
      → (phase_of_state p.state ≡ live)
        × (held m i + io i ≡ 1)
        × (count i m.mem_wait + mem i ≡ 0)
        × Agree p.state (held m i + io i) (count i m.mem_wait + mem i)
  its_place m io mem lim i p e l v =
      let (a, early) = place_of m io mem lim i p e v in
      let (x, y, z) = held-Agree p.state (held m i + io i) (count i m.mem_wait + mem i) l a in
      (x, y, z, a)

  -- An index that is held is in range.
  pub in_range :
      (m : Demo R) (io mem lim : ℕ → ℕ) (i : ℕ)
      → get_elem? m.procs i ≡ none
      → IsValid kept tick io mem lim m
      → (held m i + io i ≡ 0) × (count i m.mem_wait + mem i ≡ 0)
  unfolding IsPlaced
  in_range m io mem lim i e v =
      subst (Fits (held m i + io i) (count i m.mem_wait + mem i) (lim i)) e (v.placed i)

  -- The phases after a change that keeps the phase.
  pub same_phases :
      (m : Demo R) (r : R) (i : ℕ) (p q : Process)
      → get_elem? m.procs i ≡ some p
      → phase_of_state q.state ≡ phase_of_state p.state
      → kept.Holds r (phases m.procs)
      → kept.Holds r (phases (set m.procs i q))
  same_phases m r i p q e f h =
      let here : phases m.procs i ≡ phase_of_state q.state = ap phase_of e ∙ sym f in
      subst (kept.Holds r)
        (sym
          (phases-set m.procs i p q e ∙ put-same (phases m.procs) i (phase_of_state q.state) here))
        h

  -- A process that is not held and has just been looked at is admitted or waits for memory.
  pub admitted-IsValid :
      (m : Demo R) (io mem mem' lim lim' : ℕ → ℕ) (i : ℕ) (p : Process) (o : Option R)
      → IsValid kept tick io mem lim m
      → get_elem? m.procs i ≡ some p
      → resource.admit m.resource i ≡ o
      → phase_of_state p.state ≡ fresh
      → held m i + io i ≡ 0
      → count i m.mem_wait + mem' i ≡ 0
      → p.arrival < lim' i
      → ((j : ℕ) → j ≢ i → (mem' j ≡ mem j) × (lim j ≤ lim' j))
      → IsValid kept tick io mem' lim' (admitted resource m i p o)
  unfolding admitted enqueue RoundRobin.add
  admitted-IsValid m io mem mem' lim lim' i p none v e f state h w early others =
      let grown : count i (m.mem_wait ++ i ∷ []) + mem' i ≡ 1 =
        omega (arith, count-snoc m.mem_wait i i, one_self i, w) in
      record {
        tick_is = v.tick_is;
        placed =
            moved-IsPlaced (λ j. held m j + io j) (λ j. count j m.mem_wait + mem j) lim
              (λ j. held m j + io j) (λ j. count j (m.mem_wait ++ i ∷ []) + mem' j) lim' m.procs
              v.placed i
              (λ j ne.
                let (x, y) = others j ne in
                (refl, omega (arith, count-snoc m.mem_wait i j, one_other i j ne, x), y))
              (subst (Fits (held m i + io i) (count i (m.mem_wait ++ i ∷ []) + mem' i) (lim' i))
                (sym e)
                (
                  subst (λ n. Agree p.state n (count i (m.mem_wait ++ i ∷ []) + mem' i)) (sym h)
                      (subst (λ n. Agree p.state 0 n) (sym grown) (fresh-Agree p.state state)),
                  λ l. early,
                ));
        holds = v.holds;
      }
  admitted-IsValid m io mem mem' lim lim' i p (some r) v e f state h w early others =
      let q = record p { state = ready } in
      record {
        tick_is = v.tick_is;
        placed =
            set-IsPlaced (λ j. held m j + io j) (λ j. count j m.mem_wait + mem j) lim
              (λ j.
                count j (m.sched.queue ++ i ∷ []) + released m.running j + waits m.io_wait j + io j)
              (λ j. count j m.mem_wait + mem' j) lim' m.procs v.placed i
              (λ j ne.
                let (x, y) = others j ne in
                (
                  omega (arith, count-snoc m.sched.queue i j, one_other i j ne),
                  ap (λ n. count j m.mem_wait + n) x,
                  y,
                ))
              p q e ((omega (arith, count-snoc m.sched.queue i i, one_self i, h), w), λ l. early);
        holds =
            subst (kept.Holds r) (sym (phases-set m.procs i p q e))
              (kept.admits m.resource r (phases m.procs) i v.holds (ap phase_of e ∙ state) f);
      }

  -- A held process changes to `q`, in a state `n` that holds the other indices as often.
  pub changed-IsValid :
      (m n : Demo R) (io io' mem lim : ℕ → ℕ) (i : ℕ) (p q : Process)
      → IsValid kept tick io mem lim m
      → get_elem? m.procs i ≡ some p
      → 0 < held m i + io i
      → n.tick ≡ m.tick
      → n.procs ≡ set m.procs i q
      → n.mem_wait ≡ m.mem_wait
      → ((j : ℕ) → j ≢ i → held n j + io' j ≡ held m j + io j)
      → Agree q.state (held n i + io' i) 0
      → kept.Holds n.resource (phases (set m.procs i q))
      → IsValid kept tick io' mem lim n
  changed-IsValid m n io io' mem lim i p q v e l t procs waiting_is others a h =
      let (state, once, none_waits, agree) = its_place m io mem lim i p e l v in
      let mem_is : count i n.mem_wait + mem i ≡ 0 =
        ap (λ x. count i x + mem i) waiting_is ∙ none_waits in
      record {
        tick_is = t ∙ v.tick_is;
        placed =
            subst (IsPlaced (λ j. held n j + io' j) (λ j. count j n.mem_wait + mem j) lim)
              (sym procs)
              (set-IsPlaced (λ j. held m j + io j) (λ j. count j m.mem_wait + mem j) lim
                (λ j. held n j + io' j) (λ j. count j n.mem_wait + mem j) lim m.procs v.placed i
                (λ j ne. (others j ne, ap (λ x. count j x + mem j) waiting_is, omega arith)) p q e
                (
                  subst (Agree q.state (held n i + io' i)) (sym mem_is) a,
                  λ x. absurd (omega (arith, x, mem_is)),
                ));
        holds = subst (λ x. kept.Holds n.resource (phases x)) (sym procs) h;
      }

  -- It becomes ready, from the CPU or from the I/O that it waited for.
  pub ready-IsValid :
      (m : Demo R) (r : Option ℕ) (ran : ℕ) (io io' mem lim : ℕ → ℕ) (i : ℕ) (p q : Process)
      → IsValid kept tick io mem lim m
      → get_elem? m.procs i ≡ some p
      → 0 < held m i + io i
      → ((j : ℕ) → released r j + io' j + one i j ≡ released m.running j + io j)
      → IsValid kept tick io' mem lim (record (enqueue resource m i q) { running = r; ran = ran })
  unfolding enqueue RoundRobin.add
  ready-IsValid m r ran io io' mem lim i p q v e l counts =
      let (state, once, none_waits, agree) = its_place m io mem lim i p e l v in
      let n = record (enqueue resource m i q) { running = r; ran = ran } in
      changed-IsValid m n io io' mem lim i p (record q { state = ready }) v e l refl refl refl
        (λ j ne. omega (arith, count-snoc m.sched.queue i j, counts j))
        (omega (arith, count-snoc m.sched.queue i i, counts i, once), refl)
        (same_phases m m.resource i p (record q { state = ready }) e (sym state) v.holds)

  -- It ends.
  pub finish-IsValid :
      (m : Demo R) (r : Option ℕ) (ran : ℕ) (io io' mem lim : ℕ → ℕ) (i : ℕ) (p q : Process)
      → IsValid kept tick io mem lim m
      → get_elem? m.procs i ≡ some p
      → 0 < held m i + io i
      → ((j : ℕ) → released r j + io' j + one i j ≡ released m.running j + io j)
      → IsValid kept tick io' mem lim (record (finish resource m i q) { running = r; ran = ran })
  unfolding finish
  finish-IsValid m r ran io io' mem lim i p q v e l counts =
      let (state, once, none_waits, agree) = its_place m io mem lim i p e l v in
      let done = record q { state = terminated } in
      let n = record (finish resource m i q) { running = r; ran = ran } in
      changed-IsValid m n io io' mem lim i p done v e l refl refl refl
        (λ j ne. omega (arith, counts j, one_other i j ne))
        (omega (arith, counts i, one_self i, once), refl)
        (subst (kept.Holds (resource.release m.resource i)) (sym (phases-set m.procs i p done e))
          (kept.releases m.resource (phases m.procs) i v.holds (ap phase_of e ∙ state)))

  pub IsValid-if :
      (io mem lim : ℕ → ℕ) (b : Bool) (m n : Demo R)
      → IsValid kept tick io mem lim m
      → IsValid kept tick io mem lim n
      → IsValid kept tick io mem lim (if b then m else n)
  IsValid-if io mem lim true m n x y = x
  IsValid-if io mem lim false m n x y = y

  pub preempt-IsValid :
      (m : Demo R) (mem lim : ℕ → ℕ) (r : Option ℕ) (o : Option Process)
      → m.running ≡ r
      → running_process resource m r ≡ o
      → IsValid kept tick (λ j. 0) mem lim m
      → IsValid kept tick (λ j. 0) mem lim (preempt resource m r o)
  unfolding preempt
  preempt-IsValid m mem lim none o e f v = v
  preempt-IsValid m mem lim (some i) none e f v = v
  preempt-IsValid m mem lim (some i) (some p) e f v =
      let runs : (j : ℕ) → released m.running j ≡ one i j = λ j. ap (λ x. released x j) e in
      IsValid-if (λ j. 0) mem lim (RoundRobin.should_preempt m.sched i m.ran)
        (leave resource (enqueue resource m i p)) m
        (ready-IsValid m none 0 (λ j. 0) (λ j. 0) mem lim i p p v f
          (omega (arith, runs i, one_self i)) (λ j. omega (arith, runs j)))
        v

  picked-IsValid :
      (m : Demo R) (mem lim : ℕ → ℕ) (l : List ℕ)
      → m.sched.queue ≡ l
      → m.running ≡ none
      → IsValid kept tick (λ j. 0) mem lim m
      → IsValid kept tick (λ j. 0) mem lim (picked resource m (RoundRobin.pop m.sched.quantum l))
  picked-IsValid m mem lim [] e f v = record {
    tick_is = v.tick_is;
    placed =
        IsPlaced-eq (λ j. held m j + 0) (λ j. count j m.mem_wait + mem j) lim
          (λ j. 0 + released m.running j + waits m.io_wait j + 0) (λ j. count j m.mem_wait + mem j)
          lim m.procs v.placed
          (λ j.
            let queue : count j m.sched.queue ≡ 0 = ap (count j) e in
            (omega (arith, queue), refl, omega arith));
    holds = v.holds;
  }
  picked-IsValid m mem lim (i ∷ l) e f v = record {
    tick_is = v.tick_is;
    placed =
        IsPlaced-eq (λ j. held m j + 0) (λ j. count j m.mem_wait + mem j) lim
          (λ j. count j l + one i j + waits m.io_wait j + 0) (λ j. count j m.mem_wait + mem j) lim
          m.procs v.placed
          (λ j.
            let queue : count j m.sched.queue ≡ one i j + count j l = ap (count j) e in
            let idle : released m.running j ≡ 0 = ap (λ x. released x j) f in
            (omega (arith, queue, idle), refl, omega arith));
    holds = v.holds;
  }

  pub schedule-IsValid :
      (m : Demo R) (mem lim : ℕ → ℕ) (r : Option ℕ)
      → m.running ≡ r
      → IsValid kept tick (λ j. 0) mem lim m
      → IsValid kept tick (λ j. 0) mem lim (schedule resource m r)
  unfolding schedule RoundRobin.pick_next
  schedule-IsValid m mem lim none e v = picked-IsValid m mem lim m.sched.queue refl e v
  schedule-IsValid m mem lim (some i) e v = v
