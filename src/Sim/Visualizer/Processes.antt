-- ===== src/Sim/Visualizer/Processes.antt =====
-- The demo of the visualizer as a whole: what processes that end leave, and the run.
use memory_allocator.Base.{
  ℕ, ◌+◌, ◌<◌, ◌≡◌, ◌≢◌, ◌↔◌, refl, sym, ap, subst, ◌∙◌, ltb, lt→ltb, ◌==◌, ==→eq, ==→ne, ne→==,
  if◌then◌else◌, ◌&&◌, Bool, true, false, Bool-cases, inl, inr, Option, none, some, List, All,
  arith,
}
use memory_allocator.Sched.Process.{new, Process}
use memory_allocator.Sim.Demo.{over}
use memory_allocator.Sim.Scheduling.{all_done}
use memory_allocator.Sim.Demo.Places.{
  all_done-ended, Phase, fresh, live, ended, phases, put, IsKept,
}
use memory_allocator.Sim.Demo.Rounds.{run-IsSound}
use memory_allocator.Sim.Visualizer.{
  num_frames, Memory, Machine, is_pid, unless, free_frames, invalidate_tlb_for_pid, exit_process,
  translate, accessed, access, target_vpn, resource, construct, main,
}
use memory_allocator.Sim.Visualizer.Coherence.{
  Owns, Tells, IsCoherent, NothingHidden, All-map, is_pid_self, unless-Tells, construct-IsCoherent,
}
use memory_allocator.Sim.Visualizer.Access.{Gives, translate-Gives}

-- A pid whose process has not ended.
abbrev pub AliveIn : (ℕ → Phase) → ℕ → Type 0
AliveIn ph pid = (i : ℕ) × (pid ≡ i + 1) × (ph i ≢ ended)

module _ (alive alive' : ℕ → Type 0) (pid : ℕ) where
  not_pid : (o : Option ℕ) (p : ℕ) → o ≡ some p → is_pid o pid ≡ false → p ≢ pid
  not_pid o p e h same =
      ground (arith, sym h ∙ ap (λ x. is_pid x pid) (e ∙ ap some same) ∙ is_pid_self pid)

  is_pid-other : (o : Option ℕ) (p : ℕ) → o ≡ some p → p ≢ pid → is_pid o pid ≡ false
  is_pid-other o p e h = ap (λ x. is_pid x pid) e ∙ ne→== p pid h

  freed :
      (b : Bool) {p : ℕ} (o : Option ℕ)
      → (if b then none else o) ≡ some p
      → (b ≡ false) × (o ≡ some p)
  freed true o e = ground (arith, e)
  freed false o e = (refl, e)

  -- A process ends.
  exit-IsCoherent :
      (vm : Memory)
      → ((p : ℕ) → alive' p → alive p × (p ≢ pid))
      → ((p : ℕ) → alive p → p ≢ pid → alive' p)
      → IsCoherent alive vm
      → IsCoherent alive' (exit_process vm pid)
  unfolding exit_process free_frames invalidate_tlb_for_pid
  exit-IsCoherent vm back forth c = record {
    cached =
        All-map (Tells vm NothingHidden) (Tells after NothingHidden)
          (λ x. unless (is_pid x.pid pid) x) vm.tlb
          (λ x.
            unless-Tells vm after NothingHidden NothingHidden (is_pid x.pid pid) x
              (λ p other is o seen. (keeps p x.vpn x.pfn (not_pid x.pid p is other) o, seen)))
          c.cached;
    mapped = λ p v page a x valid.
        let (before, other) = back p a in
        (keeps p v page.pfn other (c.mapped p v page before x valid).0, λ z. z);
    owned = λ f p o.
        let (left, was) =
          freed (ltb f num_frames && is_pid (vm.frame_owner f) pid) (vm.frame_owner f) o in
        let (inside, a) = c.owned f p was in
        (inside, forth p a (not_pid (vm.frame_owner f) p was (its_owner f inside left)));
    queued = λ f p h o.
        c.queued f p h
          (freed (ltb f num_frames && is_pid (vm.frame_owner f) pid) (vm.frame_owner f) o).1;
    in_range = c.in_range;
  }
    where
      after : Memory
      after = exit_process vm pid

      its_owner :
          (f : ℕ)
          → f < num_frames
          → (ltb f num_frames && is_pid (vm.frame_owner f) pid) ≡ false
          → is_pid (vm.frame_owner f) pid ≡ false
      its_owner f l e =
          ap (λ b. b && is_pid (vm.frame_owner f) pid) (sym (lt→ltb f num_frames l)) ∙ e

      stays : (b c : Bool) (x : Option ℕ) → c ≡ false → (if b && c then none else x) ≡ x
      stays true c x e = ap (λ d. if d then none else x) e
      stays false c x e = refl

      keeps : (p v f : ℕ) → p ≢ pid → Owns vm p v f → Owns after p v f
      keeps p v f h o = (
        stays (ltb f num_frames) (is_pid (vm.frame_owner f) pid) (vm.frame_owner f)
              (is_pid-other (vm.frame_owner f) p o.0 h)
            ∙ o.0,
        o.1,
      )

put-ended : (ph : ℕ → Phase) (i j : ℕ) → put ph i ended j ≢ ended → (ph j ≢ ended) × (j ≢ i)
put-ended ph i j h = elim (Bool-cases (j == i)) [
  | inl same ↦ absurd (h (ap (λ b. if b then ended else ph j) same))
  | inr other ↦ (λ e. h (ap (λ b. if b then ended else ph j) other ∙ e), ==→ne j i other)
]

put-other : (ph : ℕ → Phase) (i j : ℕ) (x : Phase) → j ≢ i → put ph i x j ≡ ph j
put-other ph i j x h = ap (λ b. if b then x else ph j) (ne→== j i h)

same-IsCoherent :
    (alive alive' : ℕ → Type 0) (vm : Memory)
    → ((p : ℕ) → alive' p → alive p)
    → ((p : ℕ) → alive p → alive' p)
    → IsCoherent alive vm
    → IsCoherent alive' vm
same-IsCoherent alive alive' vm back forth c = record {
  cached = c.cached;
  mapped = λ p v page a. c.mapped p v page (back p a);
  owned = λ f p o. ((c.owned f p o).0, forth p (c.owned f p o).1);
  queued = c.queued;
  in_range = c.in_range;
}

-- A process that is admitted had not ended before.
put-live : (ph : ℕ → Phase) (i j : ℕ) → ph i ≡ fresh → (put ph i live j ≢ ended) ↔ (ph j ≢ ended)
put-live ph i j e = elim (Bool-cases (j == i)) [
  | inl same ↦
      let at : ph j ≡ fresh = ap ph (==→eq j i same) ∙ e in
      (
        λ h x. ground (arith, sym at ∙ x),
        λ h x. ground (arith, sym (ap (λ b. if b then live else ph j) same) ∙ x),
      )
  | inr other ↦
      let at = put-other ph i j live (==→ne j i other) in (λ h x. h (at ∙ x), λ h x. h (sym at ∙ x))
]

module _ (draw : ℕ → ℕ) where
  accessed-IsCoherent :
      (alive : ℕ → Type 0) (m : Machine) (pid vpn : ℕ) (r : Option (ℕ × Memory))
      → Gives alive pid vpn r
      → IsCoherent alive (accessed draw m r).vm
  accessed-IsCoherent alive m pid vpn none h = elim h [ ]
  accessed-IsCoherent alive m pid vpn (some (pfn, vm)) h = h.1

  kept : IsKept (resource draw)
  unfolding resource access
  kept = record {
    Holds = λ m ph. IsCoherent (AliveIn ph) m.vm;
    admits = λ m m' ph i c e r.
        let same : m ≡ m' = cc r in
        same-IsCoherent (AliveIn ph) (AliveIn (put ph i live)) m'.vm
          (λ p a. (a.0, a.1, (put-live ph i a.0 e).0 a.2))
          (λ p a. (a.0, a.1, (put-live ph i a.0 e).1 a.2))
          (subst (λ x. IsCoherent (AliveIn ph) x.vm) same c);
    accesses = λ m ph tick i c e.
        let vpn = target_vpn draw tick (i + 1) m.drawn in
        accessed-IsCoherent (AliveIn ph) m (i + 1) vpn (translate m.vm (i + 1) vpn) (
          translate-Gives (AliveIn ph) m.vm (i + 1) vpn c
            (i, refl, λ x. ground (arith, sym e ∙ x)));
    releases = λ m ph i c e.
        exit-IsCoherent (AliveIn ph) (AliveIn (put ph i ended)) (i + 1) m.vm
          (λ p a.
            let (j, is, h) = a in
            let (before, other) = put-ended ph i j h in
            ((j, is, before), λ x. other (omega (arith, is, x))))
          (λ p a other.
            let (j, is, h) = a in
            let apart : j ≢ i = λ x. other (omega (arith, is, x)) in
            (j, is, λ x. h (sym (put-other ph i j ended apart) ∙ x)))
          c;
  }

  free_at :
      (ph : ℕ → Phase)
      → ((j : ℕ) → ph j ≡ ended)
      → (vm : Memory) → IsCoherent (AliveIn ph) vm
      → (f : ℕ) (o : Option ℕ) → vm.frame_owner f ≡ o
      → vm.frame_owner f ≡ none
  free_at ph h vm c f none e = e
  free_at ph h vm c f (some p) e = let (i, is, still) = (c.owned f p e).1 in absurd (still (h i))

  -- Of processes that are new, with whatever random numbers: the loop of the demo ends, and then
  -- the TLB, the page tables of the processes that have not ended and the queue agree with the
  -- frames, each frame that is owned is owned by a process that has not ended, and where all have
  -- ended each frame is free.
  pub main-IsCoherent :
      (drawn : ℕ) (procs : List Process)
      → All (λ p. p.state ≡ new) procs
      → (over (resource draw) (main draw drawn procs) ≡ true)
        × IsCoherent
            (AliveIn (phases (main draw drawn procs).procs))
            (main draw drawn procs).resource.vm
        × (all_done (main draw drawn procs).procs ≡ true
            → (f : ℕ) → (main draw drawn procs).resource.vm.frame_owner f ≡ none)
  unfolding main kept
  main-IsCoherent drawn procs h =
      let (ends, (t, v)) =
        run-IsSound kept (record { vm = construct; drawn = drawn }) procs h
          (construct-IsCoherent (AliveIn (phases procs))) in
      (
        ends,
        v.holds,
        λ d f.
            free_at (phases (main draw drawn procs).procs)
              (all_done-ended (main draw drawn procs).procs d) (main draw drawn procs).resource.vm
              v.holds f ((main draw drawn procs).resource.vm.frame_owner f) refl,
      )
