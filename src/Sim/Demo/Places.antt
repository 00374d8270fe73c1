-- ===== src/Sim/Demo/Places.antt =====
-- Where each process of the demos is, and what the resource is to keep for it.
use memory_allocator.Base.{
  ℕ, zero, suc, ◌+◌, ◌≤◌, ◌<◌, ◌≡◌, ◌≢◌, refl, sym, ap, subst, ◌∙◌, fun_ext, ◌==◌, ==→eq, ==→ne,
  if◌then◌else◌, Bool, true, false, Bool-cases, inl, inr, Option, none, some, List, [], ◌∷◌,
  get_elem?, set, get_elem-set, arith,
}
use memory_allocator.Base.Count.{count}
use memory_allocator.Sched.Process.{State, new, ready, running, waiting, terminated, Process}
use memory_allocator.Sim.Scheduling.{is_terminated, all_done}
use memory_allocator.Sim.Scheduling.Places.{released, waits}
use memory_allocator.Sim.Demo.{Resource, Demo}

-- What the resource is to hold for a process: nothing yet, its share, or nothing any more.
pub data Phase : Type 0 where
  fresh : Phase
  live : Phase
  ended : Phase

abbrev pub phase_of_state : State → Phase
phase_of_state new = fresh
phase_of_state ready = live
phase_of_state running = live
phase_of_state waiting = live
phase_of_state terminated = ended

abbrev pub phase_of : Option Process → Phase
phase_of none = ended
phase_of (some p) = phase_of_state p.state

abbrev pub phases : List Process → ℕ → Phase
phases procs j = phase_of (get_elem? procs j)

abbrev pub put : (ℕ → Phase) → ℕ → Phase → ℕ → Phase
put ph i x j = if j == i then x else ph j

-- The laws of a resource: what it holds by the phases of the processes.
pub record IsKept {R : Type 0} (resource : Resource R) : Type 1 where
  pub Holds : R → (ℕ → Phase) → Type 0
  pub admits :
      (r r' : R) (ph : ℕ → Phase) (i : ℕ)
      → Holds r ph
      → ph i ≡ fresh
      → resource.admit r i ≡ some r'
      → Holds r' (put ph i live)
  pub accesses :
      (r : R) (ph : ℕ → Phase) (tick i : ℕ)
      → Holds r ph
      → ph i ≡ live
      → Holds (resource.access r tick i) ph
  pub releases :
      (r : R) (ph : ℕ → Phase) (i : ℕ)
      → Holds r ph
      → ph i ≡ live
      → Holds (resource.release r i) (put ph i ended)

-- How often a process of a state is ready, running or waiting for I/O, and waits for memory.
abbrev pub Agree : State → ℕ → ℕ → Type 0
Agree new h w = (h ≡ 0) × (w ≤ 1)
Agree ready h w = (h ≡ 1) × (w ≡ 0)
Agree running h w = ⊥
Agree waiting h w = (h ≡ 1) × (w ≡ 0)
Agree terminated h w = (h ≡ 0) × (w ≡ 0)

-- A process that waits for memory arrived before the tick `lim`.
abbrev pub Fits : ℕ → ℕ → ℕ → Option Process → Type 0
Fits h w lim none = (h ≡ 0) × (w ≡ 0)
Fits h w lim (some p) = Agree p.state h w × (0 < w → p.arrival < lim)

pub held-Agree :
    (s : State) (h w : ℕ) → 0 < h → Agree s h w → (phase_of_state s ≡ live) × (h ≡ 1) × (w ≡ 0)
held-Agree new h w l a = absurd (omega (arith, a.0, l))
held-Agree ready h w l a = (refl, a.0, a.1)
held-Agree running h w l a = elim a [ ]
held-Agree waiting h w l a = (refl, a.0, a.1)
held-Agree terminated h w l a = absurd (omega (arith, a.0, l))

pub waits-Agree :
    (s : State) (h w : ℕ) → 0 < w → Agree s h w → (phase_of_state s ≡ fresh) × (h ≡ 0) × (w ≡ 1)
waits-Agree new h w l a = (refl, a.0, omega (arith, a.1, l))
waits-Agree ready h w l a = absurd (omega (arith, a.1, l))
waits-Agree running h w l a = elim a [ ]
waits-Agree waiting h w l a = absurd (omega (arith, a.1, l))
waits-Agree terminated h w l a = absurd (omega (arith, a.1, l))

Agree-eq : {h w h' w' : ℕ} (s : State) → h' ≡ h → w' ≡ w → Agree s h w → Agree s h' w'
Agree-eq {h} {w} {h'} {w'} s e f a =
    subst (λ n. Agree s n w') (sym e) (subst (λ n. Agree s h n) (sym f) a)

pub Fits-eq :
    {h w lim h' w' lim' : ℕ} (o : Option Process)
    → h' ≡ h
    → w' ≡ w
    → lim ≤ lim'
    → Fits h w lim o
    → Fits h' w' lim' o
Fits-eq none e f g x = (e ∙ x.0, f ∙ x.1)
Fits-eq {h} {w} {lim} {h'} {w'} {lim'} (some p) e f g (a, early) =
    (Agree-eq p.state e f a, λ l. omega (arith, early (omega (arith, f, l)), g))

unfoldable pub IsPlaced : (ℕ → ℕ) → (ℕ → ℕ) → (ℕ → ℕ) → List Process → Type 0
IsPlaced h w lim procs = (j : ℕ) → Fits (h j) (w j) (lim j) (get_elem? procs j)

module _ (h w lim h' w' lim' : ℕ → ℕ) (procs : List Process) (c : IsPlaced h w lim procs) where
  pub IsPlaced-eq :
      ((j : ℕ) → (h' j ≡ h j) × (w' j ≡ w j) × (lim j ≤ lim' j)) → IsPlaced h' w' lim' procs
  unfolding IsPlaced
  IsPlaced-eq e j = Fits-eq (get_elem? procs j) (e j).0 (e j).1 (e j).2 (c j)

  module _ (i : ℕ) (others : (j : ℕ) → j ≢ i → (h' j ≡ h j) × (w' j ≡ w j) × (lim j ≤ lim' j)) where
    -- An index moves.
    pub moved-IsPlaced : Fits (h' i) (w' i) (lim' i) (get_elem? procs i) → IsPlaced h' w' lim' procs
    unfolding IsPlaced
    moved-IsPlaced f j = elim (Bool-cases (j == i)) [
      | inl same ↦
          subst (λ k. Fits (h' k) (w' k) (lim' k) (get_elem? procs k)) (sym (==→eq j i same)) f
      | inr other ↦
          let (x, y, z) = others j (==→ne j i other) in Fits-eq (get_elem? procs j) x y z (c j)
    ]

    -- A process changes, and its index moves.
    pub set-IsPlaced :
        (p q : Process)
        → get_elem? procs i ≡ some p
        → Fits (h' i) (w' i) (lim' i) (some q)
        → IsPlaced h' w' lim' (set procs i q)
    unfolding IsPlaced
    set-IsPlaced p q e f j = rw (get_elem-set procs i j q e) elim (Bool-cases (j == i)) [
      | inl same ↦
          rw same (subst (λ k. Fits (h' k) (w' k) (lim' k) (some q)) (sym (==→eq j i same)) f)
      | inr other ↦
          let (x, y, z) = others j (==→ne j i other) in
          rw other (Fits-eq (get_elem? procs j) x y z (c j))
    ]

phase_if :
    (b : Bool) (q : Process) (o : Option Process)
    → phase_of (if b then some q else o) ≡ (if b then phase_of_state q.state else phase_of o)
phase_if true q o = refl
phase_if false q o = refl

pub phases-set :
    (procs : List Process) (i : ℕ) (p q : Process)
    → get_elem? procs i ≡ some p
    → phases (set procs i q) ≡ put (phases procs) i (phase_of_state q.state)
phases-set procs i p q e =
    fun_ext λ j. ap phase_of (get_elem-set procs i j q e) ∙ phase_if (j == i) q (get_elem? procs j)

terminated-ended : (s : State) → is_terminated s ≡ true → phase_of_state s ≡ ended
terminated-ended new e = ground (arith, e)
terminated-ended ready e = ground (arith, e)
terminated-ended running e = ground (arith, e)
terminated-ended waiting e = ground (arith, e)
terminated-ended terminated e = refl

-- Where all processes are terminated, each has ended.
pub all_done-ended :
    (procs : List Process) → all_done procs ≡ true → (j : ℕ) → phases procs j ≡ ended
unfolding all_done
all_done-ended [] e j = refl
all_done-ended (p ∷ procs) e zero = terminated-ended p.state (ground (arith, e))
all_done-ended (p ∷ procs) e (suc j) = all_done-ended procs (ground (arith, e)) j

pub put-same : (ph : ℕ → Phase) (i : ℕ) (x : Phase) → ph i ≡ x → put ph i x ≡ ph
put-same ph i x e = fun_ext λ j. at j
  where
    at : (j : ℕ) → (if j == i then x else ph j) ≡ ph j
    at j = elim (Bool-cases (j == i)) [
      | inl same ↦ ap (λ b. if b then x else ph j) same ∙ sym e ∙ ap ph (sym (==→eq j i same))
      | inr other ↦ ap (λ b. if b then x else ph j) other
    ]

-- How often an index is in the ready queue, on the CPU or among those that wait for I/O.
abbrev pub held : {R : Type 0} → Demo R → ℕ → ℕ
held m j = count j m.sched.queue + released m.running j + waits m.io_wait j

-- What holds of a state in a round that began at `tick`, with the indices still to be looked at of
-- those that waited for I/O (`io`) and for memory (`mem`).
pub record IsValid {R : Type 0} {resource : Resource R} (kept : IsKept resource) (tick : ℕ)
    (io mem lim : ℕ → ℕ) (m : Demo R) : Type 0 where
  pub tick_is : m.tick ≡ tick
  pub placed : IsPlaced (λ j. held m j + io j) (λ j. count j m.mem_wait + mem j) lim m.procs
  pub holds : kept.Holds m.resource (phases m.procs)
