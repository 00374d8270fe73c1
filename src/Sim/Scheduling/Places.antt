-- ===== src/Sim/Scheduling/Places.antt =====
-- Where each process is: in the policy, on the CPU, among those that wait for I/O, or nowhere.
use memory_allocator.Base.{
  ℕ, ◌+◌, ◌<◌, ◌≡◌, ◌≢◌, refl, sym, subst, ◌∙◌, ◌==◌, ==→eq, ==→ne, if◌then◌else◌, true, false,
  Bool-cases, inl, inr, Option, none, some, List, [], ◌∷◌, ◌++◌, get_elem?, set, get_elem-set,
  arith,
}
use memory_allocator.Sched.Process.{State, new, ready, running, waiting, terminated, Process}
use memory_allocator.Sim.Scheduling.{Policy, is_new}

abbrev pub one : ℕ → ℕ → ℕ
one i j = if i == j then 1 else 0

abbrev pub released : Option ℕ → ℕ → ℕ
released none j = 0
released (some i) j = one i j

-- How often an index stands among the waiting.
abbrev pub waits : List (ℕ × ℕ) → ℕ → ℕ
waits [] j = 0
waits ((i, left) ∷ rest) j = one i j + waits rest j

-- A policy that hands out what it was given: `held` says how often it holds an index, `add` adds
-- one, and `pick_next` gives one back or none.
pub record IsKeeper {S : Type 0} (policy : Policy S) : Type 0 where
  pub held : S → ℕ → ℕ
  pub adds : (s : S) (i : ℕ) (p : Process) (j : ℕ) → held (policy.add s i p) j ≡ held s j + one i j
  pub picks :
      (s : S) (j : ℕ) → held s j ≡ held (policy.pick_next s).1 j + released (policy.pick_next s).0 j

-- How often a process of a state is held, runs and waits.
abbrev pub Agree : State → ℕ → ℕ → ℕ → Type 0
Agree new h r w = (h ≡ 0) × (r ≡ 0) × (w ≡ 0)
Agree ready h r w = (h ≡ 1) × (r ≡ 0) × (w ≡ 0)
Agree running h r w = (h ≡ 0) × (r ≡ 1) × (w ≡ 0)
Agree waiting h r w = (h ≡ 0) × (r ≡ 0) × (w ≡ 1)
Agree terminated h r w = (h ≡ 0) × (r ≡ 0) × (w ≡ 0)

abbrev pub InPlace : ℕ → ℕ → ℕ → Option Process → Type 0
InPlace h r w none = (h ≡ 0) × (r ≡ 0) × (w ≡ 0)
InPlace h r w (some p) = Agree p.state h r w

pub one_self : (i : ℕ) → one i i ≡ 1
one_self i = ground arith

pub one_other : (i j : ℕ) → j ≢ i → one i j ≡ 0
one_other i j ne = ground (arith, ne)

pub waits-snoc :
    (l : List (ℕ × ℕ)) (i left j : ℕ) → waits (l ++ (i, left) ∷ []) j ≡ waits l j + one i j
waits-snoc [] i left j = omega arith
waits-snoc ((k, x) ∷ l) i left j = omega (arith, waits-snoc l i left j)

pub new-Agree :
    (s : State) (h r w : ℕ) → is_new s ≡ true → Agree s h r w → (h ≡ 0) × (r ≡ 0) × (w ≡ 0)
new-Agree new h r w e a = a
new-Agree ready h r w e a = ground (arith, e)
new-Agree running h r w e a = ground (arith, e)
new-Agree waiting h r w e a = ground (arith, e)
new-Agree terminated h r w e a = ground (arith, e)

pub held-Agree :
    (s : State) (h r w : ℕ)
    → 0 < h
    → Agree s h r w
    → (is_new s ≡ false) × (h ≡ 1) × (r ≡ 0) × (w ≡ 0)
held-Agree new h r w l a = absurd (omega (arith, a.0, l))
held-Agree ready h r w l a = (refl, a.0, a.1, a.2)
held-Agree running h r w l a = absurd (omega (arith, a.0, l))
held-Agree waiting h r w l a = absurd (omega (arith, a.0, l))
held-Agree terminated h r w l a = absurd (omega (arith, a.0, l))

pub runs-Agree :
    (s : State) (h r w : ℕ) → 0 < r → Agree s h r w → (s ≡ running) × (h ≡ 0) × (r ≡ 1) × (w ≡ 0)
runs-Agree new h r w l a = absurd (omega (arith, a.1, l))
runs-Agree ready h r w l a = absurd (omega (arith, a.1, l))
runs-Agree running h r w l a = (refl, a.0, a.1, a.2)
runs-Agree waiting h r w l a = absurd (omega (arith, a.1, l))
runs-Agree terminated h r w l a = absurd (omega (arith, a.1, l))

pub waits-Agree :
    (s : State) (h r w : ℕ)
    → 0 < w
    → Agree s h r w
    → (is_new s ≡ false) × (h ≡ 0) × (r ≡ 0) × (w ≡ 1)
waits-Agree new h r w l a = absurd (omega (arith, a.2, l))
waits-Agree ready h r w l a = absurd (omega (arith, a.2, l))
waits-Agree running h r w l a = absurd (omega (arith, a.2, l))
waits-Agree waiting h r w l a = (refl, a.0, a.1, a.2)
waits-Agree terminated h r w l a = absurd (omega (arith, a.2, l))

-- `Lost j p` says that the process at `j` is to stay `p`.
module _ (Lost : ℕ → Process → Type 0) where
  abbrev pub Fits : ℕ → ℕ → ℕ → ℕ → Option Process → Type 0
  Fits j h r w o = InPlace h r w o × ((p : Process) → Lost j p → o ≡ some p)

  pub Fits-eq :
      {j h r w h' r' w' : ℕ} (o : Option Process)
      → h' ≡ h
      → r' ≡ r
      → w' ≡ w
      → Fits j h r w o
      → Fits j h' r' w' o
  Fits-eq {j} {h} {r} {w} {h'} {r'} {w'} o e f g x =
      subst (λ n. Fits j n r' w' o) (sym e)
        (subst (λ n. Fits j h n w' o) (sym f) (subst (λ n. Fits j h r n o) (sym g) x))

  unfoldable pub IsPlaced : (ℕ → ℕ) → (ℕ → ℕ) → (ℕ → ℕ) → List Process → Type 0
  IsPlaced h r w procs = (j : ℕ) → Fits j (h j) (r j) (w j) (get_elem? procs j)

  pub IsPlaced-eq :
      (h r w h' r' w' : ℕ → ℕ) (procs : List Process)
      → ((j : ℕ) → (h' j ≡ h j) × (r' j ≡ r j) × (w' j ≡ w j))
      → IsPlaced h r w procs
      → IsPlaced h' r' w' procs
  unfolding IsPlaced
  IsPlaced-eq h r w h' r' w' procs e c j = Fits-eq (get_elem? procs j) (e j).0 (e j).1 (e j).2 (c j)

  -- One process changes, and its index moves.
  pub set-IsPlaced :
      (h r w h' r' w' : ℕ → ℕ) (procs : List Process) (i : ℕ) (p q : Process)
      → IsPlaced h r w procs
      → get_elem? procs i ≡ some p
      → ((x : Process) → Lost i x → some p ≡ some x → ⊥)
      → Agree q.state (h' i) (r' i) (w' i)
      → ((j : ℕ) → j ≢ i → (h' j ≡ h j) × (r' j ≡ r j) × (w' j ≡ w j))
      → IsPlaced h' r' w' (set procs i q)
  unfolding IsPlaced
  set-IsPlaced h r w h' r' w' procs i p q c e gone a others j =
      rw (get_elem-set procs i j q e) elim (Bool-cases (j == i)) [
        | inl same ↦
            rw same
              (subst (λ k. Fits k (h' k) (r' k) (w' k) (some q)) (sym (==→eq j i same)) (a, kept))
        | inr other ↦
            let (x, y, z) = others j (==→ne j i other) in
            rw other (Fits-eq (get_elem? procs j) x y z (c j))
      ]
    where
      kept : (x : Process) → Lost i x → some q ≡ some x
      kept x l = absurd (gone x l (sym e ∙ (c i).1 x l))
