-- ===== src/Os/Scheduler/Shares.antt =====
-- What the processes of the scheduler hold of the allocator, and what admitting a process, serving
-- the I/O and ending a process make of it.
use memory_allocator.Base.{
  ℕ, zero, suc, ◌+◌, ◌-◌, ◌≡◌, refl, sym, ap, subst, ◌∙◌, leb, ◌==◌, ◌&&◌, true, Bool-cases, inl,
  inr, Option, none, some, Option-cases, List, [], ◌∷◌, ◌++◌, append_assoc, get_elem?, set,
  if◌then◌else◌, arith,
}
use memory_allocator.Base.Count.{count}
use memory_allocator.Os.Process.{ProcessState, new, ready, running, waiting, terminated, Process}
use memory_allocator.Os.Scheduler.{Memory, is_new, service_io, admit_with, admit, admit_pending}
use memory_allocator.Os.Scheduler.Queues.{
  IsConsistent, outside-waits, done-serve, kept-serve, waits, done-IsConsistent, kept-IsConsistent,
}

-- A process holds its block from its admission to its end.
abbrev pub share_in : ProcessState → ℕ × ℕ → List (ℕ × ℕ)
share_in new h = []
share_in ready h = h ∷ []
share_in running h = h ∷ []
share_in waiting h = h ∷ []
share_in terminated h = []

-- Its address and its size.
abbrev pub share : Process → List (ℕ × ℕ)
share p = share_in p.state (p.mem_ptr, p.mem_block_size)

abbrev pub shares : List Process → List (ℕ × ℕ)
shares [] = []
shares (p ∷ ps) = share p ++ shares ps

-- The laws of an allocator: what it holds out, as addresses and sizes.
pub record IsTracked {A : Type 0} (memory : Memory A) : Type 2 where
  pub Holds : A → List (ℕ × ℕ) → Type 1
  pub takes :
      (a b : A) (size x : ℕ) (ys zs : List (ℕ × ℕ))
      → Holds a (ys ++ zs)
      → memory.allocate a size ≡ (some x, b)
      → Holds b (ys ++ (x, memory.block_size_for_request b size) ∷ zs)
  pub refuses :
      (a b : A) (size : ℕ) (l : List (ℕ × ℕ))
      → Holds a l
      → memory.allocate a size ≡ (none, b)
      → Holds b l
  pub gives :
      (a : A) (x n : ℕ) (ys zs : List (ℕ × ℕ))
      → Holds a (ys ++ (x, n) ∷ zs)
      → Holds (memory.free a x n) (ys ++ zs)

-- The shares around the one of a process.
pub shares-split :
    (procs : List Process) (i : ℕ) {p : Process}
    → get_elem? procs i ≡ some p
    → (ys : List (ℕ × ℕ)) × (zs : List (ℕ × ℕ)) × (shares procs ≡ ys ++ (share p ++ zs))
      × ((q : Process) → shares (set procs i q) ≡ ys ++ (share q ++ zs))
shares-split [] i e = ground (arith, e)
shares-split (x ∷ procs) zero {p} e =
    let same : x ≡ p = cc e in ([], shares procs, ap (λ y. share y ++ shares procs) same, λ q. refl)
shares-split (x ∷ procs) (suc i) {p} e =
    let (ys, zs, before, after) = shares-split procs i e in
    (
      share x ++ ys,
      zs,
      ap (λ l. share x ++ l) before ∙ sym (append_assoc (share x) ys (share p ++ zs)),
      λ q. ap (λ l. share x ++ l) (after q) ∙ sym (append_assoc (share x) ys (share q ++ zs)),
    )

pub set-shares :
    (procs : List Process) (i : ℕ) {p : Process} (q : Process)
    → get_elem? procs i ≡ some p
    → share q ≡ share p
    → shares (set procs i q) ≡ shares procs
set-shares procs i q e h =
    let (ys, zs, before, after) = shares-split procs i e in
    after q ∙ ap (λ l. ys ++ (l ++ zs)) h ∙ sym before

-- Serving the I/O changes no share.
pub service-shares :
    (l : List ℕ) (procs : List Process) (queue : List ℕ) (kept : ℕ → ℕ)
    → IsConsistent procs (λ j. count j queue) (λ j. kept j + count j l)
    → shares (service_io l procs queue).1 ≡ shares procs
unfolding service_io
service-shares [] procs queue kept c = refl
service-shares (i ∷ l) procs queue kept c = elim (Option-cases (get_elem? procs i)) [
  | inl e ↦ absurd (outside-waits i l procs queue kept c e)
  | inr (p, e) ↦
      let left = p.remaining_io_ticks - 1 in
      let rest : Process = record p { remaining_io_ticks = left } in
      let back : Process = record p { remaining_io_ticks = left; state = ready } in
      let is : p.state ≡ waiting = (waits i l procs queue e kept c).0 in
      let same : share back ≡ share p =
        sym (ap (λ s. share_in s (p.mem_ptr, p.mem_block_size)) is) in
      let served =
        service-shares l (set procs i back) (queue ++ i ∷ []) kept
          (done-IsConsistent i l procs queue e kept c) in
      let stays =
        service-shares l (set procs i rest) queue (λ j. kept j + count j (i ∷ []))
          (kept-IsConsistent i l procs queue e kept c) in
      elim (Bool-cases (left == 0)) [
        | inl z ↦
            subst (λ a. shares (service_io l a.1 a.2).1 ≡ shares procs)
              (sym (done-serve i l procs queue e z)) (served ∙ set-shares procs i back e same)
        | inr z ↦
            subst (λ a. shares (service_io l a.1 a.2).1 ≡ shares procs)
              (sym (kept-serve i l procs queue e z)) (stays ∙ set-shares procs i rest e refl)
      ]
]

module _ {A : Type 0} {memory : Memory A} (tracked : IsTracked memory) where
  -- A process that is admitted takes its share.
  admit-Holds :
      (tick : ℕ) (p : Process) (a : A) (ys zs : List (ℕ × ℕ))
      → tracked.Holds a (ys ++ (share p ++ zs))
      → let (q, b, ok) = admit memory tick p a in tracked.Holds b (ys ++ (share q ++ zs))
  unfolding admit admit_with
  admit-Holds tick p a ys zs h = elim (Bool-cases (is_new p.state && leb p.arrival_tick tick)) [
    | inr later ↦ rw later h
    | inl now ↦
        rw now
          (answered (memory.allocate a p.memory_request) refl (fresh p.state (ground (arith, now))))
  ]
    where
      fresh : (s : ProcessState) → is_new s ≡ true → share_in s (p.mem_ptr, p.mem_block_size) ≡ []
      fresh new e = refl
      fresh ready e = ground (arith, e)
      fresh running e = ground (arith, e)
      fresh waiting e = ground (arith, e)
      fresh terminated e = ground (arith, e)

      answered :
          (o : Option ℕ × A)
          → memory.allocate a p.memory_request ≡ o
          → share p ≡ []
          → let (q, b, ok) = admit_with memory p o in tracked.Holds b (ys ++ (share q ++ zs))
      answered (none, b) e s = tracked.refuses a b p.memory_request (ys ++ (share p ++ zs)) h e
      answered (some x, b) e s =
          tracked.takes a b p.memory_request x ys zs
            (subst (λ l. tracked.Holds a (ys ++ (l ++ zs))) s h) e

  pub admit_pending-Holds :
      (tick i : ℕ) (ps : List Process) (a : A) (queue : List ℕ) (ys : List (ℕ × ℕ))
      → tracked.Holds a (ys ++ shares ps)
      → let (qs, b, r) = admit_pending memory tick i ps a queue in tracked.Holds b (ys ++ shares qs)
  unfolding admit_pending
  admit_pending-Holds tick i [] a queue ys h = h
  admit_pending-Holds tick i (p ∷ ps) a queue ys h =
      let (q, b, ok) = admit memory tick p a in
      let next = if ok then queue ++ i ∷ [] else queue in
      let (qs, c, r) = admit_pending memory tick (suc i) ps b next in
      subst (tracked.Holds c) (append_assoc ys (share q) (shares qs)) (
        admit_pending-Holds tick (suc i) ps b next (ys ++ share q) (
          subst (tracked.Holds b) (sym (append_assoc ys (share q) (shares ps)))
            (admit-Holds tick p a ys (shares ps) h)))
