-- ===== src/Sched/Mlfq/Levels.antt =====
-- The multi-level feedback queue as its clients drive it: the queues agree with the levels.
use memory_allocator.Base.{
  ℕ, zero, suc, ◌%◌, ◌*◌, ◌^◌, ◌<◌, ◌≡◌, ◌≢◌, ◌⊎◌, refl, sym, ap, ◌∙◌, subst, ltb, ◌==◌, not, ==→eq,
  ==→ne, if◌then◌else◌, ◌||◌, Bool, true, false, Bool-cases, inl, inr, Option, some, List, [], ◌∷◌,
  ◌++◌, contains, arith,
}
use memory_allocator.Sched.Mlfq.Quantum.{boost-base, pick_from-base}
use memory_allocator.Sched.Mlfq.{
  Mlfq, queue_count, update, push_back, set_level, construct, add, pick_from, pick_next,
  quantum_for, on_quantum_expired, on_unblock, raise, boost_queue, tick,
}

contains-append : (l r : List ℕ) (a : ℕ) → contains (l ++ r) a ≡ (contains l a || contains r a)
contains-append [] r a = refl
contains-append (x ∷ l) r a = ground (arith, contains-append l r a)

-- The process waits in no queue.
unfoldable pub Idle : Mlfq → ℕ → Type 0
Idle m p = (q : ℕ) → contains (m.queues q) p ≡ false

-- The scheduler's calls, as the simulation may make them: a process is added, or expires, only
-- while it waits in no queue.
pub data Step : Mlfq → Mlfq → Type 0 where
  arrives : {m : Mlfq} (p : ℕ) → Idle m p → Step m (add m p)
  picks : {m : Mlfq} → Step m (pick_next m).1
  expires : {m : Mlfq} (p : ℕ) → Idle m p → Step m (on_quantum_expired m p)
  unblocks : {m : Mlfq} (p : ℕ) → Step m (on_unblock m p)
  ticks : {m : Mlfq} (t : ℕ) → Step m (tick m t)

pub data Reach (base interval : ℕ) : Mlfq → Type 0 where
  start : Reach base interval (construct base interval)
  next : {m n : Mlfq} → Reach base interval m → Step m n → Reach base interval n

-- Levels stay below the number of queues, and a process waits in the queue of its level only.
pub Levelled : Mlfq → Type 0
Levelled m =
    ((p : ℕ) → m.level p < queue_count)
    × ((q p : ℕ) → contains (m.queues q) p ≡ true → m.level p ≡ q)

push-Levelled :
    (m : Mlfq) (p l : ℕ)
    → l < queue_count
    → Idle m p
    → Levelled m
    → Levelled (push_back (set_level m p l) l p)
unfolding Levelled Idle
push-Levelled m p l low idle (bound, placed) = (
  λ r. elim (Bool-cases (p == r)) [ inl q ↦ rw q low | inr q ↦ rw q (bound r) ],
  λ k r c. elim (Bool-cases (p == r)) [
    | inl same ↦ rw same elim (Bool-cases (l == k)) [
      | inl e ↦ ==→eq l k e
      | inr e ↦ let gone = idle k in ground (arith, gone, ==→eq p r same, rw e at c)
    ]
    | inr other ↦ rw other elim (Bool-cases (l == k)) [
      | inl e ↦
          placed k r
            (ground (arith, ==→eq l k e, other, contains-append (m.queues l) (p ∷ []) r, rw e at c))
      | inr e ↦ placed k r (rw e at c)
    ]
  ],
)

-- While queue `q` is being emptied, with the processes of `rest` still to be raised.
Raising : ℕ → List ℕ → Mlfq → Type 0
Raising q rest m =
    ((p : ℕ) → m.level p < queue_count)
    × ((k p : ℕ) → k ≢ q → contains (m.queues k) p ≡ true → m.level p ≡ k)
    × ((p : ℕ) → contains rest p ≡ true → (m.level p ≡ q) ⊎ (m.level p ≡ 0))

raise-Raising : (q : ℕ) (rest : List ℕ) (m : Mlfq) → Raising q rest m → Raising q [] (raise rest m)
unfolding Raising raise
raise-Raising q [] m i = i
raise-Raising q (p ∷ rest) m (bound, placed, left) =
    raise-Raising q rest (push_back (set_level m p 0) 0 p) (low, settled, waiting)
  where
    low : (r : ℕ) → update m.level p 0 r < queue_count
    low r = elim (Bool-cases (p == r)) [ inl e ↦ rw e (omega arith) | inr e ↦ rw e (bound r) ]

    settled :
        (k r : ℕ)
        → k ≢ q
        → contains (update m.queues 0 (m.queues 0 ++ p ∷ []) k) r ≡ true
        → update m.level p 0 r ≡ k
    settled zero r ne c = elim (Bool-cases (p == r)) [
      | inl e ↦ rw e refl
      | inr e ↦ rw e (placed 0 r ne (ground (arith, e, contains-append (m.queues 0) (p ∷ []) r, c)))
    ]
    settled (suc k) r ne c =
        let apart : (0 == suc k) ≡ false = ground arith in
        let here = placed (suc k) r ne (rw apart at c) in
        elim (Bool-cases (p == r)) [
          | inl e ↦
              let same : p ≡ r = ==→eq p r e in
              let was = left p (ground arith) in ground (arith, same, here, ne, was)
          | inr e ↦ rw e here
        ]

    waiting :
        (r : ℕ) → contains rest r ≡ true → (update m.level p 0 r ≡ q) ⊎ (update m.level p 0 r ≡ 0)
    waiting r c = elim (Bool-cases (p == r)) [
      | inl e ↦ rw e (inr refl)
      | inr e ↦ rw e (left r (rw (e, c) refl))
    ]

boost_queue-Levelled : (m : Mlfq) (q : ℕ) → Levelled m → Levelled (boost_queue m q)
unfolding Levelled Raising
boost_queue-Levelled m q (bound, placed) =
    let (low, settled, _) =
      raise-Raising q (m.queues q) m (bound, λ k p ne c. placed k p c, λ p c. inl (placed q p c)) in
    (
      low,
      λ k r. elim (Bool-cases (q == k)) [
        | inl e ↦ rw e (λ c. ground (arith, c))
        | inr e ↦ rw e (λ c. settled k r (λ same. ==→ne q k e (sym same)) c)
      ],
    )

pop-Levelled :
    (m : Mlfq) (q p : ℕ) (ps : List ℕ)
    → m.queues q ≡ p ∷ ps
    → Levelled m
    → Levelled (record m { queues = update m.queues q ps })
unfolding Levelled
pop-Levelled m q p ps e (bound, placed) = (
  bound,
  λ k r. elim (Bool-cases (q == k)) [
    | inl same ↦
        rw same (λ c. let k_is = ==→eq q k same in placed q r (rw e (ground (arith, c))) ∙ k_is)
    | inr other ↦ rw other (λ c. placed k r c)
  ],
)

pick_from-Levelled : (left q : ℕ) (m : Mlfq) → Levelled m → Levelled (pick_from left q m).1
unfolding pick_from
pick_from-Levelled zero q m i = i
pick_from-Levelled (suc left) q m i = looked (m.queues q) refl (pick_from-Levelled left (suc q) m i)
  where
    looked :
        (l : List ℕ)
        → m.queues q ≡ l
        → Levelled (pick_from left (suc q) m).1
        → Levelled
            (elim l as (λ _. Option ℕ × Mlfq) [
              | [] ↦ pick_from left (suc q) m
              | p ∷ ps ↦ (some p, record m { queues = update m.queues q ps })
            ]).1
    looked [] e h = h
    looked (p ∷ ps) e h = pop-Levelled m q p ps e i

append-Levelled : (m : Mlfq) (p : ℕ) → Levelled m → Levelled (push_back m (m.level p) p)
unfolding Levelled
append-Levelled m p (bound, placed) = (
  bound,
  λ k r. elim (Bool-cases (m.level p == k)) [
    | inr other ↦ rw other (λ c. placed k r c)
    | inl here ↦ rw here (λ c. elim (Bool-cases (p == r)) [
      | inl e ↦ subst (λ z. m.level z ≡ k) (==→eq p r e) (==→eq (m.level p) k here)
      | inr e ↦
          placed (m.level p) r
            (ground (arith, e, contains-append (m.queues (m.level p)) (p ∷ []) r, c))
          ∙ ==→eq (m.level p) k here
    ])
  ],
)

lowered-bound : (l : ℕ) → l < queue_count → (if ltb l 2 then suc l else l) < queue_count
lowered-bound l h = ground (arith, h)

tick-Levelled :
    (m : Mlfq) (b : Bool) → Levelled m → Levelled (if b then m else boost_queue (boost_queue m 1) 2)
tick-Levelled m true i = i
tick-Levelled m false i = boost_queue-Levelled (boost_queue m 1) 2 (boost_queue-Levelled m 1 i)

level_low : (m : Mlfq) (p : ℕ) → Levelled m → m.level p < queue_count
unfolding Levelled
level_low m p i = i.0 p

construct-Levelled : (base interval : ℕ) → Levelled (construct base interval)
unfolding Levelled construct
construct-Levelled base interval = (λ p. omega arith, λ q p c. ground (arith, c))

Step-Levelled : {m n : Mlfq} → Levelled m → Step m n → Levelled n
unfolding add pick_next on_quantum_expired on_unblock tick
Step-Levelled i (arrives {m} p idle) = push-Levelled m p 0 (omega arith) idle i
Step-Levelled i (picks {m}) = pick_from-Levelled queue_count 0 m i
Step-Levelled i (expires {m} p idle) =
    let l = if ltb (m.level p) 2 then suc (m.level p) else m.level p in
    push-Levelled m p l (lowered-bound (m.level p) (level_low m p i)) idle i
Step-Levelled i (unblocks {m} p) = append-Levelled m p i
Step-Levelled i (ticks {m} t) = tick-Levelled m (not (t % m.boost_interval == 0) || t == 0) i

reach-Levelled : {base interval : ℕ} {m : Mlfq} → Reach base interval m → Levelled m
reach-Levelled {base} {interval} start = construct-Levelled base interval
reach-Levelled (next r s) = Step-Levelled (reach-Levelled r) s

Step-base : {m n : Mlfq} → Step m n → n.quantum_base ≡ m.quantum_base
unfolding add pick_next on_quantum_expired on_unblock tick
Step-base (arrives {m} p idle) = refl
Step-base (picks {m}) = pick_from-base queue_count 0 m
Step-base (expires {m} p idle) = refl
Step-base (unblocks {m} p) = refl
Step-base (ticks {m} t) = boost-base m (not (t % m.boost_interval == 0) || t == 0)

reach-base : {base interval : ℕ} {m : Mlfq} → Reach base interval m → m.quantum_base ≡ base
unfolding construct
reach-base start = refl
reach-base (next r s) = Step-base s ∙ reach-base r

-- In any sequence of calls of a new policy in which a process is added, or its quantum expires, only
-- while it waits in no queue: levels stay below the number of queues, a process waits in the queue
-- of its level only, and the quantum of a process that waits in queue `q` is the first quantum
-- doubled `q` times, as a number of 32 bits.
pub mlfq_levels :
    {base interval : ℕ} {m : Mlfq}
    → Reach base interval m
    → ((p : ℕ) → m.level p < queue_count)
      × ((q p : ℕ)
          → contains (m.queues q) p ≡ true
          → (m.level p ≡ q) × (quantum_for m p ≡ (base * 2 ^ q) % 2 ^ 32))
unfolding Levelled quantum_for
mlfq_levels {base} {interval} {m} r =
    let (low, placed) = reach-Levelled r in
    (
      low,
      λ q p c.
          let at_level = placed q p c in
          (
            at_level,
            ap (λ l. (m.quantum_base * 2 ^ l) % 2 ^ 32) at_level
                ∙ ap (λ n. (n * 2 ^ q) % 2 ^ 32) (reach-base r),
          ),
    )
