-- ===== src/Sim/Contiguous/Shares.antt =====
-- Each live process of the contiguous demo has a used block of its own, and nothing else is used.
use memory_allocator.Base.{
  ℕ, ◌+◌, ◌-◌, ◌<◌, ◌≡◌, ◌≢◌, sym, ap, subst, ◌∙◌, ◌==◌, ==→eq, ==→ne, ne→==, ==_self,
  if◌then◌else◌, false, Bool-cases, inl, inr, ◌⊎◌, some, List, arith,
}
use memory_allocator.Sim.FirstFit.{Block}
use memory_allocator.Sim.FirstFit.Tiling.{IsTiled, free-IsTiled}
use memory_allocator.Sim.Demo.Places.{Phase, fresh, live, ended, put}
use memory_allocator.Sim.Contiguous.{total, Machine, released}
use memory_allocator.Sim.Contiguous.Used.{used_at, used_at-once, free-used_at}

-- The used block of a live process lies where its pointer says, each of them has its own, and each
-- used block is one of theirs.
pub record IsShared (m : Machine) (ph : ℕ → Phase) : Type 0 where
  pub tiled : IsTiled total m.blocks
  pub has :
      (i : ℕ)
      → ph i ≡ live
      → (p : ℕ) × (m.allocs i ≡ some p) × (0 < p) × (used_at (p - 1) m.blocks ≡ 1)
  pub own :
      (i j p : ℕ) → ph i ≡ live → ph j ≡ live → m.allocs i ≡ some p → m.allocs j ≡ some p → i ≡ j
  pub whose :
      (x : ℕ) → 0 < used_at x m.blocks → (i : ℕ) × (ph i ≡ live) × (m.allocs i ≡ some (x + 1))

put_self : (ph : ℕ → Phase) (i : ℕ) (x : Phase) → put ph i x i ≡ x
put_self ph i x = ap (λ b. if b then x else ph i) (==_self i)

put_other : (ph : ℕ → Phase) (i j : ℕ) (x : Phase) → j ≢ i → put ph i x j ≡ ph j
put_other ph i j x h = ap (λ b. if b then x else ph j) (ne→== j i h)

put-ended_live : (ph : ℕ → Phase) (i j : ℕ) → put ph i ended j ≡ live → (j ≢ i) × (ph j ≡ live)
put-ended_live ph i j e = elim (Bool-cases (j == i)) [
  | inl same ↦ ground (arith, sym (ap (λ b. if b then ended else ph j) same) ∙ e)
  | inr other ↦ (==→ne j i other, sym (ap (λ b. if b then ended else ph j) other) ∙ e)
]

-- A process leaves, and its block is free.
pub released-IsShared :
    (m : Machine) (ph : ℕ → Phase) (i : ℕ)
    → IsShared m ph
    → ph i ≡ live
    → IsShared (released m (m.allocs i)) (put ph i ended)
unfolding IsTiled
released-IsShared m ph i s e =
    let (p, at, pos, once) = s.has i e in
    subst (λ o. IsShared (released m o) (put ph i ended)) (sym at) (left p at pos once)
  where
    left :
        (p : ℕ)
        → m.allocs i ≡ some p
        → 0 < p
        → used_at (p - 1) m.blocks ≡ 1
        → IsShared (released m (some p)) (put ph i ended)
    left p at pos once = record {
      tiled = free-IsTiled total p m.blocks (omega arith) s.tiled;
      has = λ j live_j.
          let (other, before) = put-ended_live ph i j live_j in
          let (q, at_q, pos_q, once_q) = s.has j before in
          let apart : p ≢ q = λ same. other (s.own j i p before e (at_q ∙ ap some (sym same)) at) in
          let away : ((q - 1) == (p - 1)) ≡ false = ground (arith, apart, pos, pos_q) in
          (
            q,
            at_q,
            pos_q,
            free-used_at (q - 1) p total m.blocks pos s.tiled.0
                ∙ ap (λ b. if b then 0 else used_at (q - 1) m.blocks) away
                ∙ once_q,
          );
      own = λ j k q live_j live_k.
          s.own j k q (put-ended_live ph i j live_j).1 (put-ended_live ph i k live_k).1;
      whose = λ x used.
          let count = free-used_at x p total m.blocks pos s.tiled.0 in
          elim (Bool-cases (x == (p - 1))) [
            | inl here ↦
                let gone = count ∙ ap (λ b. if b then 0 else used_at x m.blocks) here in
                absurd (omega (arith, gone, used))
            | inr away ↦
                let stays = count ∙ ap (λ b. if b then 0 else used_at x m.blocks) away in
                let (j, live_j, at_j) = s.whose x (omega (arith, stays, used)) in
                let other : j ≢ i = λ same.
                  let both : some (x + 1) ≡ some p = sym at_j ∙ ap m.allocs same ∙ at in
                  let is : x + 1 ≡ p = cc both in ground (arith, is, away) in
                (j, put_other ph i j ended other ∙ live_j, at_j)
          ];
    }

live_cases :
    (ph : ℕ → Phase) (i j : ℕ) → put ph i live j ≡ live → (j ≡ i) ⊎ ((j ≢ i) × (ph j ≡ live))
live_cases ph i j e = elim (Bool-cases (j == i)) [
  | inl same ↦ inl (==→eq j i same)
  | inr other ↦ inr (==→ne j i other, sym (ap (λ b. if b then live else ph j) other) ∙ e)
]

module _ (m : Machine) (ph : ℕ → Phase) (i p : ℕ) (r : List Block) (s : IsShared m ph)
    (e : ph i ≡ fresh) (tiled : IsTiled total r) (pos : 0 < p)
    (takes : (x : ℕ) → used_at x r ≡ (if x == (p - 1) then 1 else 0) + used_at x m.blocks) where
  abbrev after : Machine
  after = record { blocks = r; allocs = λ j. if j == i then some p else m.allocs j }

  its : after.allocs i ≡ some p
  its = ap (λ b. if b then some p else m.allocs i) (==_self i)

  others : (j : ℕ) → j ≢ i → after.allocs j ≡ m.allocs j
  others j h = ap (λ b. if b then some p else m.allocs j) (ne→== j i h)

  -- The block was not used, and is now.
  unused : (used_at (p - 1) m.blocks ≡ 0) × (used_at (p - 1) r ≡ 1)
  unfolding IsTiled
  unused =
      let once = used_at-once (p - 1) 0 total r tiled.0 in
      let more : used_at (p - 1) r ≡ 1 + used_at (p - 1) m.blocks =
        takes (p - 1)
        ∙ ap (λ b. (if b then 1 else 0) + used_at (p - 1) m.blocks) (==_self (p - 1)) in
      (omega (arith, once, more), omega (arith, once, more))

  -- No process that was live has the pointer.
  not_given : (j : ℕ) → ph j ≡ live → m.allocs j ≢ some p
  not_given j live_j at =
      let (q, at_q, pos_q, once_q) = s.has j live_j in
      let same : q ≡ p = cc (sym at_q ∙ at) in
      let used = ap (λ z. used_at (z - 1) m.blocks) (sym same) ∙ once_q in
      let free_before = unused.0 in omega (arith, used, free_before)

  pub admitted-IsShared : IsShared after (put ph i live)
  admitted-IsShared = record {
    tiled = tiled;
    has = λ j live_j. elim (live_cases ph i j live_j) [
      | inl same ↦ (p, ap after.allocs same ∙ its, pos, unused.1)
      | inr (other, before) ↦
          let (q, at_q, pos_q, once_q) = s.has j before in
          let away : ((q - 1) == (p - 1)) ≡ false =
            ne→== (q - 1) (p - 1)
              (λ x. not_given j before (at_q ∙ ap some (omega (arith, x, pos, pos_q)))) in
          (
            q,
            others j other ∙ at_q,
            pos_q,
            takes (q - 1)
                ∙ ap (λ b. (if b then 1 else 0) + used_at (q - 1) m.blocks) away
                ∙ omega (arith, once_q),
          )
    ];
    own = λ j k q live_j live_k at_j at_k. elim (live_cases ph i j live_j) [
      | inl same ↦ elim (live_cases ph i k live_k) [
        | inl also ↦ same ∙ sym also
        | inr (other, before) ↦ absurd (
            not_given k before
              (sym (others k other) ∙ at_k ∙ sym at_j ∙ ap after.allocs same ∙ its))
      ]
      | inr (apart, was) ↦ elim (live_cases ph i k live_k) [
        | inl also ↦
            absurd (
              not_given j was (sym (others j apart) ∙ at_j ∙ sym at_k ∙ ap after.allocs also ∙ its))
        | inr (other, before) ↦
            s.own j k q was before (sym (others j apart) ∙ at_j) (sym (others k other) ∙ at_k)
      ]
    ];
    whose = λ x used. elim (Bool-cases (x == (p - 1))) [
      | inl here ↦
          let at = ==→eq x (p - 1) here in
          (i, put_self ph i live, its ∙ ap some (omega (arith, at, pos)))
      | inr away ↦
          let stays = takes x ∙ ap (λ b. (if b then 1 else 0) + used_at x m.blocks) away in
          let (j, live_j, at_j) = s.whose x (omega (arith, stays, used)) in
          let other : j ≢ i = λ same. ground (arith, sym live_j ∙ ap ph same ∙ e) in
          (j, put_other ph i j live other ∙ live_j, others j other ∙ at_j)
    ];
  }
