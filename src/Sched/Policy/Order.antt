-- ===== src/Sched/Policy/Order.antt =====
-- Sequences of calls of a policy that serves in order of arrival.
use memory_allocator.Base.{
  ℕ, ◌≡◌, refl, sym, ap, subst, ◌∙◌, Option, none, some, List, [], ◌∷◌, ◌++◌, append_assoc,
  append-nil,
}
use memory_allocator.Sched.Policy.{Scheduler, pick_front, IsInOrder}

-- A call of the policy: a process arrives, or the next one is picked.
pub data Call : Type 0 where
  arrive : ℕ → Call
  pick : Call

-- The processes that arrive.
abbrev pub arrivals : List Call → List ℕ
arrivals [] = []
arrivals (arrive p ∷ cs) = p ∷ arrivals cs
arrivals (pick ∷ cs) = arrivals cs

abbrev pub picked : Option ℕ → List ℕ → List ℕ
picked none ps = ps
picked (some p) ps = p ∷ ps

module _ {S : Type 0} (sched : Scheduler S) where
  -- The processes that the calls pick, and the state after them.
  unfoldable pub run : List Call → S → List ℕ × S
  run [] s = ([], s)
  run (arrive p ∷ cs) s = run cs (sched.add s p)
  run (pick ∷ cs) s = let (p, t) = sched.pick_next s in let (ps, u) = run cs t in (picked p ps, u)

  module _ (order : IsInOrder sched) where
    picked-front :
        (l ps rest : List ℕ)
        → picked (pick_front l).0 (ps ++ rest) ≡ picked (pick_front l).0 ps ++ rest
    picked-front [] ps rest = refl
    picked-front (p ∷ l) ps rest = refl

    front-split : (l r : List ℕ) → picked (pick_front l).0 ((pick_front l).1 ++ r) ≡ l ++ r
    front-split [] r = refl
    front-split (p ∷ l) r = refl

    -- The processes picked, followed by those that wait at the end, are those that waited at the
    -- start followed by the arrivals.
    pub run-order :
        (cs : List Call) (s : S)
        → (run cs s).0 ++ order.waiting (run cs s).1 ≡ order.waiting s ++ arrivals cs
    unfolding run
    run-order [] s = sym (append-nil (order.waiting s))
    run-order (arrive p ∷ cs) s =
        run-order cs (sched.add s p)
        ∙ ap (λ l. l ++ arrivals cs) (order.adds_behind s p)
        ∙ append_assoc (order.waiting s) (p ∷ []) (arrivals cs)
    run-order (pick ∷ cs) s =
        let t = (sched.pick_next s).1 in
        let (front, rest) = order.picks_front s in
        let l = order.waiting s in
        let ih : (run cs t).0 ++ order.waiting (run cs t).1 ≡ (pick_front l).1 ++ arrivals cs =
          run-order cs t ∙ ap (λ w. w ++ arrivals cs) rest in
        subst (λ o. picked o (run cs t).0 ++ order.waiting (run cs t).1 ≡ l ++ arrivals cs)
          (sym front)
          (sym (picked-front l (run cs t).0 (order.waiting (run cs t).1))
            ∙ ap (picked (pick_front l).0) ih
            ∙ front-split l (arrivals cs))
