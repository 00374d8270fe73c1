-- ===== src/Vm/FrameAllocator/Clients.antt =====
-- The frames under any client that frees only what it holds.
use native.Mathlib.Nat.{add-zero}
use memory_allocator.Base.{
  ℕ, zero, suc, ◌+◌, ◌<◌, ◌≡◌, ◌^◌, refl, sym, ap, subst, ◌∙◌, ◌↔◌, ltb, if◌then◌else◌, true, false,
  List, [], ◌∷◌, ◌++◌, length, length-append, arith,
}
use memory_allocator.Base.Count.{count, count-append}
use memory_allocator.Vm.FrameAllocator.{
  FrameAllocator, Result, ok, bad_alloc, push_frames, construct, alloc, free, has_free, used_frames,
}

pub data Step (a : FrameAllocator) (held : List ℕ) : FrameAllocator → List ℕ → Type 0 where
  take : {f : ℕ} {a' : FrameAllocator} → alloc a ≡ ok (f, a') → Step a held a' (f ∷ held)
  give :
      (f : ℕ) (ys zs : List ℕ) {rest : List ℕ} {a' : FrameAllocator}
      → held ≡ ys ++ f ∷ zs
      → rest ≡ ys ++ zs
      → free a f ≡ a'
      → Step a held a' rest

pub data Reach (a : FrameAllocator) : FrameAllocator → List ℕ → Type 0 where
  here : Reach a a []
  next :
      {b b' : FrameAllocator} {held held' : List ℕ}
      → Reach a b held
      → Step b held b' held'
      → Reach a b' held'

-- Each frame below the total is free or held, once.
pub record Conserves (total : ℕ) (a : FrameAllocator) (held : List ℕ) : Type 0 where
  pub frames : a.total ≡ total
  pub once : (f : ℕ) → count f a.free_queue + count f held ≡ (if ltb f total then 1 else 0)
  pub number : length a.free_queue + length held ≡ total

push_frames-count :
    (n f : ℕ) (queue : List ℕ) (a : ℕ)
    → (if ltb a f then 1 else 0) ≡ count a queue
    → count a (push_frames n f queue) ≡ (if ltb a (n + f) then 1 else 0)
push_frames-count zero f queue a h =
    sym h ∙ ap {B = ℕ} (λ t. if ltb a t then 1 else 0) (omega arith)
push_frames-count (suc n) f queue a h =
    push_frames-count n (suc f) (queue ++ f ∷ []) a
      (rw (count-append a queue (f ∷ []), ← h) (ground arith))
    ∙ ap {B = ℕ} (λ t. if ltb a t then 1 else 0) (omega arith)

push_frames-length : (n f : ℕ) (queue : List ℕ) → length (push_frames n f queue) ≡ n + length queue
push_frames-length zero f queue = omega arith
push_frames-length (suc n) f queue =
    omega (arith, push_frames-length n (suc f) (queue ++ f ∷ []), length-append queue (f ∷ []))

construct-Conserves : (total : ℕ) → Conserves total (construct total) []
unfolding construct
construct-Conserves total = record {
  frames = refl;
  once = λ f. omega (
    arith,
    push_frames-count total 0 [] f (ground arith),
    ap {B = ℕ} (λ t. if ltb f t then 1 else 0) (add-zero total),
  );
  number = omega (arith, push_frames-length total 0 []);
}

alloc-Conserves :
    (total : ℕ) (a : FrameAllocator) (queue held : List ℕ) {f : ℕ} {a' : FrameAllocator}
    → a.free_queue ≡ queue
    → Conserves total a held
    → alloc a ≡ ok (f, a')
    → Conserves total a' (f ∷ held)
unfolding alloc
alloc-Conserves total a [] held q c e = cc (rw q at e)
alloc-Conserves total a (g ∷ rest) held {f} {a'} q c e =
    subst (λ (r : ℕ × FrameAllocator). Conserves total r.1 (r.0 ∷ held)) (taken (rw q at e))
      (record {
        frames = c.frames;
        once = λ x. omega (arith, c.once x, ap (count x) q);
        number = omega (arith, c.number, ap length q);
      })
  where
    given : Result (ℕ × FrameAllocator) → ℕ × FrameAllocator
    given (ok r) = r
    given bad_alloc = (0, a)

    taken :
        ◌≡◌ {A = Result (ℕ × FrameAllocator)}
          (ok (g, record { total = a.total; free_queue = rest }))
          (ok (f, a'))
        → ◌≡◌ {A = ℕ × FrameAllocator} (g, record { total = a.total; free_queue = rest }) (f, a')
    taken p = ap given p

Step-Conserves :
    {total : ℕ} {a a' : FrameAllocator} {held held' : List ℕ}
    → Step a held a' held'
    → Conserves total a held
    → Conserves total a' held'
unfolding free
Step-Conserves {total} {a} {held = held} (take e) c =
    alloc-Conserves total a a.free_queue held refl c e
Step-Conserves {total} {a} (give f ys zs h r e) c =
    rw (← e, r)
      (record {
        frames = c.frames;
        once = λ x. omega (
          arith,
          c.once x,
          ap (count x) h,
          count-append x a.free_queue (f ∷ []),
          count-append x ys (f ∷ zs),
          count-append x ys zs,
        );
        number = omega (
          arith,
          c.number,
          ap length h,
          length-append a.free_queue (f ∷ []),
          length-append ys (f ∷ zs),
          length-append ys zs,
        );
      })

reach-Conserves :
    {total : ℕ} {a b : FrameAllocator} {held : List ℕ}
    → Reach a b held
    → Conserves total a []
    → Conserves total b held
reach-Conserves here c = c
reach-Conserves (next r st) c = Step-Conserves st (reach-Conserves r c)

-- Of fewer than 2^32 frames, used by a client that frees only what it holds: at every moment each
-- frame number below the total is free or held exactly once and no other number is, used_frames
-- is the number of frames held, and has_free fails exactly when all of them are held.
pub frames_held_once :
    (total : ℕ) {a : FrameAllocator} {held : List ℕ}
    → total < 2 ^ 32
    → Reach (construct total) a held
    → ((f : ℕ) → count f a.free_queue + count f held ≡ (if ltb f total then 1 else 0))
      × (used_frames a ≡ length held)
      × ((has_free a ≡ false) ↔ (length held ≡ total))
unfolding used_frames has_free
frames_held_once total {a} {held} l r =
    let c : Conserves total a held = reach-Conserves r (construct-Conserves total) in
    (c.once, omega (arith, c.frames, c.number), empty_iff a.free_queue c.number)
  where
    empty_iff :
        (queue : List ℕ)
        → length queue + length held ≡ total
        → ((elim queue [ [] ↦ false | f ∷ rest ↦ true ]) ≡ false) ↔ (length held ≡ total)
    empty_iff [] n = (λ _. omega arith, λ _. refl)
    empty_iff (f ∷ rest) n = (λ e. cc e, λ e. absurd (omega arith))
