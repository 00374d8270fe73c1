-- ===== src/Vm/Clock/SecondChance.antt =====
-- What the clock's `victim` finds.
use memory_allocator.Base.{
  ℕ, zero, suc, ◌+◌, ◌*◌, ◌%◌, ◌≤◌, ◌<◌, ◌≡◌, refl, sym, ap, ◌∙◌, ◌==◌, if◌then◌else◌, Bool, true,
  false, Bool-cases, inl, inr, Option, some, List, [], ◌∷◌, length, length-set, get_elem?, set,
  get_elem-set, arith,
}
use memory_allocator.Vm.Clock.{Slot, Clock, scan, victim}
use native.Mathlib.Nat.{mod-lt}

-- The slots with the reference bit.
abbrev pub referenced : List Slot → ℕ
referenced [] = 0
referenced (s ∷ rest) = (if s.ref then 1 else 0) + referenced rest

abbrev pub frames : List Slot → List ℕ
frames [] = []
frames (s ∷ rest) = s.frame ∷ frames rest

referenced-le : (ring : List Slot) → referenced ring ≤ length ring
referenced-le [] = omega arith
referenced-le (s ∷ rest) = ground (arith, referenced-le rest)

get_elem?-lt :
    (ring : List Slot) (i : ℕ) → i < length ring → (s : Slot) × (get_elem? ring i ≡ some s)
get_elem?-lt [] i h = absurd (omega arith)
get_elem?-lt (s ∷ rest) zero h = (s, refl)
get_elem?-lt (s ∷ rest) (suc i) h = get_elem?-lt rest i (omega arith)

referenced-set :
    (ring : List Slot) (i : ℕ) (s : Slot)
    → get_elem? ring i ≡ some s
    → s.ref ≡ true
    → referenced (set ring i (record s { ref = false })) + 1 ≡ referenced ring
referenced-set [] i s h r = cc h
referenced-set (t ∷ rest) zero s h r = let same : t ≡ s = cc h in rw (same, r) (omega arith)
referenced-set (t ∷ rest) (suc i) s h r = omega (arith, referenced-set rest i s h r)

frames-set :
    (ring : List Slot) (i : ℕ) (s : Slot) (b : Bool)
    → get_elem? ring i ≡ some s
    → frames (set ring i (record s { ref = b })) ≡ frames ring
frames-set [] i s b h = refl
frames-set (t ∷ rest) zero s b h = let same : t ≡ s = cc h in rw same
frames-set (t ∷ rest) (suc i) s b h = ap (λ l. t.frame ∷ l) (frames-set rest i s b h)

-- The clock after a slot's bit is cleared and the hand moves on.
abbrev cleared : Clock → Slot → Clock
cleared p s = record p {
  ring = set p.ring p.hand (record s { ref = false });
  hand = (p.hand + 1) % length p.ring;
}

-- The clock comes to another in so many tries, each of which finds a slot with its reference bit
-- under the hand, clears the bit and moves the hand on.
pub data Passes : ℕ → Clock → Clock → Type 0 where
  there : {p : Clock} → Passes 0 p p
  on :
      {k : ℕ} {p q : Clock} (s : Slot)
      → get_elem? p.ring p.hand ≡ some s
      → s.ref ≡ true
      → Passes k (cleared p s) q
      → Passes (suc k) p q

-- The hand stands on a slot without the reference bit, which holds the frame found, after fewer
-- tries than the loop has.
pub record Found (p : Clock) (limit : ℕ) (r : Option ℕ × Clock) : Type 0 where
  pub frame : ℕ
  pub tries : ℕ
  pub within : tries < limit
  pub passes : Passes tries p r.1
  pub picked : r.0 ≡ some frame
  pub under_hand : get_elem? r.1.ring r.1.hand ≡ some (record { frame = frame; ref = false })
  pub kept : frames r.1.ring ≡ frames p.ring
  pub no_gain :
      (i : ℕ) (s : Slot)
      → get_elem? r.1.ring i ≡ some s
      → s.ref ≡ true
      → get_elem? p.ring i ≡ some s
  pub idx : r.1.frame_idx ≡ p.frame_idx

scan-cleared :
    (tries : ℕ) (p : Clock) (s : Slot)
    → get_elem? p.ring p.hand ≡ some s
    → s.ref ≡ true
    → scan (suc tries) p ≡ scan tries (cleared p s)
unfolding scan
scan-cleared tries p s e r = ground (arith, e, r)

scan-hit :
    (tries : ℕ) (p : Clock) (s : Slot)
    → get_elem? p.ring p.hand ≡ some s
    → s.ref ≡ false
    → scan (suc tries) p ≡ (some s.frame, p)
unfolding scan
scan-hit tries p s e r = ground (arith, e, r)

-- A slot that still has its bit was not cleared.
still_there :
    (ring : List Slot) (h i : ℕ) (s t : Slot)
    → get_elem? ring h ≡ some s
    → get_elem? (set ring h (record s { ref = false })) i ≡ some t
    → t.ref ≡ true
    → get_elem? ring i ≡ some t
still_there ring h i s t e at bit =
    let moved = sym (get_elem-set ring h i (record s { ref = false }) e) ∙ at in
    elim (Bool-cases (i == h)) [
      | inl same ↦
          let gone : some (record s { ref = false }) ≡ some t =
            sym (ap (λ b. if b then some (record s { ref = false }) else get_elem? ring i) same)
            ∙ moved in
          let is : record s { ref = false } ≡ t = cc gone in ground (arith, ap (λ x. x.ref) is, bit)
      | inr other ↦
          sym (ap (λ b. if b then some (record s { ref = false }) else get_elem? ring i) other)
          ∙ moved
    ]

cleared-Found :
    (p : Clock) (s : Slot) {limit : ℕ} {r : Option ℕ × Clock}
    → get_elem? p.ring p.hand ≡ some s
    → s.ref ≡ true
    → Found (cleared p s) limit r
    → Found p (suc limit) r
cleared-Found p s e r f = record {
  frame = f.frame;
  tries = suc f.tries;
  within = omega (arith, f.within);
  passes = on s e r f.passes;
  picked = f.picked;
  under_hand = f.under_hand;
  kept = f.kept ∙ frames-set p.ring p.hand s false e;
  no_gain = λ i t at bit. still_there p.ring p.hand i s t e (f.no_gain i t at bit) bit;
  idx = f.idx;
}

scan-Found :
    (tries : ℕ) (p : Clock)
    → p.hand < length p.ring
    → referenced p.ring < tries
    → Found p tries (scan tries p)
scan-Found zero p h l = absurd (omega arith)
scan-Found (suc tries) p h l =
    let (s, e) = get_elem?-lt p.ring p.hand h in
    elim (Bool-cases s.ref) [
      | inl r ↦
          let f =
            scan-Found tries (cleared p s)
              (omega (
                arith,
                mod-lt (p.hand + 1) {m = length p.ring} (omega arith),
                length-set p.ring p.hand (record s { ref = false }),
              ))
              (omega (arith, referenced-set p.ring p.hand s e r)) in
          rw (scan-cleared tries p s e r) (cleared-Found p s e r f)
      | inr r ↦ rw (scan-hit tries p s e r) (record {
        frame = s.frame;
        tries = 0;
        within = omega arith;
        passes = there;
        picked = refl;
        under_hand = e ∙ ap (λ b. some (record s { ref = b })) r;
        kept = refl;
        no_gain = λ i t at bit. at;
        idx = refl;
      })
    ]

-- With the hand in the ring, `victim` passes over slots with a reference bit, clearing it, and stops
-- by its test, in fewer than its `2n` tries, with the hand on a slot without one, whose frame it
-- returns; the frames stay in their places, and a slot that has a reference bit had it before.
pub victim-Found : (p : Clock) → p.hand < length p.ring → Found p (length p.ring * 2) (victim p)
unfolding victim
victim-Found p h = scan-Found (length p.ring * 2) p h (omega (arith, referenced-le p.ring))
