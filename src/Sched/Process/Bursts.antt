-- ===== src/Sched/Process/Bursts.antt =====
-- How a process goes through its bursts.
use memory_allocator.Base.{
  ℕ, zero, suc, ◌^◌, ◌<◌, ◌≡◌, refl, sym, ap, ◌∙◌, ltb, true, false, Option, none, some, List, [],
  ◌∷◌, length, get_elem?, arith,
}
use memory_allocator.Base.Bits.{add64}
use memory_allocator.Sched.Process.{
  Burst, Process, enter_burst, advance_burst, has_more_bursts, current_burst,
}

get_elem-inside {ℓ} :
    {A : Type ℓ} (l : List A) (i : ℕ) {a : A} → get_elem? l i ≡ some a → ltb i (length l) ≡ true
get_elem-inside [] i e = ground (arith, e)
get_elem-inside (x ∷ l) zero e = ground arith
get_elem-inside (x ∷ l) (suc i) e = ground (arith, get_elem-inside l i e)

get_elem-outside {ℓ} :
    {A : Type ℓ} (l : List A) (i : ℕ) → get_elem? l i ≡ none → ltb i (length l) ≡ false
get_elem-outside [] i e = ground arith
get_elem-outside (x ∷ l) zero e = ground (arith, e)
get_elem-outside (x ∷ l) (suc i) e = ground (arith, get_elem-outside l i e)

abbrev ticks_of : ℕ → Option Burst → ℕ
ticks_of t none = t
ticks_of t (some b) = b.ticks

-- Advancing a process that has a burst counts one burst on; it answers whether there is a further
-- burst, and then the remaining ticks are those of the burst that is current.
pub advance_burst_lem :
    (p : Process)
    → p.cur_burst < length p.bursts
    → length p.bursts < 2 ^ 64
    → let (more, q) = advance_burst p in
      (q.cur_burst ≡ suc p.cur_burst)
      × (more ≡ has_more_bursts q)
      × ((b : Burst) → current_burst q ≡ some b → q.burst_remaining ≡ b.ticks)
unfolding advance_burst has_more_bursts current_burst enter_burst
advance_burst_lem p h w = moved (get_elem? p.bursts (add64 p.cur_burst 1)) refl
  where
    counted : add64 p.cur_burst 1 ≡ suc p.cur_burst
    counted = omega (arith, h, w)

    moved :
        (o : Option Burst)
        → get_elem? p.bursts (add64 p.cur_burst 1) ≡ o
        → let (more, q) = enter_burst (record p { cur_burst = add64 p.cur_burst 1 }) o in
          (q.cur_burst ≡ suc p.cur_burst)
          × (more ≡ has_more_bursts q)
          × ((b : Burst) → current_burst q ≡ some b → q.burst_remaining ≡ b.ticks)
    moved none e = (
      counted,
      sym (get_elem-outside p.bursts (add64 p.cur_burst 1) e),
      λ b c. ground (arith, sym e ∙ c),
    )
    moved (some a) e = (
      counted,
      sym (get_elem-inside p.bursts (add64 p.cur_burst 1) e),
      λ b c. ap (ticks_of a.ticks) (sym e ∙ c),
    )
