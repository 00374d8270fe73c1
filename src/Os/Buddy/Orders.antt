-- ===== src/Os/Buddy/Orders.antt =====
-- The blocks that the processes hold are those of the buddy allocator's client.
use memory_allocator.Base.{
  ℕ, ◌+◌, ◌^◌, ◌≤◌, ◌≡◌, refl, sym, ap, subst, ◌∙◌, inl, inr, none, some, List, [], ◌∷◌, ◌++◌, All,
  arith,
}
use memory_allocator.Memory.Buddy.{
  Logs, BuddyAllocator, get_order, block_size_for_request, allocate, free,
}
use memory_allocator.Memory.Buddy.Clients.{
  LogLaws, Conserves, allocate-Allocated, Allocated-Conserves, free-Conserves, held_weight-append,
  IsHeld, grab, allocate-Conserves, All-middle,
}
use memory_allocator.Memory.Buddy.Orders.{order_of_block, reported_size, get_order-same}
use memory_allocator.Os.Scheduler.Shares.{IsTracked}
use memory_allocator.Os.Buddy.{memory}

-- Addresses and orders, as addresses and sizes.
abbrev pub sized : ℕ → List (ℕ × ℕ) → List (ℕ × ℕ)
sized m [] = []
sized m ((x, k) ∷ l) = (x, 2 ^ (m + k)) ∷ sized m l

first : List (ℕ × ℕ) → ℕ × ℕ
first [] = (0, 0)
first (h ∷ l) = h

behind : List (ℕ × ℕ) → List (ℕ × ℕ)
behind [] = []
behind (h ∷ l) = l

-- A list of sizes comes apart as the list of orders does.
sized-append :
    (m : ℕ) (h ys zs : List (ℕ × ℕ))
    → sized m h ≡ ys ++ zs
    → (us : List (ℕ × ℕ)) × (vs : List (ℕ × ℕ)) × (h ≡ us ++ vs)
      × (sized m us ≡ ys)
      × (sized m vs ≡ zs)
unfolding first behind
sized-append m h [] zs e = ([], h, refl, refl, e)
sized-append m [] (y ∷ ys) zs e = ground (arith, e)
sized-append m ((a, k) ∷ h) (y ∷ ys) zs e =
    let (us, vs, x, f, g) = sized-append m h ys zs (ap behind e) in
    (
      (a, k) ∷ us,
      vs,
      ap (λ l. (a, k) ∷ l) x,
      ap (λ l. (a, 2 ^ (m + k)) ∷ l) f ∙ ap (λ z. z ∷ ys) (ap first e),
      g,
    )

sized-middle :
    (m : ℕ) (us vs : List (ℕ × ℕ)) (x k : ℕ)
    → sized m (us ++ (x, k) ∷ vs) ≡ sized m us ++ (x, 2 ^ (m + k)) ∷ sized m vs
sized-middle m [] vs x k = refl
sized-middle m ((a, j) ∷ us) vs x k = ap (λ l. (a, 2 ^ (m + j)) ∷ l) (sized-middle m us vs x k)

sized-joined : (m : ℕ) (us vs : List (ℕ × ℕ)) → sized m (us ++ vs) ≡ sized m us ++ sized m vs
sized-joined m [] vs = refl
sized-joined m ((a, j) ∷ us) vs = ap (λ l. (a, 2 ^ (m + j)) ∷ l) (sized-joined m us vs)

sized-cons :
    (m : ℕ) (h zs : List (ℕ × ℕ)) (x n : ℕ)
    → sized m h ≡ (x, n) ∷ zs
    → (k : ℕ) × (vs : List (ℕ × ℕ)) × (h ≡ (x, k) ∷ vs) × (n ≡ 2 ^ (m + k)) × (sized m vs ≡ zs)
unfolding first behind
sized-cons m [] zs x n e = ground (arith, e)
sized-cons m ((a, k) ∷ h) zs x n e =
    (k, h, ap (λ z. (z.0, k) ∷ h) (ap first e), sym (ap (λ z. z.1) (ap first e)), ap behind e)

module _ (logs : Logs) (laws : LogLaws logs) (m max base : ℕ) (small : m + max ≤ 48) where
  -- The order in which blocks are held does not matter.
  Conserves-insert :
      (b : BuddyAllocator) (h : ℕ × ℕ) (us vs : List (ℕ × ℕ))
      → Conserves logs m max base b (h ∷ us ++ vs)
      → Conserves logs m max base b (us ++ h ∷ vs)
  Conserves-insert b h us vs c = record {
    valid = c.valid;
    blocks = insert us c.blocks.0 c.blocks.1;
    weight = λ w s.
        omega (arith, c.weight w s, held_weight-append w us vs, held_weight-append w us (h ∷ vs));
  }
    where
      insert :
          (us : List (ℕ × ℕ))
          → IsHeld logs m max base h
          → All (IsHeld logs m max base) (us ++ vs)
          → All (IsHeld logs m max base) (us ++ h ∷ vs)
      insert [] x a = (x, a)
      insert (u ∷ us) x a = (a.0, insert us x a.1)

  -- The blocks with their sizes are blocks that a client holds.
  unfoldable pub Owes : BuddyAllocator → List (ℕ × ℕ) → Type 1
  Owes b l = (h : List (ℕ × ℕ)) × Conserves logs m max base b h × (sized m h ≡ l)

  pub takes-Owes :
      (a b : BuddyAllocator) (size x : ℕ) (ys zs : List (ℕ × ℕ))
      → Owes a (ys ++ zs)
      → allocate logs a size ≡ (some x, b)
      → Owes b (ys ++ (x, block_size_for_request logs b size) ∷ zs)
  unfolding Owes
  takes-Owes a b size x ys zs (h, c, e) given =
      elim (allocate-Allocated logs m max base a size c.valid) [
        | inl (over, none_left) ↦ cc (ap (λ r. r.0) (sym none_left ∙ given))
        | inr (l, answer) ↦
            let (us, vs, apart, f, g) = sized-append m h ys zs e in
            let order = get_order logs a size in
            let grown =
              subst (λ r. Conserves logs m max base r.1 (grab logs m max base r.0 order h)) given
                (Allocated-Conserves logs m max base a order h l c answer) in
            let placed =
              Conserves-insert b (x, order) us vs
                (subst (λ t. Conserves logs m max base b ((x, order) ∷ t)) apart grown) in
            let same =
              get_order-same logs b a size (placed.valid.shape.unit ∙ sym c.valid.shape.unit) in
            let reported =
              reported_size logs laws m max b size placed.valid.shape (omega (arith, same, l))
              ∙ ap (λ k. 2 ^ (m + k)) same in
            (
              us ++ (x, order) ∷ vs,
              placed,
              sized-middle m us vs x order
                  ∙ ap (λ t. t ++ (x, 2 ^ (m + order)) ∷ sized m vs) f
                  ∙ ap (λ t. ys ++ (x, 2 ^ (m + order)) ∷ t) g
                  ∙ ap (λ n. ys ++ (x, n) ∷ zs) (sym reported),
            )
      ]

  pub refuses-Owes :
      (a b : BuddyAllocator) (size : ℕ) (l : List (ℕ × ℕ))
      → Owes a l
      → allocate logs a size ≡ (none, b)
      → Owes b l
  unfolding Owes
  refuses-Owes a b size l (h, c, e) given = (
    h,
    subst (λ r. Conserves logs m max base r.1 (grab logs m max base r.0 (get_order logs a size) h))
        given (allocate-Conserves logs m max base a size h c),
    e,
  )

  pub gives-Owes :
      (a : BuddyAllocator) (x n : ℕ) (ys zs : List (ℕ × ℕ))
      → Owes a (ys ++ (x, n) ∷ zs)
      → Owes (free logs a x n) (ys ++ zs)
  unfolding Owes
  gives-Owes a x n ys zs (h, c, e) =
      let (us, ws, apart, f, g) = sized-append m h ys ((x, n) ∷ zs) e in
      let (k, vs, cons, size, tail) = sized-cons m ws zs x n g in
      let whole =
        subst (λ t. Conserves logs m max base a (us ++ t)) cons
          (subst (Conserves logs m max base a) apart c) in
      let (is, others) = All-middle logs m max base us (x, k) vs whole.blocks in
      let within = is.0 in
      let order : get_order logs a n ≡ k =
        ap (get_order logs a) size
        ∙ order_of_block logs laws m k a c.valid.shape.unit (omega (arith, within, small)) in
      (
        us ++ vs,
        free-Conserves logs m max base a x n us vs
            (subst (λ t. Conserves logs m max base a (us ++ (x, t) ∷ vs)) (sym order) whole),
        sized-joined m us vs ∙ ap (λ t. t ++ sized m vs) f ∙ ap (λ t. ys ++ t) tail,
      )

  unfoldable pub tracked : IsTracked (memory logs)
  tracked = record { Holds = Owes; takes = takes-Owes; refuses = refuses-Owes; gives = gives-Owes }
