-- ===== src/Memory/LockFree/Rely.antt =====
-- What a thread of the lock-free list relies on, and what the others' accesses keep of it.
use memory_allocator.Base.{
  ℕ, ◌+◌, ◌^◌, ◌≤◌, ◌<◌, ◌≡◌, ◌≢◌, sym, ap, subst, ◌∙◌, ◌==◌, ==→eq, ==→ne, ne→==, true, Bool-cases,
  inl, inr, Option, none, some, List, [], ◌∷◌, All, arith,
}
use memory_allocator.Memory.FreeList.Segments.{Chain, Fresh, Distinct}
use memory_allocator.Memory.LockFree.{
  TaggedPointer, same, LockFreeFreelist, store_next, exchange, Thread, rest, pushing, stored,
  popping, linked,
}
use memory_allocator.Memory.LockFree.Threads.{update}

-- A head that was loaded: the tag has not fallen since, and if it is the same then so is the node.
abbrev pub Loaded : LockFreeFreelist → TaggedPointer → Type 0
Loaded l old = (old.tag ≤ l.head.tag) × (old.tag ≡ l.head.tag → old.ptr ≡ l.head.ptr)

-- What a thread relies on.
abbrev pub At : LockFreeFreelist → (ℕ → Option ℕ) → ℕ → Thread → Type 0
At l owner i rest = Unit
At l owner i (pushing node old) = (owner node ≡ some i) × (node ≢ 0)
At l owner i (stored node old) = (owner node ≡ some i) × (node ≢ 0) × (l.next node ≡ old.ptr)
At l owner i (popping old) = Loaded l old
At l owner i (linked old n) =
    (old.ptr ≢ 0) × Loaded l old × (old.tag ≡ l.head.tag → n ≡ l.next old.ptr)

pub none≢some : {i : ℕ} {o : Option ℕ} → o ≡ none → o ≡ some i → ⊥
none≢some a b = ground (arith, sym a ∙ b)

pub some-inj : {i j : ℕ} {o : Option ℕ} → o ≡ some i → o ≡ some j → i ≡ j
some-inj {i} a b = ap (λ o. elim o [ none ↦ i | some k ↦ k ]) (sym a ∙ b)

pub owned-Fresh :
    (owner : ℕ → Option ℕ) {a i : ℕ} (l : List ℕ)
    → owner a ≡ some i
    → All (λ x. owner x ≡ none) l
    → Fresh a l
owned-Fresh owner [] h u = _
owned-Fresh owner {a} (x ∷ l) h u =
    (λ e. none≢some (subst (λ z. owner z ≡ none) e u.0) h, owned-Fresh owner l h u.1)

-- The node that the head points to has no owner.
pub head-unowned :
    (next : ℕ → ℕ) (owner : ℕ → Option ℕ) (p : ℕ) (l : List ℕ)
    → p ≢ 0
    → Chain next p l
    → All (λ x. owner x ≡ none) l
    → owner p ≡ none
head-unowned next owner p [] nz c u = absurd (nz c)
head-unowned next owner p (x ∷ l) nz c u = subst (λ z. owner z ≡ none) (sym c.0) u.0

pub same-eq : (a b : TaggedPointer) → same a b ≡ true → (a.ptr ≡ b.ptr) × (a.tag ≡ b.tag)
unfolding same
same-eq a b h = ground (arith, h)

-- One thread moves on, and the others keep what they rely on.
pub others :
    (l : LockFreeFreelist) (owner : ℕ → Option ℕ) (thread : ℕ → Thread) (i : ℕ) (t : Thread)
    → ((j : ℕ) → j ≢ i → At l owner j (thread j))
    → At l owner i t
    → (j : ℕ) → At l owner j (update thread i t j)
others l owner thread i t all here j = elim (Bool-cases (j == i)) [
  | inl e ↦ rw e (subst (λ k. At l owner k t) (sym (==→eq j i e)) here)
  | inr e ↦ rw e (all j (==→ne j i e))
]

-- What is left of the list when its first node goes.
pub pop-front :
    (next : ℕ → ℕ) (owner : ℕ → Option ℕ) (p : ℕ) (l : List ℕ)
    → p ≢ 0
    → Chain next p l
    → Distinct l
    → All (λ x. owner x ≡ none) l
    → (xs : List ℕ) × Chain next (next p) xs
      × Distinct xs
      × All (λ x. owner x ≡ none) xs
      × Fresh p xs
pop-front next owner p [] nz c d u = absurd (nz c)
pop-front next owner p (x ∷ l) nz c d u = (
  l,
  subst (λ z. Chain next (next z) l) (sym c.0) c.2,
  d.1,
  u.1,
  subst (λ z. Fresh z l) (sym c.0) d.0,
)

-- Another thread over a store to a node that thread `i` holds.
pub store-At :
    (l : LockFreeFreelist) (owner : ℕ → Option ℕ) (i j node v : ℕ) (t : Thread)
    → owner node ≡ some i
    → j ≢ i
    → (l.head.ptr ≢ 0 → owner l.head.ptr ≡ none)
    → At l owner j t
    → At (store_next l node v) owner j t
unfolding store_next
store-At l owner i j node v rest o ne free a = _
store-At l owner i j node v (pushing other old) o ne free a = a
store-At l owner i j node v (stored other old) o ne free a =
    let apart : other ≢ node = λ e. ne (some-inj (subst (λ z. owner z ≡ some j) e a.0) o) in
    (a.0, a.1, rw (ne→== other node apart) a.2)
store-At l owner i j node v (popping old) o ne free a = a
store-At l owner i j node v (linked old n) o ne free a = (
  a.0,
  a.1,
  λ e.
      let at_head = a.1.1 e in
      let apart : old.ptr ≢ node = λ q.
        none≢some (free λ z. a.0 (at_head ∙ z))
          (subst (λ z. owner z ≡ some i) (sym q ∙ at_head) o) in
      rw (ne→== old.ptr node apart) (a.2 e),
)

-- Another thread over an exchange, which changes the owner of a node that it does not hold and does
-- not wrap the tag.
pub exchange-At :
    (l : LockFreeFreelist) (owner : ℕ → Option ℕ) (j x p : ℕ) (old : TaggedPointer) (v : Option ℕ)
    (t : Thread)
    → old.tag ≡ l.head.tag
    → l.head.tag + 1 < 2 ^ 64
    → (owner x ≡ some j → ⊥)
    → At l owner j t
    → At (exchange l old p) (update owner x v) j t
unfolding exchange
exchange-At l owner j x p old v rest e room ne a = _
exchange-At l owner j x p old v (pushing other o) e room ne a =
    let apart : other ≢ x = λ q. ne (subst (λ z. owner z ≡ some j) q a.0) in
    (rw (ne→== other x apart) a.0, a.1)
exchange-At l owner j x p old v (stored other o) e room ne a =
    let apart : other ≢ x = λ q. ne (subst (λ z. owner z ≡ some j) q a.0) in
    (rw (ne→== other x apart) a.0, a.1, a.2)
exchange-At l owner j x p old v (popping o) e room ne a =
    (omega (arith, a.0, e, room), λ q. absurd (omega (arith, a.0, e, q, room)))
exchange-At l owner j x p old v (linked o n) e room ne a = (
  a.0,
  (omega (arith, a.1.0, e, room), λ q. absurd (omega (arith, a.1.0, e, q, room))),
  λ q. absurd (omega (arith, a.1.0, e, q, room)),
)

-- A change of an owner that keeps the nodes of a list without one.
pub update-unowned :
    (owner : ℕ → Option ℕ) (x : ℕ) (v : Option ℕ) (l : List ℕ)
    → Fresh x l
    → All (λ a. owner a ≡ none) l
    → All (λ a. update owner x v a ≡ none) l
update-unowned owner x v [] f u = _
update-unowned owner x v (y ∷ l) f u = (rw (ne→== y x f.0) u.0, update-unowned owner x v l f.1 u.1)
