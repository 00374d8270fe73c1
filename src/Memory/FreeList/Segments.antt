-- ===== src/Memory/FreeList/Segments.antt =====
-- A free list in the heap stands for the list of its addresses.
use memory_allocator.Base.{
  ℕ, zero, suc, ◌+◌, ◌*◌, ◌^◌, ◌<◌, ◌≡◌, ◌≢◌, sym, subst, ◌∙◌, refl, ◌==◌, ne→==, ==_self,
  if◌then◌else◌, Bool, true, false, List, [], ◌∷◌, All, length, arith, Bool-cases, inl, inr,
}
use memory_allocator.Base.Bits.{add64}
use memory_allocator.Memory.FreeList.{
  Heap, update, link_nodes, next_of, FreeList, push_node, pop_node, remove_from,
  remove_node_if_present,
}

-- From `p` the words of the heap lead through the addresses of the list and end at null.
abbrev pub Chain : Heap → ℕ → List ℕ → Type 0
Chain h p [] = p ≡ 0
Chain h p (x ∷ xs) = (p ≡ x) × (x ≢ 0) × Chain h (h x) xs

-- `a` is not in the list.
abbrev pub Fresh : ℕ → List ℕ → Type 0
Fresh a = All λ x. x ≢ a

abbrev pub Distinct : List ℕ → Type 0
Distinct [] = Unit
Distinct (x ∷ xs) = Fresh x xs × Distinct xs

pub Chain-update :
    (h : Heap) (a v p : ℕ) (xs : List ℕ) → Fresh a xs → Chain h p xs → Chain (update h a v) p xs
Chain-update h a v p [] f c = c
Chain-update h a v p (x ∷ xs) f c =
    (c.0, c.1, rw (ne→== x a f.0) (Chain-update h a v (h x) xs f.1 c.2))

-- The addresses of `n + 1` nodes from `current` on.
abbrev pub nodes : ℕ → ℕ → ℕ → List ℕ
nodes zero slot_size current = current ∷ []
nodes (suc n) slot_size current = current ∷ nodes n slot_size (current + slot_size)

pub nodes-Fresh : (n slot_size current a : ℕ) → a < current → Fresh a (nodes n slot_size current)
nodes-Fresh zero slot_size current a l = (omega arith, tt)
nodes-Fresh (suc n) slot_size current a l =
    (omega arith, nodes-Fresh n slot_size (current + slot_size) a (omega arith))

pub nodes-Distinct :
    (n slot_size current : ℕ) → 0 < slot_size → Distinct (nodes n slot_size current)
nodes-Distinct zero slot_size current l = (tt, tt)
nodes-Distinct (suc n) slot_size current l = (
  nodes-Fresh n slot_size (current + slot_size) current (omega arith),
  nodes-Distinct n slot_size (current + slot_size) l,
)

link_nodes-suc :
    (n slot_size current : ℕ) (h : Heap)
    → current + slot_size < 2 ^ 64
    → link_nodes (suc n) slot_size current h
      ≡ link_nodes n slot_size (current + slot_size) (update h current (current + slot_size))
unfolding link_nodes
link_nodes-suc n slot_size current h b =
    let e : add64 current slot_size ≡ current + slot_size = omega arith in rw e

-- The linking loop does not touch what lies below its first node.
link_nodes-below :
    (n slot_size current a : ℕ) (h : Heap)
    → a < current
    → current + n * slot_size < 2 ^ 64
    → link_nodes n slot_size current h a ≡ h a
link_nodes-below zero slot_size current a h l b =
    unfold link_nodes in rw (ne→== a current (omega arith))
link_nodes-below (suc n) slot_size current a h l b = rw (
  link_nodes-suc n slot_size current h (omega arith),
  link_nodes-below n slot_size (current + slot_size) a (update h current (current + slot_size))
      (omega arith) (omega arith),
  ne→== a current (omega arith),
)

pub link_nodes-Chain :
    (n slot_size current : ℕ) (h : Heap)
    → 0 < current
    → 0 < slot_size
    → current + n * slot_size < 2 ^ 64
    → Chain (link_nodes n slot_size current h) current (nodes n slot_size current)
link_nodes-Chain zero slot_size current h p s b =
    (refl, omega arith, unfold link_nodes in rw (==_self current))
link_nodes-Chain (suc n) slot_size current h p s b =
    let next : ℕ = current + slot_size in
    let h' : Heap = update h current next in
    subst (λ k. Chain k current (nodes (suc n) slot_size current))
      (sym (link_nodes-suc n slot_size current h (omega arith)))
      (
        refl,
        omega arith,
        rw
            (
              link_nodes-below n slot_size next current h' (omega arith) (omega arith),
              ==_self current,
            )
            (link_nodes-Chain n slot_size next h' (omega arith) s (omega arith)),
      )

-- A free list that stands for the given addresses.
pub record Represents (l : FreeList) (xs : List ℕ) : Type 0 where
  pub chain : Chain l.heap l.first xs
  pub distinct : Distinct xs

-- Pushing a node that is not null and not in the list puts it in front.
pub push_node-Represents :
    (l : FreeList) (a : ℕ) (xs : List ℕ)
    → a ≢ 0
    → Fresh a xs
    → Represents l xs
    → Represents (push_node l a) (a ∷ xs)
unfolding push_node
push_node-Represents l a xs nz f r = record {
  chain = (refl, nz, rw (==_self a) (Chain-update l.heap a l.first l.first xs f r.chain));
  distinct = (f, r.distinct);
}

-- Popping takes the node in front.
pub pop_node-Represents :
    (l : FreeList) (a : ℕ) (xs : List ℕ)
    → Represents l (a ∷ xs)
    → ((pop_node l).0 ≡ a) × Represents (pop_node l).1 xs
unfolding pop_node
pop_node-Represents l a xs r =
    (r.chain.0, record { chain = rw r.chain.0 r.chain.2; distinct = r.distinct.1 })

-- The list without the target, and whether it was there.
abbrev pub remove : ℕ → List ℕ → List ℕ
remove t [] = []
remove t (x ∷ xs) = if x == t then xs else x ∷ remove t xs

abbrev pub member : ℕ → List ℕ → Bool
member t [] = false
member t (x ∷ xs) = if x == t then true else member t xs

pub remove-Fresh : (a t : ℕ) (xs : List ℕ) → Fresh a xs → Fresh a (remove t xs)
remove-Fresh a t [] f = tt
remove-Fresh a t (x ∷ xs) f = elim (Bool-cases (x == t)) [
  | inl e ↦ rw e f.1
  | inr e ↦ rw e (f.0, remove-Fresh a t xs f.1)
]

pub remove-Distinct : (t : ℕ) (xs : List ℕ) → Distinct xs → Distinct (remove t xs)
remove-Distinct t [] d = tt
remove-Distinct t (x ∷ xs) d = elim (Bool-cases (x == t)) [
  | inl e ↦ rw e d.1
  | inr e ↦ rw e (remove-Fresh x t xs d.0, remove-Distinct t xs d.1)
]

-- What the walk does from the `next` word of a node `a` on: that word then leads to the rest
-- without the target, and every word of a node outside the rest is as it was.
walk_lem :
    (fuel a t : ℕ) (l : FreeList) (xs : List ℕ)
    → length xs < fuel
    → Chain l.heap (l.heap a) xs
    → Distinct (a ∷ xs)
    → let (found, l') = remove_from fuel (next_of a) t l in
      (found ≡ member t xs)
      × (l'.first ≡ l.first)
      × Chain l'.heap (l'.heap a) (remove t xs)
      × ((b : ℕ) → b ≢ a → Fresh b xs → l'.heap b ≡ l.heap b)
unfolding remove_from
walk_lem zero a t l xs s c d = absurd (omega arith)
walk_lem (suc fuel) a t l [] s c d = rw c (refl, refl, c, λ b n f. refl)
walk_lem (suc fuel) a t l (x ∷ xs) s c d = elim (Bool-cases (x == t)) [
  | inl e ↦
      rw (c.0, ne→== x 0 c.1, e, ==_self a)
        (
          refl,
          refl,
          Chain-update l.heap a (l.heap x) (l.heap x) xs d.0.1 c.2,
          λ b n f. rw (ne→== b a n),
        )
  | inr e ↦
      let ih = walk_lem fuel x t l xs (omega arith) c.2 d.1 in
      rw (c.0, ne→== x 0 c.1, e)
        (
          ih.0,
          ih.1,
          (ih.3 a (λ p. d.0.0 (sym p)) d.0.1 ∙ c.0, c.1, ih.2),
          λ b n f. ih.3 b (λ p. f.0 (sym p)) f.1,
        )
]

-- With fuel for every node, RemoveNodeIfPresent takes the target out of the list if it is there,
-- keeps the other nodes in order, and says whether it was there.
pub remove_node-Represents :
    (fuel t : ℕ) (l : FreeList) (xs : List ℕ)
    → length xs < fuel
    → Represents l xs
    → let (found, l') = remove_node_if_present fuel t l in
      (found ≡ member t xs) × Represents l' (remove t xs)
unfolding remove_node_if_present
remove_node-Represents zero t l xs s r = absurd (omega arith)
remove_node-Represents (suc fuel) t l [] s r =
    rw r.chain (refl, record { chain = refl; distinct = tt })
remove_node-Represents (suc fuel) t l (x ∷ xs) s r = elim (Bool-cases (x == t)) [
  | inl e ↦
      rw (r.chain.0, ne→== x 0 r.chain.1, e)
        (refl, record { chain = r.chain.2; distinct = r.distinct.1 })
  | inr e ↦
      let at_x : FreeList = record { first = x; heap = l.heap } in
      let w = walk_lem fuel x t at_x xs (omega arith) r.chain.2 r.distinct in
      rw (r.chain.0, ne→== x 0 r.chain.1, e)
        (
          w.0,
          record {
            chain = (w.1, r.chain.1, w.2);
            distinct = (remove-Fresh x t xs r.distinct.0, remove-Distinct t xs r.distinct.1);
          },
        )
]
