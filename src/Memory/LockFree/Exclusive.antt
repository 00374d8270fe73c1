-- ===== src/Memory/LockFree/Exclusive.antt =====
-- The lock-free list stays a list, and a pop takes a node that no thread holds.
use memory_allocator.Base.{
  ℕ, ◌+◌, ◌^◌, ◌<◌, ◌≡◌, refl, sym, subst, ◌∙◌, ◌==◌, ==→ne, ==_self, Bool, true, false, Bool-cases,
  inl, inr, none, some, List, [], ◌∷◌, All, arith,
}
use memory_allocator.Memory.FreeList.Segments.{Chain, Distinct, Chain-update}
use memory_allocator.Memory.LockFree.{
  TaggedPointer, LockFreeFreelist, same, construct, store_next, exchange, Thread, rest, pushing,
  stored, popping, linked, act,
}
use memory_allocator.Memory.LockFree.Threads.{
  System, update, give, Answers, Step, push, pop, acts, Reach, start, further, succeeded,
  exchanges_in, exchanges,
}
use memory_allocator.Memory.LockFree.Rely.{
  At, none≢some, some-inj, owned-Fresh, head-unowned, same-eq, others, pop-front, store-At,
  exchange-At, update-unowned,
}

record IsValid (s : System) : Type 0 where
  free : List ℕ
  chain : Chain s.list.next s.list.head.ptr free
  distinct : Distinct free
  unowned : All (λ a. s.owner a ≡ none) free
  threads : (i : ℕ) → At s.list s.owner i (s.thread i)

module _ (s : System) (i : ℕ) (v : IsValid s) where
  stays :
      (u : Thread)
      → At s.list s.owner i u
      → IsValid (record { list = s.list; thread = update s.thread i u; owner = s.owner })
  stays u here = record {
    free = v.free;
    chain = v.chain;
    distinct = v.distinct;
    unowned = v.unowned;
    threads = others s.list s.owner s.thread i u (λ j ne. v.threads j) here;
  }

  store-IsValid :
      (node : ℕ) (old : TaggedPointer)
      → At s.list s.owner i (pushing node old)
      → IsValid (record {
        list = store_next s.list node old.ptr;
        thread = update s.thread i (stored node old);
        owner = s.owner;
      })
  unfolding store_next
  store-IsValid node old h = record {
    free = v.free;
    chain =
        Chain-update s.list.next node old.ptr s.list.head.ptr v.free
          (owned-Fresh s.owner v.free h.0 v.unowned) v.chain;
    distinct = v.distinct;
    unowned = v.unowned;
    threads =
        others (store_next s.list node old.ptr) s.owner s.thread i (stored node old)
          (λ j ne.
            store-At s.list s.owner i j node old.ptr (s.thread j) h.0 ne
              (λ nz. head-unowned s.list.next s.owner s.list.head.ptr v.free nz v.chain v.unowned)
              (v.threads j))
          (h.0, h.1, rw (==_self node) refl);
  }

  push-IsValid :
      (node : ℕ) (old : TaggedPointer)
      → same s.list.head old ≡ true
      → s.list.head.tag + 1 < 2 ^ 64
      → At s.list s.owner i (stored node old)
      → IsValid (record {
        list = exchange s.list old node;
        thread = update s.thread i rest;
        owner = update s.owner node none;
      })
  unfolding exchange
  push-IsValid node old e room h =
      let (ptr_is, tag_is) = same-eq s.list.head old e in
      let fresh = owned-Fresh s.owner v.free h.0 v.unowned in
      record {
        free = node ∷ v.free;
        chain = (refl, h.1, subst (λ p. Chain s.list.next p v.free) (ptr_is ∙ sym h.2) v.chain);
        distinct = (fresh, v.distinct);
        unowned = (rw (==_self node) refl, update-unowned s.owner node none v.free fresh v.unowned);
        threads =
            others (exchange s.list old node) (update s.owner node none) s.thread i rest
              (λ j ne.
                exchange-At s.list s.owner j node node old none (s.thread j) (sym tag_is) room
                  (λ q. ne (some-inj q h.0)) (v.threads j))
              tt;
      }

  pop-IsValid :
      (old : TaggedPointer) (n : ℕ)
      → same s.list.head old ≡ true
      → s.list.head.tag + 1 < 2 ^ 64
      → At s.list s.owner i (linked old n)
      → IsValid (record {
        list = exchange s.list old n;
        thread = update s.thread i rest;
        owner = update s.owner old.ptr (some i);
      })
  unfolding exchange
  pop-IsValid old n e room h =
      let (ptr_is, tag_is) = same-eq s.list.head old e in
      let chain = subst (λ p. Chain s.list.next p v.free) ptr_is v.chain in
      let (xs, c, d, u, f) =
        pop-front s.list.next s.owner old.ptr v.free h.0 chain v.distinct v.unowned in
      let taken = head-unowned s.list.next s.owner old.ptr v.free h.0 chain v.unowned in
      record {
        free = xs;
        chain = subst (λ p. Chain s.list.next p xs) (sym (h.2 (sym tag_is))) c;
        distinct = d;
        unowned = update-unowned s.owner old.ptr (some i) xs f u;
        threads =
            others (exchange s.list old n) (update s.owner old.ptr (some i)) s.thread i rest
              (λ j ne.
                exchange-At s.list s.owner j old.ptr n old (some i) (s.thread j) (sym tag_is) room
                  (none≢some taken) (v.threads j))
              tt;
      }

  act-IsValid :
      (ok : Bool) (t : Thread)
      → Answers ok s.list t
      → s.list.head.tag + succeeded ok t < 2 ^ 64
      → At s.list s.owner i t
      → IsValid (record {
        list = (act ok s.list t).0;
        thread = update s.thread i (act ok s.list t).1;
        owner = give i ok t s.owner;
      })
  unfolding act
  act-IsValid true rest a room h = stays rest h
  act-IsValid false rest a room h = stays rest h
  act-IsValid true (pushing node old) a room h = store-IsValid node old h
  act-IsValid false (pushing node old) a room h = store-IsValid node old h
  act-IsValid true (stored node old) a room h = push-IsValid node old a room h
  act-IsValid false (stored node old) a room h = stays (pushing node s.list.head) (h.0, h.1)
  act-IsValid true (popping old) a room h = elim (Bool-cases (old.ptr == 0)) [
    | inl z ↦ rw z (stays rest tt)
    | inr z ↦ rw z (stays (linked old (s.list.next old.ptr)) (==→ne old.ptr 0 z, h, λ e. refl))
  ]
  act-IsValid false (popping old) a room h = elim (Bool-cases (old.ptr == 0)) [
    | inl z ↦ rw z (stays rest tt)
    | inr z ↦ rw z (stays (linked old (s.list.next old.ptr)) (==→ne old.ptr 0 z, h, λ e. refl))
  ]
  act-IsValid true (linked old n) a room h = pop-IsValid old n a room h
  act-IsValid false (linked old n) a room h = stays (popping s.list.head) (omega arith, λ q. refl)

-- The tag counts the exchanges that succeed.
act-tag :
    (l : LockFreeFreelist) (ok : Bool) (t : Thread)
    → Answers ok l t
    → l.head.tag + succeeded ok t < 2 ^ 64
    → (act ok l t).0.head.tag ≡ l.head.tag + succeeded ok t
unfolding act store_next exchange
act-tag l true rest a room = omega arith
act-tag l false rest a room = omega arith
act-tag l true (pushing node old) a room = omega arith
act-tag l false (pushing node old) a room = omega arith
act-tag l true (stored node old) a room =
    let tag_is = (same-eq l.head old a).1 in omega (arith, tag_is, room)
act-tag l false (stored node old) a room = omega arith
act-tag l true (popping old) a room = elim (Bool-cases (old.ptr == 0)) [
  | inl z ↦ rw z omega arith
  | inr z ↦ rw z omega arith
]
act-tag l false (popping old) a room = elim (Bool-cases (old.ptr == 0)) [
  | inl z ↦ rw z omega arith
  | inr z ↦ rw z omega arith
]
act-tag l true (linked old n) a room =
    let tag_is = (same-eq l.head old a).1 in omega (arith, tag_is, room)
act-tag l false (linked old n) a room = omega arith

-- The tag is the number of exchanges so far, as long as they are fewer than 2^64.
abbrev IsCounted : ℕ → System → Type 0
IsCounted n s = IsValid s × (s.list.head.tag ≡ n)

Step-IsCounted :
    {s t : System} (n : ℕ) (st : Step s t)
    → n + exchanges_in st < 2 ^ 64
    → IsCounted n s
    → IsCounted (n + exchanges_in st) t
Step-IsCounted n (push {s} i node r nz o) room (v, is) =
    (stays s i v (pushing node s.list.head) (o, nz), omega (arith, is))
Step-IsCounted n (pop {s} i r) room (v, is) =
    (stays s i v (popping s.list.head) (omega arith, λ q. refl), omega (arith, is))
Step-IsCounted n (acts {s} i ok t at a) room (v, is) =
    let space : s.list.head.tag + succeeded ok t < 2 ^ 64 = omega (arith, room, is) in
    (
      act-IsValid s i v ok t a space (subst (At s.list s.owner i) at (v.threads i)),
      omega (arith, act-tag s.list ok t a space, is),
    )

reach-IsCounted :
    {next holder : ℕ → ℕ} {s : System} (r : Reach next holder s)
    → exchanges r < 2 ^ 64
    → IsCounted (exchanges r) s
unfolding construct
reach-IsCounted start room =
    (record { free = []; chain = refl; distinct = tt; unowned = tt; threads = λ i. tt }, refl)
reach-IsCounted (further r st) room =
    Step-IsCounted (exchanges r) st room (reach-IsCounted r (omega (arith, room)))

-- However threads that push only nodes that they hold interleave on a new list, as long as fewer
-- than 2^64 exchanges have succeeded: if the exchange of a pop can succeed, then the node that it
-- takes is at the head of the list and held by no thread, and the link that was read, however long
-- ago, is the node's link still.
pub pop_takes_free_node :
    {next holder : ℕ → ℕ} {s : System} (i : ℕ) {old : TaggedPointer} {n : ℕ}
    (r : Reach next holder s)
    → exchanges r < 2 ^ 64
    → s.thread i ≡ linked old n
    → same s.list.head old ≡ true
    → (s.owner old.ptr ≡ none) × (n ≡ s.list.next old.ptr)
pop_takes_free_node {s = s} i {old} {n} r few at e =
    let v = (reach-IsCounted r few).0 in
    let h = subst (At s.list s.owner i) at (v.threads i) in
    let (ptr_is, tag_is) = same-eq s.list.head old e in
    let chain = subst (λ p. Chain s.list.next p v.free) ptr_is v.chain in
    (head-unowned s.list.next s.owner old.ptr v.free h.0 chain v.unowned, h.2 (sym tag_is))

-- However threads that push only nodes that they hold interleave on a new list, as long as fewer
-- than 2^64 exchanges have succeeded: the links lead from the head through different nodes to null,
-- and no thread holds any of them.
pub list_stays_intact :
    {next holder : ℕ → ℕ} {s : System} (r : Reach next holder s)
    → exchanges r < 2 ^ 64
    → (free : List ℕ) × Chain s.list.next s.list.head.ptr free
      × Distinct free
      × All (λ a. s.owner a ≡ none) free
list_stays_intact r few =
    let v = (reach-IsCounted r few).0 in (v.free, v.chain, v.distinct, v.unowned)
