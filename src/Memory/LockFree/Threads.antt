-- ===== src/Memory/LockFree/Threads.antt =====
-- Any number of threads on one lock-free list, interleaved at their atomic accesses.
use memory_allocator.Base.{ℕ, ◌+◌, ◌≡◌, ◌≢◌, ◌==◌, if◌then◌else◌, Bool, true, Option, none, some}
use memory_allocator.Memory.LockFree.{
  same, LockFreeFreelist, construct, Thread, rest, pushing, stored, popping, linked, act,
}

-- `owner` tells who holds a node: a thread, or none while it is on the list.
pub record System : Type 0 where
  pub list : LockFreeFreelist
  pub thread : ℕ → Thread
  pub owner : ℕ → Option ℕ

abbrev pub update {ℓ} : {A : Type ℓ} → (ℕ → A) → ℕ → A → ℕ → A
update f i v j = if j == i then v else f j

-- One atomic access of thread `i`, which has `t` ahead of it. An exchange that succeeds gives the
-- pushed node up, or takes the popped node.
abbrev pub give : ℕ → Bool → Thread → (ℕ → Option ℕ) → ℕ → Option ℕ
give i true (stored node old) owner = update owner node none
give i true (linked old n) owner = update owner old.ptr (some i)
give i ok t owner = owner

-- `compare_exchange_weak` succeeds only if the head is the expected one; it may fail at any time.
abbrev pub Answers : Bool → LockFreeFreelist → Thread → Type 0
Answers true l (stored node old) = same l.head old ≡ true
Answers true l (linked old n) = same l.head old ≡ true
Answers ok l t = Unit

pub data Step : System → System → Type 0 where
  push :
      {s : System} (i node : ℕ)
      → s.thread i ≡ rest
      → node ≢ 0
      → s.owner node ≡ some i
      → Step s (record s { thread = update s.thread i (pushing node s.list.head) })
  pop :
      {s : System} (i : ℕ)
      → s.thread i ≡ rest
      → Step s (record s { thread = update s.thread i (popping s.list.head) })
  acts :
      {s : System} (i : ℕ) (ok : Bool) (t : Thread)
      → s.thread i ≡ t
      → Answers ok s.list t
      → Step s (record {
        list = (act ok s.list t).0;
        thread = update s.thread i (act ok s.list t).1;
        owner = give i ok t s.owner;
      })

-- Whether the access is an exchange that succeeds, as a number.
abbrev pub succeeded : Bool → Thread → ℕ
succeeded true (stored node old) = 1
succeeded true (linked old n) = 1
succeeded ok t = 0

abbrev pub exchanges_in : {s t : System} → Step s t → ℕ
exchanges_in (push i node r nz o) = 0
exchanges_in (pop i r) = 0
exchanges_in (acts i ok t at a) = succeeded ok t

-- Every node is held by a thread at first, and every thread is at rest.
pub data Reach (next : ℕ → ℕ) (holder : ℕ → ℕ) : System → Type 0 where
  start :
      Reach next holder
        (record { list = construct next; thread = λ i. rest; owner = λ a. some (holder a) })
  further : {s t : System} → Reach next holder s → Step s t → Reach next holder t

-- The exchanges that have succeeded so far.
abbrev pub exchanges : {next holder : ℕ → ℕ} {s : System} → Reach next holder s → ℕ
exchanges start = 0
exchanges (further r st) = exchanges r + exchanges_in st
