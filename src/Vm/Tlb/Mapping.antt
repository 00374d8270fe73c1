-- ===== src/Vm/Tlb/Mapping.antt =====
-- What the TLB maps, how many entries it has, and which entry it gives up.
use memory_allocator.Base.{
  ℕ, suc, ◌≤◌, ◌<◌, ◌≡◌, ◌⊎◌, refl, sym, ap, subst, ◌∙◌, ltb, leb, leb→le, leb→gt, ◌==◌,
  if◌then◌else◌, ◌&&◌, ◌||◌, Bool, true, false, Bool-cases, inl, inr, Option, none, some, List, [],
  ◌∷◌, length, arith,
}
use memory_allocator.Base.Bits.{add64}
use memory_allocator.Vm.Tlb.{
  Entry, Tlb, has_key, find, replace, erase, hit, lookup, oldest_of, evict, store, insert,
  erase_pid, flush_pid,
}

-- The frame that the TLB holds for a page.
abbrev pub frame_of : Option Entry → Option ℕ
frame_of none = none
frame_of (some e) = some e.frame

abbrev pub maps : Tlb → ℕ → ℕ → Option ℕ
maps t pid vpn = frame_of (find pid vpn t.map)

abbrev pub same : ℕ → ℕ → ℕ → ℕ → Bool
same p v pid vpn = pid == p && vpn == v

find-replace :
    (p v pid vpn frame stamp : ℕ) (l : List Entry)
    → frame_of (find p v (replace pid vpn frame stamp l)) ≡ (
        if same p v pid vpn
        then elim (find pid vpn l) [ none ↦ none | some e ↦ some frame ]
        else frame_of (find p v l))
unfolding find replace
find-replace p v pid vpn frame stamp [] = ground arith
find-replace p v pid vpn frame stamp (e ∷ rest) =
    ground (arith, find-replace p v pid vpn frame stamp rest)

find-erase :
    (p v pid vpn : ℕ) (l : List Entry)
    → find p v (erase pid vpn l) ≡ (if same p v pid vpn then none else find p v l)
unfolding find erase
find-erase p v pid vpn [] = ground arith
find-erase p v pid vpn (e ∷ rest) = ground (arith, find-erase p v pid vpn rest)

length-replace :
    (pid vpn frame stamp : ℕ) (l : List Entry) → length (replace pid vpn frame stamp l) ≡ length l
unfolding replace
length-replace pid vpn frame stamp [] = refl
length-replace pid vpn frame stamp (e ∷ rest) = ap suc (length-replace pid vpn frame stamp rest)

abbrev pub Keeps : Option ℕ → Option ℕ → Type 0
Keeps now before = (now ≡ before) ⊎ (now ≡ none)

has_key_self : (e : Entry) → has_key e e.pid e.vpn ≡ true
has_key_self e = ground arith

length-erase_le : (pid vpn : ℕ) (l : List Entry) → length (erase pid vpn l) ≤ length l
unfolding erase
length-erase_le pid vpn [] = omega arith
length-erase_le pid vpn (e ∷ rest) = ground (arith, length-erase_le pid vpn rest)

abbrev is_listed : ℕ → ℕ → List Entry → Bool
is_listed pid vpn [] = false
is_listed pid vpn (e ∷ rest) = has_key e pid vpn || is_listed pid vpn rest

length-erase_lt :
    (pid vpn : ℕ) (l : List Entry)
    → is_listed pid vpn l ≡ true
    → length (erase pid vpn l) < length l
unfolding erase
length-erase_lt pid vpn [] m = ground (arith, m)
length-erase_lt pid vpn (e ∷ rest) m = elim (Bool-cases (has_key e pid vpn)) [
  | inl hit ↦ rw hit (omega (arith, length-erase_le pid vpn rest))
  | inr miss ↦ rw miss (omega (arith, length-erase_lt pid vpn rest (rw miss at m)))
]

listed-head : {x e : Entry} (l : List Entry) → x ≡ e → is_listed x.pid x.vpn (e ∷ l) ≡ true
listed-head {x} {e} l h = subst (λ y. is_listed y.pid y.vpn (e ∷ l) ≡ true) (sym h) (ground arith)

listed-tail :
    (x e : Entry) (l : List Entry)
    → is_listed x.pid x.vpn l ≡ true
    → is_listed x.pid x.vpn (e ∷ l) ≡ true
listed-tail x e l h = ground (arith, h)

if-cases : (b : Bool) (x y : Entry) → ((if b then x else y) ≡ x) ⊎ ((if b then x else y) ≡ y)
if-cases true x y = inl refl
if-cases false x y = inr refl

-- The entry that the loop ends with is the first it had or one of the list.
oldest_of-listed :
    (o : Entry) (l : List Entry)
    → (oldest_of o l ≡ o) ⊎ (is_listed (oldest_of o l).pid (oldest_of o l).vpn l ≡ true)
unfolding oldest_of
oldest_of-listed o [] = inl refl
oldest_of-listed o (e ∷ rest) =
    let n = if ltb e.stamp o.stamp then e else o in
    elim (oldest_of-listed n rest) [
      | inr there ↦ inr (listed-tail (oldest_of n rest) e rest there)
      | inl kept ↦ elim (if-cases (ltb e.stamp o.stamp) e o) [
        | inl q ↦ inr (listed-head rest (kept ∙ q))
        | inr q ↦ inl (kept ∙ q)
      ]
    ]

length-evict : (e : Entry) (l : List Entry) → length (evict (e ∷ l)) < length (e ∷ l)
unfolding evict
length-evict e l =
    let o = oldest_of e (e ∷ l) in
    length-erase_lt o.pid o.vpn (e ∷ l)
      elim (oldest_of-listed e (e ∷ l)) [ inl first ↦ listed-head l first | inr there ↦ there ]

evicted-room :
    (c : ℕ) (l : List Entry)
    → 0 < c
    → length l ≤ c
    → length (if leb c (length l) then evict l else l) < c
evicted-room c l room fits = elim (Bool-cases (leb c (length l))) [
  | inr free ↦ rw free (leb→gt c (length l) free)
  | inl full ↦ rw full (shorter l fits (leb→le c (length l) full))
]
  where
    shorter : (l : List Entry) → length l ≤ c → c ≤ length l → length (evict l) < c
    shorter [] a b = omega (arith, b, room)
    shorter (e ∷ l) a b = omega (arith, length-evict e l, a)

-- A TLB with room for one entry at least never has more entries than its capacity.
pub insert-capacity :
    (t : Tlb) (pid vpn frame : ℕ)
    → 0 < t.cap
    → length t.map ≤ t.cap
    → length (insert t pid vpn frame).map ≤ t.cap
unfolding insert store
insert-capacity t pid vpn frame room fits = stored (find pid vpn t.map)
  where
    stored : (o : Option Entry) → length (store t pid vpn frame o).map ≤ t.cap
    stored none = evicted-room t.cap t.map room fits
    stored (some e) = omega (arith, fits, length-replace pid vpn frame (add64 t.clock 1) t.map)

find-evict :
    (p v : ℕ) (l : List Entry) → (find p v (evict l) ≡ find p v l) ⊎ (find p v (evict l) ≡ none)
unfolding find evict
find-evict p v [] = inl refl
find-evict p v (e ∷ l) =
    let o = oldest_of e (e ∷ l) in
    let law = find-erase p v o.pid o.vpn (e ∷ l) in
    elim (Bool-cases (same p v o.pid o.vpn)) [
      | inl q ↦ inr (law ∙ rw q refl)
      | inr q ↦ inl (law ∙ rw q refl)
    ]

-- After an insertion its page maps to its frame, and any other page maps to what it did or, when
-- the insertion made room, to nothing.
pub insert-maps :
    (t : Tlb) (pid vpn frame : ℕ)
    → (maps (insert t pid vpn frame) pid vpn ≡ some frame)
      × ((p v : ℕ)
          → same p v pid vpn ≡ false
          → Keeps (maps (insert t pid vpn frame) p v) (maps t p v))
unfolding insert store find
insert-maps t pid vpn frame =
    (own (find pid vpn t.map) refl, λ p v ne. other p v ne (find pid vpn t.map))
  where
    own :
        (o : Option Entry)
        → find pid vpn t.map ≡ o
        → maps (store t pid vpn frame o) pid vpn ≡ some frame
    own none h = ground arith
    own (some e) h =
        find-replace pid vpn pid vpn frame (add64 t.clock 1) t.map ∙ rw h (ground arith)

    other :
        (p v : ℕ)
        → same p v pid vpn ≡ false
        → (o : Option Entry) → Keeps (maps (store t pid vpn frame o) p v) (maps t p v)
    other p v ne (some e) =
        inl (find-replace p v pid vpn frame (add64 t.clock 1) t.map ∙ rw ne refl)
    other p v ne none = rw ne elim (Bool-cases (leb t.cap (length t.map))) [
      | inr free ↦ rw free (inl refl)
      | inl full ↦
          rw full elim (find-evict p v t.map) [
            | inl q ↦ inl (ap frame_of q)
            | inr q ↦ inr (ap frame_of q)
          ]
    ]

-- Flushing a process unmaps all of its pages and none of another process.
pub flush_pid-maps :
    (t : Tlb) (pid p v : ℕ) → maps (flush_pid t pid) p v ≡ (if p == pid then none else maps t p v)
unfolding flush_pid find erase_pid
flush_pid-maps t pid p v = ap frame_of (erased t.map) ∙ split (p == pid)
  where
    erased : (l : List Entry) → find p v (erase_pid pid l) ≡ (if p == pid then none else find p v l)
    erased [] = ground arith
    erased (e ∷ l) = ground (arith, erased l)

    split :
        (b : Bool)
        → frame_of (if b then none else find p v t.map) ≡ (if b then none else maps t p v)
    split true = refl
    split false = refl

same-eq : (p v pid vpn : ℕ) → same p v pid vpn ≡ true → (p ≡ pid) × (v ≡ vpn)
same-eq p v pid vpn h = ground (arith, h)

-- A lookup returns what the TLB maps the page to and leaves every mapping as it was.
pub lookup-maps :
    (t : Tlb) (pid vpn : ℕ)
    → ((lookup t pid vpn).0 ≡ maps t pid vpn)
      × ((p v : ℕ) → maps (lookup t pid vpn).1 p v ≡ maps t p v)
unfolding lookup hit
lookup-maps t pid vpn = looked (find pid vpn t.map) refl
  where
    looked :
        (o : Option Entry)
        → find pid vpn t.map ≡ o
        → ((hit t pid vpn o).0 ≡ frame_of (find pid vpn t.map))
          × ((p v : ℕ) → maps (hit t pid vpn o).1 p v ≡ maps t p v)
    looked none h = (rw h refl, λ p v. refl)
    looked (some e) h = (
      rw h refl,
      λ p v.
          find-replace p v pid vpn e.frame (add64 t.clock 1) t.map
          ∙ elim (Bool-cases (same p v pid vpn)) [
            | inr q ↦ rw q refl
            | inl q ↦ let (p_is, v_is) = same-eq p v pid vpn q in rw (q, h, p_is, v_is, h) refl
          ],
    )
