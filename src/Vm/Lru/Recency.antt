-- ===== src/Vm/Lru/Recency.antt =====
-- Which frame LRUReplacement picks: the one whose last load or access is the longest ago.
use memory_allocator.Base.{
  ℕ, suc, ◌≤◌, ◌<◌, ◌≡◌, ◌≢◌, refl, sym, ap, ◌∙◌, subst, ◌==◌, ==_self, ne→==, ==→eq, ==→ne,
  if◌then◌else◌, Bool, true, false, ◌||◌, contains, Bool-cases, inl, inr, some, List, [], ◌∷◌,
  length, arith,
}
use memory_allocator.Memory.FreeList.Segments.{Fresh, Distinct, remove, remove-Distinct}
use memory_allocator.Vm.Lru.{Lru, empty, on_load, on_access, victim, on_evict, back}

-- The calls that change the order.
pub data Event : Type 0 where
  load access evict : ℕ → Event

-- The state after a history, the latest event first.
unfoldable pub run : List Event → Lru
run [] = empty
run (load f ∷ h) = on_load (run h) f
run (access f ∷ h) = on_access (run h) f
run (evict f ∷ h) = on_evict (run h) f

-- When a frame was last loaded or accessed, counted in events from 1; 0 if never.
unfoldable pub last_use : List Event → ℕ → ℕ
last_use [] g = 0
last_use (load f ∷ h) g = if g == f then suc (length h) else last_use h g
last_use (access f ∷ h) g = if g == f then suc (length h) else last_use h g
last_use (evict f ∷ h) g = last_use h g

-- The frames that a history has loaded and not evicted since.
unfoldable pub is_loaded : List Event → ℕ → Bool
is_loaded [] g = false
is_loaded (load f ∷ h) g = if g == f then true else is_loaded h g
is_loaded (access f ∷ h) g = is_loaded h g
is_loaded (evict f ∷ h) g = if g == f then false else is_loaded h g

-- A frame is loaded only while it is not loaded.
abbrev pub LoadsOnce : List Event → Type 0
LoadsOnce [] = Unit
LoadsOnce (load f ∷ h) = (is_loaded h f ≡ false) × LoadsOnce h
LoadsOnce (access f ∷ h) = LoadsOnce h
LoadsOnce (evict f ∷ h) = LoadsOnce h

-- Each frame was used before the one in front of it, and all before the bound.
abbrev Recent : (ℕ → ℕ) → ℕ → List ℕ → Type 0
Recent stamp n [] = Unit
Recent stamp n (f ∷ rest) = (stamp f < n) × Recent stamp (stamp f) rest

Recent-mono :
    (stamp : ℕ → ℕ) (n n' : ℕ) (l : List ℕ) → n ≤ n' → Recent stamp n l → Recent stamp n' l
Recent-mono stamp n n' [] h r = tt
Recent-mono stamp n n' (f ∷ rest) h r = (omega arith, r.1)

-- A list of frames that were all used before `f` does not hold `f`.
Recent-Fresh : (stamp : ℕ → ℕ) (n f : ℕ) (l : List ℕ) → n ≤ stamp f → Recent stamp n l → Fresh f l
Recent-Fresh stamp n f [] h r = tt
Recent-Fresh stamp n f (x ∷ rest) h r = (
  λ e. omega (arith, r.0, ap stamp e),
  Recent-Fresh stamp (stamp x) f rest (omega (arith, r.0)) r.1,
)

Recent-remove :
    (stamp : ℕ → ℕ) (n f : ℕ) (l : List ℕ) → Recent stamp n l → Recent stamp n (remove f l)
Recent-remove stamp n f [] r = tt
Recent-remove stamp n f (x ∷ rest) r = elim (Bool-cases (x == f)) [
  | inl e ↦ rw e (Recent-mono stamp (stamp x) n rest (omega (arith, r.0)) r.1)
  | inr e ↦ rw e (r.0, Recent-remove stamp (stamp x) f rest r.1)
]

-- A use of a frame that is not in the list does not change the list's order.
Recent-touch :
    (stamp : ℕ → ℕ) (n f t : ℕ) (l : List ℕ)
    → Fresh f l
    → Recent stamp n l
    → Recent (λ g. if g == f then t else stamp g) n l
Recent-touch stamp n f t [] d r = tt
Recent-touch stamp n f t (x ∷ rest) d r =
    rw (ne→== x f d.0) (r.0, Recent-touch stamp (stamp x) f t rest d.1 r.1)

Recent-Distinct : (stamp : ℕ → ℕ) (n : ℕ) (l : List ℕ) → Recent stamp n l → Distinct l
Recent-Distinct stamp n [] r = tt
Recent-Distinct stamp n (x ∷ rest) r = (
  Recent-Fresh stamp (stamp x) x rest (omega arith) r.1,
  Recent-Distinct stamp (stamp x) rest r.1,
)

contains-Fresh : (f : ℕ) (l : List ℕ) → contains l f ≡ false → Fresh f l
contains-Fresh f [] h = tt
contains-Fresh f (x ∷ rest) h = elim (Bool-cases (x == f)) [
  | inl e ↦ cc (rw e at h)
  | inr e ↦ (==→ne x f e, contains-Fresh f rest (rw e at h))
]

Fresh-contains : (f : ℕ) (l : List ℕ) → Fresh f l → contains l f ≡ false
Fresh-contains f [] d = refl
Fresh-contains f (x ∷ rest) d = rw (ne→== x f d.0) (Fresh-contains f rest d.1)

remove-Fresh_self : (f : ℕ) (l : List ℕ) → Distinct l → Fresh f (remove f l)
remove-Fresh_self f [] d = tt
remove-Fresh_self f (x ∷ rest) d = elim (Bool-cases (x == f)) [
  | inl e ↦ rw e (subst (λ y. Fresh y rest) (==→eq x f e) d.0)
  | inr e ↦ rw e (==→ne x f e, remove-Fresh_self f rest d.1)
]

contains-remove :
    (f g : ℕ) (l : List ℕ)
    → Distinct l
    → contains (remove f l) g ≡ (if g == f then false else contains l g)
contains-remove f g [] d = ground arith
contains-remove f g (x ∷ rest) d = elim (Bool-cases (x == f)) [
  | inl e ↦
      let same : x ≡ f = ==→eq x f e in
      let gone : contains rest f ≡ false =
        subst (λ y. contains rest y ≡ false) same (Fresh-contains x rest d.0) in
      elim (Bool-cases (g == f)) [
        | inl q ↦ let at_f : g ≡ f = ==→eq g f q in rw (e, q, at_f) gone
        | inr q ↦
            let other : (x == g) ≡ false = ne→== x g (λ p. ==→ne g f q (sym p ∙ same)) in
            rw (e, q, other)
      ]
  | inr e ↦ elim (Bool-cases (g == f)) [
    | inl q ↦
        let other : (x == g) ≡ false = ne→== x g (λ p. ==→ne x f e (p ∙ ==→eq g f q)) in
        rw (e, q, other) (contains-remove f g rest d.1 ∙ rw q)
    | inr q ↦ rw (e, q) (ap (λ b. x == g || b) (contains-remove f g rest d.1 ∙ rw q))
  ]
]

-- The list and the keys hold the loaded frames, the most recently used first.
record Inv (h : List Event) : Type 0 where
  recent : Recent (last_use h) (suc (length h)) (run h).list
  listed : (g : ℕ) → contains (run h).list g ≡ is_loaded h g
  keyed : (g : ℕ) → contains (run h).keys g ≡ is_loaded h g
  distinct : Distinct (run h).keys

load-Inv : (h : List Event) (f : ℕ) → is_loaded h f ≡ false → Inv h → Inv (load f ∷ h)
unfolding run on_load last_use is_loaded
load-Inv h f new i = record {
  recent = (
    rw (==_self f) (omega arith),
    rw (==_self f) (
        Recent-touch (last_use h) (suc (length h)) f (suc (length h)) (run h).list
          (contains-Fresh f (run h).list (i.listed f ∙ new)) i.recent),
  );
  listed = λ g. ground (arith, i.listed g);
  keyed = λ g. rw (i.keyed f, new) (ground (arith, i.keyed g));
  distinct = rw (i.keyed f, new) (contains-Fresh f (run h).keys (i.keyed f ∙ new), i.distinct);
}

access-Inv : (h : List Event) (f : ℕ) → Inv h → Inv (access f ∷ h)
unfolding run on_access last_use is_loaded
access-Inv h f i = elim (Bool-cases (is_loaded h f)) [
  | inl old ↦
      let d = Recent-Distinct (last_use h) (suc (length h)) (run h).list i.recent in
      record {
        recent =
            rw (i.keyed f, old)
              (
                rw (==_self f) (omega arith),
                rw (==_self f) (
                    Recent-touch (last_use h) (suc (length h)) f (suc (length h))
                      (remove f (run h).list) (remove-Fresh_self f (run h).list d)
                      (Recent-remove (last_use h) (suc (length h)) f (run h).list i.recent)),
              );
        listed = λ g.
            rw (i.keyed f, old, contains-remove f g (run h).list d)
              (ground (arith, i.listed g, i.listed f, ap (is_loaded h)));
        keyed = λ g. rw (i.keyed f, old) (i.keyed g);
        distinct = rw (i.keyed f, old) i.distinct;
      }
  | inr absent ↦ record {
    recent =
        rw (i.keyed f, absent)
          (Recent-mono (last_use (access f ∷ h)) (suc (length h)) (suc (suc (length h)))
            (run h).list (omega arith)
            (Recent-touch (last_use h) (suc (length h)) f (suc (length h)) (run h).list
              (contains-Fresh f (run h).list (i.listed f ∙ absent)) i.recent));
    listed = λ g. rw (i.keyed f, absent) (i.listed g);
    keyed = λ g. rw (i.keyed f, absent) (i.keyed g);
    distinct = rw (i.keyed f, absent) i.distinct;
  }
]

evict-Inv : (h : List Event) (f : ℕ) → Inv h → Inv (evict f ∷ h)
unfolding run on_evict last_use is_loaded
evict-Inv h f i = elim (Bool-cases (is_loaded h f)) [
  | inl old ↦
      let d = Recent-Distinct (last_use h) (suc (length h)) (run h).list i.recent in
      record {
        recent =
            rw (i.keyed f, old)
              (Recent-mono (last_use h) (suc (length h)) (suc (suc (length h)))
                (remove f (run h).list) (omega arith)
                (Recent-remove (last_use h) (suc (length h)) f (run h).list i.recent));
        listed = λ g. rw (i.keyed f, old, contains-remove f g (run h).list d, i.listed g);
        keyed = λ g. rw (i.keyed f, old, contains-remove f g (run h).keys i.distinct, i.keyed g);
        distinct = rw (i.keyed f, old) (remove-Distinct f (run h).keys i.distinct);
      }
  | inr absent ↦ record {
    recent =
        rw (i.keyed f, absent)
          (Recent-mono (last_use h) (suc (length h)) (suc (suc (length h))) (run h).list
            (omega arith) i.recent);
    listed = λ g. rw (i.keyed f, absent) (i.listed g ∙ still h f g absent);
    keyed = λ g. rw (i.keyed f, absent) (i.keyed g ∙ still h f g absent);
    distinct = rw (i.keyed f, absent) i.distinct;
  }
]
  where
    still :
        (h : List Event) (f g : ℕ)
        → is_loaded h f ≡ false
        → is_loaded h g ≡ (if g == f then false else is_loaded h g)
    still h f g absent = elim (Bool-cases (g == f)) [
      | inl q ↦ rw q (subst (λ y. is_loaded h y ≡ false) (sym (==→eq g f q)) absent)
      | inr q ↦ rw q
    ]

run-Inv : (h : List Event) → LoadsOnce h → Inv h
unfolding run empty is_loaded last_use
run-Inv [] o = record { recent = tt; listed = λ g. refl; keyed = λ g. refl; distinct = tt }
run-Inv (load f ∷ h) o = load-Inv h f o.0 (run-Inv h o.1)
run-Inv (access f ∷ h) o = access-Inv h f (run-Inv h o)
run-Inv (evict f ∷ h) o = evict-Inv h f (run-Inv h o)

-- The last frame of the list was used before every other.
back-least :
    (stamp : ℕ → ℕ) (n : ℕ) (l : List ℕ) {v : ℕ}
    → Recent stamp n l
    → back l ≡ some v
    → (contains l v ≡ true)
      × (stamp v < n)
      × ((g : ℕ) → contains l g ≡ true → g ≢ v → stamp v < stamp g)
back-least stamp n [] r e = cc e
back-least stamp n (x ∷ []) {v} r e =
    let same : x ≡ v = cc e in
    (rw (same, ==_self v), omega (arith, r.0, ap stamp same), λ g c ne. absurd (ne (ground arith)))
back-least stamp n (x ∷ y ∷ rest) {v} r e =
    let (c, l, below) = back-least stamp (stamp x) (y ∷ rest) r.1 e in
    (
      ground (arith, c),
      omega (arith, r.0, l),
      λ g m ne. elim (Bool-cases (x == g)) [
        | inl q ↦ subst (λ z. stamp v < stamp z) (==→eq x g q) l
        | inr q ↦ below g (rw q at m) ne
      ],
    )

-- After any history that loads a frame only while it is not loaded: the victim is a loaded frame,
-- and every other loaded frame has been loaded or accessed since the victim last was.
pub victim_is_least_recent :
    (h : List Event) {v : ℕ}
    → LoadsOnce h
    → victim (run h) ≡ some v
    → (is_loaded h v ≡ true)
      × ((g : ℕ) → is_loaded h g ≡ true → g ≢ v → last_use h v < last_use h g)
unfolding victim
victim_is_least_recent h {v} o e =
    let i = run-Inv h o in
    let (c, _, below) = back-least (last_use h) (suc (length h)) (run h).list i.recent e in
    (sym (i.listed v) ∙ c, λ g m ne. below g (i.listed g ∙ m) ne)
