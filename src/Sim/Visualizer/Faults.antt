-- ===== src/Sim/Visualizer/Faults.antt =====
-- Page faults of the visualizer's demo: the frame that is chosen, and the page that takes it.
use memory_allocator.Base.{
  ℕ, zero, suc, ◌+◌, ◌<◌, ◌≤◌, ◌≡◌, ◌≢◌, refl, sym, ap, subst, ◌∙◌, ◌==◌, ==→eq, ==→ne, ==_self,
  ne→==, if◌then◌else◌, ◌&&◌, ◌||◌, Bool, true, false, Bool-cases, inl, inr, ◌⊎◌, Option, none,
  some, List, [], ◌∷◌, ◌++◌, All, All-append, contains, arith,
}
use memory_allocator.Sim.Visualizer.{
  num_frames, Page, Memory, assign, free_or, find_free, invalid, invalidate_tlb_for_pfn, evict,
  fill, update_tlb, set_page, unless,
}
use memory_allocator.Sim.Visualizer.Coherence.{
  Owns, Tells, IsCoherentBut, IsCoherent, NothingHidden, All-map, All-imp, update_tlb-IsCoherent,
  unless-Tells,
}

abbrev pub Only : ℕ → ℕ → Type 0
Only pfn f = f ≡ pfn

-- The search finds a free frame, or there is none.
abbrev pub Found : ℕ → ℕ → (ℕ → Option ℕ) → Option ℕ → Type 0
Found lo hi owner none = (f : ℕ) → lo ≤ f → f < hi → owner f ≢ none
Found lo hi owner (some pfn) = (owner pfn ≡ none) × (pfn < hi)

abbrev Answers : ℕ → ℕ → (ℕ → Option ℕ) → Option ℕ → Option ℕ → Type 0
Answers pfn hi owner o r = Found pfn hi owner (free_or o pfn r)

pub find_free-Found :
    (left pfn : ℕ) (owner : ℕ → Option ℕ) → Found pfn (left + pfn) owner (find_free left pfn owner)
unfolding find_free
find_free-Found zero pfn owner = λ f l h. absurd (omega (arith, l, h))
find_free-Found (suc left) pfn owner =
    here (owner pfn) refl (find_free left (suc pfn) owner) (find_free-Found left (suc pfn) owner)
  where
    here :
        (o : Option ℕ)
        → owner pfn ≡ o
        → (r : Option ℕ) → Found (suc pfn) (left + suc pfn) owner r
        → Found pfn (suc left + pfn) owner (free_or o pfn r)
    here none e r h = (e, omega arith)
    here (some q) e none h = λ f l b free. elim (Bool-cases (f == pfn)) [
      | inl same ↦ ground (arith, sym e ∙ ap owner (sym (==→eq f pfn same)) ∙ free)
      | inr other ↦
          let apart = ==→ne f pfn other in h f (ground (arith, l, apart)) (omega (arith, b)) free
    ]
    here (some q) e (some r) (x, y) = (x, omega (arith, y))

assign_self {ℓ} : {A : Type ℓ} (f : ℕ → A) (i : ℕ) (x : A) → assign f i x i ≡ x
assign_self f i x = ap (λ b. if b then x else f i) (==_self i)

assign_other {ℓ} : {A : Type ℓ} (f : ℕ → A) (i j : ℕ) (x : A) → j ≢ i → assign f i x j ≡ f j
assign_other f i j x h = ap (λ b. if b then x else f j) (ne→== j i h)

contains-snoc : (l : List ℕ) (a b : ℕ) → contains l a ≡ true → contains (l ++ b ∷ []) a ≡ true
contains-snoc [] a b e = ground (arith, e)
contains-snoc (x ∷ l) a b e = elim (Bool-cases (x == a)) [
  | inl here ↦ rw here refl
  | inr away ↦ rw away (contains-snoc l a b (sym (ap (λ c. c || contains l a) away) ∙ e))
]

contains-last : (l : List ℕ) (a : ℕ) → contains (l ++ a ∷ []) a ≡ true
contains-last [] a = rw (==_self a) refl
contains-last (x ∷ l) a = elim (Bool-cases (x == a)) [
  | inl here ↦ rw here refl
  | inr away ↦ rw away (contains-last l a)
]

module _ (alive : ℕ → Type 0) where
  -- Nothing is about a free frame.
  pub hide-free :
      (vm : Memory) (pfn : ℕ)
      → IsCoherent alive vm
      → vm.frame_owner pfn ≡ none
      → IsCoherentBut alive (Only pfn) vm
  hide-free vm pfn c e = record {
    cached =
        All-imp (Tells vm NothingHidden) (Tells vm (Only pfn)) vm.tlb
          (λ x t v. let (pid, is, o, _) = t v in (pid, is, o, λ same. unowned x.pfn pid o.0 same))
          c.cached;
    mapped = λ pid vpn page a x v.
        let (o, h) = c.mapped pid vpn page a x v in (o, λ same. unowned page.pfn pid o.0 same);
    owned = c.owned;
    queued = λ f pid h o. c.queued f pid (λ x. x) o;
    in_range = c.in_range;
  }
    where
      unowned : (f pid : ℕ) → vm.frame_owner f ≡ some pid → f ≡ pfn → ⊥
      unowned f pid o same = ground (arith, sym o ∙ ap vm.frame_owner same ∙ e)

  page_if :
      (b : Bool) {page : Page} (x y : Option Page)
      → (if b then x else y) ≡ some page
      → ((b ≡ true) × (x ≡ some page)) ⊎ ((b ≡ false) × (y ≡ some page))
  page_if true x y e = inl (refl, e)
  page_if false x y e = inr (refl, e)

  invalid-valid : (o : Option Page) → (invalid o).valid ≡ false
  invalid-valid none = refl
  invalid-valid (some page) = refl

  -- Nothing is about a frame that was evicted.
  pub hide-evict :
      (vm : Memory) (pfn pid : ℕ) (rest : List ℕ)
      → IsCoherent alive vm
      → vm.fifo_frames ≡ pfn ∷ rest
      → vm.frame_owner pfn ≡ some pid
      → IsCoherentBut alive (Only pfn) (evict (record vm { fifo_frames = rest }) pfn (some pid))
  unfolding evict invalidate_tlb_for_pfn
  hide-evict vm pfn pid rest c q e = record {
    cached =
        All-map (Tells vm NothingHidden) (Tells after (Only pfn)) (λ x. unless (x.pfn == pfn) x)
          vm.tlb
          (λ x.
            unless-Tells vm after NothingHidden (Only pfn) (x.pfn == pfn) x
              (λ p other is o seen. (o, ==→ne x.pfn pfn other)))
          c.cached;
    mapped = λ p v page a x valid.
        elim (page_if (p == pid && v == vm.frame_vpn pfn) (some old) (vm.page_table p v) x) [
          | inl gone ↦
              let same : page ≡ old = cc (sym gone.1) in
              ground (
                arith,
                sym valid
                    ∙ ap (λ x. x.valid) same
                    ∙ invalid-valid (vm.page_table pid (vm.frame_vpn pfn)),
              )
          | inr stays ↦
              let (o, h) = c.mapped p v page a stays.1 valid in
              (
                o,
                λ same.
                    let who : p ≡ pid = cc (sym o.0 ∙ ap vm.frame_owner same ∙ e) in
                    let where_to : v ≡ vm.frame_vpn pfn = sym o.1 ∙ ap vm.frame_vpn same in
                    ground (arith, stays.0, who, where_to),
              )
        ];
    owned = c.owned;
    queued = λ f p h o.
        let there : (pfn == f || contains rest f) ≡ true =
          sym (ap (λ l. contains l f) q) ∙ c.queued f p (λ x. x) o in
        let apart : pfn ≢ f = λ same. h (sym same) in
        let away = ne→== pfn f apart in ground (arith, there, away);
    in_range = (subst (All (λ f. f < num_frames)) q c.in_range).1;
  }
    where
      old : Page
      old = invalid (vm.page_table pid (vm.frame_vpn pfn))

      after : Memory
      after = evict (record vm { fifo_frames = rest }) pfn (some pid)

  -- A page takes a frame that nothing is about.
  pub fill-IsCoherent :
      (vm : Memory) (pfn pid vpn : ℕ)
      → IsCoherentBut alive (Only pfn) vm
      → pfn < num_frames
      → alive pid
      → IsCoherent alive (fill pid vpn vm pfn) × Owns (fill pid vpn vm pfn) pid vpn pfn
  unfolding fill update_tlb
  fill-IsCoherent vm pfn pid vpn c l a =
      (update_tlb-IsCoherent alive mid pid vpn pfn coherent its, its)
    where
      mid : Memory
      mid =
          set_page
            (record vm {
              frame_owner = assign vm.frame_owner pfn (some pid);
              frame_vpn = assign vm.frame_vpn pfn vpn;
              fifo_frames = vm.fifo_frames ++ pfn ∷ [];
            })
            pid vpn (record { pfn = pfn; valid = true })

      its : Owns mid pid vpn pfn
      its = (assign_self vm.frame_owner pfn (some pid), assign_self vm.frame_vpn pfn vpn)

      same_as_before : (p v f : ℕ) → (f ≡ pfn → ⊥) → Owns vm p v f → Owns mid p v f
      same_as_before p v f h o = (
        assign_other vm.frame_owner pfn f (some pid) h ∙ o.0,
        assign_other vm.frame_vpn pfn f vpn h ∙ o.1,
      )

      coherent : IsCoherent alive mid
      coherent = record {
        cached =
            All-imp (Tells vm (Only pfn)) (Tells mid NothingHidden) vm.tlb
              (λ x t v.
                let (p, is, o, h) = t v in (p, is, same_as_before p x.vpn x.pfn h o, λ z. z))
              c.cached;
        mapped = λ p v page al x valid.
            elim (page_if (p == pid && v == vpn) (some (record { pfn = pfn; valid = true }))
              (vm.page_table p v) x) [
                | inl here ↦
                    let same : page ≡ record { pfn = pfn; valid = true } = cc (sym here.1) in
                    let who : p ≡ pid = ground (arith, here.0) in
                    let what : v ≡ vpn = ground (arith, here.0) in
                    (
                      subst (λ q. Owns mid p v q.pfn) (sym same)
                          (its.0 ∙ ap some (sym who), its.1 ∙ sym what),
                      λ z. z,
                    )
                | inr away ↦
                    let (o, h) = c.mapped p v page al away.1 valid in
                    (same_as_before p v page.pfn h o, λ z. z)
              ];
        owned = λ f p o. elim (Bool-cases (f == pfn)) [
          | inl same ↦
              let at = ==→eq f pfn same in
              let who : pid ≡ p = cc (sym its.0 ∙ ap mid.frame_owner (sym at) ∙ o) in
              (omega (arith, at, l), subst alive who a)
          | inr other ↦
              c.owned f p
                (sym (assign_other vm.frame_owner pfn f (some pid) (==→ne f pfn other)) ∙ o)
        ];
        queued = λ f p h o. elim (Bool-cases (f == pfn)) [
          | inl same ↦
              subst (λ z. contains mid.fifo_frames z ≡ true) (sym (==→eq f pfn same))
                (contains-last vm.fifo_frames pfn)
          | inr other ↦
              let apart = ==→ne f pfn other in
              contains-snoc vm.fifo_frames f pfn
                (c.queued f p apart (sym (assign_other vm.frame_owner pfn f (some pid) apart) ∙ o))
        ];
        in_range = All-append (λ f. f < num_frames) vm.fifo_frames (pfn ∷ []) c.in_range (l, tt);
      }
