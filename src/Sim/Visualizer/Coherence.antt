-- ===== src/Sim/Visualizer/Coherence.antt =====
-- What holds of the virtual memory of the visualizer's demo between accesses, and what the TLB
-- answers.
use memory_allocator.Base.{
  ℕ, zero, suc, ◌<◌, ◌≡◌, refl, sym, ap, subst, ◌∙◌, ==→eq, ==_self, if◌then◌else◌, Bool, true,
  false, Bool-cases, inl, inr, Option, none, some, List, [], ◌∷◌, map, All, set, contains, arith,
}
use memory_allocator.Sim.Visualizer.{
  num_frames, Entry, Page, Memory, construct, entries, hits, is_pid, lookup_tlb, update_tlb, unless,
  tlb_size,
}

-- The frame is the process's and holds the page.
abbrev pub Owns : Memory → ℕ → ℕ → ℕ → Type 0
Owns vm pid vpn pfn = (vm.frame_owner pfn ≡ some pid) × (vm.frame_vpn pfn ≡ vpn)

-- A valid entry of the TLB is true of the frames, and none is about the frame where `hidden`.
abbrev pub Tells : Memory → (ℕ → Type 0) → Entry → Type 0
Tells vm hidden e =
    e.valid ≡ true → (pid : ℕ) × (e.pid ≡ some pid) × Owns vm pid e.vpn e.pfn × (hidden e.pfn → ⊥)

-- The TLB and the page tables of the processes that have not ended agree with the frames; a frame
-- that is owned is one of the 32, its owner has not ended, and it is in the queue. About a frame
-- that is `hidden` nothing is in the TLB, the page tables or required of the queue.
pub record IsCoherentBut (alive : ℕ → Type 0) (hidden : ℕ → Type 0) (vm : Memory) : Type 0 where
  pub cached : All (Tells vm hidden) vm.tlb
  pub mapped :
      (pid vpn : ℕ) (page : Page)
      → alive pid
      → vm.page_table pid vpn ≡ some page
      → page.valid ≡ true
      → Owns vm pid vpn page.pfn × (hidden page.pfn → ⊥)
  pub owned : (f pid : ℕ) → vm.frame_owner f ≡ some pid → (f < num_frames) × alive pid
  pub queued :
      (f pid : ℕ) → (hidden f → ⊥) → vm.frame_owner f ≡ some pid → contains vm.fifo_frames f ≡ true
  pub in_range : All (λ f. f < num_frames) vm.fifo_frames

abbrev pub NothingHidden : ℕ → Type 0
NothingHidden f = ⊥

abbrev pub IsCoherent : (ℕ → Type 0) → Memory → Type 0
IsCoherent alive vm = IsCoherentBut alive NothingHidden vm

pub All-set {ℓ κ} :
    {A : Type ℓ} (P : A → Type κ) (l : List A) (i : ℕ) (x : A) → P x → All P l → All P (set l i x)
All-set P [] i x h a = tt
All-set P (y ∷ l) zero x h a = (h, a.1)
All-set P (y ∷ l) (suc i) x h a = (a.0, All-set P l i x h a.1)

pub All-map {ℓ κ} :
    {A : Type ℓ} (P Q : A → Type κ) (f : A → A) (l : List A)
    → ((x : A) → P x → Q (f x))
    → All P l
    → All Q (map f l)
All-map P Q f [] h a = tt
All-map P Q f (x ∷ l) h a = (h x a.0, All-map P Q f l h a.1)

pub All-imp {ℓ κ} :
    {A : Type ℓ} (P Q : A → Type κ) (l : List A) → ((x : A) → P x → Q x) → All P l → All Q l
All-imp P Q [] h a = tt
All-imp P Q (x ∷ l) h a = (h x a.0, All-imp P Q l h a.1)

pub is_pid-eq : (o : Option ℕ) (pid : ℕ) → is_pid o pid ≡ true → o ≡ some pid
is_pid-eq none pid e = ground (arith, e)
is_pid-eq (some q) pid e = ap some (==→eq q pid e)

pub is_pid_self : (pid : ℕ) → is_pid (some pid) pid ≡ true
is_pid_self pid = ==_self pid

hits-eq :
    (pid vpn : ℕ) (e : Entry)
    → hits pid vpn e ≡ true
    → (e.valid ≡ true) × (e.pid ≡ some pid) × (e.vpn ≡ vpn)
hits-eq pid vpn e h = elim (Bool-cases (is_pid e.pid pid)) [
  | inl same ↦ (ground (arith, h), is_pid-eq e.pid pid same, ground (arith, h))
  | inr other ↦ ground (arith, h, other)
]

-- A hit is the frame of the page.
pub lookup_tlb-Owns :
    (vm : Memory) (pid vpn pfn : ℕ) (l : List Entry)
    → All (Tells vm NothingHidden) l
    → lookup_tlb l pid vpn ≡ some pfn
    → Owns vm pid vpn pfn
unfolding lookup_tlb
lookup_tlb-Owns vm pid vpn pfn [] a e = ground (arith, e)
lookup_tlb-Owns vm pid vpn pfn (x ∷ l) a e = elim (Bool-cases (hits pid vpn x)) [
  | inr miss ↦
      lookup_tlb-Owns vm pid vpn pfn l a.1
        (sym (ap (λ b. if b then some x.pfn else lookup_tlb l pid vpn) miss) ∙ e)
  | inl hit ↦
      let (valid, of, at) = hits-eq pid vpn x hit in
      let (q, is, (owner, page), _) = a.0 valid in
      let same : x.pfn ≡ pfn =
        cc (sym (ap (λ b. if b then some x.pfn else lookup_tlb l pid vpn) hit) ∙ e) in
      let who : q ≡ pid = cc (sym is ∙ of) in
      subst (λ f. Owns vm pid vpn f) same (owner ∙ ap some who, page ∙ at)
]

-- The TLB takes in a page with its frame.
pub update_tlb-IsCoherent :
    (alive : ℕ → Type 0) (vm : Memory) (pid vpn pfn : ℕ)
    → IsCoherent alive vm
    → Owns vm pid vpn pfn
    → IsCoherent alive (update_tlb vm pid vpn pfn)
unfolding update_tlb
update_tlb-IsCoherent alive vm pid vpn pfn c o = record {
  cached =
      All-set (Tells vm NothingHidden) vm.tlb vm.tlb_idx
        (record { pid = some pid; vpn = vpn; pfn = pfn; valid = true })
        (λ v. (pid, refl, o, λ h. h)) c.cached;
  mapped = c.mapped;
  owned = c.owned;
  queued = c.queued;
  in_range = c.in_range;
}

-- What is still valid was not invalidated.
pub unless-valid :
    (b : Bool) (e : Entry)
    → (unless b e).valid ≡ true
    → (b ≡ false) × (unless b e ≡ e) × (e.valid ≡ true)
unless-valid true e v = ground (arith, v)
unless-valid false e v = (refl, refl, v)

-- The entries that are invalidated no longer have to tell anything.
pub unless-Tells :
    (vm vm' : Memory) (hidden hidden' : ℕ → Type 0) (b : Bool) (e : Entry)
    → ((pid : ℕ)
        → b ≡ false
        → e.pid ≡ some pid
        → Owns vm pid e.vpn e.pfn
        → (hidden e.pfn → ⊥)
        → Owns vm' pid e.vpn e.pfn × (hidden' e.pfn → ⊥))
    → Tells vm hidden e
    → Tells vm' hidden' (unless b e)
unless-Tells vm vm' hidden hidden' true e h t v = ground (arith, v)
unless-Tells vm vm' hidden hidden' false e h t v =
    let (pid, is, o, seen) = t v in let kept = h pid refl is o seen in (pid, is, kept.0, kept.1)

entries-Tells : (vm : Memory) (hidden : ℕ → Type 0) (n : ℕ) → All (Tells vm hidden) (entries n)
entries-Tells vm hidden zero = tt
entries-Tells vm hidden (suc n) = (λ v. ground (arith, v), entries-Tells vm hidden n)

pub construct-IsCoherent : (alive : ℕ → Type 0) → IsCoherent alive construct
unfolding construct
construct-IsCoherent alive = record {
  cached = entries-Tells construct NothingHidden tlb_size;
  mapped = λ pid vpn page a e v. ground (arith, e);
  owned = λ f pid e. ground (arith, e);
  queued = λ f pid h e. ground (arith, e);
  in_range = tt;
}
