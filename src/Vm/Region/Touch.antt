-- ===== src/Vm/Region/Touch.antt =====
-- The pages that EagerTouch writes to.
use native.Mathlib.Nat.{add-mul-div_right, zero-div}
use memory_allocator.Base.{
  ℕ, zero, suc, ◌+◌, ◌*◌, ◌/◌, ◌^◌, ◌<◌, ◌≡◌, refl, ap, ap₂, ◌∙◌, ltb, true, false, List, [], ◌∷◌,
  arith,
}
use memory_allocator.Base.Bits.{add64}
use memory_allocator.Vm.Region.{Call, write, touch_from, touch_pages}

-- One write in each of `n` pages from an address on.
abbrev pub every_page : ℕ → ℕ → ℕ → List Call
every_page zero page address = []
every_page (suc n) page address = write address ∷ every_page n page (address + page)

add_assoc : (a b c : ℕ) → a + (b + c) ≡ a + b + c
add_assoc a b c = omega arith

touch_from-every_page :
    (n page base sz off : ℕ)
    → 0 < page
    → base + sz < 2 ^ 64
    → off + n * page ≡ sz
    → touch_from (suc n) page base sz off ≡ every_page n page (base + off)
unfolding touch_from
touch_from-every_page zero page base sz off p fits e =
    let over : ltb off sz ≡ false = ground (arith, e) in rw over refl
touch_from-every_page (suc n) page base sz off p fits e =
    let more : ltb off sz ≡ true = ground (arith, e, p) in
    let here : add64 base off ≡ base + off = omega (arith, fits, e, p) in
    let next : add64 off page ≡ off + page = omega (arith, fits, e, p) in
    let reaches : (off + page) + n * page ≡ sz = omega (arith, e) in
    let rest =
      ap (touch_from (suc n) page base sz) next
      ∙ touch_from-every_page n page base sz (off + page) p fits reaches
      ∙ ap (every_page n page) (add_assoc base off page) in
    rw more (ap₂ (λ a l. write a ∷ l) here rest)

pages : (n page : ℕ) → 0 < page → n * page / page ≡ n
pages n page p =
    ap (λ x. x / page) (omega arith) ∙ add-mul-div_right 0 n p ∙ omega (arith, zero-div page)

-- For a region of `n` pages that ends below 2^64: EagerTouch ends, with one write in each page of
-- the region, in order.
pub touch_pages-every_page :
    (n page base : ℕ)
    → 0 < page
    → base + n * page < 2 ^ 64
    → touch_pages page base (n * page) ≡ every_page n page base
unfolding touch_pages
touch_pages-every_page n page base p fits =
    ap (λ k. touch_from (suc k) page base (n * page) 0) (pages n page p)
    ∙ touch_from-every_page n page base (n * page) 0 p fits (omega arith)
    ∙ ap (every_page n page) (omega arith)
