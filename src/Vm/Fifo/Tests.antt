-- ===== src/Vm/Fifo/Tests.antt =====
use memory_allocator.Base.{◌≡◌, refl, some}
use memory_allocator.Vm.Fifo.{Fifo, empty, on_load, victim, on_evict}
use memory_allocator.Vm.Fifo.Order.{first_of, victim_is_oldest, victim_repeats}

abbrev loaded : Fifo
loaded = on_load (on_load (on_load empty 7) 8) 9

oldest_first : (victim loaded).0 ≡ some 7
unfolding victim on_load empty
oldest_first = refl

victim_repeats_example : (victim (on_load (on_evict (victim loaded).1 7) 7)).0 ≡ some 7
victim_repeats_example = victim_repeats loaded oldest_first

victim_is_oldest_test :
    ((victim (on_evict loaded 7)).0 ≡ first_of (on_evict loaded 7).in_use (on_evict loaded 7).order)
    × ((victim (on_evict loaded 7)).1.in_use ≡ (on_evict loaded 7).in_use)
victim_is_oldest_test = victim_is_oldest (on_evict loaded 7)
