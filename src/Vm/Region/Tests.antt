-- ===== src/Vm/Region/Tests.antt =====
-- Regions on small inputs.
use memory_allocator.Base.{
  ◌+◌, ◌*◌, ◌≤◌, ◌<◌, ◌≡◌, refl, min, true, false, List, [], ◌∷◌, ◌++◌, arith,
}
use memory_allocator.Memory.Utils.Bounds.{RoundsUp, align_up-RoundsUp}
use memory_allocator.Vm.Region.{
  eager_touch, adaptive, Call, mmap, madvise_populate, write, VmemRegion, ok, round_up_to_page,
  touch_pages, touch_from, construct, destroy, move_construct, worker_round, advance_hwm,
}
use memory_allocator.Vm.Region.Touch.{touch_pages-every_page}
use memory_allocator.Vm.Region.Worker.{advance, round, step, run, IsCovered, worker_covers}
use memory_allocator.Vm.Region.Release.{releases, touches, locks, move-destroy, lifetime-releases}

abbrev watched : VmemRegion
watched = record {
  base = 65536;
  size = 1048576;
  policy = adaptive;
  locked = true;
  prefaulted = 0;
  hwm_bytes = 0;
  stop_bg = false;
  bg_joinable = true;
}

-- Every page is written to.
three_pages : touch_pages 4096 65536 12288 ≡ write 65536 ∷ write 69632 ∷ write 73728 ∷ []
unfolding touch_pages touch_from
three_pages = refl

two_rounds :
    (run 4096 (watched, 0, []) (round ∷ advance 8192 ∷ round ∷ round ∷ [])).2
    ≡ madvise_populate 65536 262144 ∷ madvise_populate 327680 8192 ∷ []
unfolding run worker_round advance_hwm
two_rounds = refl

worker_covers_example :
    let s = run 4096 (watched, 0, []) (round ∷ []) in
    let t = step 4096 (step 4096 s (advance 8192)) round in
    IsCovered 65536 1048576 [] s
    × IsCovered 65536 1048576 [] t
    × (min 1048576 (8192 + 64 * 4096) ≤ t.0.prefaulted)
worker_covers_example =
    worker_covers 4096 watched [] (round ∷ []) 8192 (omega arith) refl refl (omega arith)

move-destroy_test :
    let (n, o) = move_construct watched in
    (destroy o (destroy n []) ≡ destroy watched [])
    × (destroy n (destroy o []) ≡ destroy watched [])
move-destroy_test = move-destroy watched []

some_bytes : 0 < round_up_to_page 4096 5000
unfolding round_up_to_page
some_bytes =
    let r : RoundsUp 5000 4096 (round_up_to_page 4096 5000) =
      align_up-RoundsUp 5000 12 (omega arith) (omega arith) in
    omega (arith, r.above)

lifetime-releases_example :
    (r : VmemRegion) × (calls : List Call) × (construct 4096 65536 true 5000 eager_touch false true
        []
      ≡ ok r calls)
    × (calls
        ≡ (mmap (round_up_to_page 4096 5000) false false
            ∷ touches eager_touch 4096 65536 (round_up_to_page 4096 5000))
          ++ locks true 65536 (round_up_to_page 4096 5000))
    × (destroy r calls ≡ calls ++ releases true 65536 (round_up_to_page 4096 5000))
lifetime-releases_example =
    lifetime-releases 4096 65536 5000 true false true eager_touch [] (omega arith)
      (λ e. ground (arith, e)) some_bytes

touch_pages-every_page_test :
    touch_pages 4096 65536 12288 ≡ write 65536 ∷ write 69632 ∷ write 73728 ∷ []
touch_pages-every_page_test = touch_pages-every_page 3 4096 65536 (omega arith) (omega arith)
