-- ===== src/Vm/Tlb.antt =====
-- memlab/include/memlab/vm/tlb.hpp. The map is a list of entries, in its order of iteration;
-- `erase` takes out every entry of a key. A pid is only compared. Counters have 64 bits.
pub mod Mapping
mod Tests
use memory_allocator.Base.{
  ℕ, ◌==◌, ltb, leb, if◌then◌else◌, ◌&&◌, Bool, true, false, Option, none, some, List, [], ◌∷◌,
  length,
}
use memory_allocator.Base.Bits.{add64}

pub record Entry : Type 0 where
  pub pid : ℕ
  pub vpn : ℕ
  pub frame : ℕ
  pub stamp : ℕ

pub record Tlb : Type 0 where
  pub cap : ℕ
  pub clock : ℕ
  pub hits : ℕ
  pub misses : ℕ
  pub map : List Entry

unfoldable pub construct : ℕ → Tlb
construct capacity = record { cap = capacity; clock = 0; hits = 0; misses = 0; map = [] }

abbrev pub has_key : Entry → ℕ → ℕ → Bool
has_key e pid vpn = e.pid == pid && e.vpn == vpn

unfoldable pub find : ℕ → ℕ → List Entry → Option Entry
find pid vpn [] = none
find pid vpn (e ∷ rest) = if has_key e pid vpn then some e else find pid vpn rest

-- `_map[k] = {frame, stamp}` for a key that is there.
unfoldable pub replace : ℕ → ℕ → ℕ → ℕ → List Entry → List Entry
replace pid vpn frame stamp [] = []
replace pid vpn frame stamp (e ∷ rest) =
    (if has_key e pid vpn then record e { frame = frame; stamp = stamp } else e)
    ∷ replace pid vpn frame stamp rest

unfoldable pub erase : ℕ → ℕ → List Entry → List Entry
erase pid vpn [] = []
erase pid vpn (e ∷ rest) = if has_key e pid vpn then erase pid vpn rest else e ∷ erase pid vpn rest

unfoldable pub hit : Tlb → ℕ → ℕ → Option Entry → Option ℕ × Tlb
unfolding replace
hit t pid vpn none = (none, t)
hit t pid vpn (some e) =
    let now = add64 t.clock 1 in
    (
      some e.frame,
      record t { clock = now; hits = add64 t.hits 1; map = replace pid vpn e.frame now t.map },
    )

unfoldable pub lookup : Tlb → ℕ → ℕ → Option ℕ × Tlb
unfolding find hit
lookup t pid vpn = hit t pid vpn (find pid vpn t.map)

-- The loop of `evict`: the entry with the least stamp, the first of several.
unfoldable pub oldest_of : Entry → List Entry → Entry
oldest_of oldest [] = oldest
oldest_of oldest (e ∷ rest) = oldest_of (if ltb e.stamp oldest.stamp then e else oldest) rest

unfoldable pub evict : List Entry → List Entry
unfolding oldest_of erase
evict [] = []
evict (e ∷ rest) = let o = oldest_of e (e ∷ rest) in erase o.pid o.vpn (e ∷ rest)

-- Where `insert` puts a key that the map has, or has not.
unfoldable pub store : Tlb → ℕ → ℕ → ℕ → Option Entry → Tlb
unfolding replace evict
store t pid vpn frame (some e) =
    let now = add64 t.clock 1 in record t { clock = now; map = replace pid vpn frame now t.map }
store t pid vpn frame none =
    let now = add64 t.clock 1 in
    let kept = if leb t.cap (length t.map) then evict t.map else t.map in
    record t {
      clock = now;
      map = record { pid = pid; vpn = vpn; frame = frame; stamp = now } ∷ kept;
    }

unfoldable pub insert : Tlb → ℕ → ℕ → ℕ → Tlb
unfolding find store
insert t pid vpn frame = store t pid vpn frame (find pid vpn t.map)

unfoldable pub invalidate : Tlb → ℕ → ℕ → Tlb
unfolding erase
invalidate t pid vpn = record t { map = erase pid vpn t.map }

unfoldable pub erase_pid : ℕ → List Entry → List Entry
erase_pid pid [] = []
erase_pid pid (e ∷ rest) = if e.pid == pid then erase_pid pid rest else e ∷ erase_pid pid rest

unfoldable pub flush_pid : Tlb → ℕ → Tlb
unfolding erase_pid
flush_pid t pid = record t { map = erase_pid pid t.map }

unfoldable pub count_miss : Tlb → Tlb
count_miss t = record t { misses = add64 t.misses 1 }

abbrev reset_stats : Tlb → Tlb
reset_stats t = record t { hits = 0; misses = 0 }
