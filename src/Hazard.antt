-- ===== src/Hazard.antt =====
-- include/util/hazard/HazardVector.hpp with its cells (HazardCell.hpp): hazard pointers and lists of
-- retired objects. A pointer is a number, and the null pointer is 0.
pub mod Scan
pub mod Vectors
pub mod Collect
pub mod Protect
mod Tests
use mpmc_queues.Base.{
  ℕ, zero, suc, ◌+◌, ◌-◌, ◌^◌, Bool, true, false, not, ◌&&◌, ◌||◌, Option, none, some, List, [],
  ◌∷◌, ◌++◌, ltb, ◌==◌, if◌then◌else◌, update, length,
}

-- `maxThreads_`, `HV_MAX_HPS` and `THRESHOLD_R`.
pub record Config : Type 0 where
  pub max_threads : ℕ
  pub max_hps : ℕ
  pub threshold : ℕ

-- `storage_[thread].data()[slot]`
abbrev pub Cells : Type 0
Cells = ℕ → ℕ → ℕ

abbrev pub null : ℕ
null = 0

-- The constructor: `none` when there are more threads than `HV_MAX_THREADS`, 256 by default.
unfoldable pub storage_init : Config → Option Cells
storage_init c = if ltb 256 c.max_threads then none else some (λ thread slot. null)

unfoldable pub protect : Config → (ptr tid hpid : ℕ) → Cells → Option Cells
protect c ptr tid hpid cells =
    if ltb tid c.max_threads && ltb hpid c.max_hps
    then some (update cells tid (update (cells tid) hpid ptr))
    else none

unfoldable pub clear : Config → (tid hpid : ℕ) → Cells → Option Cells
clear c tid hpid cells =
    if ltb tid c.max_threads && ltb hpid c.max_hps
    then some (update cells tid (update (cells tid) hpid null))
    else none

-- The loop of the second `protect`, where its assertion on the thread and the slot has held. `atom n` is what the atomic holds at moment `n`; the load, the
-- store and the second load are moments of their own. The result is the pointer that the cell holds
-- and the moment of the store; `none` is out of fuel.
unfoldable pub protect_atom : (fuel : ℕ) → (atom : ℕ → ℕ) → (moment : ℕ) → Option (ℕ × ℕ)
protect_atom zero atom moment = none
protect_atom (suc fuel) atom moment =
    let tmp = atom moment in
    let again = protect_atom fuel atom (moment + 3) in
    if atom (moment + 2) == tmp then some (tmp, moment + 1) else again

-- The inner loop of `collect` over the slots of one thread, from slot `h` on with `rounds` left.
-- `loads n` are the cells at moment `n`. The result says whether the object is found, and the moment
-- after the last load.
unfoldable pub scan_slots : (loads : ℕ → Cells) → (obj thread rounds h moment : ℕ) → Bool × ℕ
scan_slots loads obj t zero h moment = (false, moment)
scan_slots loads obj t (suc n) h moment =
    let rest = scan_slots loads obj t n (h + 1) (moment + 1) in
    if loads moment t h == obj then (true, moment + 1) else rest

-- The loop over the threads, which stops when the object is found.
unfoldable pub scan_threads : (loads : ℕ → Cells) → (hps obj rounds thread moment : ℕ) → Bool × ℕ
scan_threads loads hps obj zero t moment = (false, moment)
scan_threads loads hps obj (suc n) t moment =
    let (found, after) = scan_slots loads obj t hps 0 moment in
    let rest = scan_threads loads hps obj n (t + 1) after in if found then (true, after) else rest

-- `v[i]`, `v[i] = x`, `v.back()` and `v.pop_back()` of a `std::vector`; out of range, which the code
-- does not reach, they read 0 and change nothing.
unfoldable pub at : List ℕ → ℕ → ℕ
at [] i = 0
at (x ∷ v) zero = x
at (x ∷ v) (suc i) = at v i

unfoldable pub set_at : List ℕ → ℕ → ℕ → List ℕ
set_at [] i y = []
set_at (x ∷ v) zero y = y ∷ v
set_at (x ∷ v) (suc i) y = x ∷ set_at v i y

unfoldable pub back : List ℕ → ℕ
back [] = 0
back (x ∷ []) = x
back (x ∷ y ∷ v) = back (y ∷ v)

unfoldable pub pop_back : List ℕ → List ℕ
pop_back [] = []
pop_back (x ∷ []) = []
pop_back (x ∷ y ∷ v) = x ∷ pop_back (y ∷ v)

-- `std::swap(v[i], v.back()); v.pop_back();`
unfoldable pub swap_pop : List ℕ → ℕ → List ℕ
swap_pop v i = pop_back (set_at v i (back v))

-- The loop of `collect` from index `i` on: the retired list afterwards and the deleted objects. Each
-- round moves `i` up or shortens the list, so as many rounds as the list is long are enough.
unfoldable pub collect_loop :
    (fuel : ℕ) → Config → (loads : ℕ → Cells) → (i : ℕ) → List ℕ → (moment : ℕ) → List ℕ × List ℕ
collect_loop zero c loads i v moment = (v, [])
collect_loop (suc fuel) c loads i v moment =
    let obj = at v i in
    let (found, after) = scan_threads loads c.max_hps obj c.max_threads 0 moment in
    let (kept, deleted) =
      collect_loop fuel c loads (if found then i + 1 else i) (if found then v else swap_pop v i)
        after in
    if ltb i (length v) then (kept, if found then deleted else obj ∷ deleted) else (v, [])

unfoldable pub collect : Config → (loads : ℕ → Cells) → List ℕ → List ℕ × List ℕ
collect c loads v = collect_loop (length v) c loads 0 v 0

-- `retire`: the retired list of the thread afterwards and the deleted objects.
unfoldable pub retire :
    Config → (loads : ℕ → Cells) → (ptr : ℕ) → (check_threshold : Bool) → List ℕ → List ℕ × List ℕ
retire c loads ptr check v =
    let v' = v ++ (ptr ∷ []) in
    if ptr == null
    then (v, [])
    else if check && ltb (length v') c.threshold
    then (v', [])
    else collect c loads v'

-- The destructor deletes what the threads' lists still hold, with `rounds` lists left.
unfoldable pub destroy : (rounds i : ℕ) → (retired : ℕ → List ℕ) → List ℕ
destroy zero i retired = []
destroy (suc n) i retired = retired i ++ destroy n (i + 1) retired
