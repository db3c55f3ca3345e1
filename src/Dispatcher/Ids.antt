-- ===== src/Dispatcher/Ids.antt =====
-- Command ids: in range, and not reused for as long as possible.
use rose_esp.Prelude.{ℕ, zero, suc, ◌+◌, ◌-◌, ◌%◌, ◌≤◌, ◌<◌, ◌≡◌, ◌≢◌, arith}
use rose_esp.Dispatcher.{CommandDispatcher, following, get_next_cmd_id}

abbrev pub IsCmdId : ℕ → Type 0
IsCmdId n = (1 ≤ n) × (n < 65536)

pub following-IsCmdId : (n : ℕ) → IsCmdId n → IsCmdId (following n)
unfolding following
following-IsCmdId n h = ground arith

-- The dispatcher after `k` more ids have been drawn, whatever was sent with them.
pub after : ℕ → CommandDispatcher → CommandDispatcher
after zero d = d
after (suc k) d = after k (get_next_cmd_id d).1

following-cycle : (n : ℕ) → IsCmdId n → following n ≡ n % 65535 + 1
unfolding following
following-cycle n h = ground arith

next_cmd_id-after :
    (k : ℕ) (d : CommandDispatcher)
    → IsCmdId d.next_cmd_id
    → (after k d).next_cmd_id ≡ (d.next_cmd_id - 1 + k) % 65535 + 1
unfolding after get_next_cmd_id
next_cmd_id-after zero d h = omega arith
next_cmd_id-after (suc k) d h =
    let n = d.next_cmd_id in
    let cycle : following n ≡ n % 65535 + 1 = following-cycle n h in
    let ih = next_cmd_id-after k (record d { next_cmd_id = following n }) (following-IsCmdId n h) in
    omega (arith, ih, cycle)

-- From a dispatcher whose next id is from 1 to 65535, all ids are. The ids drawn from a dispatcher first and after `k` more draws
-- are different for every `k` from 1 to 65534, and the same after 65535.
pub get_next_cmd_id-fresh :
    (d : CommandDispatcher) (k : ℕ)
    → IsCmdId d.next_cmd_id
    → IsCmdId (get_next_cmd_id (after k d)).0
      × (1 ≤ k → k < 65535 → (get_next_cmd_id (after k d)).0 ≢ (get_next_cmd_id d).0)
      × ((get_next_cmd_id (after 65535 d)).0 ≡ (get_next_cmd_id d).0)
unfolding get_next_cmd_id
get_next_cmd_id-fresh d k h = (
  omega (arith, next_cmd_id-after k d h),
  omega (arith, next_cmd_id-after k d h),
  omega (arith, next_cmd_id-after 65535 d h),
)
