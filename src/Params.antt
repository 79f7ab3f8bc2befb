-- ===== src/Params.antt =====
-- params/params.go: the parameters of streaming asynchronous execution.
use strevm.Base.{ℕ, ◌+◌, ◌*◌}

-- `Lambda`
abbrev pub lambda : ℕ
lambda = 2

abbrev pub tau_seconds : ℕ
tau_seconds = 5

abbrev pub max_full_blocks_in_open_queue : ℕ
max_full_blocks_in_open_queue = 2

abbrev pub max_full_blocks_in_closed_queue : ℕ
max_full_blocks_in_closed_queue = max_full_blocks_in_open_queue + 1

-- `MaxQueueWallTime`, in seconds.
abbrev pub max_queue_wall_time : ℕ
max_queue_wall_time = max_full_blocks_in_closed_queue * tau_seconds * lambda
