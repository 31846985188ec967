-- ===== src/Comms/Metrics.antt =====
-- flight/comms_client.py: the latency percentile and the zero-loss report.
use asterion_one.Base.{
  ℕ, ◌+◌, ◌-◌, ◌*◌, ◌/◌, Bool, ◌&&◌, Option, none, List, [], ◌∷◌, length, get_elem?, leb, ltb, ◌==◌,
  min, if◌then◌else◌,
}
use asterion_one.Queue.{depth}
use asterion_one.Comms.State.{Client}

-- `sorted`
pub insert_number : ℕ → List ℕ → List ℕ
insert_number n [] = n ∷ []
insert_number n (m ∷ ms) = let rest = m ∷ insert_number n ms in if leb n m then n ∷ m ∷ ms else rest

pub sort_numbers : List ℕ → List ℕ
sort_numbers [] = []
sort_numbers (n ∷ ns) = insert_number n (sort_numbers ns)

-- In nanoseconds, and not rounded. `int(n * 0.95)` is `n * 95 / 100`: the product is off by less than
-- half a unit in the last place, and no number is nearer than 0.05 below a whole one.
unfoldable pub compute_p95_latency : List ℕ → Option ℕ
compute_p95_latency latencies =
    let n = length latencies in
    if ltb n 10 then none else get_elem? (sort_numbers latencies) (min (n * 95 / 100) (n - 1))

-- A difference of two numbers, as Python has it.
pub data Difference : Type 0 where
  pos : ℕ → Difference
  negsuc : ℕ → Difference

abbrev pub minus : ℕ → ℕ → Difference
minus a b = if ltb a b then negsuc (b - a - 1) else pos (a - b)

pub record Report : Type 0 where
  pub total_generated : Difference
  pub highest_ack : ℕ
  pub queue_remaining : ℕ
  pub unacked : Difference
  pub zero_loss : Bool

-- The next number is never 0.
unfoldable pub verify_zero_loss : {S W : Type 0} → ℕ → Client S W → Report
verify_zero_loss expected c = record {
  total_generated = minus c.next_seq_id 1;
  highest_ack = c.highest_ack_seq_id;
  queue_remaining = depth c.queue;
  unacked = minus c.next_seq_id (c.highest_ack_seq_id + 1);
  zero_loss = leb expected c.highest_ack_seq_id && (depth c.queue == 0);
}
