-- ===== src/Forwarder/Sender.antt =====
-- `TelemetrySender` of tools/traffic-forwarder/main.go: a bounded queue, from which batches are posted. Its
-- counters are 64-bit numbers. A flush touches neither the queue nor the count of what is dropped, so
-- that it stands as one step beside what is enqueued meanwhile.
pub mod Accounting
use mathlib.Core.List.{reverse}
use mesh_vpn.Text.{Text, codes, is_empty, trim_left, trim_space}
use mesh_vpn.Base.{
  Bool, List, Option, [], false, if◌then◌else◌, leb, length, ltb, none, some, ℕ, ◌%◌, ◌*◌, ◌++◌,
  ◌+◌, ◌==◌, ◌^◌, ◌||◌, ◌∷◌,
}
use mesh_vpn.Base.Int.{lt_ℤ, pos, pos_part, ℤ}
use mesh_vpn.Text.Numbers.{atoi}

pub record TelemetryPayload : Type 0 where
  pub deployment_id : Text
  pub status_code : ℤ
  -- in microseconds, where the program has a float64 of milliseconds
  pub latency : ℤ
  pub bytes_sent : ℤ
  pub bytes_received : ℤ
  pub path : Text
  pub timestamp : Text

-- Durations are in milliseconds. `batch` is the slice of the loop of `Run`.
pub record TelemetrySender : Type 0 where
  pub batch_endpoint : Text
  pub http_timeout : ℤ
  pub flush_interval : ℤ
  pub batch_size : ℕ
  pub queue_size : ℕ
  pub queue : List TelemetryPayload
  pub batch : List TelemetryPayload
  pub dropped : ℕ
  pub sent : ℕ
  pub failed : ℕ

abbrev pub word : ℕ
word = 2 ^ 64

-- `atomic.AddUint64`
abbrev pub add_word : ℕ → ℕ → ℕ
add_word a n = (a + n) % word

abbrev parsed_or : ℤ → Option ℤ → ℤ
parsed_or default none = default
parsed_or default (some n) = n

-- `raw` is the variable of the environment.
unfoldable pub env_int : Text → ℤ → ℤ
unfolding trim_space atoi
env_int raw default =
    if is_empty (trim_space raw) then default else parsed_or default (atoi (trim_space raw))

-- `parse` is `time.ParseDuration`.
unfoldable pub env_duration : (Text → Option ℤ) → Text → ℤ → ℤ
unfolding trim_space
env_duration parse raw default =
    if is_empty (trim_space raw) then default else parsed_or default (parse (trim_space raw))

pub record Environment : Type 0 where
  pub batch_size : Text
  pub queue_size : Text
  pub flush_interval : Text
  pub http_timeout : Text

abbrev at_least : ℤ → ℤ → ℤ
at_least low n = if lt_ℤ n low then low else n

abbrev pub batch_size_of : ℤ → ℕ
batch_size_of n = if lt_ℤ n (pos 1) then 1 else pos_part n

abbrev pub queue_size_of : ℕ → ℤ → ℕ
queue_size_of batch n = if lt_ℤ n (pos batch) then batch * 2 else pos_part n

-- `strings.TrimRight(s, "/")`
abbrev trim_right : ℕ → Text → Text
trim_right cut s = reverse (trim_left (λ c. c == cut) (reverse s))

unfoldable pub new_telemetry_sender : (Text → Option ℤ) → Environment → Text → TelemetrySender
unfolding env_int env_duration trim_left
new_telemetry_sender parse env base_url =
    let batch = batch_size_of (env_int env.batch_size (pos 200)) in
    record {
      batch_endpoint = trim_right b'/' base_url ++ codes "/api/telemetry/deployment-request/batch";
      http_timeout = at_least (pos 500) (env_duration parse env.http_timeout (pos 3000));
      flush_interval = at_least (pos 100) (env_duration parse env.flush_interval (pos 1000));
      batch_size = batch;
      queue_size = queue_size_of batch (env_int env.queue_size (pos 20000));
      queue = [];
      batch = [];
      dropped = 0;
      sent = 0;
      failed = 0;
    }

-- A send on the channel, or a count where it is full.
unfoldable pub enqueue : TelemetryPayload → TelemetrySender → TelemetrySender
enqueue payload s =
    if ltb (length s.queue) s.queue_size
    then record s { queue = s.queue ++ payload ∷ [] }
    else record s { dropped = add_word s.dropped 1 }

-- What comes of posting a batch: an error before or at the request, or a status with a body.
pub data PostAnswer : Type 0 where
  not_posted : Text → PostAnswer
  answered : ℕ → PostAnswer

-- Whether `postBatch` returns no error.
abbrev pub is_posted : PostAnswer → Bool
is_posted (not_posted e) = false
is_posted (answered status) = status == 200

-- The answer to a batch, and to the same batch once more.
abbrev pub Posting : Type 0
Posting = PostAnswer × PostAnswer

unfoldable pub flush : Posting → TelemetrySender → TelemetrySender
flush (answer, again) s =
    let size = length s.batch in
    if size == 0
    then s
    else if is_posted answer || is_posted again
    then record s { sent = add_word s.sent size; batch = [] }
    else record s { failed = add_word s.failed size; batch = [] }

abbrev flush_full : Posting → TelemetrySender → TelemetrySender
flush_full posting s = if leb s.batch_size (length s.batch) then flush posting s else s

-- A receive from the channel; it waits while that is empty.
abbrev receive_from : List TelemetryPayload → Posting → TelemetrySender → TelemetrySender
receive_from [] posting s = s
receive_from (payload ∷ rest) posting s =
    flush_full posting (record s { queue = rest; batch = s.batch ++ payload ∷ [] })

unfoldable pub receive : Posting → TelemetrySender → TelemetrySender
unfolding flush
receive posting s = receive_from s.queue posting s

-- A step of the sender or of those who enqueue: the ticker of `Run` flushes, that of the statistics only
-- logs.
pub data Move : Type 0 where
  offer : TelemetryPayload → Move
  receive_next : Posting → Move
  tick : Posting → Move
  log_stats : Move

unfoldable pub step : Move → TelemetrySender → TelemetrySender
unfolding enqueue receive flush
step (offer payload) s = enqueue payload s
step (receive_next posting) s = receive posting s
step (tick posting) s = flush posting s
step log_stats s = s

unfoldable pub run_moves : List Move → TelemetrySender → TelemetrySender
unfolding step
run_moves [] s = s
run_moves (m ∷ ms) s = run_moves ms (step m s)
