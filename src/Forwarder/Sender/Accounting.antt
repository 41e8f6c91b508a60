-- ===== src/Forwarder/Sender/Accounting.antt =====
-- What the sender of tools/traffic-forwarder/main.go does with each payload.
use mesh_vpn.Forwarder.Sender.{
  Move, Posting, TelemetryPayload, TelemetrySender, enqueue, flush, offer, word, flush_full,
  receive, receive_from, Environment, log_stats, new_telemetry_sender, run_moves, step,
  receive_next, tick,
}
use mesh_vpn.Base.{
  List, [], arith, length, length-append, suc, ℕ, ◌%◌, ◌+◌, ◌<◌, ◌∷◌, ◌≡◌, ◌≤◌, Bool-cases, inl,
  inr, leb, refl, ◌++◌, Option, ap, subst,
}
use mesh_vpn.Text.{Text}
use mesh_vpn.Base.Int.{ℤ}

-- How many payloads were offered.
abbrev pub offers : List Move → ℕ
offers [] = 0
offers (offer payload ∷ ms) = suc (offers ms)
offers (_ ∷ ms) = offers ms

-- The queue keeps its bound, the batch is not full, and each payload was sent, failed, dropped, or waits,
-- by counters that wrap.
pub record IsAccounted (offered : ℕ) (s : TelemetrySender) : Type 0 where
  pub queue_bound : length s.queue ≤ s.queue_size
  pub batch_bound : length s.batch < s.batch_size
  pub accounted :
      (s.sent + s.failed + s.dropped + length s.queue + length s.batch) % word ≡ offered % word

enqueue-IsAccounted :
    (payload : TelemetryPayload) (offered : ℕ) (s : TelemetrySender)
    → IsAccounted offered s
    → IsAccounted (suc offered) (enqueue payload s)
unfolding enqueue
enqueue-IsAccounted payload offered s a = ground (arith, length-append s.queue (payload ∷ []))

flush-IsAccounted :
    (posting : Posting) (offered : ℕ) (s : TelemetrySender)
    → length s.queue ≤ s.queue_size
    → 0 < s.batch_size
    → (s.sent + s.failed + s.dropped + length s.queue + length s.batch) % word ≡ offered % word
    → IsAccounted offered (flush posting s)
unfolding flush
flush-IsAccounted (answer, again) offered s q b a = ground arith

receive-IsAccounted :
    (posting : Posting) (offered : ℕ) (s : TelemetrySender)
    → IsAccounted offered s
    → IsAccounted offered (receive posting s)
unfolding receive
receive-IsAccounted posting offered s a = by_queue s.queue refl
  where
    taken : (payload : TelemetryPayload) (rest : List TelemetryPayload) → TelemetrySender
    taken payload rest = record s { queue = rest; batch = s.batch ++ payload ∷ [] }

    received :
        (payload : TelemetryPayload) (rest : List TelemetryPayload)
        → s.queue ≡ payload ∷ rest
        → IsAccounted offered (flush_full posting (taken payload rest))
    received payload rest e =
        let one_less : length s.queue ≡ suc (length rest) =
          ap (λ (q : List TelemetryPayload). length q) e in
        let one_more = length-append s.batch (payload ∷ []) in
        elim (Bool-cases (leb s.batch_size (length (s.batch ++ payload ∷ [])))) [
          | inl full ↦ rw full (
              flush-IsAccounted posting offered (taken payload rest)
                (omega (arith, a.queue_bound, one_less)) (omega (arith, a.batch_bound))
                (omega (arith, a.queue_bound, a.batch_bound, a.accounted, one_less, one_more)))
          | inr room ↦ rw room (record {
            queue_bound = omega (arith, a.queue_bound, one_less);
            batch_bound = ground arith;
            accounted =
                omega (arith, a.queue_bound, a.batch_bound, a.accounted, one_less, one_more);
          })
        ]

    by_queue :
        (queue : List TelemetryPayload)
        → s.queue ≡ queue
        → IsAccounted offered (receive_from queue posting s)
    by_queue [] e = a
    by_queue (payload ∷ rest) e = received payload rest e

recount : {n k : ℕ} (s : TelemetrySender) → n ≡ k → IsAccounted n s → IsAccounted k s
recount s e = subst (λ n. IsAccounted n s) e

step-IsAccounted :
    (m : Move) (offered : ℕ) (s : TelemetrySender)
    → IsAccounted offered s
    → IsAccounted (offered + offers (m ∷ [])) (step m s)
unfolding step
step-IsAccounted (offer payload) offered s a =
    recount (enqueue payload s) (omega arith) (enqueue-IsAccounted payload offered s a)
step-IsAccounted (receive_next posting) offered s a =
    recount (receive posting s) (omega arith) (receive-IsAccounted posting offered s a)
step-IsAccounted (tick posting) offered s a =
    recount (flush posting s) (omega arith)
      (flush-IsAccounted posting offered s a.queue_bound (omega (arith, a.batch_bound)) a.accounted)
step-IsAccounted log_stats offered s a = recount s (omega arith) a

offers-cons : (m : Move) (ms : List Move) → offers (m ∷ ms) ≡ offers (m ∷ []) + offers ms
offers-cons (offer payload) ms = omega arith
offers-cons (receive_next posting) ms = omega arith
offers-cons (tick posting) ms = omega arith
offers-cons log_stats ms = omega arith

run_moves_from :
    (ms : List Move) (offered : ℕ) (s : TelemetrySender)
    → IsAccounted offered s
    → IsAccounted (offered + offers ms) (run_moves ms s)
unfolding run_moves
run_moves_from [] offered s a = recount s (omega arith) a
run_moves_from (m ∷ ms) offered s a =
    recount (run_moves ms (step m s)) (omega (arith, offers-cons m ms))
      (run_moves_from ms (offered + offers (m ∷ [])) (step m s) (step-IsAccounted m offered s a))

-- From its start, with any configuration, whatever is offered, received, posted and answered, and in any
-- order: the queue never exceeds its size, and a batch is flushed before it exceeds its own; and every
-- payload that was offered is counted once as sent, as failed or as dropped, or it waits in the queue
-- or in the batch, where counts are 64-bit numbers that wrap.
pub run_moves-IsAccounted :
    (parse : Text → Option ℤ) (env : Environment) (base_url : Text) (ms : List Move)
    → IsAccounted (offers ms) (run_moves ms (new_telemetry_sender parse env base_url))
unfolding new_telemetry_sender
run_moves-IsAccounted parse env base_url ms =
    recount (run_moves ms (new_telemetry_sender parse env base_url)) (omega arith) (
      run_moves_from ms 0 (new_telemetry_sender parse env base_url)
        (record { queue_bound = omega arith; batch_bound = ground arith; accounted = refl }))
