-- ===== src/Service/Ingest.antt =====
-- nvr_core/service/ingest.go: segments wait in a channel, and the loop of `Start` writes them to the
-- database in batches. An event is one thing that happens: a caller of `Enqueue`, or one case of the
-- loop's `select`. `BulkInsert` is a parameter: whether it takes a batch.
pub mod Conserve
use rm_vms.Base.{
  ℕ, zero, suc, ◌+◌, ◌≤◌, ◌<◌, ◌≡◌, refl, sym, ap, ap₂, ◌∙◌, inl, inr, Bool, true, false, Option,
  none, some, List, [], ◌∷◌, ◌++◌, ltb, leb, if◌then◌else◌, length, arith, Bool-cases, All,
}
use rm_vms.Segment.{Segment}

-- `flushes` has every batch that was handed to `BulkInsert`, in order, with whether it was taken.
pub record BatchIngester : Type 0 where
  pub buffer_size : ℕ
  pub batch_size : ℕ
  pub buffer_chan : List Segment
  pub batch : List Segment
  pub flushes : List (List Segment × Bool)
  pub stopped : Bool

unfoldable pub new_batch_ingester : ℕ → ℕ → BatchIngester
new_batch_ingester buffer_size batch_size = record {
  buffer_size = buffer_size;
  batch_size = batch_size;
  buffer_chan = [];
  batch = [];
  flushes = [];
  stopped = false;
}

pub data IngestEvent : Type 0 where
  enqueued : Segment → IngestEvent
  received ticked cancelled : IngestEvent

module _ (bulk_insert : List Segment → Bool) where
  -- `flush`, and `batch = nil` after it.
  unfoldable pub flush : BatchIngester → List Segment → BatchIngester
  flush b [] = record b { batch = [] }
  flush b (seg ∷ segs) = record b {
    batch = [];
    flushes = b.flushes ++ (seg ∷ segs, bulk_insert (seg ∷ segs)) ∷ [];
  }

  -- `Enqueue` where the channel has room; a caller waits where it has none. The channel is buffered:
  -- `bufferSize` is 1 or more.
  unfoldable pub enqueue : BatchIngester → Segment → Option BatchIngester
  enqueue b seg =
      if ltb (length b.buffer_chan) b.buffer_size
      then some (record b { buffer_chan = b.buffer_chan ++ seg ∷ [] })
      else none

  -- `case seg := <-b.bufferChan`
  abbrev pub take_in : BatchIngester → Segment → List Segment → BatchIngester
  take_in b seg rest =
      let batch = b.batch ++ seg ∷ [] in
      if leb b.batch_size (length batch)
      then flush (record b { buffer_chan = rest; batch = batch }) batch
      else record b { buffer_chan = rest; batch = batch }

  unfoldable pub receive_segment : BatchIngester → Option BatchIngester
  receive_segment b = elim b.buffer_chan [ [] ↦ none | seg ∷ rest ↦ some (take_in b seg rest) ]

  unfoldable pub tick : BatchIngester → BatchIngester
  tick b = flush b b.batch

  unfoldable pub shut_down : BatchIngester → BatchIngester
  shut_down b = record (flush b b.batch) { stopped = true }

  -- What happens, each a step of its own; the loop is over once it has been shut down.
  unfoldable pub ingest_step : BatchIngester → IngestEvent → Option BatchIngester
  ingest_step b (enqueued seg) = enqueue b seg
  ingest_step b received = if b.stopped then none else receive_segment b
  ingest_step b ticked = if b.stopped then none else some (tick b)
  ingest_step b cancelled = if b.stopped then none else some (shut_down b)

  unfoldable pub ingest_run : BatchIngester → List IngestEvent → Option BatchIngester
  ingest_run b [] = some b
  ingest_run b (e ∷ es) = elim (ingest_step b e) [ none ↦ none | some b' ↦ ingest_run b' es ]
