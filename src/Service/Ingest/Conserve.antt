-- ===== src/Service/Ingest/Conserve.antt =====
-- Where the segments of nvr_core/service/ingest.go are: batches, batch and channel.
use mathlib.Core.List.{append-nil, append_assoc}
use rm_vms.Base.{
  ℕ, ◌≡◌, refl, sym, ap, ◌∙◌, inl, inr, Bool, true, false, Option, none, some, List, [], ◌∷◌, ◌++◌,
  ltb, leb, if◌then◌else◌, length, Bool-cases, Option-cases,
}
use rm_vms.Segment.{Segment}
use rm_vms.Service.Ingest.{
  BatchIngester, IngestEvent, enqueued, received, ticked, cancelled, new_batch_ingester, flush,
  enqueue, take_in, receive_segment, tick, shut_down, ingest_step, ingest_run,
}

-- The segments of the batches, one after another.
abbrev pub segments_of : List (List Segment × Bool) → List Segment
segments_of [] = []
segments_of ((batch, taken) ∷ flushes) = batch ++ segments_of flushes

-- All segments that came in, in order: those handed to the database, those in the batch, and those
-- that wait in the channel.
unfoldable pub contents : BatchIngester → List Segment
contents b = segments_of b.flushes ++ b.batch ++ b.buffer_chan

abbrev pub enqueued_of : List IngestEvent → List Segment
enqueued_of [] = []
enqueued_of (enqueued seg ∷ es) = seg ∷ enqueued_of es
enqueued_of (received ∷ es) = enqueued_of es
enqueued_of (ticked ∷ es) = enqueued_of es
enqueued_of (cancelled ∷ es) = enqueued_of es

segments_of-append :
    (xs : List (List Segment × Bool)) (batch : List Segment) (taken : Bool)
    → segments_of (xs ++ (batch, taken) ∷ []) ≡ segments_of xs ++ batch
segments_of-append [] batch taken = append-nil batch
segments_of-append ((first, t) ∷ xs) batch taken =
    rw (segments_of-append xs batch taken) (sym (append_assoc first (segments_of xs) batch))

enqueued_of-cons :
    (e : IngestEvent) (es : List IngestEvent)
    → enqueued_of (e ∷ []) ++ enqueued_of es ≡ enqueued_of (e ∷ es)
enqueued_of-cons (enqueued seg) es = refl
enqueued_of-cons received es = refl
enqueued_of-cons ticked es = refl
enqueued_of-cons cancelled es = refl

still_on :
    (stopped : Bool) (o : Option BatchIngester) (b : BatchIngester)
    → (if stopped then none else o) ≡ some b
    → o ≡ some b
still_on true o b e = cc e
still_on false o b e = e

module _ (bulk_insert : List Segment → Bool) where
  -- A flush moves the batch it is given to the database.
  flush-contents :
      (b : BatchIngester) (batch : List Segment)
      → contents (flush bulk_insert b batch) ≡ segments_of b.flushes ++ batch ++ b.buffer_chan
  unfolding contents flush
  flush-contents b [] = refl
  flush-contents b (seg ∷ segs) =
      rw (segments_of-append b.flushes (seg ∷ segs) (bulk_insert (seg ∷ segs)))
        (ap (λ l. l ++ b.buffer_chan) (append-nil (segments_of b.flushes ++ seg ∷ segs)))

  take_in-contents :
      (b : BatchIngester) (seg : Segment) (rest : List Segment)
      → contents (take_in bulk_insert b seg rest) ≡ segments_of b.flushes ++ b.batch ++ seg ∷ rest
  unfolding contents
  take_in-contents b seg rest =
      elim (Bool-cases (leb b.batch_size (length (b.batch ++ seg ∷ [])))) [
        | inl full ↦ rw full (
            flush-contents (record b { buffer_chan = rest; batch = b.batch ++ seg ∷ [] })
              (b.batch ++ seg ∷ [])
            ∙ regroup)
        | inr room ↦ rw room regroup
      ]
    where
      regroup :
          segments_of b.flushes ++ (b.batch ++ seg ∷ []) ++ rest
          ≡ segments_of b.flushes ++ b.batch ++ seg ∷ rest
      regroup =
          ap (λ l. l ++ rest) (sym (append_assoc (segments_of b.flushes) b.batch (seg ∷ [])))
          ∙ append_assoc (segments_of b.flushes ++ b.batch) (seg ∷ []) rest

  receive-contents :
      (b b' : BatchIngester) → receive_segment bulk_insert b ≡ some b' → contents b' ≡ contents b
  unfolding contents receive_segment
  receive-contents b b' done = by_channel b.buffer_chan done
    where
      by_channel :
          (c : List Segment)
          → (elim c as (λ _. Option BatchIngester) [
            | [] ↦ none
            | seg ∷ rest ↦ some (take_in bulk_insert b seg rest)
          ])
            ≡ some b'
          → contents b' ≡ segments_of b.flushes ++ b.batch ++ c
      by_channel [] e = cc e
      by_channel (seg ∷ rest) e =
          let same : take_in bulk_insert b seg rest ≡ b' = cc e in
          ap contents (sym same) ∙ take_in-contents b seg rest

  enqueue-contents :
      (b b' : BatchIngester) (seg : Segment)
      → enqueue bulk_insert b seg ≡ some b'
      → contents b' ≡ contents b ++ seg ∷ []
  unfolding contents enqueue
  enqueue-contents b b' seg done = elim (Bool-cases (ltb (length b.buffer_chan) b.buffer_size)) [
    | inl room ↦
        let e = rw room at done in
        let same : record b { buffer_chan = b.buffer_chan ++ seg ∷ [] } ≡ b' = cc e in
        ap contents (sym same)
        ∙ sym (append_assoc (segments_of b.flushes ++ b.batch) b.buffer_chan (seg ∷ []))
    | inr full ↦ cc (rw full at done)
  ]

  step-contents :
      (b b' : BatchIngester) (e : IngestEvent)
      → ingest_step bulk_insert b e ≡ some b'
      → contents b' ≡ contents b ++ enqueued_of (e ∷ [])
  unfolding ingest_step tick shut_down contents
  step-contents b b' (enqueued seg) done = enqueue-contents b b' seg done
  step-contents b b' received done =
      receive-contents b b' (still_on b.stopped _ b' done) ∙ sym (append-nil (contents b))
  step-contents b b' ticked done =
      let same : tick bulk_insert b ≡ b' = cc (still_on b.stopped _ b' done) in
      ap contents (sym same) ∙ flush-contents b b.batch ∙ sym (append-nil (contents b))
  step-contents b b' cancelled done =
      let same : shut_down bulk_insert b ≡ b' = cc (still_on b.stopped _ b' done) in
      ap contents (sym same) ∙ flush-contents b b.batch ∙ sym (append-nil (contents b))

  ingest_run-contents :
      (es : List IngestEvent) (b b' : BatchIngester)
      → ingest_run bulk_insert b es ≡ some b'
      → contents b' ≡ contents b ++ enqueued_of es
  unfolding ingest_run
  ingest_run-contents [] b b' done =
      let same : b ≡ b' = cc done in ap contents (sym same) ∙ sym (append-nil (contents b))
  ingest_run-contents (e ∷ es) b b' done = elim (Option-cases (ingest_step bulk_insert b e)) [
    | inl stuck ↦ cc (rw (ingest_run, stuck) at done)
    | inr (b1, first) ↦
        ingest_run-contents es b1 b' (rw (ingest_run, first) at done)
        ∙ ap (λ l. l ++ enqueued_of es) (step-contents b b1 e first)
        ∙ append_assoc (contents b) (enqueued_of (e ∷ [])) (enqueued_of es)
        ∙ ap (λ l. contents b ++ l) (enqueued_of-cons e es)
  ]

  -- From an empty ingester, after any run: what was handed to the database, then the batch, then the
  -- channel, is what was enqueued, in the same order; nothing is dropped, doubled or moved.
  pub nothing_lost :
      (buffer_size batch_size : ℕ) (es : List IngestEvent) (b : BatchIngester)
      → ingest_run bulk_insert (new_batch_ingester buffer_size batch_size) es ≡ some b
      → segments_of b.flushes ++ b.batch ++ b.buffer_chan ≡ enqueued_of es
  unfolding contents new_batch_ingester
  nothing_lost buffer_size batch_size es b done =
      ingest_run-contents es (new_batch_ingester buffer_size batch_size) b done
