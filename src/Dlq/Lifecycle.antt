-- ===== src/Dlq/Lifecycle.antt =====
-- proxy/app/shared/dlq.py: the life of one message, from `add` through its failures to 'dead', and
-- back by `requeue`.
use rag_system.Base.{
  ℕ, ◌+◌, String, Option, some, List, [], ◌∷◌, ◌≡◌, arith, if◌then◌else◌, length, leb, ◌∙◌,
}
use rag_system.Dlq.Queue.{
  DlqMessage, Table, DeadLetterQueue, Status, pending, dead, added, add, get, nacked, nack,
  limit_or, requeue,
}
use rag_system.Dlq.Ids.{IsValid}
use rag_system.Dlq.Lookup.{get-add, get-nack, get-requeue, requeued}

abbrev pub status_after : ℕ → ℕ → Status
status_after retries most = if leb most retries then dead else pending

module _ {P : Type 0} (q : DeadLetterQueue) where
  -- Failures of one message, one after the other: the error and the time of each.
  abbrev pub nacks : ℕ → List (String × ℕ) → Table P → Table P
  nacks i [] t = t
  nacks i ((error, now) ∷ fs) t = nacks i fs (nack q i error now t).1

  abbrev pub nacked_all : List (String × ℕ) → DlqMessage P → DlqMessage P
  nacked_all [] m = m
  nacked_all ((error, now) ∷ fs) m = nacked_all fs (nacked q m error now m)

  get-nacks :
      (i : ℕ) (fs : List (String × ℕ)) (t : Table P) (m : DlqMessage P)
      → get q i t ≡ some m
      → get q i (nacks i fs t) ≡ some (nacked_all fs m)
  get-nacks i [] t m h = h
  get-nacks i ((error, now) ∷ fs) t m h =
      get-nacks i fs (nack q i error now t).1 (nacked q m error now m)
        (ground (arith, get-nack q t i i error now))

  nacked_all_fields :
      (f : String × ℕ) (fs : List (String × ℕ)) (m : DlqMessage P)
      → ((nacked_all (f ∷ fs) m).retry_count ≡ m.retry_count + length (f ∷ fs))
        × ((nacked_all (f ∷ fs) m).max_retries ≡ m.max_retries)
        × ((nacked_all (f ∷ fs) m).status
            ≡ status_after (m.retry_count + length (f ∷ fs)) m.max_retries)
  unfolding nacked
  nacked_all_fields (error, now) [] m = ground arith
  nacked_all_fields (error, now) (f ∷ fs) m =
      ground (arith, nacked_all_fields f fs (nacked q m error now m))

  -- A message that was just added counts its failures one by one, and is dead from the failure
  -- that reaches its limit on: the limit of the queue, unless the message has its own.
  pub add-nacks :
      (payload : P) (error : String) (limit : Option ℕ) (now : ℕ) (t : Table P) (f : String × ℕ)
      (fs : List (String × ℕ))
      → IsValid t
      → let (i, t') = add q payload error limit now t in
        (m : DlqMessage P) × (get q i (nacks i (f ∷ fs) t') ≡ some m)
        × (m.retry_count ≡ length (f ∷ fs))
        × (m.status ≡ status_after (length (f ∷ fs)) (limit_or limit q.max_retries))
  add-nacks payload error limit now t f fs h =
      let m = added q payload error limit now t in
      let i = t.last_id + 1 in
      let t' = (add q payload error limit now t).1 in
      let there : get q i t' ≡ some m = get-add q t i payload error limit now h ∙ ground arith in
      let fields = nacked_all_fields f fs m in
      (
        nacked_all (f ∷ fs) m,
        unfold add in get-nacks i (f ∷ fs) t' m there,
        unfold added in omega (arith, fields),
        unfold added in ground (arith, fields),
      )

  -- A dead message that is put back has its whole budget of retries again: it is dead once more
  -- exactly from the failure on whose number reaches its limit.
  pub requeue-nacks :
      (i now : ℕ) (t : Table P) (m : DlqMessage P) (f : String × ℕ) (fs : List (String × ℕ))
      → get q i t ≡ some m
      → m.status ≡ dead
      → (m' : DlqMessage P) × (get q i (nacks i (f ∷ fs) (requeue q i now t).1) ≡ some m')
        × (m'.retry_count ≡ length (f ∷ fs))
        × (m'.status ≡ status_after (length (f ∷ fs)) m.max_retries)
  requeue-nacks i now t m f fs found is_over =
      let back = requeued now m in
      let there : get q i (requeue q i now t).1 ≡ some back =
        ground (arith, get-requeue q t i i now) in
      let fields = nacked_all_fields f fs back in
      (
        nacked_all (f ∷ fs) back,
        get-nacks i (f ∷ fs) (requeue q i now t).1 back there,
        ground (arith, fields),
        ground (arith, fields),
      )
