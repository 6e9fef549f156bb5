-- ===== src/Position/Queue/Loop/Gone.antt =====
-- A task that is in neither the heap nor the hand of the loop does not come back, whatever happens.
use adviser_ai_constructor.Prelude.{
  ℕ, ◌<◌, ◌≡◌, refl, Bool, false, inl, inr, Option, none, some, List, [], ◌∷◌, arith, ◌==◌, ==_iff,
  ltb, Bool-cases, Option-cases,
}
use adviser_ai_constructor.Float.{Float}
use adviser_ai_constructor.Position.Queue.Task.{Format, OrderTask}
use adviser_ai_constructor.Position.Queue.State.{
  mem_id, remove_id, OrderExecutionQueue, modify, enqueue,
}
use adviser_ai_constructor.Position.Queue.State.Dict.{mem_id-append_ne}
use adviser_ai_constructor.Position.Queue.State.Enqueue.{enqueue-ids}
use adviser_ai_constructor.Position.Queue.Loop.{
  emergency_task, Outcome, transient_error, fatal_error, escalate, dequeue, take_task, put_back,
  clear, settle, finish, no_headroom, retried, purge_pending, Event, enqueued, dequeued, finished,
  stopped, purged, step, run,
}

pub mem_id-remove :
    (i j : ℕ) (ids : List ℕ) → mem_id i ids ≡ false → mem_id i (remove_id j ids) ≡ false
unfolding mem_id remove_id
mem_id-remove i j [] h = refl
mem_id-remove i j (k ∷ ids) h = ground (arith, mem_id-remove i j ids)

-- The loop holds the object.
abbrev pub holds : ℕ → Option (ℕ × List ℕ) → Bool
holds i none = false
holds i (some c) = c.0 == i

module _ {F : Type 0} ⦃fl : Float F⦄ ⦃py : Format F⦄ where
  abbrev pub IsGone : ℕ → OrderExecutionQueue F → Type 0
  IsGone i q = (i < q.next_id) × (mem_id i q.heap ≡ false) × (holds i q.current ≡ false)

  enqueue-IsGone :
      (i : ℕ) (task : OrderTask F) (q : OrderExecutionQueue F)
      → IsGone i q
      → IsGone i (enqueue task q)
  enqueue-IsGone i task q h =
      ground (arith, mem_id-append_ne i q.next_id q.heap, enqueue-ids task q)

  escalate-IsGone :
      (i : ℕ) (now : F) (raw : List ℕ) (task : OrderTask F) (q : OrderExecutionQueue F)
      → IsGone i q
      → IsGone i (escalate now raw task q)
  unfolding escalate
  escalate-IsGone i now raw task q h =
      ground (arith, enqueue-IsGone i (emergency_task now raw task) q h)

  dequeue-IsGone : (i j : ℕ) (q : OrderExecutionQueue F) → IsGone i q → IsGone i (dequeue j q)
  unfolding dequeue take_task
  dequeue-IsGone i j q h = ground (arith, mem_id-remove i j q.heap, ==_iff j i)

  put_back-IsGone :
      (i j : ℕ) (q : OrderExecutionQueue F)
      → (j == i) ≡ false
      → IsGone i q
      → IsGone i (put_back j q)
  unfolding put_back
  put_back-IsGone i j q ne h = ground (arith, mem_id-append_ne i j q.heap, ==_iff j i)

  clear-IsGone :
      (i : ℕ) (key : List ℕ) (q : OrderExecutionQueue F) → IsGone i q → IsGone i (clear key q)
  unfolding clear
  clear-IsGone i key q h = (h.0, h.1, refl)

  retry-IsGone : (i j : ℕ) (q : OrderExecutionQueue F) → IsGone i q → IsGone i (modify retried j q)
  unfolding modify
  retry-IsGone i j q h = ground arith

  settle-IsGone :
      (i : ℕ) (now : F) (raw : List ℕ) (outcome : Outcome) (j : ℕ) (key : List ℕ) (t : OrderTask F)
      (q : OrderExecutionQueue F)
      → (j == i) ≡ false
      → IsGone i q
      → IsGone i (settle now raw outcome j key t q)
  unfolding settle
  settle-IsGone i now raw transient_error j key t q ne h =
      elim (Bool-cases (ltb t.retry_count t.max_retries)) [
        | inl again ↦ rw again (put_back-IsGone i j (modify retried j q) ne (retry-IsGone i j q h))
        | inr last ↦
            rw last (clear-IsGone i key (escalate now raw t q) (escalate-IsGone i now raw t q h))
      ]
  settle-IsGone i now raw fatal_error j key t q ne h =
      clear-IsGone i key (escalate now raw t q) (escalate-IsGone i now raw t q h)
  settle-IsGone i now raw _ j key t q ne h = clear-IsGone i key q h

  finish-IsGone :
      (i : ℕ) (now : F) (raw : List ℕ) (outcome : Outcome) (q : OrderExecutionQueue F)
      → IsGone i q
      → IsGone i (finish now raw outcome q)
  unfolding finish
  finish-IsGone i now raw outcome q h = elim (Option-cases q.current) [
    | inl free ↦ rw (free, finish) h
    | inr (c, held) ↦ elim (Option-cases (q.objects c.0)) [
      | inl e ↦ rw (held, finish, e) h
      | inr (t, e) ↦
          rw (held, finish, e) (settle-IsGone i now raw outcome c.0 c.1 t q (rw held at h.2) h)
    ]
  ]

  no_headroom-IsGone : (i : ℕ) (q : OrderExecutionQueue F) → IsGone i q → IsGone i (no_headroom q)
  unfolding no_headroom
  no_headroom-IsGone i q h = elim (Option-cases q.current) [
    | inl free ↦ rw (free, no_headroom) h
    | inr (c, held) ↦ rw (held, no_headroom) (put_back-IsGone i c.0 q (rw held at h.2) h)
  ]

  step-IsGone : (i : ℕ) (e : Event F) (q : OrderExecutionQueue F) → IsGone i q → IsGone i (step e q)
  unfolding step purge_pending
  step-IsGone i (enqueued task) q h = enqueue-IsGone i task q h
  step-IsGone i (dequeued j) q h = dequeue-IsGone i j q h
  step-IsGone i (finished now raw outcome) q h = finish-IsGone i now raw outcome q h
  step-IsGone i stopped q h = no_headroom-IsGone i q h
  step-IsGone i (purged p actions) q h = h

  pub run-IsGone :
      (i : ℕ) (events : List (Event F)) (q : OrderExecutionQueue F)
      → IsGone i q
      → IsGone i (run events q)
  unfolding run
  run-IsGone i [] q h = h
  run-IsGone i (e ∷ events) q h = run-IsGone i events (step e q) (step-IsGone i e q h)
