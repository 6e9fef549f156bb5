-- ===== src/Position/Queue/Loop/Lost.antt =====
-- Where the queue loses a task, and where a failed stop-loss task is not lost.
use adviser_ai_constructor.Prelude.{ℕ, ◌≡◌, ◌≢◌, refl, ◌∙◌, inl, inr, none, some, List, ==_iff}
use adviser_ai_constructor.Float.{Float}
use adviser_ai_constructor.Position.Queue.Task.{Format, OrderTask, key_of}
use adviser_ai_constructor.Position.Queue.State.{
  lookup, OrderExecutionQueue, update, quickfire_target, enqueue, refresh, rekey,
}
use adviser_ai_constructor.Position.Queue.State.Dict.{lookup-pop_ne}
use adviser_ai_constructor.Position.Queue.State.Pending.{IsPlain, IsValid}
use adviser_ai_constructor.Position.Queue.State.Enqueue.{
  quickfire_lem, coalesce_lem, lookup-rekey, enqueue-quickfire, enqueue-heap,
}
use adviser_ai_constructor.Position.Queue.Loop.{succeeded, clear, settle, finish}

module _ {F : Type 0} ⦃fl : Float F⦄ ⦃py : Format F⦄ (now : F) (raw : List ℕ) where
  pub finish-succeeded :
      (q : OrderExecutionQueue F) (i : ℕ) (key : List ℕ) (t : OrderTask F)
      → q.current ≡ some (i, key)
      → q.objects i ≡ some t
      → finish now raw succeeded q ≡ clear key q
  unfolding finish settle
  finish-succeeded q i key t held at = rw (held, finish, at)

  -- A task whose key is pending is not queued.
  pending-heap :
      (task : OrderTask F) (q : OrderExecutionQueue F) (i : ℕ)
      → lookup (key_of task) q.pending_tasks ≡ some i
      → (enqueue task q).heap ≡ q.heap
  pending-heap task q i e = elim (enqueue-heap task q) [ inl same ↦ same | inr (added, gone) ↦ cc ]

  -- From valid bookkeeping, the loop executes the object `i`, and a plain multi-TP move is
  -- coalesced into that object under another key: after the execution succeeds nothing is queued
  -- for the move, its key stays pending, and the same move enqueued again is not queued either.
  pub coalesced_in_flight-lost :
      (task : OrderTask F) (q : OrderExecutionQueue F) (i : ℕ) (old key : List ℕ)
      → IsValid F fl py q
      → IsPlain task
      → q.current ≡ some (i, key)
      → quickfire_target task q ≡ some (old, i)
      → key_of task ≢ key
      → let q' = finish now raw succeeded (enqueue task q) in
        (q'.heap ≡ q.heap)
        × (q'.current ≡ none)
        × (lookup (key_of task) q'.pending_tasks ≡ some i)
        × ((enqueue task q').heap ≡ q.heap)
  coalesced_in_flight-lost task q i old key v p held target other =
      let (t, at, here, pid, act) = quickfire_lem task q old i v target in
      let written = enqueue-quickfire task q (old, i) target ∙ coalesce_lem task old i t q at in
      let q₁ : OrderExecutionQueue F = record q {
        objects = update q.objects i (refresh task t);
        pending_tasks = rekey old (key_of task) i q.pending_tasks;
      } in
      let done : finish now raw succeeded q₁ ≡ clear key q₁ =
        finish-succeeded q₁ i key (refresh task t) held (rw ((==_iff i i).1 refl)) in
      let found : lookup (key_of task) (clear key q₁).pending_tasks ≡ some i =
        unfold clear in
        lookup-pop_ne (key_of task) key (rekey old (key_of task) i q.pending_tasks) other
        ∙ lookup-rekey old (key_of task) i q.pending_tasks here in
      rw (written, done)
        (unfold clear in (refl, refl, found, pending-heap task (clear key q₁) i found))
