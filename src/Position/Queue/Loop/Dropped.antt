-- ===== src/Position/Queue/Loop/Dropped.antt =====
-- A purged task is dropped: the tombstone stops it in the heap, and nothing brings it back.
use adviser_ai_constructor.Prelude.{
  ℕ, ◌<◌, ◌≡◌, ◌≢◌, Bool, true, false, none, some, List, arith, All,
}
use adviser_ai_constructor.Float.{Float}
use adviser_ai_constructor.Position.Queue.Task.{Format, OrderTask, Action, key_of}
use adviser_ai_constructor.Position.Queue.State.{
  lookup, mem_key, mem_id, remove_id, OrderExecutionQueue, empty,
}
use adviser_ai_constructor.Position.Queue.State.Dict.{lookup-Linked}
use adviser_ai_constructor.Position.Queue.State.Pending.{key_at, IsValid}
use adviser_ai_constructor.Position.Queue.Loop.{
  split_pending, purge_pending, dequeue, take_task, Event, run,
}
use adviser_ai_constructor.Position.Queue.Loop.Gone.{holds, IsGone, run-IsGone}
use adviser_ai_constructor.Position.Queue.Loop.Purge.{
  is_purged_iff, lookup-split, mem-split, mem_key-append,
}
use adviser_ai_constructor.Position.Queue.Loop.Steps.{IsPlainEvent, run-IsValid}
use adviser_ai_constructor.Position.Queue.Loop.Single.{run-IsSingle, remove_id-IsOnce}

module _ {F : Type 0} ⦃fl : Float F⦄ ⦃py : Format F⦄ where
  -- A free loop that takes a tombstoned task, which the heap has once, drops it for good.
  dequeue-IsGone_dead :
      (i : ℕ) (t : OrderTask F) (q : OrderExecutionQueue F)
      → q.current ≡ none
      → i < q.next_id
      → mem_id i q.heap ≡ true
      → mem_id i (remove_id i q.heap) ≡ false
      → q.objects i ≡ some t
      → mem_key (key_of t) q.tombstoned_keys ≡ true
      → ((dequeue i q).current ≡ none) × IsGone i (dequeue i q)
  unfolding dequeue take_task
  dequeue-IsGone_dead i t q free lt has once at dead = ground arith

  -- What is purged is dropped, from valid bookkeeping.
  valid-drops :
      (p : List ℕ) (actions : Action → Bool) (q : OrderExecutionQueue F) (k : List ℕ) (i : ℕ)
      (t : OrderTask F) (events : List (Event F))
      → IsValid F fl py q
      → All (λ c. c ≢ b':') p
      → q.current ≡ none
      → lookup k q.pending_tasks ≡ some i
      → mem_id i q.heap ≡ true
      → mem_id i (remove_id i q.heap) ≡ false
      → q.objects i ≡ some t
      → t.position_id ≡ p
      → actions t.action ≡ true
      → let q' = (purge_pending p actions q).0 in
        let later = run events (dequeue i q') in
        (lookup k q'.pending_tasks ≡ none)
        × ((dequeue i q').current ≡ none)
        × (holds i later.current ≡ false)
        × (mem_id i later.heap ≡ false)
  unfolding purge_pending
  valid-drops p actions q k i t events v hp free here has once at pos act =
      let linked = lookup-Linked (key_at q.objects) q.next_id i k q.pending_tasks v.linked here in
      let same : key_of t ≡ k = ground arith in
      let purged =
        (is_purged_iff q.objects p actions q.next_id i k t at same hp (v.plain i t at)).1
          (pos, act) in
      let dead =
        mem_key-append k q.tombstoned_keys (split_pending q.objects p actions q.pending_tasks).1
          (mem-split q.objects p actions k i q.pending_tasks here purged) in
      let (idle, gone) =
        dequeue-IsGone_dead i t (purge_pending p actions q).0 free linked.0 has once at
          (rw same dead) in
      let after = run-IsGone i events _ gone in
      (
        ground (
          arith,
          lookup-split q.objects p actions (key_at q.objects) q.next_id k q.pending_tasks v.linked,
        ),
        idle,
        after.2,
        after.1,
      )

  -- At any moment of a run of plain tasks from an empty queue at which the loop is free, take a task of the position,
  -- whose id has no colon, with one of the actions, that is pending and in the heap. After the purge it is not
  -- pending; when the loop then takes it from the heap the loop stays free, and whatever happens after that, the
  -- loop never holds it and it is never in the heap.
  pub purge-drops :
      (before : List (Event F)) (p : List ℕ) (actions : Action → Bool) (k : List ℕ) (i : ℕ)
      (t : OrderTask F) (events : List (Event F))
      → All IsPlainEvent before
      → All (λ c. c ≢ b':') p
      → (run before empty).current ≡ none
      → lookup k (run before empty).pending_tasks ≡ some i
      → mem_id i (run before empty).heap ≡ true
      → (run before empty).objects i ≡ some t
      → t.position_id ≡ p
      → actions t.action ≡ true
      → let q' = (purge_pending p actions (run before empty)).0 in
        let later = run events (dequeue i q') in
        (lookup k q'.pending_tasks ≡ none)
        × ((dequeue i q').current ≡ none)
        × (holds i later.current ≡ false)
        × (mem_id i later.heap ≡ false)
  purge-drops before p actions k i t events plain hp free here has at pos act =
      let (once, _, _) = run-IsSingle before empty (tt, tt, tt) in
      valid-drops p actions (run before empty) k i t events (run-IsValid before plain) hp free here
        has (remove_id-IsOnce i (run before empty).heap once).1 at pos act
