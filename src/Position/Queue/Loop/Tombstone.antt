-- ===== src/Position/Queue/Loop/Tombstone.antt =====
-- The tombstone that a purge leaves for a task which is being executed, and so is in no heap.
use adviser_ai_constructor.Prelude.{
  ℕ, ◌<◌, ◌≡◌, refl, ap, ◌∙◌, Bool, true, none, some, List, [], ◌∷◌, ◌++◌, arith, All, ==_iff,
}
use adviser_ai_constructor.Float.{Float}
use adviser_ai_constructor.Position.Queue.Task.{Format, OrderTask, Action, key_of}
use adviser_ai_constructor.Position.Queue.State.{
  lookup, mem_key, mem_id, remove_id, OrderExecutionQueue, add, quickfire_target, enqueue,
}
use adviser_ai_constructor.Position.Queue.State.Dict.{
  mem_id-last, lookup-pop-none, lookup-insert_self,
}
use adviser_ai_constructor.Position.Queue.State.Pending.{key_at, IsValid, InUse}
use adviser_ai_constructor.Position.Queue.State.Enqueue.{enqueue-new}
use adviser_ai_constructor.Position.Queue.Loop.{
  succeeded, clear, finish, dequeue, take_task, purge_pending,
}
use adviser_ai_constructor.Position.Queue.Loop.Purge.{
  is_purged_iff, lookup-split, mem-split, mem_key-append,
}
use adviser_ai_constructor.Position.Queue.Loop.Lost.{finish-succeeded}

remove_id-last :
    (n : ℕ) (ids : List ℕ) (P : ℕ → Type 0)
    → All (λ i. (i < n) × P i) ids
    → remove_id n (ids ++ n ∷ []) ≡ ids
unfolding remove_id
remove_id-last n [] P h = ground arith
remove_id-last n (i ∷ ids) P h = ground (arith, remove_id-last n ids P h.1)

module _ {F : Type 0} ⦃fl : Float F⦄ ⦃py : Format F⦄ where
  -- A free loop takes a task of the heap whose key is a tombstone, and drops it.
  dequeue-dead :
      (i : ℕ) (t : OrderTask F) (q : OrderExecutionQueue F)
      → q.current ≡ none
      → q.objects i ≡ some t
      → mem_id i q.heap ≡ true
      → mem_key (key_of t) q.tombstoned_keys ≡ true
      → ((dequeue i q).current ≡ none)
        × ((dequeue i q).heap ≡ remove_id i q.heap)
        × ((dequeue i q).pending_tasks ≡ q.pending_tasks)
  unfolding dequeue take_task
  dequeue-dead i t q free at there dead = ground arith

  drops :
      (u : OrderTask F) (q : OrderExecutionQueue F)
      → All (InUse q) q.heap
      → q.current ≡ none
      → mem_key (key_of u) q.tombstoned_keys ≡ true
      → let q' = dequeue q.next_id (add u q) in
        (q'.current ≡ none)
        × (q'.heap ≡ q.heap)
        × (lookup (key_of u) q'.pending_tasks ≡ some q.next_id)
  unfolding add
  drops u q used free dead =
      let (idle, rest, kept) =
        dequeue-dead q.next_id u (add u q) free (rw ((==_iff q.next_id q.next_id).1 refl))
          (mem_id-last q.next_id q.heap) dead in
      (
        idle,
        rest ∙ remove_id-last q.next_id q.heap _ used,
        ap (lookup (key_of u)) kept ∙ lookup-insert_self (key_of u) q.next_id q.pending_tasks,
      )

  -- From valid bookkeeping, a task of the position is being executed while the purge drops its
  -- entry, and the execution succeeds. A new task under the same key, which nobody purged and which
  -- is coalesced into no other, is then dropped when it is taken: it is in no heap and not
  -- executed, and its key stays pending.
  pub stale_tombstone-drops :
      (now : F) (raw : List ℕ) (actions : Action → Bool) (q : OrderExecutionQueue F) (i : ℕ)
      (t u : OrderTask F)
      → IsValid F fl py q
      → q.current ≡ some (i, key_of t)
      → q.objects i ≡ some t
      → lookup (key_of t) q.pending_tasks ≡ some i
      → actions t.action ≡ true
      → key_of u ≡ key_of t
      → (let q₁ = finish now raw succeeded (purge_pending t.position_id actions q).0 in
          quickfire_target u q₁ ≡ none)
      → let q₁ = finish now raw succeeded (purge_pending t.position_id actions q).0 in
        let q₂ = dequeue q₁.next_id (enqueue u q₁) in
        (q₂.current ≡ none)
        × (q₂.heap ≡ q₁.heap)
        × (lookup (key_of u) q₂.pending_tasks ≡ some q₁.next_id)
  stale_tombstone-drops now raw actions q i t u v held at here act same slow =
      let p = t.position_id in
      let q₀ = (purge_pending p actions q).0 in
      let done : finish now raw succeeded q₀ ≡ clear (key_of t) q₀ =
        finish-succeeded now raw q₀ i (key_of t) t (unfold purge_pending in held)
          (unfold purge_pending in at) in
      let purged =
        (is_purged_iff q.objects p actions q.next_id i (key_of t) t at refl (v.plain i t at).0
            (v.plain i t at)).1
          (refl, act) in
      let gone : lookup (key_of u) (clear (key_of t) q₀).pending_tasks ≡ none =
        unfold clear purge_pending in
        rw same (
          lookup-pop-none (key_of t) (key_of t) _ (
            ground (
              arith,
              lookup-split q.objects p actions (key_at q.objects) q.next_id (key_of t)
                  q.pending_tasks v.linked,
            ))) in
      let dead : mem_key (key_of u) (clear (key_of t) q₀).tombstoned_keys ≡ true =
        unfold clear purge_pending in
        rw same (
          mem_key-append (key_of t) q.tombstoned_keys _
            (mem-split q.objects p actions (key_of t) i q.pending_tasks here purged)) in
      let fresh = enqueue-new u (clear (key_of t) q₀) (rw done at slow) gone in
      rw (done, fresh)
        (drops u (clear (key_of t) q₀) (unfold clear purge_pending in v.in_use)
          (unfold clear in refl) dead)
