-- ===== src/Position/Queue/State/Intents.antt =====
-- The pending tasks as a client sees them: the parameters that stand under each key. Identities, the
-- heap, the order of the dict and the age of an object are forgotten.
use adviser_ai_constructor.Prelude.{ℕ, Option, none, some, List, if◌then◌else◌}
use adviser_ai_constructor.Float.{Float}
use adviser_ai_constructor.Text.{text_eq}
use adviser_ai_constructor.Position.Queue.Task.{Params, Format, OrderTask}
use adviser_ai_constructor.Position.Queue.State.{
  Pending, lookup, OrderExecutionQueue, update, rekey, quickfire_target,
}

-- What a client asked for, by key.
abbrev pub Intents : Type 0 → Type 0
Intents F = List ℕ → Option (Params F)

-- The latest intent stands under its key, and the intent that it supersedes is gone.
abbrev pub submit : {F : Type 0} → Option (List ℕ) → List ℕ → Params F → Intents F → Intents F
submit superseded key params intents k =
    if text_eq k key
    then some params
    else elim superseded [ none ↦ intents k | some old ↦ if text_eq k old then none else intents k ]

module _ {F : Type 0} where
  abbrev params_at : (ℕ → Option (OrderTask F)) → Option ℕ → Option (Params F)
  params_at objects none = none
  params_at objects (some i) = elim (objects i) [ none ↦ none | some t ↦ some t.params ]

  abbrev pub intents_of : OrderExecutionQueue F → Intents F
  intents_of q k = params_at q.objects (lookup k q.pending_tasks)

module _ {F : Type 0} ⦃fl : Float F⦄ ⦃py : Format F⦄ where
  abbrev pub superseded : OrderTask F → OrderExecutionQueue F → Option (List ℕ)
  superseded task q = elim (quickfire_target task q) [ none ↦ none | some target ↦ some target.0 ]

  -- The object `i` is written, and its entry moves from the key `old` to that of the task.
  abbrev written : OrderExecutionQueue F → ℕ → List ℕ → List ℕ → OrderTask F → OrderExecutionQueue F
  written q i old key t' = record q {
    objects = update q.objects i t';
    pending_tasks = rekey old key i q.pending_tasks;
  }
