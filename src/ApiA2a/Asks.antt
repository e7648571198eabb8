-- ===== src/ApiA2a/Asks.antt =====
-- The outstanding asks of a task.
use mathlib.Core.Option.{some-injective}
use funduq_server.Prelude.{
  ℕ, String, false, ◌≡◌, refl, sym, ap, ◌↔◌, ◌∙◌, Option, some, List, [], ◌∷◌, ◌++◌, map, ◌==◌,
}
use funduq_server.Text.{sorted}
use funduq_server.Json.{str, arr, of_list, lookup, put}
use funduq_server.Json.Laws.{lookup-put}
use funduq_server.ApiA2a.{Task, Upstream, annotate_asks, annotate_run, last_run, with_asks}

abbrev pub asks_key : String
asks_key = "outstandingAsks"

-- The same task with these asks beneath the key of theirs, in order, and nothing else touched.
pub record Asking (asks : List String) (before after : Task) : Type 0 where
  pub same_id : after.id ≡ before.id
  pub same_context : after.context_id ≡ before.context_id
  pub asked : lookup asks_key after.metadata ≡ some (arr (of_list (map str (sorted asks))))
  pub kept :
      (k : String) → (asks_key == k) ≡ false → lookup k after.metadata ≡ lookup k before.metadata

last_run-append : (runs : List String) (tail : String) → last_run (runs ++ tail ∷ []) ≡ some tail
unfolding last_run
last_run-append [] tail = refl
last_run-append (run ∷ []) tail = refl
last_run-append (run ∷ next ∷ rest) tail = last_run-append (next ∷ rest) tail

snoc :
    (run : String) (runs : List String)
    → (before : List String) × (tail : String) × (run ∷ runs ≡ before ++ tail ∷ [])
snoc run [] = ([], run, refl)
snoc run (next ∷ rest) =
    let (before, tail, e) = snoc next rest in
    (run ∷ before, tail, ap (λ (l : List String). run ∷ l) e)

-- A task, and the same task as it is shown: with the asks that are open in the last run of its
-- lineage, sorted, beneath their key, and as it was where there is no run or none is open.
pub data Annotated {S : Type 0} (up : Upstream S) (at : ℕ → S) (found shown : Task) : Type 0 where
  no_run : up.lineage (at 0) found.id ≡ [] → shown ≡ found → Annotated up at found shown
  quiet :
      (runs : List String) (tail : String)
      → up.lineage (at 0) found.id ≡ runs ++ tail ∷ []
      → up.open_asks (up.get_run_events (at 1) tail) ≡ []
      → shown ≡ found
      → Annotated up at found shown
  asking :
      (runs : List String) (tail ask : String) (asks : List String)
      → up.lineage (at 0) found.id ≡ runs ++ tail ∷ []
      → up.open_asks (up.get_run_events (at 1) tail) ≡ ask ∷ asks
      → (shown ≡ record found {
        metadata =
            put "outstandingAsks" (arr (of_list (map str (sorted (ask ∷ asks))))) found.metadata;
      })
      → Annotated up at found shown

module _ {S : Type 0} (up : Upstream S) (at : ℕ → S) (found shown : Task) where
  annotate_asks-Annotated :
      annotate_asks up at (some found) ≡ some shown → Annotated up at found shown
  unfolding annotate_asks annotate_run with_asks
  annotate_asks-Annotated h = lines (up.lineage (at 0) found.id) refl
    where
      asked :
          (runs : List String) (tail : String) (asks : List String)
          → up.lineage (at 0) found.id ≡ runs ++ tail ∷ []
          → up.open_asks (up.get_run_events (at 1) tail) ≡ asks
          → Annotated up at found shown
      asked runs tail [] line waits =
          let same : ◌≡◌ {A = Option Task} (some found) (some shown) =
            rw (annotate_asks, line, last_run-append runs tail, waits) at h in
          Annotated.quiet runs tail line waits (sym (some-injective found shown same))
      asked runs tail (ask ∷ asks) line waits =
          let same = rw (annotate_asks, line, last_run-append runs tail, waits) at h in
          Annotated.asking runs tail ask asks line waits (sym (some-injective _ shown same))

      lines : (runs : List String) → up.lineage (at 0) found.id ≡ runs → Annotated up at found shown
      lines [] line =
          let same : ◌≡◌ {A = Option Task} (some found) (some shown) =
            rw (annotate_asks, line) at h in
          Annotated.no_run line (sym (some-injective found shown same))
      lines (run ∷ rest) line =
          let (runs, tail, e) = snoc run rest in asked runs tail _ (line ∙ e) refl

  Annotated-annotate_asks :
      Annotated up at found shown → annotate_asks up at (some found) ≡ some shown
  unfolding annotate_asks annotate_run with_asks last_run
  Annotated-annotate_asks (Annotated.no_run line same) = rw line (ap some (sym same))
  Annotated-annotate_asks (Annotated.quiet runs tail line waits same) =
      rw (line, last_run-append runs tail, waits) (ap some (sym same))
  Annotated-annotate_asks (Annotated.asking runs tail ask asks line waits same) =
      rw (line, last_run-append runs tail, waits) (ap some (sym same))

  pub annotate_asks_iff :
      (annotate_asks up at (some found) ≡ some shown) ↔ Annotated up at found shown
  annotate_asks_iff = (annotate_asks-Annotated, Annotated-annotate_asks)

with_asks-Asking :
    (t : Task) (ask : String) (asks : List String)
    → Asking (ask ∷ asks) t (with_asks t (ask ∷ asks))
unfolding with_asks
with_asks-Asking t ask asks = record {
  same_id = refl;
  same_context = refl;
  asked = lookup-put asks_key asks_key _ t.metadata;
  kept = λ k ne. lookup-put asks_key k _ t.metadata ∙ rw ne;
}

module _ {S : Type 0} (up : Upstream S) (at : ℕ → S) (t : Task) (runs : List String)
    (tail : String) where
  -- A task whose lineage ends in a run with open asks is handed back with those asks, sorted, of
  -- the last run of the lineage and of no earlier one; its id, its thread and every other key
  -- beneath `funduq` are as they were.
  pub annotate_asks-waiting :
      (ask : String) (asks : List String)
      → up.lineage (at 0) t.id ≡ runs ++ tail ∷ []
      → up.open_asks (up.get_run_events (at 1) tail) ≡ ask ∷ asks
      → (after : Task) × (annotate_asks up at (some t) ≡ some after) × Asking (ask ∷ asks) t after
  unfolding annotate_asks annotate_run
  annotate_asks-waiting ask asks line waits = (
    with_asks t (ask ∷ asks),
    rw (line, last_run-append runs tail, waits),
    with_asks-Asking t ask asks,
  )
