-- ===== src/Evaluator/Values.antt =====
-- internal/evaluator: what the values are that a compiled plan gives on a frame.
use vrcft_go.Base.{ℕ, ◌≡◌, ◌∙◌, ap, false, List, All, if◌then◌else◌, ok}
use vrcft_go.Floats.{zero32, Arithmetic}
use vrcft_go.Processing.Output.{CanonicalFrame}
use vrcft_go.Evaluator.Compile.{Plan, PlanLookup, compile_with_plans}
use vrcft_go.Evaluator.Snapshot.{Snapshot, empty_snapshot, float, bool}
use vrcft_go.Evaluator.Evaluate.{run, evaluate}
use vrcft_go.Evaluator.Compiled.{requests, compile_with_plans-IsOrdered}
use vrcft_go.Evaluator.Settled.{Holds}
use vrcft_go.Evaluator.Runs.{run-Holds}
use vrcft_go.Evaluator.Outputs.{evaluate-reads}

-- When a plan that was compiled is evaluated, what the run has stored for the parameter of each instruction
-- at its end is what the instruction gives by the values that are stored at its end; of these values, those
-- of the requested parameters are given out, and no others.
pub evaluate-Settled :
    (fl : Arithmetic) (requested : List ℕ) (plans : PlanLookup) (p : Plan) (frame : CanonicalFrame)
    → compile_with_plans requested plans ≡ ok p
    → let s : Snapshot = run fl frame p.instructions empty_snapshot in
      All (Holds fl frame s) p.instructions
      × ((j : ℕ)
          → (float (evaluate fl p frame) j
              ≡ (if requests requested j then float s j else (zero32, false)))
            × (bool (evaluate fl p frame) j
                ≡ (if requests requested j then bool s j else (false, false))))
evaluate-Settled fl requested plans p frame h =
    let (ordered, _, members, _) = compile_with_plans-IsOrdered requested plans p h in
    (
      run-Holds fl frame p.instructions ordered,
      λ j.
          let (f, b) = evaluate-reads fl p frame j in
          (
            f
                ∙ ap
                    (λ r.
                      if r
                      then float (run fl frame p.instructions empty_snapshot) j
                      else (zero32, false))
                    (members j),
            b
                ∙ ap
                    (λ r.
                      if r
                      then bool (run fl frame p.instructions empty_snapshot) j
                      else (false, false))
                    (members j),
          ),
    )
