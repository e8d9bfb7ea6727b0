-- ===== src/Resources/Release.antt =====
-- What closing a stack does.
use mathlib.Core.Path.{subst}
use api_example.Prelude.{◌≡◌, refl, sym, ap, ◌∙◌, false, Option, List, [], ◌∷◌, reverse}
use api_example.Errors.{Error}
use api_example.Resources.{Closer, ResourceStack, closed, close, close_each, join_errors}

-- Every closer is called once, whatever those before it return, and the state is the one that they
-- leave one after the other.
abbrev pub run_each : {W : Type 0} → List (Closer W) → W → W
run_each [] w = w
run_each (c ∷ cs) w = run_each cs (c w).1

module _ {W : Type 0} where
  close_each-run_each :
      (cs : List (Closer W)) (e : Option Error) (w : W) → (close_each cs e w).1 ≡ run_each cs w
  unfolding close_each
  close_each-run_each [] e w = refl
  close_each-run_each (c ∷ cs) e w = close_each-run_each cs (join_errors e (c w).0) (c w).1

  -- A stack that is open is closed by calling every one of its closers once, the last one first, also
  -- where some of them fail; and to close it again calls none and gives the same error.
  pub close_lem :
      (s s' : ResourceStack W) (result : Option Error) (w w' v : W)
      → s.is_closed ≡ false
      → close s w ≡ ((result, s'), w')
      → (w' ≡ run_each (reverse s.closers) w) × (close s' v ≡ ((result, s'), v))
  unfolding close
  close_lem s s' result w w' v open_ h =
      let calm : closed s (close_each (reverse s.closers) s.error w) ≡ ((result, s'), w') =
        rw open_ at h in
      (
        sym (ap (λ (p : (Option Error × ResourceStack W) × W). p.1) calm)
            ∙ close_each-run_each (reverse s.closers) s.error w,
        subst (λ (q : Option Error × ResourceStack W). close q.1 v ≡ ((q.0, q.1), v))
            (ap (λ (p : (Option Error × ResourceStack W) × W). p.0) calm) refl,
      )
