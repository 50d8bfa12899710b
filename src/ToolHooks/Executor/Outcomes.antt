-- ===== src/ToolHooks/Executor/Outcomes.antt =====
-- How a tool call ends: `ToolExecutor.execute` of agent/tool_hooks/executor.py, by its status.
use minicode_agent_runtime.Prelude.{
  String, true, ◌≡◌, ◌≢◌, ◌↔◌, sym, refl, ap, none, some, Option, List, [], ◌∷◌, truthy, arith,
  Bool-cases, inl, inr, eq_of_truthy, subst,
}
use minicode_agent_runtime.Prelude.Dict.{Dict}
use minicode_agent_runtime.ToolHooks.{
  HookContext, post_tool_use, ToolExecutionRequest, ToolExecutionResult, success, denied, error,
  Result, ok, raised, ToolHook,
}
use minicode_agent_runtime.ToolHooks.Executor.PrePhase.{IsBlocked}
use minicode_agent_runtime.ToolHooks.Executor.{
  Trail, PreResult, returned, threw, post_step, run_post_hooks, run_pre_hooks, Invoker, empty_trail,
  after_error, after_success, after_invoke, finish, after_pre, execute,
}

module _ {Any W : Type 0} where
  post_step-fail_open :
      (hook : ToolHook Any W) (ctx : HookContext Any) (trail : Trail) (w : W)
      → (post_step true hook ctx trail w).0 ≡ none
  unfolding post_step
  post_step-fail_open hook ctx trail w = ground arith

  pub run_post_hooks-fail_open :
      (hooks : List (ToolHook Any W)) (ctx : HookContext Any) (trail : Trail) (w : W)
      → (run_post_hooks true hooks ctx trail w).0 ≡ none
  unfolding run_post_hooks
  run_post_hooks-fail_open [] ctx trail w = refl
  run_post_hooks-fail_open (hook ∷ hooks) ctx trail w =
      let s = post_step true hook ctx trail w in
      rw (post_step-fail_open hook ctx trail w, run_post_hooks)
        (run_post_hooks-fail_open hooks ctx s.1 s.2)

  abbrev pub pre_phase : List (ToolHook Any W) → ToolExecutionRequest Any → W → PreResult Any W
  pre_phase hooks request w = run_pre_hooks hooks request request.arguments (empty_trail []) w

module _ {Any W : Type 0} (text : String → Any) (hooks : List (ToolHook Any W))
    (request : ToolExecutionRequest Any) where
  -- What the hooks see once the tool has returned
  abbrev pub returned_context : Dict Any → Any → HookContext Any
  returned_context arguments output = record {
    event = post_tool_use;
    request = request;
    current_arguments = arguments;
    result = some output;
    error = "";
  }

  after_success_lem :
      (arguments : Dict Any) (pre : Trail) (output : Any) (w : W)
      → let r = (after_success text hooks request arguments pre output w).0 in
        (r.status ≡ success) × (r.final_arguments ≡ arguments) × (r.output ≡ output)
  unfolding after_success
  after_success_lem arguments pre output w =
      rw (run_post_hooks-fail_open, after_success) (refl, refl, refl)

  after_error_lem :
      (arguments : Dict Any) (pre : Trail) (e : String) (w : W)
      → (after_error text hooks request arguments pre e w).0.status ≡ error
  unfolding after_error
  after_error_lem arguments pre e w = ground arith

  after_invoke-status :
      (arguments : Dict Any) (pre : Trail) (r : Result Any × W)
      → (after_invoke text hooks request arguments pre r).0.status ≢ denied
  unfolding after_invoke
  after_invoke-status arguments pre (raised e, w) h = cc (after_error_lem arguments pre e w)
  after_invoke-status arguments pre (ok output, w) h =
      cc ((after_success_lem arguments pre output w).0)

  -- The converse: once the pre hooks pass and the tool returns, no post hook spoils the success.
  after_pre-success :
      (invoker : Invoker Any W) (arguments : Dict Any) (trail : Trail) (w : W) (output : Any)
      (o : Result Any × W)
      → invoker request.tool_name arguments w ≡ o
      → o.0 ≡ ok output
      → (after_pre text hooks request invoker (returned "" arguments trail w)).0.status ≡ success
  unfolding after_pre after_invoke
  after_pre-success invoker arguments trail w output (raised e, w') q h = absurd (cc)
  after_pre-success invoker arguments trail w output (ok output', w') q h =
      rw q (after_success_lem arguments trail output' w').0

  after_pre-blocked :
      (invoker other : Invoker Any W) (p : PreResult Any W)
      → IsBlocked p
      → (after_pre text hooks request other p ≡ after_pre text hooks request invoker p)
        × ((after_pre text hooks request invoker p).0.status ≢ success)
  unfolding after_pre
  after_pre-blocked invoker other (threw e pre w) b = (refl, λ h. cc h)
  after_pre-blocked invoker other (returned reason arguments pre w) b = rw b (refl, λ h. cc h)

  -- A call whose pre phase denies or raises is the same for every invoker, in its result and in
  -- what it does to the world, and does not succeed.
  pub execute-blocked :
      (invoker other : Invoker Any W) (w : W)
      → IsBlocked (pre_phase hooks request w)
      → (execute text hooks request other w ≡ execute text hooks request invoker w)
        × ((execute text hooks request invoker w).0.status ≢ success)
  unfolding execute
  execute-blocked invoker other w b = after_pre-blocked invoker other (pre_phase hooks request w) b

  after_pre-denied_iff :
      (invoker : Invoker Any W) (p : PreResult Any W)
      → ((after_pre text hooks request invoker p).0.status ≡ denied) ↔ (
          (reason : String) × (arguments : Dict Any) × (trail : Trail) × (w : W) × (p
            ≡ returned reason arguments trail w)
          × (truthy reason ≡ true))
  unfolding after_pre
  after_pre-denied_iff invoker (threw e pre w) = (λ h. cc h, λ (_, _, _, _, q, _). cc q)
  after_pre-denied_iff invoker (returned reason arguments pre w) =
      elim (Bool-cases (truthy reason)) [
        | inl e ↦ (λ h. (reason, arguments, pre, w, refl, e), λ _. rw e)
        | inr e ↦ (
          λ h. absurd (
              after_invoke-status arguments pre (invoker request.tool_name arguments w)
                (rw (e, after_pre) at h)),
          λ (_, _, _, _, q, k). cc (q, k, e),
        )
      ]

  -- ToolExecutor.execute reports a denial exactly when the pre phase returned a reason that is not
  -- empty.
  pub execute-denied_iff :
      (invoker : Invoker Any W) (w : W)
      → ((execute text hooks request invoker w).0.status ≡ denied) ↔ (
          (reason : String) × (arguments : Dict Any) × (trail : Trail) × (w' : W) × (pre_phase hooks
              request w
            ≡ returned reason arguments trail w')
          × (truthy reason ≡ true))
  unfolding execute
  execute-denied_iff invoker w = after_pre-denied_iff invoker (pre_phase hooks request w)

  -- The pre hooks end without a denial, and the tool returns for the arguments that they left.
  abbrev pub Returns : Invoker Any W → W → Type 0
  Returns invoker w =
      (arguments : Dict Any) × (trail : Trail) × (w' : W) × (output : Any) × (pre_phase hooks
          request w
        ≡ returned "" arguments trail w')
      × ((invoker request.tool_name arguments w').0 ≡ ok output)

  -- The same with the worlds: that after the pre hooks is what the tool gets, that after its one
  -- call is what the post hooks get, and that after these is the last; the result is made of the
  -- tool's output and arguments, and of the messages and the traces of the hooks.
  abbrev pub RunsOnce : Invoker Any W → PreResult Any W → ToolExecutionResult Any × W → Type 0
  RunsOnce invoker pre r =
      (arguments : Dict Any) × (trail : Trail) × (w : W) × (output : Any) × (w' : W)
      × (post : Trail) × (last : W) × (pre ≡ returned "" arguments trail w)
      × (invoker request.tool_name arguments w ≡ (ok output, w'))
      × (run_post_hooks true hooks (returned_context arguments output)
            (empty_trail trail.extra_messages) w'
          ≡ (none, post, last))
      × (r ≡ (finish success output arguments post trail.traces, last))

  after_success-eq :
      (arguments : Dict Any) (pre : Trail) (output : Any) (w : W)
      → let p =
          run_post_hooks true hooks
            (returned_context arguments output)
            (empty_trail pre.extra_messages)
            w in
        (p ≡ (none, p.1, p.2))
        × (after_success text hooks request arguments pre output w
            ≡ (finish success output arguments p.1 pre.traces, p.2))
  unfolding after_success
  after_success-eq arguments pre output w =
      let ctx = returned_context arguments output in
      let p = run_post_hooks true hooks ctx (empty_trail pre.extra_messages) w in
      let e = run_post_hooks-fail_open hooks ctx (empty_trail pre.extra_messages) w in
      (ap (λ (o : Option String). (o, p.1, p.2)) e, rw (e, after_success) refl)

  after_invoke-RunsOnce :
      (invoker : Invoker Any W) (arguments : Dict Any) (pre : Trail) (w : W) (o : Result Any × W)
      → (invoker request.tool_name arguments w) ≡ o
      → (after_invoke text hooks request arguments pre o).0.status ≡ success
      → RunsOnce invoker
          (returned "" arguments pre w)
          (after_invoke text hooks request arguments pre o)
  unfolding after_invoke
  after_invoke-RunsOnce invoker arguments pre w (raised e, w') q h =
      absurd (cc (after_error_lem arguments pre e w'))
  after_invoke-RunsOnce invoker arguments pre w (ok output, w') q h =
      let s = after_success-eq arguments pre output w' in
      (arguments, pre, w, output, w', _, _, refl, q, s.0, s.1)

  after_pre-RunsOnce :
      (invoker : Invoker Any W) (p : PreResult Any W)
      → (after_pre text hooks request invoker p).0.status ≡ success
      → RunsOnce invoker p (after_pre text hooks request invoker p)
  unfolding after_pre
  after_pre-RunsOnce invoker (threw e pre w) h = absurd (cc)
  after_pre-RunsOnce invoker (returned reason arguments pre w) h =
      elim (Bool-cases (truthy reason)) [
        | inl e ↦ absurd (cc (rw (e, after_pre) at h))
        | inr e ↦
            subst
              (λ r.
                let p : PreResult Any W = returned r arguments pre w in
                (after_pre text hooks request invoker p).0.status ≡ success
                → RunsOnce invoker p (after_pre text hooks request invoker p))
              (sym (eq_of_truthy reason e))
              (after_invoke-RunsOnce invoker arguments pre w (invoker request.tool_name arguments w)
                refl)
              h
      ]

  -- ToolExecutor.execute ends in success exactly when the pre hooks end without a denial and the
  -- tool returns for the arguments that they left; no post hook, even one that raises, changes
  -- that. It then has called the tool once: the world that the pre hooks left is what the tool
  -- gets, the world after this call is what the post hooks get, theirs is the last one, and the
  -- result is made of the output, the arguments, and the messages and traces of the hooks.
  pub execute-success_iff :
      (invoker : Invoker Any W) (w : W)
      → let r = execute text hooks request invoker w in
        ((r.0.status ≡ success) ↔ Returns invoker w)
        × ((r.0.status ≡ success) ↔ RunsOnce invoker (pre_phase hooks request w) r)
  unfolding execute
  execute-success_iff invoker w = (
    (
      λ h.
          let (arguments, trail, w', output, last, post, end, p, q, _, _) =
            after_pre-RunsOnce invoker (pre_phase hooks request w) h in
          (arguments, trail, w', output, p, ap (λ (o : Result Any × W). o.0) q),
      λ (arguments, trail, w', output, p, q). rw p (
          after_pre-success invoker arguments trail w' output
            (invoker request.tool_name arguments w') refl q),
    ),
    (
      after_pre-RunsOnce invoker (pre_phase hooks request w),
      λ (_, _, _, _, _, _, _, _, _, _, e). ap (λ (r : ToolExecutionResult Any × W). r.0.status) e,
    ),
  )
