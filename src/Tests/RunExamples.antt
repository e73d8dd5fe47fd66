-- ===== src/Tests/RunExamples.antt =====
-- The theorems about workers, the order of steps and the ownership maps at a concrete server.
use orqestra.Base.{ℕ, ◌≡◌, refl, sym, subst, ap, ◌∙◌, inl, inr, true, some, List, [], ◌∷◌, arith}
use orqestra.Workflow.{normalize, normalize_steps, assign_ids, assign_id, dag_mode}
use orqestra.Workflow.Registry.{lookup}
use orqestra.Db.Outbox.{is_step}
use orqestra.Service.Ordered.{IsOrdered, IsMet}
use orqestra.Service.Grown.{has_step}
use orqestra.Server.State.{record_heartbeat, worker_owns_job}
use orqestra.Server.InOrder.{handle_result-IsOrdered}
use orqestra.Server.Results.{handle_result}
use orqestra.Server.Paired.{IsPaired}
use orqestra.Server.Watched.{work-reclaims}
use orqestra.Server.Reclaim.{TakenBack}
use orqestra.Server.Reaper.{reaper_tick}
use orqestra.Server.Work.{WorkCalls, Event, Session, session, open_, work, work_event}
use orqestra.Tests.Memory.{Memory}
use orqestra.Tests.WorkflowExamples.{pair}
use orqestra.Tests.DbExamples.{one_job, one_job-IsNumbered}
use orqestra.Tests.ServerExamples.{
  q, registry, busy, held, processing_4-IsSound, processing_4_runs, job_4, result_calls, work_calls,
  reap_calls, success,
}

one_job-ordered :
    (i : ℕ) → has_step 1 i one_job.jobs ≡ true → IsMet (normalize pair).steps 1 one_job.jobs i
unfolding is_step normalize normalize_steps assign_ids assign_id dag_mode
one_job-ordered i h =
    let first : i ≡ 0 = ground arith in
    subst (λ j. IsMet (normalize pair).steps 1 one_job.jobs j) (sym first) (λ d m. absurd m)

one_job-IsOrdered : IsOrdered registry one_job
unfolding is_step lookup
one_job-IsOrdered = record {
  fresh = λ run name m. elim m [
    | inl e ↦ (let f = ap (λ x. x.0) e in omega arith)
    | inr n ↦ elim n [ ]
  ];
  named = λ run name name' m m'. elim m [
    | inl e ↦ elim m' [ inl e' ↦ ap (λ x. x.1) (sym e ∙ e') | inr n ↦ elim n [ ] ]
    | inr n ↦ elim n [ ]
  ];
  owned = λ run i h. ground arith;
  ordered = λ run name wf m l i h. elim m [
    | inl e ↦
        let number = ap (λ x. x.0) e in
        let same : some pair ≡ some wf =
          subst (λ n. lookup n registry ≡ some wf) (sym (ap (λ x. x.1) e)) l in
        let same_wf : pair ≡ wf = cc in
        subst (λ w. IsMet (normalize w).steps run one_job.jobs i) same_wf
          (subst (λ r. IsMet (normalize pair).steps r one_job.jobs i) number
            (one_job-ordered i (subst (λ r. has_step r i one_job.jobs ≡ true) (sym number) h)))
    | inr n ↦ elim n [ ]
  ];
}

handle_result-IsOrdered_example :
    IsOrdered registry (handle_result q registry result_calls 9 success "w1" busy).db
handle_result-IsOrdered_example =
    handle_result-IsOrdered q registry result_calls 9 success "w1" busy one_job-IsNumbered
      one_job-IsOrdered

pub busy-IsPaired : IsPaired busy
busy-IsPaired id = ground arith

abbrev messages : List (WorkCalls × Event)
messages = (work_calls, Event.heartbeat "w1" 4) ∷ (work_calls, Event.empty "w1") ∷ []

abbrev begun : Session Memory
begun = session q registry held (some job_4) open_

work-reclaims_example :
    let w = (work q registry messages begun).world in
    TakenBack q 4 w (reaper_tick q reap_calls 40_000 w)
unfolding work work_event record_heartbeat worker_owns_job
work-reclaims_example =
    work-reclaims q registry messages begun reap_calls 40_000 4 busy-IsPaired refl refl (λ _. refl)
      one_job-IsNumbered processing_4-IsSound processing_4_runs refl refl
      (λ seen e. let at_5 : some 5 ≡ some seen = e in let same : 5 ≡ seen = cc in omega arith)
