-- ===== src/Preprocessing.antt =====
-- serving/preprocessing.py: `RendererLanePool`. A lane is a handle. Between the awaits of `run` the
-- event loop runs nothing else, so each part of it is one step. The metrics and the cancellation
-- event that the renderer gets are left out.
pub mod Leases
pub mod Conservation
mod Tests
use ex_qserve.Base.{
  ℕ, zero, suc, ◌-◌, Bool, true, false, Option, none, some, List, [], ◌∷◌, ◌++◌, if◌then◌else◌,
  length,
}

pub record RendererLanePool : Type 0 where
  pub lanes : List ℕ
  pub available : List ℕ
  pub closed : Bool

abbrev pub new_pool : List ℕ → RendererLanePool
new_pool lanes = record { lanes = lanes; available = lanes; closed = false }

abbrev pub pool_size : RendererLanePool → ℕ
pool_size p = length p.lanes

unfoldable pub close : RendererLanePool → RendererLanePool
close p = if p.closed then p else record { lanes = []; available = []; closed = true }

-- The `finally` of `run`, with the lane that the worker had.
unfoldable pub give_back : ℕ → RendererLanePool → RendererLanePool
give_back lane p = if p.closed then p else record p { available = p.available ++ lane ∷ [] }

-- What the caller of `run` does: it awaits the shielded task; cancelled, it is in
-- `await_task_termination`; it has left `run`.
pub data Caller : Type 0 where
  awaiting terminating left : Caller

-- A call of `run` that got its lane, with whether its task is not done: a worker uses the lane.
pub record Call : Type 0 where
  pub lane : ℕ
  pub caller : Caller
  pub working : Bool

-- The pool, the calls that wait for a lane, and those that got one, the last one first.
pub record Serving : Type 0 where
  pub pool : RendererLanePool
  pub waiting : ℕ
  pub calls : List Call

abbrev pub start : List ℕ → Serving
start lanes = record { pool = new_pool lanes; waiting = 0; calls = [] }

-- A call of `run` begins, with its RuntimeError on a closed pool; a waiting one gets a lane or is
-- cancelled; the pool closes; the caller of the i-th call with a lane is cancelled, its worker comes to
-- its end, or the event loop resumes it.
pub data Step : Type 0 where
  begins takes cancels_wait closes : Step
  cancels exits resumes : ℕ → Step

unfoldable pub begin_run : Serving → Option Serving
begin_run s = if s.pool.closed then none else some (record s { waiting = suc s.waiting })

-- self._available.get() of a waiting call, and its task.
unfoldable pub take_lane : ℕ → List ℕ → Serving → Serving
take_lane zero available s = s
take_lane (suc n) [] s = s
take_lane (suc n) (lane ∷ available) s = record {
  pool = record s.pool { available = available };
  waiting = n;
  calls = record { lane = lane; caller = awaiting; working = true } ∷ s.calls;
}

-- The `finally` of a call, and its end.
unfoldable pub leave : Call → RendererLanePool → RendererLanePool × Call
unfolding give_back
leave c p = (give_back c.lane p, record c { caller = left })

-- A CancelledError at the caller: from the shielded task to `await_task_termination`, which goes on.
unfoldable pub cancel_run : Caller → Call → RendererLanePool → RendererLanePool × Call
cancel_run awaiting c p = (p, record c { caller = terminating })
cancel_run terminating c p = (p, c)
cancel_run left c p = (p, c)

-- The caller goes on from the shielded task, or from `await_task_termination`, once the task is done.
unfoldable pub resume_run : Caller → Call → RendererLanePool → RendererLanePool × Call
unfolding leave
resume_run awaiting c p = if c.working then (p, c) else leave c p
resume_run terminating c p = if c.working then (p, c) else leave c p
resume_run left c p = (p, c)

unfoldable pub exit_worker : Call → RendererLanePool → RendererLanePool × Call
exit_worker c p = (p, record c { working = false })

-- What happens at the i-th call.
unfoldable pub at_call :
    (Call → RendererLanePool → RendererLanePool × Call)
    → ℕ
    → List Call
    → RendererLanePool
    → RendererLanePool × List Call
at_call f i [] p = (p, [])
at_call f zero (c ∷ cs) p = let (q, d) = f c p in (q, d ∷ cs)
at_call f (suc i) (c ∷ cs) p = let (q, ds) = at_call f i cs p in (q, c ∷ ds)

abbrev pub or_same : Serving → Option Serving → Serving
or_same s none = s
or_same s (some t) = t

abbrev pub with_calls : Serving → RendererLanePool × List Call → Serving
with_calls s (p, cs) = record s { pool = p; calls = cs }

unfoldable pub step : Step → Serving → Serving
unfolding begin_run take_lane at_call cancel_run exit_worker resume_run close
step begins s = or_same s (begin_run s)
step takes s = take_lane s.waiting s.pool.available s
step cancels_wait s = record s { waiting = s.waiting - 1 }
step closes s = record s { pool = close s.pool }
step (cancels i) s = with_calls s (at_call (λ c. cancel_run c.caller c) i s.calls s.pool)
step (exits i) s = with_calls s (at_call exit_worker i s.calls s.pool)
step (resumes i) s = with_calls s (at_call (λ c. resume_run c.caller c) i s.calls s.pool)

unfoldable pub run : List Step → Serving → Serving
unfolding step
run [] s = s
run (x ∷ xs) s = run xs (step x s)
