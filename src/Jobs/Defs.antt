-- ===== src/Jobs/Defs.antt =====
-- The `Job` rows and the conditional updates that the runner and the API make.
use ninja_devx.Prelude.{
  ℕ, Bool, if◌then◌else◌, Outcome, String, Option, raise, true, false, not, some, leb, ok, ◌+◌,
  none,
}
use ninja_devx.Prelude.Table.{Table, get, update, put}

pub data Status : Type 0 where
  queued running succeeded failed cancelled : Status

pub record Job : Type 0 where
  pub name : String
  pub status : Status
  pub function : String
  pub arguments : String
  pub created_by : Option ℕ
  pub tenant : String
  pub progress : ℕ
  pub result : String
  pub error : String
  pub attempts : ℕ
  pub started : Option ℕ
  pub finished : Option ℕ

abbrev pub Jobs : Type 0
Jobs = Table Job

abbrev pub is_cancelled : Status → Bool
is_cancelled cancelled = true
is_cancelled _ = false

-- `exclude(status=Job.Status.CANCELLED)`
abbrev pub alive : Job → Bool
alive row = not (is_cancelled row.status)

-- The status says that the run is over.
abbrev pub is_terminal : Status → Bool
is_terminal queued = false
is_terminal running = false
is_terminal _ = true

-- The update at the top of each try: whether a row was started, and the table.
unfoldable pub start_try : ℕ → ℕ → Jobs → Bool × Jobs
start_try id now jobs =
    update id alive
      (λ row. record row { status = running; started = some now; attempts = row.attempts + 1 }) jobs

-- `_finish(job_id, FAILED, error=...)`
unfoldable pub finish_failed : ℕ → ℕ → String → Jobs → Jobs
finish_failed id now error jobs =
    (update id alive (λ row. record row { status = failed; error = error; finished = some now })
      jobs).1

-- `_finish(job_id, SUCCEEDED, progress=100, result=...)`
unfoldable pub finish_succeeded : ℕ → ℕ → String → Jobs → Jobs
finish_succeeded id now result jobs =
    (update id alive
      (λ row. record row {
        status = succeeded;
        progress = 100;
        result = result;
        finished = some now;
      })
      jobs).1

-- `percent` is a Python integer.
pub data ℤ : Type 0 where
  pos : ℕ → ℤ
  negsuc : ℕ → ℤ

pub data JobError : Type 0 where
  value_error authentication_error : JobError

-- `filter(pk=self.job_id).update(progress=percent)`
unfoldable pub with_progress : ℕ → ℕ → Jobs → Jobs
with_progress id n jobs = (update id (λ row. true) (λ row. record row { progress = n }) jobs).1

-- `JobContext.set_progress`
unfoldable pub set_progress : ℕ → ℤ → Jobs → Outcome JobError Jobs
set_progress id (negsuc n) jobs = raise value_error
set_progress id (pos n) jobs = if leb n 100 then ok (with_progress id n jobs) else raise value_error

-- `JobContext.cancelled`
unfoldable pub context_cancelled : ℕ → Jobs → Bool
context_cancelled id jobs = elim (get id jobs) [ none ↦ false | some row ↦ is_cancelled row.status ]

abbrev pub cancellable : Status → Bool
cancellable queued = true
cancellable running = true
cancellable _ = false

-- `JobsController.cancel`: `seen` is the job as the operation loaded it; the update itself has no
-- condition on the status.
unfoldable pub cancel : ℕ → Job → ℕ → Jobs → Jobs
cancel id seen now jobs =
    if cancellable seen.status
    then (update id (λ row. true) (λ row. record row { status = cancelled; finished = some now })
        jobs).1
    else jobs

-- `start_job`: the row that is created for the authenticated user, at a fresh primary key.
unfoldable pub start_job :
    Option ℕ → ℕ → String → String → String → String → Jobs → Outcome JobError Jobs
start_job none id name target arguments tenant jobs = raise authentication_error
start_job (some user) id name target arguments tenant jobs = ok (
    put id
      (record {
        name = name;
        status = queued;
        function = target;
        arguments = arguments;
        created_by = some user;
        tenant = tenant;
        progress = 0;
        result = "{}";
        error = "";
        attempts = 0;
        started = none;
        finished = none;
      })
      jobs)
