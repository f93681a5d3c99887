-- ===== src/Shell/Jobs.antt =====
-- The job table of shell/jobs.c. The linked list is a list from the head on, and a job's address
-- stands for the pointer to it.
pub mod Table
pub mod Tracking
pub mod Lookup
pub mod Removal
use embedded_systems_runtime.Prelude.{
  ℕ, zero, suc, ◌+◌, ◌-◌, Option, none, some, Bool, true, false, List, [], ◌∷◌, ◌++◌, ◌==◌, length,
  ltb, not, ◌||◌, ◌&&◌, if◌then◌else◌,
}

pub data JobState : Type 0 where
  running stopped done : JobState

pub record Job : Type 0 where
  pub address : ℕ
  pub id : ℕ
  pub pgid : ℕ
  pub pids : List ℕ
  pub remaining : ℕ
  pub state : JobState
  pub command : List ℕ

pub record JobList : Type 0 where
  pub jobs : List Job
  pub next_id : ℕ

-- What the macros of <sys/wait.h> tell of a wait status.
pub data WaitStatus : Type 0 where
  was_stopped was_continued exited signaled other : WaitStatus

unfoldable pub jobs_init : JobList
jobs_init = record { jobs = []; next_id = 1 }

-- `address` is what mlrt_xcalloc returned.
unfoldable pub jobs_add : ℕ → JobList → ℕ → List ℕ → List ℕ → JobState → JobList
jobs_add address list pgid pids command state =
    let job : Job = record {
      address = address;
      id = list.next_id;
      pgid = pgid;
      pids = pids;
      remaining = length pids;
      state = state;
      command = command;
    } in
    record { jobs = job ∷ list.jobs; next_id = suc list.next_id }

unfoldable pub find_id : ℕ → List Job → Option Job
find_id id [] = none
find_id id (job ∷ jobs) = if job.id == id then some job else find_id id jobs

unfoldable pub jobs_find_id : JobList → ℕ → Option Job
unfolding find_id
jobs_find_id list id = find_id id list.jobs

unfoldable pub has_pid : ℕ → List ℕ → Bool
has_pid pid [] = false
has_pid pid (p ∷ pids) = if p == pid then true else has_pid pid pids

unfoldable pub find_pid : ℕ → List Job → Option Job
unfolding has_pid
find_pid pid [] = none
find_pid pid (job ∷ jobs) = if has_pid pid job.pids then some job else find_pid pid jobs

unfoldable pub jobs_find_pid : JobList → ℕ → Option Job
unfolding find_pid
jobs_find_pid list pid = find_pid pid list.jobs

unfoldable pub one_less : Job → Job
one_less job =
    let job = (if ltb 0 job.remaining then record job { remaining = job.remaining - 1 } else job) in
    if job.remaining == 0 then record job { state = done } else job

unfoldable pub update_job : WaitStatus → Job → Job
unfolding one_less
update_job was_stopped job = record job { state = stopped }
update_job was_continued job = record job { state = running }
update_job exited job = one_less job
update_job signaled job = one_less job
update_job other job = job

-- The write through the pointer that jobs_find_pid returned.
unfoldable pub update_pid : ℕ → WaitStatus → List Job → List Job
unfolding has_pid update_job
update_pid pid status [] = []
update_pid pid status (job ∷ jobs) =
    if has_pid pid job.pids then update_job status job ∷ jobs else job ∷ update_pid pid status jobs

unfoldable pub jobs_update_status : JobList → ℕ → WaitStatus → JobList
unfolding update_pid
jobs_update_status list pid status = record list { jobs = update_pid pid status list.jobs }

-- A job and the state in which jobs_reap names it.
pub record Notice : Type 0 where
  pub id : ℕ
  pub state : JobState
  pub command : List ℕ

unfoldable pub same_state : JobState → JobState → Bool
same_state running running = true
same_state stopped stopped = true
same_state done done = true
same_state _ _ = false

-- `before` and `after` are the job of the pid around the update.
unfoldable pub notice : Bool → Option Job → Option Job → List Notice
unfolding same_state
notice notify (some before) (some after) =
    if notify && not (same_state after.state before.state)
    then record { id = after.id; state = after.state; command = after.command } ∷ []
    else []
notice notify _ _ = []

-- The events are what waitpid returned before it returned no pid.
unfoldable pub jobs_reap : JobList → Bool → List (ℕ × WaitStatus) → JobList × List Notice
unfolding notice jobs_update_status jobs_find_pid
jobs_reap list notify [] = (list, [])
jobs_reap list notify ((pid, status) ∷ events) =
    let list' = jobs_update_status list pid status in
    let (end, notices) = jobs_reap list' notify events in
    (end, notice notify (jobs_find_pid list pid) (jobs_find_pid list' pid) ++ notices)

unfoldable pub remove_address : ℕ → List Job → List Job
remove_address target [] = []
remove_address target (job ∷ jobs) =
    if job.address == target then jobs else job ∷ remove_address target jobs

-- A null pointer is `none`.
unfoldable pub jobs_remove : JobList → Option Job → JobList
unfolding remove_address
jobs_remove list none = list
jobs_remove list (some target) = record list { jobs = remove_address target.address list.jobs }

abbrev pub is_done : JobState → Bool
is_done done = true
is_done _ = false

-- The loop of jobs_remove_done over the nodes that the list had.
unfoldable pub remove_done_loop : List Job → JobList → JobList
unfolding jobs_remove
remove_done_loop [] list = list
remove_done_loop (job ∷ next) list =
    remove_done_loop next (if is_done job.state then jobs_remove list (some job) else list)

unfoldable pub jobs_remove_done : JobList → JobList
unfolding remove_done_loop
jobs_remove_done list = remove_done_loop list.jobs list
