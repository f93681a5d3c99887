-- ===== src/Shell/Interpreter.antt =====
-- shell_state_init, parse_job_id, run_builtin and shell_run_line of shell/shell.c. strtol and strtoul
-- are parameters, and what the system answers while a line runs is a record.
use embedded_systems_runtime.Prelude.{
  ℕ, ◌-◌, ◌^◌, ◌%◌, Option, none, some, Bool, true, false, List, [], ◌∷◌, ◌++◌, ◌==◌, ltb, not,
  ◌&&◌, ◌||◌, if◌then◌else◌, codes,
}
use embedded_systems_runtime.Prelude.Int.{ℤ, pos, negsuc}
use embedded_systems_runtime.Shell.Jobs.{
  running, Job, JobList, Notice, WaitStatus, jobs_find_id, jobs_reap, is_done,
}
use embedded_systems_runtime.Shell.History.{ShellState}
use embedded_systems_runtime.Shell.Foreground.{
  Message, complaint, job_notice, job_line, job_resumed, history_line, Run, returned, waiting,
  Answers, wait_foreground_job, home_not_set, cd_failed, bg_failed, fg_terminal_failed, fg_failed,
  job_missing,
}

-- strcmp(a, b) == 0
unfoldable pub same_text : List ℕ → List ℕ → Bool
same_text [] [] = true
same_text (a ∷ as_) (b ∷ bs) = a == b && same_text as_ bs
same_text _ _ = false

-- What a name stands for in run_builtin.
pub data Builtin : Type 0 where
  change_directory leave show_history show_jobs foreground background show_help external : Builtin

unfoldable pub builtin_of : List ℕ → Builtin
unfolding same_text
builtin_of name =
    if same_text name (codes "cd")
    then change_directory
    else (if same_text name (codes "exit") || same_text name (codes "quit")
        then leave
        else (if same_text name (codes "history")
            then show_history
            else (if same_text name (codes "jobs")
                then show_jobs
                else (if same_text name (codes "fg")
                    then foreground
                    else (if same_text name (codes "bg")
                        then background
                        else (if same_text name (codes "help") then show_help else external))))))

-- The result of kill(-pgid, SIGCONT).
pub data Killed : Type 0 where
  continued no_process kill_failed : Killed

-- What the system answers while a line runs: the statuses that the call of jobs_reap before it gives,
-- those that the one in a builtin gives, getenv("HOME"), whether chdir succeeds, kill, whether
-- tcsetpgrp for a job succeeds, and what starting a pipeline meets.
pub record System : Type 0 where
  pub reaped : List (ℕ × WaitStatus)
  pub reaped_by_builtin : List (ℕ × WaitStatus)
  pub home : Option (List ℕ)
  pub chdir : List ℕ → Bool
  pub kill : Killed
  pub terminal : Bool
  pub execution : Answers

-- The result of jobs_reap with its notices, or without.
abbrev pub reap : ShellState → Bool → List (ℕ × WaitStatus) → ShellState
reap state notify events = record state { jobs = (jobs_reap state.jobs notify events).0 }

-- (int)value of a positive long
unfoldable pub to_int : ℕ → ℤ
to_int n = let w = n % 2 ^ 32 in if ltb w (2 ^ 31) then pos w else negsuc (2 ^ 32 - 1 - w)

-- A positive value as an int.
unfoldable pub positive : ℤ → Option ℤ
unfolding to_int
positive (pos n) = if n == 0 then none else some (to_int n)
positive (negsuc n) = none

-- Behind a '%'.
unfoldable pub job_text : List ℕ → List ℕ
job_text [] = []
job_text (c ∷ cs) = if c == 37 then cs else c ∷ cs

-- The identifiers of the table are positive ints.
unfoldable pub find_job : JobList → ℤ → Option Job
unfolding jobs_find_id
find_job list (pos id) = jobs_find_id list id
find_job list (negsuc n) = none

-- job->state = JOB_RUNNING
unfoldable pub set_running : ℕ → List Job → List Job
set_running address [] = []
set_running address (job ∷ jobs) =
    if job.address == address
    then record job { state = running } ∷ jobs
    else job ∷ set_running address jobs

abbrev pub resume : ShellState → Job → ShellState
resume state job = record state {
  jobs = record state.jobs { jobs = set_running job.address state.jobs.jobs };
}

unfoldable pub messages : List Notice → List Message
messages [] = []
messages (n ∷ ns) = job_notice n ∷ messages ns

unfoldable pub history_lines : List (ℕ × List ℕ) → List Message
history_lines [] = []
history_lines ((n, line) ∷ lines) = history_line n line ∷ history_lines lines

unfoldable pub job_lines : List Job → List Message
job_lines [] = []
job_lines (job ∷ jobs) = job_line job ∷ job_lines jobs

unfoldable pub builtin_cd : System → ShellState → Option (List ℕ) → Run
builtin_cd system state none = returned 1 state (complaint home_not_set ∷ [])
builtin_cd system state (some path) =
    if system.chdir path then returned 0 state [] else returned 1 state (complaint cd_failed ∷ [])

-- cmd->argc > 1 ? cmd->argv[1] : getenv("HOME")
unfoldable pub cd_path : System → List (List ℕ) → Option (List ℕ)
cd_path system (name ∷ path ∷ words) = some path
cd_path system _ = system.home

unfoldable pub builtin_bg : System → ShellState → Job → Run
builtin_bg system state job = elim system.kill [
  | continued ↦ returned 0 (resume state job) (job_resumed job.id job.command ∷ [])
  | no_process ↦ returned 1 state (complaint bg_failed ∷ [])
  | kill_failed ↦ returned 1 state (complaint bg_failed ∷ [])
]

unfoldable pub add_message : List Message → Run → Run
add_message ms (returned rc state out) = returned rc state (ms ++ out)
add_message ms (waiting state) = waiting state

unfoldable pub kill_complaint : Killed → List Message
kill_complaint kill_failed = complaint fg_failed ∷ []
kill_complaint _ = []

unfoldable pub builtin_fg : System → ShellState → Job → Run
unfolding add_message kill_complaint wait_foreground_job
builtin_fg system state job =
    if state.interactive && not system.terminal
    then returned 1 state (complaint fg_terminal_failed ∷ [])
    else add_message (kill_complaint system.kill)
        (wait_foreground_job (resume state job) job.address system.execution.waited)

-- What fg and bg do with the job that was found; `is_bg` tells which of the two it is.
unfoldable pub with_job : System → ShellState → Bool → ℤ → Option Job → Run
unfolding builtin_bg builtin_fg
with_job system state is_bg id none = returned 1 state (complaint (job_missing id) ∷ [])
with_job system state is_bg id (some job) =
    if is_done job.state
    then returned 1 state (complaint (job_missing id) ∷ [])
    else (if is_bg then builtin_bg system state job else builtin_fg system state job)
