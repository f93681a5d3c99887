-- ===== src/Shell/Line/Builtins.antt =====
-- The builtins of shell/shell.c leave a valid state.
use embedded_systems_runtime.Prelude.{
  ℕ, ◌≢◌, inl, inr, Option, none, some, Bool, true, false, not, ◌&&◌, List, [], ◌∷◌, ◌==◌, All,
  Bool-cases, get_or, if_both,
}
use embedded_systems_runtime.Prelude.Int.{ℤ}
use embedded_systems_runtime.Shell.Jobs.{Job, WaitStatus, running, is_done}
use embedded_systems_runtime.Shell.Jobs.Table.{Below, Apart, Counted, jobs_reap-IsValid}
use embedded_systems_runtime.Shell.Jobs.Removal.{jobs_remove_done-IsValid}
use embedded_systems_runtime.Shell.Parser.{ShellCommand}
use embedded_systems_runtime.Shell.History.{ShellState, Signed}
use embedded_systems_runtime.Shell.Foreground.{Message, Run, returned, waiting, wait_foreground_job}
use embedded_systems_runtime.Shell.Interpreter.{
  Builtin, change_directory, leave, show_history, show_jobs, foreground, background, show_help,
  external, builtin_of, System, Killed, continued, no_process, kill_failed, kill_complaint, reap,
  find_job, set_running, resume, builtin_cd, cd_path, builtin_bg, builtin_fg, add_message, with_job,
}
use embedded_systems_runtime.Shell.Line.{
  parse_job_id, with_job_id, builtin_resume, builtin_jobs, run_named, run_commands,
}
use embedded_systems_runtime.Shell.Line.Valid.{IsSound, SoundRun, wait_foreground_job-Sound}

module _ (address : ℕ) where
  set_running-All :
      (P : Job → Type 0) (jobs : List Job)
      → ((job : Job) → P job → P (record job { state = running }))
      → All P jobs
      → All P (set_running address jobs)
  unfolding set_running
  set_running-All P [] keep h = tt
  set_running-All P (job ∷ jobs) keep (p, h) = elim (Bool-cases (job.address == address)) [
    | inl e ↦ rw e (keep job p, h)
    | inr e ↦ rw e (p, set_running-All P jobs keep h)
  ]

  set_running-Below : (n : ℕ) (jobs : List Job) → Below n jobs → Below n (set_running address jobs)
  unfolding set_running
  set_running-Below n [] h = tt
  set_running-Below n (job ∷ jobs) (lt, b) = elim (Bool-cases (job.address == address)) [
    | inl e ↦ rw e (lt, b)
    | inr e ↦ rw e (lt, set_running-Below job.id jobs b)
  ]

  set_running-Apart : (jobs : List Job) → Apart jobs → Apart (set_running address jobs)
  unfolding set_running
  set_running-Apart [] h = tt
  set_running-Apart (job ∷ jobs) (ne, h) = elim (Bool-cases (job.address == address)) [
    | inl e ↦ rw e (ne, h)
    | inr e ↦ rw e (
      set_running-All (λ o. job.address ≢ o.address) jobs (λ o n. n) ne,
      set_running-Apart jobs h,
    )
  ]

resume-Sound : (state : ShellState) (job : Job) → IsSound state → IsSound (resume state job)
resume-Sound state job s = record {
  table = record {
    ids = set_running-Below job.address state.jobs.next_id state.jobs.jobs s.table.ids;
    apart = set_running-Apart job.address state.jobs.jobs s.table.apart;
    counted = set_running-All job.address Counted state.jobs.jobs (λ o c. c) s.table.counted;
  };
  bounded = s.bounded;
}

pub reap-Sound :
    (state : ShellState) (notify : Bool) (events : List (ℕ × WaitStatus))
    → IsSound state
    → IsSound (reap state notify events)
reap-Sound state notify events s = record {
  table = jobs_reap-IsValid state.jobs notify events s.table;
  bounded = s.bounded;
}

pub add_message-Sound : (ms : List Message) (r : Run) → SoundRun r → SoundRun (add_message ms r)
unfolding add_message
add_message-Sound ms (returned rc state out) s = s
add_message-Sound ms (waiting state) s = s

module _ (system : System) where
  with_job-Sound :
      (state : ShellState) (is_bg : Bool) (id : ℤ) (job : Option Job)
      → IsSound state
      → SoundRun (with_job system state is_bg id job)
  unfolding with_job builtin_fg builtin_bg
  with_job-Sound state is_bg id none s = s
  with_job-Sound state is_bg id (some job) s = if_both SoundRun (is_done job.state) _ _ s (
      if_both SoundRun is_bg _ _ (bg_sound system.kill) (
        if_both SoundRun (state.interactive && not system.terminal) _ _ s (
          add_message-Sound (kill_complaint system.kill)
            (wait_foreground_job (resume state job) job.address system.execution.waited)
            (wait_foreground_job-Sound (resume state job) job.address system.execution.waited
              (resume-Sound state job s)))))
    where
      bg_sound : (k : Killed) → SoundRun (builtin_bg (record system { kill = k }) state job)
      bg_sound continued = resume-Sound state job s
      bg_sound no_process = s
      bg_sound kill_failed = s

  builtin_cd-Sound :
      (state : ShellState) (path : Option (List ℕ))
      → IsSound state
      → SoundRun (builtin_cd system state path)
  unfolding builtin_cd
  builtin_cd-Sound state none s = s
  builtin_cd-Sound state (some path) s = if_both SoundRun (system.chdir path) _ _ s s

  abbrev pub SoundOption : Option Run → Type 0
  SoundOption none = Unit
  SoundOption (some r) = SoundRun r

  module _ (strtol : List ℕ → Signed) where
    builtin_resume-Sound :
        (state : ShellState) (is_bg : Bool) (argv : List (List ℕ))
        → IsSound state
        → SoundRun (builtin_resume strtol system state is_bg argv)
    unfolding builtin_resume with_job_id
    builtin_resume-Sound state is_bg [] s = s
    builtin_resume-Sound state is_bg (name ∷ []) s = s
    builtin_resume-Sound state is_bg (name ∷ text ∷ words) s = by_id (parse_job_id strtol text)
      where
        by_id : (id : Option ℤ) → SoundRun (with_job_id strtol system state is_bg id)
        by_id none = s
        by_id (some id) = with_job-Sound state is_bg id (find_job state.jobs id) s

    run_named-Sound :
        (state : ShellState) (builtin : Builtin) (argv : List (List ℕ))
        → IsSound state
        → SoundOption (run_named strtol system state builtin argv)
    unfolding run_named builtin_jobs
    run_named-Sound state change_directory argv s = builtin_cd-Sound state (cd_path system argv) s
    run_named-Sound state leave argv s = record { table = s.table; bounded = s.bounded }
    run_named-Sound state show_history argv s = s
    run_named-Sound state show_jobs argv s =
        let reaped = reap-Sound state false system.reaped_by_builtin s in
        record {
          table =
              jobs_remove_done-IsValid (reap state false system.reaped_by_builtin).jobs
                reaped.table;
          bounded = s.bounded;
        }
    run_named-Sound state foreground argv s =
        builtin_resume-Sound (reap state false system.reaped_by_builtin) false argv
          (reap-Sound state false system.reaped_by_builtin s)
    run_named-Sound state background argv s =
        builtin_resume-Sound (reap state false system.reaped_by_builtin) true argv
          (reap-Sound state false system.reaped_by_builtin s)
    run_named-Sound state show_help argv s = s
    run_named-Sound state external argv s = tt

    pub run_commands-Sound :
        (state : ShellState) (cmds : List ShellCommand)
        → IsSound state
        → SoundOption (run_commands strtol system state cmds)
    unfolding run_commands
    run_commands-Sound state [] s = tt
    run_commands-Sound state (cmd ∷ []) s =
        run_named-Sound state (builtin_of (get_or cmd.argv 0 [])) cmd.argv s
    run_commands-Sound state (cmd ∷ c ∷ cmds) s = tt
