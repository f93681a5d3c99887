-- ===== src/Protocol/Names.antt =====
-- mlrt_message_type_name of protocol/embedded_protocol.c, mlrt_target_state_name of
-- target/target_core.c and job_state_name of shell/jobs.c.
use embedded_systems_runtime.Prelude.{ℕ, List, codes, ◌==◌, if◌then◌else◌}
use embedded_systems_runtime.Target.{State, boot, init, ready, running, fault, recovery}
use embedded_systems_runtime.Shell.Jobs.{JobState, stopped, done}

unfoldable pub message_type_name : ℕ → List ℕ
message_type_name type =
    if type == 1
    then codes "HEARTBEAT"
    else (if type == 2
        then codes "SENSOR_DATA"
        else (if type == 3
            then codes "STATUS_REQ"
            else (if type == 4
                then codes "STATUS_RSP"
                else (if type == 5
                    then codes "CONFIG_SET"
                    else (if type == 6
                        then codes "CONFIG_ACK"
                        else (if type == 7
                            then codes "ERROR"
                            else (if type == 8
                                then codes "FW_INFO_REQ"
                                else (if type == 9
                                    then codes "FW_INFO_RSP"
                                    else (if type == 10
                                        then codes "FAULT_INJECT"
                                        else (if type == 11
                                            then codes "RESET"
                                            else (if type == 12
                                                then codes "RESET_ACK"
                                                else codes "UNKNOWN")))))))))))

unfoldable pub target_state_name : State → List ℕ
target_state_name boot = codes "BOOT"
target_state_name init = codes "INIT"
target_state_name ready = codes "READY"
target_state_name running = codes "RUNNING"
target_state_name fault = codes "FAULT"
target_state_name recovery = codes "RECOVERY"

unfoldable pub job_state_name : JobState → List ℕ
job_state_name JobState.running = codes "Running"
job_state_name stopped = codes "Stopped"
job_state_name done = codes "Done"
