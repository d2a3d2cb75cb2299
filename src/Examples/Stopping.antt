-- ===== src/Examples/Stopping.antt =====
-- Runs of ktool.py that stop early, and parts of a run.
use user_basic.Base.{
  replicate, ◌↔◌, suc, true, false, some, [], ◌≡◌, refl, arith, codes, line_eq, ℕ, ◌*◌, ◌-◌, ◌++◌,
  ◌≤◌, ◌<◌,
}
use user_basic.Ktool.Port.{ok, err, exit, ◌>>◌}
use user_basic.Ktool.Display.{bar, print_progress_bar, Shown}
use user_basic.Ktool.Display.Bar.{print_progress_bar-full}
use user_basic.Process.Args.{dan, settle}
use user_basic.Process.World.{choose_port}
use user_basic.Process.Detect.{kill, tool_check, detect_loop}
use user_basic.Process.Once.{once, detect_loop-once}
use user_basic.Process.Flow.{process, run_port}
use user_basic.Process.Refused.{no_such, opened, run_port-killed, process-BadFile}
use user_basic.Examples.Running.{world, arguments, args, replies, loader}

no_file_port : choose_port world (settle (arguments [])) ≡ some (codes "ttyUSB1")
unfolding choose_port line_eq settle
no_file_port = refl

process-BadFile_example :
    process world (arguments []) (loader replies)
    ≡ (opened (record (loader replies) { tool_killed = false }), err (exit 1))
process-BadFile_example =
    process-BadFile world (arguments []) (loader replies) (codes "ttyUSB1") no_file_port refl refl
      refl refl (no_such refl)

run_port-killed_example :
    ((run_port world args (codes "ttyUSB1") (kill (loader replies))).0.sent ≡ [])
    × ((run_port world args (codes "ttyUSB1") (kill (loader replies))).0.actions ≡ [])
    × ((u : Unit {0})
        → ¬ ((run_port world args (codes "ttyUSB1") (kill (loader replies))).1 ≡ ok u))
run_port-killed_example = run_port-killed world args (codes "ttyUSB1") (loader replies) refl

detect_loop-once_example :
    detect_loop 15 dan (loader replies) ≡ (tool_check >> once dan) (loader replies)
detect_loop-once_example = detect_loop-once 14 dan (loader replies)

print_progress_bar-full_example :
    (shown : Shown) × (places : ℕ) × (print_progress_bar true
        (codes "75.0")
        3
        4
        (codes "Programming BIN:")
        (codes "9 kiB/s")
        []
        8
      ≡ some shown)
    × (shown.text ≡ (
        codes "\r"
        ++ codes "Programming BIN:"
        ++ codes " |"
        ++ replicate places b'='
        ++ replicate (8 - places) b'-'
        ++ codes "| "
        ++ codes "75.0"
        ++ codes "% "
        ++ codes "9 kiB/s"))
    × (places ≤ 8)
    × (places * 4 ≤ 8 * 3)
    × (8 * 3 < suc places * 4)
    × ((shown.new_line ≡ true) ↔ (places ≡ 8))
print_progress_bar-full_example =
    print_progress_bar-full true (codes "75.0") 3 4 (codes "Programming BIN:") (codes "9 kiB/s") []
      8 (omega arith) (omega arith) (omega arith)

bar_drawn : bar 8 3 4 ≡ codes "======--"
unfolding bar
bar_drawn = refl
