-- ===== src/Process/Detect.antt =====
-- ktool.py: the board is reset into its ROM loader, and greeted.
use user_basic.Base.{
  ℕ, zero, suc, Bool, true, false, Option, none, some, List, [], ◌∷◌, if◌then◌else◌,
}
use user_basic.Ktool.Reset.{Action, reset_to_isp_dan, reset_to_isp_kd233, reset_to_isp_go_d}
use user_basic.Ktool.Port.{
  Loader, stalled, timed_out, cancelled, greeting_failed, exit, Res, ok, err, Io, ◌>>=◌, ◌>>◌, pure,
  raise, close, line_actions,
}
use user_basic.Ktool.Greeting.{greeting}
use user_basic.Process.Args.{Board, kd233, dan, bit, trainer, go_e, go_d}

-- `checkKillExit` of `KTool`: its flag stays set.
unfoldable pub tool_check : Io (Unit {0})
tool_check l = if l.tool_killed then (close l, err cancelled) else (l, ok tt)

-- `KTool.kill`, from another thread.
unfoldable pub kill : Loader → Loader
kill l = record l { kill_process = true; tool_killed = true }

-- `try: ... except TimeoutError: pass`: whether the code came to its end.
unfoldable pub untimed : {A : Type 0} → Loader × Res A → Loader × Res Bool
untimed (l, ok a) = (l, ok true)
untimed (l, err timed_out) = (l, ok false)
untimed (l, err e) = (l, err e)

-- One try: a reset and the greeting.
unfoldable pub try_reset : List Action → Io Bool
unfolding untimed
try_reset reset l = untimed ((line_actions reset >> greeting) l)

-- The resets that are tried for a board, each with the board that it would show.
unfoldable pub tries : Board → List (List Action × Board)
tries dan = (reset_to_isp_dan, dan) ∷ []
tries bit = (reset_to_isp_dan, bit) ∷ []
tries trainer = (reset_to_isp_dan, trainer) ∷ []
tries kd233 = (reset_to_isp_kd233, kd233) ∷ []
tries go_e = (reset_to_isp_kd233, go_e) ∷ []
tries go_d = (reset_to_isp_go_d, go_d) ∷ []
tries b =
    (reset_to_isp_dan, dan)
    ∷ (reset_to_isp_kd233, kd233)
    ∷ (reset_to_isp_go_d, go_d)
    ∷ (reset_to_isp_kd233, kd233)
    ∷ []

unfoldable pub try_all : List (List Action × Board) → Io (Option Board)
try_all [] = pure none
try_all ((reset, b) ∷ rest) =
    let others = try_all rest in try_reset reset >>= λ done. if done then pure (some b) else others

-- `except Exception as e`: the exceptions become one, and the port is closed. `SystemExit` is no
-- `Exception`.
unfoldable pub greeted : {A : Type 0} → Loader × Res A → Loader × Res A
greeted (l, ok a) = (l, ok a)
greeted (l, err stalled) = (l, err stalled)
greeted (l, err (exit n)) = (l, err (exit n))
greeted (l, err e) = (close l, err greeting_failed)

unfoldable pub round : Board → Io (Option Board)
unfolding greeted tries
round b l = greeted (try_all (tries b) l)

-- The loop, with as many rounds left as the number says; the one after them ends the process.
unfoldable pub after_round : Io Board → Option Board → Io Board
after_round again none = again
after_round again (some b) = pure b

unfoldable pub detect_loop : ℕ → Board → Io Board
unfolding after_round
detect_loop zero b = tool_check >> raise (exit 1)
detect_loop (suc n) b = let again = detect_loop n b in tool_check >> (round b >>= after_round again)

unfoldable pub detect : Board → Io Board
unfolding detect_loop
detect = detect_loop 15
