-- ===== src/Ktool/Reset.antt =====
-- The resets of `MAIXLoader` in ktool.py: what they do to the control lines of the port.
use user_basic.Base.{ℕ, Bool, true, false, List, [], ◌∷◌, ◌++◌}

-- `setDTR`, `setRTS` and `time.sleep`, in milliseconds.
pub data Action : Type 0 where
  set_dtr set_rts : Bool → Action
  sleep : ℕ → Action
  -- `miniterm.main`, with the rate and the level of both lines.
  miniterm : ℕ → Bool → Action

abbrev lines : Bool → Bool → List Action
lines dtr rts = set_dtr dtr ∷ set_rts rts ∷ sleep 100 ∷ []

abbrev lines_rts_first : Bool → Bool → List Action
lines_rts_first dtr rts = set_rts rts ∷ set_dtr dtr ∷ sleep 100 ∷ []

unfoldable pub reset_to_isp_kd233 : List Action
reset_to_isp_kd233 = lines false false ++ (lines true false ++ lines_rts_first false true)

unfoldable pub reset_to_boot_kd233 : List Action
reset_to_boot_kd233 = lines false false ++ (lines true false ++ lines_rts_first false false)

unfoldable pub reset_to_isp_dan : List Action
reset_to_isp_dan = lines false false ++ (lines false true ++ lines_rts_first true false)

unfoldable pub reset_to_boot_dan : List Action
reset_to_boot_dan = lines false false ++ (lines false true ++ lines_rts_first false false)

unfoldable pub reset_to_isp_go_d : List Action
reset_to_isp_go_d = lines true true ++ (lines_rts_first true false ++ lines_rts_first true false)

unfoldable pub reset_to_boot_go_d : List Action
reset_to_boot_go_d = lines false false ++ (lines_rts_first true false ++ lines_rts_first true true)

unfoldable pub reset_to_boot_maixgo : List Action
reset_to_boot_maixgo =
    lines false false ++ (lines_rts_first true false ++ lines_rts_first false false)
