-- ===== src/Process/Once.antt =====
-- How the search for the board of ktool.py ends.
use user_basic.Base.{ℕ, suc, Bool, true, false, some, List, ◌∷◌, if◌then◌else◌, ◌≡◌, refl, arith}
use user_basic.Ktool.Slip.{Bytes}
use user_basic.Ktool.Reset.{Action, reset_to_isp_dan, reset_to_isp_kd233, reset_to_isp_go_d}
use user_basic.Ktool.Response.{Parsed}
use user_basic.Ktool.Port.{
  Loader, timed_out, Res, ok, err, Io, ◌>>=◌, ◌>>◌, pure, line_actions, port_write, recv_one_return,
  after_scan, of_parsed, isp_reply, then_do,
}
use user_basic.Ktool.Greeting.{greeting}
use user_basic.Process.Args.{
  Board, unset, kd233, dan, bit, bit_mic, maixduino, trainer, go_e, go_d, other,
}
use user_basic.Process.Detect.{
  tool_check, untimed, try_reset, tries, try_all, greeted, round, after_round, detect_loop,
}

abbrev is_timed_out : {A : Type 0} → Res A → Bool
is_timed_out (err timed_out) = true
is_timed_out _ = false

-- The code never raises `TimeoutError`.
record NeverTimesOut {A : Type 0} (m : Io A) : Type 0 where
  at : (l : Loader) → is_timed_out (m l).1 ≡ false

NeverTimesOut-bind :
    {A B : Type 0} (m : Io A) (f : A → Io B)
    → NeverTimesOut m
    → ((a : A) → NeverTimesOut (f a))
    → NeverTimesOut (m >>= f)
NeverTimesOut-bind {A} {B} m f hm hf = record { at = λ l. go (m l) (hm.at l) }
  where
    go : (r : Loader × Res A) → is_timed_out r.1 ≡ false → is_timed_out (then_do f r).1 ≡ false
    go (l, ok a) h = (hf a).at l
    go (l, err e) h = h

port_write-NeverTimesOut : (bytes : Bytes) → NeverTimesOut (port_write bytes)
unfolding port_write
port_write-NeverTimesOut bytes = record { at = λ l. ground arith }

line_actions-NeverTimesOut : (added : List Action) → NeverTimesOut (line_actions added)
unfolding line_actions
line_actions-NeverTimesOut added = record { at = λ l. refl }

recv_one_return-NeverTimesOut : NeverTimesOut recv_one_return
unfolding recv_one_return after_scan
recv_one_return-NeverTimesOut = record { at = λ l. ground arith }

of_parsed-NeverTimesOut : (p : Parsed) → NeverTimesOut (of_parsed p)
unfolding of_parsed
of_parsed-NeverTimesOut p = record { at = λ l. ground arith }

greeting-NeverTimesOut : NeverTimesOut greeting
unfolding greeting isp_reply
greeting-NeverTimesOut = search (
  NeverTimesOut-bind, port_write-NeverTimesOut, recv_one_return-NeverTimesOut,
  of_parsed-NeverTimesOut,
)

-- The first reset that is tried, and the board that it would show.
abbrev pub first_try : Board → List Action × Board
first_try dan = (reset_to_isp_dan, dan)
first_try bit = (reset_to_isp_dan, bit)
first_try trainer = (reset_to_isp_dan, trainer)
first_try kd233 = (reset_to_isp_kd233, kd233)
first_try go_e = (reset_to_isp_kd233, go_e)
first_try go_d = (reset_to_isp_go_d, go_d)
first_try b = (reset_to_isp_dan, dan)

tries-first : (b : Board) → (rest : List (List Action × Board)) × (tries b ≡ first_try b ∷ rest)
unfolding tries
tries-first unset = (_, refl)
tries-first kd233 = (_, refl)
tries-first dan = (_, refl)
tries-first bit = (_, refl)
tries-first bit_mic = (_, refl)
tries-first go_e = (_, refl)
tries-first go_d = (_, refl)
tries-first maixduino = (_, refl)
tries-first trainer = (_, refl)
tries-first (other name) = (_, refl)

untimed-bind :
    {B : Type 0} (m : Io (Unit {0})) (f : Bool → Io B) (l : Loader)
    → NeverTimesOut m
    → then_do f (untimed (m l)) ≡ (m >> f true) l
unfolding untimed
untimed-bind {B} m f l h = let e = h.at l in go (m l) e
  where
    go :
        (r : Loader × Res (Unit {0}))
        → is_timed_out r.1 ≡ false
        → then_do f (untimed r) ≡ then_do (λ _. f true) r
    go (l', ok u) h' = refl
    go (l', err e) h' = ground arith

reset_greeting-NeverTimesOut :
    (reset : List Action) → NeverTimesOut (line_actions reset >> greeting)
reset_greeting-NeverTimesOut reset =
    NeverTimesOut-bind _ _ (line_actions-NeverTimesOut reset) (λ _. greeting-NeverTimesOut)

try_reset-bind :
    {B : Type 0} (reset : List Action) (f : Bool → Io B) (l : Loader)
    → (try_reset reset >>= f) l ≡ (line_actions reset >> greeting >> f true) l
unfolding try_reset
try_reset-bind reset f l = untimed-bind _ f l (reset_greeting-NeverTimesOut reset)

-- The search with one attempt.
abbrev pub once : Board → Io Board
once b l = greeted ((line_actions (first_try b).0 >> greeting >> pure (first_try b).1) l)

after_greeted :
    (again : Io Board) (b : Board) (r : Loader × Res (Unit {0}))
    → then_do (after_round again) (greeted (then_do (λ _. pure (some b)) r))
      ≡ greeted (then_do (λ _. pure b) r)
unfolding greeted after_round
after_greeted again b (l, ok u) = refl
after_greeted again b (l, err e) = ground arith

try_all-first :
    (t : List Action × Board) (rest : List (List Action × Board)) (l : Loader)
    → try_all (t ∷ rest) l ≡ (line_actions t.0 >> greeting >> pure (some t.1)) l
unfolding try_all
try_all-first (reset, b) rest l =
    try_reset-bind reset (λ done. if done then pure (some b) else try_all rest) l

round-once :
    (again : Io Board) (b : Board) (l : Loader) → (round b >>= after_round again) l ≡ once b l
unfolding round
round-once again b l =
    let t = tries-first b in
    rw (t.1, try_all-first (first_try b) t.0 l)
      (after_greeted again (first_try b).1 ((line_actions (first_try b).0 >> greeting) l))

checked :
    {A : Type 0} (m n : Io A) (l : Loader)
    → ((l' : Loader) → m l' ≡ n l')
    → (tool_check >> m) l ≡ (tool_check >> n) l
checked {A} m n l h = go (tool_check l)
  where
    go : (r : Loader × Res (Unit {0})) → then_do (λ _. m) r ≡ then_do (λ _. n) r
    go (l', ok u) = h l'
    go (l', err e) = refl

-- However many rounds the search for the board has, it ends in its first one: the greeting is tried
-- once, after the first reset for the board, and whatever it raises ends the search.
pub detect_loop-once :
    (n : ℕ) (b : Board) (l : Loader) → detect_loop (suc n) b l ≡ (tool_check >> once b) l
unfolding detect_loop
detect_loop-once n b l = checked _ _ l (round-once _ b)
