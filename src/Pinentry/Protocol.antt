-- ===== src/Pinentry/Protocol.antt =====
-- The replies of the loop `run` of internal/pinentry/assuan.go.
use mathlib.Core.List.{append_assoc}
use locksmith.Common.{
  ℕ, ◌+◌, ◌≡◌, ◌∙◌, refl, ap, sym, Bool, true, false, not, ◌||◌, List, [], ◌∷◌, ◌++◌, inl, inr,
  Option, none, some, arith, ◌&&◌, Bool-cases, if◌then◌else◌,
}
use locksmith.Common.Text.{Text, codes, has_prefix}
use locksmith.Pinentry.{
  Command, getpin, setdesc, setprompt, ignored, bye, unknown, read_line, decode_percent, State,
  begin, pin_lines, respond, run_loop, run,
}

-- A line that ends the reply to a command: OK or ERR.
unfoldable pub is_final : Text → Bool
is_final line = has_prefix line (codes "OK") || has_prefix line (codes "ERR")

unfoldable pub finals : List Text → ℕ
finals [] = 0
finals (line ∷ lines) = (if is_final line then 1 else 0) + finals lines

abbrev is_bye : Command → Bool
is_bye bye = true
is_bye _ = false

-- How many commands are read: all up to the first BYE, with it.
unfoldable pub commands : List Text → ℕ
commands [] = 0
commands (line ∷ lines) =
    let rest = commands lines in if is_bye (read_line line).0 then 1 else 1 + rest

finals-append : (a b : List Text) → finals (a ++ b) ≡ finals a + finals b
unfolding finals
finals-append [] b = omega arith
finals-append (x ∷ a) b = omega (arith, finals-append a b)

finals-pin_lines : (pin : Option Text) → finals (pin_lines pin) ≡ 1
unfolding finals pin_lines is_final has_prefix
finals-pin_lines none = refl
finals-pin_lines (some pin) = refl

pin_lines-nil : (pin : Option Text) → pin_lines pin ++ [] ≡ pin_lines pin
unfolding pin_lines
pin_lines-nil none = refl
pin_lines-nil (some pin) = refl

add_zero : (n : ℕ) → n ≡ n + 0
add_zero n = omega arith

zero_add : (n : ℕ) → 0 + n ≡ n
zero_add n = omega arith

-- The commands that set a variable of the loop.
abbrev pub takes_desc : Command → Bool
takes_desc setdesc = true
takes_desc _ = false

abbrev pub takes_prompt : Command → Bool
takes_prompt setprompt = true
takes_prompt _ = false

abbrev pub takes_pin : Command → Bool
takes_pin getpin = true
takes_pin _ = false

-- The decoded argument of the last line whose command is one of those asked for.
unfoldable pub last_arg : (Command → Bool) → Text → List Text → Text
last_arg wanted default [] = default
last_arg wanted default (line ∷ lines) =
    if wanted (read_line line).0
    then last_arg wanted (decode_percent (read_line line).1) lines
    else last_arg wanted default lines

unfoldable pub count_lines : (Command → Bool) → List Text → ℕ
count_lines wanted [] = 0
count_lines wanted (line ∷ lines) =
    let rest = count_lines wanted lines in if wanted (read_line line).0 then 1 + rest else rest

unfoldable pub stays_open : List Text → Bool
stays_open [] = true
stays_open (line ∷ lines) = not (is_bye (read_line line).0) && stays_open lines

module _ (get_password : ℕ → Text → Text → Option Text) where
  finals-respond :
      (c : Command) (arg : Text) (st : State) → finals (respond get_password c arg st).0 ≡ 1
  unfolding respond
  finals-respond getpin arg st = finals-pin_lines (get_password st.asked st.desc st.prompt)
  finals-respond setdesc arg st = unfold finals is_final has_prefix in refl
  finals-respond setprompt arg st = unfold finals is_final has_prefix in refl
  finals-respond ignored arg st = unfold finals is_final has_prefix in refl
  finals-respond bye arg st = unfold finals is_final has_prefix in refl
  finals-respond (unknown cmd) arg st = unfold finals is_final has_prefix in refl

  -- The state after a command other than BYE.
  abbrev goes_on : Command → Text → State → State
  goes_on getpin arg st = record st { asked = st.asked + 1 }
  goes_on setdesc arg st = record st { desc = decode_percent arg }
  goes_on setprompt arg st = record st { prompt = decode_percent arg }
  goes_on _ arg st = st

  next-respond :
      (c : Command) (arg : Text) (st : State)
      → (respond get_password c arg st).1 ≡ (if is_bye c then none else some (goes_on c arg st))
  unfolding respond
  next-respond getpin arg st = refl
  next-respond setdesc arg st = refl
  next-respond setprompt arg st = refl
  next-respond ignored arg st = refl
  next-respond bye arg st = refl
  next-respond (unknown cmd) arg st = refl

  loop_step :
      (line : Text) (lines : List Text) (st : State)
      → run_loop get_password (line ∷ lines) st ≡ (
          let (c, arg) = read_line line in
          if is_bye c
          then (respond get_password c arg st).0
          else (respond get_password c arg st).0 ++ run_loop get_password lines (goes_on c arg st))
  unfolding run_loop
  loop_step line lines st =
      let (c, arg) = read_line line in
      elim (Bool-cases (is_bye c)) [
        | inl last ↦ rw (next-respond c arg st, run_loop) (rw last)
        | inr more ↦ rw (next-respond c arg st, run_loop) (rw more)
      ]

  finals-run_loop :
      (lines : List Text) (st : State) → finals (run_loop get_password lines st) ≡ commands lines
  unfolding commands
  finals-run_loop [] st = unfold run_loop finals in refl
  finals-run_loop (line ∷ lines) st =
      let (c, arg) = read_line line in
      elim (Bool-cases (is_bye c)) [
        | inl last ↦ rw (loop_step line lines st) (rw last (finals-respond c arg st))
        | inr more ↦ rw (loop_step line lines st) (
            rw more (
              rw finals-append
                (rw (finals-respond c arg st) (rw (finals-run_loop lines (goes_on c arg st))))))
      ]

  -- Every command that is read gets exactly one line OK or ERR, in the order of the commands and after
  -- the greeting, up to the first BYE; nothing else is written but the data line before an OK.
  pub run-finals : (lines : List Text) → finals (run get_password lines) ≡ 1 + commands lines
  unfolding run finals is_final has_prefix
  run-finals lines = rw (finals-run_loop lines begin)

  goes_on-desc :
      (c : Command) (arg : Text) (st : State)
      → (goes_on c arg st).desc ≡ (if takes_desc c then decode_percent arg else st.desc)
  goes_on-desc getpin arg st = refl
  goes_on-desc setdesc arg st = refl
  goes_on-desc setprompt arg st = refl
  goes_on-desc ignored arg st = refl
  goes_on-desc bye arg st = refl
  goes_on-desc (unknown cmd) arg st = refl

  goes_on-prompt :
      (c : Command) (arg : Text) (st : State)
      → (goes_on c arg st).prompt ≡ (if takes_prompt c then decode_percent arg else st.prompt)
  goes_on-prompt getpin arg st = refl
  goes_on-prompt setdesc arg st = refl
  goes_on-prompt setprompt arg st = refl
  goes_on-prompt ignored arg st = refl
  goes_on-prompt bye arg st = refl
  goes_on-prompt (unknown cmd) arg st = refl

  goes_on-asked :
      (c : Command) (arg : Text) (st : State) (n : ℕ)
      → (goes_on c arg st).asked + n ≡ st.asked + (if takes_pin c then 1 + n else n)
  goes_on-asked getpin arg st n = omega arith
  goes_on-asked setdesc arg st n = refl
  goes_on-asked setprompt arg st n = refl
  goes_on-asked ignored arg st n = refl
  goes_on-asked bye arg st n = refl
  goes_on-asked (unknown cmd) arg st n = refl

  last_arg-step :
      (wanted : Command → Bool) (default : Text) (line : Text) (lines : List Text)
      → last_arg wanted
          (if wanted (read_line line).0 then decode_percent (read_line line).1 else default)
          lines
        ≡ last_arg wanted default (line ∷ lines)
  unfolding last_arg
  last_arg-step wanted default line lines = elim (Bool-cases (wanted (read_line line).0)) [
    | inl hit ↦ rw hit
    | inr miss ↦ rw miss
  ]

  -- What is written for a GETPIN that comes after these lines.
  abbrev asks : State → List Text → List Text
  asks st before = pin_lines (
      get_password (st.asked + count_lines takes_pin before) (last_arg takes_desc st.desc before)
        (last_arg takes_prompt st.prompt before))

  asks-step :
      (line : Text) (lines : List Text) (st : State)
      → asks (goes_on (read_line line).0 (read_line line).1 st) lines ≡ asks st (line ∷ lines)
  unfolding count_lines
  asks-step line lines st =
      let (c, arg) = read_line line in
      let d : last_arg takes_desc (goes_on c arg st).desc lines
          ≡ last_arg takes_desc st.desc (line ∷ lines) =
        ap (λ x. last_arg takes_desc x lines) (goes_on-desc c arg st)
        ∙ last_arg-step takes_desc st.desc line lines in
      let p : last_arg takes_prompt (goes_on c arg st).prompt lines
          ≡ last_arg takes_prompt st.prompt (line ∷ lines) =
        ap (λ x. last_arg takes_prompt x lines) (goes_on-prompt c arg st)
        ∙ last_arg-step takes_prompt st.prompt line lines in
      cc (d, p, goes_on-asked c arg st (count_lines takes_pin lines))

  run_loop-getpin :
      (before : List Text) (line : Text) (st : State)
      → stays_open before ≡ true
      → (read_line line).0 ≡ getpin
      → run_loop get_password (before ++ (line ∷ [])) st
        ≡ run_loop get_password before st ++ asks st before
  unfolding stays_open count_lines last_arg
  run_loop-getpin [] line st o g = rw (loop_step line [] st) (
      rw g (
        unfold run_loop respond in
        pin_lines-nil (get_password st.asked st.desc st.prompt)
        ∙ ap (λ n. pin_lines (get_password n st.desc st.prompt)) (add_zero st.asked)))
  run_loop-getpin (l ∷ before) line st o g =
      let (c, arg) = read_line l in
      let later = run_loop-getpin before line (goes_on c arg st) (ground arith) g in
      let more : is_bye c ≡ false = ground arith in
      rw (loop_step l (before ++ (line ∷ [])) st, loop_step l before st)
        (rw more (
          rw later (
            rw (asks-step l before st) (
              sym (
                append_assoc (respond get_password c arg st).0
                  (run_loop get_password before (goes_on c arg st)) (asks st (l ∷ before)))))))

  -- A GETPIN that comes after lines without BYE asks for a passphrase with the decoded arguments of the
  -- last SETDESC and the last SETPROMPT before it, each empty if there was none, and what it writes
  -- comes after the replies to the earlier lines.
  pub run-getpin :
      (before : List Text) (line : Text)
      → stays_open before ≡ true
      → (read_line line).0 ≡ getpin
      → run get_password (before ++ (line ∷ []))
        ≡ run get_password before
          ++ pin_lines (
              get_password
                (count_lines takes_pin before)
                (last_arg takes_desc [] before)
                (last_arg takes_prompt [] before))
  unfolding run
  run-getpin before line o g =
      ap (λ t. codes "OK Pleased to meet you" ∷ t)
        (run_loop-getpin before line begin o g
          ∙ ap
              (λ n.
                run_loop get_password before begin
                ++ pin_lines (
                    get_password n (last_arg takes_desc [] before)
                      (last_arg takes_prompt [] before)))
              (zero_add (count_lines takes_pin before)))
