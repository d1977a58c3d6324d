-- ===== src/Pinentry.antt =====
-- internal/pinentry/assuan.go: the Assuan protocol that gpg-agent speaks to a pinentry. The lines are
-- those that the scanner returns, and the n-th call of getPassword is `get_password n`.
pub mod Encoding
pub mod Protocol
use locksmith.Common.{
  ℕ, ◌+◌, ◌-◌, ◌*◌, ◌/◌, ◌%◌, Bool, true, false, ◌&&◌, ◌||◌, List, [], ◌∷◌, ◌++◌, Option, none,
  some, ltb, leb, ◌==◌, if◌then◌else◌,
}
use locksmith.Common.Text.{Text, codes, text_eq, to_upper}
use locksmith.Common.Split.{cut}
use locksmith.Common.Words.{trim_space}

-- hexVal; -1 is `none`.
unfoldable pub hex_val : ℕ → Option ℕ
hex_val c =
    if leb b'0' c && leb c b'9'
    then some (c - b'0')
    else if leb b'a' c && leb c b'f'
    then some (c - b'a' + 10)
    else if leb b'A' c && leb c b'F'
    then some (c - b'A' + 10)
    else none

-- The characters that a data line must not hold.
unfoldable pub is_special : ℕ → Bool
is_special c = (c == b'%') || ((c == 13) || ((c == 10) || (c == 0)))

-- A digit of %02X.
unfoldable pub upper_hex : ℕ → ℕ
upper_hex n = if ltb n 10 then 48 + n else 55 + n

-- encodeAssuan
unfoldable pub encode_assuan : Text → Text
encode_assuan [] = []
encode_assuan (c ∷ s) =
    let rest = encode_assuan s in
    if is_special c then b'%' ∷ upper_hex (c / 16) ∷ upper_hex (c % 16) ∷ rest else c ∷ rest

-- The byte of an escape: hi<<4 | lo, with both below 16.
unfoldable pub escape : ℕ → ℕ → ℕ → Option ℕ
escape c h l =
    if c == b'%'
    then elim (hex_val h) [
      | none ↦ none
      | some hi ↦ elim (hex_val l) [ none ↦ none | some lo ↦ some (hi * 16 + lo) ]
    ]
    else none

-- decodePercent
unfoldable pub decode_percent : Text → Text
decode_percent [] = []
decode_percent (c ∷ []) = c ∷ []
decode_percent (c ∷ d ∷ []) = c ∷ d ∷ []
decode_percent (c ∷ h ∷ l ∷ rest) = elim (escape c h l) [
  | some b ↦ b ∷ decode_percent rest
  | none ↦ c ∷ decode_percent (h ∷ l ∷ rest)
]

pub data Command : Type 0 where
  getpin setdesc setprompt ignored bye : Command
  unknown : Text → Command

abbrev is_ignored : Text → Bool
is_ignored cmd =
    text_eq cmd (codes "SETERROR")
    || (text_eq cmd (codes "SETTITLE")
        || (text_eq cmd (codes "SETKEYINFO")
            || (text_eq cmd (codes "SETREPEAT")
                || (text_eq cmd (codes "SETREPEATERROR")
                    || (text_eq cmd (codes "OPTION")
                        || (text_eq cmd (codes "CLEARPASSPHRASE") || text_eq cmd (codes "NOP")))))))

-- switch cmd
unfoldable pub command : Text → Command
command cmd =
    if text_eq cmd (codes "GETPIN")
    then getpin
    else if text_eq cmd (codes "SETDESC")
    then setdesc
    else if text_eq cmd (codes "SETPROMPT")
    then setprompt
    else if is_ignored cmd
    then ignored
    else if text_eq cmd (codes "BYE")
    then bye
    else unknown cmd

-- The command and the argument of a line.
unfoldable pub read_line : Text → Command × Text
read_line line = let (cmd, arg, found) = cut 32 line in (command (to_upper (trim_space cmd)), arg)

-- The variables of the loop, with the number of calls of getPassword so far.
pub record State : Type 0 where
  pub desc : Text
  pub prompt : Text
  pub asked : ℕ

abbrev pub begin : State
begin = record { desc = []; prompt = []; asked = 0 }

-- The lines written for a passphrase, or for none.
unfoldable pub pin_lines : Option Text → List Text
pin_lines none = codes "ERR 83886179 Operation cancelled" ∷ []
pin_lines (some pin) = (codes "D " ++ encode_assuan pin) ∷ codes "OK" ∷ []

module _ (get_password : ℕ → Text → Text → Option Text) where
  -- One round of the loop: the lines written, and the next state unless it returns.
  unfoldable pub respond : Command → Text → State → List Text × Option State
  respond getpin arg st = (
    pin_lines (get_password st.asked st.desc st.prompt),
    some (record st { asked = st.asked + 1 }),
  )
  respond setdesc arg st = (codes "OK" ∷ [], some (record st { desc = decode_percent arg }))
  respond setprompt arg st = (codes "OK" ∷ [], some (record st { prompt = decode_percent arg }))
  respond ignored arg st = (codes "OK" ∷ [], some st)
  respond bye arg st = (codes "OK closing connection" ∷ [], none)
  respond (unknown cmd) arg st = ((codes "ERR 536871187 Unknown command " ++ cmd) ∷ [], some st)

  unfoldable pub run_loop : List Text → State → List Text
  run_loop [] st = []
  run_loop (line ∷ lines) st =
      let (cmd, arg) = read_line line in
      let (out, next) = respond cmd arg st in
      elim next [ none ↦ out | some st' ↦ out ++ run_loop lines st' ]

  -- run: the lines written.
  unfoldable pub run : List Text → List Text
  run lines = codes "OK Pleased to meet you" ∷ run_loop lines begin
