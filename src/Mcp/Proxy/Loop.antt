-- ===== src/Mcp/Proxy/Loop.antt =====
-- What runLoop of internal/mcp/proxy.go does, against the list of the client's messages.
use locksmith.Common.{
  ◌≡◌, ◌∙◌, refl, ap, inl, inr, false, List, [], ◌∷◌, Option, none, some, Result, ok, err,
  if◌then◌else◌, Bool-cases, Result-cases,
}
use locksmith.Common.Text.{Text, is_empty}
use locksmith.Common.Words.{trim_right}
use locksmith.Mcp.Proxy.{
  Input, more, last, trim_line, Error, reading_stdin, setting_up, sending, First, found, nothing,
  broken, last_read, read_first_non_empty_line, send_line, shut_down, end_loop, send_loop,
  begin_loop, run_loop,
}

-- The messages of an input: its lines without the carriage returns and line feeds at their ends, those
-- with nothing else left out.
unfoldable pub add_message : Text → List Text → List Text
add_message line rest = if is_empty line then rest else line ∷ rest

unfoldable pub messages_of : Input → List Text
messages_of (more line input) = add_message (trim_line line) (messages_of input)
messages_of (last line end) = add_message (trim_line line) []

-- How the input ends.
unfoldable pub end_of : {E : Type 0} → Input → Result (Error E) (Unit {0})
end_of (more line input) = end_of input
end_of (last line none) = ok tt
end_of (last line (some e)) = err (reading_stdin e)

module _ {W T E : Type 0} (setup : W → W × Result E T)
    (send : T → Text → W → W × T × Result E (Unit {0})) (close : T → W → W) where
  -- Sending messages in order, up to the first that fails, and closing the transport.
  unfoldable pub send_all :
      List Text → Result (Error E) (Unit {0}) → T → W → W × Result (Error E) (Unit {0})
  send_all [] end t w = (close t w, end)
  send_all (m ∷ ms) end t w =
      let (w', t', r) = send t m w in
      elim r [ err e ↦ (close t' w', err (sending e)) | ok _ ↦ send_all ms end t' w' ]

  unfoldable pub after_setup :
      List Text → Result (Error E) (Unit {0}) → W × Result E T → W × Result (Error E) (Unit {0})
  after_setup messages end (w, err e) = (w, err (setting_up e))
  after_setup messages end (w, ok t) = send_all messages end t w

  -- With no message the world is left alone.
  unfoldable pub serve_all :
      List Text → Result (Error E) (Unit {0}) → W → W × Result (Error E) (Unit {0})
  serve_all [] end w = (w, end)
  serve_all (m ∷ ms) end w = after_setup (m ∷ ms) end (setup w)

  send_line-all :
      (line : Text) (next : T → W → W × Result (Error E) (Unit {0})) (rest : List Text)
      (end : Result (Error E) (Unit {0})) (t : T) (w : W)
      → ((t : T) (w : W) → next t w ≡ send_all rest end t w)
      → send_line setup send close line next t w ≡ send_all (add_message line rest) end t w
  unfolding send_line add_message send_all
  send_line-all line next rest end t w h = elim (Bool-cases (is_empty line)) [
    | inl blank ↦ rw blank (h t w)
    | inr text ↦ rw text (elim (Result-cases (send t line w).2) [
      | inl (u, done) ↦ rw (done, send_all) (h (send t line w).1 (send t line w).0)
      | inr (e, failed) ↦ rw (failed, send_all) (unfold shut_down in refl)
    ])
  ]

  end-all :
      (end : Option Text) (t : T) (w : W)
      → end_loop setup send close end t w ≡ send_all [] (end_of (last [] end)) t w
  unfolding end_loop shut_down send_all end_of
  end-all none t w = refl
  end-all (some e) t w = refl

  loop-all :
      (input : Input) (t : T) (w : W)
      → send_loop setup send close input t w ≡ send_all (messages_of input) (end_of input) t w
  unfolding send_loop messages_of end_of
  loop-all (more line input) t w =
      send_line-all (trim_line line) (send_loop setup send close input) (messages_of input)
        (end_of input) t w (loop-all input)
  loop-all (last line none) t w =
      send_line-all (trim_line line) (end_loop setup send close none) [] (ok tt) t w (end-all none)
  loop-all (last line (some e)) t w =
      send_line-all (trim_line line) (end_loop setup send close (some e)) [] (err (reading_stdin e))
        t w (end-all (some e))

  begun :
      (line : Text) (input : Input) (r : W × Result E T)
      → is_empty line ≡ false
      → begin_loop setup send close line input r
        ≡ after_setup (line ∷ messages_of input) (end_of input) r
  unfolding begin_loop after_setup
  begun line input (w, err e) h = refl
  begun line input (w, ok t) h =
      send_line-all line (send_loop setup send close input) (messages_of input) (end_of input) t w
        (loop-all input)
      ∙ ap (λ ms. send_all ms (end_of input) t w) (unfold add_message in rw h refl)

  -- runLoop, by what it reads first.
  after_first : W → First E → W × Result (Error E) (Unit {0})
  after_first w f = elim f [
    | nothing ↦ (w, ok tt)
    | broken e ↦ (w, err e)
    | found line rest ↦ begin_loop setup send close line rest (setup w)
  ]

  begun_last :
      (line : Text) (end : Option Text) (w : W)
      → is_empty line ≡ false
      → begin_loop setup send close line (last [] end) (setup w)
        ≡ after_setup (line ∷ []) (end_of (last [] end)) (setup w)
  unfolding is_empty trim_line trim_right
  begun_last line end w h =
      begun line (last [] end) (setup w) h ∙ (unfold messages_of add_message in refl)

  first-all :
      (input : Input) (w : W)
      → after_first w (read_first_non_empty_line {E = E} input)
        ≡ serve_all (messages_of input) (end_of input) w
  unfolding read_first_non_empty_line messages_of add_message end_of after_first serve_all
  first-all (more line input) w = elim (Bool-cases (is_empty (trim_line line))) [
    | inl blank ↦ rw blank (first-all input w)
    | inr text ↦ rw text (begun (trim_line line) input (setup w) text)
  ]
  first-all (last line none) w = elim (Bool-cases (is_empty (trim_line line))) [
    | inl blank ↦ rw blank (unfold last_read in refl)
    | inr text ↦ rw text (begun_last (trim_line line) none w text)
  ]
  first-all (last line (some e)) w = elim (Bool-cases (is_empty (trim_line line))) [
    | inl blank ↦ rw blank (unfold last_read in refl)
    | inr text ↦ rw text (begun_last (trim_line line) (some e) w text)
  ]

  -- What runLoop does is determined by the client's messages, the lines that hold anything but carriage
  -- returns and line feeds; a line of blanks is a message too, sent with its blanks. If there is none, it
  -- neither sets a transport up nor touches anything else. Otherwise it sets one up, sends the messages in
  -- order up to the first that fails, and closes the transport in every case in which it was set up; it
  -- returns the error of the setup, of that message, or of the input, or none.
  pub run_loop-all :
      (input : Input) (w : W)
      → run_loop setup send close input w ≡ serve_all (messages_of input) (end_of input) w
  unfolding run_loop after_first
  run_loop-all input w = first-all input w
