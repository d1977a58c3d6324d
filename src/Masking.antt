-- ===== src/Masking.antt =====
-- sdk/session/session.go: session ids masked for logs and listings. A Go slice s[a:b] within bounds
-- is drop a and take of what is left.
use mathlib.Core.List.{append_assoc}
use locksmith.Common.{
  ℕ, ◌+◌, ◌-◌, ◌≤◌, ◌≡◌, ◌∙◌, refl, ap, sym, Bool, false, [], ◌∷◌, ◌++◌, arith, ltb, if◌then◌else◌,
  length, take, drop, length-append, zero, suc,
}
use locksmith.Common.Text.{Text, codes}

-- HideSessionId
unfoldable pub hide_session_id : Text → Text
hide_session_id session_id =
    if ltb (length session_id) 15
    then codes "****"
    else if ltb (length session_id) 30
    then take 5 session_id ++ (codes "****" ++ drop (length session_id - 4) session_id)
    else take 5 session_id ++ (codes "****" ++ drop (length session_id - 10) session_id)

-- MaskSessionId. The first argument is sdklog.IsDebug().
unfoldable pub mask_session_id : Bool → Text → Text
mask_session_id is_debug id = if is_debug then id else hide_session_id id

take-append_left : (n : ℕ) (xs ys : Text) → length xs ≡ n → take n (xs ++ ys) ≡ xs
take-append_left zero [] ys h = refl
take-append_left zero (x ∷ xs) ys h = absurd (omega arith)
take-append_left (suc n) [] ys h = absurd (omega arith)
take-append_left (suc n) (x ∷ xs) ys h = ap (◌∷◌ x) (take-append_left n xs ys (omega arith))

drop-append_left : (n : ℕ) (xs ys : Text) → length xs ≡ n → drop n (xs ++ ys) ≡ ys
drop-append_left zero [] ys h = refl
drop-append_left zero (x ∷ xs) ys h = absurd (omega arith)
drop-append_left (suc n) [] ys h = absurd (omega arith)
drop-append_left (suc n) (x ∷ xs) ys h = drop-append_left n xs ys (omega arith)

hide_long :
    (a m z : Text)
    → length a ≡ 5
    → length z ≡ 10
    → 15 ≤ length m
    → hide_session_id (a ++ (m ++ z)) ≡ a ++ (codes "****" ++ z)
unfolding hide_session_id
hide_long a m z ha hz hm =
    let w : Text = a ++ (m ++ z) in
    let len : length w ≡ 15 + length m =
      omega (arith, length-append a (m ++ z), length-append m z) in
    let tail : drop (length w - 10) w ≡ z =
      ap (drop (length w - 10)) (sym (append_assoc a m z))
      ∙ drop-append_left (length w - 10) (a ++ m) z (omega (arith, length-append a m)) in
    let test : ltb (length w) 15 ≡ false = ground arith in
    let test' : ltb (length w) 30 ≡ false = ground arith in
    let head : take 5 w ≡ a = take-append_left 5 a (m ++ z) ha in rw (test, test', tail, head)

-- Of a long id the mask shows the first five and the last ten characters and nothing else: ids that
-- agree there have one mask, whatever stands between, and the mask is 19 characters long.
pub hide_session_id_hides :
    (a m m' z : Text)
    → length a ≡ 5
    → length z ≡ 10
    → 15 ≤ length m
    → 15 ≤ length m'
    → (hide_session_id (a ++ (m ++ z)) ≡ hide_session_id (a ++ (m' ++ z)))
      × (length (hide_session_id (a ++ (m ++ z))) ≡ 19)
hide_session_id_hides a m m' z ha hz hm hm' = (
  hide_long a m z ha hz hm ∙ sym (hide_long a m' z ha hz hm'),
  ap length (hide_long a m z ha hz hm) ∙ omega (arith, length-append a (codes "****" ++ z)),
)
